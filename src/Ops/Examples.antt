-- ===== src/Ops/Examples.antt =====
-- crates/mohu-buffer/src/ops.rs: vectors of three truth values, and of indices, for runs of the theorems.
mod Elementwise
mod Indexed
mod Reduced
use mohu_fork_nirman.Base.{
  ℕ, suc, ◌+◌, ◌*◌, ◌%◌, ◌≤◌, ◌<◌, ◌≡◌, ◌≢◌, refl, Bool, true, false, not, ◌||◌, ◌&&◌, none, some,
  List, [], ◌∷◌, map, ◌==◌, length, text_eq, if◌then◌else◌, codes, replicate, arith,
}
use mohu_fork_nirman.Errors.{ok}
use mohu_fork_nirman.DType.{DType, bool, i64, u8, itemsize}
use mohu_fork_nirman.DType.Code.{dtype_eq}
use mohu_fork_nirman.DType.Scalar.{Scalar}
use mohu_fork_nirman.Alloc.{heap_block}
use mohu_fork_nirman.Layout.{size, is_c_contiguous, is_empty, ndim}
use mohu_fork_nirman.Buffer.{RawBuffer, owned, Memory, Buffer, only_writeable}
use mohu_fork_nirman.Buffer.Copy.{is_writeable}
use mohu_fork_nirman.Buffer.Create.{to_vec, as_slice}
use mohu_fork_nirman.Buffer.Access.{check_dtype}
use mohu_fork_nirman.Strides.{c_strides}
use mohu_fork_nirman.Strides.Iter.{wrapping_product}
use mohu_fork_nirman.Base.Words.{mul_word, isize_max}
use mohu_fork_nirman.Buffer.Copy.{set_unique}
use mohu_fork_nirman.Ops.Map.{parallel_zip, clip, clip_value}
use mohu_fork_nirman.Ops.Contents.{All, Holds}
use mohu_fork_nirman.Ops.Elementwise.{parallel_zip-Holds, clip-bounds}
use mohu_fork_nirman.Ops.Scan.{parallel_scan}
use mohu_fork_nirman.Ops.Scan.Chunked.{parallel_scan-Holds}
use mohu_fork_nirman.Ops.Reduce.{piece, split_at, reduce}
use mohu_fork_nirman.Ops.Reduce.Fold.{reduce-total}
use mohu_fork_nirman.Ops.Fill.{fill, fill_sequential}
use mohu_fork_nirman.Ops.Fill.Sequence.{running, fill_sequential-Holds, fill-to_vec}
use mohu_fork_nirman.Ops.Indexed.{position, gather, scatter}
use mohu_fork_nirman.Ops.Indexed.Places.{put_all, Distinct}
use mohu_fork_nirman.Ops.Indexed.Calls.{Indices, places, scatter-to_vec, gather-scatter}
use mohu_fork_nirman.Ops.Stored.{Owned}

abbrev byte_of : Bool → List ℕ
byte_of true = 1 ∷ []
byte_of false = 0 ∷ []

abbrev is_one : List ℕ → Bool
is_one [] = false
is_one (b ∷ bs) = b == 1

byte_of-length : (b : Bool) → length (byte_of b) ≡ itemsize bool
unfolding itemsize
byte_of-length true = refl
byte_of-length false = refl

is_one-byte_of : (b : Bool) → is_one (byte_of b) ≡ b
is_one-byte_of true = refl
is_one-byte_of false = refl

abbrev xor : Bool → Bool → Bool
xor true b = not b
xor false b = b

abbrev truth : Scalar Bool
truth = record {
  dtype = bool;
  one = true;
  to_bytes = byte_of;
  from_bytes = is_one;
  length-to_bytes = byte_of-length;
  from_bytes-to_bytes = is_one-byte_of;
}

-- The blocks of truth values start with 0, 1, 0 or 1, 0, 1; block 3 holds the 64-bit numbers 2, 0, 1.
abbrev block : ℕ → RawBuffer
block k = record {
  source = owned (record { inner = heap_block 4096 32 64; len = 32; align = 64; mlocked = false });
  ptr = 4096;
  nbytes = 32;
  strong_count = 1;
  bytes = λ i. if k == 3 then (if i == 0 then 2 else if i == 16 then 1 else 0) else (i + k) % 2;
}

abbrev memory : Memory
memory = record {
  stats = record {
    live_bytes = 128;
    peak_bytes = 128;
    alloc_count = 4;
    free_count = 0;
    heap_live_bytes = 128;
    mmap_live_bytes = 0;
  };
  raws = block;
  next_raw = 4;
  released = [];
}

-- The vector in block `k`.
abbrev vector : ℕ → Buffer
vector k = record {
  raw = k;
  dtype = bool;
  layout = record { shape = 3 ∷ []; strides = 1 ∷ []; offset = 0; itemsize = 1 };
  flags = only_writeable;
}

abbrev indices : Buffer
indices = record (vector 3) {
  dtype = i64;
  layout = record { shape = 3 ∷ []; strides = 8 ∷ []; offset = 0; itemsize = 8 };
}

abbrev index_bytes : List (List ℕ)
index_bytes =
    (2 ∷ 0 ∷ 0 ∷ 0 ∷ 0 ∷ 0 ∷ 0 ∷ 0 ∷ [])
    ∷ (0 ∷ 0 ∷ 0 ∷ 0 ∷ 0 ∷ 0 ∷ 0 ∷ 0 ∷ [])
    ∷ (1 ∷ 0 ∷ 0 ∷ 0 ∷ 0 ∷ 0 ∷ 0 ∷ 0 ∷ [])
    ∷ []

whole : (k : ℕ) → is_c_contiguous (vector k).layout ≡ true
unfolding is_c_contiguous is_empty ndim text_eq c_strides
whole k = refl

three : (k : ℕ) → size (vector k).layout ≡ 3
unfolding size wrapping_product mul_word
three k = refl

same : dtype_eq bool bool ≡ true
unfolding dtype_eq
same = refl

sole_1 : Owned memory bool (vector 1)
unfolding dtype_eq is_writeable is_c_contiguous is_empty size itemsize ndim text_eq c_strides
    wrapping_product
sole_1 = record { owner = refl; typed = refl; writeable = refl; whole = refl; room = omega arith }

sole_2 : Owned memory bool (vector 2)
unfolding dtype_eq is_writeable is_c_contiguous is_empty size itemsize ndim text_eq c_strides
    wrapping_product
sole_2 = record { owner = refl; typed = refl; writeable = refl; whole = refl; room = omega arith }

held_0 : Holds truth memory (vector 0) (false ∷ true ∷ false ∷ [])
unfolding to_vec as_slice check_dtype dtype_eq is_writeable is_c_contiguous is_empty size itemsize
    ndim text_eq c_strides wrapping_product
held_0 = refl

held_1 : Holds truth memory (vector 1) (true ∷ false ∷ true ∷ [])
unfolding to_vec as_slice check_dtype dtype_eq is_writeable is_c_contiguous is_empty size itemsize
    ndim text_eq c_strides wrapping_product
held_1 = refl

given : Indices memory indices index_bytes
unfolding to_vec as_slice check_dtype dtype_eq is_writeable is_c_contiguous is_empty size itemsize
    ndim text_eq c_strides wrapping_product
given = record { typed = refl; whole = refl; held = refl }

same_size : (k : ℕ) → size indices.layout ≡ size (vector k).layout
unfolding size
same_size k = refl
