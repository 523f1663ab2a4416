-- ===== src/Ops/Contents.antt =====
-- crates/mohu-buffer/src/ops.rs and buffer.rs: what the slice of a contiguous buffer contains.
use mohu_fork_nirman.Base.{
  ℕ, zero, suc, ◌+◌, ◌*◌, ◌≤◌, ◌≡◌, refl, ap, sym, subst, ◌∙◌, true, List, [], ◌∷◌, map, le→leb,
  length, Bool-cases, inl, inr, leb,
}
use mohu_fork_nirman.Errors.{
  err_not_ok, MohuResult, MohuError, ok, err, panic, ◌>>=◌, dtype_mismatch, dtype_name,
}
use mohu_fork_nirman.DType.{DType, itemsize}
use mohu_fork_nirman.DType.Code.{as_u8, dtype_eq}
use mohu_fork_nirman.DType.Scalar.{Scalar}
use mohu_fork_nirman.Layout.{size, is_c_contiguous}
use mohu_fork_nirman.Buffer.{Memory, Buffer}
use mohu_fork_nirman.Buffer.Copy.{bytes_at, set_unique}
use mohu_fork_nirman.Buffer.Access.{check_dtype}
use mohu_fork_nirman.Buffer.Create.{elements_at, as_slice, to_vec}
use mohu_fork_nirman.Buffer.Roundtrip.{OfSize}
use mohu_fork_nirman.Ops.{load_bytes, load}

abbrev pub All : {A : Type 0} → (A → Type 0) → List A → Type 0
All P [] = Unit {0}
All P (x ∷ xs) = P x × All P xs

-- `to_vec` gives these values.
abbrev pub Holds : {A : Type 0} → Scalar A → Memory → Buffer → List A → Type 0
Holds s mem buf xs = to_vec mem s.dtype buf ≡ ok (map s.to_bytes xs)

length-elements_at : (bytes : ℕ → ℕ) (off size n : ℕ) → length (elements_at bytes off size n) ≡ n
length-elements_at bytes off size zero = refl
length-elements_at bytes off size (suc n) = ap suc (length-elements_at bytes (off + size) size n)

pub length-map : {A B : Type 0} (f : A → B) (xs : List A) → length (map f xs) ≡ length xs
length-map f [] = refl
length-map f (x ∷ xs) = ap suc (length-map f xs)

pub OfSize-to_bytes :
    {A : Type 0} (s : Scalar A) (xs : List A) → OfSize (itemsize s.dtype) (map s.to_bytes xs)
OfSize-to_bytes s [] = tt
OfSize-to_bytes s (x ∷ xs) = (s.length-to_bytes x, OfSize-to_bytes s xs)

from_bytes-values :
    {A : Type 0} (s : Scalar A) (xs : List A) → map s.from_bytes (map s.to_bytes xs) ≡ xs
from_bytes-values s [] = refl
from_bytes-values s (x ∷ xs) =
    ap (λ y. y ∷ map s.from_bytes (map s.to_bytes xs)) (s.from_bytes-to_bytes x)
    ∙ ap (λ l. x ∷ l) (from_bytes-values s xs)

mismatch : DType → Buffer → MohuError
mismatch t buf = dtype_mismatch (dtype_name (as_u8 t)) (dtype_name (as_u8 buf.dtype))

to_vec-load_bytes :
    (mem : Memory) (t : DType) (buf : Buffer)
    → is_c_contiguous buf.layout ≡ true
    → to_vec mem t buf
      ≡ (check_dtype t buf >>= λ done. load_bytes mem buf (itemsize t) (size buf.layout))
unfolding to_vec as_slice check_dtype load_bytes
to_vec-load_bytes mem t buf whole = elim (Bool-cases (dtype_eq t buf.dtype)) [
  | inl e ↦ rw (e, whole) refl
  | inr e ↦ rw e refl
]

-- Values that come out of a slice are as many as the slice has places.
load_bytes-length :
    (mem : Memory) (buf : Buffer) (size n : ℕ) (vs : List (List ℕ))
    → load_bytes mem buf size n ≡ ok vs
    → length vs ≡ n
unfolding load_bytes
load_bytes-length mem buf size n vs h =
    subst Long h (elim (Bool-cases (leb (buf.layout.offset + n * size) (mem.raws buf.raw).nbytes)) [
      | inl e ↦ rw (e, Long) (length-elements_at (mem.raws buf.raw).bytes buf.layout.offset size n)
      | inr e ↦ rw (e, Long) tt
    ])
  where
    Long : MohuResult (List (List ℕ)) → Type 0
    Long (ok values) = length values ≡ n
    Long (err e) = Unit {0}
    Long panic = Unit {0}

-- The bytes of a contiguous buffer's slice are what `to_vec` gives.
pub load_bytes-to_vec :
    (mem : Memory) (t : DType) (buf : Buffer) (vs : List (List ℕ))
    → is_c_contiguous buf.layout ≡ true
    → to_vec mem t buf ≡ ok vs
    → load_bytes mem buf (itemsize t) (size buf.layout) ≡ ok vs
unfolding check_dtype mismatch
load_bytes-to_vec mem t buf vs whole holds = elim (Bool-cases (dtype_eq t buf.dtype)) [
  | inl e ↦ sym (to_vec-load_bytes mem t buf whole ∙ rw e refl) ∙ holds
  | inr e ↦
      let wrong : to_vec mem t buf ≡ err (mismatch t buf) =
        to_vec-load_bytes mem t buf whole ∙ rw e refl in
      absurd (err_not_ok (sym wrong ∙ holds))
]

pub length-to_vec :
    (mem : Memory) (t : DType) (buf : Buffer) (vs : List (List ℕ))
    → is_c_contiguous buf.layout ≡ true
    → to_vec mem t buf ≡ ok vs
    → length vs ≡ size buf.layout
length-to_vec mem t buf vs whole holds =
    load_bytes-length mem buf (itemsize t) (size buf.layout) vs
      (load_bytes-to_vec mem t buf vs whole holds)

length-bytes_at : (bytes : ℕ → ℕ) (off n : ℕ) → length (bytes_at bytes off n) ≡ n
length-bytes_at bytes off zero = refl
length-bytes_at bytes off (suc n) = ap suc (length-bytes_at bytes (suc off) n)

OfSize-elements_at : (bytes : ℕ → ℕ) (off size n : ℕ) → OfSize size (elements_at bytes off size n)
OfSize-elements_at bytes off size zero = tt
OfSize-elements_at bytes off size (suc n) =
    (length-bytes_at bytes off size, OfSize-elements_at bytes (off + size) size n)

OfSize-load_bytes :
    (mem : Memory) (buf : Buffer) (size n : ℕ) (vs : List (List ℕ))
    → load_bytes mem buf size n ≡ ok vs
    → OfSize size vs
unfolding load_bytes
OfSize-load_bytes mem buf size n vs h =
    subst Sized h
      (elim (Bool-cases (leb (buf.layout.offset + n * size) (mem.raws buf.raw).nbytes)) [
        | inl e ↦
            rw (e, Sized) (OfSize-elements_at (mem.raws buf.raw).bytes buf.layout.offset size n)
        | inr e ↦ rw (e, Sized) tt
      ])
  where
    Sized : MohuResult (List (List ℕ)) → Type 0
    Sized (ok values) = OfSize size values
    Sized (err e) = Unit {0}
    Sized panic = Unit {0}

pub OfSize-to_vec :
    (mem : Memory) (t : DType) (buf : Buffer) (vs : List (List ℕ))
    → is_c_contiguous buf.layout ≡ true
    → to_vec mem t buf ≡ ok vs
    → OfSize (itemsize t) vs
OfSize-to_vec mem t buf vs whole holds =
    OfSize-load_bytes mem buf (itemsize t) (size buf.layout) vs
      (load_bytes-to_vec mem t buf vs whole holds)

-- `to_vec` looks at the buffer's own block only, and at no flags.
pub to_vec-raws :
    (mem mem' : Memory) (t : DType) (buf : Buffer)
    → mem'.raws buf.raw ≡ mem.raws buf.raw
    → to_vec mem' t buf ≡ to_vec mem t buf
unfolding to_vec as_slice
to_vec-raws mem mem' t buf same = rw same refl

pub to_vec-set_unique :
    (mem : Memory) (t : DType) (buf : Buffer) → to_vec mem t (set_unique buf) ≡ to_vec mem t buf
unfolding to_vec as_slice set_unique
to_vec-set_unique mem t buf = refl

-- The slice of a contiguous buffer has the values that it holds.
pub load-Holds :
    {A : Type 0} (s : Scalar A) (mem : Memory) (buf : Buffer) (xs : List A)
    → is_c_contiguous buf.layout ≡ true
    → Holds s mem buf xs
    → load s mem buf (size buf.layout) ≡ ok xs
unfolding load
load-Holds s mem buf xs whole holds =
    rw (load_bytes-to_vec mem s.dtype buf (map s.to_bytes xs) whole holds)
      (ap ok (from_bytes-values s xs))

pub length-Holds :
    {A : Type 0} (s : Scalar A) (mem : Memory) (buf : Buffer) (xs : List A)
    → is_c_contiguous buf.layout ≡ true
    → Holds s mem buf xs
    → length xs ≡ size buf.layout
length-Holds s mem buf xs whole holds =
    sym (length-map s.to_bytes xs) ∙ length-to_vec mem s.dtype buf (map s.to_bytes xs) whole holds

pub to_vec-elements_at :
    (mem : Memory) (t : DType) (buf : Buffer)
    → dtype_eq t buf.dtype ≡ true
    → is_c_contiguous buf.layout ≡ true
    → buf.layout.offset + size buf.layout * itemsize t ≤ (mem.raws buf.raw).nbytes
    → to_vec mem t buf
      ≡ ok (elements_at (mem.raws buf.raw).bytes buf.layout.offset (itemsize t) (size buf.layout))
unfolding to_vec as_slice check_dtype
to_vec-elements_at mem t buf typed whole room =
    rw
      (
        typed,
        whole,
        le→leb (buf.layout.offset + size buf.layout * itemsize t) (mem.raws buf.raw).nbytes room,
      )
      refl
