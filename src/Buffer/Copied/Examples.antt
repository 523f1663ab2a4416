-- ===== src/Buffer/Copied/Examples.antt =====
-- crates/mohu-buffer/src/buffer.rs: copies of two rows of three numbers, with the axes turned round.
use mohu_fork_nirman.Base.{ℕ, ◌+◌, ◌≤◌, ◌≡◌, inl, refl, some, true, List, [], ◌∷◌, arith}
use mohu_fork_nirman.Base.Words.{add_word, mul_word}
use mohu_fork_nirman.Errors.{ok}
use mohu_fork_nirman.DType.{i16, itemsize}
use mohu_fork_nirman.Strides as strides_module
use mohu_fork_nirman.Strides.Bounds.{InBounds}
use mohu_fork_nirman.Layout.{byte_offset_unchecked}
use mohu_fork_nirman.Buffer.{Memory, Buffer}
use mohu_fork_nirman.Buffer.Copy.{is_writeable, make_unique}
use mohu_fork_nirman.Buffer.Access.{get}
use mohu_fork_nirman.Buffer.Access as access
use mohu_fork_nirman.Buffer.Copied.Offsets.{Readable}
use mohu_fork_nirman.Buffer.Copied.Unshared.{Unshared, make_unique-Unshared}
use mohu_fork_nirman.Buffer.Copied.Stored.{get-set_copied}
use mohu_fork_nirman.Buffer.Examples.{memory, numbers}

abbrev turned : Buffer
turned = record numbers {
  layout = record { shape = 3 ∷ 2 ∷ []; strides = 2 ∷ 6 ∷ []; offset = 0; itemsize = 2 };
}

inside_turned :
    (idx : List ℕ) → InBounds idx (3 ∷ 2 ∷ []) → byte_offset_unchecked turned.layout idx + 2 ≤ 12
unfolding byte_offset_unchecked strides_module.byte_offset add_word mul_word
inside_turned [] b = absurd b
inside_turned (i ∷ []) b = absurd b.1
inside_turned (i ∷ j ∷ []) (h, (k, _)) = omega arith
inside_turned (i ∷ j ∷ l ∷ idx) b = absurd b.1.1

turned-Readable : Readable (memory 2) turned
unfolding itemsize
turned-Readable = record {
  axes = refl;
  item = refl;
  elements = omega arith;
  fits = omega arith;
  inside = inside_turned;
  start = inl refl;
}

make_unique-Unshared_example :
    (buf' : Buffer) × (mem' : Memory) × (make_unique (some 8192) (λ i. 0) (turned, memory 2)
      ≡ (ok tt, (buf', mem')))
    × Unshared (memory 2) mem' turned buf'
make_unique-Unshared_example =
    make_unique-Unshared 8192 (λ i. 0) (memory 2) turned (omega arith) turned-Readable

turned-is_writeable : is_writeable turned ≡ true
unfolding is_writeable
turned-is_writeable = refl

two_bytes : 2 ≡ itemsize i16
unfolding itemsize
two_bytes = refl

get-set_copied_example :
    (buf' : Buffer) × (mem' : Memory) × (access.set
        (some 8192)
        (λ i. 0)
        i16
        (2 ∷ 1 ∷ [])
        (7 ∷ 8 ∷ [])
        (turned, memory 2)
      ≡ (ok tt, (buf', mem')))
    × (get mem' i16 buf' (2 ∷ 1 ∷ []) ≡ ok (7 ∷ 8 ∷ []))
    × ((jdx : List ℕ)
        → InBounds jdx (3 ∷ 2 ∷ [])
        → ¬ (jdx ≡ 2 ∷ 1 ∷ [])
        → get mem' i16 buf' jdx ≡ get (memory 2) i16 turned jdx)
get-set_copied_example =
    get-set_copied 8192 (λ i. 0) (memory 2) turned (2 ∷ 1 ∷ []) (7 ∷ 8 ∷ []) (omega arith)
      turned-Readable (λ e. absurd (omega (arith, e))) turned-is_writeable
      (omega arith, (omega arith, tt)) two_bytes
