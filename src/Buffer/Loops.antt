-- ===== src/Buffer/Loops.antt =====
-- crates/mohu-buffer/src/buffer.rs and ops.rs: the loops over `StridedByteIter` end within their rounds.
use mohu_fork_nirman.Base.{
  ℕ, zero, suc, ◌<◌, ◌≡◌, inl, inr, refl, ap, sym, ◌∙◌, none, List, ◌∷◌, Option-cases, arith,
}
use mohu_fork_nirman.Base.Words.{usize_mod}
use mohu_fork_nirman.Errors.{MohuResult, ok, err, panic, ◌>>=◌}
use mohu_fork_nirman.Strides.Bounds.{product}
use mohu_fork_nirman.Strides.Iter.{StridedByteIter, new_bytes, next_byte}
use mohu_fork_nirman.Strides.Iter.Bytes.{nth_byte, nth_byte-past, nth_byte-shift, nth_byte-first}
use mohu_fork_nirman.Buffer.{RawBuffer, Memory, then_do}
use mohu_fork_nirman.Buffer.Copy.{copy_loop, read}
use mohu_fork_nirman.Buffer.Create.{collect_loop, fill_loop}

collect_loop-rounds :
    (fuel rounds : ℕ) (it : StridedByteIter) (raw : RawBuffer) (size : ℕ)
    → nth_byte fuel it ≡ none
    → fuel < rounds
    → collect_loop rounds it raw size ≡ collect_loop (suc fuel) it raw size
unfolding collect_loop
collect_loop-rounds fuel zero it raw size over more = absurd (omega arith)
collect_loop-rounds zero (suc rounds) it raw size over more =
    let first = sym (nth_byte-first it) ∙ over in rw (first, collect_loop) refl
collect_loop-rounds (suc fuel) (suc rounds) it raw size over more =
    elim (Option-cases (next_byte it).0) [
      | inl e ↦ rw (e, collect_loop) refl
      | inr (off, e) ↦
          let rest =
            collect_loop-rounds fuel rounds (next_byte it).1 raw size
              (sym (nth_byte-shift fuel it) ∙ over) (omega arith) in
          rw (e, collect_loop)
            (ap (λ r. read raw off size >>= λ value. r >>= λ values. ok (value ∷ values)) rest)
    ]

then_do-same :
    {S A B : Type 0} (r : MohuResult A × S) (f g : A → S → MohuResult B × S)
    → ((a : A) (s : S) → f a s ≡ g a s)
    → then_do r f ≡ then_do r g
then_do-same (ok a, s) f g h = h a s
then_do-same (err e, s) f g h = refl
then_do-same (panic, s) f g h = refl

fill_loop-rounds :
    (fuel rounds : ℕ) (it : StridedByteIter) (mem : Memory) (k first : ℕ) (value : List ℕ)
    → nth_byte fuel it ≡ none
    → fuel < rounds
    → fill_loop rounds it mem k first value ≡ fill_loop (suc fuel) it mem k first value
unfolding fill_loop
fill_loop-rounds fuel zero it mem k first value over more = absurd (omega arith)
fill_loop-rounds zero (suc rounds) it mem k first value over more =
    let start = sym (nth_byte-first it) ∙ over in rw (start, fill_loop) refl
fill_loop-rounds (suc fuel) (suc rounds) it mem k first value over more =
    elim (Option-cases (next_byte it).0) [
      | inl e ↦ rw (e, fill_loop) refl
      | inr (off, e) ↦
          rw (e, fill_loop)
            (then_do-same _ _ _ (λ done mem'.
              fill_loop-rounds fuel rounds (next_byte it).1 mem' k first value
                (sym (nth_byte-shift fuel it) ∙ over) (omega arith)))
    ]

copy_loop-rounds :
    (fuel rounds : ℕ) (it : StridedByteIter) (idx : ℕ) (mem : Memory)
    (src src_start dst dst_start len len' : ℕ)
    → nth_byte fuel it ≡ none
    → fuel < rounds
    → copy_loop rounds it idx mem src src_start dst dst_start len len'
      ≡ copy_loop (suc fuel) it idx mem src src_start dst dst_start len len'
unfolding copy_loop
copy_loop-rounds fuel zero it idx mem src src_start dst dst_start len len' over more =
    absurd (omega arith)
copy_loop-rounds zero (suc rounds) it idx mem src src_start dst dst_start len len' over more =
    let start = sym (nth_byte-first it) ∙ over in rw (start, copy_loop) refl
copy_loop-rounds (suc fuel) (suc rounds) it idx mem src src_start dst dst_start len len' over more =
    elim (Option-cases (next_byte it).0) [
      | inl e ↦ rw (e, copy_loop) refl
      | inr (off, e) ↦
          rw (e, copy_loop)
            (then_do-same _ _ _ (λ done mem'.
              copy_loop-rounds fuel rounds (next_byte it).1 (suc idx) mem' src src_start dst
                dst_start len len' (sym (nth_byte-shift fuel it) ∙ over) (omega arith)))
    ]

-- One round more than the elements of the shape is enough for each loop over the byte iterator, whatever
-- the strides: any larger number of rounds collects, fills and copies the same.
pub loops_end :
    (shape strides : List ℕ) (base rounds : ℕ) (raw : RawBuffer) (mem : Memory)
    (k first idx src src_start dst dst_start len len' : ℕ) (value : List ℕ)
    → product shape < usize_mod
    → product shape < rounds
    → (collect_loop rounds (new_bytes shape strides base) raw len
        ≡ collect_loop (suc (product shape)) (new_bytes shape strides base) raw len)
      × (fill_loop rounds (new_bytes shape strides base) mem k first value
          ≡ fill_loop (suc (product shape)) (new_bytes shape strides base) mem k first value)
      × (copy_loop rounds
            (new_bytes shape strides base)
            idx
            mem
            src
            src_start
            dst
            dst_start
            len
            len'
          ≡ copy_loop
              (suc (product shape))
              (new_bytes shape strides base)
              idx
              mem
              src
              src_start
              dst
              dst_start
              len
              len')
loops_end shape strides base rounds raw mem k first idx src src_start dst dst_start len len' value
      small more =
    let it = new_bytes shape strides base in
    let over = nth_byte-past shape strides base (product shape) small (omega arith) in
    (
      collect_loop-rounds (product shape) rounds it raw len over more,
      fill_loop-rounds (product shape) rounds it mem k first value over more,
      copy_loop-rounds (product shape) rounds it idx mem src src_start dst dst_start len len' over
          more,
    )
