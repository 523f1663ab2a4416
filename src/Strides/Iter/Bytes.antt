-- ===== src/Strides/Iter/Bytes.antt =====
-- crates/mohu-buffer/src/strides.rs: the runs of `StridedByteIter`.
use mohu_fork_nirman.Base.{
  ℕ, zero, suc, ◌+◌, ◌*◌, ◌≤◌, ◌<◌, ◌≡◌, ◌⊎◌, inl, inr, refl, ap, ◌∙◌, List, Option, none, some,
  arith, dec_lt,
}
use mohu_fork_nirman.Base.Words.{usize_mod, isize_max}
use mohu_fork_nirman.Strides.{byte_offset, c_strides}
use mohu_fork_nirman.Strides.Bounds.{product}
use mohu_fork_nirman.Strides.Address.{byte_offset-c_strides}
use mohu_fork_nirman.Strides.Iter.{next, StridedByteIter, new_bytes, next_byte}
use mohu_fork_nirman.Strides.Iter.Yield.{after, nth, nth-within, nth-past}

abbrev pub at_index : List ℕ → ℕ → Option (List ℕ) → Option ℕ
at_index strides base none = none
at_index strides base (some idx) = some (byte_offset idx strides base)

-- The iterator after `k` calls of `next`, and what the call after those returns.
unfoldable pub after_bytes : ℕ → StridedByteIter → StridedByteIter
after_bytes zero it = it
after_bytes (suc k) it = (next_byte (after_bytes k it)).1

unfoldable pub nth_byte : ℕ → StridedByteIter → Option ℕ
nth_byte k it = (next_byte (after_bytes k it)).0

next_byte-at_index :
    (it : StridedByteIter)
    → next_byte it ≡ (
      at_index it.strides it.base_offset (next it.nd_iter).0,
      record it { nd_iter = (next it.nd_iter).1 },
    )
unfolding next_byte
next_byte-at_index it = ground arith

after_bytes-after :
    (k : ℕ) (it : StridedByteIter) → after_bytes k it ≡ record it { nd_iter = after k it.nd_iter }
unfolding after_bytes after
after_bytes-after zero it = refl
after_bytes-after (suc k) it =
    ap (λ t. (next_byte t).1) (after_bytes-after k it) ∙ ap (λ r. r.1) (next_byte-at_index _)

pub nth_byte-nth :
    (k : ℕ) (it : StridedByteIter)
    → nth_byte k it ≡ at_index it.strides it.base_offset (nth k it.nd_iter)
unfolding nth_byte nth
nth_byte-nth k it =
    ap (λ t. (next_byte t).0) (after_bytes-after k it) ∙ ap (λ r. r.0) (next_byte-at_index _)

-- Over the row-major strides of a shape with no zero whose elements take at most `isize::MAX`
-- bytes, from a base whose end does not pass 2 ^ 64, the byte iterator yields the base, then one
-- item further each time, for as many elements as the shape has, and then nothing.
pub nth_byte-c_strides :
    (shape : List ℕ) (item base k : ℕ)
    → 0 < item
    → product shape < usize_mod
    → item * product shape ≤ isize_max
    → base + item * product shape < usize_mod
    → let it = new_bytes shape (c_strides shape item) base in
      ((k < product shape) × (nth_byte k it ≡ some (base + item * k)))
      ⊎ ((product shape ≤ k) × (nth_byte k it ≡ none))
unfolding new_bytes
nth_byte-c_strides shape item base k q w h fits = elim (dec_lt k (product shape)) [
  | yes p ↦
      let (idx, e, within, number) = nth-within shape k w p in
      let address = (byte_offset-c_strides shape idx item base q h fits within).0 in
      inl (
        p,
        nth_byte-nth k _
            ∙ ap (at_index (c_strides shape item) base) e
            ∙ ap some (address ∙ ap (λ n. base + item * n) number),
      )
  | no q' ↦ inr (
    omega arith,
    nth_byte-nth k _ ∙ ap (at_index (c_strides shape item) base) (nth-past shape k w (omega arith)),
  )
]

-- Past the size of its shape the byte iterator yields nothing, whatever the strides.
pub nth_byte-past :
    (shape strides : List ℕ) (base k : ℕ)
    → product shape < usize_mod
    → product shape ≤ k
    → nth_byte k (new_bytes shape strides base) ≡ none
unfolding new_bytes
nth_byte-past shape strides base k w h =
    nth_byte-nth k _ ∙ ap (at_index strides base) (nth-past shape k w h)

after_bytes-shift :
    (k : ℕ) (it : StridedByteIter) → after_bytes (suc k) it ≡ after_bytes k (next_byte it).1
unfolding after_bytes
after_bytes-shift zero it = refl
after_bytes-shift (suc k) it = ap (λ t. (next_byte t).1) (after_bytes-shift k it)

pub nth_byte-shift :
    (k : ℕ) (it : StridedByteIter) → nth_byte (suc k) it ≡ nth_byte k (next_byte it).1
unfolding nth_byte
nth_byte-shift k it = ap (λ t. (next_byte t).0) (after_bytes-shift k it)

pub nth_byte-first : (it : StridedByteIter) → nth_byte 0 it ≡ (next_byte it).0
unfolding nth_byte after_bytes
nth_byte-first it = refl
