-- ===== src/Strides/Iter.antt =====
-- crates/mohu-buffer/src/strides.rs: `NdIndexIter` and `StridedByteIter`.
pub mod Odometer
pub mod Runs
pub mod Yield
pub mod Bytes
use mohu_fork_nirman.Base.{
  ℕ, zero, suc, ◌+◌, ◌-◌, Bool, true, false, not, List, [], ◌∷◌, Option, none, some, ltb, ◌==◌,
  if◌then◌else◌, length, get_or, set, replicate,
}
use mohu_fork_nirman.Base.Words.{add_word, mul_word}
use mohu_fork_nirman.Strides.{byte_offset}

pub record NdIndexIter : Type 0 where
  pub shape : List ℕ
  pub current : List ℕ
  pub done : Bool
  pub count : ℕ
  pub total : ℕ

-- `shape.iter().product::<usize>()`, which wraps.
unfoldable pub wrapping_product : ℕ → List ℕ → ℕ
unfolding mul_word
wrapping_product acc [] = acc
wrapping_product acc (d ∷ ds) = wrapping_product (mul_word acc d) ds

unfoldable pub new : List ℕ → NdIndexIter
unfolding wrapping_product
new shape =
    let total = wrapping_product 1 shape in
    record {
      shape = shape;
      current = replicate (length shape) 0;
      done = total == 0;
      count = 0;
      total = total;
    }

-- The body of the loop of `advance` at `axis`: the axis is bumped within the dimension, which ends
-- the loop, or reset to 0. The axis is below the length of both lists, so no read takes the
-- default.
unfoldable pub bump_axis : ℕ → List ℕ → List ℕ → List ℕ × Bool
unfolding add_word
bump_axis axis shape current =
    let bumped = add_word (get_or current axis 0) 1 in
    if ltb bumped (get_or shape axis 0)
    then (set current axis bumped, true)
    else (set current axis 0, false)

-- The loop from `axis` down to 0: the new indices, and whether axis 0 was reset too.
unfoldable pub advance_loop : ℕ → List ℕ → List ℕ → List ℕ × Bool
advance_loop zero shape current =
    let (current', stop) = bump_axis zero shape current in (current', not stop)
advance_loop (suc axis) shape current =
    let (current', stop) = bump_axis (suc axis) shape current in
    let rest = advance_loop axis shape current' in if stop then (current', false) else rest

-- `advance` on the pair of `current` and `done`. With no axis it sets `done`.
unfoldable pub advance : NdIndexIter → NdIndexIter
unfolding advance_loop bump_axis
advance it =
    if length it.shape == 0
    then record it { done = true }
    else (let (current, over) = advance_loop (length it.shape - 1) it.shape it.current in
        record it { current = current; done = if over then true else it.done })

unfoldable pub next : NdIndexIter → Option (List ℕ) × NdIndexIter
unfolding add_word
next it =
    if it.done
    then (none, it)
    else (let counted = record it { count = add_word it.count 1 } in
        (
          some it.current,
          if ltb counted.count counted.total
              then advance counted
              else record counted { done = true },
        ))

-- `size_hint`: the indices still to come, both bounds alike.
unfoldable pub size_hint : NdIndexIter → ℕ
size_hint it = it.total - it.count

pub record StridedByteIter : Type 0 where
  pub nd_iter : NdIndexIter
  pub strides : List ℕ
  pub base_offset : ℕ

unfoldable pub new_bytes : List ℕ → List ℕ → ℕ → StridedByteIter
new_bytes shape strides base_offset = record {
  nd_iter = new shape;
  strides = strides;
  base_offset = base_offset;
}

unfoldable pub next_byte : StridedByteIter → Option ℕ × StridedByteIter
next_byte it =
    let (item, rest) = next it.nd_iter in
    (
      elim item [ none ↦ none | some idx ↦ some (byte_offset idx it.strides it.base_offset) ],
      record it { nd_iter = rest },
    )
