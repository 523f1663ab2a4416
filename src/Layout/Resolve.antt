-- ===== src/Layout/Resolve.antt =====
-- crates/mohu-buffer/src/layout.rs: the elements of an axis that `SliceArg::resolve` selects.
use native.Mathlib.Nat.{le-div_iff_mul-le}
use mohu_fork_nirman.Base.{
  ℕ, suc, ◌+◌, ◌-◌, ◌*◌, ◌/◌, ◌≤◌, ◌<◌, ◌≡◌, ◌↔◌, refl, ap, Option, none, some, leb, if◌then◌else◌,
  arith, dec_le, le→leb,
}
use mohu_fork_nirman.Base.Ints.{ℤ, pos, negsuc}
use mohu_fork_nirman.Base.Words.{usize_mod, usize_max, isize_max}
use mohu_fork_nirman.Errors.{ok}
use mohu_fork_nirman.Layout.Slice.{
  SliceArg, clamp, map_or, unwrap_or, div_ceil, e_reversed_empty, resolve,
}

pub lt-div_ceil : (i a n : ℕ) → (i < div_ceil a (suc n)) ↔ (i * suc n < a)
lt-div_ceil i a n =
    let both : (suc i ≤ (a + (suc n - 1)) / suc n) ↔ (suc i * suc n ≤ a + (suc n - 1)) =
      le-div_iff_mul-le (omega arith) in
    ((λ h. omega (arith, both.0 h)), (λ h. both.1 (omega arith)))

-- The count of a forward slice.
pub forward_count :
    (start stop n i : ℕ)
    → (i < (if leb stop start then 0 else div_ceil (stop - start) (suc n)))
      ↔ (start + i * suc n < stop)
forward_count start stop n i = elim (dec_le stop start) [
  | yes p ↦ rw (le→leb stop start p) ((λ h. absurd (omega arith)), (λ h. absurd (omega arith)))
  | no q ↦ let both = lt-div_ceil i (stop - start) n in ground (arith, both.0, both.1)
]

clamp-le : (dim : ℕ) (v : ℤ) → clamp dim v ≤ dim
unfolding clamp
clamp-le dim (pos v) = omega arith
clamp-le dim (negsuc v) = omega arith

pub stop-le : (dim : ℕ) (stop : Option ℤ) → map_or stop dim (clamp dim) ≤ dim
stop-le dim none = omega arith
stop-le dim (some v) = clamp-le dim v

-- With a positive step `n + 1` a slice resolves to a start, a count and that step, where the start
-- and the stop are the arguments held to the axis, by default its two ends; element `i` belongs to
-- the count exactly when `start + i * (n + 1)` lies before the stop, and then it lies on the axis.
pub resolve_forward :
    (arg : SliceArg) (dim n i : ℕ)
    → unwrap_or arg.step (pos 1) ≡ pos (suc n)
    → let start = map_or arg.start 0 (clamp dim) in
      let stop = map_or arg.stop dim (clamp dim) in
      (count : ℕ) × (resolve arg dim ≡ ok (start, count, suc n))
      × ((i < count) ↔ (start + i * suc n < stop))
      × (stop ≤ dim)
unfolding resolve
resolve_forward arg dim n i h = (
  _,
  rw h refl,
  forward_count (map_or arg.start 0 (clamp dim)) (map_or arg.stop dim (clamp dim)) n i,
  stop-le dim arg.stop,
)

start-le : (dim : ℕ) (start : Option ℤ) → map_or start (dim - 1) (clamp dim) ≤ dim
start-le dim none = omega arith
start-le dim (some v) = clamp-le dim v

reversed_empty :
    (start n : ℕ)
    → start ≤ usize_max
    → (if e_reversed_empty start usize_max then 0 else div_ceil (start - usize_max) (suc n)) ≡ 0
unfolding e_reversed_empty
reversed_empty start n h =
    let both = lt-div_ceil 0 (start - usize_max) n in
    let none_left : ¬ (0 < div_ceil (start - usize_max) (suc n)) =
      λ l. absurd (omega (arith, both.0 l)) in
    omega (arith, none_left)

-- A slice with a negative step and no stop selects no element of an axis, whatever its start and the
-- axis's size, which is at most `isize::MAX`.
pub resolve_reversed :
    (arg : SliceArg) (dim n : ℕ)
    → arg.step ≡ some (negsuc n)
    → arg.stop ≡ none
    → dim ≤ isize_max
    → resolve arg dim ≡ ok (map_or arg.start (dim - 1) (clamp dim), 0, usize_mod - suc n)
unfolding resolve
resolve_reversed arg dim n h k b =
    let start = map_or arg.start (dim - 1) (clamp dim) in
    rw (h, k)
      (ap (λ c. ok (start, c, usize_mod - suc n))
        (reversed_empty start n (omega (arith, start-le dim arg.start))))
