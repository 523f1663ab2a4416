-- ===== src/Alloc/Sizes.antt =====
-- crates/mohu-buffer/src/alloc.rs: powers of two as sizes, and what an allocation gives.
use mohu_fork_nirman.Base.{
  ℕ, zero, suc, ◌*◌, ◌^◌, ◌≤◌, ◌<◌, ◌≡◌, ◌⊎◌, inl, inr, refl, sym, subst, ◌∙◌, arith, dec_le,
  le→leb, gt→leb,
}
use native.Mathlib.Nat.{pow-suc}
use mohu_fork_nirman.Alloc.{double_from, next_power_of_two}

double_from-found : (fuel p n : ℕ) → n ≤ p → double_from (suc fuel) p n ≡ p
unfolding double_from
double_from-found fuel p n h = rw (le→leb n p h) refl

double_from-skip : (fuel p n : ℕ) → p < n → double_from (suc fuel) p n ≡ double_from fuel (2 * p) n
unfolding double_from
double_from-skip fuel p n h = rw (gt→leb n p (omega arith)) refl

-- A search from `p` that ends at `r`: the number fits, with less than twice its size unless the first
-- candidate serves, and the same search for `r` ends there too.
abbrev Found : ℕ → ℕ → ℕ → ℕ → Type 0
Found fuel p n r = (n ≤ r) × (p ≤ r) × ((r < 2 * n) ⊎ (r ≡ p)) × (double_from fuel p r ≡ r)

here : (fuel p n : ℕ) → n ≤ p → Found (suc fuel) p n p
here fuel p n h = (h, omega arith, inr refl, double_from-found fuel p p (omega arith))

further : (fuel p n r : ℕ) → 0 < p → p < n → Found fuel (2 * p) n r → Found (suc fuel) p n r
further fuel p n r q h (fits, above, tight, again) =
    (fits, omega arith, inl (ground arith), double_from-skip fuel p r (omega arith) ∙ again)

swap : (p q : ℕ) → p * (q * 2) ≡ 2 * p * q
swap p q = grind arith

doubled : (p fuel : ℕ) → p * 2 ^ suc fuel ≡ 2 * p * 2 ^ fuel
doubled p fuel = rw (pow-suc 2 fuel) (swap p (2 ^ fuel))

double_from-Found :
    (fuel p n : ℕ) → 0 < p → n ≤ p * 2 ^ fuel → Found (suc fuel) p n (double_from (suc fuel) p n)
double_from-Found zero p n q h =
    let le : n ≤ p = grind arith in
    subst (Found 1 p n) (sym (double_from-found 0 p n le)) (here 0 p n le)
double_from-Found (suc fuel) p n q h = elim (dec_le n p) [
  | yes le ↦
      subst (Found (suc (suc fuel)) p n) (sym (double_from-found (suc fuel) p n le))
        (here (suc fuel) p n le)
  | no gt ↦
      let twice : n ≤ 2 * p * 2 ^ fuel = subst (λ k. n ≤ k) (doubled p fuel) h in
      subst (Found (suc (suc fuel)) p n) (sym (double_from-skip (suc fuel) p n (omega arith))) (
        further (suc fuel) p n _ q (omega arith)
          (double_from-Found fuel (2 * p) n (omega arith) twice))
]

-- `next_power_of_two` of a number up to 2 ^ 63 is at least the number and, above 1, below its double;
-- and it is its own power of two.
pub next_power_of_two_lem :
    (n : ℕ)
    → n ≤ 2 ^ 63
    → (n ≤ next_power_of_two n)
      × (1 ≤ next_power_of_two n)
      × ((next_power_of_two n < 2 * n) ⊎ (next_power_of_two n ≡ 1))
      × (next_power_of_two (next_power_of_two n) ≡ next_power_of_two n)
unfolding next_power_of_two
next_power_of_two_lem n h = double_from-Found 63 1 n (omega arith) (omega arith)

power-positive : (fuel : ℕ) → 1 ≤ 2 ^ fuel
power-positive zero = omega arith
power-positive (suc fuel) = rw (pow-suc 2 fuel) (omega (arith, power-positive fuel))

double_from-wraps : (fuel p n : ℕ) → 0 < p → p * 2 ^ fuel < 2 * n → double_from fuel p n ≡ 0
unfolding double_from
double_from-wraps zero p n q h = refl
double_from-wraps (suc fuel) p n q h =
    let twice : 2 * p * 2 ^ fuel < 2 * n = subst (λ k. k < 2 * n) (doubled p fuel) h in
    let least : 2 * p * 1 ≤ 2 * p * 2 ^ fuel = grind (arith, power-positive fuel) in
    double_from-skip fuel p n (omega arith) ∙ double_from-wraps fuel (2 * p) n (omega arith) twice

-- Past 2 ^ 63, `next_power_of_two` wraps to 0.
pub next_power_of_two-wraps : (n : ℕ) → 2 ^ 63 < n → next_power_of_two n ≡ 0
unfolding next_power_of_two
next_power_of_two-wraps n h = double_from-wraps 64 1 n (omega arith) (omega arith)
