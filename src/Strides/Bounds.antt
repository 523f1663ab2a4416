-- ===== src/Strides/Bounds.antt =====
-- The exact product of a shape, the indices within a shape, and the row-major number of an index.
use mohu_fork_nirman.Base.{
  ℕ, zero, suc, ◌+◌, ◌*◌, ◌≤◌, ◌<◌, ◌≡◌, refl, ap₂, sym, ap, ◌⊎◌, inl, inr, List, [], ◌∷◌, length,
  arith,
}

abbrev pub product : List ℕ → ℕ
product [] = 1
product (d ∷ ds) = d * product ds

-- One index below each dimension.
abbrev pub InBounds : List ℕ → List ℕ → Type 0
InBounds [] [] = Unit {0}
InBounds [] (d ∷ ds) = ⊥
InBounds (i ∷ is) [] = ⊥
InBounds (i ∷ is) (d ∷ ds) = (i < d) × InBounds is ds

-- The row-major number of an index: the last axis varies fastest.
abbrev pub linear : List ℕ → List ℕ → ℕ
linear [] ds = 0
linear (i ∷ is) [] = 0
linear (i ∷ is) (d ∷ ds) = i * product ds + linear is ds

pub zero-or-positive : (n : ℕ) → (n ≡ 0) ⊎ (0 < n)
zero-or-positive zero = inl refl
zero-or-positive (suc n) = inr (omega arith)

pub positive-mul : (d p : ℕ) → 0 < d * p → (0 < d) × (0 < p)
positive-mul zero p h = omega arith
positive-mul (suc d) zero h = omega arith
positive-mul (suc d) (suc p) h = omega arith

pub scale : (n p : ℕ) → 0 < p → n ≤ n * p
scale n zero h = absurd (omega arith)
scale n (suc p) h = omega arith

pub linear-lt : (is ds : List ℕ) → InBounds is ds → linear is ds < product ds
linear-lt [] [] h = omega arith
linear-lt [] (d ∷ ds) h = absurd h
linear-lt (i ∷ is) [] h = absurd h
linear-lt (i ∷ is) (d ∷ ds) h = grind (arith, linear-lt is ds h.1)

pub InBounds-length : (is ds : List ℕ) → InBounds is ds → length is ≡ length ds
InBounds-length [] [] h = refl
InBounds-length [] (d ∷ ds) h = absurd h
InBounds-length (i ∷ is) [] h = absurd h
InBounds-length (i ∷ is) (d ∷ ds) h = ap suc (InBounds-length is ds h.1)

quotient_le : (a b r s p : ℕ) → s < p → a * p + r ≡ b * p + s → a ≤ b
quotient_le a b r s p hs e = grind arith

-- A quotient and a remainder below the divisor are determined by the number that they make.
pub digits_unique : (a b r s p : ℕ) → r < p → s < p → a * p + r ≡ b * p + s → (a ≡ b) × (r ≡ s)
digits_unique a b r s p hr hs e =
    let same : a ≡ b =
      omega (arith, quotient_le a b r s p hs e, quotient_le b a s r p hr (sym e)) in
    (same, omega (arith, e, ap (λ (t : ℕ). t * p) same))

pub linear-injective :
    (is js ds : List ℕ) → InBounds is ds → InBounds js ds → linear is ds ≡ linear js ds → is ≡ js
linear-injective [] [] [] h k e = refl
linear-injective [] (j ∷ js) [] h k e = absurd k
linear-injective (i ∷ is) js [] h k e = absurd h
linear-injective [] js (d ∷ ds) h k e = absurd h
linear-injective (i ∷ is) [] (d ∷ ds) h k e = absurd k
linear-injective (i ∷ is) (j ∷ js) (d ∷ ds) h k e =
    let parts =
      digits_unique i j (linear is ds) (linear js ds) (product ds) (linear-lt is ds h.1)
        (linear-lt js ds k.1) e in
    ap₂ ◌∷◌ parts.0 (linear-injective is js ds h.1 k.1 parts.1)
