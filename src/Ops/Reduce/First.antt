-- ===== src/Ops/Reduce/First.antt =====
-- crates/mohu-buffer/src/ops.rs: `argmin_flat` and `argmax_flat` give the first minimum and the first maximum.
use mathlib.Core.Option.{some-injective, some-ne-none}
use mohu_fork_nirman.Base.{
  ℕ, zero, suc, ◌+◌, ◌<◌, ◌≡◌, ◌⊎◌, inl, inr, refl, ap, sym, subst, ◌∙◌, Bool, true, false,
  Bool-cases, some, List, [], ◌∷◌, get_elem?, arith,
}
use mohu_fork_nirman.Ops.Scan.{total}
use mohu_fork_nirman.Ops.Reduce.{Split, reduce_with, enumerate, lesser_at, index_or_0}
use mohu_fork_nirman.Ops.Reduce.Fold.{reduce_with-total}

-- A total preorder, as a test.
pub record Preorder {A : Type 0} (le : A → A → Bool) : Type 0 where
  pub le_trans : (a b c : A) → le a b ≡ true → le b c ≡ true → le a c ≡ true
  pub le_total : (a b : A) → le a b ≡ false → le b a ≡ true

clash : false ≡ true → ⊥
clash h = ground arith

lesser_at_assoc :
    {A : Type 0} (le : A → A → Bool)
    → Preorder le
    → (a b c : ℕ × A) → lesser_at le (lesser_at le a b) c ≡ lesser_at le a (lesser_at le b c)
lesser_at_assoc le order (i, a) (j, b) (k, c) = elim (Bool-cases (le a b)) [
  | inl ab ↦ elim (Bool-cases (le b c)) [
    | inl bc ↦ rw (bc, ab, order.le_trans a b c ab bc) refl
    | inr bc ↦ rw (bc, ab) refl
  ]
  | inr ab ↦ elim (Bool-cases (le b c)) [
    | inl bc ↦ rw (bc, ab) (rw bc refl)
    | inr bc ↦ elim (Bool-cases (le a c)) [
      | inl ac ↦ absurd (clash (sym ab ∙ order.le_trans a c b ac (order.le_total b c bc)))
      | inr ac ↦ rw (bc, ab, ac) (rw bc refl)
    ]
  ]
]

-- What a fold over values at places from `k` on leaves of the candidate `(i, a)`: a least value, and where
-- it is not the candidate, the first place of it.
record Least {A : Type 0} (le : A → A → Bool) (i k : ℕ) (a : A) (xs : List A) (r : ℕ × A)
    : Type 0 where
  below : le r.1 a ≡ true
  least : (j : ℕ) (w : A) → get_elem? xs j ≡ some w → le r.1 w ≡ true
  place :
      (r ≡ (i, a))
      ⊎ ((m : ℕ) × (r.0 ≡ k + m)
          × (get_elem? xs m ≡ some r.1)
          × (le a r.1 ≡ false)
          × ((j : ℕ) (w : A) → j < m → get_elem? xs j ≡ some w → le w r.1 ≡ false))

module _ {A : Type 0} (le : A → A → Bool) (order : Preorder le) where
  le_refl : (a : A) → le a a ≡ true
  le_refl a = elim (Bool-cases (le a a)) [ inl e ↦ e | inr e ↦ order.le_total a a e ]

  not_above : (a b c : A) → le a c ≡ false → le a b ≡ true → le b c ≡ false
  not_above a b c h ab = elim (Bool-cases (le b c)) [
    | inl bc ↦ absurd (clash (sym h ∙ order.le_trans a b c ab bc))
    | inr bc ↦ bc
  ]

  not_below : (a b c : A) → le a c ≡ false → le b c ≡ true → le a b ≡ false
  not_below a b c h bc = elim (Bool-cases (le a b)) [
    | inl ab ↦ absurd (clash (sym h ∙ order.le_trans a b c ab bc))
    | inr ab ↦ ab
  ]

  keep-Least :
      (i k : ℕ) (a x : A) (xs : List A) (r : ℕ × A)
      → le a x ≡ true
      → Least le i (suc k) a xs r
      → Least le i k a (x ∷ xs) r
  keep-Least i k a x xs r ax h = record {
    below = h.below;
    least = first_least;
    place = elim h.place [
      | inl same ↦ inl same
      | inr (m, at, found, above, before) ↦
          inr (suc m, at ∙ omega arith, found, above, first_before m above before)
    ];
  }
    where
      first_least : (j : ℕ) (w : A) → get_elem? (x ∷ xs) j ≡ some w → le r.1 w ≡ true
      first_least zero w e =
          subst (λ v. le r.1 v ≡ true) (some-injective x w e) (order.le_trans r.1 a x h.below ax)
      first_least (suc j) w e = h.least j w e

      first_before :
          (m : ℕ)
          → le a r.1 ≡ false
          → ((j : ℕ) (w : A) → j < m → get_elem? xs j ≡ some w → le w r.1 ≡ false)
          → (j : ℕ) (w : A) → j < suc m
          → get_elem? (x ∷ xs) j ≡ some w
          → le w r.1 ≡ false
      first_before m above before zero w below e =
          subst (λ v. le v r.1 ≡ false) (some-injective x w e) (not_above a x r.1 above ax)
      first_before m above before (suc j) w below e = before j w (omega (arith, below)) e

  drop-Least :
      (i k : ℕ) (a x : A) (xs : List A) (r : ℕ × A)
      → le a x ≡ false
      → Least le k (suc k) x xs r
      → Least le i k a (x ∷ xs) r
  drop-Least i k a x xs r ax h = record {
    below = order.le_trans r.1 x a h.below (order.le_total a x ax);
    least = first_least;
    place = inr (elim h.place [
      | inl same ↦ (
        0,
        ap (λ (p : ℕ × A). p.0) same ∙ omega arith,
        ap (λ (p : ℕ × A). some p.1) (sym same),
        not_below a r.1 x ax h.below,
        λ j w below. absurd (omega (arith, below)),
      )
      | inr (m, at, found, above, before) ↦ (
        suc m,
        at ∙ omega arith,
        found,
        not_below a r.1 x ax h.below,
        first_before m above before,
      )
    ]);
  }
    where
      first_least : (j : ℕ) (w : A) → get_elem? (x ∷ xs) j ≡ some w → le r.1 w ≡ true
      first_least zero w e = subst (λ v. le r.1 v ≡ true) (some-injective x w e) h.below
      first_least (suc j) w e = h.least j w e

      first_before :
          (m : ℕ)
          → le x r.1 ≡ false
          → ((j : ℕ) (w : A) → j < m → get_elem? xs j ≡ some w → le w r.1 ≡ false)
          → (j : ℕ) (w : A) → j < suc m
          → get_elem? (x ∷ xs) j ≡ some w
          → le w r.1 ≡ false
      first_before m above before zero w below e =
          subst (λ v. le v r.1 ≡ false) (some-injective x w e) above
      first_before m above before (suc j) w below e = before j w (omega (arith, below)) e

  total-Least :
      (xs : List A) (i k : ℕ) (a : A)
      → Least le i k a xs (total (lesser_at le) (i, a) (enumerate xs k))
  total-Least [] i k a = record {
    below = le_refl a;
    least = λ j w e. absurd (some-ne-none w (sym e));
    place = inl refl;
  }
  total-Least (x ∷ xs) i k a = elim (Bool-cases (le a x)) [
    | inl ax ↦ rw (ax, total) (keep-Least i k a x xs _ ax (total-Least xs i (suc k) a))
    | inr ax ↦ rw (ax, total) (drop-Least i k a x xs _ ax (total-Least xs k (suc k) x))
  ]

-- The place of the first least value: no other value is less, and every earlier one is greater.
pub record FirstLeast {A : Type 0} (le : A → A → Bool) (xs : List A) (r : ℕ) : Type 0 where
  pub value : A
  pub found : get_elem? xs r ≡ some value
  pub least : (j : ℕ) (w : A) → get_elem? xs j ≡ some w → le value w ≡ true
  pub first : (j : ℕ) (w : A) → j < r → get_elem? xs j ≡ some w → le w value ≡ false

pub reduce_with-FirstLeast :
    {A : Type 0} (le : A → A → Bool) (split : Split) (x : A) (xs : List A)
    → Preorder le
    → (r : ℕ) × (index_or_0 (reduce_with (lesser_at le) split (enumerate (x ∷ xs) 0)) ≡ r)
      × FirstLeast le (x ∷ xs) r
reduce_with-FirstLeast le split x xs order =
    let r = total (lesser_at le) (0, x) (enumerate xs 1) in
    let whole =
      keep-Least le order 0 0 x x xs r (le_refl le order x) (total-Least le order xs 0 1 x) in
    (
      r.0,
      ap index_or_0 (
          reduce_with-total (lesser_at le) split (0, x) (enumerate xs 1)
            (lesser_at_assoc le order)),
      record {
        value = r.1;
        found = elim whole.place [
          | inl same ↦
              ap (λ (p : ℕ × _). get_elem? (x ∷ xs) p.0) same
              ∙ ap (λ (p : ℕ × _). some p.1) (sym same)
          | inr (m, at, found, above, before) ↦ ap (get_elem? (x ∷ xs)) (at ∙ omega arith) ∙ found
        ];
        least = whole.least;
        first = elim whole.place [
          | inl same ↦ λ j w below. absurd (omega (arith, below, ap (λ (p : ℕ × _). p.0) same))
          | inr (m, at, found, above, before) ↦
              λ j w below e. before j w (omega (arith, at, below)) e
        ];
      },
    )
