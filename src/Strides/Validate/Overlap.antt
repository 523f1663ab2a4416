-- ===== src/Strides/Validate/Overlap.antt =====
-- crates/mohu-buffer/src/strides.rs: the outcome of `check_no_overlap`.
use mohu_fork_nirman.Base.{
  ℕ, zero, suc, ◌*◌, ◌≤◌, ◌<◌, ◌≡◌, inl, inr, refl, ap, ◌∙◌, List, [], ◌∷◌, true, leb, ltb,
  if◌then◌else◌, length, arith, dec_lt, lt→ltb, Bool-cases, leb→le, le→leb,
}
use mohu_fork_nirman.Base.Words.{usize_mod, mul_word, mul_word-eq-mul, unsigned_abs}
use mohu_fork_nirman.Errors.{MohuResult, ok, err, overlapping_strides}
use mohu_fork_nirman.Strides.Validate.{non_broadcast, insert, sort, check_spans, check_no_overlap}

-- A moving axis whose whole span is a `usize`.
abbrev Spans : ℕ × ℕ → Type 0
Spans x = (0 < unsigned_abs x.0) × (1 < x.1) × (unsigned_abs x.0 * x.1 < usize_mod)

abbrev All : List (ℕ × ℕ) → Type 0
All [] = Unit {0}
All (x ∷ xs) = Spans x × All xs

abbrev HeadLe : ℕ → List (ℕ × ℕ) → Type 0
HeadLe b [] = Unit {0}
HeadLe b (x ∷ xs) = unsigned_abs x.0 ≤ b

abbrev Descends : List (ℕ × ℕ) → Type 0
Descends [] = Unit {0}
Descends (x ∷ xs) = HeadLe (unsigned_abs x.0) xs × Descends xs

insert-All : (x : ℕ × ℕ) (xs : List (ℕ × ℕ)) → Spans x → All xs → All (insert x xs)
unfolding insert
insert-All x [] p a = (p, tt)
insert-All x (y ∷ ys) p a = elim (Bool-cases (leb (unsigned_abs y.0) (unsigned_abs x.0))) [
  | inl e ↦ rw e (p, a)
  | inr e ↦ rw e (a.0, insert-All x ys p a.1)
]

insert-HeadLe :
    (b : ℕ) (x : ℕ × ℕ) (xs : List (ℕ × ℕ))
    → unsigned_abs x.0 ≤ b
    → HeadLe b xs
    → HeadLe b (insert x xs)
unfolding insert
insert-HeadLe b x [] p a = p
insert-HeadLe b x (y ∷ ys) p a = elim (Bool-cases (leb (unsigned_abs y.0) (unsigned_abs x.0))) [
  | inl e ↦ rw e p
  | inr e ↦ rw e a
]

insert-Descends : (x : ℕ × ℕ) (xs : List (ℕ × ℕ)) → Descends xs → Descends (insert x xs)
unfolding insert
insert-Descends x [] a = (tt, tt)
insert-Descends x (y ∷ ys) a = elim (Bool-cases (leb (unsigned_abs y.0) (unsigned_abs x.0))) [
  | inl e ↦ rw e (leb→le _ _ e, a)
  | inr e ↦
      rw e (insert-HeadLe (unsigned_abs y.0) x ys (ground arith) a.0, insert-Descends x ys a.1)
]

length-insert : (x : ℕ × ℕ) (xs : List (ℕ × ℕ)) → length (insert x xs) ≡ suc (length xs)
unfolding insert
length-insert x [] = refl
length-insert x (y ∷ ys) = ground (arith, length-insert x ys)

sort-All : (xs : List (ℕ × ℕ)) → All xs → All (sort xs)
unfolding sort
sort-All [] a = tt
sort-All (x ∷ xs) a = insert-All x (sort xs) a.0 (sort-All xs a.1)

sort-Descends : (xs : List (ℕ × ℕ)) → Descends (sort xs)
unfolding sort
sort-Descends [] = tt
sort-Descends (x ∷ xs) = insert-Descends x (sort xs) (sort-Descends xs)

length-sort : (xs : List (ℕ × ℕ)) → length (sort xs) ≡ length xs
unfolding sort
length-sort [] = refl
length-sort (x ∷ xs) = length-insert x (sort xs) ∙ ap suc (length-sort xs)

longer : (a d : ℕ) → 0 < a → 1 < d → a < a * d
longer a zero p q = absurd (omega arith)
longer a (suc zero) p q = absurd (omega arith)
longer a (suc (suc d)) p q = omega arith

neighbour-lt :
    (b a d : ℕ) → (0 < a) × (1 < d) × (a * d < usize_mod) → b ≤ a → ltb b (mul_word a d) ≡ true
neighbour-lt b a d (p, q, w) h =
    rw (mul_word-eq-mul a d w) (lt→ltb b (a * d) (omega (arith, longer a d p q)))

check_spans-fail :
    (fail : MohuResult (Unit {0})) (xs : List (ℕ × ℕ))
    → 1 < length xs
    → All xs
    → Descends xs
    → check_spans fail xs ≡ fail
unfolding check_spans
check_spans-fail fail [] l a d = absurd (omega arith)
check_spans-fail fail (x ∷ []) l a d = absurd (omega arith)
check_spans-fail fail (x ∷ y ∷ ys) l a d =
    rw (neighbour-lt (unsigned_abs y.0) (unsigned_abs x.0) x.1 a.0 d.0)

-- Every stride is a word, and no axis spans 2 ^ 64 bytes.
abbrev pub SpansFit : List ℕ → List ℕ → Type 0
SpansFit (s ∷ ss) (d ∷ ds) = (s < usize_mod) × (unsigned_abs s * d < usize_mod) × SpansFit ss ds
SpansFit [] ds = Unit {0}
SpansFit ss [] = Unit {0}

unsigned_abs-pos : (s : ℕ) → s < usize_mod → ¬ (s ≡ 0) → 0 < unsigned_abs s
unfolding unsigned_abs
unsigned_abs-pos s w n = ground arith

non_broadcast-All : (ss ds : List ℕ) → SpansFit ss ds → All (non_broadcast ss ds)
unfolding non_broadcast
non_broadcast-All [] ds f = tt
non_broadcast-All (s ∷ ss) [] f = tt
non_broadcast-All (s ∷ ss) (d ∷ ds) f =
    ground (arith, unsigned_abs-pos s f.0, non_broadcast-All ss ds f.2)

-- Where every stride is a word and no axis spans 2 ^ 64 bytes, `check_no_overlap` accepts exactly
-- the layouts with at most one axis that moves, and gives the overlap error for all others,
-- whether their elements overlap or not.
pub check_no_overlap_lem :
    (shape strides : List ℕ) (itemsize : ℕ)
    → SpansFit strides shape
    → check_no_overlap shape strides itemsize ≡ (
        if leb (length (non_broadcast strides shape)) 1
        then ok tt
        else err (overlapping_strides shape strides itemsize))
unfolding check_no_overlap
check_no_overlap_lem shape strides itemsize f =
    let axes = non_broadcast strides shape in
    let fail : MohuResult (Unit {0}) = err (overlapping_strides shape strides itemsize) in
    let refused = check_spans-fail fail (sort axes) in
    elim (dec_lt 1 (length axes)) [
      | yes p ↦
          ap (λ r. if leb (length axes) 1 then ok tt else r)
            (refused (omega (arith, length-sort axes))
              (sort-All axes (non_broadcast-All strides shape f)) (sort-Descends axes))
      | no q ↦ rw (le→leb (length axes) 1 (omega arith))
    ]
