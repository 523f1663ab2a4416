-- ===== src/Strides/Orders.antt =====
-- crates/mohu-buffer/src/strides.rs: `f_strides` against `c_strides`.
use mathlib.Core.List.{reverse-cons}
use mohu_fork_nirman.Base.{ℕ, ◌≡◌, refl, ap, ap₂, ◌∙◌, sym, List, [], ◌∷◌, ◌++◌, reverse}
use mohu_fork_nirman.Base.Words.{saturating_mul}
use mohu_fork_nirman.Strides.{c_strides_from, c_strides, f_strides_from, f_strides}

-- What the accumulator of `f_strides` is left at.
abbrev f_rest : List ℕ → ℕ → ℕ
f_rest [] acc = acc
f_rest (d ∷ ds) acc = f_rest ds (saturating_mul acc d)

f_rest-snoc :
    (xs : List ℕ) (d acc : ℕ) → f_rest (xs ++ d ∷ []) acc ≡ saturating_mul (f_rest xs acc) d
f_rest-snoc [] d acc = refl
f_rest-snoc (x ∷ xs) d acc = f_rest-snoc xs d (saturating_mul acc x)

f_strides_from-snoc :
    (xs : List ℕ) (d acc : ℕ)
    → f_strides_from (xs ++ d ∷ []) acc ≡ f_strides_from xs acc ++ f_rest xs acc ∷ []
unfolding f_strides_from
f_strides_from-snoc [] d acc = refl
f_strides_from-snoc (x ∷ xs) d acc = ap (◌∷◌ acc) (f_strides_from-snoc xs d (saturating_mul acc x))

f_rest-reverse : (ds : List ℕ) (acc : ℕ) → f_rest (reverse ds) acc ≡ (c_strides_from ds acc).1
unfolding c_strides_from
f_rest-reverse [] acc = refl
f_rest-reverse (d ∷ ds) acc =
    rw (reverse-cons d ds)
      (f_rest-snoc (reverse ds) d acc ∙ ap (λ a. saturating_mul a d) (f_rest-reverse ds acc))

f_strides_from-reverse :
    (ds : List ℕ) (acc : ℕ) → f_strides_from (reverse ds) acc ≡ reverse (c_strides_from ds acc).0
unfolding c_strides_from f_strides_from
f_strides_from-reverse [] acc = refl
f_strides_from-reverse (d ∷ ds) acc =
    ap (λ xs. f_strides_from xs acc) (reverse-cons d ds)
    ∙ f_strides_from-snoc (reverse ds) d acc
    ∙ ap₂ (λ xs a. xs ++ a ∷ []) (f_strides_from-reverse ds acc) (f_rest-reverse ds acc)
    ∙ sym (reverse-cons (c_strides_from ds acc).1 (c_strides_from ds acc).0)

-- For every shape and item size the column-major strides of the reversed shape are the row-major
-- strides in reverse order.
pub f_strides-reverse :
    (shape : List ℕ) (item : ℕ) → f_strides (reverse shape) item ≡ reverse (c_strides shape item)
unfolding f_strides c_strides
f_strides-reverse shape item = f_strides_from-reverse shape item
