-- ===== src/Ops/Indexed/Places.antt =====
-- crates/mohu-buffer/src/ops.rs: the elements of a slice under the writes of `scatter`, and the values that `gather`
-- picks.
use mohu_fork_nirman.Base.{
  ℕ, zero, suc, ◌+◌, ◌*◌, ◌≤◌, ◌<◌, ◌≡◌, ◌≢◌, inl, inr, refl, ap, ap₂, sym, subst, ◌∙◌, List, [],
  ◌∷◌, map, set, get_or, length, length-set, arith,
}
use mohu_fork_nirman.Buffer.Copy.{bytes_at, overwrite}
use mohu_fork_nirman.Buffer.Create.{elements_at}
use mohu_fork_nirman.Buffer.Written.{overwrite-outside, bytes_at-overwrite}
use mohu_fork_nirman.Buffer.Roundtrip.{elements_at-past}
use mohu_fork_nirman.Ops.Contents.{All}

pub bytes_at-before :
    (f g : ℕ → ℕ) (from to n : ℕ)
    → ((i : ℕ) → i < to → f i ≡ g i)
    → from + n ≤ to
    → bytes_at f from n ≡ bytes_at g from n
bytes_at-before f g from to zero same h = refl
bytes_at-before f g from to (suc n) same h =
    ap₂ (λ b l. b ∷ l) (same from (omega arith))
      (bytes_at-before f g (suc from) to n same (omega arith))

-- A value that is written at the place of an element replaces it.
pub elements_at-overwrite :
    (n j : ℕ) (bytes : ℕ → ℕ) (off size : ℕ) (v : List ℕ)
    → length v ≡ size
    → elements_at (overwrite bytes (off + j * size) v) off size n
      ≡ set (elements_at bytes off size n) j v
elements_at-overwrite zero j bytes off size v long = refl
elements_at-overwrite (suc n) zero bytes off size v long =
    ap₂ (λ b l. b ∷ l)
      (subst (λ o. bytes_at (overwrite bytes o v) off size ≡ v) start
        (subst (λ k. bytes_at (overwrite bytes off v) off k ≡ v) long
          (bytes_at-overwrite bytes off v)))
      (elements_at-past (overwrite bytes (off + 0 * size) v) bytes (off + size) (off + size) size n
        (λ i h. overwrite-outside bytes (off + 0 * size) v i (inr (omega (arith, long))))
        (omega arith))
  where
    start : off ≡ off + 0 * size
    start = omega arith
elements_at-overwrite (suc n) (suc j) bytes off size v long =
    let further : off + suc j * size ≡ off + size + j * size = grind arith in
    let past : off + size ≤ off + suc j * size = grind arith in
    ap₂ (λ b l. b ∷ l)
      (bytes_at-before (overwrite bytes (off + suc j * size) v) bytes off (off + size) size
        (λ i h. overwrite-outside bytes (off + suc j * size) v i (inl (omega (arith, past))))
        (omega arith))
      (ap (λ o. elements_at (overwrite bytes o v) (off + size) size n) further
        ∙ elements_at-overwrite n j bytes (off + size) size v long)

abbrev pub Distinct : List ℕ → Type 0
Distinct [] = Unit {0}
Distinct (j ∷ js) = All (λ i. i ≢ j) js × Distinct js

module _ {A : Type 0} where
  -- The values go to their places one after the other.
  abbrev pub put_all : List ℕ → List A → List A → List A
  put_all [] vs old = old
  put_all (j ∷ js) [] old = old
  put_all (j ∷ js) (v ∷ vs) old = put_all js vs (set old j v)

  pub length-put_all : (js : List ℕ) (vs old : List A) → length (put_all js vs old) ≡ length old
  length-put_all [] vs old = refl
  length-put_all (j ∷ js) [] old = refl
  length-put_all (j ∷ js) (v ∷ vs) old = length-put_all js vs (set old j v) ∙ length-set old j v

  get_or-set : (old : List A) (j : ℕ) (v d : A) → j < length old → get_or (set old j v) j d ≡ v
  get_or-set [] j v d h = absurd (omega (arith, h))
  get_or-set (x ∷ old) zero v d h = refl
  get_or-set (x ∷ old) (suc j) v d h = get_or-set old j v d (omega (arith, h))

  get_or-set_other :
      (old : List A) (i j : ℕ) (v d : A) → i ≢ j → get_or (set old i v) j d ≡ get_or old j d
  get_or-set_other [] i j v d h = refl
  get_or-set_other (x ∷ old) zero zero v d h = absurd (h refl)
  get_or-set_other (x ∷ old) zero (suc j) v d h = refl
  get_or-set_other (x ∷ old) (suc i) zero v d h = refl
  get_or-set_other (x ∷ old) (suc i) (suc j) v d h =
      get_or-set_other old i j v d (λ e. h (ap suc e))

  get_or-put_all :
      (js : List ℕ) (vs old : List A) (j : ℕ) (d : A)
      → All (λ i. i ≢ j) js
      → get_or (put_all js vs old) j d ≡ get_or old j d
  get_or-put_all [] vs old j d h = refl
  get_or-put_all (i ∷ js) [] old j d h = refl
  get_or-put_all (i ∷ js) (v ∷ vs) old j d (other, h) =
      get_or-put_all js vs (set old i v) j d h ∙ get_or-set_other old i j v d other

  -- Distinct places in range give back the values that were put there.
  pub picked-put_all :
      (js : List ℕ) (vs old : List A) (d : A)
      → Distinct js
      → All (λ j. j < length old) js
      → length js ≡ length vs
      → map (λ j. get_or (put_all js vs old) j d) js ≡ vs
  picked-put_all [] [] old d distinct inside long = refl
  picked-put_all [] (v ∷ vs) old d distinct inside long = absurd (omega (arith, long))
  picked-put_all (j ∷ js) [] old d distinct inside long = absurd (omega (arith, long))
  picked-put_all (j ∷ js) (v ∷ vs) old d (apart, distinct) (below, inside) long =
      ap₂ (λ x l. x ∷ l) (get_or-put_all js vs (set old j v) j d apart ∙ get_or-set old j v d below)
        (picked-put_all js vs (set old j v) d distinct
          (subst (λ n. All (λ i. i < n) js) (sym (length-set old j v)) inside)
          (omega (arith, long)))
