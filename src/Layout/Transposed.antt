-- ===== src/Layout/Transposed.antt =====
-- crates/mohu-buffer/src/layout.rs: the outcome of `transpose`.
use mathlib.Core.List.{reverse-cons}
use mohu_fork_nirman.Base.{
  ℕ, zero, suc, ◌≤◌, ◌<◌, ◌≡◌, refl, ap, ap₂, sym, ◌∙◌, List, [], ◌∷◌, ◌++◌, reverse, Bool, true,
  false, ==_iff, length, get_or, set, replicate, arith, dec_le, le→leb, gt→leb,
}
use mohu_fork_nirman.Errors.{ok}
use mohu_fork_nirman.Layout.{Layout, ndim}
use mohu_fork_nirman.Layout.Permute.{check_axes, gather, permute, descending, transpose}

gather-shift :
    (k x : ℕ) (xs : List ℕ)
    → gather (descending (suc k)) (x ∷ xs) ≡ gather (descending k) xs ++ x ∷ []
unfolding gather descending
gather-shift zero x xs = refl
gather-shift (suc k) x xs = ap (◌∷◌ (get_or xs k 0)) (gather-shift k x xs)

gather-descending : (n : ℕ) (xs : List ℕ) → length xs ≡ n → gather (descending n) xs ≡ reverse xs
unfolding gather descending
gather-descending zero [] h = refl
gather-descending zero (x ∷ xs) h = absurd (omega arith)
gather-descending (suc n) [] h = absurd (omega arith)
gather-descending (suc n) (x ∷ xs) h =
    gather-shift n x xs
    ∙ ap (λ ys. ys ++ x ∷ []) (gather-descending n xs (omega arith))
    ∙ sym (reverse-cons x xs)

get_or-set_other :
    (bs : List Bool) (i j : ℕ) → i < j → get_or (set bs j true) i false ≡ get_or bs i false
get_or-set_other [] i j h = refl
get_or-set_other (b ∷ bs) i zero h = absurd (omega arith)
get_or-set_other (b ∷ bs) zero (suc j) h = refl
get_or-set_other (b ∷ bs) (suc i) (suc j) h = get_or-set_other bs i j (omega arith)

get_or-replicate : (n i : ℕ) → get_or (replicate n false) i false ≡ false
get_or-replicate zero i = refl
get_or-replicate (suc n) zero = refl
get_or-replicate (suc n) (suc i) = get_or-replicate n i

check_axes-descending :
    (n k : ℕ) (seen : List Bool)
    → k ≤ n
    → ((i : ℕ) → i < k → get_or seen i false ≡ false)
    → check_axes n seen (descending k) ≡ ok tt
unfolding check_axes descending
check_axes-descending n zero seen h free = refl
check_axes-descending n (suc k) seen h free =
    rw (gt→leb n k (omega arith), free k (omega arith))
      (check_axes-descending n k (set seen k true) (omega arith)
        (λ i below. get_or-set_other seen i k below ∙ free i (omega arith)))

length-descending : (n : ℕ) → length (descending n) ≡ n
unfolding descending
length-descending zero = refl
length-descending (suc n) = ap suc (length-descending n)

abbrev reversed : Layout → Layout
reversed l = record {
  shape = reverse l.shape;
  strides = reverse l.strides;
  offset = l.offset;
  itemsize = l.itemsize;
}

permute-descending :
    (l : Layout)
    → length l.strides ≡ length l.shape
    → permute l (descending (length l.shape)) ≡ ok (reversed l)
unfolding permute ndim
permute-descending l s =
    let n = length l.shape in
    let passed =
      check_axes-descending n n (replicate n false) (omega arith)
        (λ i below. get_or-replicate n i) in
    rw ((==_iff (length (descending n)) n).1 (length-descending n), passed)
      (ap₂
        (λ ds ss.
          ok (record { shape = ds; strides = ss; offset = l.offset; itemsize = l.itemsize }))
        (gather-descending n l.shape refl) (gather-descending n l.strides s))

short_reverse : (xs : List ℕ) → length xs ≤ 1 → reverse xs ≡ xs
short_reverse [] h = refl
short_reverse (x ∷ []) h = refl
short_reverse (x ∷ y ∷ xs) h = absurd (omega arith)

-- `transpose` never panics: of a layout with a stride for each axis it gives the layout with its shape
-- and its strides in reverse order.
pub transpose-reverse :
    (l : Layout)
    → length l.strides ≡ length l.shape
    → transpose l
      ≡ ok (record {
        shape = reverse l.shape;
        strides = reverse l.strides;
        offset = l.offset;
        itemsize = l.itemsize;
      })
unfolding transpose ndim
transpose-reverse l s = elim (dec_le (length l.shape) 1) [
  | yes p ↦ rw (le→leb (length l.shape) 1 p) (
      ap₂
        (λ ds ss.
          ok (record { shape = ds; strides = ss; offset = l.offset; itemsize = l.itemsize }))
        (sym (short_reverse l.shape p)) (sym (short_reverse l.strides (omega arith))))
  | no q ↦ rw (gt→leb (length l.shape) 1 q, permute-descending l s) refl
]
