-- ===== src/Strides/Repeated.antt =====
-- crates/mohu-buffer/src/strides.rs: the offsets of indices under `broadcast_strides`.
use mohu_fork_nirman.Base.{
  ℕ, zero, suc, ◌-◌, ◌≤◌, ◌<◌, ◌≡◌, ◌⊎◌, inl, inr, refl, ap, subst, ◌∙◌, sym, List, [], ◌∷◌, ◌++◌,
  ◌==◌, ==_iff, if◌then◌else◌, length, drop, replicate, length-drop, arith, ge→ltb, ne→==, dec_lt,
  ℕ_discrete,
}
use mohu_fork_nirman.Base.Words.{
  usize_mod, add_word, mul_word, mul_word-zero, zero-mul_word, add_word-zero,
}
use mohu_fork_nirman.Errors.{MohuError, MohuResult, ok, err, panic, broadcast_error, ◌>>=◌, >>=-ok}
use mohu_fork_nirman.Strides.{broadcast_axes, broadcast_strides, byte_offset}
use mohu_fork_nirman.Strides.Bounds.{InBounds, InBounds-length}
use mohu_fork_nirman.Strides.Broadcast.{source_axes}

-- What one aligned index reads.
record Reads (ss sts ts out : List ℕ) : Type 0 where
  reads :
      (is : List ℕ) (off : ℕ)
      → InBounds is ts
      → InBounds (source_axes ss ts is) ss
        × (byte_offset is out off ≡ byte_offset (source_axes ss ts is) sts off)

same-Reads :
    (s st : ℕ) (ss sts ts out : List ℕ)
    → Reads ss sts ts out
    → Reads (s ∷ ss) (st ∷ sts) (s ∷ ts) (st ∷ out)
unfolding byte_offset
same-Reads s st ss sts ts out r = record { reads = λ is off b. same is off b }
  where
    same :
        (is : List ℕ) (off : ℕ)
        → InBounds is (s ∷ ts)
        → InBounds (source_axes (s ∷ ss) (s ∷ ts) is) (s ∷ ss)
          × (byte_offset is (st ∷ out) off
              ≡ byte_offset (source_axes (s ∷ ss) (s ∷ ts) is) (st ∷ sts) off)
    same [] off b = absurd b
    same (i ∷ is) off b =
        let rest = r.reads is (add_word off (mul_word i st)) b.1 in
        rw ((==_iff s s).1 refl) ((b.0, rest.0), rest.1)

one-Reads :
    (t st : ℕ) (ss sts ts out : List ℕ)
    → ¬ (1 ≡ t)
    → Reads ss sts ts out
    → Reads (1 ∷ ss) (st ∷ sts) (t ∷ ts) (0 ∷ out)
unfolding byte_offset
one-Reads t st ss sts ts out n r = record { reads = λ is off b. one is off b }
  where
    one :
        (is : List ℕ) (off : ℕ)
        → InBounds is (t ∷ ts)
        → InBounds (source_axes (1 ∷ ss) (t ∷ ts) is) (1 ∷ ss)
          × (byte_offset is (0 ∷ out) off
              ≡ byte_offset (source_axes (1 ∷ ss) (t ∷ ts) is) (st ∷ sts) off)
    one [] off b = absurd b
    one (i ∷ is) off b =
        let rest = r.reads is (add_word off 0) b.1 in
        rw (ne→== 1 t n, mul_word-zero i, zero-mul_word st) ((omega arith, rest.0), rest.1)

nil-Reads : (sts ts out : List ℕ) → 0 ≡ length ts → Reads [] sts ts out
unfolding byte_offset
nil-Reads sts ts out m = record { reads = λ is off b. none_left is ts off m b }
  where
    none_left :
        (is ts' : List ℕ) (off : ℕ)
        → 0 ≡ length ts'
        → InBounds is ts'
        → InBounds (source_axes [] ts' is) []
          × (byte_offset is out off ≡ byte_offset (source_axes [] ts' is) sts off)
    none_left [] [] off z b = (tt, refl)
    none_left [] (t ∷ ts') off z b = absurd b
    none_left (i ∷ is) [] off z b = absurd b
    none_left (i ∷ is) (t ∷ ts') off z b = absurd (omega arith)

-- What one round of the loop did, if all succeeded.
axis_cases :
    (e : MohuError) (s st t : ℕ) (rest : MohuResult (List ℕ)) (out : List ℕ)
    → (if s == t
        then (rest >>= λ o. ok (st ∷ o))
        else if s == 1
        then (rest >>= λ o. ok (0 ∷ o))
        else err e)
      ≡ ok out
    → (o : List ℕ) × (rest ≡ ok o)
      × (((s ≡ t) × (out ≡ st ∷ o)) ⊎ ((¬ (s ≡ t)) × (s ≡ 1) × (out ≡ 0 ∷ o)))
axis_cases e s st t (ok o) out h = elim (ℕ_discrete s t) [
  | yes p ↦ (o, refl, inl (p, ground arith))
  | no q ↦ (o, refl, inr (q, ground arith, ground arith))
]
axis_cases e s st t (err x) out h = absurd (ground arith)
axis_cases e s st t panic out h = absurd (ground arith)

broadcast_axes-Reads :
    (e : MohuError) (ss sts ts out : List ℕ)
    → length ss ≡ length sts
    → length ss ≡ length ts
    → broadcast_axes (err e) ss sts ts ≡ ok out
    → Reads ss sts ts out
unfolding broadcast_axes
broadcast_axes-Reads e [] sts ts out l m h = nil-Reads sts ts out m
broadcast_axes-Reads e (s ∷ ss) [] ts out l m h = absurd (omega arith)
broadcast_axes-Reads e (s ∷ ss) (st ∷ sts) [] out l m h = absurd (omega arith)
broadcast_axes-Reads e (s ∷ ss) (st ∷ sts) (t ∷ ts) out l m h =
    let (o, r, cases) = axis_cases e s st t (broadcast_axes (err e) ss sts ts) out h in
    let rest = broadcast_axes-Reads e ss sts ts o (omega arith) (omega arith) r in
    elim cases [
      | inl (p, w) ↦
          subst (λ x. Reads (s ∷ ss) (st ∷ sts) (x ∷ ts) out) p
            (subst (Reads (s ∷ ss) (st ∷ sts) (s ∷ ts)) (sym w) (same-Reads s st ss sts ts o rest))
      | inr (n, p, w) ↦
          subst (λ x. Reads (x ∷ ss) (st ∷ sts) (t ∷ ts) out) (sym p)
            (subst (Reads (1 ∷ ss) (st ∷ sts) (t ∷ ts)) (sym w)
              (one-Reads t st ss sts ts o (λ x. n (p ∙ x)) rest))
    ]

-- Leading indices count for nothing under stride 0.
byte_offset-leading :
    (n : ℕ) (is out : List ℕ) (off : ℕ)
    → off < usize_mod
    → n ≤ length is
    → byte_offset is (replicate n 0 ++ out) off ≡ byte_offset (drop n is) out off
unfolding byte_offset
byte_offset-leading zero is out off w h = refl
byte_offset-leading (suc n) [] out off w h = absurd (omega arith)
byte_offset-leading (suc n) (i ∷ is) out off w h =
    rw (mul_word-zero i, add_word-zero off w) (byte_offset-leading n is out off w (omega arith))

InBounds-drop : (n : ℕ) (is ds : List ℕ) → InBounds is ds → InBounds (drop n is) (drop n ds)
InBounds-drop zero is ds b = b
InBounds-drop (suc n) [] [] b = tt
InBounds-drop (suc n) [] (d ∷ ds) b = absurd b
InBounds-drop (suc n) (i ∷ is) [] b = absurd b
InBounds-drop (suc n) (i ∷ is) (d ∷ ds) b = InBounds-drop n is ds b.1

broadcast_parts :
    (src strides tgt out : List ℕ)
    → broadcast_strides src strides tgt ≡ ok out
    → (length src ≤ length tgt)
      × ((o : List ℕ) × (broadcast_axes
              (err (broadcast_error src tgt))
              src
              strides
              (drop (length tgt - length src) tgt)
            ≡ ok o)
          × (out ≡ replicate (length tgt - length src) 0 ++ o))
unfolding broadcast_strides
broadcast_parts src strides tgt out h = elim (dec_lt (length tgt) (length src)) [
  | yes p ↦ absurd (ground arith)
  | no q ↦
      let (o, r, e) = >>=-ok _ _ (rw (ge→ltb (length tgt) (length src) q) at h) in
      (omega arith, (o, r, ground arith))
]

-- The source's index that an index of the target reads: the leading axes are dropped, and a
-- repeated axis is read at 0.
abbrev pub source_index : List ℕ → List ℕ → List ℕ → List ℕ
source_index src tgt idx =
    let extra = length tgt - length src in source_axes src (drop extra tgt) (drop extra idx)

-- Where `broadcast_strides` succeeds for a source with as many strides as axes, an index within the
-- target reads, at the strides that it returns and any base, the byte offset of a source index
-- within the source.
pub broadcast_strides-byte_offset :
    (src strides tgt out idx : List ℕ) (base : ℕ)
    → length src ≡ length strides
    → broadcast_strides src strides tgt ≡ ok out
    → base < usize_mod
    → InBounds idx tgt
    → InBounds (source_index src tgt idx) src
      × (byte_offset idx out base ≡ byte_offset (source_index src tgt idx) strides base)
broadcast_strides-byte_offset src strides tgt out idx base l h w b =
    let extra = length tgt - length src in
    let (small, (o, r, e)) = broadcast_parts src strides tgt out h in
    let axes = InBounds-length idx tgt b in
    let aligned : length src ≡ length (drop extra tgt) = omega (arith, length-drop extra tgt) in
    let reads =
      Reads.reads
        (broadcast_axes-Reads (broadcast_error src tgt) src strides (drop extra tgt) o l aligned r)
        (drop extra idx) base (InBounds-drop extra idx tgt b) in
    (
      reads.0,
      ap (λ ss. byte_offset idx ss base) e
          ∙ byte_offset-leading extra idx o base w (omega arith)
          ∙ reads.1,
    )
