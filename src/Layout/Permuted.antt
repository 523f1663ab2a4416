-- ===== src/Layout/Permuted.antt =====
-- crates/mohu-buffer/src/layout.rs: the offsets of indices in a permuted layout.
use mohu_fork_nirman.Base.{
  ℕ, zero, suc, ◌+◌, ◌*◌, ◌%◌, ◌<◌, ◌≡◌, inl, inr, refl, ap, sym, subst, ◌∙◌, List, [], ◌∷◌, Bool,
  true, false, ==_iff, ne→==, if◌then◌else◌, length, get_or, set, replicate, length-set,
  length-replicate, arith, dec_le, ℕ_discrete, le→leb, gt→leb, Bool-cases,
}
use mohu_fork_nirman.Base.Words.{usize_mod}
use mohu_fork_nirman.Errors.{ok, ok-injective, >>-ok}
use mohu_fork_nirman.Strides.Bounds.{InBounds, InBounds-length}
use mohu_fork_nirman.Strides.Reach.{reach, byte_offset-reach}
use mohu_fork_nirman.Layout.{Layout, ndim, byte_offset_unchecked}
use mohu_fork_nirman.Layout.Permute.{check_axes, gather, permute}

-- The axes not marked, and what they add to an offset.
abbrev unseen : List Bool → ℕ
unseen [] = 0
unseen (b ∷ bs) = let rest = unseen bs in if b then rest else suc rest

abbrev unseen_reach : List Bool → List ℕ → List ℕ → ℕ
unseen_reach (b ∷ bs) (i ∷ is) (s ∷ ss) =
    let rest = unseen_reach bs is ss in if b then rest else i * s + rest
unseen_reach [] is ss = 0
unseen_reach bs [] ss = 0
unseen_reach bs is [] = 0

unseen-set :
    (bs : List Bool) (ax : ℕ)
    → ax < length bs
    → get_or bs ax false ≡ false
    → unseen bs ≡ suc (unseen (set bs ax true))
unseen-set [] ax h e = absurd (omega arith)
unseen-set (b ∷ bs) zero h e = rw e refl
unseen-set (true ∷ bs) (suc ax) h e = unseen-set bs ax (omega arith) e
unseen-set (false ∷ bs) (suc ax) h e = ap suc (unseen-set bs ax (omega arith) e)

unseen_reach-set :
    (bs : List Bool) (is ss : List ℕ) (ax : ℕ)
    → ax < length bs
    → length is ≡ length bs
    → length ss ≡ length bs
    → get_or bs ax false ≡ false
    → unseen_reach bs is ss ≡ get_or is ax 0 * get_or ss ax 0 + unseen_reach (set bs ax true) is ss
unseen_reach-set [] is ss ax h k l e = absurd (omega arith)
unseen_reach-set (b ∷ bs) [] ss ax h k l e = absurd (omega arith)
unseen_reach-set (b ∷ bs) (i ∷ is) [] ax h k l e = absurd (omega arith)
unseen_reach-set (b ∷ bs) (i ∷ is) (s ∷ ss) zero h k l e = rw e refl
unseen_reach-set (true ∷ bs) (i ∷ is) (s ∷ ss) (suc ax) h k l e =
    unseen_reach-set bs is ss ax (omega arith) (omega arith) (omega arith) e
unseen_reach-set (false ∷ bs) (i ∷ is) (s ∷ ss) (suc ax) h k l e =
    omega (arith, unseen_reach-set bs is ss ax (omega arith) (omega arith) (omega arith) e)

none_unseen : (bs : List Bool) (is ss : List ℕ) → unseen bs ≡ 0 → unseen_reach bs is ss ≡ 0
none_unseen [] is ss h = refl
none_unseen (b ∷ bs) [] ss h = refl
none_unseen (b ∷ bs) (i ∷ is) [] h = refl
none_unseen (true ∷ bs) (i ∷ is) (s ∷ ss) h = none_unseen bs is ss h
none_unseen (false ∷ bs) (i ∷ is) (s ∷ ss) h = absurd (omega arith)

-- What a passed check says of its first axis.
check_axes-first :
    (n : ℕ) (seen : List Bool) (ax : ℕ) (axes : List ℕ)
    → check_axes n seen (ax ∷ axes) ≡ ok tt
    → (ax < n) × (get_or seen ax false ≡ false) × (check_axes n (set seen ax true) axes ≡ ok tt)
unfolding check_axes
check_axes-first n seen ax axes h = elim (dec_le n ax) [
  | yes p ↦ absurd (ground (arith, le→leb n ax p, h))
  | no q ↦ elim (Bool-cases (get_or seen ax false)) [
    | inl e ↦ absurd (ground (arith, gt→leb n ax q, e, h))
    | inr e ↦ (omega arith, e, rw (gt→leb n ax q, e) at h)
  ]
]

-- A check that passes, of as many axes as are not marked, collects what they add.
check_axes-reach :
    (seen : List Bool) (axes is ss : List ℕ)
    → length is ≡ length seen
    → length ss ≡ length seen
    → check_axes (length seen) seen axes ≡ ok tt
    → unseen seen ≡ length axes
    → reach (gather axes is) (gather axes ss) ≡ unseen_reach seen is ss
unfolding gather
check_axes-reach seen [] is ss k l h c = sym (none_unseen seen is ss c)
check_axes-reach seen (ax ∷ axes) is ss k l h c =
    let (inside, fresh, rest) = check_axes-first (length seen) seen ax axes h in
    let same = length-set seen ax true in
    let later =
      check_axes-reach (set seen ax true) axes is ss (k ∙ sym same) (l ∙ sym same) (rw same rest)
        (omega (arith, unseen-set seen ax inside fresh)) in
    omega (arith, later, unseen_reach-set seen is ss ax inside k l fresh)

InBounds-get_or :
    (is ds : List ℕ) (ax : ℕ) → InBounds is ds → ax < length ds → get_or is ax 0 < get_or ds ax 0
InBounds-get_or [] [] ax b h = absurd (omega arith)
InBounds-get_or [] (d ∷ ds) ax b h = absurd b
InBounds-get_or (i ∷ is) [] ax b h = absurd b
InBounds-get_or (i ∷ is) (d ∷ ds) zero b h = b.0
InBounds-get_or (i ∷ is) (d ∷ ds) (suc ax) b h = InBounds-get_or is ds ax b.1 (omega arith)

InBounds-gather :
    (seen : List Bool) (axes is ds : List ℕ)
    → InBounds is ds
    → check_axes (length ds) seen axes ≡ ok tt
    → InBounds (gather axes is) (gather axes ds)
unfolding gather
InBounds-gather seen [] is ds b h = tt
InBounds-gather seen (ax ∷ axes) is ds b h =
    let (inside, _, rest) = check_axes-first (length ds) seen ax axes h in
    (InBounds-get_or is ds ax b inside, InBounds-gather (set seen ax true) axes is ds b rest)

unseen-replicate : (n : ℕ) → unseen (replicate n false) ≡ n
unseen-replicate zero = refl
unseen-replicate (suc n) = ap suc (unseen-replicate n)

unseen_reach-replicate :
    (n : ℕ) (is ss : List ℕ) → length is ≡ n → unseen_reach (replicate n false) is ss ≡ reach is ss
unseen_reach-replicate n [] ss h = rw (sym h) refl
unseen_reach-replicate zero (i ∷ is) ss h = absurd (omega arith)
unseen_reach-replicate (suc n) (i ∷ is) [] h = refl
unseen_reach-replicate (suc n) (i ∷ is) (s ∷ ss) h =
    omega (arith, unseen_reach-replicate n is ss (omega arith))

-- Every axis once: a permutation of the entries adds the same.
reach-gather :
    (axes is ss : List ℕ) (n : ℕ)
    → length is ≡ n
    → length ss ≡ n
    → length axes ≡ n
    → check_axes n (replicate n false) axes ≡ ok tt
    → reach (gather axes is) (gather axes ss) ≡ reach is ss
reach-gather axes is ss n k l c h =
    let size = length-replicate n false in
    check_axes-reach (replicate n false) axes is ss (k ∙ sym size) (l ∙ sym size) (rw size h)
      (unseen-replicate n ∙ sym c)
    ∙ unseen_reach-replicate n is ss k

permute_parts :
    (l m : Layout) (axes : List ℕ)
    → permute l axes ≡ ok m
    → (length axes ≡ length l.shape)
      × (check_axes (length l.shape) (replicate (length l.shape) false) axes ≡ ok tt)
      × (m ≡ record {
        shape = gather axes l.shape;
        strides = gather axes l.strides;
        offset = l.offset;
        itemsize = l.itemsize;
      })
unfolding permute ndim
permute_parts l m axes h = elim (ℕ_discrete (length axes) (length l.shape)) [
  | no n ↦ absurd (ground (arith, ne→== (length axes) (length l.shape) n, h))
  | yes p ↦
      let (passed, made) =
        >>-ok (check_axes (length l.shape) (replicate (length l.shape) false) axes) _
          (rw ((==_iff (length axes) (length l.shape)).1 p) at h) in
      (p, passed, ok-injective (sym made))
]

-- Where `permute` gives a view of a layout with a stride for each axis, the entries of an index within
-- the layout, taken in the order of the axes, are an index within the view, and both read the same
-- byte offset.
pub permute-byte_offset :
    (l m : Layout) (axes idx : List ℕ)
    → l.offset < usize_mod
    → length l.strides ≡ length l.shape
    → permute l axes ≡ ok m
    → InBounds idx l.shape
    → InBounds (gather axes idx) m.shape
      × (byte_offset_unchecked m (gather axes idx) ≡ byte_offset_unchecked l idx)
unfolding byte_offset_unchecked
permute-byte_offset l m axes idx w s made b =
    let (long, passed, same) = permute_parts l m axes made in
    (
      subst (λ (v : Layout). InBounds (gather axes idx) v.shape) (sym same)
          (InBounds-gather (replicate (length l.shape) false) axes idx l.shape b passed),
      ap (λ (v : Layout). byte_offset_unchecked v (gather axes idx)) same
          ∙ byte_offset-reach (gather axes idx) (gather axes l.strides) l.offset w
          ∙ ap (λ r. (l.offset + r) % usize_mod)
              (reach-gather axes idx l.strides (length l.shape) (InBounds-length idx l.shape b) s
                long passed)
          ∙ sym (byte_offset-reach idx l.strides l.offset w),
    )
