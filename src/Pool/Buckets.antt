-- ===== src/Pool/Buckets.antt =====
-- crates/mohu-buffer/src/pool.rs: the buckets of the global pool and the bytes that they hold.
use mohu_fork_nirman.Base.{
  ℕ, suc, ◌+◌, ◌<◌, ◌≡◌, ◌⊎◌, inl, inr, refl, ap, sym, subst, ◌∙◌, List, [], ◌∷◌, none, some, arith,
  ==_iff, ne→==, length, ℕ_discrete, Option-cases, dec_lt, lt→ltb, ge→ltb,
}
use mohu_fork_nirman.Base.Words.{usize_mod, add_word, sub_word}
use mohu_fork_nirman.Alloc.{AllocHandle}
use mohu_fork_nirman.Pool.{PoolBucket, Buckets, push, pop, size_class, pop_class, push_class}
use mohu_fork_nirman.Pool.Maintain.{pop_largest, handle_count}

-- The bytes of some handles, as a number that does not wrap.
abbrev pub lens : List AllocHandle → ℕ
lens [] = 0
lens (h ∷ hs) = h.len + lens hs

abbrev pub bytes : Buckets → ℕ
bytes [] = 0
bytes ((k, b) ∷ rest) = lens b.handles + bytes rest

-- Handles of one size class, none of them empty.
abbrev pub OfClass : ℕ → List AllocHandle → Type 0
OfClass k [] = Unit {0}
OfClass k (h ∷ hs) = (0 < h.len) × (size_class h.len ≡ k) × OfClass k hs

-- Every bucket counts its bytes and holds handles of its own class.
abbrev pub Filed : Buckets → Type 0
Filed [] = Unit {0}
Filed ((k, b) ∷ rest) = (b.cached_bytes ≡ lens b.handles) × OfClass k b.handles × Filed rest

pub sub_word-add : (a b : ℕ) → a + b < usize_mod → sub_word (a + b) a ≡ b
unfolding sub_word
sub_word-add a b h = omega arith

pub add_word-small : (a b : ℕ) → a + b < usize_mod → add_word a b ≡ a + b
unfolding add_word
add_word-small a b h = omega arith

pop-parts :
    (b : PoolBucket) (h : AllocHandle) (b' : PoolBucket)
    → pop b ≡ some (h, b')
    → (b.handles ≡ h ∷ b'.handles) × (b'.cached_bytes ≡ sub_word b.cached_bytes h.len)
unfolding pop
pop-parts b h b' e = ground arith

pop-empty : (b : PoolBucket) → pop b ≡ none → b.handles ≡ []
unfolding pop
pop-empty b e = ground arith

-- A handle and the buckets that are left of some buckets without it.
abbrev pub Taken : Buckets → AllocHandle → Buckets → Type 0
Taken bs h bs' =
    Filed bs'
    × (0 < h.len)
    × (bytes bs ≡ h.len + bytes bs')
    × (handle_count bs ≡ suc (handle_count bs'))

pop-Taken :
    (k : ℕ) (b b' : PoolBucket) (h : AllocHandle) (rest : Buckets)
    → Filed ((k, b) ∷ rest)
    → bytes ((k, b) ∷ rest) < usize_mod
    → pop b ≡ some (h, b')
    → Taken ((k, b) ∷ rest) h ((k, b') ∷ rest) × (size_class h.len ≡ k)
unfolding handle_count
pop-Taken k b b' h rest (count, class, later) small e =
    let (same, left) = pop-parts b h b' e in
    let sum : lens b.handles ≡ h.len + lens b'.handles = ap lens same in
    let long : length b.handles ≡ suc (length b'.handles) = ap length same in
    let (positive, own, others) = subst (OfClass k) same class in
    let counted =
      left
      ∙ ap (λ c. sub_word c h.len) (count ∙ sum)
      ∙ sub_word-add h.len (lens b'.handles) (omega arith) in
    (((counted, others, later), positive, omega arith, omega arith), own)

keep-Taken :
    (k : ℕ) (b : PoolBucket) (h : AllocHandle) (rest rest' : Buckets)
    → Filed ((k, b) ∷ rest)
    → Taken rest h rest'
    → Taken ((k, b) ∷ rest) h ((k, b) ∷ rest')
unfolding handle_count
keep-Taken k b h rest rest' (count, class, _) (later, positive, sum, number) =
    ((count, class, later), positive, omega arith, omega arith)

-- What `pop_class` takes out of well-kept buckets.
pub pop_class-Taken :
    (class : ℕ) (bs : Buckets)
    → Filed bs
    → bytes bs < usize_mod
    → (pop_class class bs ≡ none)
      ⊎ ((h : AllocHandle) × (bs' : Buckets) × (pop_class class bs ≡ some (h, bs'))
          × Taken bs h bs'
          × (size_class h.len ≡ class))
unfolding pop_class
pop_class-Taken class [] f small = inl refl
pop_class-Taken class ((k, b) ∷ rest) f small = elim (ℕ_discrete class k) [
  | yes p ↦ rw ((==_iff class k).1 p) (elim (Option-cases (pop b)) [
    | inl e ↦ inl (rw e refl)
    | inr ((h, b'), e) ↦
        let (taken, own) = pop-Taken k b b' h rest f small e in
        inr (h, ((k, b') ∷ rest), rw e refl, taken, own ∙ sym p)
  ])
  | no n ↦ rw (ne→== class k n) (elim (pop_class-Taken class rest f.2 (omega arith)) [
    | inl e ↦ inl (rw e refl)
    | inr (h, rest', e, taken, own) ↦
        inr (h, ((k, b) ∷ rest'), rw e refl, keep-Taken k b h rest rest' f taken, own)
  ])
]

-- What `pop_largest` takes out of well-kept buckets; it finds nothing only where they are empty.
pub pop_largest-Taken :
    (bs : Buckets)
    → Filed bs
    → bytes bs < usize_mod
    → ((pop_largest bs ≡ none) × (handle_count bs ≡ 0) × (bytes bs ≡ 0))
      ⊎ ((h : AllocHandle) × (bs' : Buckets) × (pop_largest bs ≡ some (h, bs')) × Taken bs h bs')
unfolding pop_largest handle_count
pop_largest-Taken [] f small = inl (refl, refl, refl)
pop_largest-Taken ((k, b) ∷ rest) f small = elim (pop_largest-Taken rest f.2 (omega arith)) [
  | inr (h, rest', e, taken) ↦
      inr (h, ((k, b) ∷ rest'), rw e refl, keep-Taken k b h rest rest' f taken)
  | inl (e, zero_count, zero_bytes) ↦ rw e (elim (Option-cases (pop b)) [
    | inl o ↦
        let gone = pop-empty b o in
        inl (rw o refl, omega (arith, ap length gone), omega (arith, ap lens gone))
    | inr ((h, b'), o) ↦ inr (h, ((k, b') ∷ rest), rw o refl, (pop-Taken k b b' h rest f small o).0)
  ])
]

-- Filing a handle under its class.
pub push_class-Filed :
    (h : AllocHandle) (bs : Buckets)
    → Filed bs
    → 0 < h.len
    → h.len + bytes bs < usize_mod
    → Filed (push_class (size_class h.len) h bs)
      × (bytes (push_class (size_class h.len) h bs) ≡ h.len + bytes bs)
      × (handle_count (push_class (size_class h.len) h bs) ≡ suc (handle_count bs))
unfolding push_class push handle_count
push_class-Filed h [] f p small =
    ((add_word-small 0 h.len (omega arith) ∙ omega arith, (p, refl, tt), tt), omega arith, refl)
push_class-Filed h ((k, b) ∷ rest) f p small = elim (ℕ_discrete (size_class h.len) k) [
  | yes e ↦ rw ((==_iff (size_class h.len) k).1 e) (
    (
      add_word-small b.cached_bytes h.len (omega (arith, f.0)) ∙ omega (arith, f.0),
      (p, e, f.1),
      f.2,
    ),
    omega arith,
    omega arith,
  )
  | no n ↦ rw (ne→== (size_class h.len) k n) (elim (dec_lt (size_class h.len) k) [
    | yes l ↦ rw (lt→ltb (size_class h.len) k l) (
      (add_word-small 0 h.len (omega arith) ∙ omega arith, (p, refl, tt), f),
      omega arith,
      omega arith,
    )
    | no g ↦
        let (later, sum, number) = push_class-Filed h rest f.2 p (omega arith) in
        rw (ge→ltb (size_class h.len) k g) ((f.0, f.1, later), omega arith, omega arith)
  ])
]
