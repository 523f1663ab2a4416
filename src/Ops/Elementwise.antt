-- ===== src/Ops/Elementwise.antt =====
-- crates/mohu-buffer/src/ops.rs: the element-wise operations give the element-wise results.
use mohu_fork_nirman.Base.{
  ℕ, suc, ◌≡◌, ◌≢◌, refl, ap, sym, ◌∙◌, Bool, true, false, Bool-cases, inl, inr, arith, Option,
  List, [], ◌∷◌, map, ==_iff, length,
}
use mohu_fork_nirman.Errors.{ok}
use mohu_fork_nirman.DType.{DType}
use mohu_fork_nirman.DType.Code.{dtype_eq}
use mohu_fork_nirman.DType.Scalar.{Scalar}
use mohu_fork_nirman.Layout.{size, is_c_contiguous}
use mohu_fork_nirman.Buffer.{Memory, Buffer}
use mohu_fork_nirman.Buffer.Copy.{set_unique}
use mohu_fork_nirman.Buffer.Create.{to_vec}
use mohu_fork_nirman.Ops.Checks.{
  check_contiguous, check_write, check_len, check_map, check_both, check_typed, check_zip,
}
use mohu_fork_nirman.Ops.Map.{
  parallel_map, parallel_inplace, clip, clip_value, parallel_zip, zip_with,
}
use mohu_fork_nirman.Ops.Contents.{All, Holds, load-Holds, length-Holds, length-map}
use mohu_fork_nirman.Ops.Stored.{Owned, run-Holds}

map-map :
    {A B C : Type 0} (g : B → C) (f : A → B) (xs : List A)
    → map (λ x. g (f x)) xs ≡ map g (map f xs)
map-map g f [] = refl
map-map g f (x ∷ xs) = ap (λ l. g (f x) ∷ l) (map-map g f xs)

-- `parallel_map` from a contiguous source that holds `xs` at its scalar type, to a destination of as many
-- elements that is writeable, contiguous and the only owner of its block, succeeds. The destination
-- then holds `f` of each value, and no other block changes.
pub parallel_map-Holds :
    {A B : Type 0} (system : Option ℕ) (fresh : ℕ → ℕ) (s : Scalar A) (d : Scalar B) (f : A → B)
    (src dst : Buffer) (mem : Memory) (xs : List A)
    → Owned mem d.dtype dst
    → is_c_contiguous src.layout ≡ true
    → size src.layout ≡ size dst.layout
    → Holds s mem src xs
    → (mem' : Memory) × (parallel_map system fresh s d f src (dst, mem)
        ≡ (ok tt, (set_unique dst, mem')))
      × Holds d mem' (set_unique dst) (map f xs)
      × ((i : ℕ) → i ≢ dst.raw → mem'.raws i ≡ mem.raws i)
unfolding parallel_map check_map check_contiguous check_len check_write
parallel_map-Holds system fresh s d f src dst mem xs owned whole fits holds =
    run-Holds system fresh _ _ dst mem d (map f xs) owned
      (rw (whole, owned.whole, (==_iff (size src.layout) (size dst.layout)).1 fits, owned.writeable)
        refl)
      (rw (load-Holds s mem src xs whole holds) (ap ok (map-map d.to_bytes f xs)))
      (length-map f xs ∙ length-Holds s mem src xs whole holds ∙ fits)

-- `parallel_inplace` on a buffer that holds `xs`, is writeable, contiguous and the only owner of its block
-- succeeds, and the buffer then holds `f` of each value. No other block changes.
pub parallel_inplace-Holds :
    {A : Type 0} (system : Option ℕ) (fresh : ℕ → ℕ) (s : Scalar A) (f : A → A) (buf : Buffer)
    (mem : Memory) (xs : List A)
    → Owned mem s.dtype buf
    → Holds s mem buf xs
    → (mem' : Memory) × (parallel_inplace system fresh s f (buf, mem)
        ≡ (ok tt, (set_unique buf, mem')))
      × Holds s mem' (set_unique buf) (map f xs)
      × ((i : ℕ) → i ≢ buf.raw → mem'.raws i ≡ mem.raws i)
unfolding parallel_inplace check_contiguous check_write set_unique to_vec
parallel_inplace-Holds system fresh s f buf mem xs owned holds =
    run-Holds system fresh _ _ buf mem s (map f xs) owned (rw (owned.whole, owned.writeable) refl)
      (rw (load-Holds s mem (set_unique buf) xs owned.whole holds)
        (ap ok (map-map s.to_bytes f xs)))
      (length-map f xs ∙ length-Holds s mem buf xs owned.whole holds)

pub check_both-same :
    (t : DType) (a b : Buffer)
    → dtype_eq t a.dtype ≡ true
    → dtype_eq t b.dtype ≡ true
    → check_both t a b ≡ ok tt
unfolding check_both
check_both-same t a b p q = rw (p, q) refl

pub check_typed-passes :
    (mem : Memory) (t : DType) (src dst : Buffer)
    → Owned mem t dst
    → dtype_eq t src.dtype ≡ true
    → is_c_contiguous src.layout ≡ true
    → size src.layout ≡ size dst.layout
    → check_typed t src dst ≡ ok tt
unfolding check_typed check_contiguous check_len check_write
check_typed-passes mem t src dst owned typed whole fits =
    rw
      (
        check_both-same t src dst typed owned.typed,
        whole,
        owned.whole,
        (==_iff (size src.layout) (size dst.layout)).1 fits,
        owned.writeable,
      )
      refl

clip_value-bounds :
    {A : Type 0} (lt : A → A → Bool) (lo hi x : A)
    → ((a : A) → lt a a ≡ false)
    → lt hi lo ≡ false
    → (lt (clip_value lt lo hi x) lo ≡ false) × (lt hi (clip_value lt lo hi x) ≡ false)
unfolding clip_value
clip_value-bounds lt lo hi x irreflexive ordered = elim (Bool-cases (lt x lo)) [
  | inl e ↦ rw e (irreflexive lo, ordered)
  | inr e ↦ elim (Bool-cases (lt hi x)) [
    | inl u ↦ rw (e, u) (ordered, irreflexive hi)
    | inr u ↦ rw (e, u) (e, u)
  ]
]

All-map :
    {A B : Type 0} (P : B → Type 0) (f : A → B) (xs : List A)
    → ((a : A) → P (f a))
    → All P (map f xs)
All-map P f [] h = tt
All-map P f (x ∷ xs) h = (h x, All-map P f xs h)

-- `clip` from a contiguous source that holds `xs` to a destination of as many elements at the same
-- dtype, which is writeable, contiguous and the only owner of its block, succeeds, where `lo` is not
-- above `hi` in the order and nothing is below itself: the destination then holds the values of `xs` clipped,
-- none of them is below `lo` or above `hi`, and no other block changes.
pub clip-bounds :
    {A : Type 0} (system : Option ℕ) (fresh : ℕ → ℕ) (s : Scalar A) (lt : A → A → Bool) (lo hi : A)
    (src dst : Buffer) (mem : Memory) (xs : List A)
    → Owned mem s.dtype dst
    → dtype_eq s.dtype src.dtype ≡ true
    → is_c_contiguous src.layout ≡ true
    → size src.layout ≡ size dst.layout
    → Holds s mem src xs
    → ((a : A) → lt a a ≡ false)
    → lt hi lo ≡ false
    → (mem' : Memory) × (clip system fresh s lt lo hi src (dst, mem)
        ≡ (ok tt, (set_unique dst, mem')))
      × Holds s mem' (set_unique dst) (map (clip_value lt lo hi) xs)
      × ((i : ℕ) → i ≢ dst.raw → mem'.raws i ≡ mem.raws i)
      × All (λ y. (lt y lo ≡ false) × (lt hi y ≡ false)) (map (clip_value lt lo hi) xs)
unfolding clip
clip-bounds system fresh s lt lo hi src dst mem xs owned typed whole fits holds irreflexive
      ordered =
    let (mem', done, held, others) =
      run-Holds system fresh _ _ dst mem s (map (clip_value lt lo hi) xs) owned
        (check_typed-passes mem s.dtype src dst owned typed whole fits)
        (rw (load-Holds s mem src xs whole holds)
          (ap ok (map-map s.to_bytes (clip_value lt lo hi) xs)))
        (length-map (clip_value lt lo hi) xs ∙ length-Holds s mem src xs whole holds ∙ fits) in
    (
      mem',
      done,
      held,
      others,
      All-map (λ y. (lt y lo ≡ false) × (lt hi y ≡ false)) (clip_value lt lo hi) xs
          (λ x. clip_value-bounds lt lo hi x irreflexive ordered),
    )

zip_with-map :
    {A B C D : Type 0} (g : C → D) (f : A → B → C) (xs : List A) (ys : List B)
    → zip_with (λ x y. g (f x y)) xs ys ≡ map g (zip_with f xs ys)
zip_with-map g f [] ys = refl
zip_with-map g f (x ∷ xs) [] = refl
zip_with-map g f (x ∷ xs) (y ∷ ys) = ap (λ l. g (f x y) ∷ l) (zip_with-map g f xs ys)

length-zip_with :
    {A B C : Type 0} (f : A → B → C) (xs : List A) (ys : List B)
    → length xs ≡ length ys
    → length (zip_with f xs ys) ≡ length xs
length-zip_with f [] ys h = refl
length-zip_with f (x ∷ xs) [] h = absurd (omega (arith, h))
length-zip_with f (x ∷ xs) (y ∷ ys) h = ap suc (length-zip_with f xs ys (omega (arith, h)))

-- `parallel_zip` from two contiguous sources that hold `xs` and `ys` to a destination of as many elements
-- that is writeable, contiguous and the only owner of its block, succeeds: the destination then
-- holds `f` of the values at each place, and no other block changes.
pub parallel_zip-Holds :
    {A B : Type 0} (system : Option ℕ) (fresh : ℕ → ℕ) (s : Scalar A) (d : Scalar B) (f : A → A → B)
    (a b dst : Buffer) (mem : Memory) (xs ys : List A)
    → Owned mem d.dtype dst
    → dtype_eq s.dtype a.dtype ≡ true
    → dtype_eq s.dtype b.dtype ≡ true
    → is_c_contiguous a.layout ≡ true
    → is_c_contiguous b.layout ≡ true
    → size a.layout ≡ size b.layout
    → size a.layout ≡ size dst.layout
    → Holds s mem a xs
    → Holds s mem b ys
    → (mem' : Memory) × (parallel_zip system fresh s d f a b (dst, mem)
        ≡ (ok tt, (set_unique dst, mem')))
      × Holds d mem' (set_unique dst) (zip_with f xs ys)
      × ((i : ℕ) → i ≢ dst.raw → mem'.raws i ≡ mem.raws i)
unfolding parallel_zip check_zip check_contiguous check_write
parallel_zip-Holds system fresh s d f a b dst mem xs ys owned typed_a typed_b whole_a whole_b same
      fits left right =
    let long = length-Holds s mem a xs whole_a left in
    let long' = length-Holds s mem b ys whole_b right in
    run-Holds system fresh _ _ dst mem d (zip_with f xs ys) owned
      (rw
        (
          check_both-same s.dtype a b typed_a typed_b,
          (==_iff (size a.layout) (size b.layout)).1 same,
          (==_iff (size a.layout) (size dst.layout)).1 fits,
          whole_a,
          whole_b,
          owned.whole,
          owned.writeable,
        )
        refl)
      (rw (load-Holds s mem a xs whole_a left) (
        rw same
          (rw (load-Holds s mem b ys whole_b right) (ap ok (zip_with-map d.to_bytes f xs ys)))))
      (length-zip_with f xs ys (long ∙ same ∙ sym long') ∙ long ∙ fits)
