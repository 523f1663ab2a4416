-- ===== src/Buffer/Roundtrip.antt =====
-- crates/mohu-buffer/src/buffer.rs: a slice that goes into a buffer comes out of it.
use mohu_fork_nirman.Base.{
  ℕ, zero, suc, ◌+◌, ◌*◌, ◌%◌, ◌≤◌, ◌<◌, ◌≡◌, refl, ap, subst, ◌∙◌, true, ◌||◌, some, List, [], ◌∷◌,
  ◌++◌, ◌==◌, le→leb, ne→==, ==_iff, length, length-append, arith, Bool-cases, inl, inr,
  text_eq_refl,
}
use mohu_fork_nirman.Base.Words.{usize_mod, isize_max, mul_word}
use mohu_fork_nirman.Strides.{c_strides}
use mohu_fork_nirman.Errors.{MohuResult, ok}
use mohu_fork_nirman.DType.{DType, bool, itemsize}
use mohu_fork_nirman.DType.Code.{dtype_eq, dtype_eq_refl}
use mohu_fork_nirman.Alloc.{alloc, simd_align}
use mohu_fork_nirman.Alloc.Outcome.{alloc-some}
use mohu_fork_nirman.Layout.{Layout, size, ndim, is_empty, new_c, is_c_contiguous}
use mohu_fork_nirman.Layout.Indexed.{fresh, new_c-fresh}
use mohu_fork_nirman.Strides.Iter.{wrapping_product}
use mohu_fork_nirman.Buffer.{Memory, Buffer, put, raw_alloc, store_handle}
use mohu_fork_nirman.Buffer.Copy.{bytes_at, overwrite, write}
use mohu_fork_nirman.Buffer.Access.{check_dtype}
use mohu_fork_nirman.Buffer.Create.{concat, elements_at, with_slice, from_slice, as_slice, to_vec}

-- Values of one size.
abbrev pub OfSize : ℕ → List (List ℕ) → Type 0
OfSize n [] = Unit {0}
OfSize n (v ∷ vs) = (length v ≡ n) × OfSize n vs

pub length-concat : (n : ℕ) (vs : List (List ℕ)) → OfSize n vs → length (concat vs) ≡ n * length vs
length-concat n [] h = omega arith
length-concat n (v ∷ vs) (long, rest) =
    length-append v (concat vs) ∙ grind (arith, long, length-concat n vs rest)

overwrite-past :
    (bytes : ℕ → ℕ) (off : ℕ) (vs ws : List ℕ) (i : ℕ)
    → off + length vs ≤ i
    → overwrite bytes off (vs ++ ws) i ≡ overwrite bytes (off + length vs) ws i
overwrite-past bytes off [] ws i h = ap (λ o. overwrite bytes o ws i) (omega arith)
overwrite-past bytes off (v ∷ vs) ws i h = rw (ne→== i off (omega arith)) (
    overwrite-past bytes (suc off) vs ws i (omega arith)
    ∙ ap (λ o. overwrite bytes o ws i) (omega arith))

-- Bytes from some place on depend on nothing before it.
pub bytes_at-past :
    (f g : ℕ → ℕ) (from to n : ℕ)
    → ((i : ℕ) → from ≤ i → f i ≡ g i)
    → from ≤ to
    → bytes_at f to n ≡ bytes_at g to n
bytes_at-past f g from to zero same h = refl
bytes_at-past f g from to (suc n) same h =
    ap (λ b. b ∷ bytes_at f (suc to) n) (same to h)
    ∙ ap (λ l. g to ∷ l) (bytes_at-past f g from (suc to) n same (omega arith))

pub elements_at-past :
    (f g : ℕ → ℕ) (from to size n : ℕ)
    → ((i : ℕ) → from ≤ i → f i ≡ g i)
    → from ≤ to
    → elements_at f to size n ≡ elements_at g to size n
elements_at-past f g from to size zero same h = refl
elements_at-past f g from to size (suc n) same h =
    ap (λ b. b ∷ elements_at f (to + size) size n) (bytes_at-past f g from to size same h)
    ∙ ap (λ l. bytes_at g to size ∷ l)
        (elements_at-past f g from (to + size) size n same (omega arith))

bytes_at-first :
    (bytes : ℕ → ℕ) (off : ℕ) (vs ws : List ℕ)
    → bytes_at (overwrite bytes off (vs ++ ws)) off (length vs) ≡ vs
bytes_at-first bytes off [] ws = refl
bytes_at-first bytes off (v ∷ vs) ws =
    ap (λ b. b ∷ bytes_at (overwrite bytes off (v ∷ vs ++ ws)) (suc off) (length vs))
      (rw ((==_iff off off).1 refl) refl)
    ∙ ap (λ l. v ∷ l)
        (bytes_at-past (overwrite bytes off (v ∷ vs ++ ws)) (overwrite bytes (suc off) (vs ++ ws))
            (suc off) (suc off) (length vs) (λ i h. rw (ne→== i off (omega arith)) refl)
            (omega arith)
          ∙ bytes_at-first bytes (suc off) vs ws)

pub elements_at-concat :
    (bytes : ℕ → ℕ) (off n : ℕ) (vs : List (List ℕ))
    → OfSize n vs
    → elements_at (overwrite bytes off (concat vs)) off n (length vs) ≡ vs
elements_at-concat bytes off n [] h = refl
elements_at-concat bytes off n (v ∷ vs) (long, rest) =
    ap (λ b. b ∷ elements_at (overwrite bytes off (v ++ concat vs)) (off + n) n (length vs))
      (subst (λ k. bytes_at (overwrite bytes off (v ++ concat vs)) off k ≡ v) long
        (bytes_at-first bytes off v (concat vs)))
    ∙ ap (λ l. v ∷ l)
        (elements_at-past (overwrite bytes off (v ++ concat vs))
            (overwrite bytes (off + n) (concat vs)) (off + n) (off + n) n (length vs)
            (λ i h.
              overwrite-past bytes off v (concat vs) i (omega (arith, long))
              ∙ ap (λ k. overwrite bytes (off + k) (concat vs) i) long)
            (omega arith)
          ∙ elements_at-concat bytes (off + n) n vs rest)

pub itemsize-positive : (t : DType) → 0 < itemsize t
unfolding itemsize
itemsize-positive bool = omega arith
itemsize-positive t = omega arith

pub is_c_contiguous-fresh : (shape : List ℕ) (item : ℕ) → is_c_contiguous (fresh shape item) ≡ true
unfolding is_c_contiguous
is_c_contiguous-fresh shape item =
    elim (Bool-cases (is_empty (fresh shape item) || ndim (fresh shape item) == 0)) [
      | inl e ↦ rw e refl
      | inr e ↦ rw e (text_eq_refl (c_strides shape item))
    ]

size-fresh : (n item : ℕ) → n < usize_mod → size (fresh (n ∷ []) item) ≡ n
unfolding size wrapping_product mul_word
size-fresh n item h = omega arith

-- A block that holds the bytes of some values, under the layout of a vector.
holding :
    (mem : Memory) (t : DType) (buf : Buffer) (bytes : ℕ → ℕ) (values : List (List ℕ))
    → dtype_eq t buf.dtype ≡ true
    → buf.layout ≡ fresh (length values ∷ []) (itemsize t)
    → length values < usize_mod
    → (mem.raws buf.raw).bytes ≡ overwrite bytes 0 (concat values)
    → length values * itemsize t ≤ (mem.raws buf.raw).nbytes
    → OfSize (itemsize t) values
    → to_vec mem t buf ≡ ok values
unfolding to_vec as_slice check_dtype
holding mem t buf bytes values same laid small held room sized =
    let whole = ap is_c_contiguous laid ∙ is_c_contiguous-fresh (length values ∷ []) (itemsize t) in
    let count = ap size laid ∙ size-fresh (length values) (itemsize t) small in
    let start = ap (λ (l : Layout). l.offset) laid in
    rw
      (
        same,
        whole,
        count,
        start,
        le→leb (0 + length values * itemsize t) (mem.raws buf.raw).nbytes (omega arith),
        held,
      )
      (ap ok (elements_at-concat bytes 0 (itemsize t) values sized))

-- The block that an allocation makes.
pub raw_alloc-some :
    (address : ℕ) (bytes : ℕ → ℕ) (mem : Memory) (n : ℕ)
    → 0 < n
    → (m : Memory) × (raw_alloc (some address) bytes mem n ≡ (ok mem.next_raw, m))
      × ((m.raws mem.next_raw).nbytes ≡ n)
      × ((m.raws mem.next_raw).strong_count ≡ 1)
      × ((k : ℕ) → k < mem.next_raw → m.raws k ≡ mem.raws k)
unfolding raw_alloc store_handle
raw_alloc-some address bytes mem n positive =
    let (handle, got) = alloc-some address mem.stats n positive in
    let k = mem.next_raw in
    let stats = (alloc (some address) mem.stats n simd_align).1 in
    (
      (store_handle bytes mem n (ok handle, stats)).1,
      ap (λ r. store_handle bytes mem n (r, stats)) got,
      rw ((==_iff k k).1 refl) refl,
      rw ((==_iff k k).1 refl) refl,
      (λ j h. rw (ne→== j k (omega arith)) refl),
    )

write-held :
    (mem : Memory) (k : ℕ) (value : List ℕ)
    → length value ≤ (mem.raws k).nbytes
    → (m : Memory) × (write mem k 0 value ≡ (ok tt, m))
      × ((m.raws k).bytes ≡ overwrite (mem.raws k).bytes 0 value)
      × ((m.raws k).nbytes ≡ (mem.raws k).nbytes)
unfolding write
write-held mem k value room = (
  record mem {
    raws = put k (record (mem.raws k) { bytes = overwrite (mem.raws k).bytes 0 value }) mem.raws;
  },
  rw (le→leb (0 + length value) (mem.raws k).nbytes (omega arith)) refl,
  rw ((==_iff k k).1 refl) refl,
  rw ((==_iff k k).1 refl) refl,
)

with_slice-fresh :
    (t : DType) (k : ℕ) (layout : MohuResult Layout) (l : Layout) (mem : Memory)
    → layout ≡ ok l
    → (buf : Buffer) × (with_slice t k layout mem ≡ (ok buf, mem))
      × (buf.raw ≡ k)
      × (buf.dtype ≡ t)
      × (buf.layout ≡ l)
unfolding with_slice
with_slice-fresh t k layout l mem e = rw e (_, refl, refl, refl, refl)

pub total_bytes : (a b : ℕ) → b * a ≤ isize_max → mul_word a b ≡ b * a
unfolding mul_word
total_bytes a b h =
    let turned : a * b ≡ b * a = grind arith in ap (λ n. n % usize_mod) turned ∙ omega arith

-- `from_slice` of a slice that is not empty, of at most `isize::MAX` bytes, where the system has memory,
-- succeeds, and `to_vec` gives the slice back.
pub to_vec-from_slice :
    (address : ℕ) (fresh_bytes : ℕ → ℕ) (mem : Memory) (t : DType) (values : List (List ℕ))
    → 0 < length values
    → itemsize t * length values ≤ isize_max
    → OfSize (itemsize t) values
    → (buf : Buffer) × (mem' : Memory) × (from_slice (some address) fresh_bytes mem t values
        ≡ (ok buf, mem'))
      × (to_vec mem' t buf ≡ ok values)
unfolding from_slice
to_vec-from_slice address fresh_bytes mem t values some_value room sized =
    let positive = itemsize-positive t in
    let wide : length values ≤ itemsize t * length values = grind (arith, positive) in
    let total : mul_word (length values) (itemsize t) ≡ itemsize t * length values =
      total_bytes (length values) (itemsize t) room in
    let (m1, allocated, long, _, _) =
      raw_alloc-some address fresh_bytes mem (mul_word (length values) (itemsize t))
        (omega (arith, total)) in
    let k = mem.next_raw in
    let (m2, written, held, same) =
      write-held m1 k (concat values)
        (omega (arith, long, total, length-concat (itemsize t) values sized)) in
    let laid = new_c-fresh (length values ∷ []) (itemsize t) positive (omega arith) (omega arith) in
    let (buf, made, at, typed, layout) =
      with_slice-fresh t k (new_c (length values ∷ []) (itemsize t))
        (fresh (length values ∷ []) (itemsize t)) m2 laid in
    (
      buf,
      m2,
      rw (allocated, written, made) refl,
      holding m2 t buf (m1.raws k).bytes values (ap (dtype_eq t) typed ∙ dtype_eq_refl t) layout
          (omega arith) (ap (λ i. (m2.raws i).bytes) at ∙ held)
          (omega (arith, ap (λ i. (m2.raws i).nbytes) at, same, long, total)) sized,
    )
