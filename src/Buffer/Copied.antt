-- ===== src/Buffer/Copied.antt =====
-- crates/mohu-buffer/src/ops.rs: what the copy of a buffer's elements leaves in the other block.
pub mod Made
pub mod Offsets
pub mod Elements
pub mod Duplicate
pub mod Unshared
pub mod Stored
mod Examples
use mohu_fork_nirman.Base.{
  ℕ, zero, suc, ◌+◌, ◌*◌, ◌≤◌, ◌<◌, ◌≡◌, refl, ap, sym, subst, ◌∙◌, List, [], ◌∷◌, Option, none,
  some, le→leb, ne→==, ==_iff, length, arith, inl,
}
use mohu_fork_nirman.Errors.{ok}
use mohu_fork_nirman.Strides.Iter.{StridedByteIter, next_byte}
use mohu_fork_nirman.Strides.Iter.Bytes.{nth_byte, nth_byte-shift, nth_byte-first}
use mohu_fork_nirman.Buffer.{RawBuffer, Memory, put}
use mohu_fork_nirman.Buffer.Copy.{bytes_at, overwrite, read, write, copy_bytes, copy_loop}
use mohu_fork_nirman.Buffer.Written.{overwrite-outside}

length-bytes_at : (bytes : ℕ → ℕ) (off n : ℕ) → length (bytes_at bytes off n) ≡ n
length-bytes_at bytes off zero = refl
length-bytes_at bytes off (suc n) = ap suc (length-bytes_at bytes (suc off) n)

pub bytes_at-same :
    (f g : ℕ → ℕ) (a b n : ℕ)
    → ((i : ℕ) → i < n → f (a + i) ≡ g (b + i))
    → bytes_at f a n ≡ bytes_at g b n
bytes_at-same f g a b zero same = refl
bytes_at-same f g a b (suc n) same =
    let head : f a ≡ g b = ap f (omega arith) ∙ same 0 (omega arith) ∙ ap g (omega arith) in
    ap (λ v. v ∷ bytes_at f (suc a) n) head
    ∙ ap (λ l. g b ∷ l)
        (bytes_at-same f g (suc a) (suc b) n
          (λ i h. ap f (omega arith) ∙ same (suc i) (omega arith) ∙ ap g (omega arith)))

overwrite-bytes_at :
    (f g : ℕ → ℕ) (d s n i : ℕ) → i < n → overwrite f d (bytes_at g s n) (d + i) ≡ g (s + i)
overwrite-bytes_at f g d s zero i h = absurd (omega (arith, h))
overwrite-bytes_at f g d s (suc n) zero h =
    rw ((==_iff (d + 0) d).1 (omega arith)) (ap g (omega arith))
overwrite-bytes_at f g d s (suc n) (suc i) h = rw (ne→== (d + suc i) d (omega arith)) (
    ap (overwrite f (suc d) (bytes_at g (suc s) n)) (omega arith)
    ∙ overwrite-bytes_at f g (suc d) (suc s) n i (omega arith)
    ∙ ap g (omega arith))

-- The block `k` with other bytes, of which those of the range `d` to `d + n` come from `from` at `s`.
pub record Moved (mem m : Memory) (k : ℕ) : Type 0 where
  pub as_long : (m.raws k).nbytes ≡ (mem.raws k).nbytes
  pub owners : (m.raws k).strong_count ≡ (mem.raws k).strong_count
  pub others : (j : ℕ) → ¬ (j ≡ k) → m.raws j ≡ mem.raws j

pub copy_bytes-Moved :
    (mem : Memory) (src s dst d n : ℕ)
    → s + n ≤ (mem.raws src).nbytes
    → d + n ≤ (mem.raws dst).nbytes
    → (m : Memory) × (copy_bytes mem src s dst d n ≡ (ok tt, m))
      × Moved mem m dst
      × ((i : ℕ) → i < n → (m.raws dst).bytes (d + i) ≡ (mem.raws src).bytes (s + i))
      × ((i : ℕ) → i < d → (m.raws dst).bytes i ≡ (mem.raws dst).bytes i)
unfolding copy_bytes read write
copy_bytes-Moved mem src s dst d n from to =
    let value = bytes_at (mem.raws src).bytes s n in
    let long = length-bytes_at (mem.raws src).bytes s n in
    let raw = mem.raws dst in
    let same = (==_iff dst dst).1 refl in
    (
      record mem { raws = put dst (record raw { bytes = overwrite raw.bytes d value }) mem.raws },
      rw (le→leb (s + n) (mem.raws src).nbytes from, long, le→leb (d + n) raw.nbytes to) refl,
      record {
        as_long = rw same refl;
        owners = rw same refl;
        others = λ j h. rw (ne→== j dst h) refl;
      },
      (λ i h. rw same (overwrite-bytes_at raw.bytes (mem.raws src).bytes d s n i h)),
      (λ i h. rw same (overwrite-outside raw.bytes d value i (inl h))),
    )

Moved-refl : (mem : Memory) (k : ℕ) → Moved mem mem k
Moved-refl mem k = record { as_long = refl; owners = refl; others = λ j h. refl }

Moved-trans : (a b c : Memory) (k : ℕ) → Moved a b k → Moved b c k → Moved a c k
Moved-trans a b c k p q = record {
  as_long = q.as_long ∙ p.as_long;
  owners = q.owners ∙ p.owners;
  others = λ j h. q.others j h ∙ p.others j h;
}

-- A byte iterator with `n` offsets to come, whose elements lie in the source.
pub record Ahead (it : StridedByteIter) (n : ℕ) (offs : ℕ → ℕ) (s item len : ℕ) : Type 0 where
  pub yields : (j : ℕ) → j < n → nth_byte j it ≡ some (offs j)
  pub ends : nth_byte n it ≡ none
  pub inside : (j : ℕ) → j < n → s + offs j + item ≤ len

Ahead-next :
    (it : StridedByteIter) (n : ℕ) (offs : ℕ → ℕ) (s item len : ℕ)
    → Ahead it (suc n) offs s item len
    → ((next_byte it).0 ≡ some (offs 0)) × Ahead (next_byte it).1 n (λ j. offs (suc j)) s item len
Ahead-next it n offs s item len a = (
  sym (nth_byte-first it) ∙ a.yields 0 (omega arith),
  record {
    yields = λ j h. sym (nth_byte-shift j it) ∙ a.yields (suc j) (omega arith);
    ends = sym (nth_byte-shift n it) ∙ a.ends;
    inside = λ j h. a.inside (suc j) (omega arith);
  },
)

-- The element number `e` and then `n` more make the elements from number `e` on.
joined :
    (bytes between from : ℕ → ℕ) (n e d s item : ℕ) (offs : ℕ → ℕ)
    → ((i : ℕ) → i < item → between (d + e * item + i) ≡ from (s + offs 0 + i))
    → ((i : ℕ) → i < d + suc e * item → bytes i ≡ between i)
    → ((j i : ℕ)
        → j < n
        → i < item
        → bytes (d + (suc e + j) * item + i) ≡ from (s + offs (suc j) + i))
    → (j i : ℕ) → j < suc n
    → i < item
    → bytes (d + (e + j) * item + i) ≡ from (s + offs j + i)
joined bytes between from n e d s item offs first kept rest zero i h k =
    ap (λ a. bytes (d + a * item + i)) (omega arith)
    ∙ kept (d + e * item + i) (omega (arith, k))
    ∙ first i k
joined bytes between from n e d s item offs first kept rest (suc j) i h k =
    ap (λ a. bytes (d + a * item + i)) (omega arith) ∙ rest j i (omega (arith, h)) k

-- The loop over a byte iterator puts the elements at its offsets one after the other, from the element
-- number `e` of the target on.
pub copy_loop-Moved :
    (n fuel : ℕ) (it : StridedByteIter) (e : ℕ) (mem : Memory) (src s dst d item : ℕ) (offs : ℕ → ℕ)
    → ¬ (src ≡ dst)
    → n < fuel
    → Ahead it n offs s item (mem.raws src).nbytes
    → d + (e + n) * item ≤ (mem.raws dst).nbytes
    → (m : Memory) × (copy_loop fuel it e mem src s dst d item item ≡ (ok tt, m))
      × Moved mem m dst
      × ((j i : ℕ)
          → j < n
          → i < item
          → (m.raws dst).bytes (d + (e + j) * item + i) ≡ (mem.raws src).bytes (s + offs j + i))
      × ((i : ℕ) → i < d + e * item → (m.raws dst).bytes i ≡ (mem.raws dst).bytes i)
unfolding copy_loop
copy_loop-Moved zero zero it e mem src s dst d item offs other more a room = absurd (omega arith)
copy_loop-Moved zero (suc fuel) it e mem src s dst d item offs other more a room =
    let stop : (next_byte it).0 ≡ none = sym (nth_byte-first it) ∙ a.ends in
    (
      mem,
      rw (stop, copy_loop) refl,
      Moved-refl mem dst,
      (λ j i h k. absurd (omega (arith, h))),
      (λ i h. refl),
    )
copy_loop-Moved (suc n) zero it e mem src s dst d item offs other more a room =
    absurd (omega (arith, more))
copy_loop-Moved (suc n) (suc fuel) it e mem src s dst d item offs other more a room =
    let (first, rest) = Ahead-next it n offs s item (mem.raws src).nbytes a in
    let (m1, step, moved, written, before) =
      copy_bytes-Moved mem src (s + offs 0) dst (d + e * item) item (a.inside 0 (omega arith))
        (grind (arith, room)) in
    let kept = moved.others src other in
    let turn : d + (suc e + n) * item ≡ d + (e + suc n) * item =
      ap (λ k. d + k * item) (omega arith) in
    let (m2, loop, moved', copied, before') =
      copy_loop-Moved n fuel (next_byte it).1 (suc e) m1 src s dst d item (λ j. offs (suc j)) other
        (omega (arith, more))
        (subst (Ahead (next_byte it).1 n (λ j. offs (suc j)) s item)
          (sym (ap (λ (r : RawBuffer). r.nbytes) kept)) rest)
        (omega (arith, turn, moved.as_long, room)) in
    (
      m2,
      rw (first, copy_loop) (rw step loop),
      Moved-trans mem m1 m2 dst moved moved',
      joined (m2.raws dst).bytes (m1.raws dst).bytes (mem.raws src).bytes n e d s item offs written
          before'
          (λ j i h k. copied j i h k ∙ ap (λ (r : RawBuffer). r.bytes (s + offs (suc j) + i)) kept),
      (λ i h. before' i (omega (arith, h)) ∙ before i h),
    )
