-- ===== src/Ops/Fill/Sequence.antt =====
-- crates/mohu-buffer/src/ops.rs: what `fill_sequential` and `fill` leave in a contiguous buffer.
use mohu_fork_nirman.Base.{
  ℕ, zero, suc, ◌+◌, ◌*◌, ◌≤◌, ◌<◌, ◌≡◌, ◌≢◌, refl, ap, ap₂, sym, subst, ◌∙◌, Option, List, [], ◌∷◌,
  map, replicate, length, arith, ==_iff, inl,
}
use mohu_fork_nirman.Errors.{ok}
use mohu_fork_nirman.DType.{DType, itemsize}
use mohu_fork_nirman.DType.Scalar.{Scalar}
use mohu_fork_nirman.Layout.{size}
use mohu_fork_nirman.Buffer.{Memory, Buffer}
use mohu_fork_nirman.Buffer.Copy.{bytes_at, overwrite, make_unique, set_unique}
use mohu_fork_nirman.Buffer.Access.{check_dtype}
use mohu_fork_nirman.Buffer.Create.{elements_at, fill_slice, fill_elements, to_vec}
use mohu_fork_nirman.Buffer.Written.{overwrite-outside, bytes_at-overwrite}
use mohu_fork_nirman.Ops.Indexed.Places.{bytes_at-before}
use mohu_fork_nirman.Ops.Checks.{check_write}
use mohu_fork_nirman.Ops.Contents.{Holds, length-map, OfSize-to_bytes, to_vec-elements_at}
use mohu_fork_nirman.Ops.Stored.{Owned, write-stored, store-to_vec, set_unique-Owned}
use mohu_fork_nirman.Ops.Fill.{with_unique, fill, add_steps, sequence_from, fill_sequential}

module _ {A : Type 0} (add : A → A → A) (step : A) where
  -- The sequence with a running sum.
  abbrev pub running : ℕ → A → List A
  running zero acc = []
  running (suc n) acc = acc ∷ running n (add acc step)

  sequence_from-shift :
      (n i : ℕ) (start : A)
      → sequence_from add step n (suc i) start ≡ sequence_from add step n i (add start step)
  sequence_from-shift zero i start = refl
  sequence_from-shift (suc n) i start =
      ap (λ l. add_steps add step (suc i) start ∷ l) (sequence_from-shift n (suc i) start)

  sequence_from-running : (n : ℕ) (start : A) → sequence_from add step n 0 start ≡ running n start
  sequence_from-running zero start = refl
  sequence_from-running (suc n) start =
      ap (λ l. start ∷ l) (sequence_from-shift n 0 start ∙ sequence_from-running n (add start step))

  length-running : (n : ℕ) (start : A) → length (running n start) ≡ n
  length-running zero start = refl
  length-running (suc n) start = ap suc (length-running n (add start step))

-- `fill_sequential` on a buffer that is writeable, contiguous and the only owner of its block succeeds: the
-- buffer then holds the sequence that starts at `start` and in which each element is the one before plus `step`,
-- though the code computes each by itself. No other block changes.
pub fill_sequential-Holds :
    {A : Type 0} (system : Option ℕ) (fresh : ℕ → ℕ) (s : Scalar A) (add : A → A → A)
    (start step : A) (buf : Buffer) (mem : Memory)
    → Owned mem s.dtype buf
    → (mem' : Memory) × (fill_sequential system fresh s add start step (buf, mem)
        ≡ (ok tt, (set_unique buf, mem')))
      × Holds s mem' (set_unique buf) (running add step (size buf.layout) start)
      × ((i : ℕ) → i ≢ buf.raw → mem'.raws i ≡ mem.raws i)
unfolding fill_sequential with_unique check_dtype check_write make_unique
fill_sequential-Holds system fresh s add start step buf mem owned =
    let n = size buf.layout in
    let ys = running add step n start in
    let (mem', stored, held, others) =
      store-to_vec (set_unique buf) mem s.dtype (map s.to_bytes ys)
        (set_unique-Owned mem s.dtype buf owned) (OfSize-to_bytes s ys)
        (length-map s.to_bytes ys ∙ length-running add step n start) in
    (
      mem',
      rw
          (
            owned.typed,
            owned.writeable,
            (==_iff (mem.raws buf.raw).strong_count 1).1 owned.owner,
            owned.whole,
            sequence_from-running add step n start,
          )
          stored,
      held,
      others,
    )

-- Elements that lie before the ones that are filled.
fill_slice-stored :
    (n : ℕ) (mem : Memory) (k off item : ℕ) (value : List ℕ)
    → length value ≡ item
    → off + n * item ≤ (mem.raws k).nbytes
    → (mem' : Memory) × (fill_slice mem k off value n ≡ (ok tt, mem'))
      × (elements_at (mem'.raws k).bytes off item n ≡ replicate n value)
      × ((i : ℕ) → i < off → (mem'.raws k).bytes i ≡ (mem.raws k).bytes i)
      × ((mem'.raws k).nbytes ≡ (mem.raws k).nbytes)
      × ((i : ℕ) → i ≢ k → mem'.raws i ≡ mem.raws i)
unfolding fill_slice
fill_slice-stored zero mem k off item value long room =
    (mem, refl, refl, λ i h. refl, refl, λ i h. refl)
fill_slice-stored (suc n) mem k off item value long room =
    let next : off + length value + n * item ≡ off + suc n * item = grind (arith, long) in
    let (m, written, held, wide, others) =
      write-stored mem k off value (omega (arith, long, room, next)) in
    let (mem', done, filled, before, same, kept) =
      fill_slice-stored n m k (off + length value) item value long
        (omega (arith, room, next, wide)) in
    (
      mem',
      rw written done,
      ap₂ (λ v vs. v ∷ vs)
          (bytes_at-before (mem'.raws k).bytes (m.raws k).bytes off (off + length value) item before
              (omega (arith, long))
            ∙ ap (λ b. bytes_at b off item) held
            ∙ subst (λ c. bytes_at (overwrite (mem.raws k).bytes off value) off c ≡ value) long
                (bytes_at-overwrite (mem.raws k).bytes off value))
          (ap (λ o. elements_at (mem'.raws k).bytes (off + o) item n) (sym long) ∙ filled),
      λ i h.
          before i (omega (arith, h))
          ∙ ap (λ (b : ℕ → ℕ). b i) held
          ∙ overwrite-outside (mem.raws k).bytes off value i (inl h),
      same ∙ wide,
      λ i h. kept i h ∙ others i h,
    )

-- `fill` with a value of the right size, on a buffer that is writeable, contiguous and the only owner of its
-- block, succeeds: each element of the buffer is then the value, and no other block changes.
pub fill-to_vec :
    (system : Option ℕ) (fresh : ℕ → ℕ) (t : DType) (value : List ℕ) (buf : Buffer) (mem : Memory)
    → Owned mem t buf
    → length value ≡ itemsize t
    → (mem' : Memory) × (fill system fresh t value (buf, mem) ≡ (ok tt, (set_unique buf, mem')))
      × (to_vec mem' t (set_unique buf) ≡ ok (replicate (size buf.layout) value))
      × ((i : ℕ) → i ≢ buf.raw → mem'.raws i ≡ mem.raws i)
unfolding fill with_unique check_dtype check_write make_unique fill_elements set_unique
fill-to_vec system fresh t value buf mem owned long =
    let (mem', done, filled, before, same, others) =
      fill_slice-stored (size buf.layout) mem buf.raw buf.layout.offset (itemsize t) value long
        owned.room in
    (
      mem',
      rw
          (
            owned.typed,
            owned.writeable,
            (==_iff (mem.raws buf.raw).strong_count 1).1 owned.owner,
            owned.whole,
            done,
          )
          refl,
      to_vec-elements_at mem' t (set_unique buf) owned.typed owned.whole
            (omega (arith, same, owned.room))
          ∙ ap ok filled,
      others,
    )
