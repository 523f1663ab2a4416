-- ===== src/Ops/Stored.antt =====
-- crates/mohu-buffer/src/ops.rs: what an operation leaves in its destination.
use mohu_fork_nirman.Base.{
  ℕ, ◌+◌, ◌*◌, ◌≤◌, ◌≡◌, ◌≢◌, refl, ap, sym, subst, ◌∙◌, true, Option, List, map, le→leb, ==_iff,
  ne→==, length, arith, Bool-cases, inl, inr,
}
use mohu_fork_nirman.Errors.{MohuResult, ok}
use mohu_fork_nirman.DType.{DType, itemsize}
use mohu_fork_nirman.DType.Code.{dtype_eq}
use mohu_fork_nirman.DType.Scalar.{Scalar}
use mohu_fork_nirman.Layout.{size, is_c_contiguous}
use mohu_fork_nirman.Buffer.{RawBuffer, Memory, Buffer, put}
use mohu_fork_nirman.Buffer.Copy.{write, is_writeable, set_unique, make_unique, overwrite}
use mohu_fork_nirman.Buffer.Access.{write_value}
use mohu_fork_nirman.Buffer.Create.{concat, elements_at, to_vec}
use mohu_fork_nirman.Buffer.Roundtrip.{OfSize, length-concat, elements_at-concat}
use mohu_fork_nirman.Ops.{store, run}
use mohu_fork_nirman.Ops.Contents.{Holds, length-map, OfSize-to_bytes, to_vec-elements_at}

-- A buffer that an operation can write to without a copy, at a dtype: the only owner of a block that has
-- room for its elements, which lie one after the other.
pub record Owned (mem : Memory) (t : DType) (buf : Buffer) : Type 0 where
  pub owner : (mem.raws buf.raw).strong_count ≡ 1
  pub typed : dtype_eq t buf.dtype ≡ true
  pub writeable : is_writeable buf ≡ true
  pub whole : is_c_contiguous buf.layout ≡ true
  pub room : buf.layout.offset + size buf.layout * itemsize t ≤ (mem.raws buf.raw).nbytes

-- A write into a block with room for it.
pub write-stored :
    (mem : Memory) (k off : ℕ) (value : List ℕ)
    → off + length value ≤ (mem.raws k).nbytes
    → (m : Memory) × (write mem k off value ≡ (ok tt, m))
      × ((m.raws k).bytes ≡ overwrite (mem.raws k).bytes off value)
      × ((m.raws k).nbytes ≡ (mem.raws k).nbytes)
      × ((i : ℕ) → i ≢ k → m.raws i ≡ mem.raws i)
unfolding write
write-stored mem k off value room =
    let fits = le→leb (off + length value) (mem.raws k).nbytes room in
    let same = (==_iff k k).1 refl in
    (
      record mem {
        raws =
            put k (record (mem.raws k) { bytes = overwrite (mem.raws k).bytes off value }) mem.raws;
      },
      rw fits refl,
      rw same refl,
      rw same refl,
      λ i other. rw (ne→== i k other) refl,
    )

-- The values of a slice go to a buffer that is owned and of which they fill the elements.
pub store-to_vec :
    (buf : Buffer) (mem : Memory) (t : DType) (vs : List (List ℕ))
    → Owned mem t buf
    → OfSize (itemsize t) vs
    → length vs ≡ size buf.layout
    → (mem' : Memory) × (store vs (buf, mem) ≡ (ok tt, (buf, mem')))
      × (to_vec mem' t buf ≡ ok vs)
      × ((i : ℕ) → i ≢ buf.raw → mem'.raws i ≡ mem.raws i)
unfolding store write_value
store-to_vec buf mem t vs owned sized full =
    let off = buf.layout.offset in
    let long = length-concat (itemsize t) vs sized in
    let turned : size buf.layout * itemsize t ≡ itemsize t * length vs =
      rw (sym full) (grind arith) in
    let (mem', written, held, wide, others) =
      write-stored mem buf.raw off (concat vs) (omega (arith, long, turned, owned.room)) in
    let back : elements_at (overwrite (mem.raws buf.raw).bytes off (concat vs)) off (itemsize t)
          (size buf.layout)
        ≡ vs =
      subst
        (λ n.
          elements_at (overwrite (mem.raws buf.raw).bytes off (concat vs)) off (itemsize t) n ≡ vs)
        full (elements_at-concat (mem.raws buf.raw).bytes off (itemsize t) vs sized) in
    (
      mem',
      rw written refl,
      to_vec-elements_at mem' t buf owned.typed owned.whole (omega (arith, wide, owned.room))
          ∙ ap ok (ap (λ b. elements_at b off (itemsize t) (size buf.layout)) held ∙ back),
      others,
    )

-- The writeable flag is set in a buffer that is owned.
pub set_unique-Owned :
    (mem : Memory) (t : DType) (buf : Buffer) → Owned mem t buf → Owned mem t (set_unique buf)
unfolding set_unique is_writeable
set_unique-Owned mem t buf owned = record {
  owner = owned.owner;
  typed = owned.typed;
  writeable = elim (Bool-cases buf.flags.writeable) [ inl e ↦ rw e refl | inr e ↦ rw e refl ];
  whole = owned.whole;
  room = owned.room;
}

-- An operation whose checks succeed and whose values fill a destination that it owns succeeds, and the
-- destination then holds the values. The blocks of the others are as before.
pub run-stored :
    (system : Option ℕ) (fresh : ℕ → ℕ) (checks : MohuResult (Unit {0}))
    (values : Buffer × Memory → MohuResult (List (List ℕ))) (buf : Buffer) (mem : Memory)
    (t : DType) (vs : List (List ℕ))
    → Owned mem t buf
    → checks ≡ ok tt
    → values (set_unique buf, mem) ≡ ok vs
    → OfSize (itemsize t) vs
    → length vs ≡ size buf.layout
    → (mem' : Memory) × (run system fresh checks values (buf, mem)
        ≡ (ok tt, (set_unique buf, mem')))
      × (to_vec mem' t (set_unique buf) ≡ ok vs)
      × ((i : ℕ) → i ≢ buf.raw → mem'.raws i ≡ mem.raws i)
unfolding run make_unique
run-stored system fresh checks values buf mem t vs owned passed computed sized full =
    let (mem', stored, held, others) =
      store-to_vec (set_unique buf) mem t vs (set_unique-Owned mem t buf owned) sized full in
    (
      mem',
      rw (passed, (==_iff (mem.raws buf.raw).strong_count 1).1 owned.owner, computed) stored,
      held,
      others,
    )

-- The same for values of a scalar type.
pub run-Holds :
    {A : Type 0} (system : Option ℕ) (fresh : ℕ → ℕ) (checks : MohuResult (Unit {0}))
    (values : Buffer × Memory → MohuResult (List (List ℕ))) (buf : Buffer) (mem : Memory)
    (s : Scalar A) (ys : List A)
    → Owned mem s.dtype buf
    → checks ≡ ok tt
    → values (set_unique buf, mem) ≡ ok (map s.to_bytes ys)
    → length ys ≡ size buf.layout
    → (mem' : Memory) × (run system fresh checks values (buf, mem)
        ≡ (ok tt, (set_unique buf, mem')))
      × Holds s mem' (set_unique buf) ys
      × ((i : ℕ) → i ≢ buf.raw → mem'.raws i ≡ mem.raws i)
run-Holds system fresh checks values buf mem s ys owned passed computed full =
    run-stored system fresh checks values buf mem s.dtype (map s.to_bytes ys) owned passed computed
      (OfSize-to_bytes s ys) (length-map s.to_bytes ys ∙ full)

-- Whether a buffer is owned depends on its own block only.
pub Owned-raws :
    (mem mem' : Memory) (t u : DType) (buf : Buffer)
    → mem'.raws buf.raw ≡ mem.raws buf.raw
    → t ≡ u
    → Owned mem t buf
    → Owned mem' u buf
Owned-raws mem mem' t u buf same typed owned = record {
  owner = ap (λ (raw : RawBuffer). raw.strong_count) same ∙ owned.owner;
  typed = ap (λ t. dtype_eq t buf.dtype) (sym typed) ∙ owned.typed;
  writeable = owned.writeable;
  whole = owned.whole;
  room =
      subst (λ raw. buf.layout.offset + size buf.layout * itemsize u ≤ raw.nbytes) (sym same)
        (subst (λ t. buf.layout.offset + size buf.layout * itemsize t ≤ (mem.raws buf.raw).nbytes)
          typed owned.room);
}
