-- ===== src/Buffer/Written.antt =====
-- crates/mohu-buffer/src/buffer.rs and view.rs: an element that is written is read back.
use mohu_fork_nirman.Base.{
  ℕ, zero, suc, ◌+◌, ◌≤◌, ◌<◌, ◌≡◌, ◌⊎◌, inl, inr, refl, ap, sym, subst, ◌∙◌, true, List, [], ◌∷◌,
  le→leb, ==_iff, ne→==, ℕ_discrete, Bool-cases, length, arith, Option,
}
use mohu_fork_nirman.Errors.{MohuResult, ok, ◌>>=◌}
use mohu_fork_nirman.DType.{DType, itemsize}
use mohu_fork_nirman.DType.Code.{dtype_eq}
use mohu_fork_nirman.Layout.{byte_offset}
use mohu_fork_nirman.Buffer.{Memory, Buffer}
use mohu_fork_nirman.Buffer.Copy.{
  bytes_at, overwrite, read, write, is_writeable, set_unique, make_unique,
}
use mohu_fork_nirman.Buffer.Access.{
  get, set, set_unchecked, write_value, check_writeable, check_dtype, view_get, new_view,
}

pub overwrite-outside :
    (bytes : ℕ → ℕ) (off : ℕ) (vs : List ℕ) (i : ℕ)
    → (i < off) ⊎ (off + length vs ≤ i)
    → overwrite bytes off vs i ≡ bytes i
overwrite-outside bytes off [] i h = refl
overwrite-outside bytes off (v ∷ vs) i h =
    rw (ne→== i off (ground arith)) (overwrite-outside bytes (suc off) vs i (ground arith))

overwrite-first : (bytes : ℕ → ℕ) (off v : ℕ) (vs : List ℕ) → overwrite bytes off (v ∷ vs) off ≡ v
overwrite-first bytes off v vs = rw ((==_iff off off).1 refl) refl

overwrite-rest :
    (bytes : ℕ → ℕ) (off v : ℕ) (vs : List ℕ) (from n : ℕ)
    → off < from
    → bytes_at (overwrite bytes off (v ∷ vs)) from n
      ≡ bytes_at (overwrite bytes (suc off) vs) from n
overwrite-rest bytes off v vs from zero h = refl
overwrite-rest bytes off v vs from (suc n) h = rw (ne→== from off (omega arith)) (
    ap (λ l. overwrite bytes (suc off) vs from ∷ l)
      (overwrite-rest bytes off v vs (suc from) n (omega arith)))

pub bytes_at-overwrite :
    (bytes : ℕ → ℕ) (off : ℕ) (vs : List ℕ) → bytes_at (overwrite bytes off vs) off (length vs) ≡ vs
bytes_at-overwrite bytes off [] = refl
bytes_at-overwrite bytes off (v ∷ vs) =
    ap (λ b. b ∷ bytes_at (overwrite bytes off (v ∷ vs)) (suc off) (length vs))
      (overwrite-first bytes off v vs)
    ∙ ap (λ l. v ∷ l)
        (overwrite-rest bytes off v vs (suc off) (length vs) (omega arith)
          ∙ bytes_at-overwrite bytes (suc off) vs)

pub write-inside :
    (mem : Memory) (k off : ℕ) (value : List ℕ)
    → off + length value ≤ (mem.raws k).nbytes
    → ((write mem k off value).0 ≡ ok tt)
      × (read ((write mem k off value).1.raws k) off (length value) ≡ ok value)
unfolding write read
write-inside mem k off value room =
    let fits = le→leb (off + length value) (mem.raws k).nbytes room in
    rw (fits, (==_iff k k).1 refl)
      (refl, rw fits (ap ok (bytes_at-overwrite (mem.raws k).bytes off value)))

pub write-outside :
    (mem : Memory) (k off : ℕ) (value : List ℕ) (j i : ℕ)
    → off + length value ≤ (mem.raws k).nbytes
    → (¬ (j ≡ k)) ⊎ (i < off) ⊎ (off + length value ≤ i)
    → ((write mem k off value).1.raws j).bytes i ≡ (mem.raws j).bytes i
unfolding write
write-outside mem k off value j i room outside =
    rw (le→leb (off + length value) (mem.raws k).nbytes room) (elim (ℕ_discrete j k) [
      | no d ↦ rw (ne→== j k d) refl
      | yes e ↦
          let inside : overwrite (mem.raws k).bytes off value i ≡ (mem.raws k).bytes i =
            elim outside [
              | inl d ↦ absurd (d e)
              | inr o ↦ overwrite-outside (mem.raws k).bytes off value i o
            ] in
          rw ((==_iff j k).1 e) (inside ∙ ap (λ b. (mem.raws b).bytes i) (sym e))
    ])

-- What `set` comes down to where its checks succeed.
set-write :
    (system : Option ℕ) (fresh : ℕ → ℕ) (t : DType) (indices value : List ℕ) (buf : Buffer)
    (mem : Memory) (off : ℕ)
    → dtype_eq t buf.dtype ≡ true
    → is_writeable buf ≡ true
    → (mem.raws buf.raw).strong_count ≡ 1
    → byte_offset buf.layout indices ≡ ok off
    → set system fresh t indices value (buf, mem)
      ≡ ((write mem buf.raw off value).0, (set_unique buf, (write mem buf.raw off value).1))
unfolding set check_writeable check_dtype make_unique set_unchecked set_unique write_value
set-write system fresh t indices value buf mem off same writeable unique found =
    rw (same, writeable, (==_iff (mem.raws buf.raw).strong_count 1).1 unique, found) refl

get-found :
    (mem : Memory) (t : DType) (buf : Buffer) (indices : List ℕ) (off : ℕ)
    → dtype_eq t buf.dtype ≡ true
    → byte_offset buf.layout indices ≡ ok off
    → get mem t (set_unique buf) indices ≡ read (mem.raws buf.raw) off (itemsize t)
unfolding get check_dtype set_unique
get-found mem t buf indices off same found = rw (same, found) refl

-- `set` on a writeable buffer that is the only owner of its block, at the buffer's dtype, at indices that
-- the layout accepts and with room for the value in the block, succeeds; `get` then reads the value
-- back at these indices, and every byte outside those of the element is unchanged.
pub get-set :
    (system : Option ℕ) (fresh : ℕ → ℕ) (t : DType) (indices value : List ℕ) (buf : Buffer)
    (mem : Memory) (off j i : ℕ)
    → dtype_eq t buf.dtype ≡ true
    → is_writeable buf ≡ true
    → (mem.raws buf.raw).strong_count ≡ 1
    → byte_offset buf.layout indices ≡ ok off
    → length value ≡ itemsize t
    → off + itemsize t ≤ (mem.raws buf.raw).nbytes
    → (¬ (j ≡ buf.raw)) ⊎ (i < off) ⊎ (off + itemsize t ≤ i)
    → ((set system fresh t indices value (buf, mem)).0 ≡ ok tt)
      × (get
            (set system fresh t indices value (buf, mem)).1.1
            t
            (set system fresh t indices value (buf, mem)).1.0
            indices
          ≡ ok value)
      × (((set system fresh t indices value (buf, mem)).1.1.raws j).bytes i ≡ (mem.raws j).bytes i)
get-set system fresh t indices value buf mem off j i same writeable unique found long room outside =
    let sized = subst (λ n. off + n ≤ (mem.raws buf.raw).nbytes) (sym long) room in
    let apart = subst (λ n. (¬ (j ≡ buf.raw)) ⊎ (i < off) ⊎ (off + n ≤ i)) (sym long) outside in
    let (done, stored) = write-inside mem buf.raw off value sized in
    let back =
      subst (λ n. read ((write mem buf.raw off value).1.raws buf.raw) off n ≡ ok value) long
        stored in
    rw (set-write system fresh t indices value buf mem off same writeable unique found) (
      done,
      get-found (write mem buf.raw off value).1 t buf indices off same found ∙ back,
      write-outside mem buf.raw off value j i sized apart,
    )

-- A typed view reads what `Buffer::get` reads, errors included, where the layout starts at the first
-- byte of its block.
pub view_get-get :
    (mem : Memory) (t : DType) (buf : Buffer) (indices : List ℕ)
    → buf.layout.offset ≡ 0
    → (new_view t buf >>= λ view. view_get mem t view indices) ≡ get mem t buf indices
unfolding new_view view_get get check_dtype
view_get-get mem t buf indices start = elim (Bool-cases (dtype_eq t buf.dtype)) [
  | inr e ↦ rw e refl
  | inl e ↦ rw e (
      ap (λ (f : ℕ → MohuResult (List ℕ)). byte_offset buf.layout indices >>= f)
        (λ i off. shifted off i))
]
  where
    shifted :
        (off : ℕ)
        → read (mem.raws buf.raw) (buf.layout.offset + off) (itemsize t)
          ≡ read (mem.raws buf.raw) off (itemsize t)
    shifted off = ap (λ o. read (mem.raws buf.raw) o (itemsize t)) (omega (arith, start))
