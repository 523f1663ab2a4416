-- ===== src/Ops/Indexed/Calls.antt =====
-- crates/mohu-buffer/src/ops.rs: `gather` and `scatter` with indices in range.
use mohu_fork_nirman.Base.{
  ℕ, ◌<◌, ◌≡◌, ◌≢◌, refl, ap, sym, subst, ◌∙◌, true, Option, List, map, get_or, length, arith,
  ==_iff, [],
}
use mohu_fork_nirman.Errors.{ok-injective, ok}
use mohu_fork_nirman.DType.{i64, itemsize}
use mohu_fork_nirman.DType.Code.{dtype_eq, dtype_eq_refl}
use mohu_fork_nirman.Layout.{size, is_c_contiguous}
use mohu_fork_nirman.Buffer.{Memory, Buffer}
use mohu_fork_nirman.Buffer.Copy.{make_unique, set_unique}
use mohu_fork_nirman.Buffer.Access.{check_dtype}
use mohu_fork_nirman.Buffer.Create.{to_vec}
use mohu_fork_nirman.Ops.Checks.{check_named, check_len, check_write, check_indexed}
use mohu_fork_nirman.Ops.Contents.{
  All, length-map, load_bytes-to_vec, length-to_vec, OfSize-to_vec, to_vec-raws, to_vec-elements_at,
}
use mohu_fork_nirman.Ops.Stored.{Owned, Owned-raws, run-stored}
use mohu_fork_nirman.Ops.Indexed.{from_le_bytes, load_indices, position, gather, scatter}
use mohu_fork_nirman.Ops.Indexed.Places.{put_all, Distinct, picked-put_all}
use mohu_fork_nirman.Ops.Indexed.Stored.{gather_loop-inside, scatter_loop-put_all, picked-OfSize}

-- A contiguous buffer of 64-bit integers with the given bytes.
pub record Indices (mem : Memory) (indices : Buffer) (values : List (List ℕ)) : Type 0 where
  pub typed : indices.dtype ≡ i64
  pub whole : is_c_contiguous indices.layout ≡ true
  pub held : to_vec mem i64 indices ≡ ok values

-- The places that these indices stand for in a vector of `n` elements.
abbrev pub places : ℕ → List (List ℕ) → List ℕ
places n values = map (position n) (map from_le_bytes values)

load_indices-Indices :
    (mem : Memory) (indices : Buffer) (values : List (List ℕ))
    → Indices mem indices values
    → load_indices mem indices (size indices.layout) ≡ ok (map from_le_bytes values)
unfolding load_indices itemsize
load_indices-Indices mem indices values given =
    rw (load_bytes-to_vec mem i64 indices values given.whole given.held) refl

check_indexed-passes :
    (mem : Memory) (src indices dst along : Buffer) (values : List (List ℕ))
    → Indices mem indices values
    → Owned mem src.dtype dst
    → is_c_contiguous src.layout ≡ true
    → size indices.layout ≡ size along.layout
    → check_indexed src indices dst along ≡ ok tt
unfolding check_indexed check_named check_dtype check_len check_write
check_indexed-passes mem src indices dst along values given owned whole fits =
    rw
      (
        ap (λ t. dtype_eq t i64) given.typed ∙ dtype_eq_refl i64,
        owned.typed,
        whole,
        given.whole,
        owned.whole,
        (==_iff (size indices.layout) (size along.layout)).1 fits,
        owned.writeable,
      )
      refl

-- `gather` from a contiguous source that holds `vs`, with indices that all lie in the source once a
-- negative one counts from its end, to a destination of as many elements that is writeable, contiguous,
-- of the dtype of the source and the only owner of its block, succeeds: the destination then holds the
-- values at these places, and no other block changes.
pub gather-to_vec :
    (system : Option ℕ) (fresh : ℕ → ℕ) (src indices dst : Buffer) (mem : Memory)
    (values vs : List (List ℕ))
    → Indices mem indices values
    → Owned mem src.dtype dst
    → is_c_contiguous src.layout ≡ true
    → size indices.layout ≡ size dst.layout
    → to_vec mem src.dtype src ≡ ok vs
    → All (λ j. j < size src.layout) (places (size src.layout) values)
    → (mem' : Memory) × (gather system fresh src indices (dst, mem)
        ≡ (ok tt, (set_unique dst, mem')))
      × (to_vec mem' src.dtype (set_unique dst)
          ≡ ok (map (λ j. get_or vs j []) (places (size src.layout) values)))
      × ((i : ℕ) → i ≢ dst.raw → mem'.raws i ≡ mem.raws i)
unfolding gather
gather-to_vec system fresh src indices dst mem values vs given owned whole fits held inside =
    let n = size src.layout in
    let long = length-to_vec mem src.dtype src vs whole held in
    let count : length (places n values) ≡ length values =
      length-map (position n) (map from_le_bytes values) ∙ length-map from_le_bytes values in
    run-stored system fresh _ _ dst mem src.dtype (map (λ j. get_or vs j []) (places n values))
      owned (check_indexed-passes mem src indices dst dst values given owned whole fits)
      (rw
        (
          load_bytes-to_vec mem src.dtype src vs whole held,
          load_indices-Indices mem indices values given,
        )
        (gather_loop-inside (map from_le_bytes values) vs n long inside))
      (picked-OfSize (places n values) (itemsize src.dtype) vs
        (OfSize-to_vec mem src.dtype src vs whole held)
        (subst (λ k. All (λ j. j < k) (places n values)) (sym long) inside))
      (length-map (λ j. get_or vs j []) (places n values)
        ∙ count
        ∙ length-to_vec mem i64 indices values given.whole given.held
        ∙ fits)

-- `scatter` from a contiguous source that holds `vs`, with as many indices, which all lie in the destination
-- once a negative one counts from its end, to a destination that holds `old` and is writeable,
-- contiguous, of the dtype of the source and the only owner of its block, succeeds: the destination
-- then holds `old` with the values put at these places one after the other, so that the last of two
-- equal indices wins, and no other block changes.
pub scatter-to_vec :
    (system : Option ℕ) (fresh : ℕ → ℕ) (indices src dst : Buffer) (mem : Memory)
    (values vs old : List (List ℕ))
    → Indices mem indices values
    → Owned mem src.dtype dst
    → is_c_contiguous src.layout ≡ true
    → size indices.layout ≡ size src.layout
    → to_vec mem src.dtype src ≡ ok vs
    → to_vec mem src.dtype dst ≡ ok old
    → All (λ j. j < size dst.layout) (places (size dst.layout) values)
    → (mem' : Memory) × (scatter system fresh indices src (dst, mem)
        ≡ (ok tt, (set_unique dst, mem')))
      × (to_vec mem' src.dtype (set_unique dst)
          ≡ ok (put_all (places (size dst.layout) values) vs old))
      × ((i : ℕ) → i ≢ dst.raw → mem'.raws i ≡ mem.raws i)
unfolding scatter make_unique set_unique to_vec
scatter-to_vec system fresh indices src dst mem values vs old given owned whole fits held before
      inside =
    let n = size dst.layout in
    let item = itemsize src.dtype in
    let idxs = map from_le_bytes values in
    let long = length-to_vec mem src.dtype src vs whole held in
    let long' = length-to_vec mem i64 indices values given.whole given.held in
    let same =
      ok-injective
        (sym (to_vec-elements_at mem src.dtype dst owned.typed owned.whole owned.room) ∙ before) in
    let (mem', done, put, wide, others) =
      scatter_loop-put_all idxs vs n item dst.raw dst.layout.offset mem
        (OfSize-to_vec mem src.dtype src vs whole held)
        (length-map from_le_bytes values ∙ long' ∙ fits ∙ sym long) owned.room inside in
    (
      mem',
      rw
          (
            check_indexed-passes mem src indices dst src values given owned whole fits,
            (==_iff (mem.raws dst.raw).strong_count 1).1 owned.owner,
            sym fits,
            load_indices-Indices mem indices values given,
          )
          (rw (fits, load_bytes-to_vec mem src.dtype src vs whole held, done) refl),
      to_vec-elements_at mem' src.dtype dst owned.typed owned.whole
            (omega (arith, wide, owned.room))
          ∙ ap ok (put ∙ ap (put_all (map (position n) idxs) vs) same),
      others,
    )

-- `scatter` and then `gather` with the same indices, which are distinct and all lie in the vector: a third
-- buffer of as many elements, on a block of its own, then holds the values that were scattered.
pub gather-scatter :
    (system : Option ℕ) (fresh : ℕ → ℕ) (indices src dst out : Buffer) (mem : Memory)
    (values vs old : List (List ℕ))
    → Indices mem indices values
    → Owned mem src.dtype dst
    → Owned mem src.dtype out
    → src.dtype ≡ dst.dtype
    → indices.raw ≢ dst.raw
    → out.raw ≢ dst.raw
    → is_c_contiguous src.layout ≡ true
    → size indices.layout ≡ size src.layout
    → size indices.layout ≡ size out.layout
    → to_vec mem src.dtype src ≡ ok vs
    → to_vec mem src.dtype dst ≡ ok old
    → All (λ j. j < size dst.layout) (places (size dst.layout) values)
    → Distinct (places (size dst.layout) values)
    → (mem' mem'' : Memory) × (scatter system fresh indices src (dst, mem)
        ≡ (ok tt, (set_unique dst, mem')))
      × (gather system fresh (set_unique dst) indices (out, mem')
          ≡ (ok tt, (set_unique out, mem'')))
      × (to_vec mem'' src.dtype (set_unique out) ≡ ok vs)
unfolding set_unique
gather-scatter system fresh indices src dst out mem values vs old given owned owned' typed apart
      apart' whole fits fits' held before inside distinct =
    let (mem', done, put, others) =
      scatter-to_vec system fresh indices src dst mem values vs old given owned whole fits held
        before inside in
    let js = places (size dst.layout) values in
    let given' : Indices mem' indices values = record {
      typed = given.typed;
      whole = given.whole;
      held = to_vec-raws mem mem' i64 indices (others indices.raw apart) ∙ given.held;
    } in
    let (mem'', done', picked, others') =
      gather-to_vec system fresh (set_unique dst) indices out mem' values (put_all js vs old) given'
        (Owned-raws mem mem' src.dtype dst.dtype out (others out.raw apart') typed owned')
        owned.whole fits'
        (subst (λ t. to_vec mem' t (set_unique dst) ≡ ok (put_all js vs old)) typed put) inside in
    let room = length-to_vec mem src.dtype dst old owned.whole before in
    let count : length js ≡ length vs =
      length-map (position (size dst.layout)) (map from_le_bytes values)
      ∙ length-map from_le_bytes values
      ∙ length-to_vec mem i64 indices values given.whole given.held
      ∙ fits
      ∙ sym (length-to_vec mem src.dtype src vs whole held) in
    (
      mem',
      mem'',
      done,
      done',
      subst
            (λ t.
              to_vec mem'' t (set_unique out) ≡ ok (map (λ j. get_or (put_all js vs old) j []) js))
            (sym typed) picked
          ∙ ap ok (
              picked-put_all js vs old [] distinct
                (subst (λ n. All (λ j. j < n) js) (sym room) inside) count),
    )
