-- ===== src/Alloc/Outcome.antt =====
-- crates/mohu-buffer/src/alloc.rs: the outcomes of `alloc`, and the counter of live bytes.
use mohu_fork_nirman.Base.{
  ℕ, ◌+◌, ◌%◌, ◌<◌, ◌≡◌, ◌⊎◌, inl, inr, refl, sym, Option, none, some, arith, max, leb, ==_iff,
  ne→==, ℕ_discrete, Bool-cases, dec_le, le→leb, gt→leb,
}
use mohu_fork_nirman.Base.Words.{usize_mod, isize_max, add_word, sub_word}
use mohu_fork_nirman.Errors.{MohuResult, ok, err, panic, allocation_failed}
use mohu_fork_nirman.Alloc.{
  AllocStats, AllocInner, AllocHandle, heap_block, mapping, mmap_threshold, simd_align,
  next_power_of_two, alloc, alloc_record, alloc_inner, heap_alloc_inner, from_size_align,
  double_from, record_alloc, record_free, drop_handle,
}

alloc_inner_cases :
    (system : Option ℕ) (len align : ℕ)
    → ((inner : AllocInner) × (alloc_inner system len align ≡ ok inner))
      ⊎ (alloc_inner system len align ≡ err (allocation_failed len))
unfolding alloc_inner heap_alloc_inner
alloc_inner_cases none len align = inr (ground arith)
alloc_inner_cases (some ptr) len align = elim (Bool-cases (leb mmap_threshold len)) [
  | inl e ↦ inl (mapping ptr, rw e refl)
  | inr e ↦ elim (Bool-cases (from_size_align len align)) [
    | inl f ↦ inl (heap_block ptr len align, rw (e, f) refl)
    | inr f ↦ inr (rw (e, f) refl)
  ]
]

-- The outcome of an allocation of `len` bytes: a handle of that length, with the bytes counted; or
-- the allocation error, with nothing counted.
abbrev pub Allocated : AllocStats → ℕ → MohuResult AllocHandle × AllocStats → Type 0
Allocated stats len (ok h, stats') =
    (h.len ≡ len) × (stats'.live_bytes ≡ (stats.live_bytes + len) % usize_mod)
Allocated stats len (err e, stats') = (0 < len) × (e ≡ allocation_failed len) × (stats' ≡ stats)
Allocated stats len (panic, stats') = ⊥

alloc_record-Allocated :
    (stats : AllocStats) (len align : ℕ) (r : MohuResult AllocInner)
    → 0 < len
    → ((inner : AllocInner) × (r ≡ ok inner)) ⊎ (r ≡ err (allocation_failed len))
    → Allocated stats len (alloc_record stats len align r)
unfolding alloc_record record_alloc add_word
alloc_record-Allocated stats len align r h (inl (inner, e)) = rw e (refl, refl)
alloc_record-Allocated stats len align r h (inr e) = rw e (h, refl, refl)

pub alloc-Allocated :
    (system : Option ℕ) (stats : AllocStats) (len align : ℕ)
    → stats.live_bytes < usize_mod
    → Allocated stats len (alloc system stats len align)
unfolding alloc
alloc-Allocated system stats len align w = elim (ℕ_discrete len 0) [
  | yes z ↦ rw ((==_iff len 0).1 z) (sym z, omega arith)
  | no n ↦
      let aligned = next_power_of_two (max align simd_align) in
      rw (ne→== len 0 n) (
        alloc_record-Allocated stats len aligned (alloc_inner system len aligned) (omega arith)
          (alloc_inner_cases system len aligned))
]

-- A freed handle's bytes are no longer counted.
pub live_bytes-drop_handle :
    (stats : AllocStats) (h : AllocHandle) (rest : ℕ)
    → stats.live_bytes ≡ (h.len + rest) % usize_mod
    → h.len < usize_mod
    → (drop_handle stats h).live_bytes ≡ rest % usize_mod
unfolding drop_handle record_free sub_word
live_bytes-drop_handle stats h rest e small = elim (ℕ_discrete h.len 0) [
  | yes z ↦ rw ((==_iff h.len 0).1 z) (omega arith)
  | no n ↦ rw (ne→== h.len 0 n) (omega arith)
]

-- Where the system has memory, an allocation that is not empty succeeds.
pub alloc-some :
    (address : ℕ) (stats : AllocStats) (len : ℕ)
    → 0 < len
    → (handle : AllocHandle) × ((alloc (some address) stats len simd_align).0 ≡ ok handle)
unfolding alloc alloc_inner heap_alloc_inner alloc_record from_size_align next_power_of_two
    double_from
alloc-some address stats len positive =
    rw (ne→== len 0 (omega arith)) (elim (dec_le mmap_threshold len) [
      | yes p ↦ rw (le→leb mmap_threshold len p) (_, refl)
      | no p ↦ rw (gt→leb mmap_threshold len p, le→leb (len + 63) isize_max (omega arith)) (_, refl)
    ])
