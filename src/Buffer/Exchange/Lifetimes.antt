-- ===== src/Buffer/Exchange/Lifetimes.antt =====
-- crates/mohu-buffer/src/buffer.rs: when the deleter of a tensor is called.
use mohu_fork_nirman.Base.{
  ℕ, zero, suc, ◌+◌, ◌-◌, ◌<◌, ◌≡◌, refl, ap, ap₂, subst, ◌∙◌, ◌==◌, Bool-cases, inl, inr, ◌∷◌,
  ==_iff, ne→==, arith, Bool, false, if◌then◌else◌,
}
use mohu_fork_nirman.Errors.{MohuResult, ok, err, panic, ok-injective, err_not_ok, panic_not_ok}
use mohu_fork_nirman.DType.{DType}
use mohu_fork_nirman.Layout.{Layout}
use mohu_fork_nirman.Buffer.{imported, Memory, Buffer, then_do, clone_raw, drop_raw, drop_source}
use mohu_fork_nirman.Buffer.Exchange.{
  DlTensor, export_tensor, delete_exported, import_tensor, import_block, data_of, read_tensor,
}

-- `n` more owners of a block, and `n` owners that let go of it.
abbrev pub clones : ℕ → ℕ → Memory → Memory
clones zero k mem = mem
clones (suc n) k mem = clones n k (clone_raw mem k)

abbrev pub drops : ℕ → ℕ → Memory → Memory
drops zero k mem = mem
drops (suc n) k mem = drops n k (drop_raw mem k)

clones_lem :
    (n k : ℕ) (mem : Memory)
    → (((clones n k mem).raws k).strong_count ≡ (mem.raws k).strong_count + n)
      × (((clones n k mem).raws k).source ≡ (mem.raws k).source)
      × ((clones n k mem).stats ≡ mem.stats)
      × ((clones n k mem).released ≡ mem.released)
unfolding clone_raw
clones_lem zero k mem = (omega arith, refl, refl, refl)
clones_lem (suc n) k mem =
    let same = (==_iff k k).1 refl in
    let (count, source, stats, released) = clones_lem n k (clone_raw mem k) in
    let one : ((clone_raw mem k).raws k).strong_count ≡ (mem.raws k).strong_count + 1 =
      rw same refl in
    let kept : ((clone_raw mem k).raws k).source ≡ (mem.raws k).source = rw same refl in
    (omega (arith, count, one), source ∙ kept, stats, released)

drop_raw_early :
    (k : ℕ) (mem : Memory)
    → 1 < (mem.raws k).strong_count
    → (((drop_raw mem k).raws k).strong_count ≡ (mem.raws k).strong_count - 1)
      × (((drop_raw mem k).raws k).source ≡ (mem.raws k).source)
      × ((drop_raw mem k).stats ≡ mem.stats)
      × ((drop_raw mem k).released ≡ mem.released)
unfolding drop_raw
drop_raw_early k mem h =
    rw ((==_iff k k).1 refl, ne→== (mem.raws k).strong_count 1 (omega (arith, h)))
      (refl, refl, refl, refl)

drops_early :
    (n k : ℕ) (mem : Memory)
    → n < (mem.raws k).strong_count
    → (((drops n k mem).raws k).strong_count ≡ (mem.raws k).strong_count - n)
      × (((drops n k mem).raws k).source ≡ (mem.raws k).source)
      × ((drops n k mem).stats ≡ mem.stats)
      × ((drops n k mem).released ≡ mem.released)
drops_early zero k mem h = (omega arith, refl, refl, refl)
drops_early (suc n) k mem h =
    let (count, source, stats, released) = drop_raw_early k mem (omega (arith, h)) in
    let (count', source', stats', released') =
      drops_early n k (drop_raw mem k) (omega (arith, count, h)) in
    (omega (arith, count, count'), source' ∙ source, stats' ∙ stats, released' ∙ released)

drop_raw_last :
    (k : ℕ) (mem : Memory)
    → (mem.raws k).strong_count ≡ 1
    → ((drop_raw mem k).stats, (drop_raw mem k).released)
      ≡ drop_source (mem.raws k).source (mem.stats, mem.released)
unfolding drop_raw
drop_raw_last k mem one = rw ((==_iff (mem.raws k).strong_count 1).1 one) refl

drop_imported :
    (k managed : ℕ) (has_deleter : Bool) (mem : Memory)
    → (mem.raws k).strong_count ≡ 1
    → (mem.raws k).source ≡ imported managed has_deleter
    → (managed == 0) ≡ false
    → ((drop_raw mem k).stats ≡ mem.stats)
      × ((drop_raw mem k).released ≡ (if has_deleter then managed ∷ mem.released else mem.released))
unfolding drop_source
drop_imported k managed has_deleter mem one source nonnull =
    let last = drop_raw_last k mem one in
    (ap (λ x. x.0) last ∙ rw source refl, ap (λ x. x.1) last ∙ rw source (rw nonnull refl))

-- A block with one owner, of an imported tensor, beside a memory.
abbrev Sole : Memory → ℕ → Bool → Buffer × Memory → Type 0
Sole mem managed has_deleter (buf, m) =
    ((m.raws buf.raw).strong_count ≡ 1)
    × ((m.raws buf.raw).source ≡ imported managed has_deleter)
    × (m.stats ≡ mem.stats)
    × (m.released ≡ mem.released)

import_block-Sole :
    (mem : Memory) (managed : ℕ) (has_deleter : Bool) (bytes : ℕ → ℕ) (ptr : ℕ) (dtype : DType)
    (layout : Layout)
    → Sole mem managed has_deleter (import_block mem managed has_deleter bytes ptr dtype layout)
unfolding import_block
import_block-Sole mem managed has_deleter bytes ptr dtype layout =
    rw ((==_iff mem.next_raw mem.next_raw).1 refl) (refl, refl, refl, refl)

made_block :
    (mem m : Memory) (managed : ℕ) (has_deleter : Bool) (bytes : ℕ → ℕ) (ptr : ℕ) (buf : Buffer)
    (r : MohuResult (DType × Layout))
    → then_do
        (r, mem)
        (λ (dtype, layout) mem.
          let (buf, mem') = import_block mem managed has_deleter bytes ptr dtype layout in
          (ok buf, mem'))
      ≡ (ok buf, m)
    → Sole mem managed has_deleter (buf, m)
made_block mem m managed has_deleter bytes ptr buf (ok (dtype, layout)) h =
    subst (Sole mem managed has_deleter)
      (ap₂ (λ b n. (b, n)) (ok-injective (ap (λ x. x.0) h)) (ap (λ x. x.1) h))
      (import_block-Sole mem managed has_deleter bytes ptr dtype layout)
made_block mem m managed has_deleter bytes ptr buf (err e) h = absurd (err_not_ok (ap (λ x. x.0) h))
made_block mem m managed has_deleter bytes ptr buf panic h = absurd (panic_not_ok (ap (λ x. x.0) h))

imported_lem :
    (mem m : Memory) (managed : ℕ) (has_deleter : Bool) (tensor : DlTensor) (bytes : ℕ → ℕ)
    (buf : Buffer)
    → import_tensor mem managed has_deleter tensor bytes ≡ (ok buf, m)
    → Sole mem managed has_deleter (buf, m)
unfolding import_tensor
imported_lem mem m managed has_deleter tensor bytes buf made = elim (Bool-cases (managed == 0)) [
  | inl e ↦ absurd (err_not_ok (ap (λ x. x.0) (rw e at made)))
  | inr e ↦
      made_block mem m managed has_deleter bytes (data_of tensor) buf (read_tensor tensor)
        (rw e at made)
]

import_tensor-nonnull :
    (mem m : Memory) (managed : ℕ) (has_deleter : Bool) (tensor : DlTensor) (bytes : ℕ → ℕ)
    (buf : Buffer)
    → import_tensor mem managed has_deleter tensor bytes ≡ (ok buf, m)
    → (managed == 0) ≡ false
unfolding import_tensor
import_tensor-nonnull mem m managed has_deleter tensor bytes buf made =
    elim (Bool-cases (managed == 0)) [
      | inl e ↦ absurd (err_not_ok (ap (λ x. x.0) (rw e at made)))
      | inr e ↦ e
    ]

-- The deleter of an imported tensor is called once. Where `from_dlpack` gives a buffer, any number of further owners
-- of its block may come and as many let go of it with no deleter called; when the owner that is left then lets go, the
-- deleter of this tensor is called if it has one, no other is, and mohu's allocator gives no memory back.
pub deleter_once :
    (mem m : Memory) (managed : ℕ) (has_deleter : Bool) (tensor : DlTensor) (bytes : ℕ → ℕ)
    (buf : Buffer) (n : ℕ)
    → import_tensor mem managed has_deleter tensor bytes ≡ (ok buf, m)
    → let others_gone = drops n buf.raw (clones n buf.raw m) in
      (others_gone.released ≡ mem.released)
      × ((drop_raw others_gone buf.raw).released
          ≡ (if has_deleter then managed ∷ mem.released else mem.released))
      × ((drop_raw others_gone buf.raw).stats ≡ mem.stats)
deleter_once mem m managed has_deleter tensor bytes buf n made =
    let (one, source, stats, released) =
      imported_lem mem m managed has_deleter tensor bytes buf made in
    let k = buf.raw in
    let (count1, source1, stats1, released1) = clones_lem n k m in
    let (count2, source2, stats2, released2) =
      drops_early n k (clones n k m) (omega (arith, count1, one)) in
    let (stats3, released3) =
      drop_imported k managed has_deleter (drops n k (clones n k m))
        (omega (arith, count1, count2, one)) (source2 ∙ source1 ∙ source)
        (import_tensor-nonnull mem m managed has_deleter tensor bytes buf made) in
    (
      released2 ∙ released1 ∙ released,
      released3
          ∙ ap (λ l. if has_deleter then managed ∷ l else l) (released2 ∙ released1 ∙ released),
      stats3 ∙ stats2 ∙ stats1 ∙ stats,
    )

-- A tensor that `to_dlpack` exports keeps the block of its buffer: when all owners that the block had before have let
-- go of it, no memory has been given back and no deleter called. The deleter of the exported tensor then drops the
-- source of the block.
pub exported_alive :
    (mem : Memory) (buf : Buffer)
    → let k = buf.raw in
      let (tensor, m) = export_tensor mem buf in
      let others_gone = drops (mem.raws k).strong_count k m in
      (others_gone.stats ≡ mem.stats)
      × (others_gone.released ≡ mem.released)
      × (((delete_exported others_gone tensor).stats, (delete_exported others_gone tensor).released)
          ≡ drop_source (mem.raws k).source (mem.stats, mem.released))
unfolding export_tensor delete_exported
exported_alive mem buf =
    let k = buf.raw in
    let n = (mem.raws k).strong_count in
    let (count1, source1, stats1, released1) = clones_lem 1 k mem in
    let (count2, source2, stats2, released2) =
      drops_early n k (clone_raw mem k) (omega (arith, count1)) in
    let last = drop_raw_last k (drops n k (clone_raw mem k)) (omega (arith, count1, count2)) in
    let stats = stats2 ∙ stats1 in
    let released = released2 ∙ released1 in
    (
      stats,
      released,
      last ∙ ap₂ drop_source (source2 ∙ source1) (ap₂ (λ a b. (a, b)) stats released),
    )
