-- ===== src/Ops/Examples/Indexed.antt =====
-- crates/mohu-buffer/src/ops.rs: runs of the theorems on `gather` and `scatter`.
use mohu_fork_nirman.Base.{ℕ, ◌<◌, ◌≡◌, ◌≢◌, refl, none, [], ◌∷◌, arith}
use mohu_fork_nirman.Errors.{ok}
use mohu_fork_nirman.DType.{bool}
use mohu_fork_nirman.Layout.{size}
use mohu_fork_nirman.Buffer.{Memory}
use mohu_fork_nirman.Buffer.Create.{to_vec}
use mohu_fork_nirman.Buffer.Copy.{set_unique}
use mohu_fork_nirman.Ops.Contents.{All}
use mohu_fork_nirman.Ops.Indexed.{position, gather, scatter}
use mohu_fork_nirman.Ops.Indexed.Places.{put_all, Distinct}
use mohu_fork_nirman.Ops.Indexed.Calls.{places, scatter-to_vec, gather-scatter}
use mohu_fork_nirman.Ops.Examples.{
  memory, vector, indices, index_bytes, whole, three, sole_1, sole_2, held_0, held_1, given,
  same_size,
}

in_range : (n : ℕ) → n ≡ 3 → All (λ j. j < n) (places n index_bytes)
unfolding position
in_range n e = (omega (arith, e), (omega (arith, e), (omega (arith, e), tt)))

distinct : (n : ℕ) → Distinct (places n index_bytes)
unfolding position
distinct n = (
  ((λ e. omega (arith, e)), ((λ e. omega (arith, e)), tt)),
  (((λ e. omega (arith, e)), tt), (tt, tt)),
)

gather-scatter_example :
    (mem' mem'' : Memory) × (scatter none (λ i. 0) indices (vector 0) (vector 1, memory)
      ≡ (ok tt, (set_unique (vector 1), mem')))
    × (gather none (λ i. 0) (set_unique (vector 1)) indices (vector 2, mem')
        ≡ (ok tt, (set_unique (vector 2), mem'')))
    × (to_vec mem'' bool (set_unique (vector 2)) ≡ ok ((0 ∷ []) ∷ (1 ∷ []) ∷ (0 ∷ []) ∷ []))
gather-scatter_example =
    gather-scatter none (λ i. 0) indices (vector 0) (vector 1) (vector 2) memory index_bytes
      ((0 ∷ []) ∷ (1 ∷ []) ∷ (0 ∷ []) ∷ []) ((1 ∷ []) ∷ (0 ∷ []) ∷ (1 ∷ []) ∷ []) given sole_1
      sole_2 refl (λ e. omega (arith, e)) (λ e. omega (arith, e)) (whole 0) (same_size 0)
      (same_size 2) held_0 held_1 (in_range (size (vector 1).layout) (three 1))
      (distinct (size (vector 1).layout))

scatter-to_vec_example :
    (mem' : Memory) × (scatter none (λ i. 0) indices (vector 0) (vector 1, memory)
      ≡ (ok tt, (set_unique (vector 1), mem')))
    × (to_vec mem' bool (set_unique (vector 1))
        ≡ ok (
            put_all
              (places (size (vector 1).layout) index_bytes)
              ((0 ∷ []) ∷ (1 ∷ []) ∷ (0 ∷ []) ∷ [])
              ((1 ∷ []) ∷ (0 ∷ []) ∷ (1 ∷ []) ∷ [])))
    × ((i : ℕ) → i ≢ 1 → mem'.raws i ≡ memory.raws i)
scatter-to_vec_example =
    scatter-to_vec none (λ i. 0) indices (vector 0) (vector 1) memory index_bytes
      ((0 ∷ []) ∷ (1 ∷ []) ∷ (0 ∷ []) ∷ []) ((1 ∷ []) ∷ (0 ∷ []) ∷ (1 ∷ []) ∷ []) given sole_1
      (whole 0) (same_size 0) held_0 held_1 (in_range (size (vector 1).layout) (three 1))
