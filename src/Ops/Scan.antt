-- ===== src/Ops/Scan.antt =====
-- crates/mohu-buffer/src/ops.rs: `parallel_scan`, the inclusive prefix scan in chunks. The number of threads is a
-- parameter.
pub mod Chunked
use mohu_fork_nirman.Base.{
  ℕ, zero, suc, ◌-◌, ◌/◌, max, Option, List, [], ◌∷◌, ◌++◌, map, take, drop, length,
}
use mohu_fork_nirman.Errors.{MohuResult, ok, ◌>>=◌}
use mohu_fork_nirman.DType.Scalar.{Scalar}
use mohu_fork_nirman.Alloc.{next_power_of_two}
use mohu_fork_nirman.Layout.{size}
use mohu_fork_nirman.Buffer.{Memory, Buffer}
use mohu_fork_nirman.Ops.{load, run}
use mohu_fork_nirman.Ops.Checks.{check_typed}

module _ {A : Type 0} where
  -- `par_chunks`, in at most `fuel` chunks.
  abbrev pub chunks : ℕ → ℕ → List A → List (List A)
  chunks zero chunk_size xs = []
  chunks (suc fuel) chunk_size [] = []
  chunks (suc fuel) chunk_size (x ∷ xs) =
      take chunk_size (x ∷ xs) ∷ chunks fuel chunk_size (drop chunk_size (x ∷ xs))

  -- The loop over a chunk: the values that it writes, and the accumulator at its end.
  abbrev pub local_scan : (A → A → A) → A → List A → List A
  local_scan f acc [] = []
  local_scan f acc (x ∷ xs) = f acc x ∷ local_scan f (f acc x) xs

  abbrev pub total : (A → A → A) → A → List A → A
  total f acc [] = acc
  total f acc (x ∷ xs) = total f (f acc x) xs

  -- Step 2 from the total before a chunk on.
  abbrev pub carry_totals : (A → A → A) → A → List A → List A
  carry_totals f before [] = []
  carry_totals f before (t ∷ ts) = f before t ∷ carry_totals f (f before t) ts

  abbrev pub prefix_totals : (A → A → A) → List A → List A
  prefix_totals f [] = []
  prefix_totals f (t ∷ ts) = t ∷ carry_totals f t ts

  -- Step 3: each chunk after the first takes the total before it.
  abbrev pub add_carries : (A → A → A) → List A → List (List A) → List A
  add_carries f totals [] = []
  add_carries f [] (c ∷ cs) = c ++ add_carries f [] cs
  add_carries f (t ∷ ts) (c ∷ cs) = map (f t) c ++ add_carries f ts cs

  abbrev pub with_carries : (A → A → A) → List A → List (List A) → List A
  with_carries f totals [] = []
  with_carries f totals (c ∷ cs) = c ++ add_carries f totals cs

  -- The three steps. A chunk is not empty, so that there are at most as many as values.
  unfoldable pub chunked_scan : (A → A → A) → A → ℕ → List A → List A
  chunked_scan f identity chunk_size xs =
      let parts = chunks (length xs) chunk_size xs in
      with_carries f (prefix_totals f (map (total f identity) parts))
        (map (local_scan f identity) parts)

unfoldable pub chunk_size_of : ℕ → ℕ → ℕ
chunk_size_of threads len = next_power_of_two (max (len / max threads 1) 256)

unfoldable pub parallel_scan :
    {A : Type 0}
    → Option ℕ
    → (ℕ → ℕ)
    → ℕ
    → Scalar A
    → A
    → (A → A → A)
    → Buffer
    → Buffer × Memory
    → MohuResult (Unit {0}) × (Buffer × Memory)
unfolding run check_typed load chunked_scan chunk_size_of
parallel_scan system fresh threads s identity f src dst =
    let len = size src.layout in
    run system fresh (check_typed s.dtype src dst.0)
      (λ st. load s st.1 src len >>= λ xs.
        ok (map s.to_bytes (chunked_scan f identity (chunk_size_of threads len) xs)))
      dst
