-- ===== src/Random/Examples.antt =====
-- Runs of the generators of crates/mohu-random/src/generator.rs.
use mohu_fork_nirman.Base.{ℕ, ◌≡◌, some, arith}
use mohu_fork_nirman.Random.{fill_bytes}
use mohu_fork_nirman.Random.Pcg.{Pcg64, step, unstep, unstep-step}
use mohu_fork_nirman.Random.Philox
use mohu_fork_nirman.Random.Philox.{Philox4x64, next_u64-some}
use mohu_fork_nirman.Random.Sequence.{Filled, fill_bytes-Filled}

abbrev small : Pcg64
small = record { state = 5; inc = 3 }

unstep-step_example : (unstep (step small) ≡ small) × (step (unstep small) ≡ small)
unstep-step_example = unstep-step small (omega arith) (omega arith)

philox_draws : (g : Philox4x64) → (v : ℕ) × (g' : Philox4x64) × (Philox.next_u64 g ≡ some (v, g'))
philox_draws g = let (v, g', e, _, _) = next_u64-some g in (v, g', e)

fill_bytes-Filled_example : Filled 19 (fill_bytes Philox.next_u64 19 (Philox.seed 7))
fill_bytes-Filled_example = fill_bytes-Filled Philox.next_u64 philox_draws 19 (Philox.seed 7)
