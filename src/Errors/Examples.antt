-- ===== src/Errors/Examples.antt =====
-- crates/mohu-error: errors with context, and errors collected.
use mohu_fork_nirman.Base.{ℕ, suc, ◌≡◌, ◌<◌, List, [], ◌∷◌, codes, arith}
use mohu_fork_nirman.Errors.{
  MohuError, MultiError, nothing, context, text, division_by_zero, MohuResult, ok, err,
}
use mohu_fork_nirman.Errors.Chain.{depth}
use mohu_fork_nirman.Errors.Multi.{
  collect_all, into_result, errors_of, Reported, into_result-collect_all,
}

abbrev wrapped : MohuError
wrapped = context (text (codes "reading")) division_by_zero

depth-wrapped : suc (depth wrapped) < 3
unfolding depth
depth-wrapped = omega arith

abbrev failed : MohuResult ℕ
failed = err wrapped

abbrev results : List (MohuResult ℕ)
results = ok 1 ∷ err division_by_zero ∷ err wrapped ∷ []

into_result-collect_all_example :
    (errors : MultiError) × (collect_all nothing results ≡ ok errors)
    × Reported (errors_of results) (into_result errors)
into_result-collect_all_example = into_result-collect_all results tt
