-- ===== src/Promote/Common.antt =====
-- crates/mohu-dtype/src/promote.rs: `common_type` against the safe casts.
use mohu_fork_nirman.Base.{◌≡◌, refl, List, [], ◌∷◌, true}
use mohu_fork_nirman.Errors.{MohuResult, ok, panic, err, internal, empty_dtypes}
use mohu_fork_nirman.DType.{DType}
use mohu_fork_nirman.Promote.{safe, promote, can_cast, promote_from, common_type}
use mohu_fork_nirman.Promote.Order.{safe_order, can_cast_refl, promote_upper_bound}

abbrev pub AllSafe : List DType → DType → Type 0
AllSafe [] r = Unit {0}
AllSafe (d ∷ ds) r = (can_cast d r safe ≡ true) × AllSafe ds r

promote_from-safe :
    (acc : DType) (ds : List DType)
    → (can_cast acc (promote_from acc ds) safe ≡ true) × AllSafe ds (promote_from acc ds)
unfolding promote_from
promote_from-safe acc [] = (can_cast_refl acc, tt)
promote_from-safe acc (d ∷ ds) =
    let last = promote_from (promote acc d) ds in
    let rest = promote_from-safe (promote acc d) ds in
    (
      (safe_order acc (promote acc d) last (promote_upper_bound acc d).2 rest.0).0,
      ((safe_order d (promote acc d) last (promote_upper_bound acc d).3 rest.0).0, rest.1),
    )

abbrev pub Common : List DType → MohuResult DType → Type 0
Common ds (ok r) = AllSafe ds r
Common ds (err e) = (ds ≡ []) × (e ≡ internal empty_dtypes)
Common ds panic = ⊥

-- `common_type` fails on the empty slice only; otherwise every dtype of the slice casts safely to
-- its result.
pub common_type-Common : (ds : List DType) → Common ds (common_type ds)
unfolding common_type
common_type-Common [] = (refl, refl)
common_type-Common (d ∷ ds) = promote_from-safe d ds
