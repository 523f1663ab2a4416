-- ===== src/Errors/Multi.antt =====
-- crates/mohu-error/src/multi.rs: errors collected one after the other.
use mohu_fork_nirman.Base.{
  ℕ, suc, ◌≡◌, inl, inr, refl, ap, sym, subst, ◌∙◌, ◌≤◌, ◌⊎◌, none, dec_lt, lt→ltb, ge→ltb, ne→==,
  Bool, true, false, not, some, List, [], ◌∷◌, ◌++◌, arith, ◌==◌, if◌then◌else◌,
}
use mohu_fork_nirman.Errors.{
  MohuError, MultiError, nothing, error_then, multiple, MohuResult, ok, err, panic, ◌>>=◌,
}
use mohu_fork_nirman.Errors.Kinds.{ErrorKind, rank, later_max, kind, worst}

unfoldable pub push : MultiError → MohuError → MultiError
push nothing e = error_then e nothing
push (error_then x errors) e = error_then x (push errors e)

-- A panic of the call that gives the result ends the caller.
unfoldable pub collect {ℓ} : {A : Type ℓ} → MultiError → MohuResult A → MohuResult MultiError
unfolding push
collect errors (ok a) = ok errors
collect errors (err e) = ok (push errors e)
collect errors panic = panic

unfoldable pub len : MultiError → ℕ
len nothing = 0
len (error_then e errors) = suc (len errors)

unfoldable pub is_empty : MultiError → Bool
is_empty nothing = true
is_empty (error_then e errors) = false

unfoldable pub is_ok : MultiError → Bool
unfolding is_empty
is_ok errors = is_empty errors

unfoldable pub has_errors : MultiError → Bool
unfolding is_empty
has_errors errors = not (is_empty errors)

-- `into_iter().next().unwrap()`
abbrev first : MultiError → MohuResult (Unit {0})
first nothing = panic
first (error_then e errors) = err e

unfoldable pub into_result : MultiError → MohuResult (Unit {0})
unfolding is_empty len
into_result errors =
    if is_empty errors
    then ok tt
    else if len errors == 1
    then first errors
    else err (multiple errors)

unfoldable pub into_errors : MultiError → List MohuError
into_errors nothing = []
into_errors (error_then e errors) = e ∷ into_errors errors

unfoldable pub from_iter : List MohuError → MultiError
from_iter [] = nothing
from_iter (e ∷ es) = error_then e (from_iter es)

unfoldable pub extend_from : MultiError → MultiError → MultiError
extend_from nothing other = other
extend_from (error_then e errors) other = error_then e (extend_from errors other)

-- A loop that collects the results of some calls.
abbrev pub collect_all {ℓ} : {A : Type ℓ} → MultiError → List (MohuResult A) → MohuResult MultiError
collect_all errors [] = ok errors
collect_all errors (r ∷ rs) = collect errors r >>= λ errors'. collect_all errors' rs

-- The errors among some results, none of which is a panic.
abbrev pub errors_of {ℓ} : {A : Type ℓ} → List (MohuResult A) → List MohuError
errors_of [] = []
errors_of (ok a ∷ rs) = errors_of rs
errors_of (err e ∷ rs) = e ∷ errors_of rs
errors_of (panic ∷ rs) = errors_of rs

abbrev pub NoPanic {ℓ} : {A : Type ℓ} → List (MohuResult A) → Type 0
NoPanic [] = Unit {0}
NoPanic (ok a ∷ rs) = NoPanic rs
NoPanic (err e ∷ rs) = NoPanic rs
NoPanic (panic ∷ rs) = ⊥

into_errors-push :
    (errors : MultiError) (e : MohuError) (rest : List MohuError)
    → into_errors errors ++ e ∷ rest ≡ into_errors (push errors e) ++ rest
unfolding into_errors push
into_errors-push nothing e rest = refl
into_errors-push (error_then x errors) e rest = ap (λ l. x ∷ l) (into_errors-push errors e rest)

into_errors-end : (errors : MultiError) → into_errors errors ≡ into_errors errors ++ []
unfolding into_errors
into_errors-end nothing = refl
into_errors-end (error_then e errors) = ap (λ l. e ∷ l) (into_errors-end errors)

collect_all_lem {ℓ} :
    {A : Type ℓ} (rs : List (MohuResult A)) (errors : MultiError)
    → NoPanic rs
    → (errors' : MultiError) × (collect_all errors rs ≡ ok errors')
      × (into_errors errors' ≡ into_errors errors ++ errors_of rs)
unfolding collect
collect_all_lem [] errors h = (errors, refl, into_errors-end errors)
collect_all_lem (ok a ∷ rs) errors h = collect_all_lem rs errors h
collect_all_lem (err e ∷ rs) errors h =
    let (errors', walk, same) = collect_all_lem rs (push errors e) h in
    (errors', walk, same ∙ sym (into_errors-push errors e (errors_of rs)))
collect_all_lem (panic ∷ rs) errors h = absurd h

-- `k` is the kind of one of the errors and ranks at least as high as the kind of each.
abbrev pub AtMost : ErrorKind → List MohuError → Type 0
AtMost k [] = Unit {0}
AtMost k (e ∷ es) = (rank (kind e) ≤ rank k) × AtMost k es

abbrev pub IsKindOf : ErrorKind → List MohuError → Type 0
IsKindOf k [] = ⊥
IsKindOf k (e ∷ es) = (kind e ≡ k) ⊎ IsKindOf k es

abbrev pub Worst : ErrorKind → List MohuError → Type 0
Worst k es = AtMost k es × IsKindOf k es

-- What the caller learns: nothing for no errors, the error itself for one, all in order for more; and an
-- error of two or more has the worst of their kinds.
abbrev pub Reported : List MohuError → MohuResult (Unit {0}) → Type 0
Reported [] r = r ≡ ok tt
Reported (e ∷ []) r = r ≡ err e
Reported (e ∷ e' ∷ es) r =
    (errors : MultiError) × (r ≡ err (multiple errors))
    × (into_errors errors ≡ e ∷ e' ∷ es)
    × Worst (kind (multiple errors)) (e ∷ e' ∷ es)

AtMost-trans : (k l : ErrorKind) (es : List MohuError) → rank k ≤ rank l → AtMost k es → AtMost l es
AtMost-trans k l [] h below = tt
AtMost-trans k l (e ∷ es) h (first, rest) = (omega (arith, h, first), AtMost-trans k l es h rest)

-- The worst of a kind that is the worst of some errors and of one kind more.
Worst-later_max :
    (e : MohuError) (k : ErrorKind) (es : List MohuError)
    → Worst k es
    → Worst (later_max (kind e) k) (e ∷ es)
unfolding later_max
Worst-later_max e k es (below, among) = elim (dec_lt (rank k) (rank (kind e))) [
  | yes h ↦
      let first : later_max (kind e) k ≡ kind e = rw (lt→ltb (rank k) (rank (kind e)) h) refl in
      subst (λ l. Worst l (e ∷ es)) (sym first)
        ((omega arith, AtMost-trans k (kind e) es (omega (arith, h)) below), inl refl)
  | no n ↦
      let later : later_max (kind e) k ≡ k = rw (ge→ltb (rank k) (rank (kind e)) n) refl in
      subst (λ l. Worst l (e ∷ es)) (sym later) ((omega (arith, n), below), inr among)
]

worst-Worst :
    (e : MohuError) (errors : MultiError)
    → (k : ErrorKind) × (worst (error_then e errors) ≡ some k)
      × Worst k (into_errors (error_then e errors))
unfolding kind into_errors
worst-Worst e nothing = (kind e, refl, ((omega arith, tt), inl refl))
worst-Worst e (error_then e' errors) =
    let (k, found, least) = worst-Worst e' errors in
    (
      later_max (kind e) k,
      ap (λ w. elim w [ none ↦ some (kind e) | some k ↦ some (later_max (kind e) k) ]) found,
      Worst-later_max e k (into_errors (error_then e' errors)) least,
    )

kind-worst :
    (errors : MultiError) (k : ErrorKind) → worst errors ≡ some k → kind (multiple errors) ≡ k
unfolding kind
kind-worst errors k h = rw h refl

kind-Worst :
    (e : MohuError) (errors : MultiError)
    → Worst (kind (multiple (error_then e errors))) (into_errors (error_then e errors))
kind-Worst e errors =
    let (k, found, least) = worst-Worst e errors in
    subst (λ l. Worst l (into_errors (error_then e errors)))
      (sym (kind-worst (error_then e errors) k found)) least

into_result-Reported : (errors : MultiError) → Reported (into_errors errors) (into_result errors)
unfolding into_result into_errors len
into_result-Reported nothing = refl
into_result-Reported (error_then e nothing) = refl
into_result-Reported (error_then e (error_then e' errors)) = (
  error_then e (error_then e' errors),
  rw (ne→== (suc (suc (len errors))) 1 (omega arith)) refl,
  refl,
  kind-Worst e (error_then e' errors),
)

-- Collecting the results of some calls, none of which panics, and then `into_result` reports the errors
-- among them: it is a success where there is none, the error itself where there is one, and otherwise
-- `Multiple` of all of them in their order, whose kind is that of one of them and ranks at least as high as
-- the kind of each.
pub into_result-collect_all {ℓ} :
    {A : Type ℓ} (rs : List (MohuResult A))
    → NoPanic rs
    → (errors : MultiError) × (collect_all nothing rs ≡ ok errors)
      × Reported (errors_of rs) (into_result errors)
unfolding into_errors
into_result-collect_all rs h =
    let (errors, walk, same) = collect_all_lem rs nothing h in
    (
      errors,
      walk,
      subst (λ es. Reported es (into_result errors)) same (into_result-Reported errors),
    )
