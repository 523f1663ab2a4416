-- ===== src/Errors/Context.antt =====
-- crates/mohu-error/src/context.rs: `ResultExt`, the helpers that add context to an error.
use mohu_fork_nirman.Base.{ℕ, suc, ◌≡◌, ◌⊎◌, inl, inr, refl, Option, none, some, ◌∷◌, Text}
use mohu_fork_nirman.Errors.{
  Message, operation, on_axis, none_in_operation, none_on_axis, MohuError, internal, MohuResult, ok,
  err, panic,
}
use mohu_fork_nirman.Errors.Chain.{root, depth, context_messages}
use mohu_fork_nirman.Errors.Kinds.{kind}

-- `Result::map_err`
abbrev map_err {ℓ} : {A : Type ℓ} → (MohuError → MohuError) → MohuResult A → MohuResult A
map_err f (ok a) = ok a
map_err f (err e) = err (f e)
map_err f panic = panic

unfoldable pub with_message {ℓ} : {A : Type ℓ} → MohuResult A → Message → MohuResult A
with_message r message = map_err (λ e. MohuError.context message e) r

-- The argument `f` of `with_context` is called on an error only.
unfoldable pub with_context {ℓ} : {A : Type ℓ} → MohuResult A → (Unit {0} → Message) → MohuResult A
with_context r f = map_err (λ e. MohuError.context (f tt) e) r

unfoldable pub op {ℓ} : {A : Type ℓ} → MohuResult A → Text → MohuResult A
op r name = map_err (λ e. MohuError.context (operation name) e) r

unfoldable pub axis {ℓ} : {A : Type ℓ} → MohuResult A → ℕ → MohuResult A
axis r ax = map_err (λ e. MohuError.context (on_axis ax) e) r

unfoldable pub ok_or_mohu {ℓ} : {A : Type ℓ} → MohuResult A → MohuError → MohuResult A
ok_or_mohu r cause = r

-- The same trait on `Option`.
abbrev ok_or {ℓ} : {A : Type ℓ} → Option A → MohuError → MohuResult A
ok_or none cause = err cause
ok_or (some a) cause = ok a

unfoldable pub option_context {ℓ} : {A : Type ℓ} → Option A → Message → MohuResult A
option_context o message = ok_or o (internal message)

unfoldable pub option_with_context {ℓ} :
    {A : Type ℓ} → Option A → (Unit {0} → Message) → MohuResult A
option_with_context o f = ok_or o (internal (f tt))

unfoldable pub option_op {ℓ} : {A : Type ℓ} → Option A → Text → MohuResult A
option_op o name = ok_or o (internal (none_in_operation name))

unfoldable pub option_axis {ℓ} : {A : Type ℓ} → Option A → ℕ → MohuResult A
option_axis o ax = ok_or o (internal (none_on_axis ax))

unfoldable pub option_ok_or_mohu {ℓ} : {A : Type ℓ} → Option A → MohuError → MohuResult A
option_ok_or_mohu o cause = ok_or o cause

-- `op` and then `axis` on the result of a call leave a value as it is; an error gets two contexts more,
-- the axis outermost, with the same root cause and the same kind.
pub axis-op {ℓ} :
    {A : Type ℓ} (r : MohuResult A) (name : Text) (ax : ℕ)
    → ((a : A) × (r ≡ ok a) × (axis (op r name) ax ≡ ok a))
      ⊎ ((e e' : MohuError) × (r ≡ err e)
          × (axis (op r name) ax ≡ err e')
          × (depth e' ≡ suc (suc (depth e)))
          × (root e' ≡ root e)
          × (kind e' ≡ kind e)
          × (context_messages e' ≡ on_axis ax ∷ operation name ∷ context_messages e))
      ⊎ ((r ≡ panic) × (axis (op r name) ax ≡ panic))
unfolding axis op root kind depth context_messages
axis-op (ok a) name ax = inl (a, refl, refl)
axis-op (err e) name ax = inr (inl (e, _, refl, refl, refl, refl, refl, refl))
axis-op panic name ax = inr (inr (refl, refl))
