-- ===== src/Errors/Chain.antt =====
-- crates/mohu-error/src/chain.rs: the contexts around an error and the iterator over them.
use mohu_fork_nirman.Base.{
  ℕ, zero, suc, ◌<◌, ◌≡◌, refl, ap, Option, none, some, List, [], ◌∷◌, arith, length,
}
use mohu_fork_nirman.Errors.{Message, MohuError, context}

pub record ErrorChain : Type 0 where
  pub current : Option MohuError

unfoldable pub new : MohuError → ErrorChain
new e = record { current = some e }

unfoldable pub source_of : MohuError → Option MohuError
source_of (context message source) = some source
source_of _ = none

-- `next` of the iterator: the item and the iterator after it.
unfoldable pub next : ErrorChain → Option MohuError × ErrorChain
unfolding source_of
next chain = elim chain.current [
  | none ↦ (none, chain)
  | some e ↦ (some e, record { current = source_of e })
]

unfoldable pub root : MohuError → MohuError
root (context message source) = root source
root e = e

unfoldable pub context_messages : MohuError → List Message
context_messages (context message source) = message ∷ context_messages source
context_messages _ = []

unfoldable pub depth : MohuError → ℕ
depth (context message source) = suc (depth source)
depth _ = 0

-- A `for` loop over the iterator, for at most `fuel` rounds: the items, and the iterator at its end.
unfoldable pub items : ℕ → ErrorChain → List MohuError × ErrorChain
unfolding next
items zero chain = ([], chain)
items (suc fuel) chain =
    let (item, chain') = next chain in
    let (rest, last) = items fuel chain' in
    elim item [ none ↦ ([], chain') | some e ↦ (e ∷ rest, last) ]

-- The errors from the outermost context to the root, by their definition.
abbrev pub layers : MohuError → List MohuError
layers (context message source) = context message source ∷ layers source
layers e = e ∷ []

items-none : (fuel : ℕ) → items fuel (record { current = none }) ≡ ([], record { current = none })
unfolding items
items-none zero = refl
items-none (suc fuel) = refl

items-layers :
    (e : MohuError) (fuel : ℕ)
    → suc (depth e) < fuel
    → items fuel (new e) ≡ (layers e, record { current = none })
unfolding items new depth
items-layers (context message source) zero enough = absurd (omega arith)
items-layers (context message source) (suc fuel) enough =
    ap (λ (p : List MohuError × ErrorChain). (context message source ∷ p.0, p.1))
      (items-layers source fuel (omega arith))
items-layers e zero enough = absurd (omega arith)
items-layers e (suc fuel) enough =
    ap (λ (p : List MohuError × ErrorChain). (e ∷ p.0, p.1)) (items-none fuel)

abbrev pub last_layer : MohuError → List MohuError → MohuError
last_layer e [] = e
last_layer e (x ∷ xs) = last_layer x xs

layers-counts :
    (e : MohuError)
    → (length (layers e) ≡ suc (depth e))
      × (length (context_messages e) ≡ depth e)
      × ((outer : MohuError) → last_layer outer (layers e) ≡ root e)
unfolding depth context_messages root
layers-counts (context message source) =
    let (long, messages, last) = layers-counts source in
    (ap suc long, ap suc messages, (λ outer. last (context message source)))
layers-counts e = (refl, refl, (λ outer. refl))

-- The iterator over an error ends: in any number of rounds above that of its layers
-- it gives the layers, which are one more than the contexts and the context messages, the last of
-- them the root cause, and is then at its end.
pub items-new :
    (e : MohuError) (fuel : ℕ)
    → suc (depth e) < fuel
    → (items fuel (new e) ≡ (layers e, record { current = none }))
      × (length (layers e) ≡ suc (depth e))
      × (length (context_messages e) ≡ depth e)
      × (last_layer e (layers e) ≡ root e)
items-new e fuel enough =
    let (long, messages, last) = layers-counts e in
    (items-layers e fuel enough, long, messages, last e)
