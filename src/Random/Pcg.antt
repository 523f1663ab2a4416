-- ===== src/Random/Pcg.antt =====
-- crates/mohu-random/src/generator.rs: `Pcg64`.
use Prim.Native.Nat.{bit_or, bit_xor}
use native.Mathlib.Nat.{mul_assoc}
use mohu_fork_nirman.Base.{ℕ, ◌+◌, ◌-◌, ◌*◌, ◌/◌, ◌%◌, ◌^◌, ◌<◌, ◌≡◌, ap, ◌∙◌, some, arith}
use mohu_fork_nirman.Base.Words.{usize_mod, mul_word, mod-mul}
use mohu_fork_nirman.Random.{Generator}

abbrev pub u128_mod : ℕ
u128_mod = 2 ^ 128

abbrev pub multiplier : ℕ
multiplier = 0x2360_ED05_1FC6_5DA4_4385_DF64_9FCC_F645

pub record Pcg64 : Type 0 where
  pub state : ℕ
  pub inc : ℕ

unfoldable pub step : Pcg64 → Pcg64
step g = record g { state = (g.state * multiplier % u128_mod + g.inc) % u128_mod }

unfoldable pub output : ℕ → ℕ
output state =
    let hi = state / 2 ^ 64 in
    let lo = bit_or state 1 % usize_mod in
    let hi' = mul_word (bit_xor hi (hi / 2 ^ 32)) 0xDA94_2042_E4DD_58B5 in
    mul_word (bit_xor hi' (hi' / 2 ^ 48)) lo

unfoldable pub seed : ℕ → Pcg64
seed n =
    let g = step (record { state = 0; inc = bit_or (2 * n % u128_mod) 1 }) in
    step (record g { state = (g.state + n) % u128_mod })

unfoldable pub next_u64 : Pcg64 → ℕ × Pcg64
next_u64 g = (output g.state, step g)

abbrev pub pcg64 : Generator Pcg64
pcg64 = record { seed = λ n. some (seed n); next_u64 = λ g. some (next_u64 g) }

-- The inverse of the multiplier modulo 2 ^ 128.
abbrev pub inverse : ℕ
inverse = 10455382779074951524300553632856583309

abbrev pub unstep : Pcg64 → Pcg64
unstep g = record g { state = (g.state + (u128_mod - g.inc)) % u128_mod * inverse % u128_mod }

undo :
    (s inc : ℕ)
    → s < u128_mod
    → inc < u128_mod
    → (((s * multiplier % u128_mod + inc) % u128_mod) + (u128_mod - inc))
        % u128_mod
        * inverse
        % u128_mod
      ≡ s
undo s inc h k =
    let back : ((s * multiplier % u128_mod + inc) % u128_mod + (u128_mod - inc)) % u128_mod
        ≡ s * multiplier % u128_mod =
      omega arith in
    ap (λ r. r * inverse % u128_mod) back
    ∙ mod-mul (s * multiplier) inverse u128_mod
    ∙ ap (λ r. r % u128_mod) (mul_assoc s multiplier inverse)
    ∙ omega arith

redo :
    (s inc : ℕ)
    → s < u128_mod
    → inc < u128_mod
    → ((s + (u128_mod - inc)) % u128_mod * inverse % u128_mod * multiplier % u128_mod + inc)
        % u128_mod
      ≡ s
redo s inc h k =
    let before : ℕ = (s + (u128_mod - inc)) % u128_mod in
    let back : before * inverse % u128_mod * multiplier % u128_mod ≡ before =
      mod-mul (before * inverse) multiplier u128_mod
      ∙ ap (λ r. r % u128_mod) (mul_assoc before inverse multiplier)
      ∙ omega arith in
    ap (λ r. (r + inc) % u128_mod) back ∙ omega arith

-- Where the state and the increment are below 2 ^ 128, `unstep` undoes a step of `Pcg64`, and a step undoes
-- `unstep`: a step permutes the states.
pub unstep-step :
    (g : Pcg64)
    → g.state < u128_mod
    → g.inc < u128_mod
    → (unstep (step g) ≡ g) × (step (unstep g) ≡ g)
unfolding step
unstep-step g h k = (
  ap (λ (s : ℕ). record g { state = s }) (undo g.state g.inc h k),
  ap (λ (s : ℕ). record g { state = s }) (redo g.state g.inc h k),
)
