-- ===== src/Random/Philox.antt =====
-- crates/mohu-random/src/generator.rs: `Philox4x64`.
use Prim.Native.Nat.{bit_xor}
use mohu_fork_nirman.Base.{
  ℕ, zero, suc, ◌+◌, ◌*◌, ◌/◌, ◌%◌, ◌^◌, ◌≤◌, ◌<◌, ◌≡◌, refl, Option, none, some, List, [], ◌∷◌,
  leb, ◌==◌, get_elem?, if◌then◌else◌, arith, Bool-cases, inl, inr,
}
use mohu_fork_nirman.Base.Words.{usize_mod, add_word, mul_word}
use mohu_fork_nirman.Random.{Generator}
use mohu_fork_nirman.Random.Pcg.{u128_mod}

pub record Block : Type 0 where
  pub c0 : ℕ
  pub c1 : ℕ
  pub c2 : ℕ
  pub c3 : ℕ

pub record Philox4x64 : Type 0 where
  pub counter : Block
  pub key : ℕ × ℕ
  pub buffer : Block
  pub buffer_pos : ℕ

-- `mul128`
unfoldable pub mul128 : ℕ → ℕ → ℕ × ℕ
mul128 a b = let product = a * b % u128_mod in (product / 2 ^ 64, product % usize_mod)

unfoldable pub round : Block → ℕ × ℕ → Block
round ctr key =
    let (hi0, lo0) = mul128 0xD2E7_470E_E14C_6C93 ctr.c0 in
    let (hi1, lo1) = mul128 0xCA5A_8263_9512_1157 ctr.c2 in
    record {
      c0 = bit_xor (bit_xor hi1 ctr.c1) key.0;
      c1 = lo1;
      c2 = bit_xor (bit_xor hi0 ctr.c3) key.1;
      c3 = lo0;
    }

unfoldable pub rounds : ℕ → Block → ℕ × ℕ → Block
rounds zero x k = x
rounds (suc n) x k =
    rounds n (round x k) (add_word k.0 0x9E37_79B9_7F4A_7C15, add_word k.1 0xBB67_AE85_84CC_A73B)

unfoldable pub advance_counter : Block → Block
advance_counter c =
    let low = add_word c.c0 1 in
    record c { c0 = low; c1 = if low == 0 then add_word c.c1 1 else c.c1 }

unfoldable pub generate : Philox4x64 → Philox4x64
generate g = record g {
  buffer = rounds 10 g.counter g.key;
  buffer_pos = 0;
  counter = advance_counter g.counter;
}

unfoldable pub seed : ℕ → Philox4x64
seed n =
    let none_yet : Block = record { c0 = 0; c1 = 0; c2 = 0; c3 = 0 } in
    generate (record {
      counter = none_yet;
      key = (n, mul_word n 0x9E37_79B9_7F4A_7C15);
      buffer = none_yet;
      buffer_pos = 4;
    })

abbrev pub words : Block → List ℕ
words b = b.c0 ∷ b.c1 ∷ b.c2 ∷ b.c3 ∷ []

-- The number at the position. An index past the buffer is a panic.
unfoldable pub draw : Philox4x64 → Option (ℕ × Philox4x64)
draw g = elim (get_elem? (words g.buffer) g.buffer_pos) [
  | none ↦ none
  | some v ↦ some (v, record g { buffer_pos = g.buffer_pos + 1 })
]

unfoldable pub next_u64 : Philox4x64 → Option (ℕ × Philox4x64)
next_u64 g = draw (if leb 4 g.buffer_pos then generate g else g)

abbrev pub philox4x64 : Generator Philox4x64
philox4x64 = record { seed = λ n. some (seed n); next_u64 = next_u64 }

words-some : (b : Block) (i : ℕ) → i < 4 → (v : ℕ) × (get_elem? (words b) i ≡ some v)
words-some b zero h = (b.c0, refl)
words-some b (suc zero) h = (b.c1, refl)
words-some b (suc (suc zero)) h = (b.c2, refl)
words-some b (suc (suc (suc zero))) h = (b.c3, refl)
words-some b (suc (suc (suc (suc i)))) h = absurd (omega (arith, h))

draw-some :
    (g : Philox4x64)
    → g.buffer_pos < 4
    → (v : ℕ) × (g' : Philox4x64) × (draw g ≡ some (v, g')) × (g'.buffer_pos ≡ g.buffer_pos + 1)
unfolding draw
draw-some g h =
    let (v, found) = words-some g.buffer g.buffer_pos h in
    (v, record g { buffer_pos = g.buffer_pos + 1 }, rw found refl, refl)

refilled_below : (g : Philox4x64) → (if leb 4 g.buffer_pos then generate g else g).buffer_pos < 4
unfolding generate
refilled_below g = elim (Bool-cases (leb 4 g.buffer_pos)) [
  | inl e ↦ rw e (omega arith)
  | inr e ↦ rw e (ground (arith, e))
]

-- A draw of `Philox4x64` never runs past its buffer: from any state it gives a number, and after it the position
-- is between 1 and 4, so that the fifth draw in a row makes new numbers.
pub next_u64-some :
    (g : Philox4x64)
    → (v : ℕ) × (g' : Philox4x64) × (next_u64 g ≡ some (v, g'))
      × (0 < g'.buffer_pos)
      × (g'.buffer_pos ≤ 4)
unfolding next_u64
next_u64-some g =
    let below = refilled_below g in
    let (v, g', e, p) = draw-some (if leb 4 g.buffer_pos then generate g else g) below in
    (v, g', e, omega (arith, p), omega (arith, p, below))
