-- ===== src/Strides/Reach.antt =====
-- A byte offset as one sum modulo 2 ^ 64, in which a single axis can be taken apart.
use native.Mathlib.Nat.{mul_assoc, mul_comm, add-mul}
use mohu_fork_nirman.Base.{
  ℕ, zero, suc, ◌+◌, ◌*◌, ◌%◌, ◌<◌, ◌≡◌, refl, ap, sym, ◌∙◌, List, [], ◌∷◌, length, get_or, set,
  arith,
}
use mohu_fork_nirman.Base.Words.{usize_mod, add_word, mul_word, add_word-lt, mul-mod}
use mohu_fork_nirman.Strides.{byte_offset}

-- What an index adds to the base.
abbrev pub reach : List ℕ → List ℕ → ℕ
reach (i ∷ is) (s ∷ ss) = i * s + reach is ss
reach [] ss = 0
reach is [] = 0

add_mod :
    (off x r : ℕ)
    → ((off + x % usize_mod) % usize_mod + r) % usize_mod ≡ (off + (x + r)) % usize_mod
add_mod off x r = omega arith

pub byte_offset-reach :
    (is ss : List ℕ) (off : ℕ)
    → off < usize_mod
    → byte_offset is ss off ≡ (off + reach is ss) % usize_mod
unfolding byte_offset add_word mul_word
byte_offset-reach [] ss off h = omega arith
byte_offset-reach (i ∷ is) [] off h = omega arith
byte_offset-reach (i ∷ is) (s ∷ ss) off h =
    byte_offset-reach is ss (add_word off (mul_word i s)) (add_word-lt off (mul_word i s))
    ∙ add_mod off (i * s) (reach is ss)

-- What all axes but one add.
abbrev pub others : ℕ → List ℕ → List ℕ → ℕ
others zero (i ∷ is) (s ∷ ss) = reach is ss
others (suc axis) (i ∷ is) (s ∷ ss) = i * s + others axis is ss
others axis [] ss = 0
others axis is [] = 0

pub reach-set :
    (axis i s : ℕ) (is ss : List ℕ)
    → axis < length is
    → axis < length ss
    → reach (set is axis i) (set ss axis s) ≡ others axis is ss + i * s
reach-set axis i s [] ss h k = absurd (omega arith)
reach-set axis i s (i' ∷ is) [] h k = absurd (omega arith)
reach-set zero i s (i' ∷ is) (s' ∷ ss) h k = omega arith
reach-set (suc axis) i s (i' ∷ is) (s' ∷ ss) h k =
    omega (arith, reach-set axis i s is ss (omega arith) (omega arith))

pub set-get_or : (axis : ℕ) (xs : List ℕ) → set xs axis (get_or xs axis 0) ≡ xs
set-get_or axis [] = refl
set-get_or zero (x ∷ xs) = refl
set-get_or (suc axis) (x ∷ xs) = ap (◌∷◌ x) (set-get_or axis xs)

pick_word :
    (i stride step : ℕ)
    → (i * (stride * step % usize_mod)) % usize_mod ≡ i * step * stride % usize_mod
pick_word i stride step =
    mul-mod i (stride * step) usize_mod
    ∙ ap (λ t. t % usize_mod)
        (ap (λ t. i * t) (mul_comm stride step) ∙ sym (mul_assoc i step stride))

collect :
    (off rest x y w z : ℕ)
    → w % usize_mod ≡ y % usize_mod
    → z ≡ x + y
    → ((off + x % usize_mod) % usize_mod + (rest + w)) % usize_mod ≡ (off + (rest + z)) % usize_mod
collect off rest x y w z h k = omega arith

-- An axis whose stride is multiplied by `step` and whose base is moved by `start` reads, at `i`, what
-- the axis read at `start + i * step`.
pub byte_offset-stepped :
    (axis start step off : ℕ) (is ss : List ℕ)
    → off < usize_mod
    → axis < length is
    → axis < length ss
    → byte_offset is
        (set ss axis (mul_word (get_or ss axis 0) step))
        (add_word off (mul_word start (get_or ss axis 0)))
      ≡ byte_offset (set is axis (start + get_or is axis 0 * step)) ss off
unfolding mul_word add_word
byte_offset-stepped axis start step off is ss w h k =
    let i = get_or is axis 0 in
    let stride = get_or ss axis 0 in
    let stepped =
      ap (λ js. reach js (set ss axis (mul_word stride step))) (sym (set-get_or axis is))
      ∙ reach-set axis i (mul_word stride step) is ss h k in
    let picked =
      ap (reach (set is axis (start + i * step))) (sym (set-get_or axis ss))
      ∙ reach-set axis (start + i * step) stride is ss h k in
    byte_offset-reach is _ _ (add_word-lt off (mul_word start stride))
    ∙ ap (λ r. (add_word off (mul_word start stride) + r) % usize_mod) stepped
    ∙ collect off (others axis is ss) (start * stride) (i * step * stride)
        (i * mul_word stride step) ((start + i * step) * stride) (pick_word i stride step)
        (add-mul start (i * step) stride)
    ∙ ap (λ r. (off + r) % usize_mod) (sym picked)
    ∙ sym (byte_offset-reach (set is axis (start + i * step)) ss off w)
