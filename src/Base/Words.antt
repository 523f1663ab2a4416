-- ===== src/Base/Words.antt =====
-- Machine words of a 64-bit target, in a build without overflow checks. A `usize` is a number below
-- 2 ^ 64. An `isize` is its bit pattern, so that `as` between the two changes nothing and
-- addition and multiplication of either are those of numbers modulo 2 ^ 64.
use Prim.Native.Nat.{ℕ, ◌+◌, ◌-◌, ◌*◌, ◌%◌, ◌/◌, ◌^◌, ◌≤◌, ◌<◌, min}
use mathlib.Core.Path.{◌≡◌, ap, sym}
use mathlib.Core.Bool.{Bool}
use mathlib.Core.Option.{Option, none, some}
use native.Mathlib.Omega.{arith}
use native.Mathlib.Nat.{mod-eq_of_lt, mul_comm, div-add-mod', add-mul-mod_self_right}
use mohu_fork_nirman.Base.Tests.{ltb, leb, if◌then◌else◌}

abbrev pub usize_mod : ℕ
usize_mod = 2 ^ 64

abbrev pub usize_max : ℕ
usize_max = 2 ^ 64 - 1

abbrev pub isize_max : ℕ
isize_max = 2 ^ 63 - 1

-- Wrapping addition and multiplication.
unfoldable pub add_word : ℕ → ℕ → ℕ
add_word a b = (a + b) % usize_mod

unfoldable pub mul_word : ℕ → ℕ → ℕ
mul_word a b = a * b % usize_mod

-- Wrapping subtraction of a word.
unfoldable pub sub_word : ℕ → ℕ → ℕ
sub_word a b = (a + (usize_mod - b)) % usize_mod

-- The sign of an `isize`.
abbrev pub is_negative : ℕ → Bool
is_negative a = leb (2 ^ 63) a

-- `isize::unsigned_abs`
unfoldable pub unsigned_abs : ℕ → ℕ
unsigned_abs a = if is_negative a then usize_mod - a else a

-- `isize::saturating_mul`: the product of the two integers, held to the range of `isize`.
unfoldable pub saturating_mul : ℕ → ℕ → ℕ
unfolding unsigned_abs
saturating_mul a b =
    let size = unsigned_abs a * unsigned_abs b in
    if is_negative a
    then if is_negative b then min size isize_max else (usize_mod - min size (2 ^ 63)) % usize_mod
    else if is_negative b
    then (usize_mod - min size (2 ^ 63)) % usize_mod
    else min size isize_max

-- `usize::checked_mul`
unfoldable pub checked_mul : ℕ → ℕ → Option ℕ
checked_mul a b = if ltb (a * b) usize_mod then some (a * b) else none

pub saturating_mul-eq-mul :
    (a b : ℕ) → a ≤ isize_max → b ≤ isize_max → a * b ≤ isize_max → saturating_mul a b ≡ a * b
unfolding saturating_mul
saturating_mul-eq-mul a b ha hb h = ground arith

pub mul_word-eq-mul : (a b : ℕ) → a * b < usize_mod → mul_word a b ≡ a * b
unfolding mul_word
mul_word-eq-mul a b h = mod-eq_of_lt h

pub add_word-eq-add : (a b : ℕ) → a + b < usize_mod → add_word a b ≡ a + b
unfolding add_word
add_word-eq-add a b h = mod-eq_of_lt h

-- A factor may be reduced first.
pub mod-mul : (a b m : ℕ) → a % m * b % m ≡ a * b % m
mod-mul a b m =
    let whole : a * b ≡ a % m * b + a / m * b * m =
      omega (arith, ap (λ (t : ℕ). t * b) (div-add-mod' a m)) in
    rw whole (sym (add-mul-mod_self_right (a % m * b) (a / m * b) m))

pub mul-mod : (a b m : ℕ) → a * (b % m) % m ≡ a * b % m
mul-mod a b m = rw (mul_comm a (b % m), mul_comm a b) (mod-mul b a m)

pub mul_word-zero : (a : ℕ) → mul_word a 0 ≡ 0
unfolding mul_word
mul_word-zero a = omega arith

pub zero-mul_word : (a : ℕ) → mul_word 0 a ≡ 0
unfolding mul_word
zero-mul_word a = omega arith

pub add_word-zero : (a : ℕ) → a < usize_mod → add_word a 0 ≡ a
unfolding add_word
add_word-zero a h = omega arith

pub add_word-lt : (a b : ℕ) → add_word a b < usize_mod
unfolding add_word
add_word-lt a b = omega arith
