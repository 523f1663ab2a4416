-- ===== src/Random.antt =====
-- crates/mohu-random/src/generator.rs: the generators `Pcg64` and `Philox4x64`. A `u128` is a number below 2 ^ 128.
pub mod Pcg
pub mod Philox
pub mod Sequence
mod Examples
use mohu_fork_nirman.Base.{
  ℕ, zero, suc, ◌+◌, ◌*◌, ◌/◌, ◌%◌, Option, none, some, List, [], ◌∷◌, ◌++◌, take, ◌==◌,
  if◌then◌else◌,
}

-- `u64::to_le_bytes`, in as many bytes as are asked for.
abbrev pub to_le_bytes : ℕ → ℕ → List ℕ
to_le_bytes zero v = []
to_le_bytes (suc n) v = v % 256 ∷ to_le_bytes n (v / 256)

-- The trait `Generator`. A draw that panics is `none`.
pub record Generator (G : Type 0) : Type 0 where
  pub seed : ℕ → Option G
  pub next_u64 : G → Option (ℕ × G)

-- A result with bytes before it.
abbrev pub prefixed : {G : Type 0} → List ℕ → Option (List ℕ × G) → Option (List ℕ × G)
prefixed bytes none = none
prefixed bytes (some (bytes', g)) = some (bytes ++ bytes', g)

-- Fill what `more` gives after what is filled.
abbrev pub append_fill :
    {G : Type 0} → (G → Option (List ℕ × G)) → Option (List ℕ × G) → Option (List ℕ × G)
append_fill more none = none
append_fill more (some (bytes, g)) = prefixed bytes (more g)

-- A chunk of eight bytes from a draw, and then the rest.
abbrev pub chunk_then :
    {G : Type 0} → (G → Option (List ℕ × G)) → Option (ℕ × G) → Option (List ℕ × G)
chunk_then rest none = none
chunk_then rest (some (v, g)) = prefixed (to_le_bytes 8 v) (rest g)

module _ {G : Type 0} (next : G → Option (ℕ × G)) where
  -- The chunks of eight bytes of `fill_bytes`.
  unfoldable pub fill_chunks : ℕ → G → Option (List ℕ × G)
  fill_chunks zero g = some ([], g)
  fill_chunks (suc n) g = chunk_then (fill_chunks n) (next g)

  -- The bytes after the last whole chunk.
  unfoldable pub fill_rest : ℕ → G → Option (List ℕ × G)
  fill_rest rem g =
      if rem == 0
      then some ([], g)
      else elim (next g) [ none ↦ none | some (v, g') ↦ some (take rem (to_le_bytes 8 v), g') ]

  -- `fill_bytes` on a slice of `len` bytes, which both generators have in the same words.
  unfoldable pub fill_bytes : ℕ → G → Option (List ℕ × G)
  fill_bytes len g = append_fill (fill_rest (len % 8)) (fill_chunks (len / 8) g)
