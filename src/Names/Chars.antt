-- ===== src/Names/Chars.antt =====
-- crates/mohu-dtype/src/dtype.rs: `parse` on the names and characters that dtypes give out.
use mohu_fork_nirman.Base.{
  ◌≡◌, refl, subst, ℕ, some, [], ◌∷◌, if◌then◌else◌, is_one_of, trim, to_ascii_lowercase,
}
use mathlib.Core.Option.{some-injective}
use mohu_fork_nirman.Errors.{MohuResult, ok, err, unknown_dtype, text}
use mohu_fork_nirman.DType.{DType, bool, bf16, as_signed, is_unsigned_integer, is_float}
use mohu_fork_nirman.Names.{numpy_str, numpy_char, parse, parse_char_code, first_match}

-- `parse` takes every dtype's NumPy name back to the dtype.
pub parse-numpy_str : (d : DType) → parse (numpy_str d) ≡ ok d
unfolding parse parse_char_code first_match is_one_of trim to_ascii_lowercase numpy_str
parse-numpy_str bool = refl
parse-numpy_str _ = refl

-- What `parse` makes of the one-character text of a dtype's NumPy code.
abbrev pub char_parse : DType → ℕ → MohuResult DType
char_parse d c =
    if is_unsigned_integer d
    then ok (as_signed d)
    else if is_float d
    then err (unknown_dtype (text (c ∷ [])))
    else ok d

-- A dtype's one-character NumPy code, where it has one, parses back to the dtype for the bool,
-- signed and complex dtypes; an unsigned dtype's code parses to the signed dtype of its width, and
-- a real float's code is rejected.
pub parse-numpy_char : (d : DType) (c : ℕ) → numpy_char d ≡ some c → parse (c ∷ []) ≡ char_parse d c
unfolding parse parse_char_code first_match is_one_of trim to_ascii_lowercase numpy_char
    is_unsigned_integer as_signed is_float
parse-numpy_char bf16 c h = cc
parse-numpy_char d c h = subst (λ x. parse (x ∷ []) ≡ char_parse d x) (some-injective _ _ h) refl
