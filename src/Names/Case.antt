-- ===== src/Names/Case.antt =====
-- crates/mohu-dtype/src/dtype.rs: `parse` on a text and on its lower-case form.
use mohu_fork_nirman.Base.{
  ℕ, ◌≡◌, ◌≢◌, refl, sym, ap, ap₂, ◌∙◌, [], ◌∷◌, map, reverse, none, Text, is_one_of, trim,
  trim_start_matches, is_whitespace, to_ascii_lower, to_ascii_lowercase, arith,
}
use mathlib.Core.List.{reverse-cons, map-append}
use mohu_fork_nirman.Errors.{ok}
use mohu_fork_nirman.DType.{DType}
use mohu_fork_nirman.Names.{parse, parse_char_code, first_match, aliases, char_codes}

to_ascii_lower_idem : (c : ℕ) → to_ascii_lower (to_ascii_lower c) ≡ to_ascii_lower c
unfolding to_ascii_lower
to_ascii_lower_idem c = ground arith

to_ascii_lowercase_idem :
    (s : Text) → to_ascii_lowercase (to_ascii_lowercase s) ≡ to_ascii_lowercase s
unfolding to_ascii_lowercase
to_ascii_lowercase_idem [] = refl
to_ascii_lowercase_idem (c ∷ s) = ap₂ ◌∷◌ (to_ascii_lower_idem c) (to_ascii_lowercase_idem s)

is_whitespace-lower : (c : ℕ) → is_whitespace (to_ascii_lower c) ≡ is_whitespace c
unfolding is_whitespace to_ascii_lower
is_whitespace-lower c = ground arith

trim_start-lowercase :
    (s : Text)
    → trim_start_matches is_whitespace (to_ascii_lowercase s)
      ≡ to_ascii_lowercase (trim_start_matches is_whitespace s)
unfolding trim_start_matches to_ascii_lowercase
trim_start-lowercase [] = refl
trim_start-lowercase (c ∷ s) = ground (arith, is_whitespace-lower c, trim_start-lowercase s)

map-reverse : (f : ℕ → ℕ) (s : Text) → map f (reverse s) ≡ reverse (map f s)
map-reverse f [] = refl
map-reverse f (c ∷ s) = rw (reverse-cons, map-append, map-reverse f s, reverse-cons)

reverse-lowercase : (s : Text) → reverse (to_ascii_lowercase s) ≡ to_ascii_lowercase (reverse s)
unfolding to_ascii_lowercase
reverse-lowercase s = sym (map-reverse to_ascii_lower s)

trim-lowercase : (s : Text) → trim (to_ascii_lowercase s) ≡ to_ascii_lowercase (trim s)
unfolding trim
trim-lowercase s = simp (trim_start-lowercase, reverse-lowercase)

-- No lower-cased text is one of the upper-case character codes.
char_codes-lowercase : (s : Text) → first_match (to_ascii_lowercase s) char_codes ≡ none
unfolding first_match is_one_of to_ascii_lowercase
char_codes-lowercase [] = refl
char_codes-lowercase (c ∷ []) = ground arith
char_codes-lowercase (c ∷ b ∷ s) = ground arith

parse_char_code-lowercase : (s : Text) (d : DType) → parse_char_code (to_ascii_lowercase s) ≢ ok d
unfolding parse_char_code
parse_char_code-lowercase s d h = ground (arith, char_codes-lowercase s)

-- Where `parse` knows the lower-case form of a text it gives the text itself the same dtype, and
-- surrounding white space is trimmed first in either form.
pub parse-to_ascii_lowercase :
    (s : Text) (d : DType) → parse (to_ascii_lowercase s) ≡ ok d → parse s ≡ ok d
unfolding parse
parse-to_ascii_lowercase s d h = ground (
  arith,
  ap (λ t. first_match t aliases)
      (ap to_ascii_lowercase (trim-lowercase s) ∙ to_ascii_lowercase_idem (trim s)),
  trim-lowercase s,
  parse_char_code-lowercase (trim s) d,
)
