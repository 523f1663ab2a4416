-- ===== src/Compat/Formats.antt =====
-- crates/mohu-dtype/src/compat.rs: buffer-protocol and `struct` format strings, printed and parsed.
use mohu_fork_nirman.Base.{
  ℕ, ◌≡◌, refl, ap, ◌∙◌, ◌⊎◌, inl, inr, true, [], ◌∷◌, Text, codes, is_one_of, trim_start_matches,
  ◌||◌,
}
use mohu_fork_nirman.Errors.{ok, err, unsupported_dtype}
use mohu_fork_nirman.DType.{DType, bool, f16, bf16, c64, c128, is_complex, itemsize}
use mohu_fork_nirman.DType.Code.{dtype_eq}
use mohu_fork_nirman.Names.{first_match, numpy_str}
use mohu_fork_nirman.Compat.{
  struct_format_char, to_struct_format, buffer_format, from_buffer_format, parse_stripped,
  is_prefix_char,
}

-- BF16 is sent as F16.
abbrev received : DType → DType
received bf16 = f16
received d = d

from_buffer_format-buffer_format :
    (d : DType) → from_buffer_format (buffer_format d) ≡ ok (received d)
unfolding from_buffer_format parse_stripped buffer_format first_match is_one_of trim_start_matches
    is_prefix_char
from_buffer_format-buffer_format bool = refl
from_buffer_format-buffer_format _ = refl

itemsize-received : (d : DType) → itemsize (received d) ≡ itemsize d
unfolding itemsize
itemsize-received bool = refl
itemsize-received _ = refl

trim_start-cons :
    (c : ℕ) (s : Text)
    → is_prefix_char c ≡ true
    → trim_start_matches is_prefix_char (c ∷ s) ≡ trim_start_matches is_prefix_char s
unfolding trim_start_matches
trim_start-cons c s h = rw (h, trim_start_matches)

from_buffer_format-cons :
    (c : ℕ) (fmt : Text)
    → is_prefix_char c ≡ true
    → from_buffer_format (c ∷ fmt) ≡ from_buffer_format fmt
unfolding from_buffer_format
from_buffer_format-cons c fmt h = ap parse_stripped (trim_start-cons c fmt h)

-- Every dtype's buffer format parses back to the dtype, but for BF16, which comes back as F16 and
-- so keeps its item size; with a character of byte order or a space in front it parses the same.
pub from_buffer_format_roundtrip :
    (d : DType) (c : ℕ)
    → is_prefix_char c ≡ true
    → (from_buffer_format (buffer_format d) ≡ ok (received d))
      × (itemsize (received d) ≡ itemsize d)
      × (from_buffer_format (c ∷ buffer_format d) ≡ ok (received d))
from_buffer_format_roundtrip d c h = (
  from_buffer_format-buffer_format d,
  itemsize-received d,
  from_buffer_format-cons c (buffer_format d) h ∙ from_buffer_format-buffer_format d,
)

-- A `struct` format is native-endian and exists for every dtype but BF16 and the complex ones,
-- which give the unsupported-dtype error; where it exists, the buffer parser reads it back to the
-- dtype.
pub to_struct_format-from_buffer_format :
    (d : DType)
    → (to_struct_format d ≡ err (unsupported_dtype (codes "struct format") (numpy_str d)))
        × ((dtype_eq d bf16 || is_complex d) ≡ true)
      ⊎ ((ch : ℕ) × (to_struct_format d ≡ ok (b'=' ∷ ch ∷ []))
          × (from_buffer_format (b'=' ∷ ch ∷ []) ≡ ok d))
unfolding to_struct_format from_buffer_format parse_stripped first_match is_one_of
    trim_start_matches is_prefix_char struct_format_char dtype_eq is_complex
to_struct_format-from_buffer_format bf16 = inl (refl, refl)
to_struct_format-from_buffer_format c64 = inl (refl, refl)
to_struct_format-from_buffer_format c128 = inl (refl, refl)
to_struct_format-from_buffer_format _ = inr (_, refl, refl)
