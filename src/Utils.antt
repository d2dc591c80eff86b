-- ===== src/Utils.antt =====
-- utils.go: strings and UTF-16, the format of a verb, and the flag that lists PCRs.
pub mod Numbers
pub mod Formatter
use tcglog_parser.Common.{ℕ, List, [], ◌∷◌, ◌++◌, Option, none, some, ◌⊎◌, inl, inr, if◌then◌else◌}
use tcglog_parser.Go.Text.{codes, dec}
use tcglog_parser.Go.Format.{FmtState, ParsedUint, parsed, parse_uint}
use tcglog_parser.Go.Reader.{Bytes, le_bytes}
use tcglog_parser.Go.Unicode.{utf16_decode, utf16_encode, encode_rune, encode_runes, runes}

-- convertStringToUtf16
unfoldable pub convert_string_to_utf16 : Bytes → List ℕ
convert_string_to_utf16 s = utf16_encode (runes s)

-- convertUtf16ToString
unfoldable pub convert_utf16_to_string : List ℕ → Bytes
convert_utf16_to_string u = encode_runes (utf16_decode u)

-- binary.Write of 16-bit units
unfoldable pub unit_bytes : List ℕ → Bytes
unit_bytes [] = []
unit_bytes (u ∷ us) = le_bytes 2 u ++ unit_bytes us

-- The flags that are set, in the order in which makeDefaultFormatter asks for them.
abbrev pub flag_text : FmtState → Bytes
flag_text s =
    (if s.plus then codes "+" else [])
    ++ ((if s.minus then codes "-" else [])
        ++ ((if s.sharp then codes "#" else [])
            ++ ((if s.space then codes " " else []) ++ (if s.zero_padded then codes "0" else []))))

abbrev pub width_text : Option ℕ → Bytes
width_text o = elim o [ some n ↦ dec n | none ↦ [] ]

abbrev pub precision_text : Option ℕ → Bytes
precision_text o = elim o [ some n ↦ codes "." ++ dec n | none ↦ [] ]

-- The verb with its flags, width and precision.
abbrev pub verb_text : FmtState → ℕ → Bytes
verb_text s f = flag_text s ++ (width_text s.width ++ (precision_text s.precision ++ encode_rune f))

-- makeDefaultFormatter, with WriteString of "%%", which is not a format there.
unfoldable pub make_default_formatter : FmtState → ℕ → Bytes
make_default_formatter s f = codes "%%" ++ verb_text s f

-- The loop of a String method that writes a comma in front of each element but the first.
unfoldable pub separated_rest {ℓ} : {A : Type ℓ} → (A → Bytes) → List A → Bytes
separated_rest f [] = []
separated_rest f (x ∷ xs) = codes ", " ++ (f x ++ separated_rest f xs)

unfoldable pub separated {ℓ} : {A : Type ℓ} → (A → Bytes) → List A → Bytes
separated f [] = []
separated f (x ∷ xs) = f x ++ separated_rest f xs

-- PCRArgList.String
unfoldable pub pcr_arg_list_to_string : List ℕ → Bytes
pcr_arg_list_to_string l = separated dec l

-- PCRArgList.Set: the list behind the call, or the error of ParseUint.
unfoldable pub pcr_arg_list_set : List ℕ → Bytes → ParsedUint ⊎ List ℕ
pcr_arg_list_set l value = elim (parse_uint value 32) [ parsed n ↦ inr (l ++ (n ∷ [])) | e ↦ inl e ]
