-- ===== src/Decode/Variable/Measured.antt =====
-- What is encoded for a variable that was decoded: the structure that it was decoded from.
use tcglog_parser.Common.{
  suc, ℕ, ◌+◌, ◌-◌, ◌*◌, ◌^◌, ◌<◌, ◌≡◌, refl, ap, ◌∙◌, true, false, List, [], ◌∷◌, ◌++◌, arith, All,
  length,
}
use tcglog_parser.Errors.{ok}
use tcglog_parser.Go.Reader.{Bytes}
use tcglog_parser.Go.Runtime.{Runtime}
use tcglog_parser.Go.Unicode.{
  within, is_surrogate, utf16_decode, utf16_encode_rune, utf16_encode, encode_runes, runes,
  rune_count,
}
use tcglog_parser.Go.Unicode.Laws.{IsRune, runes-encode_runes}
use tcglog_parser.Utils.{convert_string_to_utf16, convert_utf16_to_string}
use tcglog_parser.EventData.{EfiGuid, EfiVariableEventData, efi_variable}
use tcglog_parser.Decode.Variable.{decode_event_data_efi_variable, encode_measured_bytes}
use tcglog_parser.Decode.Variable.RoundTrip.{
  Character, one_unit, surrogates, character_units, all_units, IsVariableData, encode_variable,
  decode_event_data_efi_variable-encode,
}

-- A character whose single unit is no surrogate, or that is a pair of a high and a low one.
abbrev pub IsWhole : Character → Type 0
IsWhole (one_unit u) = (u < 2 ^ 16) × (is_surrogate u ≡ false)
IsWhole (surrogates u v) = (within 0xd800 0xdc00 u ≡ true) × (within 0xdc00 0xe000 v ≡ true)

abbrev rune_of : Character → ℕ
rune_of (one_unit u) = u
rune_of (surrogates u v) = (u - 0xd800) * 1024 + (v - 0xdc00) + 0x10000

abbrev runes_of : List Character → List ℕ
runes_of [] = []
runes_of (c ∷ l) = rune_of c ∷ runes_of l

rune_of-IsRune : (c : Character) → IsWhole c → IsRune (rune_of c)
rune_of-IsRune (one_unit u) (small, s) = (omega arith, s)
rune_of-IsRune (surrogates u v) (high, low) = (ground arith, ground arith)

All-IsRune : (l : List Character) → All IsWhole l → All IsRune (runes_of l)
All-IsRune [] h = tt
All-IsRune (c ∷ l) (h, hs) = (rune_of-IsRune c h, All-IsRune l hs)

single :
    (u : ℕ) (us : List ℕ) → is_surrogate u ≡ false → utf16_decode (u ∷ us) ≡ u ∷ utf16_decode us
unfolding utf16_decode
single u [] s = ground arith
single u (v ∷ us) s = ground arith

pair :
    (u v : ℕ) (us : List ℕ)
    → within 0xd800 0xdc00 u ≡ true
    → within 0xdc00 0xe000 v ≡ true
    → utf16_decode (u ∷ v ∷ us) ≡ rune_of (surrogates u v) ∷ utf16_decode us
unfolding utf16_decode
pair u v us high low = ground arith

utf16_decode-all_units :
    (l : List Character) → All IsWhole l → utf16_decode (all_units l) ≡ runes_of l
utf16_decode-all_units [] h = unfold utf16_decode in refl
utf16_decode-all_units (one_unit u ∷ l) ((small, s), hs) =
    single u (all_units l) s ∙ ap (◌∷◌ u) (utf16_decode-all_units l hs)
utf16_decode-all_units (surrogates u v ∷ l) ((high, low), hs) =
    pair u v (all_units l) high low
    ∙ ap (◌∷◌ (rune_of (surrogates u v))) (utf16_decode-all_units l hs)

utf16_encode_rune-rune_of :
    (c : Character) → IsWhole c → utf16_encode_rune (rune_of c) ≡ character_units c
unfolding utf16_encode_rune
utf16_encode_rune-rune_of (one_unit u) (small, s) = ground arith
utf16_encode_rune-rune_of (surrogates u v) (high, low) = ground arith

utf16_encode-runes_of :
    (l : List Character) → All IsWhole l → utf16_encode (runes_of l) ≡ all_units l
unfolding utf16_encode
utf16_encode-runes_of [] h = refl
utf16_encode-runes_of (c ∷ l) (h, hs) =
    ap (λ us. us ++ utf16_encode (runes_of l)) (utf16_encode_rune-rune_of c h)
    ∙ ap (◌++◌ (character_units c)) (utf16_encode-runes_of l hs)

length-runes_of : (l : List Character) → length (runes_of l) ≡ length l
length-runes_of [] = refl
length-runes_of (c ∷ l) = ap suc (length-runes_of l)

-- The runes of a text that was converted from UTF-16.
runes-convert :
    (l : List Character)
    → All IsWhole l
    → runes (convert_utf16_to_string (all_units l)) ≡ runes_of l
unfolding convert_utf16_to_string
runes-convert l h =
    ap (λ rs. runes (encode_runes rs)) (utf16_decode-all_units l h)
    ∙ runes-encode_runes (runes_of l) (All-IsRune l h)

-- Converting UTF-16 without lone surrogates to a string and back gives it back.
pub convert-all_units :
    (l : List Character)
    → All IsWhole l
    → convert_string_to_utf16 (convert_utf16_to_string (all_units l)) ≡ all_units l
unfolding convert_string_to_utf16
convert-all_units l h = ap utf16_encode (runes-convert l h) ∙ utf16_encode-runes_of l h

rune_count-convert :
    (l : List Character)
    → All IsWhole l
    → rune_count (convert_utf16_to_string (all_units l)) ≡ length l
unfolding rune_count
rune_count-convert l h = ap length (runes-convert l h) ∙ length-runes_of l

-- The variable that the decoder reads from a UEFI_VARIABLE_DATA structure of the specification's
-- layout, whose fields fit their sizes, whose data can be allocated and whose name has no lone
-- surrogates, is encoded by EncodeMeasuredBytes as that structure, without the bytes behind it.
pub encode_measured_bytes-decode :
    (rt : Runtime) (g : EfiGuid) (name : List Character) (d rest : Bytes)
    → IsVariableData rt g name d
    → All IsWhole name
    → (e : EfiVariableEventData) × (decode_event_data_efi_variable rt
          (encode_variable g name d ++ rest)
        ≡ ok (efi_variable e, length rest))
      × (encode_measured_bytes e ≡ encode_variable g name d)
encode_measured_bytes-decode rt g name d rest v h =
    let e : EfiVariableEventData = record {
      bytes = encode_variable g name d ++ rest;
      variable_name = g;
      unicode_name = convert_utf16_to_string (all_units name);
      variable_data = d;
    } in
    let again : encode_measured_bytes e ≡ encode_variable g name d =
      unfold encode_measured_bytes in rw (rune_count-convert name h, convert-all_units name h) in
    (e, decode_event_data_efi_variable-encode rt g name d rest v, again)
