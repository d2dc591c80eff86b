-- ===== src/Decode/Boot/Measured.antt =====
-- What is encoded for a text of the systemd EFI stub: the bytes that the validator takes as measured.
use tcglog_parser.Common.{
  ℕ, ◌^◌, ◌<◌, ◌≡◌, refl, sym, ap, ◌∙◌, false, some, List, [], ◌∷◌, ◌++◌, append_assoc, arith, All,
}
use tcglog_parser.Errors.{ok}
use tcglog_parser.Go.Reader.{Bytes, le_bytes}
use tcglog_parser.Utils.{convert_utf16_to_string, unit_bytes}
use tcglog_parser.EventData.{systemd_efi_stub}
use tcglog_parser.Decode.Boot.{decode_event_data_systemd_efi_stub, encode_stub_measured_bytes}
use tcglog_parser.Decode.Boot.RoundTrip.{decode_event_data_systemd_efi_stub-encode}
use tcglog_parser.Decode.Variable.RoundTrip.{Character, one_unit, surrogates, all_units}
use tcglog_parser.Decode.Variable.Measured.{IsWhole, convert-all_units}
use tcglog_parser.Validate.Check.{determine_measured_bytes}

unit_bytes-append_zero : (us : List ℕ) → unit_bytes (us ++ 0 ∷ []) ≡ unit_bytes us ++ 0 ∷ 0 ∷ []
unfolding unit_bytes le_bytes
unit_bytes-append_zero [] = refl
unit_bytes-append_zero (u ∷ us) =
    ap (◌++◌ (le_bytes 2 u)) (unit_bytes-append_zero us)
    ∙ sym (append_assoc (le_bytes 2 u) (unit_bytes us) (0 ∷ 0 ∷ []))

all_units-small : (l : List Character) → All IsWhole l → All (λ u. u < 2 ^ 16) (all_units l)
all_units-small [] h = tt
all_units-small (one_unit u ∷ l) ((small, s), hs) = (small, all_units-small l hs)
all_units-small (surrogates u v ∷ l) ((high, low), hs) =
    (ground arith, (ground arith, all_units-small l hs))

-- For an event of the systemd EFI stub whose data is UTF-16 without lone surrogates and one zero byte
-- behind it, EncodeMeasuredBytes of the decoded text gives the units with a zero unit behind them,
-- and these are the bytes that the validator takes as measured.
pub encode_stub_measured_bytes-decode :
    (t : ℕ) (l : List Character)
    → All IsWhole l
    → (str : Bytes) × (decode_event_data_systemd_efi_stub (unit_bytes (all_units l) ++ 0 ∷ [])
        ≡ ok (systemd_efi_stub (unit_bytes (all_units l) ++ 0 ∷ []) str))
      × (encode_stub_measured_bytes str ≡ unit_bytes (all_units l) ++ 0 ∷ 0 ∷ [])
      × (determine_measured_bytes t
            (systemd_efi_stub (unit_bytes (all_units l) ++ 0 ∷ []) str)
            false
          ≡ (some (encode_stub_measured_bytes str), false))
encode_stub_measured_bytes-decode t l h =
    let us = all_units l in
    let str = convert_utf16_to_string us in
    let encoded : encode_stub_measured_bytes str ≡ unit_bytes us ++ 0 ∷ 0 ∷ [] =
      unfold encode_stub_measured_bytes in
      ap (λ x. unit_bytes (x ++ 0 ∷ [])) (convert-all_units l h) ∙ unit_bytes-append_zero us in
    let measured : determine_measured_bytes t (systemd_efi_stub (unit_bytes us ++ 0 ∷ []) str) false
        ≡ (some (unit_bytes us ++ 0 ∷ 0 ∷ []), false) =
      unfold determine_measured_bytes in
      ap (λ b. (some b, false)) (append_assoc (unit_bytes us) (0 ∷ []) (0 ∷ [])) in
    (
      str,
      decode_event_data_systemd_efi_stub-encode us (all_units-small l h),
      encoded,
      measured ∙ ap (λ b. (some b, false)) (sym encoded),
    )
