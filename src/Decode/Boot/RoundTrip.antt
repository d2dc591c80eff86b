-- ===== src/Decode/Boot/RoundTrip.antt =====
-- The text of a systemd EFI stub event.
use mathlib.Core.Path.{ap₂}
use tcglog_parser.Common.{
  ℕ, ◌-◌, ◌*◌, ◌/◌, ◌^◌, ◌<◌, ◌≡◌, refl, ap, ◌∙◌, false, List, [], ◌∷◌, ◌++◌, append_assoc,
  append-nil, arith, ◌==◌, if◌then◌else◌, All, replicate, length, take, drop, length-append,
  take-append, drop-append,
}
use tcglog_parser.Errors.{Result, ok, panic}
use tcglog_parser.Go.Reader.{Bytes, read_full, units, le_bytes, le_at}
use tcglog_parser.Go.Reader.Laws.{read_full-append_of_eq, length-le_bytes}
use tcglog_parser.Go.Reader.Fields.{le_at-le_bytes}
use tcglog_parser.Utils.{unit_bytes, convert_utf16_to_string}
use tcglog_parser.EventData.{systemd_efi_stub}
use tcglog_parser.Decode.Boot.{units_or_zeros, stub_text, decode_event_data_systemd_efi_stub}

length-unit_bytes : (us : List ℕ) → length (unit_bytes us) ≡ 2 * length us
unfolding unit_bytes
length-unit_bytes [] = refl
length-unit_bytes (u ∷ us) =
    omega (
      arith,
      length-append (le_bytes 2 u) (unit_bytes us),
      length-le_bytes 2 u,
      length-unit_bytes us,
    )

units-unit_bytes :
    (us : List ℕ) (rest : Bytes)
    → All (λ u. u < 2 ^ 16) us
    → units (length us) (unit_bytes us ++ rest) ≡ us
unfolding units unit_bytes
units-unit_bytes [] rest h = refl
units-unit_bytes (u ∷ us) rest (small, h) =
    ap (λ b. le_at 0 2 b ∷ units (length us) (drop 2 b))
      (append_assoc (le_bytes 2 u) (unit_bytes us) rest)
    ∙ rw (
      le_at-le_bytes 2 u (unit_bytes us ++ rest) (omega arith),
      drop-append 2 (le_bytes 2 u) (unit_bytes us ++ rest) (length-le_bytes 2 u),
      units-unit_bytes us rest h,
    )

units_or_zeros-unit_bytes :
    (us : List ℕ) → All (λ u. u < 2 ^ 16) us → units_or_zeros (length us) (unit_bytes us) ≡ us
unfolding units_or_zeros
units_or_zeros-unit_bytes us h =
    let whole : read_full (2 * length us) (unit_bytes us) ≡ ok (unit_bytes us, []) =
      rw append-nil at
        (read_full-append_of_eq (2 * length us) (unit_bytes us) [] (length-unit_bytes us)) in
    let all : units (length us) (unit_bytes us) ≡ us =
      rw append-nil at (units-unit_bytes us [] h) in
    ap {A = Result (Bytes × Bytes)} {B = List ℕ}
      (λ r. elim r [ ok (b, _) ↦ units (length us) b | _ ↦ replicate (length us) 0 ]) whole
    ∙ all

-- The text is that of the data without its last byte.
stub_text-unit_bytes :
    (us : List ℕ)
    → All (λ u. u < 2 ^ 16) us
    → stub_text (unit_bytes us ++ 0 ∷ []) ≡ convert_utf16_to_string us
stub_text-unit_bytes us h =
    let size = length-append (unit_bytes us) (0 ∷ []) in
    let count : length (unit_bytes us ++ 0 ∷ []) / 2 ≡ length us =
      omega (arith, size, length-unit_bytes us) in
    let cut : take (length (unit_bytes us ++ 0 ∷ []) - 1) (unit_bytes us ++ 0 ∷ [])
        ≡ unit_bytes us =
      take-append _ (unit_bytes us) (0 ∷ []) (omega (arith, size)) in
    ap convert_utf16_to_string (ap₂ units_or_zeros count cut ∙ units_or_zeros-unit_bytes us h)

-- The decoder of systemd EFI stub events gives the text whose units of 16 bits, behind which one zero
-- byte stands, are the data.
pub decode_event_data_systemd_efi_stub-encode :
    (us : List ℕ)
    → All (λ u. u < 2 ^ 16) us
    → decode_event_data_systemd_efi_stub (unit_bytes us ++ 0 ∷ [])
      ≡ ok (systemd_efi_stub (unit_bytes us ++ 0 ∷ []) (convert_utf16_to_string us))
unfolding decode_event_data_systemd_efi_stub
decode_event_data_systemd_efi_stub-encode us h =
    let bytes = unit_bytes us ++ 0 ∷ [] in
    let filled : (length bytes == 0) ≡ false =
      ground (arith, length-append (unit_bytes us) (0 ∷ [])) in
    ap (λ b. if b then panic else ok (systemd_efi_stub bytes (stub_text bytes))) filled
    ∙ ap (λ t. ok (systemd_efi_stub bytes t)) (stub_text-unit_bytes us h)
