-- ===== src/Decode/Dispatch.antt =====
-- Which decoder an event goes to: decodeEventDataTCG of tcgeventdata.go, decodeEventDataImpl and
-- decodeEventData of eventdata.go.
use tcglog_parser.Common.{ℕ, Bool, ◌&&◌, ◌||◌, Option, none, some, ◌==◌, if◌then◌else◌}
use tcglog_parser.Errors.{Error, Result, ok, err, panic, ◌>>=◌, eof, unexpected_eof}
use tcglog_parser.Go.Reader.{Bytes}
use tcglog_parser.Go.Runtime.{Runtime}
use tcglog_parser.Types.{LogOptions}
use tcglog_parser.Types.EventType
use tcglog_parser.EventData.{EventData, broken, opaque, ascii_string, separator}
use tcglog_parser.Decode.NoAction.{decode_event_data_no_action}
use tcglog_parser.Decode.Variable.{decode_event_data_efi_variable}
use tcglog_parser.Decode.Image.{decode_event_data_efi_image_load, decode_event_data_efi_gpt}
use tcglog_parser.Decode.Boot.{decode_event_data_grub, decode_event_data_systemd_efi_stub}

-- Event data, or nil, with the number of trailing bytes.
abbrev pub Decoded : Type 0
Decoded = Option (EventData × ℕ)

abbrev with_trailing : EventData × ℕ → Result Decoded
with_trailing d = ok (some d)

abbrev no_trailing : EventData → Result Decoded
no_trailing d = ok (some (d, 0))

-- The event types of the three EFI variable events and of the three EFI image events.
abbrev pub is_variable_type : ℕ → Bool
is_variable_type t =
    t == EventType.efi_variable_driver_config
    || t == EventType.efi_variable_boot
    || t == EventType.efi_variable_authority

abbrev pub is_image_type : ℕ → Bool
is_image_type t =
    t == EventType.efi_boot_services_application
    || t == EventType.efi_boot_services_driver
    || t == EventType.efi_runtime_services_driver

unfoldable pub decode_event_data_tcg : Runtime → ℕ → Bytes → Bool → Result Decoded
decode_event_data_tcg rt event_type bytes has_digest_of_separator_error =
    if event_type == EventType.no_action
    then decode_event_data_no_action rt bytes >>= no_trailing
    else if event_type == EventType.separator
    then no_trailing (separator bytes has_digest_of_separator_error)
    else if event_type == EventType.action || event_type == EventType.efi_action
    then no_trailing (ascii_string bytes)
    else if is_variable_type event_type
    then decode_event_data_efi_variable rt bytes >>= with_trailing
    else if is_image_type event_type
    then decode_event_data_efi_image_load rt bytes >>= no_trailing
    else if event_type == EventType.efi_gpt_event
    then decode_event_data_efi_gpt rt bytes >>= with_trailing
    else ok none

-- The body of the second case of the switch. It ends in `fallthrough`, but the decoder never
-- returns nil without an error.
unfoldable pub stub_case : Bytes → Result Decoded
stub_case bytes = decode_event_data_systemd_efi_stub bytes >>= no_trailing

-- The body of the first case: `fallthrough` goes on with the second body, whose condition is not
-- tested.
unfoldable pub grub_case : ℕ → ℕ → Bytes → Result Decoded
grub_case pcr_index event_type bytes = do
  d ← decode_event_data_grub pcr_index event_type bytes
  elim d [ some e ↦ no_trailing e | none ↦ stub_case bytes ]

unfoldable pub decode_event_data_impl : Runtime → ℕ → ℕ → Bytes → LogOptions → Bool → Result Decoded
decode_event_data_impl rt pcr_index event_type bytes options has_digest_of_separator_error =
    if options.enable_grub && (pcr_index == 8 || pcr_index == 9)
    then grub_case pcr_index event_type bytes
    else if options.enable_systemd_efi_stub
        && pcr_index == options.systemd_efi_stub_pcr
        && event_type == EventType.ipl
    then stub_case bytes
    else decode_event_data_tcg rt event_type bytes has_digest_of_separator_error

abbrev unexpected : Error → Error
unexpected eof = unexpected_eof
unexpected e = e

abbrev pub settled : Bytes → Result Decoded → Result (EventData × ℕ)
settled bytes (ok (some d)) = ok d
settled bytes (ok none) = ok (opaque bytes, 0)
settled bytes (err e) = ok (broken bytes (unexpected e), 0)
settled bytes panic = panic

-- decodeEventData: an error becomes broken event data.
unfoldable pub decode_event_data :
    Runtime → ℕ → ℕ → Bytes → LogOptions → Bool → Result (EventData × ℕ)
decode_event_data rt pcr_index event_type bytes options has_digest_of_separator_error =
    settled bytes
      (decode_event_data_impl rt pcr_index event_type bytes options has_digest_of_separator_error)
