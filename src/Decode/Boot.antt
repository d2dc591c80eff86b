-- ===== src/Decode/Boot.antt =====
-- Events of the boot loaders: grubeventdata.go and sdefistub.go.
pub mod RoundTrip
pub mod Grub
pub mod Measured
use tcglog_parser.Common.{
  ℕ, ◌-◌, ◌*◌, ◌/◌, not, Option, none, some, List, [], ◌∷◌, ◌++◌, ◌==◌, if◌then◌else◌, length, take,
  replicate,
}
use tcglog_parser.Errors.{Result, ok, panic}
use tcglog_parser.Go.Reader.{Bytes, read_full, units}
use tcglog_parser.Go.Text.{codes, has_prefix, trim_prefix, trim_suffix}
use tcglog_parser.Types.EventType
use tcglog_parser.EventData.{
  grub_cmd, kernel_cmdline, EventData, ascii_string, grub_string, systemd_efi_stub,
}
use tcglog_parser.Utils.{convert_string_to_utf16, convert_utf16_to_string, unit_bytes}

abbrev pub kernel_cmdline_prefix : Bytes
kernel_cmdline_prefix = codes "kernel_cmdline: "

abbrev pub grub_cmd_prefix : Bytes
grub_cmd_prefix = codes "grub_cmd: "

-- strings.TrimSuffix(strings.TrimPrefix(str, prefix), "\x00")
abbrev pub grub_text : Bytes → Bytes → Bytes
grub_text prefix s = trim_suffix (trim_prefix s prefix) (0 ∷ [])

-- decodeEventDataGRUB; `ok none` is a nil EventData.
unfoldable pub decode_event_data_grub : ℕ → ℕ → Bytes → Result (Option EventData)
decode_event_data_grub pcr_index event_type bytes =
    if not (event_type == EventType.ipl)
    then ok none
    else if pcr_index == 8
    then ok (
        if has_prefix bytes kernel_cmdline_prefix
        then some (grub_string bytes kernel_cmdline (grub_text kernel_cmdline_prefix bytes))
        else if has_prefix bytes grub_cmd_prefix
        then some (grub_string bytes grub_cmd (grub_text grub_cmd_prefix bytes))
        else none)
    else if pcr_index == 9
    then ok (some (ascii_string bytes))
    else panic

-- The units that binary.Read fills in: `n` zeros stay where the buffer is too short, since the
-- error is not looked at.
unfoldable pub units_or_zeros : ℕ → Bytes → List ℕ
units_or_zeros n s = elim (read_full (2 * n) s) [ ok (b, _) ↦ units n b | _ ↦ replicate n 0 ]

-- The field Str: the data without its last byte, as UTF-16.
abbrev pub stub_text : Bytes → Bytes
stub_text bytes =
    convert_utf16_to_string (units_or_zeros (length bytes / 2) (take (length bytes - 1) bytes))

-- decodeEventDataSystemdEFIStub: data[:len(data)-1] panics where there is no byte.
unfoldable pub decode_event_data_systemd_efi_stub : Bytes → Result EventData
decode_event_data_systemd_efi_stub bytes =
    if length bytes == 0 then panic else ok (systemd_efi_stub bytes (stub_text bytes))

-- SystemdEFIStubEventData.EncodeMeasuredBytes, of the field Str.
unfoldable pub encode_stub_measured_bytes : Bytes → Bytes
encode_stub_measured_bytes str = unit_bytes (convert_string_to_utf16 str ++ 0 ∷ [])

-- GrubStringEventData.EncodeMeasuredBytes, of the field Str.
unfoldable pub encode_grub_measured_bytes : Bytes → Bytes
encode_grub_measured_bytes str = str
