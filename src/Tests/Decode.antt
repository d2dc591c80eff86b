-- ===== src/Tests/Decode.antt =====
-- Event data of small events.
use tcglog_parser.Common.{
  ℕ, ◌≡◌, refl, ◌≢◌, inl, inr, true, false, none, some, List, [], ◌∷◌, ◌++◌, arith, ◌⊎◌, replicate,
  lookup, insert,
}
use tcglog_parser.Errors.{ok, panic, unexpected_eof}
use tcglog_parser.Go.Reader.{read_full, le, le_at, le_bytes, read_uint}
use tcglog_parser.Go.Runtime.{make, hash_sum, hash_size, toy_runtime}
use tcglog_parser.Go.Text.{equal, codes}
use tcglog_parser.Types.{LogOptions}
use tcglog_parser.Types.Algorithm
use tcglog_parser.Types.EventType
use tcglog_parser.EventData.{broken, separator, grub_string, kernel_cmdline, systemd_efi_stub}
use tcglog_parser.Decode.Dispatch.{decode_event_data_tcg, decode_event_data_impl, decode_event_data}
use tcglog_parser.Decode.Boot.{
  decode_event_data_grub, decode_event_data_systemd_efi_stub, stub_text,
}
use tcglog_parser.Log.Format.{
  reading, is_pcr_index_in_range, is_digest_of_separator_error_value, wrap_log_read_error,
  check_pcr_index, read_event_bytes, finish_event, read_next_event_1_2,
}
use tcglog_parser.Decode.DevicePath.Terminates.{decode_device_path-ne-none}
use tcglog_parser.Decode.Boot.Grub.{prefix_of, decode_event_data_grub-encode}
use tcglog_parser.Decode.Boot.RoundTrip.{decode_event_data_systemd_efi_stub-encode}
use tcglog_parser.Utils.{unit_bytes, convert_utf16_to_string}
use tcglog_parser.Decode.DevicePath.{decode_device_path}
use tcglog_parser.Decode.Total.{decode_event_data-KeepsTrailing}
use tcglog_parser.Decode.Sound.{KeepsTrailing}
use tcglog_parser.Decode.Kinds.{IsFor, MayTrail, decode_event_data-IsFor}
use tcglog_parser.Decode.Short.{decode_event_data-too_short}
use tcglog_parser.Decode.Fallthrough.{decode_event_data-fallthrough}
use tcglog_parser.Tests.Data.{plain}

-- With support for GRUB and a type that its decoder leaves alone.
abbrev grub : LogOptions
grub = record { enable_grub = true; enable_systemd_efi_stub = false; systemd_efi_stub_pcr = 0 }

decode_separator :
    decode_event_data toy_runtime 7 EventType.separator (replicate 4 0) plain false
    ≡ ok (separator (replicate 4 0) false, 0)
unfolding decode_event_data decode_event_data_impl decode_event_data_tcg reading wrap_log_read_error
    read_full le le_at le_bytes read_uint make hash_sum hash_size equal is_pcr_index_in_range
    is_digest_of_separator_error_value check_pcr_index read_event_bytes finish_event
    read_next_event_1_2 Algorithm.size Algorithm.hash Algorithm.get_hash Algorithm.supported lookup
    insert
decode_separator = refl

decode_separator-KeepsTrailing : KeepsTrailing (replicate 4 0) (separator (replicate 4 0) false, 0)
decode_separator-KeepsTrailing =
    decode_event_data-KeepsTrailing toy_runtime 7 EventType.separator (replicate 4 0) plain false
      decode_separator

decode_separator-IsFor :
    IsFor EventType.separator (separator (replicate 4 0) false)
    × MayTrail (separator (replicate 4 0) false) 0
decode_separator-IsFor =
    decode_event_data-IsFor toy_runtime 7 EventType.separator (replicate 4 0) plain false refl refl
      decode_separator

-- A GPT event without any data.
no_table-too_short :
    decode_event_data toy_runtime 5 EventType.efi_gpt_event [] plain false
    ≡ ok (broken [] unexpected_eof, 0)
no_table-too_short =
    decode_event_data-too_short toy_runtime 5 EventType.efi_gpt_event [] plain false refl refl
      (inr (inr (inr (refl, omega arith))))

grub_separator : decode_event_data_grub 8 EventType.separator (replicate 4 0) ≡ ok none
unfolding decode_event_data_grub
grub_separator = refl

decode_grub-fallthrough :
    ((replicate {A = ℕ} 4 0 ≢ [])
      × (decode_event_data toy_runtime 8 EventType.separator (replicate 4 0) grub false
          ≡ ok (systemd_efi_stub (replicate 4 0) (stub_text (replicate 4 0)), 0)))
    ⊎ ((replicate {A = ℕ} 4 0 ≡ [])
        × (decode_event_data toy_runtime 8 EventType.separator (replicate 4 0) grub false ≡ panic))
decode_grub-fallthrough =
    decode_event_data-fallthrough toy_runtime grub false 8 EventType.separator refl (inl refl)
      (replicate 4 0) grub_separator

-- A path of an end node, behind which a byte is left.
end_path-ne-none : decode_device_path (0x7f ∷ 0xff ∷ 4 ∷ 0 ∷ 1 ∷ []) ≢ none
end_path-ne-none = decode_device_path-ne-none (0x7f ∷ 0xff ∷ 4 ∷ 0 ∷ 1 ∷ [])

-- The text "hi".
abbrev hi : List ℕ
hi = 0x68 ∷ 0x69 ∷ []

hi-encode :
    decode_event_data_systemd_efi_stub (unit_bytes hi ++ 0 ∷ [])
    ≡ ok (systemd_efi_stub (unit_bytes hi ++ 0 ∷ []) (convert_utf16_to_string hi))
hi-encode = decode_event_data_systemd_efi_stub-encode hi (omega arith, (omega arith, tt))

quiet-encode :
    decode_event_data_grub 8 EventType.ipl (prefix_of kernel_cmdline ++ (codes "quiet" ++ 0 ∷ []))
    ≡ ok (
        some (
          grub_string
            (prefix_of kernel_cmdline ++ (codes "quiet" ++ 0 ∷ []))
            kernel_cmdline
            (codes "quiet")))
quiet-encode = decode_event_data_grub-encode kernel_cmdline (codes "quiet")
