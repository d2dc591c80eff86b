-- ===== src/Decode/NoAction.antt =====
-- EV_NO_ACTION events: decodeEventDataNoAction of tcgeventdata.go, and the startup locality and
-- BIM reference manifest events of efi.go.
use tcglog_parser.Common.{[], ◌∷◌, ◌++◌, if◌then◌else◌, drop}
use tcglog_parser.Errors.{Result, ok, ◌>>=◌}
use tcglog_parser.Go.Reader.{Bytes, read_full, le_at, read_uint}
use tcglog_parser.Go.Runtime.{Runtime}
use tcglog_parser.Go.Text.{codes, equal}
use tcglog_parser.EventData.{
  SpecIdEventData, EventData, spec_id, unknown_no_action, startup_locality, bim_reference_manifest,
}
use tcglog_parser.Decode.Guid.{guid_of}
use tcglog_parser.Decode.SpecId.{
  parse_pc_client_spec_id_event, parse_efi_1_2_spec_id_event, parse_efi_2_spec_id_event,
  decode_spec_id_event,
}

unfoldable pub decode_startup_locality_event : Bytes → Bytes → Result EventData
decode_startup_locality_event s bytes = do
  (locality, _) ← read_uint 1 s
  ok (startup_locality bytes locality)

unfoldable pub decode_bim_reference_manifest_event : Bytes → Bytes → Result EventData
decode_bim_reference_manifest_event s bytes = do
  (b, _) ← read_full 20 s
  ok (bim_reference_manifest bytes (le_at 0 4 b) (guid_of (drop 4 b)))

-- The signatures, 15 characters and a zero byte.
abbrev pub signature : Bytes → Bytes
signature text = text ++ 0 ∷ []

abbrev spec_id_ok : SpecIdEventData → Result EventData
spec_id_ok d = ok (spec_id d)

-- The switch on the signature, with the stream behind it.
unfoldable pub no_action_switch : Runtime → Bytes → Bytes → Bytes → Result EventData
no_action_switch rt sig s bytes =
    if equal sig (signature (codes "Spec ID Event00"))
    then decode_spec_id_event s bytes parse_pc_client_spec_id_event >>= spec_id_ok
    else if equal sig (signature (codes "Spec ID Event02"))
    then decode_spec_id_event s bytes parse_efi_1_2_spec_id_event >>= spec_id_ok
    else if equal sig (signature (codes "Spec ID Event03"))
    then decode_spec_id_event s bytes (parse_efi_2_spec_id_event rt) >>= spec_id_ok
    else if equal sig (signature (codes "SP800-155 Event"))
    then decode_bim_reference_manifest_event s bytes
    else if equal sig (signature (codes "StartupLocality"))
    then decode_startup_locality_event s bytes
    else ok (unknown_no_action bytes)

unfoldable pub decode_event_data_no_action : Runtime → Bytes → Result EventData
decode_event_data_no_action rt bytes = do
  (sig, s) ← read_full 16 bytes
  no_action_switch rt sig s bytes
