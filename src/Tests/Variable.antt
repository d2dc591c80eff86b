-- ===== src/Tests/Variable.antt =====
-- An EFI variable event whose name has a character beyond the first plane.
use tcglog_parser.Common.{◌≡◌, refl, false, some, List, [], ◌∷◌, ◌++◌, All, arith, replicate}
use tcglog_parser.Errors.{ok}
use tcglog_parser.Go.Reader.{Bytes}
use tcglog_parser.Go.Runtime.{toy_runtime}
use tcglog_parser.Types.EventType
use tcglog_parser.EventData.{EfiGuid, EfiVariableEventData, efi_variable, systemd_efi_stub}
use tcglog_parser.Decode.Boot.{decode_event_data_systemd_efi_stub, encode_stub_measured_bytes}
use tcglog_parser.Validate.Check.{determine_measured_bytes}
use tcglog_parser.Decode.Variable.{decode_event_data_efi_variable, encode_measured_bytes}
use tcglog_parser.Decode.Variable.Measured.{IsWhole, encode_measured_bytes-decode}
use tcglog_parser.Decode.Boot.Measured.{encode_stub_measured_bytes-decode}
use tcglog_parser.Decode.Variable.RoundTrip.{
  Character, one_unit, surrogates, IsVariableData, encode_variable, all_units,
  decode_event_data_efi_variable-encode,
}
use tcglog_parser.Utils.{unit_bytes, convert_utf16_to_string}

abbrev guid : EfiGuid
guid = record { data1 = 7; data2 = 8; data3 = 9; data4 = replicate 8 1 }

abbrev name : List Character
name = one_unit 66 ∷ surrogates 0xd83d 0xde00 ∷ []

boot-IsVariableData : IsVariableData toy_runtime guid name (1 ∷ 2 ∷ [])
boot-IsVariableData = record {
  guid = record {
    data1_fits = omega arith;
    data2_fits = omega arith;
    data3_fits = omega arith;
    data4_length = refl;
  };
  characters = ((omega arith, refl), ((refl, refl), tt));
  name_fits = omega arith;
  data_fits = omega arith;
  allocates = omega arith;
}

boot-encode :
    decode_event_data_efi_variable toy_runtime (encode_variable guid name (1 ∷ 2 ∷ []) ++ 5 ∷ [])
    ≡ ok (
      efi_variable (record {
        bytes = encode_variable guid name (1 ∷ 2 ∷ []) ++ 5 ∷ [];
        variable_name = guid;
        unicode_name = convert_utf16_to_string (all_units name);
        variable_data = 1 ∷ 2 ∷ [];
      }),
      1,
    )
boot-encode =
    decode_event_data_efi_variable-encode toy_runtime guid name (1 ∷ 2 ∷ []) (5 ∷ [])
      boot-IsVariableData

name-IsWhole : All IsWhole name
name-IsWhole = ((omega arith, refl), ((refl, refl), tt))

boot-decode :
    (e : EfiVariableEventData) × (decode_event_data_efi_variable toy_runtime
        (encode_variable guid name (1 ∷ 2 ∷ []) ++ 5 ∷ [])
      ≡ ok (efi_variable e, 1))
    × (encode_measured_bytes e ≡ encode_variable guid name (1 ∷ 2 ∷ []))
boot-decode =
    encode_measured_bytes-decode toy_runtime guid name (1 ∷ 2 ∷ []) (5 ∷ []) boot-IsVariableData
      name-IsWhole

stub-decode :
    (str : Bytes) × (decode_event_data_systemd_efi_stub (unit_bytes (all_units name) ++ 0 ∷ [])
      ≡ ok (systemd_efi_stub (unit_bytes (all_units name) ++ 0 ∷ []) str))
    × (encode_stub_measured_bytes str ≡ unit_bytes (all_units name) ++ 0 ∷ 0 ∷ [])
    × (determine_measured_bytes EventType.ipl
          (systemd_efi_stub (unit_bytes (all_units name) ++ 0 ∷ []) str)
          false
        ≡ (some (encode_stub_measured_bytes str), false))
stub-decode = encode_stub_measured_bytes-decode EventType.ipl name name-IsWhole
