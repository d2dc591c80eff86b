-- ===== src/Decode/Variable.antt =====
-- EFI variable events of efi.go: extractUTF16Buffer, decodeEventDataEFIVariable and the encoder
-- EncodeMeasuredBytes.
pub mod RoundTrip
pub mod Measured
use tcglog_parser.Common.{ℕ, zero, suc, List, [], ◌∷◌, ◌++◌, if◌then◌else◌, length, drop}
use tcglog_parser.Errors.{Result, ok, ◌>>=◌}
use tcglog_parser.Go.Reader.{Bytes, read_full, le_bytes, read_uint}
use tcglog_parser.Go.Runtime.{Runtime, make}
use tcglog_parser.Go.Unicode.{within}
use tcglog_parser.EventData.{EfiVariableEventData, EventData, efi_variable}
use tcglog_parser.Utils.{convert_string_to_utf16, convert_utf16_to_string, unit_bytes}
use tcglog_parser.Go.Unicode.{rune_count}
use tcglog_parser.Decode.Guid.{read_guid, guid_bytes}

-- One round of the loop: the units of one character, and the stream behind it. After a high
-- surrogate with no low surrogate the code seeks back one byte of the two that it read.
unfoldable pub extract_character : Bytes → Result (List ℕ × Bytes)
extract_character s = do
  (c, s1) ← read_uint 2 s
  let second = do
    (d, s2) ← read_uint 2 s1
    ok (if within 0xdc00 0xe000 d then (c ∷ d ∷ [], s2) else (c ∷ [], drop 1 s1))
  if within 0xd800 0xdc00 c then second else ok (c ∷ [], s1)

-- extractUTF16Buffer
unfoldable pub extract_utf16_buffer : ℕ → Bytes → Result (List ℕ × Bytes)
extract_utf16_buffer zero s = ok ([], s)
extract_utf16_buffer (suc n) s = do
  (c, s1) ← extract_character s
  (out, s2) ← extract_utf16_buffer n s1
  ok (c ++ out, s2)

-- decodeEventDataEFIVariableImpl: the data, and the number of bytes behind the structure.
unfoldable pub decode_event_data_efi_variable : Runtime → Bytes → Result (EventData × ℕ)
decode_event_data_efi_variable rt bytes = do
  (guid, s1) ← read_guid bytes
  (unicode_name_length, s2) ← read_uint 8 s1
  (variable_data_length, s3) ← read_uint 8 s2
  (utf16_name, s4) ← extract_utf16_buffer unicode_name_length s3
  _ ← make rt 1 variable_data_length
  (variable_data, s5) ← read_full variable_data_length s4
  let d : EfiVariableEventData = record {
    bytes = bytes;
    variable_name = guid;
    unicode_name = convert_utf16_to_string utf16_name;
    variable_data = variable_data;
  }
  ok (efi_variable d, length s5)

-- EFIVariableEventData.EncodeMeasuredBytes; the lengths are 64-bit numbers.
unfoldable pub encode_measured_bytes : EfiVariableEventData → Bytes
encode_measured_bytes e =
    guid_bytes e.variable_name
    ++ (le_bytes 8 (rune_count e.unicode_name)
        ++ (le_bytes 8 (length e.variable_data)
            ++ (unit_bytes (convert_string_to_utf16 e.unicode_name) ++ e.variable_data)))
