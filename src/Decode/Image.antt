-- ===== src/Decode/Image.antt =====
-- EFI image load and GPT events of efi.go.
use tcglog_parser.Common.{
  ℕ, zero, suc, ◌*◌, ◌/◌, Option, none, some, List, [], ◌∷◌, ◌==◌, if◌then◌else◌, length, drop,
}
use tcglog_parser.Errors.{Result, ok, panic, ◌>>=◌}
use tcglog_parser.Go.Reader.{Bytes, read_full, read_uint, units}
use tcglog_parser.Go.Runtime.{Runtime, make}
use tcglog_parser.Go.Unicode.{utf16_decode, encode_runes}
use tcglog_parser.EventData.{EfiGptPartitionEntry, EventData, efi_image_load, efi_gpt}
use tcglog_parser.Decode.Guid.{read_guid}
use tcglog_parser.Decode.DevicePath.{decode_device_path}

-- The result of decodeDevicePath; its loop never runs out of rounds.
abbrev pub finished : Option (Result Bytes) → Result Bytes
finished none = panic
finished (some r) = r

-- decodeEventDataEFIImageLoadImpl
unfoldable pub decode_event_data_efi_image_load : Runtime → Bytes → Result EventData
decode_event_data_efi_image_load rt bytes = do
  (location_in_memory, s1) ← read_uint 8 bytes
  (length_in_memory, s2) ← read_uint 8 s1
  (link_time_address, s3) ← read_uint 8 s2
  (device_path_length, s4) ← read_uint 8 s3
  _ ← make rt 1 device_path_length
  (device_path_buf, _) ← read_full device_path_length s4
  path ← finished (decode_device_path device_path_buf)
  ok (
      efi_image_load (record {
        bytes = bytes;
        location_in_memory = location_in_memory;
        length_in_memory = length_in_memory;
        link_time_address = link_time_address;
        path = path;
      }))

-- The runes before the first zero.
unfoldable pub until_zero : List ℕ → List ℕ
until_zero [] = []
until_zero (r ∷ rs) = if r == 0 then [] else r ∷ until_zero rs

-- One partition entry from its bytes.
unfoldable pub decode_partition_entry : Bytes → Result EfiGptPartitionEntry
decode_partition_entry entry = do
  (type_guid, s1) ← read_guid entry
  (unique_guid, s2) ← read_guid s1
  let s3 = drop 24 s2
  let n = length s3 / 2
  (name_utf16, _) ← read_full (2 * n) s3
  ok (record {
    type_guid = type_guid;
    unique_guid = unique_guid;
    name = encode_runes (until_zero (utf16_decode (units n name_utf16)));
  })

-- The loop over the partition entries, `n` rounds.
unfoldable pub decode_partitions :
    Runtime → ℕ → ℕ → Bytes → Result (List EfiGptPartitionEntry × Bytes)
decode_partitions rt entry_size zero s = ok ([], s)
decode_partitions rt entry_size (suc n) s = do
  _ ← make rt 1 entry_size
  (entry_data, s1) ← read_full entry_size s
  p ← decode_partition_entry entry_data
  (ps, s2) ← decode_partitions rt entry_size n s1
  ok (p ∷ ps, s2)

-- decodeEventDataEFIGPTImpl: a Go efiGPTPartitionEntry takes 48 bytes. The field data is never set.
unfoldable pub decode_event_data_efi_gpt : Runtime → Bytes → Result (EventData × ℕ)
decode_event_data_efi_gpt rt bytes = do
  (disk_guid, s1) ← read_guid (drop 56 bytes)
  (part_entry_size, s2) ← read_uint 4 (drop 12 s1)
  (number_of_parts, s3) ← read_uint 8 (drop 4 s2)
  _ ← make rt 48 number_of_parts
  (partitions, s4) ← decode_partitions rt part_entry_size number_of_parts s3
  ok (efi_gpt (record { bytes = none; disk_guid = disk_guid; partitions = partitions }), length s4)
