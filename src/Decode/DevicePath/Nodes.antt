-- ===== src/Decode/DevicePath/Nodes.antt =====
-- The texts of device path nodes: efi.go, from firmwareDevicePathNodeToString to
-- relOffsetRangePathNodeToString, and the switch of decodeDevicePathNode.
use tcglog_parser.Common.{ℕ, ◌/◌, ◌%◌, ◌&&◌, ◌||◌, [], ◌++◌, ◌==◌, if◌then◌else◌, length, drop}
use tcglog_parser.Errors.{Result, ok, err, ◌>>=◌, invalid_firmware_sub_type}
use tcglog_parser.Go.Reader.{Bytes, read_full, le_at, read_uint, units}
use tcglog_parser.Go.Text.{codes, dec, hex, hex_padded, hex_bytes}
use tcglog_parser.EventData.{guid_to_string}
use tcglog_parser.Utils.{convert_utf16_to_string}
use tcglog_parser.Decode.Guid.{guid_of, read_guid}

-- firmwareDevicePathNodeToString: 0x06 is a firmware file, 0x07 a firmware volume.
unfoldable pub firmware_node_to_string : ℕ → Bytes → Result Bytes
firmware_node_to_string sub_type d = do
  (name, _) ← read_guid d
  if sub_type == 0x06
      then ok (codes "\\FvFile(" ++ (guid_to_string name ++ codes ")"))
      else if sub_type == 0x07
      then ok (codes "\\Fv(" ++ (guid_to_string name ++ codes ")"))
      else err (invalid_firmware_sub_type sub_type)

-- (0x%x)
abbrev pub hex0x : ℕ → Bytes
hex0x n = codes "0x" ++ hex n

unfoldable pub acpi_node_to_string : Bytes → Result Bytes
acpi_node_to_string d = do
  (hid, s1) ← read_uint 4 d
  (uid, _) ← read_uint 4 s1
  let id = hid / 65536
  ok (
      if hid % 65536 == 0x41d0
      then (if id == 0x0a03
          then codes "\\PciRoot(" ++ (hex0x uid ++ codes ")")
          else if id == 0x0a08
          then codes "\\PcieRoot(" ++ (hex0x uid ++ codes ")")
          else if id == 0x0604
          then codes "\\Floppy(" ++ (hex0x uid ++ codes ")")
          else codes "\\Acpi(PNP" ++ (hex_padded 4 id ++ (codes "," ++ (hex0x uid ++ codes ")"))))
      else codes "\\Acpi(0x" ++ (hex_padded 8 hid ++ (codes "," ++ (hex0x uid ++ codes ")"))))

unfoldable pub pci_node_to_string : Bytes → Result Bytes
pci_node_to_string d = do
  (function, s1) ← read_uint 1 d
  (device, _) ← read_uint 1 s1
  ok (codes "\\Pci(" ++ (hex0x device ++ (codes "," ++ (hex0x function ++ codes ")"))))

unfoldable pub lu_node_to_string : Bytes → Result Bytes
lu_node_to_string d = do (lun, _) ← read_uint 1 d; ok (codes "\\Unit(" ++ (hex0x lun ++ codes ")"))

-- The part of a hard drive node's text that depends on the signature type.
unfoldable pub hard_drive_signature : ℕ → ℕ → Bytes → Bytes
hard_drive_signature part_number sig_type sig =
    codes "\\HD("
    ++ (dec part_number
        ++ (if sig_type == 0x01
            then codes ",MBR,0x" ++ (hex_padded 8 (le_at 0 4 sig) ++ codes ",")
            else if sig_type == 0x02
            then codes ",GPT," ++ (guid_to_string (guid_of sig) ++ codes ",")
            else codes "," ++ (dec sig_type ++ codes ",0,")))

unfoldable pub hard_drive_node_to_string : Bytes → Result Bytes
hard_drive_node_to_string d = do
  (part_number, s1) ← read_uint 4 d
  (part_start, s2) ← read_uint 8 s1
  (part_size, s3) ← read_uint 8 s2
  (sig, s4) ← read_full 16 s3
  (part_format, s5) ← read_uint 1 s4
  (sig_type, _) ← read_uint 1 s5
  ok (
      hard_drive_signature part_number sig_type sig
      ++ (codes "0x"
          ++ (hex_padded 16 part_start
              ++ (codes ", 0x" ++ (hex_padded 16 part_size ++ codes ")")))))

unfoldable pub sata_node_to_string : Bytes → Result Bytes
sata_node_to_string d = do
  (hba_port_number, s1) ← read_uint 2 d
  (port_multiplier_port_number, s2) ← read_uint 2 s1
  (lun, _) ← read_uint 2 s2
  ok (
      codes "\\Sata("
      ++ (hex0x hba_port_number
          ++ (codes ","
              ++ (hex0x port_multiplier_port_number ++ (codes "," ++ (hex0x lun ++ codes ")"))))))

unfoldable pub file_path_node_to_string : Bytes → Bytes
file_path_node_to_string d = convert_utf16_to_string (units (length d / 2) d)

unfoldable pub rel_offset_range_node_to_string : Bytes → Result Bytes
rel_offset_range_node_to_string d = do
  (start, s1) ← read_uint 8 (drop 4 d)
  (end, _) ← read_uint 8 s1
  ok (codes "\\Offset(" ++ (hex0x start ++ (codes "," ++ (hex0x end ++ codes ")"))))

-- efiDevicePathNodeType.String
unfoldable pub node_type_to_string : ℕ → Bytes
node_type_to_string t =
    if t == 0x01
    then codes "HardwarePath"
    else if t == 0x02
    then codes "AcpiPath"
    else if t == 0x03
    then codes "Msg"
    else if t == 0x04
    then codes "MediaPath"
    else if t == 0x05
    then codes "BbsPath"
    else codes "Path[" ++ (hex_padded 2 t ++ codes "]")

-- The text of a node that the switch does not know.
unfoldable pub other_node_to_string : ℕ → ℕ → Bytes → Bytes
other_node_to_string t sub_type d =
    codes "\\"
    ++ (node_type_to_string t
        ++ (codes "("
            ++ (dec sub_type
                ++ ((if length d == 0 then [] else codes ", 0x" ++ hex_bytes d) ++ codes ")"))))

-- The switch on the type and the sub type.
unfoldable pub node_to_string : ℕ → ℕ → Bytes → Result Bytes
node_to_string t sub_type d =
    if t == 0x04 && (sub_type == 0x06 || sub_type == 0x07)
    then firmware_node_to_string sub_type d
    else if t == 0x04 && sub_type == 0x01
    then hard_drive_node_to_string d
    else if t == 0x04 && sub_type == 0x04
    then ok (file_path_node_to_string d)
    else if t == 0x04 && sub_type == 0x08
    then rel_offset_range_node_to_string d
    else if t == 0x02 && sub_type == 0x01
    then acpi_node_to_string d
    else if t == 0x01 && sub_type == 0x01
    then pci_node_to_string d
    else if t == 0x03 && sub_type == 0x11
    then lu_node_to_string d
    else if t == 0x03 && sub_type == 0x12
    then sata_node_to_string d
    else ok (other_node_to_string t sub_type d)
