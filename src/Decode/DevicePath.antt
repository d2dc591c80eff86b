-- ===== src/Decode/DevicePath.antt =====
-- EFI device paths of efi.go: the text of each node, and the loop over the nodes.
use tcglog_parser.Common.{
  ℕ, zero, suc, ◌-◌, Option, none, some, [], ◌++◌, ltb, ◌==◌, if◌then◌else◌, length,
}
use tcglog_parser.Errors.{Result, ok, err, panic, ◌>>=◌, device_path_node_length}
use tcglog_parser.Go.Reader.{Bytes, read_full, read_uint}
mod Nodes
pub mod Terminates
use Nodes.{node_to_string}

-- decodeDevicePathNode behind its type and sub type: the length, the data and the switch.
unfoldable pub decode_node_body : ℕ → Bytes → Result (Bytes × Bytes)
decode_node_body t s1 = do
  (sub_type, s2) ← read_uint 1 s1
  (len, s3) ← read_uint 2 s2
  _ ← if ltb len 4 then err (device_path_node_length len) else ok (tt {0})
  (d, s4) ← read_full (len - 4) s3
  text ← node_to_string t sub_type d
  ok (text, s4)

-- decodeDevicePathNode: the empty string at the end node, type 0x7f.
unfoldable pub decode_device_path_node : Bytes → Result (Bytes × Bytes)
decode_device_path_node s = do
  (t, s1) ← read_uint 1 s
  let body = decode_node_body t s1
  if t == 0x7f then ok ([], s1) else body

-- The loop of decodeDevicePath. Each node takes a byte at least, so one round more than there are
-- bytes is enough; `none` means that the rounds ran out.
unfoldable pub device_path_loop : ℕ → Bytes → Bytes → Option (Result Bytes)
device_path_loop zero s out = none
device_path_loop (suc fuel) s out = elim (decode_device_path_node s) [
  | ok (node, s') ↦
      let rest = device_path_loop fuel s' (out ++ node) in
      if length node == 0 then some (ok out) else rest
  | err e ↦ some (err e)
  | panic ↦ some panic
]

-- decodeDevicePath
unfoldable pub decode_device_path : Bytes → Option (Result Bytes)
decode_device_path d = device_path_loop (suc (length d)) d []
