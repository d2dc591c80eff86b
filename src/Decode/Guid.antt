-- ===== src/Decode/Guid.antt =====
-- Reading an EFI_GUID: the fields of the struct EFIGUID of efi.go, by one binary.Read.
use tcglog_parser.Common.{◌++◌, take, drop}
use tcglog_parser.Errors.{Result, ok, ◌>>=◌}
use tcglog_parser.Go.Reader.{Bytes, read_full, le_bytes, le_at}
use tcglog_parser.EventData.{EfiGuid}

-- The 16 bytes of the struct.
unfoldable pub guid_of : Bytes → EfiGuid
guid_of b = record {
  data1 = le_at 0 4 b;
  data2 = le_at 4 2 b;
  data3 = le_at 6 2 b;
  data4 = take 8 (drop 8 b);
}

unfoldable pub read_guid : Bytes → Result (EfiGuid × Bytes)
read_guid s = do (b, s') ← read_full 16 s; ok (guid_of b, s')

-- What binary.Write makes of the struct.
unfoldable pub guid_bytes : EfiGuid → Bytes
guid_bytes g = le_bytes 4 g.data1 ++ (le_bytes 2 g.data2 ++ (le_bytes 2 g.data3 ++ g.data4))
