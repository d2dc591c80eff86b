-- ===== src/Decode/SpecId.antt =====
-- The Spec ID event: tcgeventdata.go (decodeSpecIdEvent, parsePCClientSpecIdEvent) and efi.go
-- (parseEFI_1_2_SpecIdEvent, parseEFI_2_SpecIdEvent).
use tcglog_parser.Common.{ℕ, zero, suc, ◌*◌, List, [], ◌∷◌, ◌==◌, if◌then◌else◌, drop}
use tcglog_parser.Errors.{
  Error, Result, ok, err, panic, ◌>>=◌, eof, invalid_spec_id_event, not_enough_data, read_failed,
  no_algorithms, digest_size_mismatch,
}
use tcglog_parser.Go.Reader.{Bytes, read_full, le_at, read_uint}
use tcglog_parser.Go.Runtime.{Runtime, make}
use tcglog_parser.Types.{spec_unknown, spec_pc_client, spec_efi_1_2, spec_efi_2}
use tcglog_parser.Types.Algorithm
use tcglog_parser.EventData.{AlgorithmSize, SpecIdEventData}

unfoldable pub wrap_spec_id_event_read_error : Error → Error
wrap_spec_id_event_read_error eof = invalid_spec_id_event not_enough_data
wrap_spec_id_event_read_error e = invalid_spec_id_event (read_failed e)

-- A read whose error is wrapped.
unfoldable pub wrapped : {A : Type 0} → Result A → Result A
wrapped (ok a) = ok a
wrapped (err e) = err (wrap_spec_id_event_read_error e)
wrapped panic = panic

-- vendorInfoSize and vendorInfo
unfoldable pub read_vendor_info : Bytes → Result (Bytes × Bytes)
read_vendor_info s = do
  (vendor_info_size, s') ← wrapped (read_uint 1 s)
  wrapped (read_full vendor_info_size s')

unfoldable pub parse_pc_client_spec_id_event : Bytes → SpecIdEventData → Result SpecIdEventData
parse_pc_client_spec_id_event s d = do
  (v, _) ← read_vendor_info s
  ok (record d { spec = spec_pc_client; vendor_info = v })

unfoldable pub parse_efi_1_2_spec_id_event : Bytes → SpecIdEventData → Result SpecIdEventData
parse_efi_1_2_spec_id_event s d = do
  (v, _) ← read_vendor_info s
  ok (record d { spec = spec_efi_1_2; vendor_info = v })

-- `n` pairs of an algorithm and a digest size from a buffer.
unfoldable pub algorithm_sizes : ℕ → Bytes → List AlgorithmSize
algorithm_sizes zero b = []
algorithm_sizes (suc n) b =
    record { algorithm_id = le_at 0 2 b; digest_size = le_at 2 2 b } ∷ algorithm_sizes n (drop 4 b)

-- The loop over eventData.DigestSizes.
unfoldable pub check_digest_sizes : List AlgorithmSize → Result (Unit {0})
check_digest_sizes [] = ok tt
check_digest_sizes (d ∷ ds) =
    let rest = check_digest_sizes ds in
    let check = λ (n : ℕ).
      if n == d.digest_size
      then rest
      else err (invalid_spec_id_event (digest_size_mismatch d.algorithm_id d.digest_size n)) in
    if Algorithm.supported d.algorithm_id then Algorithm.size d.algorithm_id >>= check else rest

unfoldable pub parse_efi_2_spec_id_event :
    Runtime → Bytes → SpecIdEventData → Result SpecIdEventData
parse_efi_2_spec_id_event rt s d = do
  (number_of_algorithms, s1) ← wrapped (read_uint 4 s)
  _ ← if number_of_algorithms == 0 then err (invalid_spec_id_event no_algorithms) else ok (tt {0})
  _ ← make rt 4 number_of_algorithms
  (b, s2) ← wrapped (read_full (4 * number_of_algorithms) s1)
  let sizes = algorithm_sizes number_of_algorithms b
  _ ← check_digest_sizes sizes
  (v, _) ← read_vendor_info s2
  ok (record d { spec = spec_efi_2; digest_sizes = sizes; vendor_info = v })

-- The common fields, then the rest by `helper`.
unfoldable pub decode_spec_id_event :
    Bytes → Bytes → (Bytes → SpecIdEventData → Result SpecIdEventData) → Result SpecIdEventData
decode_spec_id_event s bytes helper = do
  (common, s') ← wrapped (read_full 8 s)
  helper s' (record {
    bytes = bytes;
    spec = spec_unknown;
    platform_class = le_at 0 4 common;
    spec_version_minor = le_at 4 1 common;
    spec_version_major = le_at 5 1 common;
    spec_errata = le_at 6 1 common;
    uintn_size = le_at 7 1 common;
    digest_sizes = [];
    vendor_info = [];
  })
