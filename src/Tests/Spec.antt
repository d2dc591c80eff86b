-- ===== src/Tests/Spec.antt =====
-- A Spec ID event of the crypto-agile format.
use tcglog_parser.Common.{◌≡◌, refl, [], ◌∷◌, lookup, insert}
use tcglog_parser.Errors.{ok}
use tcglog_parser.Go.Reader.{Bytes, read_full, le, le_at, le_bytes, read_uint}
use tcglog_parser.Go.Runtime.{make, hash_sum, hash_size, toy_runtime}
use tcglog_parser.Go.Text.{equal}
use tcglog_parser.Types.{spec_unknown, spec_efi_2}
use tcglog_parser.Types.Algorithm
use tcglog_parser.EventData.{SpecIdEventData}
use tcglog_parser.Decode.Dispatch.{decode_event_data_tcg, decode_event_data_impl, decode_event_data}
use tcglog_parser.Log.Format.{
  reading, is_pcr_index_in_range, is_digest_of_separator_error_value, wrap_log_read_error,
  check_pcr_index, read_event_bytes, finish_event, read_next_event_1_2, find_digest_size,
}
use tcglog_parser.Decode.SpecId.{
  wrapped, read_vendor_info, algorithm_sizes, check_digest_sizes, parse_efi_2_spec_id_event,
}
use tcglog_parser.Log.Format.Sizes.{parse_efi_2_spec_id_event-size}

-- Behind the common fields: one algorithm, SHA-256, and no vendor information.
abbrev one_algorithm : Bytes
one_algorithm = 1 ∷ 0 ∷ 0 ∷ 0 ∷ 11 ∷ 0 ∷ 32 ∷ 0 ∷ 0 ∷ []

abbrev common : SpecIdEventData
common = record {
  bytes = [];
  spec = spec_unknown;
  platform_class = 0;
  spec_version_minor = 0;
  spec_version_major = 2;
  spec_errata = 0;
  uintn_size = 2;
  digest_sizes = [];
  vendor_info = [];
}

abbrev parsed : SpecIdEventData
parsed = record common {
  spec = spec_efi_2;
  digest_sizes = record { algorithm_id = 11; digest_size = 32 } ∷ [];
}

parse_one : parse_efi_2_spec_id_event toy_runtime one_algorithm common ≡ ok parsed
unfolding decode_event_data decode_event_data_impl decode_event_data_tcg reading wrap_log_read_error
    read_full le le_at le_bytes read_uint make hash_sum hash_size equal is_pcr_index_in_range
    is_digest_of_separator_error_value check_pcr_index read_event_bytes finish_event
    read_next_event_1_2 Algorithm.size Algorithm.hash Algorithm.get_hash Algorithm.supported lookup
    insert parse_efi_2_spec_id_event wrapped algorithm_sizes check_digest_sizes read_vendor_info
parse_one = refl

sha256-size : Algorithm.size Algorithm.sha256 ≡ ok 32
sha256-size =
    parse_efi_2_spec_id_event-size toy_runtime one_algorithm common Algorithm.sha256 32 parse_one
      (unfold find_digest_size in refl) (unfold Algorithm.supported Algorithm.get_hash in refl)
