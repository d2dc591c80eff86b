-- ===== src/Tests/Replay.antt =====
-- Replays of the small log, and what the theorems on replays say of it.
use tcglog_parser.Common.{
  ℕ, ◌≡◌, refl, ◌≢◌, Option, none, some, [], ◌∷◌, arith, ◌⊎◌, replicate, lookup, insert, IsMap,
}
use tcglog_parser.Errors.{ok}
use tcglog_parser.Go.Reader.{Bytes, read_full, le, le_at, le_bytes, read_uint}
use tcglog_parser.Go.Runtime.{Hash, make, hash_sum, hash_size, toy_runtime}
use tcglog_parser.Go.Text.{equal}
use tcglog_parser.Types.Algorithm
use tcglog_parser.Decode.Dispatch.{decode_event_data_tcg, decode_event_data_impl, decode_event_data}
use tcglog_parser.Log.Format.{
  reading, is_pcr_index_in_range, is_digest_of_separator_error_value, wrap_log_read_error,
  check_pcr_index, read_event_bytes, finish_event, read_next_event_1_2, digest_of,
}
use tcglog_parser.Log.{
  advance, read_next_event, Log, zero_digest, add_zero_digests, fixup_spec_id_event, next_index,
  accept, settle, next_event, supported_algorithms, log_for, new_log,
}
use tcglog_parser.Validate.Check.{
  unknown, Validator, does_event_type_extend_pcr, perform_hash_extend_operation,
  determine_measured_bytes, is_expected_digest_value, trailing_loop, try_behaviour, behaviour_loop,
  record_verdict, check_known, check_unknown, check_digest, check_digests_loop, check_event_digests,
}
use tcglog_parser.Validate.Check.Trailing.{IsLongestFit, trailing_loop-IsLongestFit}
use tcglog_parser.Validate.Check.Unreported.{check_event_digests-unreported}
use tcglog_parser.Validate.Replay.{
  initial_digests, pcr_values, extend, process_event, round, run, new_validator,
  replay_and_validate_log,
}
use tcglog_parser.Validate.Refinement.{process_event-Agrees}
use tcglog_parser.Validate.Refinement.Values.{Agrees}
use tcglog_parser.Validate.Terminates.{replay_and_validate_log-ne-none}
use tcglog_parser.Validate.Correct.{IsResultOf, replay_and_validate_log-IsResultOf}
use tcglog_parser.Tests.Data.{
  plain, code_event, file, result, checked_code, first_value, checked_zeros, zeros_event,
  zeros_digest,
}

pub replay_file : replay_and_validate_log toy_runtime file plain ≡ some (ok result)
unfolding decode_event_data decode_event_data_impl decode_event_data_tcg reading wrap_log_read_error
    read_full le le_at le_bytes read_uint make hash_sum hash_size equal is_pcr_index_in_range
    is_digest_of_separator_error_value check_pcr_index read_event_bytes finish_event
    read_next_event_1_2 Algorithm.size Algorithm.hash Algorithm.get_hash Algorithm.supported lookup
    insert advance read_next_event zero_digest add_zero_digests fixup_spec_id_event next_index
    accept settle next_event supported_algorithms log_for new_log does_event_type_extend_pcr
    perform_hash_extend_operation determine_measured_bytes is_expected_digest_value trailing_loop
    try_behaviour behaviour_loop record_verdict check_known check_unknown check_digest
    check_digests_loop check_event_digests initial_digests pcr_values extend process_event round run
    replay_and_validate_log digest_of
replay_file = refl

replay_file-IsResultOf :
    (l : Log) × (new_log toy_runtime file plain ≡ ok l) × IsResultOf toy_runtime l result
replay_file-IsResultOf = replay_and_validate_log-IsResultOf toy_runtime file plain replay_file

replay_file-ne-none : replay_and_validate_log toy_runtime file plain ≢ none
replay_file-ne-none = replay_and_validate_log-ne-none toy_runtime file plain

abbrev second : Validator
second = record {
  expected_pcr_values = (0, (Algorithm.sha1, first_value) ∷ []) ∷ [];
  efi_boot_variable_behaviour = unknown;
  validated_events = checked_code ∷ [];
}

process_code :
    process_event toy_runtime (Algorithm.sha1 ∷ []) new_validator code_event 0 ≡ ok second
unfolding decode_event_data decode_event_data_impl decode_event_data_tcg reading wrap_log_read_error
    read_full le le_at le_bytes read_uint make hash_sum hash_size equal is_pcr_index_in_range
    is_digest_of_separator_error_value check_pcr_index read_event_bytes finish_event
    read_next_event_1_2 Algorithm.size Algorithm.hash Algorithm.get_hash Algorithm.supported lookup
    insert advance read_next_event zero_digest add_zero_digests fixup_spec_id_event next_index
    accept settle next_event supported_algorithms log_for new_log does_event_type_extend_pcr
    perform_hash_extend_operation determine_measured_bytes is_expected_digest_value trailing_loop
    try_behaviour behaviour_loop record_verdict check_known check_unknown check_digest
    check_digests_loop check_event_digests initial_digests pcr_values extend process_event round run
    replay_and_validate_log digest_of
process_code = refl

process_code-Agrees : Agrees toy_runtime (Algorithm.sha1 ∷ []) second
process_code-Agrees =
    process_event-Agrees toy_runtime (Algorithm.sha1 ∷ []) new_validator code_event 0 code_IsMap
      new_Agrees process_code
  where
    code_IsMap : IsMap code_event.digests
    code_IsMap = unfold lookup in (refl, tt)

    new_Agrees : Agrees toy_runtime (Algorithm.sha1 ∷ []) new_validator
    new_Agrees = unfold lookup in λ pcr. refl

check_zeros :
    check_event_digests toy_runtime 0 unknown
      (record checked_zeros { measured_bytes = []; measured_trailing_bytes_count = 0 })
      0
    ≡ ok (unknown, checked_zeros)
unfolding decode_event_data decode_event_data_impl decode_event_data_tcg reading wrap_log_read_error
    read_full le le_at le_bytes read_uint make hash_sum hash_size equal is_pcr_index_in_range
    is_digest_of_separator_error_value check_pcr_index read_event_bytes finish_event
    read_next_event_1_2 Algorithm.size Algorithm.hash Algorithm.get_hash Algorithm.supported lookup
    insert advance read_next_event zero_digest add_zero_digests fixup_spec_id_event next_index
    accept settle next_event supported_algorithms log_for new_log does_event_type_extend_pcr
    perform_hash_extend_operation determine_measured_bytes is_expected_digest_value trailing_loop
    try_behaviour behaviour_loop record_verdict check_known check_unknown check_digest
    check_digests_loop check_event_digests initial_digests pcr_values extend process_event round run
    replay_and_validate_log digest_of
check_zeros = refl

check_zeros-unreported :
    (toy_runtime.sum Hash.sha1 (replicate 4 0) ≡ zeros_digest)
    ⊎ (toy_runtime.sum Hash.sha1 [] ≡ zeros_digest)
unfolding Algorithm.get_hash
check_zeros-unreported =
    check_event_digests-unreported toy_runtime 0 unknown
      (record checked_zeros { measured_bytes = []; measured_trailing_bytes_count = 0 }) 0
      Algorithm.sha1 zeros_IsMap check_zeros refl (omega arith) zeros_found
  where
    zeros_IsMap : IsMap zeros_event.digests
    zeros_IsMap = unfold lookup in (refl, tt)

    zeros_found : lookup Algorithm.sha1 zeros_event.digests ≡ some zeros_digest
    zeros_found = unfold lookup in refl

-- Of the three bytes that were measured, the digest is that of the first one: two are left out.
abbrev one_byte : Bytes
one_byte = toy_runtime.sum Hash.sha1 (9 ∷ [])

trailing_loop_example :
    (o : Option (Bytes × ℕ)) × (trailing_loop toy_runtime one_byte Algorithm.sha1 (9 ∷ 8 ∷ 7 ∷ []) 2
      ≡ ok o)
    × IsLongestFit
        (toy_runtime.sum (Algorithm.get_hash Algorithm.sha1))
        one_byte
        (9 ∷ 8 ∷ 7 ∷ [])
        2
        o
trailing_loop_example =
    trailing_loop-IsLongestFit toy_runtime one_byte Algorithm.sha1 (9 ∷ 8 ∷ 7 ∷ []) 2
      (unfold Algorithm.supported Algorithm.get_hash in refl) (omega arith)
