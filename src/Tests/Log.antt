-- ===== src/Tests/Log.antt =====
-- Runs of a log: indices, its progress, and the error that it remembers.
use tcglog_parser.Common.{
  ℕ, ◌≡◌, refl, true, false, [], ◌∷◌, ◌++◌, drop, replicate, Map, lookup, insert,
}
use tcglog_parser.Errors.{ok, err, eof, previous_error, pcr_index_out_of_range}
use tcglog_parser.Go.Reader.{Bytes, read_full, le, le_at, le_bytes, read_uint}
use tcglog_parser.Go.Runtime.{make, hash_sum, hash_size, toy_runtime}
use tcglog_parser.Go.Text.{equal}
use tcglog_parser.Types.{spec_unknown}
use tcglog_parser.Types.Algorithm
use tcglog_parser.Decode.Dispatch.{decode_event_data_tcg, decode_event_data_impl, decode_event_data}
use tcglog_parser.Log.Format.{
  reading, is_pcr_index_in_range, is_digest_of_separator_error_value, wrap_log_read_error,
  check_pcr_index, read_event_bytes, finish_event, read_next_event_1_2,
}
use tcglog_parser.Log.{
  stream_1_2, advance, read_next_event, Log, zero_digest, add_zero_digests, fixup_spec_id_event,
  next_index, accept, settle, next_event, supported_algorithms, log_for, new_log,
}
use tcglog_parser.Log.State.{none_yet, one_more, AreIndexed, next_event_failed, Returned-AreIndexed}
use tcglog_parser.Log.Progress.{NextOfLog, next_event-NextOfLog}
use tcglog_parser.Validate.Replay.{replay_and_validate_log}
use tcglog_parser.Validate.Live.{IsAnswer, replay_and_validate_log-IsAnswer}
use tcglog_parser.Tests.Data.{plain, file, code_event, zeros_event}

abbrev pub log_at : Bytes → Map ℕ → Log
log_at s tracker = record {
  spec = spec_unknown;
  algorithms = Algorithm.sha1 ∷ [];
  stream = stream_1_2 plain s;
  failed = false;
  index_tracker = tracker;
}

pub first_step :
    next_event toy_runtime (log_at file [])
    ≡ (log_at (drop 34 file) ((0, 1) ∷ []), ok (code_event, 0))
unfolding decode_event_data decode_event_data_impl decode_event_data_tcg reading wrap_log_read_error
    read_full le le_at le_bytes read_uint make hash_sum hash_size equal is_pcr_index_in_range
    is_digest_of_separator_error_value check_pcr_index read_event_bytes finish_event
    read_next_event_1_2 Algorithm.size Algorithm.hash Algorithm.get_hash Algorithm.supported lookup
    insert advance read_next_event zero_digest add_zero_digests fixup_spec_id_event next_index
    accept settle next_event supported_algorithms log_for new_log
first_step = refl

pub second_step :
    next_event toy_runtime (log_at (drop 34 file) ((0, 1) ∷ []))
    ≡ (log_at [] ((0, 2) ∷ []), ok (zeros_event, 0))
unfolding decode_event_data decode_event_data_impl decode_event_data_tcg reading wrap_log_read_error
    read_full le le_at le_bytes read_uint make hash_sum hash_size equal is_pcr_index_in_range
    is_digest_of_separator_error_value check_pcr_index read_event_bytes finish_event
    read_next_event_1_2 Algorithm.size Algorithm.hash Algorithm.get_hash Algorithm.supported lookup
    insert advance read_next_event zero_digest add_zero_digests fixup_spec_id_event next_index
    accept settle next_event supported_algorithms log_for new_log
second_step = refl

file-AreIndexed : AreIndexed (zeros_event ∷ code_event ∷ [])
file-AreIndexed =
    Returned-AreIndexed {rt = toy_runtime} {start = log_at file []} refl
      (one_more (one_more none_yet first_step) second_step)

file-NextOfLog : NextOfLog (log_at file []) (next_event toy_runtime (log_at file []))
file-NextOfLog = next_event-NextOfLog toy_runtime (log_at file [])

-- A log whose first event is of PCR 32.
abbrev bad : Bytes
bad = le_bytes 4 32 ++ replicate 60 0

bad_step :
    next_event toy_runtime (log_at bad [])
    ≡ (record (log_at bad []) { failed = true }, err (pcr_index_out_of_range 32))
unfolding decode_event_data decode_event_data_impl decode_event_data_tcg reading wrap_log_read_error
    read_full le le_at le_bytes read_uint make hash_sum hash_size equal is_pcr_index_in_range
    is_digest_of_separator_error_value check_pcr_index read_event_bytes finish_event
    read_next_event_1_2 Algorithm.size Algorithm.hash Algorithm.get_hash Algorithm.supported lookup
    insert advance read_next_event zero_digest add_zero_digests fixup_spec_id_event next_index
    accept settle next_event supported_algorithms log_for new_log
bad_step = refl

bad_failed :
    next_event toy_runtime (record (log_at bad []) { failed = true })
    ≡ (record (log_at bad []) { failed = true }, err previous_error)
bad_failed = next_event_failed toy_runtime (log_at bad []) bad_step refl

pub file_opens : new_log toy_runtime file plain ≡ ok (log_at file [])
unfolding decode_event_data decode_event_data_impl decode_event_data_tcg reading wrap_log_read_error
    read_full le le_at le_bytes read_uint make hash_sum hash_size equal is_pcr_index_in_range
    is_digest_of_separator_error_value check_pcr_index read_event_bytes finish_event
    read_next_event_1_2 Algorithm.size Algorithm.hash Algorithm.get_hash Algorithm.supported lookup
    insert advance read_next_event zero_digest add_zero_digests fixup_spec_id_event next_index
    accept settle next_event supported_algorithms log_for new_log
file_opens = refl

pub file_end : next_event toy_runtime (log_at [] ((0, 2) ∷ [])) ≡ (log_at [] ((0, 2) ∷ []), err eof)
unfolding decode_event_data decode_event_data_impl decode_event_data_tcg reading wrap_log_read_error
    read_full le le_at le_bytes read_uint make hash_sum hash_size equal is_pcr_index_in_range
    is_digest_of_separator_error_value check_pcr_index read_event_bytes finish_event
    read_next_event_1_2 Algorithm.size Algorithm.hash Algorithm.get_hash Algorithm.supported lookup
    insert advance read_next_event zero_digest add_zero_digests fixup_spec_id_event next_index
    accept settle next_event supported_algorithms log_for new_log
file_end = refl

file-IsAnswer :
    IsAnswer eof (zeros_event ∷ code_event ∷ []) (replay_and_validate_log toy_runtime file plain)
file-IsAnswer =
    replay_and_validate_log-IsAnswer toy_runtime file plain file_opens
      (one_more (one_more none_yet first_step) second_step) file_end
