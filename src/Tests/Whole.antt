-- ===== src/Tests/Whole.antt =====
-- The small log as a list of events.
use tcglog_parser.Common.{refl, false, List, [], ◌∷◌, arith, replicate}
use tcglog_parser.Go.Reader.{le}
use tcglog_parser.Go.Runtime.{toy_runtime}
use tcglog_parser.Go.Text.{equal}
use tcglog_parser.Types.{spec_unknown}
use tcglog_parser.Types.Algorithm
use tcglog_parser.EventData.{AlgorithmSize, opaque, separator}
use tcglog_parser.Decode.Dispatch.{decode_event_data_tcg, decode_event_data_impl, decode_event_data}
use tcglog_parser.Log.{Log, log_for}
use tcglog_parser.Log.Whole.Agile.{AgileEntry}
use tcglog_parser.Log.Whole.{Entry, IsEntry, encode_log, events_from}
use tcglog_parser.Validate.Whole.{IsReplay, replay_and_validate_log-encode_log}
use tcglog_parser.Validate.Replay.{replay_and_validate_log}
use tcglog_parser.Tests.Data.{plain, code, code_digest, zeros, zeros_digest}

abbrev code_entry : Entry
code_entry = record {
  stored = code;
  digest = code_digest;
  content = opaque (65 ∷ 66 ∷ []);
  trailing = 0;
}

abbrev zeros_entry : Entry
zeros_entry = record {
  stored = zeros;
  digest = zeros_digest;
  content = separator (replicate 4 0) false;
  trailing = 0;
}

code-IsEntry : IsEntry toy_runtime plain code_entry
unfolding decode_event_data decode_event_data_impl decode_event_data_tcg equal
code-IsEntry = record {
  is_stored = record {
    pcr_in_range = omega arith;
    type_fits = omega arith;
    size_fits = omega arith;
    allocates = omega arith;
  };
  digest_size = refl;
  decodes = refl;
}

zeros-IsEntry : IsEntry toy_runtime plain zeros_entry
unfolding decode_event_data decode_event_data_impl decode_event_data_tcg equal le
zeros-IsEntry = record {
  is_stored = record {
    pcr_in_range = omega arith;
    type_fits = omega arith;
    size_fits = omega arith;
    allocates = omega arith;
  };
  digest_size = refl;
  decodes = refl;
}

abbrev two_entries : List Entry
two_entries = code_entry ∷ zeros_entry ∷ []

two_entries-IsReplay :
    IsReplay toy_runtime
      (events_from [] two_entries)
      (replay_and_validate_log toy_runtime (encode_log two_entries) plain)
two_entries-IsReplay =
    replay_and_validate_log-encode_log toy_runtime spec_unknown plain code_entry (zeros_entry ∷ [])
      (code-IsEntry, (zeros-IsEntry, tt)) (unfold log_for in refl)

-- A crypto-agile log with SHA-256 and with SM3, which has no hash function in the program.
abbrev sha256_size : AlgorithmSize
sha256_size = record { algorithm_id = Algorithm.sha256; digest_size = 32 }

abbrev sm3_size : AlgorithmSize
sm3_size = record { algorithm_id = 18; digest_size = 32 }

abbrev agile_entry : AgileEntry
agile_entry = record {
  stored = code;
  digests = (18, replicate 32 5) ∷ (Algorithm.sha256, replicate 32 6) ∷ [];
  is_error = false;
  content = opaque (65 ∷ 66 ∷ []);
  trailing = 0;
}
