-- ===== src/Tests/Read.antt =====
-- Events read from the bytes that store them, in both formats.
use tcglog_parser.Common.{
  ℕ, ◌≡◌, refl, true, false, List, [], ◌∷◌, ◌++◌, arith, replicate, Map, lookup, insert, keep_keys,
}
use tcglog_parser.Errors.{ok, panic, ◌>>=◌}
use tcglog_parser.Go.Reader.{Bytes, read_full, le, le_at, le_bytes, read_uint}
use tcglog_parser.Go.Runtime.{Hash, make, hash_sum, hash_size, toy_runtime}
use tcglog_parser.Go.Text.{equal}
use tcglog_parser.Types.{spec_efi_2}
use tcglog_parser.Types.Algorithm
use tcglog_parser.Types.EventType
use tcglog_parser.EventData.{AlgorithmSize, opaque}
use tcglog_parser.Decode.Dispatch.{decode_event_data_tcg, decode_event_data_impl, decode_event_data}
use tcglog_parser.Log.Format.{
  Event, reading, is_pcr_index_in_range, is_digest_of_separator_error_value, wrap_log_read_error,
  check_pcr_index, read_event_bytes, finish_event, read_next_event_1_2, find_digest_size,
  read_digest, read_digests, check_digests, digest_of, first_algorithm, read_next_event_2,
}
use tcglog_parser.Log.Format.RoundTrip.{
  IsStored, encode_1_2, decoded_event, read_next_event_1_2-encode,
}
use tcglog_parser.Log.Format.Agile.{
  encode_2, AreStored, read_next_event_2-encode, read_next_event_2-unsupported,
}
use tcglog_parser.Log.Format.Sound.{IsEvent, IsSha1, read_next_event_1_2-IsEvent}
use tcglog_parser.Log.Format.Digests.{AreAgile, read_next_event_2-IsEvent}
use tcglog_parser.Log.{
  stream_2, advance, read_next_event, Log, zero_digest, add_zero_digests, fixup_spec_id_event,
  next_index, accept, settle, next_event, supported_algorithms, log_for, new_log,
}
use tcglog_parser.Log.Banks.{HasDigest, next_event-HasDigest}
use tcglog_parser.Decode.SpecId.{check_digest_sizes}
use tcglog_parser.Tests.Data.{plain, code, code_digest, code_event}

code-IsStored : IsStored toy_runtime code
code-IsStored = record {
  pcr_in_range = omega arith;
  type_fits = omega arith;
  size_fits = omega arith;
  allocates = omega arith;
}

read_code-encode : read_next_event_1_2 toy_runtime plain (encode_1_2 code code_digest ++ 1 ∷ []) ≡ (
    decode_event_data toy_runtime 0 EventType.post_code
      (65 ∷ 66 ∷ [])
      plain
      (equal code_digest (toy_runtime.sum Hash.sha1 (1 ∷ 0 ∷ 0 ∷ 0 ∷ [])))
    >>= decoded_event code ((Algorithm.sha1, code_digest) ∷ []) (1 ∷ []))
read_code-encode =
    read_next_event_1_2-encode toy_runtime plain code code_digest (1 ∷ []) code-IsStored refl

read_code :
    read_next_event_1_2 toy_runtime plain (encode_1_2 code code_digest ++ 1 ∷ [])
    ≡ ok (code_event, 0, 1 ∷ [])
unfolding decode_event_data decode_event_data_impl decode_event_data_tcg reading wrap_log_read_error
    read_full le le_at le_bytes read_uint make hash_sum hash_size equal is_pcr_index_in_range
    is_digest_of_separator_error_value check_pcr_index read_event_bytes finish_event
    read_next_event_1_2 Algorithm.size Algorithm.hash Algorithm.get_hash Algorithm.supported lookup
    insert
read_code = refl

read_code-IsEvent :
    IsEvent IsSha1 toy_runtime plain (encode_1_2 code code_digest ++ 1 ∷ []) code_event 0 (1 ∷ [])
read_code-IsEvent =
    read_next_event_1_2-IsEvent toy_runtime plain (encode_1_2 code code_digest ++ 1 ∷ []) read_code

-- A crypto-agile log with SHA-256, and with SM3 as an algorithm that is not supported.
abbrev sha256_size : AlgorithmSize
sha256_size = record { algorithm_id = Algorithm.sha256; digest_size = 32 }

abbrev sm3_size : AlgorithmSize
sm3_size = record { algorithm_id = 18; digest_size = 32 }

abbrev digests : Map Bytes
digests = (18, replicate 32 5) ∷ (Algorithm.sha256, replicate 32 6) ∷ []

abbrev sizes : List AlgorithmSize
sizes = sha256_size ∷ sm3_size ∷ []

digests-AreStored : AreStored sizes digests
unfolding lookup find_digest_size
digests-AreStored = record {
  few = omega arith;
  distinct = (refl, (refl, tt));
  sized = ((omega arith, refl), ((omega arith, refl), tt));
  has_all = ((replicate 32 6, refl), ((replicate 32 5, refl), tt));
}

digests-AreStored_reverse : AreStored (sm3_size ∷ sha256_size ∷ []) digests
unfolding lookup find_digest_size
digests-AreStored_reverse = record {
  few = omega arith;
  distinct = (refl, (refl, tt));
  sized = ((omega arith, refl), ((omega arith, refl), tt));
  has_all = ((replicate 32 5, refl), ((replicate 32 6, refl), tt));
}

abbrev kept : Map Bytes
kept = (Algorithm.sha256, replicate 32 6) ∷ []

no_error :
    is_digest_of_separator_error_value toy_runtime
      (digest_of Algorithm.sha256 (keep_keys Algorithm.supported digests))
      Algorithm.sha256
    ≡ ok false
unfolding decode_event_data decode_event_data_impl decode_event_data_tcg reading wrap_log_read_error
    read_full le le_at le_bytes read_uint make hash_sum hash_size equal is_pcr_index_in_range
    is_digest_of_separator_error_value check_pcr_index read_event_bytes finish_event
    read_next_event_1_2 Algorithm.size Algorithm.hash Algorithm.get_hash Algorithm.supported lookup
    insert find_digest_size read_digest read_digests check_digests digest_of read_next_event_2
    keep_keys first_algorithm
no_error = refl

read_agile-encode : read_next_event_2 toy_runtime plain sizes (encode_2 code digests ++ []) ≡ (
    decode_event_data toy_runtime 0 EventType.post_code (65 ∷ 66 ∷ []) plain false
    >>= decoded_event code (keep_keys Algorithm.supported digests) [])
read_agile-encode =
    read_next_event_2-encode toy_runtime plain sha256_size (sm3_size ∷ []) code digests []
      code-IsStored digests-AreStored no_error

read_agile-unsupported :
    read_next_event_2 toy_runtime plain (sm3_size ∷ sha256_size ∷ []) (encode_2 code digests ++ [])
    ≡ panic
read_agile-unsupported =
    read_next_event_2-unsupported toy_runtime plain sm3_size (sha256_size ∷ []) code digests []
      code-IsStored digests-AreStored_reverse
      (unfold Algorithm.supported Algorithm.get_hash in refl)

abbrev agile_event : Event
agile_event = record {
  index = 0;
  pcr_index = 0;
  event_type = EventType.post_code;
  digests = kept;
  content = opaque (65 ∷ 66 ∷ []);
}

read_agile :
    read_next_event_2 toy_runtime plain sizes (encode_2 code digests ++ [])
    ≡ ok (agile_event, 0, [])
unfolding decode_event_data decode_event_data_impl decode_event_data_tcg reading wrap_log_read_error
    read_full le le_at le_bytes read_uint make hash_sum hash_size equal is_pcr_index_in_range
    is_digest_of_separator_error_value check_pcr_index read_event_bytes finish_event
    read_next_event_1_2 Algorithm.size Algorithm.hash Algorithm.get_hash Algorithm.supported lookup
    insert find_digest_size read_digest read_digests check_digests digest_of read_next_event_2
    keep_keys first_algorithm
read_agile = refl

read_agile-IsEvent :
    IsEvent (AreAgile sizes) toy_runtime plain (encode_2 code digests ++ []) agile_event 0 []
read_agile-IsEvent =
    read_next_event_2-IsEvent toy_runtime plain sizes (encode_2 code digests ++ []) read_agile

abbrev agile_log : Bytes → Map ℕ → Log
agile_log s tracker = record {
  spec = spec_efi_2;
  algorithms = Algorithm.sha256 ∷ [];
  stream = stream_2 plain sizes true s;
  failed = false;
  index_tracker = tracker;
}

agile_step :
    next_event toy_runtime (agile_log (encode_2 code digests) [])
    ≡ (agile_log [] ((0, 1) ∷ []), ok (agile_event, 0))
unfolding decode_event_data decode_event_data_impl decode_event_data_tcg reading wrap_log_read_error
    read_full le le_at le_bytes read_uint make hash_sum hash_size equal is_pcr_index_in_range
    is_digest_of_separator_error_value check_pcr_index read_event_bytes finish_event
    read_next_event_1_2 Algorithm.size Algorithm.hash Algorithm.get_hash Algorithm.supported lookup
    insert find_digest_size read_digest read_digests check_digests digest_of read_next_event_2
    keep_keys first_algorithm advance read_next_event zero_digest add_zero_digests
    fixup_spec_id_event next_index accept settle next_event supported_algorithms log_for new_log
agile_step = refl

agile_step-HasDigest : HasDigest Algorithm.sha256 kept
agile_step-HasDigest =
    next_event-HasDigest toy_runtime (agile_log (encode_2 code digests) []) plain sizes
      (encode_2 code digests) Algorithm.sha256 refl supported_only sizes_checked
      (unfold Algorithm.contains in refl) agile_step
  where
    supported_only : Algorithm.sha256 ∷ [] ≡ supported_algorithms sizes
    supported_only = unfold supported_algorithms Algorithm.supported Algorithm.get_hash in refl

    sizes_checked : check_digest_sizes sizes ≡ ok tt
    sizes_checked =
        unfold check_digest_sizes Algorithm.supported Algorithm.get_hash Algorithm.size hash_size in
        refl
