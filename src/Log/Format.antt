-- ===== src/Log/Format.antt =====
-- The two log formats of log.go: `readNextEvent` of stream_1_2 and of stream_2. A stream is the bytes
-- that are left of it.
pub mod RoundTrip
pub mod Agile
pub mod Sound
pub mod Digests
pub mod Sizes
use tcglog_parser.Common.{
  ℕ, zero, suc, Bool, true, false, Option, none, some, List, [], ◌∷◌, leb, ◌==◌, if◌then◌else◌, Map,
  lookup, insert, keep_keys,
}
use tcglog_parser.Errors.{
  Error, Result, ok, err, panic, ◌>>=◌, eof, unexpected_eof, log_read, pcr_index_out_of_range,
  unrecognized_algorithm, duplicate_digest, missing_digest,
}
use tcglog_parser.Go.Reader.{Bytes, read_full, le_bytes, le_at, read_uint}
use tcglog_parser.Go.Runtime.{Runtime, make}
use tcglog_parser.Go.Text.{equal}
use tcglog_parser.Types.{LogOptions}
use tcglog_parser.Types.Algorithm
use tcglog_parser.EventData.{AlgorithmSize, EventData}
use tcglog_parser.Decode.Dispatch.{decode_event_data}

pub record Event : Type 0 where
  pub index : ℕ
  pub pcr_index : ℕ
  pub event_type : ℕ
  pub digests : Map Bytes
  pub content : EventData

abbrev pub max_pcr_index : ℕ
max_pcr_index = 31

-- separatorEventErrorValue
abbrev pub separator_event_error_value : ℕ
separator_event_error_value = 1

unfoldable pub is_pcr_index_in_range : ℕ → Bool
is_pcr_index_in_range index = leb index max_pcr_index

unfoldable pub is_digest_of_separator_error_value : Runtime → Bytes → ℕ → Result Bool
is_digest_of_separator_error_value rt digest alg = do
  h ← Algorithm.hash rt alg (le_bytes 4 separator_event_error_value)
  ok (equal digest h)

unfoldable pub wrap_log_read_error : Error → Bool → Error
wrap_log_read_error eof false = eof
wrap_log_read_error eof true = log_read unexpected_eof
wrap_log_read_error e _ = log_read e

-- A read whose error is wrapped.
unfoldable pub reading {ℓ} : {A : Type ℓ} → Bool → Result A → Result A
reading partial (ok a) = ok a
reading partial (err e) = err (wrap_log_read_error e partial)
reading partial panic = panic

unfoldable pub check_pcr_index : ℕ → Result (Unit {0})
check_pcr_index pcr = if is_pcr_index_in_range pcr then ok tt else err (pcr_index_out_of_range pcr)

-- The event size and the event, at the end of both formats.
unfoldable pub read_event_bytes : Runtime → Bytes → Result (Bytes × Bytes)
read_event_bytes rt s = do
  (event_size, s1) ← reading true (read_uint 4 s)
  _ ← make rt 1 event_size
  reading true (read_full event_size s1)

-- The event with its decoded data, the count of trailing bytes, and the stream behind it.
unfoldable pub finish_event :
    Runtime → LogOptions → ℕ → ℕ → Map Bytes → Bytes → ℕ → Bytes → Result (Event × ℕ × Bytes)
finish_event rt options pcr event_type digests digest alg s = do
  (event, s') ← read_event_bytes rt s
  is_error ← is_digest_of_separator_error_value rt digest alg
  (content, trailing) ← decode_event_data rt pcr event_type event options is_error
  ok (
    record {
      index = 0;
      pcr_index = pcr;
      event_type = event_type;
      digests = digests;
      content = content;
    },
    trailing,
    s',
  )

-- stream_1_2.readNextEvent. `Read` of a section reader fails where it reads less than was asked
-- for, as `ReadFull` does.
unfoldable pub read_next_event_1_2 : Runtime → LogOptions → Bytes → Result (Event × ℕ × Bytes)
read_next_event_1_2 rt options s = do
  (header, s1) ← reading false (read_full 8 s)
  let pcr = le_at 0 4 header
  let event_type = le_at 4 4 header
  _ ← check_pcr_index pcr
  n ← Algorithm.size Algorithm.sha1
  (digest, s2) ← reading true (read_full n s1)
  finish_event rt options pcr event_type (insert Algorithm.sha1 digest []) digest Algorithm.sha1 s2

-- The inner loop over s.algSizes: the size of the first entry for the algorithm.
unfoldable pub find_digest_size : List AlgorithmSize → ℕ → Option ℕ
find_digest_size [] alg = none
find_digest_size (a ∷ l) alg =
    if a.algorithm_id == alg then some a.digest_size else find_digest_size l alg

abbrev pub recognized : ℕ → Option ℕ → Result ℕ
recognized alg (some n) = ok n
recognized alg none = err (unrecognized_algorithm alg)

-- The digest goes into the map, unless the map has one for its algorithm.
abbrev pub add_digest : ℕ → Bytes → Map Bytes → Option Bytes → Result (Map Bytes)
add_digest alg digest digests none = ok (insert alg digest digests)
add_digest alg digest digests (some _) = err (duplicate_digest alg)

-- One round of the loop over the digests of an event.
unfoldable pub read_digest : List AlgorithmSize → Map Bytes → Bytes → Result (Map Bytes × Bytes)
read_digest alg_sizes digests s = do
  (alg, s1) ← reading true (read_uint 2 s)
  size ← recognized alg (find_digest_size alg_sizes alg)
  (digest, s2) ← reading true (read_full size s1)
  digests' ← add_digest alg digest digests (lookup alg digests)
  ok (digests', s2)

-- The loop, `count` rounds.
unfoldable pub read_digests :
    List AlgorithmSize → ℕ → Map Bytes → Bytes → Result (Map Bytes × Bytes)
read_digests alg_sizes zero digests s = ok (digests, s)
read_digests alg_sizes (suc count) digests s = do
  (digests', s') ← read_digest alg_sizes digests s
  read_digests alg_sizes count digests' s'

-- Every algorithm of the Spec ID event has a digest.
unfoldable pub check_digests : List AlgorithmSize → Map Bytes → Result (Unit {0})
check_digests [] digests = ok tt
check_digests (a ∷ l) digests =
    let rest = check_digests l digests in
    elim (lookup a.algorithm_id digests) [
      | some _ ↦ rest
      | none ↦ err (missing_digest a.algorithm_id)
    ]

-- s.algSizes[0].AlgorithmId, which panics where there is none.
unfoldable pub first_algorithm : List AlgorithmSize → Result ℕ
first_algorithm [] = panic
first_algorithm (a ∷ _) = ok a.algorithm_id

-- m[k], where a missing key gives the nil slice.
unfoldable pub digest_of : ℕ → Map Bytes → Bytes
digest_of k m = elim (lookup k m) [ some d ↦ d | none ↦ [] ]

-- stream_2.readNextEvent behind the first event.
unfoldable pub read_next_event_2 :
    Runtime → LogOptions → List AlgorithmSize → Bytes → Result (Event × ℕ × Bytes)
read_next_event_2 rt options alg_sizes s = do
  (header, s1) ← reading false (read_full 12 s)
  let pcr = le_at 0 4 header
  let event_type = le_at 4 4 header
  _ ← check_pcr_index pcr
  (all_digests, s2) ← read_digests alg_sizes (le_at 8 4 header) [] s1
  _ ← check_digests alg_sizes all_digests
  let digests = keep_keys Algorithm.supported all_digests
  alg ← first_algorithm alg_sizes
  finish_event rt options pcr event_type digests (digest_of alg digests) alg s2
