-- ===== src/Log/Whole/Agile.antt =====
-- A whole crypto-agile log: the events that were written are returned, and then its end.
use tcglog_parser.Common.{
  ℕ, ◌+◌, ◌%◌, ◌^◌, ◌≡◌, Bool, true, List, [], ◌∷◌, ◌++◌, Map, insert, keep_keys,
}
use tcglog_parser.Errors.{ok}
use tcglog_parser.Go.Reader.{Bytes}
use tcglog_parser.Go.Runtime.{Runtime}
use tcglog_parser.Types.{LogOptions}
use tcglog_parser.Types.Algorithm
use tcglog_parser.EventData.{AlgorithmSize, EventData}
use tcglog_parser.Decode.Dispatch.{decode_event_data}
use tcglog_parser.Log.Format.{Event, digest_of, is_digest_of_separator_error_value}
use tcglog_parser.Log.Format.RoundTrip.{Stored, IsStored}
use tcglog_parser.Log.Format.Agile.{encode_2, AreStored}
use tcglog_parser.Log.{Log, stream_2, fixup_spec_id_event, next_index, supported_algorithms, log_2}
use tcglog_parser.Log.State.{Returned}
use tcglog_parser.Log.Whole.{Entry}

-- An event as it is written behind the first one, with what its data decodes to.
pub record AgileEntry : Type 0 where
  pub stored : Stored
  pub digests : Map Bytes
  pub is_error : Bool
  pub content : EventData
  pub trailing : ℕ

module _ (rt : Runtime) (options : LogOptions) (a : AlgorithmSize) (l : List AlgorithmSize) where
  abbrev first_digest : Map Bytes → Bytes
  first_digest digests = digest_of a.algorithm_id (keep_keys Algorithm.supported digests)

  pub record IsAgileEntry (x : AgileEntry) : Type 0 where
    pub is_stored : IsStored rt x.stored
    pub are_stored : AreStored (a ∷ l) x.digests
    pub separates :
        is_digest_of_separator_error_value rt (first_digest x.digests) a.algorithm_id
        ≡ ok x.is_error
    pub decodes :
        decode_event_data rt x.stored.pcr_index x.stored.event_type x.stored.event options
          x.is_error
        ≡ ok (x.content, x.trailing)

  -- The part of the file behind the first event.
  abbrev pub encode_agile : List AgileEntry → Bytes
  encode_agile [] = []
  encode_agile (x ∷ entries) = encode_2 x.stored x.digests ++ encode_agile entries

  abbrev event_for : Stored → Map Bytes → EventData → ℕ → Event
  event_for e digests content i = record {
    index = i;
    pcr_index = e.pcr_index;
    event_type = e.event_type;
    digests = fixup_spec_id_event (supported_algorithms (a ∷ l)) content digests;
    content = content;
  }

  abbrev count : Stored → Map ℕ → Map ℕ
  count e tracker = insert e.pcr_index ((next_index e.pcr_index tracker + 1) % 2 ^ 64) tracker

  -- The events of the file, with the digests of supported algorithms, and with indices that are
  -- counted by PCR.
  abbrev pub agile_events : Map ℕ → List AgileEntry → List Event
  agile_events tracker [] = []
  agile_events tracker (x ∷ entries) =
      event_for x.stored (keep_keys Algorithm.supported x.digests) x.content
        (next_index x.stored.pcr_index tracker)
      ∷ agile_events (count x.stored tracker) entries

  abbrev pub whole_events : Entry → List AgileEntry → List Event
  whole_events first entries =
      event_for first.stored ((Algorithm.sha1, first.digest) ∷ []) first.content
        (next_index first.stored.pcr_index [])
      ∷ agile_events (count first.stored []) entries

  abbrev log_at : Bytes → Map ℕ → Log
  log_at s tracker = record (log_2 (a ∷ l) options s) {
    stream = stream_2 options (a ∷ l) true s;
    index_tracker = tracker;
  }

  record IsWhole (start : Log) (events : List Event) : Type 0 where
    end_tracker : Map ℕ
    returned : Returned rt start events (log_at [] end_tracker)
