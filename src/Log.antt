-- ===== src/Log.antt =====
-- log.go: a log is a stream with the state of its reader.
use tcglog_parser.Common.{
  ℕ, ◌+◌, ◌%◌, ◌^◌, Bool, true, false, not, none, some, List, [], ◌∷◌, ◌==◌, if◌then◌else◌,
  replicate, Map, lookup, insert,
}
use tcglog_parser.Errors.{
  Error, Result, ok, err, panic, ◌>>=◌, eof, previous_error, invalid_spec_id_event,
}
use tcglog_parser.Go.Reader.{Bytes}
use tcglog_parser.Go.Runtime.{Runtime}
use tcglog_parser.Types.{Spec, spec_unknown, spec_efi_2, LogOptions}
use tcglog_parser.Types.Algorithm
use tcglog_parser.EventData.{AlgorithmSize, EventData, broken, spec_id}
pub mod Format
pub mod State
pub mod Progress
pub mod Banks
pub mod Ready
pub mod Supported
pub mod Whole
use Format.{Event, reading, read_next_event_1_2, read_next_event_2}

-- The structs stream_1_2 and stream_2.
pub data Stream : Type 0 where
  stream_1_2 : LogOptions → Bytes → Stream
  stream_2 : LogOptions → List AlgorithmSize → (read_first_event : Bool) → Bytes → Stream

abbrev pub no_options : LogOptions
no_options = record {
  enable_grub = false;
  enable_systemd_efi_stub = false;
  systemd_efi_stub_pcr = 0;
}

-- The event and the stream behind it. After an error the position matters only at the end of the
-- log, where nothing was read.
unfoldable pub advance :
    (Bytes → Stream) → Bytes → Result (Event × ℕ × Bytes) → Stream × Result (Event × ℕ)
advance stream s (ok (e, n, s')) = (stream s', ok (e, n))
advance stream s (err e) = (stream s, err e)
advance stream s panic = (stream s, panic)

-- The interface method readNextEvent. The first event of a crypto-agile log is in the old format,
-- and is read with no options.
unfoldable pub read_next_event : Runtime → Stream → Stream × Result (Event × ℕ)
read_next_event rt (stream_1_2 options s) =
    advance (stream_1_2 options) s (read_next_event_1_2 rt options s)
read_next_event rt (stream_2 options alg_sizes false s) =
    advance (stream_2 options alg_sizes true) s (read_next_event_1_2 rt no_options s)
read_next_event rt (stream_2 options alg_sizes true s) =
    advance (stream_2 options alg_sizes true) s (read_next_event_2 rt options alg_sizes s)

pub record Log : Type 0 where
  pub spec : Spec
  pub algorithms : List ℕ
  pub stream : Stream
  pub failed : Bool
  pub index_tracker : Map ℕ

-- zeroDigests[alg]
unfoldable pub zero_digest : ℕ → Bytes
zero_digest alg = replicate (Algorithm.size_or_zero alg) 0

unfoldable pub add_zero_digests : List ℕ → Map Bytes → Map Bytes
add_zero_digests [] digests = digests
add_zero_digests (alg ∷ l) digests = add_zero_digests l (
    if alg == Algorithm.sha1 then digests else elim (lookup alg digests) [
      | some _ ↦ digests
      | none ↦ insert alg (zero_digest alg) digests
    ])

-- isSpecIdEvent and fixupSpecIdEvent in one: only the data of a Spec ID event is looked at.
unfoldable pub fixup_spec_id_event : List ℕ → EventData → Map Bytes → Map Bytes
fixup_spec_id_event algorithms (spec_id d) digests = elim d.spec [
  | spec_efi_2 ↦ add_zero_digests algorithms digests
  | _ ↦ digests
]
fixup_spec_id_event algorithms _ digests = digests

-- The index of the next event for a PCR, which the tracker holds: a 64-bit count.
unfoldable pub next_index : ℕ → Map ℕ → ℕ
next_index pcr tracker = elim (lookup pcr tracker) [ some i ↦ i | none ↦ 0 ]

-- The part of nextEventInternal behind a read that succeeded.
unfoldable pub accept : Log → Stream → Event → Log × Event
accept l stream e =
    let i = next_index e.pcr_index l.index_tracker in
    (
      record l {
        stream = stream;
        index_tracker = insert e.pcr_index ((i + 1) % 2 ^ 64) l.index_tracker;
      },
      record e { index = i; digests = fixup_spec_id_event l.algorithms e.content e.digests },
    )

abbrev pub is_eof : Error → Bool
is_eof eof = true
is_eof _ = false

unfoldable pub settle : Log → Stream × Result (Event × ℕ) → Log × Result (Event × ℕ)
settle l (stream, ok (e, trailing)) = let (l', e') = accept l stream e in (l', ok (e', trailing))
settle l (stream, err e) = (record l { stream = stream; failed = not (is_eof e) }, err e)
settle l (stream, panic) = (record l { stream = stream }, panic)

-- nextEventInternal
unfoldable pub next_event : Runtime → Log → Log × Result (Event × ℕ)
next_event rt l =
    if l.failed then (l, err previous_error) else settle l (read_next_event rt l.stream)

unfoldable pub supported_algorithms : List AlgorithmSize → List ℕ
supported_algorithms [] = []
supported_algorithms (a ∷ l) =
    if Algorithm.supported a.algorithm_id
    then a.algorithm_id ∷ supported_algorithms l
    else supported_algorithms l

-- A log of the old format, read again from its start.
abbrev pub log_1_2 : Spec → LogOptions → Bytes → Log
log_1_2 spec options r = record {
  spec = spec;
  algorithms = Algorithm.sha1 ∷ [];
  stream = stream_1_2 options r;
  failed = false;
  index_tracker = [];
}

-- A crypto-agile log, read again from its start.
abbrev pub log_2 : List AlgorithmSize → LogOptions → Bytes → Log
log_2 digest_sizes options r = record {
  spec = spec_efi_2;
  algorithms = supported_algorithms digest_sizes;
  stream = stream_2 options digest_sizes false r;
  failed = false;
  index_tracker = [];
}

-- The type switch of NewLog on the data of the first event.
unfoldable pub log_for : LogOptions → Bytes → EventData → Result Log
log_for options r (spec_id d) = elim d.spec [
  | spec_efi_2 ↦ ok (log_2 d.digest_sizes options r)
  | other ↦ ok (log_1_2 other options r)
]
log_for options r (broken _ (invalid_spec_id_event reason)) = err (invalid_spec_id_event reason)
log_for options r _ = ok (log_1_2 spec_unknown options r)

-- NewLog on the bytes of the file.
unfoldable pub new_log : Runtime → Bytes → LogOptions → Result Log
new_log rt r options = do
  (event, _, _) ← reading true (read_next_event_1_2 rt options r)
  log_for options r event.content

abbrev pub without_count : Log × Result (Event × ℕ) → Log × Result Event
without_count (l, ok (e, trailing)) = (l, ok e)
without_count (l, err x) = (l, err x)
without_count (l, panic) = (l, panic)

-- NextEvent: nextEventInternal without the count of trailing bytes.
unfoldable pub next_event_only : Runtime → Log → Log × Result Event
next_event_only rt l = without_count (next_event rt l)
