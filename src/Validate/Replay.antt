-- ===== src/Validate/Replay.antt =====
-- validate.go: extending the PCRs by the events of a log, and the loop over the log.
use tcglog_parser.Common.{
  ℕ, zero, suc, ◌+◌, ◌*◌, Option, none, some, List, [], ◌∷◌, ◌++◌, if◌then◌else◌, length, replicate,
  Map, lookup, insert,
}
use tcglog_parser.Errors.{Result, ok, err, panic, ◌>>=◌}
use tcglog_parser.Go.Reader.{Bytes}
use tcglog_parser.Go.Runtime.{Runtime}
use tcglog_parser.Types.{LogOptions}
use tcglog_parser.Types.Algorithm
use tcglog_parser.Log.{Log, next_event, new_log, is_eof}
use tcglog_parser.Log.Format.{Event, digest_of}
use tcglog_parser.Validate.Check.{
  unknown, ValidatedEvent, LogValidateResult, Validator, does_event_type_extend_pcr,
  perform_hash_extend_operation, check_event_digests,
}

-- make(Digest, alg.size()) for each algorithm of the log.
unfoldable pub initial_digests : List ℕ → Map Bytes → Result (Map Bytes)
initial_digests [] m = ok m
initial_digests (alg ∷ l) m = do
  n ← Algorithm.size alg
  initial_digests l (insert alg (replicate n 0) m)

-- The values of a PCR, which start as zeros when its first event is seen.
unfoldable pub pcr_values : List ℕ → ℕ → Map (Map Bytes) → Result (Map Bytes)
pcr_values algorithms pcr values = elim (lookup pcr values) [
  | some m ↦ ok m
  | none ↦ initial_digests algorithms []
]

-- The loop that extends the values of one PCR by the digests of an event.
unfoldable pub extend : Runtime → Map Bytes → Map Bytes → Result (Map Bytes)
extend rt [] m = ok m
extend rt ((alg, digest) ∷ l) m = do
  d ← perform_hash_extend_operation rt alg (digest_of alg m) digest
  extend rt l (insert alg d m)

abbrev pub unchecked : Event → ValidatedEvent
unchecked e = record {
  event = e;
  measured_bytes = [];
  measured_trailing_bytes_count = 0;
  incorrect_digest_values = [];
}

-- processEvent; the two loops range over the digests, each in an order of its own, which is counted
-- by the events so far.
unfoldable pub process_event : Runtime → List ℕ → Validator → Event → ℕ → Result Validator
process_event rt algorithms v e trailing = do
  let n = length v.validated_events
  m ← pcr_values algorithms e.pcr_index v.expected_pcr_values
  let skipped : Result Validator = ok (record v {
    expected_pcr_values = insert e.pcr_index m v.expected_pcr_values;
    validated_events = v.validated_events ++ (unchecked e ∷ []);
  })
  let extended = do
    m' ← extend rt (rt.range (2 * n) e.digests) m
    (known, ve) ←
        check_event_digests rt (2 * n + 1) v.efi_boot_variable_behaviour (unchecked e) trailing
    ok (record {
      expected_pcr_values = insert e.pcr_index m' v.expected_pcr_values;
      efi_boot_variable_behaviour = known;
      validated_events = v.validated_events ++ (ve ∷ []);
    })
  if does_event_type_extend_pcr e.event_type then extended else skipped

abbrev pub result_of : Log → Validator → LogValidateResult
result_of l v = record {
  efi_boot_variable_behaviour = v.efi_boot_variable_behaviour;
  validated_events = v.validated_events;
  spec = l.spec;
  algorithms = l.algorithms;
  expected_pcr_values = v.expected_pcr_values;
}

abbrev pub Outcome : Type 0
Outcome = Option (Result LogValidateResult)

-- What follows processEvent in a round: the next round, unless it panicked.
abbrev pub after_process : (Validator → Outcome) → Result Validator → Outcome
after_process more (ok v) = more v
after_process more (err x) = some (err x)
after_process more panic = some panic

-- One round of the loop behind its call of nextEventInternal, with the further rounds.
unfoldable pub round :
    Runtime → (Log → Validator → Outcome) → Validator → Log × Result (Event × ℕ) → Outcome
round rt more v (l, ok (e, trailing)) =
    after_process (more l) (process_event rt l.algorithms v e trailing)
round rt more v (l, err x) = some (if is_eof x then ok (result_of l v) else err x)
round rt more v (l, panic) = some panic

-- logValidator.run; `none` means that the rounds ran out.
unfoldable pub run : Runtime → ℕ → Log → Validator → Outcome
run rt zero l v = none
run rt (suc fuel) l v = round rt (run rt fuel) v (next_event rt l)

abbrev pub new_validator : Validator
new_validator = record {
  expected_pcr_values = [];
  efi_boot_variable_behaviour = unknown;
  validated_events = [];
}

abbrev pub after_open : (Log → Outcome) → Result Log → Outcome
after_open more (ok l) = more l
after_open more (err x) = some (err x)
after_open more panic = some panic

-- ReplayAndValidateLog on the bytes of the file. Each event takes a byte at least, so one round more
-- than there are bytes is enough.
unfoldable pub replay_and_validate_log : Runtime → Bytes → LogOptions → Outcome
replay_and_validate_log rt file options =
    after_open (λ l. run rt (suc (length file)) l new_validator) (new_log rt file options)
