-- ===== src/Validate/Whole.antt =====
-- Replaying a whole log of the old format that was written as a list of events.
use mathlib.Core.Path.{subst}
use mathlib.Core.List.{reverse-reverse}
use tcglog_parser.Common.{◌≡◌, sym, ap, ◌∙◌, true, some, List, [], ◌∷◌, All}
use tcglog_parser.Errors.{ok, ◌>>=◌, bind-ok, ok-injective}
use tcglog_parser.Go.Runtime.{Runtime}
use tcglog_parser.Types.{Spec, LogOptions}
use tcglog_parser.Types.Algorithm
use tcglog_parser.Log.Format.{Event, reading}
use tcglog_parser.Log.Format.RoundTrip.{read_next_event_1_2-encode}
use tcglog_parser.Log.{log_1_2, log_for, new_log}
use tcglog_parser.Log.Whole.{Entry, IsEntry, encode_log, events_from, encode_log-Returned}
use tcglog_parser.Validate.Check.{LogValidateResult}
use tcglog_parser.Validate.Replay.{Outcome, replay_and_validate_log}
use tcglog_parser.Validate.Correct.{replay_and_validate_log-IsResultOf}
use tcglog_parser.Validate.Live.{replay_and_validate_log-IsAnswer}
use tcglog_parser.Validate.Refinement.Values.{IsReplayed, events_of}

-- Opening a log looks at the data of its first event.
new_log-encode_log :
    (rt : Runtime) (options : LogOptions) (x : Entry) (entries : List Entry)
    → IsEntry rt options x
    → new_log rt (encode_log (x ∷ entries)) options
      ≡ log_for options (encode_log (x ∷ entries)) x.content
unfolding new_log reading
new_log-encode_log rt options x entries v =
    let file = encode_log (x ∷ entries) in
    let read =
      read_next_event_1_2-encode rt options x.stored x.digest (encode_log entries) v.is_stored
        v.digest_size
      ∙ bind-ok _ v.decodes in
    ap (λ r. reading true r >>= λ p. log_for options file p.0.content) read

-- A replay of a whole log.
pub record IsReplay (rt : Runtime) (events : List Event) (outcome : Outcome) : Type 0 where
  pub res : LogValidateResult
  pub succeeds : outcome ≡ some (ok res)
  pub same_events : events_of res.validated_events ≡ events
  pub replayed : IsReplayed rt (Algorithm.sha1 ∷ []) events res.expected_pcr_values

-- Replaying a file of well-formed events of the old format, written one behind the other, succeeds,
-- where the data of the first one makes the log one of the old format: the result holds exactly the
-- events that were written, in their order, and for each PCR that has events, and for no other, the
-- fold of the extend operation over the digests that were written for it.
pub replay_and_validate_log-encode_log :
    (rt : Runtime) (spec : Spec) (options : LogOptions) (x : Entry) (entries : List Entry)
    → All (IsEntry rt options) (x ∷ entries)
    → log_for options (encode_log (x ∷ entries)) x.content
      ≡ ok (log_1_2 spec options (encode_log (x ∷ entries)))
    → IsReplay rt
        (events_from [] (x ∷ entries))
        (replay_and_validate_log rt (encode_log (x ∷ entries)) options)
replay_and_validate_log-encode_log rt spec options x entries (v, h) first =
    let file = encode_log (x ∷ entries) in
    let events = events_from [] (x ∷ entries) in
    let opens = new_log-encode_log rt options x entries v ∙ first in
    let (end, returned, at_end) = encode_log-Returned rt spec options (x ∷ entries) (v, h) in
    let (res, succeeds, validated) =
      replay_and_validate_log-IsAnswer rt file options opens returned at_end in
    let (l, opens', result) = replay_and_validate_log-IsResultOf rt file options succeeds in
    let same_events : events_of res.validated_events ≡ events =
      validated ∙ reverse-reverse events in
    let same_log : l ≡ log_1_2 spec options file = ok-injective (sym opens' ∙ opens) in
    record {
      res = res;
      succeeds = succeeds;
      same_events = same_events;
      replayed =
          subst (λ es. IsReplayed rt (Algorithm.sha1 ∷ []) es res.expected_pcr_values) same_events
            (subst
              (λ algs. IsReplayed rt algs (events_of res.validated_events) res.expected_pcr_values)
              (ap (λ k. k.algorithms) same_log) result.replayed);
    }
