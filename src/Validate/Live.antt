-- ===== src/Validate/Live.antt =====
-- The validator adds no failure of its own: a replay fails only where reading the log fails.
use mathlib.Core.Path.{subst}
use tcglog_parser.Common.{
  reverse, ℕ, zero, suc, ◌<◌, ◌≡◌, refl, sym, ap, ◌∙◌, Bool, true, false, some, List, [], ◌∷◌, ◌++◌,
  arith, if◌then◌else◌, length,
}
use tcglog_parser.Errors.{Error, ok, err}
use mathlib.Core.List.{reverse-cons}
use tcglog_parser.Validate.Correct.{process_event-events}
use tcglog_parser.Validate.Refinement.Values.{events_of}
use tcglog_parser.Go.Reader.{Bytes}
use tcglog_parser.Go.Runtime.{Runtime}
use tcglog_parser.Types.{LogOptions}
use tcglog_parser.Validate.Terminates.{new_log-remaining}
use tcglog_parser.Log.Format.{Event}
use tcglog_parser.Log.Ready.{next_event-IsReady, AllHash}
use tcglog_parser.Log.Supported.{new_log-AllHash}
use tcglog_parser.Validate.Check.{LogValidateResult, Validator}
use tcglog_parser.Log.{Log, is_eof, next_event, new_log}
use tcglog_parser.Log.State.{Returned, none_yet, one_more}
use tcglog_parser.Log.Progress.{remaining, NextOfLog, next_event-NextOfLog}
use tcglog_parser.Validate.Replay.{
  Outcome, after_process, round, run, result_of, new_validator, after_open, replay_and_validate_log,
}
use tcglog_parser.Validate.Succeeds.{process_event-Succeeds}

-- What holds of a run on its way: it goes on as the whole run does, with rounds enough for what is
-- left of the log, and has validated the events that were returned.
record IsUnderWay (rt : Runtime) (outcome : Outcome) (events : List Event) (l : Log) : Type 0 where
  fuel : ℕ
  v : Validator
  goes_on : outcome ≡ run rt fuel l v
  enough : length (remaining l.stream) < fuel
  all_hash : AllHash l.algorithms
  validated : events_of v.validated_events ≡ reverse events

round-err :
    (rt : Runtime) (more : Log → Validator → Outcome) (v : Validator) (l : Log) (x : Error)
    → round rt more v (l, err x) ≡ some (if is_eof x then ok (result_of l v) else err x)
unfolding round
round-err rt more v l x = refl

-- A further event.
step-IsUnderWay :
    (rt : Runtime) (outcome : Outcome) (events : List Event) (l l' : Log) (e : Event) (n : ℕ)
    → next_event rt l ≡ (l', ok (e, n))
    → IsUnderWay rt outcome events l
    → IsUnderWay rt outcome (e ∷ events) l'
unfolding run round
step-IsUnderWay rt outcome events l l' e n step w = go w.fuel w.goes_on w.enough
  where
    next : NextOfLog l (l', ok (e, n))
    next = subst (NextOfLog l) step (next_event-NextOfLog rt l)

    algorithms : AllHash l'.algorithms
    algorithms = subst AllHash (sym next.2) w.all_hash

    go :
        (fuel : ℕ)
        → outcome ≡ run rt fuel l w.v
        → length (remaining l.stream) < fuel
        → IsUnderWay rt outcome (e ∷ events) l'
    go zero same enough = absurd (omega arith)
    go (suc fuel) same enough =
        let (v', h) =
          process_event-Succeeds rt l'.algorithms w.v e n algorithms
            (next_event-IsReady rt l w.all_hash step) in
        record {
          fuel = fuel;
          v = v';
          goes_on =
              same ∙ ap (round rt (run rt fuel) w.v) step ∙ ap (after_process (run rt fuel l')) h;
          enough = omega (arith, next.1);
          all_hash = algorithms;
          validated =
              (process_event-events rt l'.algorithms w.v e n).holds v' h
              ∙ ap (λ es. es ++ e ∷ []) w.validated
              ∙ sym (reverse-cons e events);
        }

Returned-IsUnderWay :
    {rt : Runtime} {start : Log} {events : List Event} {l : Log} {outcome : Outcome}
    → IsUnderWay rt outcome [] start
    → Returned rt start events l
    → IsUnderWay rt outcome events l
Returned-IsUnderWay w none_yet = w
Returned-IsUnderWay w (one_more {events} {l} {l'} {e} {trailing} r step) =
    step-IsUnderWay _ _ events l l' e trailing step (Returned-IsUnderWay w r)

-- A result that holds some events, the latest first, validated in their order.
abbrev pub HasValidated : List Event → LogValidateResult → Type 0
HasValidated events res = events_of res.validated_events ≡ reverse events

-- What a replay answers where reading the log fails with an error behind some events.
abbrev pub IsAnswer : Error → List Event → Outcome → Type 0
IsAnswer x events outcome =
    if is_eof x
    then ((res : LogValidateResult) × (outcome ≡ some (ok res)) × HasValidated events res)
    else (outcome ≡ some (err x))

last-IsAnswer :
    (rt : Runtime) (outcome : Outcome) (events : List Event) (l l' : Log) (x : Error)
    → next_event rt l ≡ (l', err x)
    → IsUnderWay rt outcome events l
    → IsAnswer x events outcome
unfolding run
last-IsAnswer rt outcome events l l' x step w = go w.fuel w.goes_on w.enough
  where
    answer :
        (b : Bool) (res : LogValidateResult)
        → HasValidated events res
        → outcome ≡ some (if b then ok res else err x)
        → if b
          then ((res : LogValidateResult) × (outcome ≡ some (ok res)) × HasValidated events res)
          else (outcome ≡ some (err x))
    answer true res h e = (res, e, h)
    answer false res h e = e

    go :
        (fuel : ℕ)
        → outcome ≡ run rt fuel l w.v
        → length (remaining l.stream) < fuel
        → IsAnswer x events outcome
    go zero same enough = absurd (omega arith)
    go (suc fuel) same enough =
        answer (is_eof x) (result_of l' w.v) w.validated
          (same ∙ ap (round rt (run rt fuel) w.v) step ∙ round-err rt (run rt fuel) w.v l' x)

-- Once a log is opened and its events are returned one after another until reading fails, a replay
-- has run through all of them without a failure or a panic of its own: where the reading stopped at
-- the end of the file it succeeds with these events, in their order, and where the reading failed
-- with another error it returns that.
pub replay_and_validate_log-IsAnswer :
    (rt : Runtime) (file : Bytes) (options : LogOptions) {start l l' : Log} {events : List Event}
    {x : Error}
    → new_log rt file options ≡ ok start
    → Returned rt start events l
    → next_event rt l ≡ (l', err x)
    → IsAnswer x events (replay_and_validate_log rt file options)
replay_and_validate_log-IsAnswer rt file options {start} {l} {l'} {events} {x} opens returned step =
    let under_way : IsUnderWay rt (replay_and_validate_log rt file options) [] start = record {
      fuel = suc (length file);
      v = new_validator;
      goes_on =
          unfold replay_and_validate_log in
          ap (after_open (λ s. run rt (suc (length file)) s new_validator)) opens;
      enough = omega (arith, ap length ((new_log-remaining rt file options).holds start opens));
      all_hash = new_log-AllHash rt file options opens;
      validated = refl;
    } in
    last-IsAnswer rt _ events l l' x step (Returned-IsUnderWay under_way returned)
