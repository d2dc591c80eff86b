-- ===== src/Validate/Terminates.antt =====
-- The loop of logValidator.run ends on every file.
use tcglog_parser.Common.{ℕ, zero, suc, ◌<◌, ◌≡◌, refl, ap, ◌≢◌, true, none, arith, length}
use tcglog_parser.Errors.{Result, ok, err, panic, Yields, Yields-bind}
use tcglog_parser.Go.Reader.{Bytes}
use tcglog_parser.Go.Runtime.{Runtime}
use tcglog_parser.Types.{LogOptions}
use tcglog_parser.EventData.{EventData}
use tcglog_parser.Log.Format.{Event, reading, read_next_event_1_2}
use tcglog_parser.Log.{Log, next_event, log_for, new_log}
use tcglog_parser.Validate.Check.{Validator}
use tcglog_parser.Validate.Replay.{
  Outcome, after_process, round, after_open, run, new_validator, replay_and_validate_log,
}
use tcglog_parser.Log.Progress.{remaining, NextOfLog, next_event-NextOfLog}

after_process-ne-none :
    (more : Validator → Outcome) (r : Result Validator)
    → ((v : Validator) → more v ≢ none)
    → after_process more r ≢ none
after_process-ne-none more (ok v) h = h v
after_process-ne-none more (err x) h = λ e. cc
after_process-ne-none more panic h = λ e. cc

round-ne-none :
    (rt : Runtime) (more : Log → Validator → Outcome) (l : Log) (v : Validator)
    (p : Log × Result (Event × ℕ))
    → NextOfLog l p
    → ((l' : Log) (v' : Validator)
        → length (remaining l'.stream) < length (remaining l.stream)
        → more l' v' ≢ none)
    → round rt more v p ≢ none
unfolding round
round-ne-none rt more l v (l', ok (e, n)) next h =
    after_process-ne-none (more l') _ (λ v'. h l' v' next.1)
round-ne-none rt more l v (l', err x) next h = λ e. cc
round-ne-none rt more l v (l', panic) next h = λ e. cc

run-ne-none :
    (rt : Runtime) (fuel : ℕ) (l : Log) (v : Validator)
    → length (remaining l.stream) < fuel
    → run rt fuel l v ≢ none
unfolding run
run-ne-none rt zero l v h = absurd (omega arith)
run-ne-none rt (suc fuel) l v h =
    round-ne-none rt (run rt fuel) l v (next_event rt l) (next_event-NextOfLog rt l)
      (λ l' v' shorter. run-ne-none rt fuel l' v' (omega arith))

log_for-remaining :
    (options : LogOptions) (file : Bytes) (d : EventData)
    → Yields (λ l. remaining l.stream ≡ file) (log_for options file d)
log_for-remaining options file d = record { holds = λ l h. go d l h }
  where
    go : (d : EventData) (l : Log) → log_for options file d ≡ ok l → remaining l.stream ≡ file
    go d l h = unfold log_for in ground arith

pub new_log-remaining :
    (rt : Runtime) (file : Bytes) (options : LogOptions)
    → Yields (λ l. remaining l.stream ≡ file) (new_log rt file options)
unfolding new_log
new_log-remaining rt file options =
    Yields-bind (reading true (read_next_event_1_2 rt options file))
      λ (e, _, _) _. log_for-remaining options file e.content

after_open-ne-none :
    (more : Log → Outcome) (r : Result Log)
    → ((l : Log) → r ≡ ok l → more l ≢ none)
    → after_open more r ≢ none
after_open-ne-none more (ok l) h = h l refl
after_open-ne-none more (err x) h = λ e. cc
after_open-ne-none more panic h = λ e. cc

-- Replaying a log ends on every file: the loop never runs out of the rounds that it is given, which
-- are one more than the file has bytes.
pub replay_and_validate_log-ne-none :
    (rt : Runtime) (file : Bytes) (options : LogOptions)
    → replay_and_validate_log rt file options ≢ none
unfolding replay_and_validate_log
replay_and_validate_log-ne-none rt file options =
    after_open-ne-none _ (new_log rt file options) λ l h.
      run-ne-none rt (suc (length file)) l new_validator
        (omega (arith, ap length ((new_log-remaining rt file options).holds l h)))
