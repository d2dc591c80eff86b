-- ===== src/Validate/Every.antt =====
-- What processing an event keeps of the validated events holds for all events of a result.
use mathlib.Core.Path.{subst}
use tcglog_parser.Common.{
  ℕ, zero, suc, ◌≡◌, refl, sym, ap, ◌∙◌, inl, inr, some, List, [], ◌∷◌, ◌++◌, All, arith,
  if◌then◌else◌, Bool-cases, length,
}
use tcglog_parser.Errors.{Result, ok, err, panic, Yields, ok-injective}
use tcglog_parser.Go.Reader.{Bytes}
use tcglog_parser.Go.Runtime.{Runtime}
use tcglog_parser.Types.{LogOptions}
use tcglog_parser.Log.Format.{Event}
use tcglog_parser.Log.{Log, is_eof, next_event, new_log}
use tcglog_parser.Log.Ready.{AllHash, IsReady, next_event-IsReady}
use tcglog_parser.Log.Supported.{new_log-AllHash}
use tcglog_parser.Log.Progress.{NextOfLog, next_event-NextOfLog}
use tcglog_parser.Validate.Check.{LogValidateResult, ValidatedEvent, Validator}
use tcglog_parser.Validate.Replay.{
  process_event, result_of, Outcome, round, run, new_validator, replay_and_validate_log,
}
use tcglog_parser.Validate.Correct.{some-injective, after_process-ok, after_open-ok}

pub All-append_one :
    (P : ValidatedEvent → Type 0) (l : List ValidatedEvent) (v : ValidatedEvent)
    → All P l
    → P v
    → All P (l ++ v ∷ [])
All-append_one P [] v h p = (p, tt)
All-append_one P (x ∷ l) v (q, h) p = (q, All-append_one P l v h p)

-- A predicate that every validated event has after each step of the replay, the one just processed
-- included.
module _ (P : ValidatedEvent → Type 0) (rt : Runtime)
    (kept : (algorithms : List ℕ) (v : Validator) (e : Event) (trailing : ℕ)
      → IsReady e trailing
      → All P v.validated_events
      → Yields (λ v'. All P v'.validated_events) (process_event rt algorithms v e trailing)) where
  round-Every :
      (l : Log) (v : Validator) (more : Log → Validator → Outcome) (p : Log × Result (Event × ℕ))
      {res : LogValidateResult}
      → AllHash l.algorithms
      → All P v.validated_events
      → NextOfLog l p
      → next_event rt l ≡ p
      → ((l' : Log) (v' : Validator)
          → AllHash l'.algorithms
          → All P v'.validated_events
          → more l' v' ≡ some (ok res)
          → All P res.validated_events)
      → round rt more v p ≡ some (ok res)
      → All P res.validated_events
  unfolding round
  round-Every l v more (l', ok (e, n)) hash counted next step rest h =
      let (v', h1, h2) = after_process-ok (more l') (process_event rt l'.algorithms v e n) h in
      let ready = next_event-IsReady rt l hash step in
      rest l' v' (subst AllHash (sym next.2) hash)
        ((kept l'.algorithms v e n ready counted).holds v' h1) h2
  round-Every l v more (l', err x) {res} hash counted next step rest h =
      elim (Bool-cases (is_eof x)) [
        | inl t ↦
            subst (λ r. All P r.validated_events)
              (ok-injective
                (ap (λ b. if b then ok (result_of l' v) else err x) (sym t) ∙ some-injective h))
              counted
        | inr f ↦ absurd (ground arith)
      ]
  round-Every l v more (l', panic) hash counted next step rest h = cc

  run-Every :
      (fuel : ℕ) (l : Log) (v : Validator) {res : LogValidateResult}
      → AllHash l.algorithms
      → All P v.validated_events
      → run rt fuel l v ≡ some (ok res)
      → All P res.validated_events
  unfolding run
  run-Every zero l v hash counted h = cc
  run-Every (suc fuel) l v hash counted h =
      round-Every l v (run rt fuel) (next_event rt l) hash counted (next_event-NextOfLog rt l) refl
        (λ l' v' hash' counted' h'. run-Every fuel l' v' hash' counted' h') h

  pub replay_and_validate_log-Every :
      (file : Bytes) (options : LogOptions) {res : LogValidateResult}
      → replay_and_validate_log rt file options ≡ some (ok res)
      → All P res.validated_events
  unfolding replay_and_validate_log
  replay_and_validate_log-Every file options h =
      let (l, opened, h') = after_open-ok _ (new_log rt file options) h in
      run-Every (suc (length file)) l new_validator (new_log-AllHash rt file options opened) tt h'
