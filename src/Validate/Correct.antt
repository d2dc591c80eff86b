-- ===== src/Validate/Correct.antt =====
-- The result of a whole replay: which events it holds, and the expected PCR values for them.
use tcglog_parser.Common.{
  ℕ, zero, suc, ◌+◌, ◌*◌, ◌≡◌, refl, sym, ap, ◌∙◌, inl, inr, true, some, List, [], ◌∷◌, ◌++◌,
  reverse, arith, if◌then◌else◌, Bool-cases, length, lookup,
}
use tcglog_parser.Errors.{
  Error, Result, ok, err, panic, Yields, Yields-ok, Yields-bind, Yields-if, ok-injective, eof,
}
use tcglog_parser.Go.Reader.{Bytes}
use tcglog_parser.Go.Runtime.{Runtime}
use tcglog_parser.Types.{LogOptions}
use tcglog_parser.Log.Format.{Event}
use tcglog_parser.Log.{Log, is_eof, next_event, new_log}
use tcglog_parser.Validate.Check.{
  LogValidateResult, Validator, does_event_type_extend_pcr, check_event_digests,
}
use tcglog_parser.Validate.Replay.{
  pcr_values, extend, unchecked, process_event, result_of, Outcome, after_process, round,
  after_open, run, new_validator, replay_and_validate_log,
}
use mathlib.Core.List.{reverse-append}
use mathlib.Core.Path.{subst}
use tcglog_parser.Log.State.{Returned, none_yet, one_more}
use tcglog_parser.Log.Progress.{NextOfLog, next_event-NextOfLog}
use tcglog_parser.Validate.Check.Kept.{check_digests_loop-event}
use tcglog_parser.Validate.Refinement.{process_event-Yields}
use tcglog_parser.Validate.Refinement.Values.{IsReplayed, Agrees, events_of, events_of-append}

-- The validated events grow by the event.
pub process_event-events :
    (rt : Runtime) (algorithms : List ℕ) (v : Validator) (e : Event) (trailing : ℕ)
    → Yields
        (λ v'. events_of v'.validated_events ≡ events_of v.validated_events ++ e ∷ [])
        (process_event rt algorithms v e trailing)
unfolding process_event check_event_digests
process_event-events rt algorithms v e trailing =
    let n = length v.validated_events in
    let known = v.efi_boot_variable_behaviour in
    let order = rt.range (2 * n + 1) e.digests in
    Yields-bind (pcr_values algorithms e.pcr_index v.expected_pcr_values) λ m _.
      Yields-if (does_event_type_extend_pcr e.event_type)
        (Yields-bind (extend rt (rt.range (2 * n) e.digests) m) λ m' _.
          Yields-bind (check_event_digests rt (2 * n + 1) known (unchecked e) trailing)
            λ (known', ve) h. Yields-ok (
              events_of-append v.validated_events ve
              ∙ ap (λ x. events_of v.validated_events ++ x ∷ [])
                  ((check_digests_loop-event rt trailing order known (unchecked e)).holds _ h)))
        (Yields-ok (events_of-append v.validated_events (unchecked e)))

-- A result holds all events that a log returns until its end, in their order, the log's
-- specification and algorithms, and for each PCR the values that the description gives for them.
pub record IsResultOf (rt : Runtime) (start : Log) (res : LogValidateResult) : Type 0 where
  pub end : Log
  pub returned : Returned rt start (reverse (events_of res.validated_events)) end
  pub at_end : (next_event rt end).1 ≡ err eof
  pub same_spec : res.spec ≡ start.spec
  pub same_algorithms : res.algorithms ≡ start.algorithms
  pub replayed :
      IsReplayed rt start.algorithms (events_of res.validated_events) res.expected_pcr_values

-- What holds before each round.
record IsRound (rt : Runtime) (start l : Log) (v : Validator) : Type 0 where
  returned : Returned rt start (reverse (events_of v.validated_events)) l
  same_spec : l.spec ≡ start.spec
  same_algorithms : l.algorithms ≡ start.algorithms
  agrees : Agrees rt start.algorithms v

is_eof-eq : (x : Error) → is_eof x ≡ true → x ≡ eof
is_eof-eq x h = ground arith

pub after_process-ok :
    (more : Validator → Outcome) (r : Result Validator) {res : LogValidateResult}
    → after_process more r ≡ some (ok res)
    → (v' : Validator) × (r ≡ ok v') × (more v' ≡ some (ok res))
after_process-ok more (ok v') h = (v', refl, h)
after_process-ok more (err x) h = cc
after_process-ok more panic h = cc

-- A round that processes an event.
next-IsRound :
    (rt : Runtime) (start l l' : Log) (v v' : Validator) (e : Event) (n : ℕ)
    → IsRound rt start l v
    → NextOfLog l (l', ok (e, n))
    → next_event rt l ≡ (l', ok (e, n))
    → process_event rt l'.algorithms v e n ≡ ok v'
    → IsRound rt start l' v'
next-IsRound rt start l l' v v' e n r (distinct, _, same_algorithms, same_spec) step h =
    let algs : l'.algorithms ≡ start.algorithms = same_algorithms ∙ r.same_algorithms in
    let h' : process_event rt start.algorithms v e n ≡ ok v' =
      ap (λ a. process_event rt a v e n) (sym algs) ∙ h in
    record {
      returned =
          subst (λ es. Returned rt start es l')
            (sym (
              ap reverse ((process_event-events rt start.algorithms v e n).holds v' h')
              ∙ reverse-append (events_of v.validated_events) (e ∷ [])))
            (one_more r.returned step);
      same_spec = same_spec ∙ r.same_spec;
      same_algorithms = algs;
      agrees = (process_event-Yields rt start.algorithms v e n distinct r.agrees).holds v' h';
    }

-- The round that meets the end of the log.
last-IsResultOf :
    (rt : Runtime) (start l l' : Log) (v : Validator)
    → IsRound rt start l v
    → NextOfLog l (l', err eof)
    → next_event rt l ≡ (l', err eof)
    → IsResultOf rt start (result_of l' v)
last-IsResultOf rt start l l' v r (same_algorithms, same_spec) step = record {
  end = l;
  returned = r.returned;
  at_end = ap (λ q. q.1) step;
  same_spec = same_spec ∙ r.same_spec;
  same_algorithms = same_algorithms ∙ r.same_algorithms;
  replayed = r.agrees;
}

pub some-injective {ℓ} : {A : Type ℓ} {a b : A} → some a ≡ some b → a ≡ b
some-injective h = cc

round-IsResultOf :
    (rt : Runtime) (start l : Log) (v : Validator) (more : Log → Validator → Outcome)
    (p : Log × Result (Event × ℕ)) {res : LogValidateResult}
    → IsRound rt start l v
    → NextOfLog l p
    → next_event rt l ≡ p
    → ((l' : Log) (v' : Validator)
        → IsRound rt start l' v'
        → more l' v' ≡ some (ok res)
        → IsResultOf rt start res)
    → round rt more v p ≡ some (ok res)
    → IsResultOf rt start res
unfolding round
round-IsResultOf rt start l v more (l', ok (e, n)) r next step rest h =
    let (v', h1, h2) = after_process-ok (more l') (process_event rt l'.algorithms v e n) h in
    rest l' v' (next-IsRound rt start l l' v v' e n r next step h1) h2
round-IsResultOf rt start l v more (l', err x) {res} r next step rest h =
    elim (Bool-cases (is_eof x)) [
      | inl t ↦
          subst (IsResultOf rt start)
            (ok-injective
              (ap (λ b. if b then ok (result_of l' v) else err x) (sym t) ∙ some-injective h))
            (last-IsResultOf rt start l l' v r next (step ∙ ap (λ y. (l', err y)) (is_eof-eq x t)))
      | inr f ↦ absurd (ground arith)
    ]
round-IsResultOf rt start l v more (l', panic) r next step rest h = cc

run-IsResultOf :
    (rt : Runtime) (fuel : ℕ) (start l : Log) (v : Validator) {res : LogValidateResult}
    → IsRound rt start l v
    → run rt fuel l v ≡ some (ok res)
    → IsResultOf rt start res
unfolding run
run-IsResultOf rt zero start l v r h = cc
run-IsResultOf rt (suc fuel) start l v r h =
    round-IsResultOf rt start l v (run rt fuel) (next_event rt l) r (next_event-NextOfLog rt l) refl
      (λ l' v' r' h'. run-IsResultOf rt fuel start l' v' r' h') h

pub after_open-ok :
    (more : Log → Outcome) (r : Result Log) {res : LogValidateResult}
    → after_open more r ≡ some (ok res)
    → (l : Log) × (r ≡ ok l) × (more l ≡ some (ok res))
after_open-ok more (ok l) h = (l, refl, h)
after_open-ok more (err x) h = cc
after_open-ok more panic h = cc

-- The result of a replay that succeeds is that of the log that NewLog opens: it holds all events of
-- the log until its end, in their order, and for every PCR that has events, and for no other, the
-- fold of the extend operation over them in each algorithm.
pub replay_and_validate_log-IsResultOf :
    (rt : Runtime) (file : Bytes) (options : LogOptions) {res : LogValidateResult}
    → replay_and_validate_log rt file options ≡ some (ok res)
    → (l : Log) × (new_log rt file options ≡ ok l) × IsResultOf rt l res
unfolding replay_and_validate_log lookup
replay_and_validate_log-IsResultOf rt file options h =
    let (l, opened, h') = after_open-ok _ (new_log rt file options) h in
    (
      l,
      opened,
      run-IsResultOf rt (suc (length file)) l l new_validator
          (record {
            returned = none_yet;
            same_spec = refl;
            same_algorithms = refl;
            agrees = λ pcr. refl;
          })
          h',
    )
