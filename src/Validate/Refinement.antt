-- ===== src/Validate/Refinement.antt =====
-- The expected PCR values against an independent description: each value is the fold of the extend
-- operation over the events of its PCR, in their order in the log.
use mathlib.Core.Path.{subst, ap₂}
use tcglog_parser.Common.{
  ℕ, ◌+◌, ◌*◌, ◌≡◌, refl, sym, ap, ◌∙◌, inl, inr, false, Option, none, some, List, [], ◌∷◌, ◌++◌,
  arith, ◌==◌, if◌then◌else◌, ==_iff, ==_refl, Bool-cases, length, replicate, Map, lookup, insert,
  IsMap, lookup-insert,
}
use tcglog_parser.Errors.{ok, Yields, Yields-ok, Yields-bind, Yields-if, Yields-if_eq, Yields-map}
use tcglog_parser.Go.Reader.{Bytes}
use tcglog_parser.Go.Runtime.{Runtime}
use tcglog_parser.Types.Algorithm
use tcglog_parser.Log.Format.{Event, digest_of}
use tcglog_parser.Validate.Check.{
  ValidatedEvent, Validator, does_event_type_extend_pcr, perform_hash_extend_operation,
  check_event_digests,
}
use tcglog_parser.Validate.Replay.{initial_digests, pcr_values, extend, unchecked, process_event}
use tcglog_parser.Validate.Check.Kept.{check_digests_loop-event}
pub mod Values
use Values.{
  extended, start_value, pcr_value, PcrIs, IsReplayed, value_behind-append, count_pcr-append,
  value_behind-none, events_of, events_of-append, Agrees,
}

digest_of-insert :
    (k j : ℕ) (v : Bytes) (m : Map Bytes)
    → digest_of j (insert k v m) ≡ (if k == j then v else digest_of j m)
unfolding digest_of
digest_of-insert k j v m = ground (arith, lookup-insert k j v m)

extend-extended :
    (rt : Runtime) (ds m : Map Bytes) (alg : ℕ)
    → IsMap ds
    → Yields
        (λ m'. digest_of alg m' ≡ extended rt alg (digest_of alg m) (lookup alg ds))
        (extend rt ds m)
unfolding extend lookup perform_hash_extend_operation
extend-extended rt [] m alg distinct = Yields-ok refl
extend-extended rt ((a, d) ∷ ds) m alg distinct =
    Yields-bind (Algorithm.hash rt a (digest_of a m ++ d)) λ h e.
      Yields-map
        (λ m' q.
          ground
            (arith, q, digest_of-insert a alg h m, Algorithm.hash-ok rt a (digest_of a m ++ d) e))
        (extend-extended rt ds (insert a h m) alg distinct.1)

initial_digests-start :
    (l : List ℕ) (m : Map Bytes) (alg : ℕ)
    → Yields
        (λ m'. digest_of alg m' ≡ (
          if Algorithm.contains l alg
          then replicate (Algorithm.size_or_zero alg) 0
          else digest_of alg m))
        (initial_digests l m)
unfolding initial_digests Algorithm.contains
initial_digests-start [] m alg = Yields-ok refl
initial_digests-start (a ∷ l) m alg = Yields-bind (Algorithm.size a) λ n e.
    Yields-map (λ m' q. ground (arith, q, e, digest_of-insert a alg (replicate n 0) m))
      (initial_digests-start l (insert a (replicate n 0) m) alg)

pcr_values-PcrIs :
    (rt : Runtime) (algorithms : List ℕ) (events : List Event) (pcr : ℕ) (values : Map (Map Bytes))
    → IsReplayed rt algorithms events values
    → Yields
        (λ m. (alg : ℕ) → digest_of alg m ≡ pcr_value rt algorithms events pcr alg)
        (pcr_values algorithms pcr values)
unfolding pcr_values digest_of lookup
pcr_values-PcrIs rt algorithms events pcr values is = go (lookup pcr values) (is pcr)
  where
    go :
        (o : Option (Map Bytes))
        → PcrIs rt algorithms events pcr o
        → Yields
            (λ m. (alg : ℕ) → digest_of alg m ≡ pcr_value rt algorithms events pcr alg)
            (elim o [ some m ↦ ok m | none ↦ initial_digests algorithms [] ])
    go (some m) h = Yields-ok h.1
    go none h = record {
      holds = λ m e alg.
          (initial_digests-start algorithms [] alg).holds m e
          ∙ sym (value_behind-none rt pcr alg (start_value algorithms alg) events h);
    }

-- The state behind an event of which the value of its own PCR is known.
insert-IsReplayed :
    (rt : Runtime) (algorithms : List ℕ) (events : List Event) (e : Event)
    (values : Map (Map Bytes)) (m : Map Bytes)
    → IsReplayed rt algorithms events values
    → ((alg : ℕ) → digest_of alg m ≡ pcr_value rt algorithms (events ++ e ∷ []) e.pcr_index alg)
    → IsReplayed rt algorithms (events ++ e ∷ []) (insert e.pcr_index m values)
insert-IsReplayed rt algorithms events e values m is new pcr =
    elim (Bool-cases (e.pcr_index == pcr)) [
      | inl same ↦
          let here : e.pcr_index ≡ pcr = (==_iff e.pcr_index pcr).0 same in
          subst (PcrIs rt algorithms (events ++ e ∷ []) pcr)
            (sym (
              lookup-insert e.pcr_index pcr m values
              ∙ ap (λ b. if b then some m else lookup pcr values) same))
            (
              omega
                  (arith, count_pcr-append pcr events e, ap {B = ℕ} (λ b. if b then 1 else 0) same),
              subst
                  (λ p.
                    (alg : ℕ) → digest_of alg m ≡ pcr_value rt algorithms (events ++ e ∷ []) p alg)
                  here new,
            )
      | inr other ↦
          subst (PcrIs rt algorithms (events ++ e ∷ []) pcr)
            (sym (
              lookup-insert e.pcr_index pcr m values
              ∙ ap (λ b. if b then some m else lookup pcr values) other))
            (unchanged other (lookup pcr values) (is pcr))
    ]
  where
    unchanged :
        (e.pcr_index == pcr) ≡ false
        → (o : Option (Map Bytes)) → PcrIs rt algorithms events pcr o
        → PcrIs rt algorithms (events ++ e ∷ []) pcr o
    unchanged other none h =
        omega (arith, count_pcr-append pcr events e, ap {B = ℕ} (λ b. if b then 1 else 0) other)
    unchanged other (some m) h = (
      omega (arith, count_pcr-append pcr events e),
      λ alg.
          h.1 alg
          ∙ ground (arith, value_behind-append rt pcr alg (start_value algorithms alg) events e),
    )

own_value :
    (rt : Runtime) (algorithms : List ℕ) (events : List Event) (e : Event) (alg : ℕ)
    → pcr_value rt algorithms (events ++ e ∷ []) e.pcr_index alg ≡ (
        if does_event_type_extend_pcr e.event_type
        then extended rt alg (pcr_value rt algorithms events e.pcr_index alg) (lookup alg e.digests)
        else pcr_value rt algorithms events e.pcr_index alg)
own_value rt algorithms events e alg =
    value_behind-append rt e.pcr_index alg (start_value algorithms alg) events e
    ∙ ground (arith, ==_refl e.pcr_index)

validated-IsReplayed :
    (rt : Runtime) (algorithms : List ℕ) (l : List ValidatedEvent) (ve : ValidatedEvent) (e : Event)
    (values : Map (Map Bytes))
    → ve.event ≡ e
    → IsReplayed rt algorithms (events_of l ++ e ∷ []) values
    → IsReplayed rt algorithms (events_of (l ++ ve ∷ [])) values
validated-IsReplayed rt algorithms l ve e values same is =
    subst (λ events. IsReplayed rt algorithms events values)
      (sym (events_of-append l ve ∙ ap (λ x. events_of l ++ x ∷ []) same)) is

-- Processing an event keeps the agreement with the description, whatever the order of the digests.
pub process_event-Yields :
    (rt : Runtime) (algorithms : List ℕ) (v : Validator) (e : Event) (trailing : ℕ)
    → IsMap e.digests
    → Agrees rt algorithms v
    → Yields (Agrees rt algorithms) (process_event rt algorithms v e trailing)
unfolding process_event check_event_digests
process_event-Yields rt algorithms v e trailing distinct is =
    let events = events_of v.validated_events in
    let n = length v.validated_events in
    let order = rt.range (2 * n) e.digests in
    Yields-bind (pcr_values algorithms e.pcr_index v.expected_pcr_values) λ m e1.
      let before =
        (pcr_values-PcrIs rt algorithms events e.pcr_index v.expected_pcr_values is).holds m e1 in
      Yields-if_eq (does_event_type_extend_pcr e.event_type)
        (λ extends. Yields-bind (extend rt order m) λ m' e2.
          Yields-bind
            (check_event_digests rt (2 * n + 1) v.efi_boot_variable_behaviour (unchecked e)
              trailing)
            λ (known, ve) e3. Yields-ok (
              validated-IsReplayed rt algorithms v.validated_events ve e _
                ((check_digests_loop-event rt trailing (rt.range (2 * n + 1) e.digests)
                    v.efi_boot_variable_behaviour (unchecked e)).holds
                  _ e3)
                (insert-IsReplayed rt algorithms events e v.expected_pcr_values m' is (λ alg.
                  (extend-extended rt order m alg (rt.range-IsMap (2 * n) e.digests distinct)).holds
                    m' e2
                  ∙ ap₂ (extended rt alg) (before alg)
                      (rt.lookup-range (2 * n) alg e.digests distinct)
                  ∙ sym (
                      own_value rt algorithms events e alg
                      ∙ ap
                          (λ b.
                            if b
                            then extended rt alg (pcr_value rt algorithms events e.pcr_index alg)
                                (lookup alg e.digests)
                            else pcr_value rt algorithms events e.pcr_index alg)
                          extends)))))
        (λ skips. Yields-ok (
          validated-IsReplayed rt algorithms v.validated_events (unchecked e) e _ refl (
            insert-IsReplayed rt algorithms events e v.expected_pcr_values m is (λ alg.
              before alg
              ∙ sym (
                  own_value rt algorithms events e alg
                  ∙ ap
                      (λ b.
                        if b
                        then extended rt alg (pcr_value rt algorithms events e.pcr_index alg)
                            (lookup alg e.digests)
                        else pcr_value rt algorithms events e.pcr_index alg)
                      skips)))))

-- Processing an event with digests for distinct algorithms, where it does not panic, keeps the
-- expected PCR values equal to the fold of the extend operation over the events, whatever the order in
-- which the digests are ranged over.
pub process_event-Agrees :
    (rt : Runtime) (algorithms : List ℕ) (v : Validator) (e : Event) (trailing : ℕ) {v' : Validator}
    → IsMap e.digests
    → Agrees rt algorithms v
    → process_event rt algorithms v e trailing ≡ ok v'
    → Agrees rt algorithms v'
process_event-Agrees rt algorithms v e trailing distinct is h =
    (process_event-Yields rt algorithms v e trailing distinct is).holds _ h
