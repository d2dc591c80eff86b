-- ===== src/Validate/Succeeds.antt =====
-- Processing an event that a log returned never fails.
use tcglog_parser.Common.{
  ℕ, ◌+◌, ◌*◌, ◌≡◌, sym, ◌∙◌, true, Option, none, some, List, [], ◌∷◌, ◌++◌, All, arith, ==_refl,
  length, replicate, Map, lookup, insert, IsMap,
}
use tcglog_parser.Errors.{ok}
use tcglog_parser.Errors.Succeeds.{Succeeds, Succeeds-ok, Succeeds-bind, Succeeds-if}
use tcglog_parser.Go.Reader.{Bytes}
use tcglog_parser.Go.Runtime.{Runtime}
use tcglog_parser.Types.Algorithm
use tcglog_parser.Log.Format.{Event, digest_of}
use tcglog_parser.Log.Ready.{AllHash, IsReady}
use tcglog_parser.Validate.Check.{
  Validator, does_event_type_extend_pcr, perform_hash_extend_operation, check_event_digests,
}
use tcglog_parser.Validate.Check.Total.{HasHash, check_digests_loop-Succeeds}
use tcglog_parser.Validate.Replay.{initial_digests, pcr_values, extend, unchecked, process_event}

initial_digests-Succeeds :
    (rt : Runtime) (l : List ℕ) (m : Map Bytes) → AllHash l → Succeeds (initial_digests l m)
unfolding initial_digests
initial_digests-Succeeds rt [] m h = Succeeds-ok m
initial_digests-Succeeds rt (a ∷ l) m (s, h) =
    let (x, _, e) = Algorithm.hash-supported rt a [] s in
    Succeeds-bind (Algorithm.size a) (length x, e)
      λ n _. initial_digests-Succeeds rt l (insert a (replicate n 0) m) h

pcr_values-Succeeds :
    (rt : Runtime) (l : List ℕ) (pcr : ℕ) (values : Map (Map Bytes))
    → AllHash l
    → Succeeds (pcr_values l pcr values)
unfolding pcr_values
pcr_values-Succeeds rt l pcr values h = go (lookup pcr values)
  where
    go :
        (o : Option (Map Bytes)) → Succeeds (elim o [ some m ↦ ok m | none ↦ initial_digests l [] ])
    go (some m) = Succeeds-ok m
    go none = initial_digests-Succeeds rt l [] h

extend-Succeeds : (rt : Runtime) (ds m : Map Bytes) → All HasHash ds → Succeeds (extend rt ds m)
unfolding extend perform_hash_extend_operation
extend-Succeeds rt [] m h = Succeeds-ok m
extend-Succeeds rt ((alg, d) ∷ ds) m (s, h) =
    let (x, e, _) = Algorithm.hash-supported rt alg (digest_of alg m ++ d) s in
    Succeeds-bind (Algorithm.hash rt alg (digest_of alg m ++ d)) (x, e)
      λ y _. extend-Succeeds rt ds (insert alg y m) h

All-HasHash :
    (m : Map Bytes)
    → IsMap m
    → ((alg : ℕ) (d : Bytes) → lookup alg m ≡ some d → Algorithm.supported alg ≡ true)
    → All HasHash m
unfolding lookup
All-HasHash [] distinct h = tt
All-HasHash ((alg, d) ∷ m) (fresh, distinct) h = (
  h alg d (ground (arith, ==_refl alg)),
  All-HasHash m distinct (λ a x found. h a x (ground arith)),
)

range-HasHash :
    (rt : Runtime) (n : ℕ) (e : Event) (trailing : ℕ)
    → IsReady e trailing
    → All HasHash (rt.range n e.digests)
range-HasHash rt n e trailing c =
    All-HasHash (rt.range n e.digests) (rt.range-IsMap n e.digests c.distinct)
      λ alg d found. c.has_hash alg d (sym (rt.lookup-range n alg e.digests c.distinct) ∙ found)

pub process_event-Succeeds :
    (rt : Runtime) (algorithms : List ℕ) (v : Validator) (e : Event) (trailing : ℕ)
    → AllHash algorithms
    → IsReady e trailing
    → Succeeds (process_event rt algorithms v e trailing)
unfolding process_event check_event_digests
process_event-Succeeds rt algorithms v e trailing h c =
    let n = length v.validated_events in
    Succeeds-bind (pcr_values algorithms e.pcr_index v.expected_pcr_values)
      (pcr_values-Succeeds rt algorithms e.pcr_index v.expected_pcr_values h)
      λ m _.
        Succeeds-if (does_event_type_extend_pcr e.event_type)
          (Succeeds-bind (extend rt (rt.range (2 * n) e.digests) m)
            (extend-Succeeds rt (rt.range (2 * n) e.digests) m
              (range-HasHash rt (2 * n) e trailing c))
            λ m' _.
              Succeeds-bind
                (check_event_digests rt (2 * n + 1) v.efi_boot_variable_behaviour (unchecked e)
                  trailing)
                (check_digests_loop-Succeeds rt trailing (rt.range (2 * n + 1) e.digests)
                  v.efi_boot_variable_behaviour (unchecked e)
                  (range-HasHash rt (2 * n + 1) e trailing c) c.room)
                λ r _. Succeeds-ok _)
          (Succeeds-ok _)
