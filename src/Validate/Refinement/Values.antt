-- ===== src/Validate/Refinement/Values.antt =====
-- What the expected PCR values are: the fold of the extend operation over the events of a PCR.
use tcglog_parser.Common.{
  ℕ, ◌+◌, ◌<◌, ◌≡◌, refl, ap, ◌&&◌, Option, none, some, List, [], ◌∷◌, ◌++◌, arith, ◌==◌,
  if◌then◌else◌, replicate, Map, lookup,
}
use tcglog_parser.Go.Reader.{Bytes}
use tcglog_parser.Go.Runtime.{Runtime}
use tcglog_parser.Types.Algorithm
use tcglog_parser.Log.Format.{Event, digest_of}
use tcglog_parser.Validate.Check.{ValidatedEvent, Validator, does_event_type_extend_pcr}
use tcglog_parser.Log.State.{count_pcr}

-- An event without a digest for the algorithm leaves the value alone.
abbrev pub extended : Runtime → ℕ → Bytes → Option Bytes → Bytes
extended rt alg value none = value
extended rt alg value (some d) = rt.sum (Algorithm.get_hash alg) (value ++ d)

-- The value of a PCR in the bank of an algorithm behind an event.
abbrev pub value_after : Runtime → ℕ → ℕ → Bytes → Event → Bytes
value_after rt pcr alg value e =
    if e.pcr_index == pcr && does_event_type_extend_pcr e.event_type
    then extended rt alg value (lookup alg e.digests)
    else value

-- The value behind some events, the first event first.
abbrev pub value_behind : Runtime → ℕ → ℕ → Bytes → List Event → Bytes
value_behind rt pcr alg value [] = value
value_behind rt pcr alg value (e ∷ l) = value_behind rt pcr alg (value_after rt pcr alg value e) l

-- A bank starts with zeros if it is one of the log's, and empty if it is not.
abbrev pub start_value : List ℕ → ℕ → Bytes
start_value algorithms alg =
    if Algorithm.contains algorithms alg then replicate (Algorithm.size_or_zero alg) 0 else []

abbrev pub pcr_value : Runtime → List ℕ → List Event → ℕ → ℕ → Bytes
pcr_value rt algorithms events pcr alg = value_behind rt pcr alg (start_value algorithms alg) events

-- The values that the program holds for one PCR, against the description.
abbrev pub PcrIs : Runtime → List ℕ → List Event → ℕ → Option (Map Bytes) → Type 0
PcrIs rt algorithms events pcr none = count_pcr pcr events ≡ 0
PcrIs rt algorithms events pcr (some m) =
    (0 < count_pcr pcr events)
    × ((alg : ℕ) → digest_of alg m ≡ pcr_value rt algorithms events pcr alg)

abbrev pub IsReplayed : Runtime → List ℕ → List Event → Map (Map Bytes) → Type 0
IsReplayed rt algorithms events values =
    (pcr : ℕ) → PcrIs rt algorithms events pcr (lookup pcr values)

pub value_behind-append :
    (rt : Runtime) (pcr alg : ℕ) (value : Bytes) (l : List Event) (e : Event)
    → value_behind rt pcr alg value (l ++ e ∷ [])
      ≡ value_after rt pcr alg (value_behind rt pcr alg value l) e
value_behind-append rt pcr alg value [] e = refl
value_behind-append rt pcr alg value (x ∷ l) e =
    value_behind-append rt pcr alg (value_after rt pcr alg value x) l e

pub count_pcr-append :
    (pcr : ℕ) (l : List Event) (e : Event)
    → count_pcr pcr (l ++ e ∷ []) ≡ count_pcr pcr l + (if e.pcr_index == pcr then 1 else 0)
count_pcr-append pcr [] e = omega arith
count_pcr-append pcr (x ∷ l) e = omega (arith, count_pcr-append pcr l e)

-- A PCR without events keeps its start value.
pub value_behind-none :
    (rt : Runtime) (pcr alg : ℕ) (value : Bytes) (l : List Event)
    → count_pcr pcr l ≡ 0
    → value_behind rt pcr alg value l ≡ value
value_behind-none rt pcr alg value [] h = refl
value_behind-none rt pcr alg value (x ∷ l) h = ground (arith, value_behind-none rt pcr alg value l)

-- What a run has established: the events that it has validated, and the values for them.
abbrev pub events_of : List ValidatedEvent → List Event
events_of [] = []
events_of (v ∷ l) = v.event ∷ events_of l

pub events_of-append :
    (l : List ValidatedEvent) (v : ValidatedEvent)
    → events_of (l ++ v ∷ []) ≡ events_of l ++ v.event ∷ []
events_of-append [] v = refl
events_of-append (x ∷ l) v = ap (◌∷◌ x.event) (events_of-append l v)

abbrev pub Agrees : Runtime → List ℕ → Validator → Type 0
Agrees rt algorithms v =
    IsReplayed rt algorithms (events_of v.validated_events) v.expected_pcr_values
