-- ===== src/Log/Progress.antt =====
-- Every event takes bytes from the log, and its digests are a map.
use tcglog_parser.Common.{
  ℕ, ◌<◌, ◌≡◌, refl, inl, inr, true, false, List, [], ◌∷◌, arith, Bool-cases, length, Map, lookup,
  IsMap, insert-IsMap,
}
use tcglog_parser.Errors.{Result, ok, err, panic, Yields, Yields-map}
use tcglog_parser.Go.Reader.{Bytes}
use tcglog_parser.Go.Runtime.{Runtime}
use tcglog_parser.Types.{LogOptions}
use tcglog_parser.EventData.{EventData, spec_id}
use tcglog_parser.Log.Format.{Event, read_next_event_1_2}
use tcglog_parser.Log.{
  Stream, stream_1_2, stream_2, no_options, advance, read_next_event, Log, zero_digest,
  add_zero_digests, fixup_spec_id_event, accept, settle, next_event,
}
use tcglog_parser.Log.Format.Sound.{IsSha1, read_next_event_1_2-Yields}
use tcglog_parser.Log.Format.Digests.{read_next_event_2-Yields}
use tcglog_parser.Log.State.{next_event-open, next_event-previous_error}

-- What is left of a stream.
abbrev pub remaining : Stream → Bytes
remaining (stream_1_2 options s) = s
remaining (stream_2 options l first s) = s

-- What holds of an event that a stream of a kind returns, and of the stream behind it.
record IsNext (s : Stream) (s' : Stream) (e : Event) : Type 0 where
  is_map : IsMap e.digests
  shorter : length (remaining s') < length (remaining s)

abbrev NextOf : Stream → Stream × Result (Event × ℕ) → Type 0
NextOf s (s', ok (e, n)) = IsNext s s' e
NextOf s (s', err e) = Unit
NextOf s (s', panic) = Unit

advance-NextOf :
    (s0 : Stream) (stream : Bytes → Stream) (s : Bytes) (r : Result (Event × ℕ × Bytes))
    → ((b : Bytes) → remaining (stream b) ≡ b)
    → remaining s0 ≡ s
    → Yields (λ (e, n, s'). IsMap e.digests × (length s' < length s)) r
    → NextOf s0 (advance stream s r)
unfolding advance
advance-NextOf s0 stream s (ok (e, n, s')) whole start y = record {
  is_map = (y.holds _ refl).0;
  shorter = rw (whole s', start) (y.holds _ refl).1;
}
advance-NextOf s0 stream s (err e) whole start y = tt
advance-NextOf s0 stream s panic whole start y = tt

IsSha1-IsMap : (m : Map Bytes) → IsSha1 m → IsMap m
unfolding lookup
IsSha1-IsMap m (d, e, _) = rw e (refl, tt)

first-facts :
    (rt : Runtime) (options : LogOptions) (s : Bytes)
    → Yields
        (λ (e, n, s'). IsMap e.digests × (length s' < length s))
        (read_next_event_1_2 rt options s)
first-facts rt options s =
    Yields-map (λ r v. (IsSha1-IsMap r.0.digests v.has_digests, v.shorter))
      (read_next_event_1_2-Yields rt options s)

read_next_event-NextOf : (rt : Runtime) (s : Stream) → NextOf s (read_next_event rt s)
unfolding read_next_event
read_next_event-NextOf rt (stream_1_2 options s) =
    advance-NextOf _ (stream_1_2 options) s _ (λ b. refl) refl (first-facts rt options s)
read_next_event-NextOf rt (stream_2 options l false s) =
    advance-NextOf _ (stream_2 options l true) s _ (λ b. refl) refl (first-facts rt no_options s)
read_next_event-NextOf rt (stream_2 options l true s) =
    advance-NextOf _ (stream_2 options l true) s _ (λ b. refl) refl
      (Yields-map (λ r v. (v.has_digests.distinct, v.shorter))
        (read_next_event_2-Yields rt options l s))

add_zero_digests-IsMap : (l : List ℕ) (m : Map Bytes) → IsMap m → IsMap (add_zero_digests l m)
unfolding add_zero_digests
add_zero_digests-IsMap [] m h = h
add_zero_digests-IsMap (alg ∷ l) m h =
    add_zero_digests-IsMap l _ (ground (arith, insert-IsMap alg (zero_digest alg) m h))

fixup-IsMap :
    (l : List ℕ) (d : EventData) (m : Map Bytes) → IsMap m → IsMap (fixup_spec_id_event l d m)
unfolding fixup_spec_id_event
fixup-IsMap l (spec_id d) m h = ground (arith, add_zero_digests-IsMap l m h)
fixup-IsMap l _ m h = h

abbrev pub NextOfLog : Log → Log × Result (Event × ℕ) → Type 0
NextOfLog l (l', ok (e, n)) =
    IsMap e.digests
    × (length (remaining l'.stream) < length (remaining l.stream))
    × (l'.algorithms ≡ l.algorithms)
    × (l'.spec ≡ l.spec)
NextOfLog l (l', err e) = (l'.algorithms ≡ l.algorithms) × (l'.spec ≡ l.spec)
NextOfLog l (l', panic) = Unit

settle-NextOfLog :
    (l : Log) (r : Stream × Result (Event × ℕ)) → NextOf l.stream r → NextOfLog l (settle l r)
unfolding settle accept
settle-NextOfLog l (s, ok (e, n)) v =
    (fixup-IsMap l.algorithms e.content e.digests v.is_map, v.shorter, refl, refl)
settle-NextOfLog l (s, err e) v = (refl, refl)
settle-NextOfLog l (s, panic) v = tt

-- Each event that a log returns has digests for distinct algorithms and leaves less of the log to be
-- read; unless the call panics, the log keeps its specification and its algorithms.
pub next_event-NextOfLog : (rt : Runtime) (l : Log) → NextOfLog l (next_event rt l)
next_event-NextOfLog rt l = elim (Bool-cases l.failed) [
  | inl f ↦ rw (next_event-previous_error rt l f) (refl, refl)
  | inr f ↦
      rw (next_event-open rt l f)
        (settle-NextOfLog l (read_next_event rt l.stream) (read_next_event-NextOf rt l.stream))
]
