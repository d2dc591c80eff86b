-- ===== src/Log/State.antt =====
-- The state of a log: the error that it remembers, the end of the log, and the event indices.
use tcglog_parser.Common.{
  ℕ, ◌+◌, ◌%◌, ◌^◌, ◌≡◌, sym, ap, ◌∙◌, inl, inr, true, false, List, [], ◌∷◌, arith, ◌==◌,
  if◌then◌else◌, Bool-cases, Map, lookup, insert, lookup-insert,
}
use tcglog_parser.Errors.{Error, Result, ok, err, panic, previous_error}
use tcglog_parser.Go.Runtime.{Runtime}
use tcglog_parser.Log.Format.{Event}
use tcglog_parser.Log.{Stream, read_next_event, Log, next_index, accept, is_eof, settle, next_event}

settle-failed :
    (l : Log) (p : Stream × Result (Event × ℕ)) {l' : Log} {e : Error}
    → settle l p ≡ (l', err e)
    → is_eof e ≡ false
    → l'.failed ≡ true
unfolding settle
settle-failed l (s, ok (x, n)) h f = ground arith
settle-failed l (s, err x) h f = ground arith
settle-failed l (s, panic) h f = ground arith

-- A log that has failed answers with the error for an inconsistent log, and does not change.
pub next_event-previous_error :
    (rt : Runtime) (l : Log) → l.failed ≡ true → next_event rt l ≡ (l, err previous_error)
unfolding next_event
next_event-previous_error rt l f =
    ap (λ b. if b then (l, err previous_error) else settle l (read_next_event rt l.stream)) f

pub next_event-open :
    (rt : Runtime) (l : Log)
    → l.failed ≡ false
    → next_event rt l ≡ settle l (read_next_event rt l.stream)
unfolding next_event
next_event-open rt l f =
    ap (λ b. if b then (l, err previous_error) else settle l (read_next_event rt l.stream)) f

-- After an error that is not the end of the log, every further call answers with the error for an
-- inconsistent log and changes nothing.
pub next_event_failed :
    (rt : Runtime) (l : Log) {l' : Log} {e : Error}
    → next_event rt l ≡ (l', err e)
    → is_eof e ≡ false
    → next_event rt l' ≡ (l', err previous_error)
next_event_failed rt l {l'} {e} h x = elim (Bool-cases l.failed) [
  | inl f ↦
      let same = ap (λ q. q.0) (next_event-previous_error rt l f) in
      let k = ap (λ q. q.0) h in
      next_event-previous_error rt _ (ap (λ q. q.failed) (sym k ∙ same) ∙ f)
  | inr f ↦
      next_event-previous_error rt l'
        (settle-failed l (read_next_event rt l.stream) (sym (next_event-open rt l f) ∙ h) x)
]

-- The events that a log returned so far, the latest first.
pub data Returned (rt : Runtime) (start : Log) : List Event → Log → Type 0 where
  none_yet : Returned rt start [] start
  one_more :
      {events : List Event} {l l' : Log} {e : Event} {trailing : ℕ}
      → Returned rt start events l
      → next_event rt l ≡ (l', ok (e, trailing))
      → Returned rt start (e ∷ events) l'

-- How many events are of a PCR.
abbrev pub count_pcr : ℕ → List Event → ℕ
count_pcr pcr [] = 0
count_pcr pcr (e ∷ l) = (if e.pcr_index == pcr then 1 else 0) + count_pcr pcr l

-- The index of each event is the number of events of its PCR before it, as a 64-bit number.
abbrev pub AreIndexed : List Event → Type 0
AreIndexed [] = Unit
AreIndexed (e ∷ l) = (e.index ≡ count_pcr e.pcr_index l % 2 ^ 64) × AreIndexed l

abbrev Tracks : List Event → Map ℕ → Type 0
Tracks events tracker = (pcr : ℕ) → next_index pcr tracker ≡ count_pcr pcr events % 2 ^ 64

next_index-insert :
    (pcr k i : ℕ) (m : Map ℕ)
    → next_index k (insert pcr ((i + 1) % 2 ^ 64) m)
      ≡ (if pcr == k then (i + 1) % 2 ^ 64 else next_index k m)
unfolding next_index
next_index-insert pcr k i m = ground (arith, lookup-insert pcr k ((i + 1) % 2 ^ 64) m)

settle-Tracks :
    (events : List Event) (l : Log) (p : Stream × Result (Event × ℕ)) {l' : Log} {e : Event} {n : ℕ}
    → settle l p ≡ (l', ok (e, n))
    → Tracks events l.index_tracker
    → (e.index ≡ count_pcr e.pcr_index events % 2 ^ 64) × Tracks (e ∷ events) l'.index_tracker
unfolding settle accept
settle-Tracks events l (s, ok (x, m)) {l'} {e} h t = (
  ground (arith, t x.pcr_index),
  λ pcr. ground (
    arith,
    next_index-insert x.pcr_index pcr (next_index x.pcr_index l.index_tracker) l.index_tracker,
    t pcr,
    t x.pcr_index,
  ),
)
settle-Tracks events l (s, err x) h t = absurd (ground arith)
settle-Tracks events l (s, panic) h t = absurd (ground arith)

next_event-Tracks :
    (rt : Runtime) (events : List Event) (l : Log) {l' : Log} {e : Event} {n : ℕ}
    → next_event rt l ≡ (l', ok (e, n))
    → Tracks events l.index_tracker
    → (e.index ≡ count_pcr e.pcr_index events % 2 ^ 64) × Tracks (e ∷ events) l'.index_tracker
next_event-Tracks rt events l h t = elim (Bool-cases l.failed) [
  | inl f ↦ cc (next_event-previous_error rt l f)
  | inr f ↦
      settle-Tracks events l (read_next_event rt l.stream) (sym (next_event-open rt l f) ∙ h) t
]

Returned-Tracks :
    {rt : Runtime} {start : Log} {events : List Event} {l : Log}
    → start.index_tracker ≡ []
    → Returned rt start events l
    → AreIndexed events × Tracks events l.index_tracker
unfolding next_index lookup
Returned-Tracks h none_yet = (tt, λ pcr. rw h)
Returned-Tracks h (one_more {events} {l} r step) =
    let (indexed, tracks) = Returned-Tracks h r in
    let (index, tracks') = next_event-Tracks _ events l step tracks in ((index, indexed), tracks')

-- In any run of calls from a log with an empty tracker, the index of every event is the number of
-- events of its PCR that came before it, as a 64-bit number.
pub Returned-AreIndexed :
    {rt : Runtime} {start : Log} {events : List Event} {l : Log}
    → start.index_tracker ≡ []
    → Returned rt start events l
    → AreIndexed events
Returned-AreIndexed h r = (Returned-Tracks h r).0
