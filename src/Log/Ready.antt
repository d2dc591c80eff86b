-- ===== src/Log/Ready.antt =====
-- What a log hands to the validator: events with digests for supported algorithms.
use mathlib.Core.Path.{subst}
use tcglog_parser.Common.{
  ℕ, ◌≤◌, ◌≡◌, refl, sym, ap, ◌∙◌, inl, inr, Bool, true, false, Option, none, some, List, [], ◌∷◌,
  All, arith, ◌==◌, ==_iff, if◌then◌else◌, Bool-cases, length, Map, lookup, insert, lookup-insert,
  IsMap,
}
use tcglog_parser.Errors.{Result, ok, err, panic, Yields, Yields-map}
use tcglog_parser.Go.Reader.{Bytes}
use tcglog_parser.Go.Runtime.{Runtime}
use tcglog_parser.Types.{Spec, LogOptions, spec_unknown, spec_pc_client, spec_efi_1_2, spec_efi_2}
use tcglog_parser.Types.Algorithm
use tcglog_parser.EventData.{EventData, spec_id, efi_gpt, raw_bytes}
use tcglog_parser.Decode.Total.{decode_event_data-KeepsTrailing}
use tcglog_parser.Decode.Sound.{KeepsTrailing}
use tcglog_parser.Log.Format.{Event, read_next_event_1_2}
use tcglog_parser.Log.Format.Sound.{IsEvent, IsSha1, read_next_event_1_2-Yields}
use tcglog_parser.Log.Format.Digests.{read_next_event_2-Yields}
use tcglog_parser.Log.{
  Stream, stream_1_2, stream_2, no_options, advance, read_next_event, Log, zero_digest,
  add_zero_digests, fixup_spec_id_event, accept, settle, next_event,
}
use tcglog_parser.Log.Progress.{NextOfLog, next_event-NextOfLog}
use tcglog_parser.Log.State.{next_event-open, next_event-previous_error}

-- The bytes that the data gives reach back over the trailing ones; the data of a GPT event gives none,
-- which are never searched.
abbrev pub HasRoom : EventData → ℕ → Type 0
HasRoom (efi_gpt e) n = e.bytes ≡ none
HasRoom d n = n ≤ length (raw_bytes d)

KeepsTrailing-HasRoom :
    (bytes : Bytes) (d : EventData) (n : ℕ) → KeepsTrailing bytes (d, n) → HasRoom d n
unfolding raw_bytes
KeepsTrailing-HasRoom bytes (efi_gpt e) n (nil, few) = nil
KeepsTrailing-HasRoom bytes d n (same, few) = omega (arith, few, ap length same)

-- Every algorithm of a list has a hash function.
abbrev pub AllHash : List ℕ → Type 0
AllHash l = All (λ a. Algorithm.supported a ≡ true) l

-- Each digest of a map is for an algorithm with a hash function.
abbrev pub KeysHash : Map Bytes → Type 0
KeysHash m = (alg : ℕ) (d : Bytes) → lookup alg m ≡ some d → Algorithm.supported alg ≡ true

-- An event whose digests are for distinct algorithms with hash functions, and whose data has room for
-- its trailing bytes.
pub record IsReady (e : Event) (trailing : ℕ) : Type 0 where
  pub distinct : IsMap e.digests
  pub has_hash : KeysHash e.digests
  pub room : HasRoom e.content trailing

-- What an event has when it is read, before the log completes it.
record IsRead (e : Event) (trailing : ℕ) : Type 0 where
  keys : KeysHash e.digests
  room : HasRoom e.content trailing

IsEvent-HasRoom :
    {P : Map Bytes → Type 0} {rt : Runtime} {options : LogOptions} {s : Bytes} {e : Event}
    {trailing : ℕ} {s' : Bytes}
    → IsEvent P rt options s e trailing s'
    → HasRoom e.content trailing
IsEvent-HasRoom {rt} {options} {e} {trailing} v = KeepsTrailing-HasRoom v.bytes e.content trailing (
    decode_event_data-KeepsTrailing rt e.pcr_index e.event_type v.bytes options v.is_error
      v.decodes)

IsSha1-KeysHash : (m : Map Bytes) → IsSha1 m → KeysHash m
unfolding lookup Algorithm.supported Algorithm.get_hash
IsSha1-KeysHash m (d, e, _) alg x h = ground arith

abbrev ReadOf : Stream × Result (Event × ℕ) → Type 0
ReadOf (s, ok (e, n)) = IsRead e n
ReadOf (s, err x) = Unit
ReadOf (s, panic) = Unit

advance-ReadOf :
    (stream : Bytes → Stream) (s : Bytes) (r : Result (Event × ℕ × Bytes))
    → Yields (λ (e, n, s'). IsRead e n) r
    → ReadOf (advance stream s r)
unfolding advance
advance-ReadOf stream s (ok (e, n, s')) y = y.holds _ refl
advance-ReadOf stream s (err x) y = tt
advance-ReadOf stream s panic y = tt

first-IsRead :
    (rt : Runtime) (options : LogOptions) (s : Bytes)
    → Yields (λ (e, n, s'). IsRead e n) (read_next_event_1_2 rt options s)
first-IsRead rt options s =
    Yields-map
      (λ r v. record { keys = IsSha1-KeysHash r.0.digests v.has_digests; room = IsEvent-HasRoom v })
      (read_next_event_1_2-Yields rt options s)

read_next_event-ReadOf : (rt : Runtime) (s : Stream) → ReadOf (read_next_event rt s)
unfolding read_next_event
read_next_event-ReadOf rt (stream_1_2 options s) =
    advance-ReadOf (stream_1_2 options) s _ (first-IsRead rt options s)
read_next_event-ReadOf rt (stream_2 options l false s) =
    advance-ReadOf (stream_2 options l true) s _ (first-IsRead rt no_options s)
read_next_event-ReadOf rt (stream_2 options l true s) =
    advance-ReadOf (stream_2 options l true) s _ (
      Yields-map
        (λ r v. record {
          keys = λ alg d h. (v.has_digests.only alg d h).0;
          room = IsEvent-HasRoom v;
        })
        (read_next_event_2-Yields rt options l s))

insert-KeysHash :
    (a : ℕ) (v : Bytes) (m : Map Bytes)
    → Algorithm.supported a ≡ true
    → KeysHash m
    → KeysHash (insert a v m)
insert-KeysHash a v m s k alg d found = elim (Bool-cases (a == alg)) [
  | inl same ↦ ap Algorithm.supported (sym ((==_iff a alg).0 same)) ∙ s
  | inr other ↦ k alg d (
      ap (λ b. if b then some v else lookup alg m) (sym other)
      ∙ sym (lookup-insert a alg v m)
      ∙ found)
]

add_one-KeysHash :
    (a : ℕ) (m : Map Bytes)
    → Algorithm.supported a ≡ true
    → KeysHash m
    → KeysHash (
        if a == Algorithm.sha1
        then m
        else elim (lookup a m) [ some _ ↦ m | none ↦ insert a (zero_digest a) m ])
add_one-KeysHash a m s k = go (a == Algorithm.sha1) (lookup a m)
  where
    go :
        (b : Bool) (o : Option Bytes)
        → KeysHash (if b then m else elim o [ some _ ↦ m | none ↦ insert a (zero_digest a) m ])
    go true o = k
    go false (some x) = k
    go false none = insert-KeysHash a (zero_digest a) m s k

add_zero_digests-KeysHash :
    (l : List ℕ) (m : Map Bytes) → AllHash l → KeysHash m → KeysHash (add_zero_digests l m)
unfolding add_zero_digests
add_zero_digests-KeysHash [] m h k = k
add_zero_digests-KeysHash (a ∷ l) m (s, h) k =
    add_zero_digests-KeysHash l _ h (add_one-KeysHash a m s k)

fixup-KeysHash :
    (l : List ℕ) (c : EventData) (m : Map Bytes)
    → AllHash l
    → KeysHash m
    → KeysHash (fixup_spec_id_event l c m)
unfolding fixup_spec_id_event
fixup-KeysHash l (spec_id x) m h k = go x.spec
  where
    go : (spec : Spec) → KeysHash (elim spec [ spec_efi_2 ↦ add_zero_digests l m | _ ↦ m ])
    go spec_efi_2 = add_zero_digests-KeysHash l m h k
    go spec_unknown = k
    go spec_pc_client = k
    go spec_efi_1_2 = k
fixup-KeysHash l _ m h k = k

settle-IsReady :
    (l : Log) (p : Stream × Result (Event × ℕ)) {l' : Log} {e : Event} {n : ℕ}
    → AllHash l.algorithms
    → ReadOf p
    → settle l p ≡ (l', ok (e, n))
    → KeysHash e.digests × HasRoom e.content n
unfolding settle accept
settle-IsReady l (s, ok (x, k)) {l'} {e} {n} h v step =
    let digests : fixup_spec_id_event l.algorithms x.content x.digests ≡ e.digests = ground arith in
    let content : x.content ≡ e.content = ground arith in
    let count : k ≡ n = ground arith in
    (
      subst KeysHash digests (fixup-KeysHash l.algorithms x.content x.digests h v.keys),
      subst (λ c. HasRoom c n) content (subst (HasRoom x.content) count v.room),
    )
settle-IsReady l (s, err x) h v step = absurd (ground arith)
settle-IsReady l (s, panic) h v step = absurd (ground arith)

-- Every event that a log with supported algorithms returns is ready for the validator.
pub next_event-IsReady :
    (rt : Runtime) (l : Log) {l' : Log} {e : Event} {n : ℕ}
    → AllHash l.algorithms
    → next_event rt l ≡ (l', ok (e, n))
    → IsReady e n
next_event-IsReady rt l {l'} {e} {n} h step = elim (Bool-cases l.failed) [
  | inl f ↦ cc (next_event-previous_error rt l f)
  | inr f ↦
      let (keys, room) =
        settle-IsReady l (read_next_event rt l.stream) h (read_next_event-ReadOf rt l.stream)
          (sym (next_event-open rt l f) ∙ step) in
      let next : NextOfLog l (l', ok (e, n)) =
        subst (NextOfLog l) step (next_event-NextOfLog rt l) in
      record { distinct = next.0; has_hash = keys; room = room }
]
