-- ===== src/Validate/Check/Count.antt =====
-- No more bytes are counted as trailing than were measured.
use mathlib.Core.Path.{subst}
use tcglog_parser.Common.{
  ℕ, zero, suc, ◌-◌, ◌≤◌, Bool, true, false, Option, none, some, [], ◌∷◌, arith, ◌==◌, ◌&&◌,
  if◌then◌else◌, length, take, length-take, Map, sym,
}
use tcglog_parser.Errors.{ok, ◌>>=◌, Yields, Yields-ok, Yields-panic, Yields-bind, Yields-if}
use tcglog_parser.Go.Reader.{Bytes}
use tcglog_parser.Go.Runtime.{Runtime}
use tcglog_parser.Types.Algorithm
use tcglog_parser.Types.EventType
use tcglog_parser.Log.Format.{Event}
use tcglog_parser.Log.Ready.{HasRoom}
use tcglog_parser.Validate.Check.Long.{IsLong, determine_measured_bytes-IsLong}
use tcglog_parser.Validate.Check.Kept.{check_digest-event}
use tcglog_parser.Validate.Check.{
  Behaviour, ValidatedEvent, is_expected_digest_value, trailing_loop, trailing_of, is_var_data_only,
  var_data_only, is_unknown, Verdict, not_determined, fits, wrong, try_behaviour, behaviour_loop,
  record_verdict, check_known, check_unknown, check_digest, check_digests_loop,
  determine_measured_bytes,
}

-- The measured bytes of an event reach back over those counted as trailing.
abbrev pub IsCounted : ValidatedEvent → Type 0
IsCounted v = v.measured_trailing_bytes_count ≤ length v.measured_bytes

abbrev Found : Option (Bytes × ℕ) → Type 0
Found (some (b, n)) = n ≤ length b
Found none = Unit

abbrev IsSound : Verdict → Type 0
IsSound (fits behaviour b n) = n ≤ length b
IsSound not_determined = Unit
IsSound wrong = Unit

trailing_loop-Found :
    (rt : Runtime) (digest : Bytes) (alg : ℕ) (measured : Bytes) (trailing : ℕ)
    → trailing ≤ length measured
    → Yields Found (trailing_loop rt digest alg measured trailing)
unfolding trailing_loop
trailing_loop-Found rt digest alg measured zero h =
    Yields-bind (is_expected_digest_value rt digest alg measured)
      λ (good, x) _. Yields-ok (hit good)
  where
    hit : (good : Bool) → Found (if good then some (measured, 0) else none)
    hit true = omega arith
    hit false = tt
trailing_loop-Found rt digest alg measured (suc trailing) h =
    let n = length measured in
    let room : trailing ≤ length (take (n - 1) measured) =
      omega (arith, h, length-take (n - 1) measured (omega arith)) in
    let shorter = trailing_loop-Found rt digest alg (take (n - 1) measured) trailing room in
    Yields-bind (is_expected_digest_value rt digest alg measured)
      λ (good, x) _. Yields-if good (Yields-ok h) (Yields-if (n == 0) Yields-panic shorter)

module _ (rt : Runtime) (e : Event) (trailing : ℕ) (room : HasRoom e.content trailing) where
  try_behaviour-IsSound :
      (alg : ℕ) (digest : Bytes) (behaviour : Behaviour)
      → Yields IsSound (try_behaviour rt e alg digest trailing behaviour)
  unfolding try_behaviour
  try_behaviour-IsSound alg digest behaviour =
      go (determine_measured_bytes e.event_type e.content (is_var_data_only behaviour)) (
        determine_measured_bytes-IsLong e.event_type e.content (is_var_data_only behaviour) trailing
          room)
    where
      sound :
          (o : Option (Bytes × ℕ))
          → Found o
          → IsSound (elim o [ some (b, n) ↦ fits behaviour b n | none ↦ wrong ])
      sound (some (b, n)) h = h
      sound none h = tt

      go :
          (p : Option Bytes × Bool)
          → IsLong trailing p
          → Yields IsSound (elim p.0 [
            | none ↦ ok not_determined
            | some measured ↦ do
              found ← trailing_loop rt digest alg measured (trailing_of p.1 trailing)
              ok (elim found [ some (b, n) ↦ fits behaviour b n | none ↦ wrong ])
          ])
      go (none, check) long = Yields-ok tt
      go (some measured, check) long =
          let n = trailing_of check trailing in
          Yields-bind (trailing_loop rt digest alg measured n) λ found h.
            Yields-ok
              (sound found ((trailing_loop-Found rt digest alg measured n long).holds found h))

  behaviour_loop-IsSound :
      (alg : ℕ) (digest : Bytes) (behaviour : Behaviour)
      → Yields IsSound (behaviour_loop rt e alg digest trailing behaviour)
  unfolding behaviour_loop
  behaviour_loop-IsSound alg digest behaviour =
      let again = try_behaviour-IsSound alg digest var_data_only in
      Yields-bind (try_behaviour rt e alg digest trailing behaviour)
        λ w h. go w ((try_behaviour-IsSound alg digest behaviour).holds w h) again
    where
      go :
          (w : Verdict)
          → IsSound w
          → Yields IsSound (try_behaviour rt e alg digest trailing var_data_only)
          → Yields IsSound (elim w [
            | wrong ↦
                if e.event_type == EventType.efi_variable_boot && is_unknown behaviour
                then try_behaviour rt e alg digest trailing var_data_only
                else ok wrong
            | other ↦ ok other
          ])
      go not_determined h again = Yields-ok tt
      go (fits b m n) h again = Yields-ok h
      go wrong h again =
          Yields-if (e.event_type == EventType.efi_variable_boot && is_unknown behaviour) again
            (Yields-ok tt)

record_verdict-IsCounted :
    (rt : Runtime) (alg : ℕ) (known : Behaviour) (v : ValidatedEvent) (w : Verdict)
    → IsCounted v
    → IsSound w
    → Yields (λ r. IsCounted r.1) (record_verdict rt alg known v w)
unfolding record_verdict
record_verdict-IsCounted rt alg known v not_determined c h = Yields-ok c
record_verdict-IsCounted rt alg known v (fits b m n) c h = Yields-ok h
record_verdict-IsCounted rt alg known v wrong c h =
    Yields-bind (Algorithm.hash rt alg _) λ x _. Yields-ok c

check_digest-IsCounted :
    (rt : Runtime) (trailing alg : ℕ) (digest : Bytes) (known : Behaviour) (v : ValidatedEvent)
    → HasRoom v.event.content trailing
    → IsCounted v
    → Yields (λ r. IsCounted r.1) (check_digest rt trailing alg digest known v)
unfolding check_digest check_unknown check_known
check_digest-IsCounted rt trailing alg digest known v room c =
    Yields-if (length v.measured_bytes == 0)
      (Yields-bind (behaviour_loop rt v.event alg digest trailing known) λ w h.
        Yields-bind (record_verdict rt alg known v w) λ (known', v') h'. Yields-ok (
          (record_verdict-IsCounted rt alg known v w c
              ((behaviour_loop-IsSound rt v.event trailing room alg digest known).holds w h)).holds
            _ h'))
      (Yields-bind (check_known rt alg digest v) λ v' h. Yields-ok (known_counted.holds v' h))
  where
    choose : (b : Bool) (v' : ValidatedEvent) → IsCounted v' → IsCounted (if b then v else v')
    choose true v' k = c
    choose false v' k = k

    known_counted : Yields IsCounted (check_known rt alg digest v)
    known_counted =
        Yields-bind (is_expected_digest_value rt digest alg v.measured_bytes)
          λ (good, x) _. Yields-ok (choose good _ c)

pub check_digests_loop-IsCounted :
    (rt : Runtime) (trailing : ℕ) (m : Map Bytes) (known : Behaviour) (v : ValidatedEvent)
    → HasRoom v.event.content trailing
    → IsCounted v
    → Yields (λ r. IsCounted r.1) (check_digests_loop rt trailing m known v)
unfolding check_digests_loop
check_digests_loop-IsCounted rt trailing [] known v room c = Yields-ok c
check_digests_loop-IsCounted rt trailing ((alg, digest) ∷ m) known v room c =
    Yields-bind (check_digest rt trailing alg digest known v) λ (known', v', done) h.
      let same = (check_digest-event rt trailing alg digest known v).holds _ h in
      let counted = (check_digest-IsCounted rt trailing alg digest known v room c).holds _ h in
      let room' = subst (λ x. HasRoom x.content trailing) (sym same) room in
      Yields-if done (Yields-ok counted)
        (check_digests_loop-IsCounted rt trailing m known' v' room' counted)
