-- ===== src/Validate/Check/Total.antt =====
-- Checking the digests of an event for supported algorithms never fails.
use mathlib.Core.Path.{subst}
use tcglog_parser.Common.{
  ℕ, ◌≡◌, sym, Bool, true, false, Option, none, some, [], ◌∷◌, All, ◌==◌, if◌then◌else◌, ◌&&◌,
  length, Map,
}
use tcglog_parser.Errors.{ok, ◌>>=◌}
use tcglog_parser.Errors.Succeeds.{Succeeds, Succeeds-ok, Succeeds-bind, Succeeds-if}
use tcglog_parser.Go.Reader.{Bytes}
use tcglog_parser.Go.Runtime.{Runtime}
use tcglog_parser.Go.Text.{equal}
use tcglog_parser.Types.Algorithm
use tcglog_parser.Types.EventType
use tcglog_parser.Log.Format.{Event}
use tcglog_parser.Log.Ready.{HasRoom}
use tcglog_parser.Validate.Check.Long.{IsLong, determine_measured_bytes-IsLong}
use tcglog_parser.Validate.Check.{
  Behaviour, var_data_only, is_unknown, is_var_data_only, ValidatedEvent, determine_measured_bytes,
  is_expected_digest_value, trailing_loop, trailing_of, Verdict, not_determined, fits, wrong,
  try_behaviour, behaviour_loop, record_verdict, check_known, check_unknown, check_digest,
  check_digests_loop,
}
use tcglog_parser.Validate.Check.Trailing.{trailing_loop-IsLongestFit}
use tcglog_parser.Validate.Check.Kept.{check_digest-event}

module _ (rt : Runtime) (alg : ℕ) (digest : Bytes)
    (supported : Algorithm.supported alg ≡ true) where
  hash-Succeeds : (b : Bytes) → Succeeds (Algorithm.hash rt alg b)
  hash-Succeeds b = let (h, e, _) = Algorithm.hash-supported rt alg b supported in (h, e)

  is_expected_digest_value-Succeeds :
      (b : Bytes) → Succeeds (is_expected_digest_value rt digest alg b)
  unfolding is_expected_digest_value
  is_expected_digest_value-Succeeds b =
      Succeeds-bind (Algorithm.hash rt alg b) (hash-Succeeds b)
        λ h _. Succeeds-ok (equal digest h, h)

  -- The search under the bytes that may be measured.
  search-Succeeds :
      (behaviour : Behaviour) (trailing : ℕ) (p : Option Bytes × Bool)
      → IsLong trailing p
      → Succeeds (elim p.0 [
        | none ↦ ok not_determined
        | some measured ↦
            trailing_loop rt digest alg measured (trailing_of p.1 trailing) >>= λ found.
            ok (elim found [ some (b, n) ↦ fits behaviour b n | none ↦ wrong ])
      ])
  search-Succeeds behaviour trailing (none, check) long = Succeeds-ok not_determined
  search-Succeeds behaviour trailing (some m, check) long =
      let (o, e, _) =
        trailing_loop-IsLongestFit rt digest alg m (trailing_of check trailing) supported long in
      Succeeds-bind (trailing_loop rt digest alg m (trailing_of check trailing)) (o, e)
        λ found _. Succeeds-ok _

  module _ (e : Event) (trailing : ℕ) (room : HasRoom e.content trailing) where
    try_behaviour-Succeeds :
        (behaviour : Behaviour) → Succeeds (try_behaviour rt e alg digest trailing behaviour)
    unfolding try_behaviour
    try_behaviour-Succeeds behaviour =
        search-Succeeds behaviour trailing
          (determine_measured_bytes e.event_type e.content (is_var_data_only behaviour))
          (determine_measured_bytes-IsLong e.event_type e.content (is_var_data_only behaviour)
            trailing room)

    behaviour_loop-Succeeds :
        (behaviour : Behaviour) → Succeeds (behaviour_loop rt e alg digest trailing behaviour)
    unfolding behaviour_loop
    behaviour_loop-Succeeds behaviour =
        Succeeds-bind (try_behaviour rt e alg digest trailing behaviour)
          (try_behaviour-Succeeds behaviour) λ v _. again v
      where
        again :
            (v : Verdict)
            → Succeeds (elim v [
              | wrong ↦
                  if e.event_type == EventType.efi_variable_boot && is_unknown behaviour
                  then try_behaviour rt e alg digest trailing var_data_only
                  else ok wrong
              | other ↦ ok other
            ])
        again not_determined = Succeeds-ok not_determined
        again (fits b m n) = Succeeds-ok (fits b m n)
        again wrong =
            Succeeds-if (e.event_type == EventType.efi_variable_boot && is_unknown behaviour)
              (try_behaviour-Succeeds var_data_only) (Succeeds-ok wrong)

  record_verdict-Succeeds :
      (known : Behaviour) (ve : ValidatedEvent) (v : Verdict)
      → Succeeds (record_verdict rt alg known ve v)
  unfolding record_verdict
  record_verdict-Succeeds known ve not_determined = Succeeds-ok _
  record_verdict-Succeeds known ve (fits b m n) = Succeeds-ok _
  record_verdict-Succeeds known ve wrong =
      Succeeds-bind (Algorithm.hash rt alg _) (hash-Succeeds _) λ h _. Succeeds-ok _

  check_digest-Succeeds :
      (trailing : ℕ) (known : Behaviour) (ve : ValidatedEvent)
      → HasRoom ve.event.content trailing
      → Succeeds (check_digest rt trailing alg digest known ve)
  unfolding check_digest check_unknown check_known
  check_digest-Succeeds trailing known ve room =
      Succeeds-if (length ve.measured_bytes == 0)
        (Succeeds-bind (behaviour_loop rt ve.event alg digest trailing known)
          (behaviour_loop-Succeeds ve.event trailing room known)
          λ v _.
            Succeeds-bind (record_verdict rt alg known ve v) (record_verdict-Succeeds known ve v)
              λ r _. Succeeds-ok _)
        (Succeeds-bind (check_known rt alg digest ve)
          (Succeeds-bind (is_expected_digest_value rt digest alg ve.measured_bytes)
            (is_expected_digest_value-Succeeds ve.measured_bytes) λ r _. Succeeds-ok _)
          λ ve' _. Succeeds-ok (known, ve', false))

-- The algorithm of a digest has a hash function.
abbrev pub HasHash : ℕ × Bytes → Type 0
HasHash (alg, digest) = Algorithm.supported alg ≡ true

-- The check of digests of supported algorithms succeeds, where the event's data has room for the
-- trailing bytes.
pub check_digests_loop-Succeeds :
    (rt : Runtime) (trailing : ℕ) (m : Map Bytes) (known : Behaviour) (ve : ValidatedEvent)
    → All HasHash m
    → HasRoom ve.event.content trailing
    → Succeeds (check_digests_loop rt trailing m known ve)
unfolding check_digests_loop
check_digests_loop-Succeeds rt trailing [] known ve h room = Succeeds-ok (known, ve)
check_digests_loop-Succeeds rt trailing ((alg, digest) ∷ m) known ve (s, h) room =
    Succeeds-bind (check_digest rt trailing alg digest known ve)
      (check_digest-Succeeds rt alg digest s trailing known ve room)
      λ (known', ve', done) e.
        let same = (check_digest-event rt trailing alg digest known ve).holds _ e in
        Succeeds-if done (Succeeds-ok (known', ve')) (
          check_digests_loop-Succeeds rt trailing m known' ve' h
            (subst (λ x. HasRoom x.content trailing) (sym same) room))
