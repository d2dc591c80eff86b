-- ===== src/Validate/Check/Kept.antt =====
-- Checking the digests of an event does not change the event.
use tcglog_parser.Common.{ℕ, ◌≡◌, refl, ◌∙◌, [], ◌∷◌, arith, ◌==◌, length, Map}
use tcglog_parser.Errors.{Yields, Yields-ok, Yields-bind, Yields-if, Yields-map}
use tcglog_parser.Go.Reader.{Bytes}
use tcglog_parser.Go.Runtime.{Runtime}
use tcglog_parser.Types.Algorithm
use tcglog_parser.Validate.Check.{
  Behaviour, ValidatedEvent, is_expected_digest_value, Verdict, not_determined, fits, wrong,
  behaviour_loop, record_verdict, check_known, check_unknown, check_digest, check_digests_loop,
}

record_verdict-event :
    (rt : Runtime) (alg : ℕ) (known : Behaviour) (ve : ValidatedEvent) (w : Verdict)
    → Yields (λ r. r.1.event ≡ ve.event) (record_verdict rt alg known ve w)
unfolding record_verdict
record_verdict-event rt alg known ve not_determined = Yields-ok refl
record_verdict-event rt alg known ve (fits b m n) = Yields-ok refl
record_verdict-event rt alg known ve wrong =
    Yields-bind (Algorithm.hash rt alg _) λ h _. Yields-ok refl

check_known-event :
    (rt : Runtime) (alg : ℕ) (digest : Bytes) (ve : ValidatedEvent)
    → Yields (λ ve'. ve'.event ≡ ve.event) (check_known rt alg digest ve)
unfolding check_known
check_known-event rt alg digest ve =
    Yields-bind (is_expected_digest_value rt digest alg ve.measured_bytes)
      λ (good, h) _. Yields-ok (ground arith)

pub check_digest-event :
    (rt : Runtime) (trailing alg : ℕ) (digest : Bytes) (known : Behaviour) (ve : ValidatedEvent)
    → Yields (λ r. r.1.event ≡ ve.event) (check_digest rt trailing alg digest known ve)
unfolding check_digest check_unknown
check_digest-event rt trailing alg digest known ve =
    Yields-if (length ve.measured_bytes == 0)
      (Yields-bind (behaviour_loop rt ve.event alg digest trailing known) λ w _.
        Yields-bind (record_verdict rt alg known ve w)
          λ (known', ve') e. Yields-ok ((record_verdict-event rt alg known ve w).holds _ e))
      (Yields-bind (check_known rt alg digest ve)
        λ ve' e. Yields-ok ((check_known-event rt alg digest ve).holds ve' e))

pub check_digests_loop-event :
    (rt : Runtime) (trailing : ℕ) (m : Map Bytes) (known : Behaviour) (ve : ValidatedEvent)
    → Yields (λ r. r.1.event ≡ ve.event) (check_digests_loop rt trailing m known ve)
unfolding check_digests_loop
check_digests_loop-event rt trailing [] known ve = Yields-ok refl
check_digests_loop-event rt trailing ((alg, digest) ∷ m) known ve =
    Yields-bind (check_digest rt trailing alg digest known ve) λ (known', ve', done) e.
      let same = (check_digest-event rt trailing alg digest known ve).holds _ e in
      Yields-if done (Yields-ok same)
        (Yields-map (λ r q. q ∙ same) (check_digests_loop-event rt trailing m known' ve'))
