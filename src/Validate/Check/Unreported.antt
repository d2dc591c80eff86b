-- ===== src/Validate/Check/Unreported.antt =====
-- Digests that are not reported as incorrect.
use mathlib.Core.Path.{subst, ap₂}
use tcglog_parser.Common.{
  ℕ, ◌≤◌, ◌<◌, ◌≡◌, refl, sym, ap, ◌∙◌, ◌⊎◌, inl, inr, Bool, true, false, some, [], ◌∷◌, ◌++◌, All,
  arith, ◌==◌, if◌then◌else◌, Bool-cases, length, length-append, Map, lookup, IsMap, ==_iff,
}
use tcglog_parser.Errors.{ok, Yields, Yields-ok, Yields-bind, Yields-if_eq, Yields-map}
use tcglog_parser.Go.Reader.{Bytes}
use tcglog_parser.Go.Runtime.{Runtime}
use tcglog_parser.Types.Algorithm
use tcglog_parser.Validate.Check.{
  Behaviour, ValidatedEvent, is_expected_digest_value, Verdict, not_determined, fits, wrong,
  behaviour_loop, record_verdict, check_known, check_unknown, check_digest, check_digests_loop,
  check_event_digests,
}
use tcglog_parser.Validate.Check.Fits.{
  IsHashOf, VerdictIsHashOf, is_expected_digest_value-IsHashOf, behaviour_loop-IsHashOf,
}

module _ (rt : Runtime) (alg : ℕ) (digest : Bytes) where
  -- What one round over a digest does to the event: reports are added only, measured bytes are kept
  -- once there are some, and the digest is reported, or is that of the measured bytes, or the rounds
  -- end with no measured bytes.
  record IsStep (ve ve' : ValidatedEvent) (done : Bool) : Type 0 where
    grows : length ve.incorrect_digest_values ≤ length ve'.incorrect_digest_values
    keeps : 0 < length ve.measured_bytes → ve'.measured_bytes ≡ ve.measured_bytes
    verdict :
        (length ve.incorrect_digest_values < length ve'.incorrect_digest_values)
        ⊎ ((done ≡ false) × IsHashOf rt alg digest ve'.measured_bytes)
        ⊎ ((done ≡ true) × (length ve'.measured_bytes ≡ 0))

  reported-IsStep :
      (ve : ValidatedEvent) (x : Bytes)
      → IsStep ve
          (record ve {
            incorrect_digest_values =
                ve.incorrect_digest_values ++ (record { algorithm = alg; expected = x } ∷ []);
          })
          false
  reported-IsStep ve x = record {
    grows = omega (
      arith,
      length-append ve.incorrect_digest_values (record { algorithm = alg; expected = x } ∷ []),
    );
    keeps = λ _. refl;
    verdict = inl (
        omega (
          arith,
          length-append ve.incorrect_digest_values (record { algorithm = alg; expected = x } ∷ []),
        ));
  }

  check_known-IsStep :
      (ve : ValidatedEvent) → Yields (λ ve'. IsStep ve ve' false) (check_known rt alg digest ve)
  unfolding check_known
  check_known-IsStep ve =
      Yields-bind (is_expected_digest_value rt digest alg ve.measured_bytes) λ (good, h) e.
        Yields-ok (
          compared good h
            ((is_expected_digest_value-IsHashOf rt alg digest ve.measured_bytes).holds _ e))
    where
      compared :
          (good : Bool) (h : Bytes)
          → (good ≡ true → IsHashOf rt alg digest ve.measured_bytes)
          → IsStep ve
              (if good then ve else record ve {
                incorrect_digest_values =
                    ve.incorrect_digest_values ++ (record { algorithm = alg; expected = h } ∷ []);
              })
              false
      compared true h is = record {
        grows = omega arith;
        keeps = λ _. refl;
        verdict = inr (inl (refl, is refl));
      }
      compared false h is = reported-IsStep ve h

  record_verdict-IsStep :
      (known : Behaviour) (ve : ValidatedEvent) (v : Verdict)
      → length ve.measured_bytes ≡ 0
      → VerdictIsHashOf rt alg digest v
      → Yields
          (λ r. IsStep ve r.1 (elim v [ not_determined ↦ true | _ ↦ false ]))
          (record_verdict rt alg known ve v)
  unfolding record_verdict
  record_verdict-IsStep known ve not_determined empty h =
      Yields-ok
        (record { grows = omega arith; keeps = λ _. refl; verdict = inr (inr (refl, empty)) })
  record_verdict-IsStep known ve (fits b m n) empty h = Yields-ok (record {
    grows = omega arith;
    keeps = λ filled. absurd (omega arith);
    verdict = inr (inl (refl, h));
  })
  record_verdict-IsStep known ve wrong empty h =
      Yields-bind (Algorithm.hash rt alg _) λ x _. Yields-ok (reported-IsStep ve x)

  check_digest-IsStep :
      (trailing : ℕ) (known : Behaviour) (ve : ValidatedEvent)
      → Yields (λ (_, ve', done). IsStep ve ve' done) (check_digest rt trailing alg digest known ve)
  unfolding check_digest check_unknown
  check_digest-IsStep trailing known ve =
      Yields-if_eq (length ve.measured_bytes == 0)
        (λ empty. Yields-bind (behaviour_loop rt ve.event alg digest trailing known) λ v e1.
          Yields-bind (record_verdict rt alg known ve v) λ r e2. Yields-ok (
            (record_verdict-IsStep known ve v (ground arith)
                ((behaviour_loop-IsHashOf rt alg digest ve.event trailing known).holds v e1)).holds
              r e2))
        (λ filled.
          Yields-bind (check_known rt alg digest ve)
            λ ve' e. Yields-ok ((check_known-IsStep ve).holds ve' e))

-- What the loop over the digests does to the event; where no digest is reported and some bytes were
-- measured, each digest is that of the measured bytes or of no bytes at all.
record IsChecked (rt : Runtime) (ds : Map Bytes) (ve ve' : ValidatedEvent) : Type 0 where
  grows : length ve.incorrect_digest_values ≤ length ve'.incorrect_digest_values
  keeps : 0 < length ve.measured_bytes → ve'.measured_bytes ≡ ve.measured_bytes
  unreported :
      length ve'.incorrect_digest_values ≡ 0
      → 0 < length ve'.measured_bytes
      → All
          (λ (alg, digest). IsHashOf rt alg digest ve'.measured_bytes ⊎ IsHashOf rt alg digest [])
          ds

module _ (rt : Runtime) (alg : ℕ) (digest : Bytes) (ds : Map Bytes) where
  -- The round after which the function returns.
  last-IsChecked :
      (ve ve' : ValidatedEvent)
      → IsStep rt alg digest ve ve' true
      → IsChecked rt ((alg, digest) ∷ ds) ve ve'
  last-IsChecked ve ve' s = record {
    grows = s.grows;
    keeps = s.keeps;
    unreported = λ none_reported measured. absurd (elim s.verdict [
      | inl reported ↦ omega arith
      | inr (inl (go_on, _)) ↦ cc
      | inr (inr (_, empty)) ↦ omega arith
    ]);
  }

  empty-eq : (b : Bytes) → length b ≡ 0 → b ≡ []
  empty-eq [] h = refl
  empty-eq (x ∷ b) h = absurd (omega arith)

  more-IsChecked :
      (ve ve' end : ValidatedEvent)
      → IsStep rt alg digest ve ve' false
      → IsChecked rt ds ve' end
      → IsChecked rt ((alg, digest) ∷ ds) ve end
  more-IsChecked ve ve' end s c = record {
    grows = omega (arith, s.grows, c.grows);
    keeps = λ filled. c.keeps (ground (arith, s.keeps filled)) ∙ s.keeps filled;
    unreported = λ none_reported measured. (own none_reported, c.unreported none_reported measured);
  }
    where
      own :
          length end.incorrect_digest_values ≡ 0
          → IsHashOf rt alg digest end.measured_bytes ⊎ IsHashOf rt alg digest []
      own none_reported = elim s.verdict [
        | inl reported ↦ absurd (omega (arith, c.grows))
        | inr (inl (_, same)) ↦ elim (Bool-cases (length ve'.measured_bytes == 0)) [
          | inl empty ↦ inr (
              ap (rt.sum (Algorithm.get_hash alg))
                (sym (empty-eq ve'.measured_bytes (ground arith)))
              ∙ same)
          | inr filled ↦ inl (ap (rt.sum (Algorithm.get_hash alg)) (c.keeps (ground arith)) ∙ same)
        ]
        | inr (inr (stop, _)) ↦ absurd (cc)
      ]

check_digests_loop-IsChecked :
    (rt : Runtime) (trailing : ℕ) (ds : Map Bytes) (known : Behaviour) (ve : ValidatedEvent)
    → Yields (λ r. IsChecked rt ds ve r.1) (check_digests_loop rt trailing ds known ve)
unfolding check_digests_loop
check_digests_loop-IsChecked rt trailing [] known ve =
    Yields-ok (record { grows = omega arith; keeps = λ _. refl; unreported = λ _ _. tt })
check_digests_loop-IsChecked rt trailing ((alg, digest) ∷ ds) known ve =
    Yields-bind (check_digest rt trailing alg digest known ve) λ (known', ve', done) e.
      let step = (check_digest-IsStep rt alg digest trailing known ve).holds _ e in
      Yields-if_eq done
        (λ t.
          Yields-ok
            (last-IsChecked rt alg digest ds ve ve' (subst (IsStep rt alg digest ve ve') t step)))
        (λ f.
          Yields-map
            (λ r c.
              more-IsChecked rt alg digest ds ve ve' r.1
                (subst (IsStep rt alg digest ve ve') f step) c)
            (check_digests_loop-IsChecked rt trailing ds known' ve'))

All-lookup :
    (P : ℕ × Bytes → Type 0) (m : Map Bytes) {k : ℕ} {v : Bytes}
    → All P m
    → lookup k m ≡ some v
    → P (k, v)
unfolding lookup
All-lookup P [] all h = cc
All-lookup P ((j, w) ∷ m) {k} {v} all h = elim (Bool-cases (j == k)) [
  | inl same ↦
      subst P
        (ap₂ (λ x y. (x, y)) ((==_iff j k).0 same)
          (cc (ap (λ b. if b then some w else lookup k m) (sym same) ∙ h)))
        all.0
  | inr other ↦ All-lookup P m all.1 (ap (λ b. if b then some w else lookup k m) (sym other) ∙ h)
]

-- If checking the digests of an event, which are for distinct algorithms, reports none of them as
-- incorrect and finds the bytes that were measured, each digest of the event is the hash of those bytes by its algorithm, or the hash of no
-- bytes at all.
pub check_event_digests-unreported :
    (rt : Runtime) (n : ℕ) (known : Behaviour) (ve : ValidatedEvent) (trailing : ℕ)
    {known' : Behaviour} {ve' : ValidatedEvent} (alg : ℕ) {digest : Bytes}
    → IsMap ve.event.digests
    → check_event_digests rt n known ve trailing ≡ ok (known', ve')
    → length ve'.incorrect_digest_values ≡ 0
    → 0 < length ve'.measured_bytes
    → lookup alg ve.event.digests ≡ some digest
    → (rt.sum (Algorithm.get_hash alg) ve'.measured_bytes ≡ digest)
      ⊎ (rt.sum (Algorithm.get_hash alg) [] ≡ digest)
unfolding check_event_digests
check_event_digests-unreported rt n known ve trailing alg distinct h none_reported measured found =
    let checked =
      (check_digests_loop-IsChecked rt trailing (rt.range n ve.event.digests) known ve).holds _ h in
    All-lookup _ (rt.range n ve.event.digests) (checked.unreported none_reported measured)
      (rt.lookup-range n alg ve.event.digests distinct ∙ found)
