-- ===== src/Log/Banks.antt =====
-- The digests of a crypto-agile log's events, for the algorithms of the log.
use tcglog_parser.Common.{
  ℕ, ◌≡◌, refl, sym, ap, ◌∙◌, inl, inr, true, some, List, [], ◌∷◌, arith, ◌==◌, ==_iff, Bool-cases,
  length, Map, lookup, lookup-insert,
}
use tcglog_parser.Errors.{Result, ok, err, panic, Yields, Yields-map}
use tcglog_parser.Go.Reader.{Bytes}
use tcglog_parser.Go.Runtime.{Runtime}
use tcglog_parser.Types.{LogOptions}
use tcglog_parser.Types.Algorithm
use tcglog_parser.EventData.{AlgorithmSize, EventData, spec_id}
use tcglog_parser.Log.Format.{Event, find_digest_size, read_next_event_2}
use tcglog_parser.Decode.SpecId.{check_digest_sizes}
use tcglog_parser.Log.Format.Sizes.{check_digest_sizes-size}
use tcglog_parser.Log.Format.Digests.{AreAgile, read_next_event_2-Yields}
use tcglog_parser.Log.{
  stream_2, advance, read_next_event, Log, zero_digest, add_zero_digests, fixup_spec_id_event,
  accept, settle, next_event, supported_algorithms,
}
use tcglog_parser.Log.State.{next_event-open, next_event-previous_error}

add_zero_digests-lookup :
    (l : List ℕ) (m : Map Bytes) (alg : ℕ) {d : Bytes}
    → lookup alg m ≡ some d
    → lookup alg (add_zero_digests l m) ≡ some d
unfolding add_zero_digests
add_zero_digests-lookup [] m alg h = h
add_zero_digests-lookup (a ∷ l) m alg h =
    add_zero_digests-lookup l _ alg (ground (arith, lookup-insert a alg (zero_digest a) m))

fixup-lookup :
    (l : List ℕ) (c : EventData) (m : Map Bytes) (alg : ℕ) {d : Bytes}
    → lookup alg m ≡ some d
    → lookup alg (fixup_spec_id_event l c m) ≡ some d
unfolding fixup_spec_id_event
fixup-lookup l (spec_id x) m alg h = ground (arith, add_zero_digests-lookup l m alg h)
fixup-lookup l _ m alg h = h

supported_algorithms-find :
    (l : List AlgorithmSize) (alg : ℕ)
    → Algorithm.contains (supported_algorithms l) alg ≡ true
    → (Algorithm.supported alg ≡ true) × ((n : ℕ) × (find_digest_size l alg ≡ some n))
unfolding supported_algorithms find_digest_size Algorithm.contains
supported_algorithms-find [] alg h = cc
supported_algorithms-find (a ∷ l) alg h = elim (Bool-cases (Algorithm.supported a.algorithm_id)) [
  | inl has_hash ↦ elim (Bool-cases (a.algorithm_id == alg)) [
    | inl same ↦ (
      ap Algorithm.supported (sym ((==_iff a.algorithm_id alg).0 same)) ∙ has_hash,
      (a.digest_size, ground arith),
    )
    | inr other ↦
        let (s, (n, found)) = supported_algorithms-find l alg (ground arith) in
        (s, (n, ground arith))
  ]
  | inr no_hash ↦
      let (s, (n, found)) = supported_algorithms-find l alg (ground arith) in
      elim (Bool-cases (a.algorithm_id == alg)) [
        | inl same ↦ (s, (a.digest_size, ground arith))
        | inr other ↦ (s, (n, ground arith))
      ]
]

-- The digest of an algorithm, of the size of its hash.
abbrev pub HasDigest : ℕ → Map Bytes → Type 0
HasDigest alg m = (d : Bytes) × (lookup alg m ≡ some d) × (Algorithm.size alg ≡ ok (length d))

agile-HasDigest :
    (l : List AlgorithmSize) (alg : ℕ) (m : Map Bytes)
    → AreAgile l m
    → check_digest_sizes l ≡ ok tt
    → Algorithm.contains (supported_algorithms l) alg ≡ true
    → HasDigest alg m
agile-HasDigest l alg m agile checked h =
    let (s, (n, found)) = supported_algorithms-find l alg h in
    let (d, there) = agile.all alg n s found in
    (d, there, check_digest_sizes-size l alg (length d) checked (agile.only alg d there).1 s)

settle-HasDigest :
    (l : Log) (options : LogOptions) (sizes : List AlgorithmSize) (s : Bytes) (alg : ℕ)
    (r : Result (Event × ℕ × Bytes)) {l' : Log} {e : Event} {n : ℕ}
    → Yields (λ x. HasDigest alg x.0.digests) r
    → settle l (advance (stream_2 options sizes true) s r) ≡ (l', ok (e, n))
    → HasDigest alg e.digests
unfolding settle advance accept
settle-HasDigest l options sizes s alg (ok (x, k, s')) {e} y h =
    let (d, there, size) = y.holds _ refl in
    (
      d,
      ap (λ m. lookup alg m) (ground arith)
          ∙ fixup-lookup l.algorithms x.content x.digests alg there,
      size,
    )
settle-HasDigest l options sizes s alg (err x) y h = absurd (ground arith)
settle-HasDigest l options sizes s alg panic y h = absurd (ground arith)

-- Each event that a log of the crypto-agile format returns behind its first one has a digest for
-- each algorithm of the log, of the size of its hash, where the digest sizes of the Spec ID event
-- passed their check.
pub next_event-HasDigest :
    (rt : Runtime) (l : Log) (options : LogOptions) (sizes : List AlgorithmSize) (s : Bytes)
    (alg : ℕ) {l' : Log} {e : Event} {n : ℕ}
    → l.stream ≡ stream_2 options sizes true s
    → l.algorithms ≡ supported_algorithms sizes
    → check_digest_sizes sizes ≡ ok tt
    → Algorithm.contains l.algorithms alg ≡ true
    → next_event rt l ≡ (l', ok (e, n))
    → HasDigest alg e.digests
unfolding read_next_event
next_event-HasDigest rt l options sizes s alg {l'} {e} {n} here algorithms accepted listed h =
    elim (Bool-cases l.failed) [
      | inl f ↦ cc (next_event-previous_error rt l f)
      | inr f ↦
          settle-HasDigest l options sizes s alg (read_next_event_2 rt options sizes s)
            (Yields-map
              (λ r v.
                agile-HasDigest sizes alg r.0.digests v.has_digests accepted
                  (ap (λ a. Algorithm.contains a alg) (sym algorithms) ∙ listed))
              (read_next_event_2-Yields rt options sizes s))
            (ap (λ x. settle l (read_next_event rt x)) (sym here)
              ∙ sym (next_event-open rt l f)
              ∙ h)
    ]
