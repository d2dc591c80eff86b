-- ===== src/Log/Format/Sizes.antt =====
-- The digest sizes of a Spec ID event that is accepted are those of its algorithms.
use tcglog_parser.Common.{
  ℕ, ◌*◌, ◌≡◌, sym, ap, ◌∙◌, inl, inr, true, some, List, [], ◌∷◌, arith, ◌==◌, if◌then◌else◌,
  ==_iff, Bool-cases,
}
use tcglog_parser.Errors.{
  Result, ok, err, ◌>>=◌, bind-eq-ok, invalid_spec_id_event, no_algorithms, digest_size_mismatch,
  Yields, Yields-ok, Yields-bind,
}
use tcglog_parser.Go.Reader.{Bytes, read_full, read_uint}
use tcglog_parser.Go.Runtime.{Runtime, make}
use tcglog_parser.Types.Algorithm
use tcglog_parser.EventData.{AlgorithmSize, SpecIdEventData}
use tcglog_parser.Decode.SpecId.{
  wrapped, read_vendor_info, algorithm_sizes, check_digest_sizes, parse_efi_2_spec_id_event,
}
use tcglog_parser.Log.Format.{find_digest_size}

compared :
    (n : ℕ) (d : AlgorithmSize) (rest : Result (Unit {0})) {u : Unit {0}}
    → (if n == d.digest_size
        then rest
        else err (invalid_spec_id_event (digest_size_mismatch d.algorithm_id d.digest_size n)))
      ≡ ok u
    → (n ≡ d.digest_size) × (rest ≡ ok u)
compared n d rest h = elim (Bool-cases (n == d.digest_size)) [
  | inl same ↦ (
    (==_iff n d.digest_size).0 same,
    ap
          (λ b.
            if b
            then rest
            else err (invalid_spec_id_event (digest_size_mismatch d.algorithm_id d.digest_size n)))
          (sym same)
        ∙ h,
  )
  | inr other ↦ absurd (
      cc (
        ap
          (λ b.
            if b
            then rest
            else err (invalid_spec_id_event (digest_size_mismatch d.algorithm_id d.digest_size n)))
          (sym other)
        ∙ h))
]

-- The head of a list that passes the check, and the rest of it.
check_digest_sizes-cons :
    (d : AlgorithmSize) (ds : List AlgorithmSize) {u : Unit {0}}
    → check_digest_sizes (d ∷ ds) ≡ ok u
    → (Algorithm.supported d.algorithm_id ≡ true → Algorithm.size d.algorithm_id ≡ ok d.digest_size)
      × (check_digest_sizes ds ≡ ok u)
unfolding check_digest_sizes
check_digest_sizes-cons d ds {u} h = elim (Bool-cases (Algorithm.supported d.algorithm_id)) [
  | inl has_hash ↦
      let (m, e1, e2) = bind-eq-ok (Algorithm.size d.algorithm_id) _ (
        ap
          (λ b.
            if b
            then Algorithm.size d.algorithm_id >>= (λ k.
              if k == d.digest_size
              then check_digest_sizes ds
              else err
                  (invalid_spec_id_event (digest_size_mismatch d.algorithm_id d.digest_size k)))
            else check_digest_sizes ds)
          (sym has_hash)
        ∙ h) in
      let (e3, e4) = compared m d (check_digest_sizes ds) e2 in ((λ _. e1 ∙ ap ok e3), e4)
  | inr no_hash ↦ ((λ has_hash. cc), ground arith)
]

pub check_digest_sizes-size :
    (l : List AlgorithmSize) (alg n : ℕ) {u : Unit {0}}
    → check_digest_sizes l ≡ ok u
    → find_digest_size l alg ≡ some n
    → Algorithm.supported alg ≡ true
    → Algorithm.size alg ≡ ok n
unfolding find_digest_size
check_digest_sizes-size [] alg n h found s = cc
check_digest_sizes-size (d ∷ ds) alg n h found s =
    let (own, rest) = check_digest_sizes-cons d ds h in
    elim (Bool-cases (d.algorithm_id == alg)) [
      | inl same ↦
          let here : d.algorithm_id ≡ alg = (==_iff d.algorithm_id alg).0 same in
          let size : n ≡ d.digest_size = ground arith in
          ap Algorithm.size (sym here) ∙ own (ap Algorithm.supported here ∙ s) ∙ ap ok (sym size)
      | inr other ↦ check_digest_sizes-size ds alg n rest (ground arith) s
    ]

-- A Spec ID event of the crypto-agile format that is accepted gives, to each algorithm with a hash
-- function, the size of the sums of that function as its digest size.
pub parse_efi_2_spec_id_event-size :
    (rt : Runtime) (s : Bytes) (d : SpecIdEventData) {d' : SpecIdEventData} (alg n : ℕ)
    → parse_efi_2_spec_id_event rt s d ≡ ok d'
    → find_digest_size d'.digest_sizes alg ≡ some n
    → Algorithm.supported alg ≡ true
    → Algorithm.size alg ≡ ok n
parse_efi_2_spec_id_event-size rt s d alg n h found supported =
    (parsed rt s d alg n).holds _ h found supported
  where
    parsed :
        (rt : Runtime) (s : Bytes) (d : SpecIdEventData) (alg n : ℕ)
        → Yields
            (λ d'.
              find_digest_size d'.digest_sizes alg ≡ some n
              → Algorithm.supported alg ≡ true
              → Algorithm.size alg ≡ ok n)
            (parse_efi_2_spec_id_event rt s d)
    parsed rt s d alg n =
        unfold parse_efi_2_spec_id_event in
        Yields-bind (wrapped (read_uint 4 s)) λ (k, s1) _.
          Yields-bind (if k == 0 then err (invalid_spec_id_event no_algorithms) else ok (tt {0}))
            λ _ _. Yields-bind (make rt 4 k) λ _ _.
              Yields-bind (wrapped (read_full (4 * k) s1)) λ (b, s2) _.
                Yields-bind (check_digest_sizes (algorithm_sizes k b)) λ _ e.
                  Yields-bind (read_vendor_info s2)
                    λ _ _. Yields-ok (check_digest_sizes-size (algorithm_sizes k b) alg n e)
