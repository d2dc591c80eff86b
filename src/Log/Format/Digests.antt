-- ===== src/Log/Format/Digests.antt =====
-- The digests of every event of a crypto-agile log: one for each supported algorithm of the Spec ID
-- event, of the size that the Spec ID event gives, and no other.
use tcglog_parser.Common.{
  ℕ, zero, suc, ◌≤◌, ◌≡◌, refl, sym, ap, ◌∙◌, inl, inr, true, false, Option, none, some, List, [],
  ◌∷◌, arith, ◌==◌, Bool-cases, Option-cases, length, Map, lookup, insert, keep_keys, IsMap,
  lookup-insert, lookup-keep_keys, insert-IsMap, keep_keys-IsMap,
}
use tcglog_parser.Errors.{ok, Yields, Yields-ok, Yields-bind, ok-injective}
use tcglog_parser.Go.Reader.{Bytes, read_full, le_at, read_uint}
use tcglog_parser.Go.Runtime.{Runtime}
use tcglog_parser.Types.{LogOptions}
use tcglog_parser.Types.Algorithm
use tcglog_parser.EventData.{AlgorithmSize}
use tcglog_parser.Go.Reader.Laws.{read_full-ok, read_uint-ok}
use tcglog_parser.Log.Format.Sound.{
  reading-eq-ok, check_pcr_index-in_range, finish_event-IsRead, IsEvent,
}
use tcglog_parser.Log.Format.{
  Event, reading, check_pcr_index, read_next_event_2, find_digest_size, read_digest, read_digests,
  check_digests, first_algorithm, digest_of, recognized, add_digest,
}

-- While digests are read: distinct algorithms, each known, each digest of its size.
record IsPartial (l : List AlgorithmSize) (m : Map Bytes) : Type 0 where
  distinct : IsMap m
  sized : (alg : ℕ) (d : Bytes) → lookup alg m ≡ some d → find_digest_size l alg ≡ some (length d)

insert-sized :
    (l : List AlgorithmSize) (m : Map Bytes) (alg : ℕ) (d : Bytes)
    → find_digest_size l alg ≡ some (length d)
    → IsPartial l m
    → IsPartial l (insert alg d m)
insert-sized l m alg d size p = record {
  distinct = insert-IsMap alg d m p.distinct;
  sized = λ k x h. ground (arith, lookup-insert alg k d m, p.sized k x);
}

recognized-ok : (alg : ℕ) (o : Option ℕ) {n : ℕ} → recognized alg o ≡ ok n → o ≡ some n
recognized-ok alg (some n) h = ap some (ok-injective h)
recognized-ok alg none h = cc

add_digest-ok :
    (alg : ℕ) (d : Bytes) (m : Map Bytes) (o : Option Bytes) {m' : Map Bytes}
    → add_digest alg d m o ≡ ok m'
    → (o ≡ none) × (m' ≡ insert alg d m)
add_digest-ok alg d m none h = (refl, sym (ok-injective h))
add_digest-ok alg d m (some _) h = cc

abbrev Reads : List AlgorithmSize → Bytes → Map Bytes × Bytes → Type 0
Reads l s (m, s') = IsPartial l m × (length s' ≤ length s)

read_digest-Reads :
    (l : List AlgorithmSize) (m : Map Bytes) (s : Bytes)
    → IsPartial l m
    → Yields (Reads l s) (read_digest l m s)
unfolding read_digest
read_digest-Reads l m s p = Yields-bind (reading true (read_uint 2 s)) λ (alg, s1) e1.
    Yields-bind (recognized alg (find_digest_size l alg)) λ size e2.
      Yields-bind (reading true (read_full size s1)) λ (digest, s2) e3.
        Yields-bind (add_digest alg digest m (lookup alg m)) λ m' e4.
          let part = read_full-ok size s1 (reading-eq-ok true _ e3) in
          let known = recognized-ok alg (find_digest_size l alg) e2 ∙ ap some (sym part.0) in
          let new = (add_digest-ok alg digest m (lookup alg m) e4).1 in
          Yields-ok (
            rw new (insert-sized l m alg digest known p),
            omega (arith, read_uint-ok 2 s (reading-eq-ok true _ e1), part.2),
          )

read_digests-Reads :
    (l : List AlgorithmSize) (n : ℕ) (m : Map Bytes) (s : Bytes)
    → IsPartial l m
    → Yields (Reads l s) (read_digests l n m s)
unfolding read_digests
read_digests-Reads l zero m s p = Yields-ok (p, omega arith)
read_digests-Reads l (suc n) m s p = Yields-bind (read_digest l m s) λ (m', s') e.
    let one = (read_digest-Reads l m s p).holds (m', s') e in
    record {
      holds =
          λ r h. let rest = (read_digests-Reads l n m' s' one.0).holds r h in (rest.0, omega arith);
    }

check_digests_complete :
    (l : List AlgorithmSize) (m : Map Bytes) {u : Unit {0}} (alg n : ℕ)
    → check_digests l m ≡ ok u
    → find_digest_size l alg ≡ some n
    → (d : Bytes) × (lookup alg m ≡ some d)
unfolding check_digests find_digest_size
check_digests_complete [] m alg n h e = cc
check_digests_complete (a ∷ l) m alg n h e = elim (Option-cases (lookup a.algorithm_id m)) [
  | inl missing ↦ absurd (ground arith)
  | inr (d, found) ↦ elim (Bool-cases (a.algorithm_id == alg)) [
    | inl same ↦ (d, ground arith)
    | inr other ↦ check_digests_complete l m alg n (ground arith) (ground arith)
  ]
]

-- The digests of an event, against the algorithms of the Spec ID event.
pub record AreAgile (l : List AlgorithmSize) (m : Map Bytes) : Type 0 where
  pub distinct : IsMap m
  pub only :
      (alg : ℕ) (d : Bytes)
      → lookup alg m ≡ some d
      → (Algorithm.supported alg ≡ true) × (find_digest_size l alg ≡ some (length d))
  pub all :
      (alg n : ℕ)
      → Algorithm.supported alg ≡ true
      → find_digest_size l alg ≡ some n
      → (d : Bytes) × (lookup alg m ≡ some d)

kept-AreAgile :
    (l : List AlgorithmSize) (m : Map Bytes) {u : Unit {0}}
    → IsPartial l m
    → check_digests l m ≡ ok u
    → AreAgile l (keep_keys Algorithm.supported m)
kept-AreAgile l m p h = record {
  distinct = keep_keys-IsMap Algorithm.supported m p.distinct;
  only = λ alg d e. ground (arith, lookup-keep_keys Algorithm.supported alg m, p.sized alg d);
  all = λ alg n s e.
      let (d, found) = check_digests_complete l m alg n h e in
      (d, rw (lookup-keep_keys Algorithm.supported alg m, s) found);
}

-- The rule for a bind.
pub read_next_event_2-Yields :
    (rt : Runtime) (options : LogOptions) (l : List AlgorithmSize) (s : Bytes)
    → Yields (λ r. IsEvent (AreAgile l) rt options s r.0 r.1 r.2) (read_next_event_2 rt options l s)
unfolding read_next_event_2
read_next_event_2-Yields rt options l s =
    Yields-bind (reading false (read_full 12 s)) λ (header, s1) e1.
      Yields-bind (check_pcr_index (le_at 0 4 header)) λ _ e2.
        Yields-bind (read_digests l (le_at 8 4 header) [] s1) λ (m, s2) e3.
          Yields-bind (check_digests l m) λ _ e4.
            let kept = keep_keys Algorithm.supported m in
            Yields-bind (first_algorithm l) λ alg e5. record {
              holds = λ r h.
                  let read =
                    (finish_event-IsRead rt options (le_at 0 4 header) (le_at 4 4 header) kept
                        (digest_of alg kept) alg s2).holds
                      r h in
                  let empty : IsPartial l [] = record {
                    distinct = tt;
                    sized = λ k d x. unfold lookup in cc;
                  } in
                  let digests =
                    (read_digests-Reads l (le_at 8 4 header) [] s1 empty).holds (m, s2) e3 in
                  record {
                    in_range = rw read.same_pcr (check_pcr_index-in_range (le_at 0 4 header) e2);
                    has_digests = rw read.same_digests (kept-AreAgile l m digests.0 e4);
                    bytes = read.bytes;
                    is_error = read.is_error;
                    decodes = rw (read.same_pcr, read.same_type) read.decodes;
                    shorter = omega (
                      arith,
                      read.takes,
                      (read_full-ok 12 s (reading-eq-ok false _ e1)).2,
                      digests.1,
                    );
                  };
            }

-- Every event behind the first of a crypto-agile log has one digest for each supported algorithm of
-- the Spec ID event, of the size given there, and no other digest; its PCR index is at most 31; and
-- its data is that of some bytes, and the stream is shorter behind it.
pub read_next_event_2-IsEvent :
    (rt : Runtime) (options : LogOptions) (l : List AlgorithmSize) (s : Bytes) {e : Event}
    {trailing : ℕ} {s' : Bytes}
    → read_next_event_2 rt options l s ≡ ok (e, trailing, s')
    → IsEvent (AreAgile l) rt options s e trailing s'
read_next_event_2-IsEvent rt options l s h = (read_next_event_2-Yields rt options l s).holds _ h
