-- ===== src/TcglogValidate/Tpm/Values.antt =====
-- Values of banks in a map of maps.
use mathlib.Core.List.Memᴰ
use mathlib.Core.List.{Memᴰ}
use tcglog_parser.Common.{
  ℕ, ◌≡◌, sym, ap, ◌∙◌, ◌⊎◌, inl, inr, true, false, none, some, List, [], ◌∷◌, ◌==◌, ==_iff,
  Bool-cases, if◌then◌else◌, Map, lookup, insert, lookup-insert,
}
use tcglog_parser.Go.Reader.{Bytes}
use tcglog_parser.Log.Format.{digest_of}
use tcglog_parser.TcglogValidate.Tpm.{inner, value_at, empty_values}

-- Each PCR of a list has a map.
abbrev pub HasMaps : List ℕ → Map (Map Bytes) → Type 0
HasMaps pcrs m = (i : ℕ) → Memᴰ i pcrs → (values : Map Bytes) × (lookup i m ≡ some values)

pub value_at-insert_other :
    (i alg first : ℕ) (values : Map Bytes) (m : Map (Map Bytes))
    → (first == i) ≡ false
    → value_at i alg (insert first values m) ≡ value_at i alg m
value_at-insert_other i alg first values m h =
    ap (λ o. digest_of alg (inner o))
      (lookup-insert first i values m ∙ ap (λ b. if b then some values else lookup i m) h)

pub value_at-insert_same :
    (i alg first : ℕ) (values : Map Bytes) (m : Map (Map Bytes))
    → (first == i) ≡ true
    → value_at i alg (insert first values m) ≡ digest_of alg values
value_at-insert_same i alg first values m h =
    ap (λ o. digest_of alg (inner o))
      (lookup-insert first i values m ∙ ap (λ b. if b then some values else lookup i m) h)

pub digest_of-insert_same :
    (alg second : ℕ) (value : Bytes) (values : Map Bytes)
    → (second == alg) ≡ true
    → digest_of alg (insert second value values) ≡ value
unfolding digest_of
digest_of-insert_same alg second value values h =
    ap (λ o. elim o [ some d ↦ d | none ↦ [] ])
      (lookup-insert second alg value values
        ∙ ap (λ b. if b then some value else lookup alg values) h)

pub digest_of-insert_other :
    (alg second : ℕ) (value : Bytes) (values : Map Bytes)
    → (second == alg) ≡ false
    → digest_of alg (insert second value values) ≡ digest_of alg values
unfolding digest_of
digest_of-insert_other alg second value values h =
    ap (λ o. elim o [ some d ↦ d | none ↦ [] ])
      (lookup-insert second alg value values
        ∙ ap (λ b. if b then some value else lookup alg values) h)

pub insert-HasMaps :
    (first : ℕ) (values : Map Bytes) (m : Map (Map Bytes)) (pcrs : List ℕ)
    → HasMaps pcrs m
    → HasMaps pcrs (insert first values m)
insert-HasMaps first values m pcrs h i mem = elim (Bool-cases (first == i)) [
  | inl same ↦ (
    values,
    lookup-insert first i values m ∙ ap (λ b. if b then some values else lookup i m) same,
  )
  | inr other ↦
      let (old, found) = h i mem in
      (
        old,
        lookup-insert first i values m
            ∙ ap (λ b. if b then some values else lookup i m) other
            ∙ found,
      )
]

pub empty_values-HasMaps :
    (l : List ℕ) (m : Map (Map Bytes)) (pcrs : List ℕ)
    → ((i : ℕ) → Memᴰ i pcrs → Memᴰ i l ⊎ ((values : Map Bytes) × (lookup i m ≡ some values)))
    → HasMaps pcrs (empty_values l m)
unfolding empty_values
empty_values-HasMaps [] m pcrs h =
    λ i mem. elim (h i mem) [ inl here ↦ absurd (Memᴰ.not-nil here) | inr found ↦ found ]
empty_values-HasMaps (j ∷ l) m pcrs h = empty_values-HasMaps l (insert j [] m) pcrs λ i mem.
    elim (Bool-cases (j == i)) [
      | inl same ↦
          inr ([], lookup-insert j i [] m ∙ ap (λ b. if b then some [] else lookup i m) same)
      | inr other ↦
          let kept = lookup-insert j i [] m ∙ ap (λ b. if b then some [] else lookup i m) other in
          elim (h i mem) [
            | inl here ↦ elim (Memᴰ.cases_cons here) [
              | inl e ↦ cc ((==_iff j i).1 (sym e), other)
              | inr rest ↦ inl rest
            ]
            | inr found ↦ inr (found.0, kept ∙ found.1)
          ]
    ]
