-- ===== src/TcglogValidate/Consistency/Differs.antt =====
-- The banks that the comparison reports are those whose values differ.
use mathlib.Core.Path.{subst}
use mathlib.Core.List.Memᴰ
use mathlib.Core.List.{Memᴰ}
use tcglog_parser.Common.{
  ℕ, ◌≡◌, refl, sym, ap, ◌≢◌, ◌↔◌, ◌⊎◌, inl, inr, Bool, true, false, List, [], ◌∷◌, if◌then◌else◌,
  Map,
}
use tcglog_parser.Go.Reader.{Bytes}
use tcglog_parser.Go.Text.Laws.{eq_of_equal, ne_of_equal}
use tcglog_parser.TcglogValidate.Tpm.{value_at}
use tcglog_parser.TcglogValidate.Report.{agrees}
use tcglog_parser.TcglogValidate.Consistency.{inconsistent_banks, inconsistent}

module _ (expected actual : Map (Map Bytes)) where
  abbrev pub Differs : ℕ → ℕ → Type 0
  Differs i alg = value_at i alg expected ≢ value_at i alg actual

  -- A bank of the loops whose values differ.
  abbrev pub IsInconsistent : List ℕ → List ℕ → ℕ × ℕ → Type 0
  IsInconsistent algorithms pcrs (i, alg) = Memᴰ i pcrs × Memᴰ alg algorithms × Differs i alg

  Differs-of_agrees : (i alg : ℕ) → agrees expected actual i alg ≡ false → Differs i alg
  Differs-of_agrees i alg h =
      λ e. ne_of_equal (value_at i alg expected) (value_at i alg actual) h (sym e)

  inconsistent_banks-Differs :
      (i : ℕ) (algorithms : List ℕ) (p : ℕ × ℕ)
      → Memᴰ p (inconsistent_banks expected actual i algorithms)
      → IsInconsistent algorithms (i ∷ []) p
  inconsistent_banks-Differs i [] p = λ m. absurd (Memᴰ.not-nil m)
  inconsistent_banks-Differs i (alg ∷ algorithms) p =
      go (agrees expected actual i alg) refl (inconsistent_banks-Differs i algorithms p)
    where
      go :
          (b : Bool)
          → agrees expected actual i alg ≡ b
          → (Memᴰ p (inconsistent_banks expected actual i algorithms)
              → IsInconsistent algorithms (i ∷ []) p)
          → Memᴰ p (
              if b
              then inconsistent_banks expected actual i algorithms
              else (i, alg) ∷ inconsistent_banks expected actual i algorithms)
          → IsInconsistent (alg ∷ algorithms) (i ∷ []) p
      go true e rest m = let (pcr, bank, differ) = rest m in (pcr, Memᴰ.tail bank, differ)
      go false e rest m = elim (Memᴰ.cases_cons m) [
        | inl same ↦ (
          Memᴰ.head (ap (λ q. q.0) same),
          Memᴰ.head (ap (λ q. q.1) same),
          subst (λ q. Differs q.0 q.1) (sym same) (Differs-of_agrees i alg e),
        )
        | inr m' ↦ let (pcr, bank, differ) = rest m' in (pcr, Memᴰ.tail bank, differ)
      ]

  Differs-inconsistent_banks :
      (i alg : ℕ) (algorithms : List ℕ)
      → Memᴰ alg algorithms
      → Differs i alg
      → Memᴰ (i, alg) (inconsistent_banks expected actual i algorithms)
  Differs-inconsistent_banks i alg [] m d = absurd (Memᴰ.not-nil m)
  Differs-inconsistent_banks i alg (a ∷ algorithms) m d =
      go (agrees expected actual i a) refl (Memᴰ.cases_cons m)
        (λ m'. Differs-inconsistent_banks i alg algorithms m' d)
    where
      go :
          (b : Bool)
          → agrees expected actual i a ≡ b
          → (alg ≡ a) ⊎ Memᴰ alg algorithms
          → (Memᴰ alg algorithms → Memᴰ (i, alg) (inconsistent_banks expected actual i algorithms))
          → Memᴰ
              (i, alg)
              (if b
                then inconsistent_banks expected actual i algorithms
                else (i, a) ∷ inconsistent_banks expected actual i algorithms)
      go true e (inl same) rest =
          absurd (d (eq_of_equal _ _ (subst (λ x. agrees expected actual i x ≡ true) (sym same) e)))
      go true e (inr m') rest = rest m'
      go false e (inl same) rest = Memᴰ.head (ap (λ x. (i, x)) same)
      go false e (inr m') rest = Memᴰ.tail (rest m')

  -- The banks found inconsistent are exactly those of the loops whose values differ.
  pub inconsistent_iff :
      (algorithms pcrs : List ℕ) (p : ℕ × ℕ)
      → Memᴰ p (inconsistent expected actual algorithms pcrs) ↔ IsInconsistent algorithms pcrs p
  inconsistent_iff algorithms [] p = (λ m. absurd (Memᴰ.not-nil m), λ h. absurd (Memᴰ.not-nil h.0))
  inconsistent_iff algorithms (i ∷ pcrs) p = (
    λ m. elim (Memᴰ.append_cases (inconsistent_banks expected actual i algorithms) m) [
      | inl here ↦
          let (pcr, bank, differ) = inconsistent_banks-Differs i algorithms p here in
          (Memᴰ.head (Memᴰ.eq_of_singleton pcr), bank, differ)
      | inr there ↦
          let (pcr, bank, differ) = (inconsistent_iff algorithms pcrs p).0 there in
          (Memᴰ.tail pcr, bank, differ)
    ],
    λ (pcr, bank, differ). elim (Memᴰ.cases_cons pcr) [
      | inl same ↦ Memᴰ.append_left (inconsistent expected actual algorithms pcrs) (
          subst (λ x. Memᴰ (x, p.1) (inconsistent_banks expected actual i algorithms)) (sym same)
            (Differs-inconsistent_banks i p.1 algorithms bank
              (subst (λ x. Differs x p.1) same differ)))
      | inr pcr' ↦
          Memᴰ.append_right (inconsistent_banks expected actual i algorithms)
            ((inconsistent_iff algorithms pcrs p).1 (pcr', bank, differ))
    ],
  )
