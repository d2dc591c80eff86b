-- ===== src/TcglogValidate/Consistency.antt =====
-- What the comparison of a log with the PCRs of a TPM reports.
pub mod Differs
use tcglog_parser.Common.{
  ℕ, ◌≡◌, refl, sym, ap, ◌∙◌, Bool, true, false, some, List, [], ◌∷◌, ◌++◌, append_assoc,
  if◌then◌else◌, Map,
}
use tcglog_parser.Go.Reader.{Bytes}
use tcglog_parser.Go.Text.{codes}
use tcglog_parser.Program.{Run, exited, prints}
use tcglog_parser.Program.Laws.{prints-nil, prints-append}
use tcglog_parser.TcglogValidate.Report.{
  inconsistent_heading, inconsistent_line, agrees, compare_banks, compare_pcrs, conclude,
}

module _ (expected actual : Map (Map Bytes)) where
  -- The banks whose value in the TPM is another one than the log's, in the order of the loops.
  abbrev pub inconsistent_banks : ℕ → List ℕ → List (ℕ × ℕ)
  inconsistent_banks i [] = []
  inconsistent_banks i (alg ∷ algorithms) =
      if agrees expected actual i alg
      then inconsistent_banks i algorithms
      else (i, alg) ∷ inconsistent_banks i algorithms

  abbrev pub inconsistent : List ℕ → List ℕ → List (ℕ × ℕ)
  inconsistent algorithms [] = []
  inconsistent algorithms (i ∷ pcrs) =
      inconsistent_banks i algorithms ++ inconsistent algorithms pcrs

  -- The lines on some banks, with the heading in front of the first line of the section.
  abbrev pub bank_section : Bool → List (ℕ × ℕ) → Bytes
  bank_section seen [] = []
  bank_section seen ((i, alg) ∷ l) =
      ((if seen then [] else inconsistent_heading) ++ inconsistent_line expected actual i alg)
      ++ bank_section true l

  abbrev pub is_seen : Bool → List (ℕ × ℕ) → Bool
  is_seen seen [] = seen
  is_seen seen (p ∷ l) = true

  is_seen-true : (l : List (ℕ × ℕ)) → is_seen true l ≡ true
  is_seen-true [] = refl
  is_seen-true (p ∷ l) = refl

  is_seen-append :
      (seen : Bool) (a b : List (ℕ × ℕ)) → is_seen seen (a ++ b) ≡ is_seen (is_seen seen a) b
  is_seen-append seen [] b = refl
  is_seen-append seen (p ∷ a) b = sym (is_seen-true b)

  bank_section-append :
      (seen : Bool) (a b : List (ℕ × ℕ))
      → bank_section seen (a ++ b) ≡ bank_section seen a ++ bank_section (is_seen seen a) b
  bank_section-append seen [] b = refl
  bank_section-append seen ((i, alg) ∷ a) b =
      let line =
        (if seen then [] else inconsistent_heading) ++ inconsistent_line expected actual i alg in
      ap (◌++◌ line) (
        bank_section-append true a b
        ∙ ap (λ s. bank_section true a ++ bank_section s b) (is_seen-true a))
      ∙ sym (append_assoc line (bank_section true a) (bank_section true b))

  compare_banks-prints :
      (seen : Bool) (i : ℕ) (algorithms : List ℕ) (next : Bool → Run)
      → compare_banks expected actual seen i algorithms next
        ≡ prints
            (bank_section seen (inconsistent_banks i algorithms))
            (next (is_seen seen (inconsistent_banks i algorithms)))
  unfolding compare_banks
  compare_banks-prints seen i [] next = sym (prints-nil (next seen))
  compare_banks-prints seen i (alg ∷ algorithms) next =
      go (agrees expected actual i alg) (compare_banks-prints seen i algorithms next)
        (compare_banks-prints true i algorithms next)
    where
      line : Bytes
      line = (if seen then [] else inconsistent_heading) ++ inconsistent_line expected actual i alg

      l : List (ℕ × ℕ)
      l = inconsistent_banks i algorithms

      go :
          {same other : Run} (b : Bool)
          → same ≡ prints (bank_section seen l) (next (is_seen seen l))
          → other ≡ prints (bank_section true l) (next (is_seen true l))
          → (if b then same else prints line other)
            ≡ prints
                (bank_section seen (if b then l else (i, alg) ∷ l))
                (next (is_seen seen (if b then l else (i, alg) ∷ l)))
      go true same other = same
      go false same other =
          ap (prints line) other
          ∙ prints-append line (bank_section true l) (next (is_seen true l))
          ∙ ap (λ s. prints (line ++ bank_section true l) (next s)) (is_seen-true l)

  compare_pcrs-prints :
      (seen : Bool) (algorithms pcrs : List ℕ) (next : Bool → Run)
      → compare_pcrs expected actual seen algorithms pcrs next
        ≡ prints
            (bank_section seen (inconsistent algorithms pcrs))
            (next (is_seen seen (inconsistent algorithms pcrs)))
  unfolding compare_pcrs
  compare_pcrs-prints seen algorithms [] next = sym (prints-nil (next seen))
  compare_pcrs-prints seen algorithms (i ∷ pcrs) next =
      let a = inconsistent_banks i algorithms in
      let b = inconsistent algorithms pcrs in
      compare_banks-prints seen i algorithms
        (λ s. compare_pcrs expected actual s algorithms pcrs next)
      ∙ ap (prints (bank_section seen a))
          (compare_pcrs-prints (is_seen seen a) algorithms pcrs next)
      ∙ prints-append (bank_section seen a) (bank_section (is_seen seen a) b) _
      ∙ ap (λ text. prints text (next (is_seen (is_seen seen a) b)))
          (sym (bank_section-append seen a b))
      ∙ ap (λ s. prints (bank_section seen (a ++ b)) (next s)) (sym (is_seen-append seen a b))

  -- The report on the inconsistent banks.
  abbrev pub verdict_text : List (ℕ × ℕ) → Bytes
  verdict_text [] = []
  verdict_text (p ∷ l) = bank_section false (p ∷ l) ++ codes "*** The event log is broken! ***\n"

  prints-conclude :
      (l : List (ℕ × ℕ))
      → prints (bank_section false l) (conclude (is_seen false l))
        ≡ some (record { stdout = verdict_text l; stderr = []; status = exited 0 })
  unfolding conclude
  prints-conclude [] = refl
  prints-conclude (p ∷ l) = refl

  pub compare_pcrs-conclude :
      (algorithms pcrs : List ℕ)
      → compare_pcrs expected actual false algorithms pcrs conclude
        ≡ some (record {
          stdout = verdict_text (inconsistent algorithms pcrs);
          stderr = [];
          status = exited 0;
        })
  compare_pcrs-conclude algorithms pcrs =
      compare_pcrs-prints false algorithms pcrs conclude
      ∙ prints-conclude (inconsistent algorithms pcrs)
