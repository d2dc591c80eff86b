-- ===== src/TcglogValidate/Comparison/Unextended.antt =====
-- PCRs that no event of the log extends.
use mathlib.Core.List.Memᴰ
use mathlib.Core.List.{Memᴰ}
use tcglog_parser.Log.State.{count_pcr}
use tcglog_parser.Validate.Refinement.Values.{pcr_value, events_of}
use tcglog_parser.Common.{
  true, ℕ, ◌≡◌, sym, ap, ◌∙◌, ◌≢◌, false, some, List, [], ◌++◌, ◌==◌, if◌then◌else◌, Map, ◌∷◌,
  append_assoc, arith,
}
use tcglog_parser.Go.Reader.{Bytes}
use tcglog_parser.Go.Text.{codes}
use tcglog_parser.Go.Runtime.{Runtime}
use tcglog_parser.Validate.Check.{LogValidateResult}
use tcglog_parser.Program.{Files, exited}
use tcglog_parser.TcglogValidate.Tpm.{TpmLibrary, value_at}
use tcglog_parser.TcglogValidate.{Flags, selected_pcrs, chosen_algorithms, validate}
use tcglog_parser.TcglogValidate.Events.{events_text}
use tcglog_parser.TcglogValidate.Consistency.{bank_section, verdict_text}
use tcglog_parser.TcglogValidate.Comparison.{IsCompared, log_value, validate-IsVerdict}

-- A selected PCR without events in the log, for which the TPM has a value of a byte at least in the
-- bank of a chosen algorithm, makes such a run of tcglog-validate print that the log is broken.
pub unextended-validate :
    (rt : Runtime) (files : Files) (lib : TpmLibrary) (flags : Flags) {res : LogValidateResult}
    {actual : Map (Map Bytes)} (i alg : ℕ)
    → IsCompared rt files lib flags res actual
    → Memᴰ i (selected_pcrs flags)
    → Memᴰ alg (chosen_algorithms flags res)
    → count_pcr i (events_of res.validated_events) ≡ 0
    → value_at i alg actual ≢ []
    → (text : Bytes) × (validate rt files lib flags
        ≡ some (record {
          stdout = text ++ codes "*** The event log is broken! ***\n";
          stderr = [];
          status = exited 0;
        }))
unextended-validate rt files lib flags {res} {actual} i alg c pcr bank missing value =
    let v = validate-IsVerdict rt files lib flags c in
    let empty : log_value rt res i alg ≡ [] =
      let zero_events : (count_pcr i (events_of res.validated_events) == 0) ≡ true =
        ground (arith, missing) in
      ap (λ b. if b then [] else pcr_value rt res.algorithms (events_of res.validated_events) i alg)
        zero_events in
    go v.banks v.prints_banks ((v.are_inconsistent i alg).1 (pcr, bank, λ e. value (sym e ∙ empty)))
  where
    go :
        (l : List (ℕ × ℕ))
        → validate rt files lib flags
          ≡ some (record {
            stdout = events_text res ++ verdict_text res.expected_pcr_values actual l;
            stderr = [];
            status = exited 0;
          })
        → Memᴰ (i, alg) l
        → (text : Bytes) × (validate rt files lib flags
            ≡ some (record {
              stdout = text ++ codes "*** The event log is broken! ***\n";
              stderr = [];
              status = exited 0;
            }))
    go [] h m = absurd (Memᴰ.not-nil m)
    go (p ∷ l) h m =
        let section = bank_section res.expected_pcr_values actual false (p ∷ l) in
        (
          events_text res ++ section,
          h
              ∙ ap (λ text. some (record { stdout = text; stderr = []; status = exited 0 }))
                  (sym (
                    append_assoc (events_text res) section
                      (codes "*** The event log is broken! ***\n"))),
        )
