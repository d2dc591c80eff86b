-- ===== src/TcglogValidate/Comparison.antt =====
-- A whole run of tcglog-validate: its report, its end, and PCRs that the log does not extend.
pub mod Unextended
use mathlib.Core.Path.{subst}
use mathlib.Core.List.{Memᴰ}
use tcglog_parser.Log.Format.{Event}
use tcglog_parser.Log.State.{count_pcr}
use tcglog_parser.Validate.Correct.{replay_and_validate_log-IsResultOf}
use tcglog_parser.Validate.Refinement.Values.{pcr_value, PcrIs, IsReplayed, events_of}
use tcglog_parser.Common.{
  refl, true, inr, ℕ, ◌≡◌, sym, ap, ◌∙◌, ◌≢◌, inr, false, none, some, List, [], ◌++◌, ◌==◌,
  if◌then◌else◌, length, Map, Option, lookup, arith, ◌↔◌,
}
use tcglog_parser.Errors.{ok}
use tcglog_parser.Go.Reader.{Bytes}
use tcglog_parser.Go.Text.{codes}
use tcglog_parser.Go.Runtime.{Runtime}
use tcglog_parser.Validate.Check.{LogValidateResult}
use tcglog_parser.Validate.Replay.{replay_and_validate_log}
use tcglog_parser.Validate.Counted.{replay_and_validate_log-IsCounted}
use tcglog_parser.Program.{Files, exited, prints, fails}
use tcglog_parser.Log.Format.{digest_of}
use tcglog_parser.TcglogValidate.Tpm.{TpmLibrary, answered, inner, value_at, read_pcrs}
use tcglog_parser.TcglogValidate.{
  Flags, paths, log_options, missing_algorithm, selected_pcrs, report_values, report_pcrs,
  report_events, chosen_algorithms, report, report_outcome, validate_file, validate_paths, validate,
}
use tcglog_parser.TcglogValidate.Events.{events_text, report_events-prints}
use tcglog_parser.TcglogValidate.Consistency.{inconsistent, verdict_text, compare_pcrs-conclude}
use tcglog_parser.TcglogValidate.Consistency.Differs.{inconsistent_iff}

-- A run that reaches the comparison: the flags name a log and a TPM, the log is replayed and has the
-- algorithms, and the values of the PCRs are read.
pub record IsCompared (rt : Runtime) (files : Files) (lib : TpmLibrary) (flags : Flags)
    (res : LogValidateResult) (actual : Map (Map Bytes)) : Type 0 where
  pub log_path : Bytes
  pub tpm_path : Bytes
  pub file : Bytes
  pub no_arguments : flags.args ≡ []
  pub names_paths : paths flags ≡ some (log_path, tpm_path)
  pub opens : files log_path ≡ inr file
  pub replays : replay_and_validate_log rt file (log_options flags) ≡ some (ok res)
  pub has_algorithms : missing_algorithm res.algorithms (chosen_algorithms flags res) ≡ none
  pub has_tpm : (length tpm_path == 0) ≡ false
  pub reads :
      read_pcrs lib tpm_path (chosen_algorithms flags res) (selected_pcrs flags) ≡ answered actual

validate-report :
    (rt : Runtime) (files : Files) (lib : TpmLibrary) (flags : Flags) {res : LogValidateResult}
    {actual : Map (Map Bytes)}
    → (c : IsCompared rt files lib flags res actual)
    → validate rt files lib flags
      ≡ report_events res
          (report_pcrs lib res (chosen_algorithms flags res) (selected_pcrs flags) c.tpm_path)
unfolding validate validate_paths validate_file report_outcome report
validate-report rt files lib flags {res} c =
    ap
      (λ l.
        if length l == 0
        then validate_paths rt files lib flags (paths flags)
        else fails (codes "Too many arguments\n"))
      c.no_arguments
    ∙ ap (validate_paths rt files lib flags) c.names_paths
    ∙ ap (validate_file rt lib flags c.tpm_path) c.opens
    ∙ ap (report_outcome lib flags c.tpm_path) c.replays
    ∙ ap (report lib flags c.tpm_path res) c.has_algorithms

-- The report of such a run.
validate-prints :
    (rt : Runtime) (files : Files) (lib : TpmLibrary) (flags : Flags) {res : LogValidateResult}
    {actual : Map (Map Bytes)}
    → IsCompared rt files lib flags res actual
    → validate rt files lib flags
      ≡ some (record {
        stdout =
            events_text res
            ++ verdict_text res.expected_pcr_values actual (
                inconsistent res.expected_pcr_values actual
                  (chosen_algorithms flags res)
                  (selected_pcrs flags));
        stderr = [];
        status = exited 0;
      })
unfolding report_pcrs report_values
validate-prints rt files lib flags {res} {actual} c =
    let algorithms = chosen_algorithms flags res in
    let pcrs = selected_pcrs flags in
    let counted = replay_and_validate_log-IsCounted rt c.file (log_options flags) c.replays in
    let compared : report_pcrs lib res algorithms pcrs c.tpm_path
        ≡ report_values res algorithms pcrs (read_pcrs lib c.tpm_path algorithms pcrs) =
      rw c.has_tpm in
    validate-report rt files lib flags c
    ∙ report_events-prints res (report_pcrs lib res algorithms pcrs c.tpm_path) counted
    ∙ ap (prints (events_text res)) (
        compared
        ∙ ap (report_values res algorithms pcrs) c.reads
        ∙ compare_pcrs-conclude res.expected_pcr_values actual algorithms pcrs)

-- What the events of a result leave in the bank of a PCR: the fold of the extend operation, and
-- nothing at all for a PCR without events.
abbrev pub log_value : Runtime → LogValidateResult → ℕ → ℕ → Bytes
log_value rt res i alg =
    if count_pcr i (events_of res.validated_events) == 0
    then []
    else pcr_value rt res.algorithms (events_of res.validated_events) i alg

value_at-log_value :
    (rt : Runtime) (res : LogValidateResult) (i alg : ℕ)
    → IsReplayed rt res.algorithms (events_of res.validated_events) res.expected_pcr_values
    → value_at i alg res.expected_pcr_values ≡ log_value rt res i alg
value_at-log_value rt res i alg replayed = go (lookup i res.expected_pcr_values) (replayed i)
  where
    events : List Event
    events = events_of res.validated_events

    empty : digest_of alg [] ≡ []
    empty = unfold digest_of lookup in refl

    go :
        (o : Option (Map Bytes))
        → PcrIs rt res.algorithms events i o
        → digest_of alg (inner o)
          ≡ (if count_pcr i events == 0 then [] else pcr_value rt res.algorithms events i alg)
    go none h =
        let zero_events : (count_pcr i events == 0) ≡ true = ground (arith, h) in
        empty
        ∙ sym (ap (λ b. if b then [] else pcr_value rt res.algorithms events i alg) zero_events)
    go (some m) (some_events, h) =
        let found : (count_pcr i events == 0) ≡ false = ground (arith, some_events) in
        h alg ∙ sym (ap (λ b. if b then [] else pcr_value rt res.algorithms events i alg) found)

-- The banks that a run reports, and what it prints behind the sections on the events.
pub record IsVerdict (rt : Runtime) (files : Files) (lib : TpmLibrary) (flags : Flags)
    (res : LogValidateResult) (actual : Map (Map Bytes)) : Type 0 where
  pub banks : List (ℕ × ℕ)
  pub prints_banks :
      validate rt files lib flags
      ≡ some (record {
        stdout = events_text res ++ verdict_text res.expected_pcr_values actual banks;
        stderr = [];
        status = exited 0;
      })
  pub are_inconsistent :
      (i alg : ℕ)
      → Memᴰ (i, alg) banks ↔ (
          Memᴰ i (selected_pcrs flags)
          × Memᴰ alg (chosen_algorithms flags res)
          × (log_value rt res i alg ≢ value_at i alg actual))

-- Where the flags name a log and a TPM, the log is replayed and has the algorithms, and the PCRs are
-- read, tcglog-validate prints the sections on the events, one line for each bank that it reports,
-- and that the log is broken where it reports one; it does not panic, and ends with status 0 in each
-- case. It reports exactly the banks of the selected PCRs and algorithms for which the TPM has
-- another value than the fold of the extend operation over the PCR's events, or than no bytes for a
-- PCR without events.
pub validate-IsVerdict :
    (rt : Runtime) (files : Files) (lib : TpmLibrary) (flags : Flags) {res : LogValidateResult}
    {actual : Map (Map Bytes)}
    → IsCompared rt files lib flags res actual
    → IsVerdict rt files lib flags res actual
validate-IsVerdict rt files lib flags {res} {actual} c =
    let (start, opened, r) =
      replay_and_validate_log-IsResultOf rt c.file (log_options flags) c.replays in
    let replayed =
      subst (λ l. IsReplayed rt l (events_of res.validated_events) res.expected_pcr_values)
        (sym r.same_algorithms) r.replayed in
    record {
      banks =
          inconsistent res.expected_pcr_values actual (chosen_algorithms flags res)
            (selected_pcrs flags);
      prints_banks = validate-prints rt files lib flags c;
      are_inconsistent = λ i alg.
          let same = value_at-log_value rt res i alg replayed in
          let (to, from) =
            inconsistent_iff res.expected_pcr_values actual (chosen_algorithms flags res)
              (selected_pcrs flags) (i, alg) in
          (
            λ m. let (pcr, bank, differ) = to m in (pcr, bank, λ e. differ (same ∙ e)),
            λ (pcr, bank, differ). from (pcr, bank, λ e. differ (sym same ∙ e)),
          );
    }
