-- ===== src/TcglogValidate.antt =====
-- tcglog-validate/main.go: the program that replays a log and compares it with the PCRs of a TPM.
pub mod Tpm
pub mod Report
pub mod Consistency
pub mod Events
pub mod Comparison
pub mod Selected
use tcglog_parser.Common.{
  ℕ, ◌%◌, ◌^◌, ◌⊎◌, inl, inr, Bool, Option, none, some, List, [], ◌∷◌, ◌++◌, leb, ◌==◌,
  if◌then◌else◌, length, Map,
}
use tcglog_parser.Errors.{ok, err, panic}
use tcglog_parser.Go.Reader.{Bytes}
use tcglog_parser.Go.Text.{codes, equal}
use tcglog_parser.Go.Path
use tcglog_parser.Go.Runtime.{Runtime}
use tcglog_parser.Types.{LogOptions}
use tcglog_parser.Types.Algorithm
use tcglog_parser.Utils.{separated}
use tcglog_parser.Display.Failure.{error_text}
use tcglog_parser.Validate.Check.{LogValidateResult}
use tcglog_parser.Validate.Replay.{Outcome, replay_and_validate_log}
use tcglog_parser.Program.{Run, Files, returns, crashes, fails, prints}
use tcglog_parser.TcglogValidate.Tpm.{TpmLibrary, Answer, answered, refused, crashed, read_pcrs}
use tcglog_parser.TcglogValidate.Report.{
  print_behaviour, print_trailing, trailing_note, print_incorrect, incorrect_note, expected_values,
  compare_pcrs, conclude,
}

-- AlgorithmIdArgList.String
unfoldable pub algorithm_id_arg_list_to_string : List ℕ → Bytes
algorithm_id_arg_list_to_string l = separated Algorithm.to_string l

unfoldable pub append_algorithm : List ℕ → Option ℕ → Option (List ℕ)
append_algorithm l none = none
append_algorithm l (some alg) = some (l ++ (alg ∷ []))

-- AlgorithmIdArgList.Set: the list behind the call; `none` is the error of ParseAlgorithm.
unfoldable pub algorithm_id_arg_list_set : List ℕ → Bytes → Option (List ℕ)
algorithm_id_arg_list_set l value = append_algorithm l (Algorithm.parse_algorithm value)

-- The variables that the flags set, and flag.Args; an int is its 64 bits.
pub record Flags : Type 0 where
  pub with_grub : Bool
  pub with_sd_efi_stub : Bool
  pub sd_efi_stub_pcr : ℕ
  pub no_default_pcrs : Bool
  pub tpm_path : Bytes
  pub log_path : Bytes
  pub pcrs : List ℕ
  pub algorithms : List ℕ
  pub args : List Bytes

-- sort.SliceStable
unfoldable pub insert_sorted : ℕ → List ℕ → List ℕ
insert_sorted i [] = i ∷ []
insert_sorted i (j ∷ l) = let rest = insert_sorted i l in if leb i j then i ∷ j ∷ l else j ∷ rest

unfoldable pub sort : List ℕ → List ℕ
sort [] = []
sort (i ∷ l) = insert_sorted i (sort l)

abbrev pub default_pcrs : Bool → List ℕ
default_pcrs with_grub =
    (0 ∷ 1 ∷ 2 ∷ 3 ∷ 4 ∷ 5 ∷ 6 ∷ 7 ∷ []) ++ (if with_grub then 8 ∷ 9 ∷ [] else [])

-- The PCRs that main works on.
unfoldable pub selected_pcrs : Flags → List ℕ
selected_pcrs flags =
    sort (if flags.no_default_pcrs then flags.pcrs else flags.pcrs ++ default_pcrs flags.with_grub)

-- logPath and tpmPath behind the test of logPath; `none` is the error on the TPM's path.
unfoldable pub paths : Flags → Option (Bytes × Bytes)
paths flags =
    let of_tpm =
      codes "/sys/kernel/security/"
      ++ (Path.base flags.tpm_path ++ codes "/binary_bios_measurements") in
    if length flags.log_path == 0
    then if equal (Path.dir flags.tpm_path) (codes "/dev")
      then some (of_tpm, flags.tpm_path)
      else none
    else some (flags.log_path, [])

abbrev pub log_options : Flags → LogOptions
log_options flags = record {
  enable_grub = flags.with_grub;
  enable_systemd_efi_stub = flags.with_sd_efi_stub;
  systemd_efi_stub_pcr = flags.sd_efi_stub_pcr % 2 ^ 32;
}

-- The first algorithm that the log has no digests for.
unfoldable pub missing_algorithm : List ℕ → List ℕ → Option ℕ
missing_algorithm known [] = none
missing_algorithm known (alg ∷ algorithms) =
    let rest = missing_algorithm known algorithms in
    if Algorithm.contains known alg then rest else some alg

-- main behind readPCRs.
unfoldable pub report_values : LogValidateResult → List ℕ → List ℕ → Answer (Map (Map Bytes)) → Run
report_values res algorithms pcrs (answered actual) =
    compare_pcrs res.expected_pcr_values actual Bool.false algorithms pcrs conclude
report_values res algorithms pcrs (refused message) =
    fails (codes "Cannot read PCR values from TPM: " ++ message)
report_values res algorithms pcrs crashed = crashes

-- The end of main: the expected values, or the comparison with the TPM.
unfoldable pub report_pcrs : TpmLibrary → LogValidateResult → List ℕ → List ℕ → Bytes → Run
report_pcrs lib res algorithms pcrs tpm_path =
    if length tpm_path == 0
    then prints
        (codes "- Expected PCR values from log:\n"
          ++ expected_values res.expected_pcr_values algorithms pcrs)
        returns
    else report_values res algorithms pcrs (read_pcrs lib tpm_path algorithms pcrs)

-- The sections on the events of the log.
unfoldable pub report_events : LogValidateResult → Run → Run
report_events res next = print_behaviour res.efi_boot_variable_behaviour (
    print_trailing Bool.false res.validated_events λ trailing.
      prints (if trailing then trailing_note else []) (
        print_incorrect Bool.false res.validated_events
          λ incorrect. prints (if incorrect then incorrect_note else []) next))

abbrev pub chosen_algorithms : Flags → LogValidateResult → List ℕ
chosen_algorithms flags res =
    if length flags.algorithms == 0 then res.algorithms else flags.algorithms

unfoldable pub report : TpmLibrary → Flags → Bytes → LogValidateResult → Option ℕ → Run
report lib flags tpm_path res (some alg) =
    fails
      (codes "Log doesn't contain entries for " ++ (Algorithm.to_string alg ++ codes " algorithm"))
report lib flags tpm_path res none =
    report_events res
      (report_pcrs lib res (chosen_algorithms flags res) (selected_pcrs flags) tpm_path)

-- main behind ReplayAndValidateLog.
unfoldable pub report_outcome : TpmLibrary → Flags → Bytes → Outcome → Run
report_outcome lib flags tpm_path none = none
report_outcome lib flags tpm_path (some (ok res)) =
    report lib flags tpm_path res (missing_algorithm res.algorithms (chosen_algorithms flags res))
report_outcome lib flags tpm_path (some (err x)) =
    fails (codes "Failed to replay and validate log file: " ++ (error_text x ++ codes "\n"))
report_outcome lib flags tpm_path (some panic) = crashes

-- ReplayAndValidateLog behind os.Open.
unfoldable pub validate_file : Runtime → TpmLibrary → Flags → Bytes → Bytes ⊎ Bytes → Run
validate_file rt lib flags tpm_path (inl message) =
    fails (codes "Failed to replay and validate log file: " ++ (message ++ codes "\n"))
validate_file rt lib flags tpm_path (inr file) =
    report_outcome lib flags tpm_path (replay_and_validate_log rt file (log_options flags))

unfoldable pub validate_paths : Runtime → Files → TpmLibrary → Flags → Option (Bytes × Bytes) → Run
validate_paths rt files lib flags none =
    fails (codes "Expected TPM path to be a device node in /dev")
validate_paths rt files lib flags (some (log_path, tpm_path)) =
    validate_file rt lib flags tpm_path (files log_path)

-- main, behind the parsing of the flags.
unfoldable pub validate : Runtime → Files → TpmLibrary → Flags → Run
validate rt files lib flags =
    if length flags.args == 0
    then validate_paths rt files lib flags (paths flags)
    else fails (codes "Too many arguments\n")
