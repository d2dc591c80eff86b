-- ===== src/Tests/Report.antt =====
-- tcglog-validate on the small log and a TPM.
use mathlib.Core.List.{Memᴰ}
use tcglog_parser.Common.{
  ℕ, ◌≡◌, refl, inl, inr, true, false, some, [], ◌∷◌, ◌++◌, ◌↔◌, All, ◌⊎◌, replicate, Map, lookup,
  insert,
}
use tcglog_parser.Go.Reader.{Bytes}
use tcglog_parser.Go.Runtime.{Hash, toy_runtime}
use tcglog_parser.Go.Text.{equal, codes}
use tcglog_parser.Types.Algorithm
use tcglog_parser.Log.Format.{digest_of}
use tcglog_parser.Validate.Counted.{replay_and_validate_log-IsCounted}
use tcglog_parser.Validate.Check.Count.{IsCounted}
use tcglog_parser.Program.{exited, Files}
use tcglog_parser.TcglogValidate
use tcglog_parser.TcglogValidate.Tpm.{
  TpmDevice, TpmLibrary, answered, value_at, store_in, pcr_index_list_to_selection_data,
  selections_for, empty_values, store_bank, store_banks, store_answer, read_pcrs_from_tpm2_device,
  get_tpm_device_version, read_pcrs_opened, read_pcrs_of, read_pcrs,
}
use tcglog_parser.TcglogValidate.Tpm.Read.{IsRead, read_pcrs_from_tpm2_device-IsRead}
use tcglog_parser.TcglogValidate.Tpm.{read_pcrs_from_tpm1_device}
use tcglog_parser.TcglogValidate.Tpm.First.{Answers, read_pcrs_from_tpm1_device-IsLoaded}
use tcglog_parser.TcglogValidate.Comparison.{IsCompared, IsVerdict, validate-IsVerdict}
use tcglog_parser.TcglogValidate.Comparison.Unextended.{unextended-validate}
use tcglog_parser.TcglogValidate.Selected.{AreAscending, selected_pcrs-AreAscending}
use tcglog_parser.Go.Path
use tcglog_parser.Tests.Data.{plain, file, result, first_value, zeros_digest}
use tcglog_parser.Tests.Replay.{replay_file}

abbrev flags : TcglogValidate.Flags
flags = record {
  with_grub = false;
  with_sd_efi_stub = false;
  sd_efi_stub_pcr = 0;
  no_default_pcrs = true;
  tpm_path = codes "/dev/tpm0";
  log_path = [];
  pcrs = 1 ∷ 0 ∷ [];
  algorithms = [];
  args = [];
}

abbrev one_file : Files
one_file path = inr file

-- PCR 0 has the value that the log leaves in it, and PCR 1 has zeros.
abbrev pcr_0 : Bytes
pcr_0 = toy_runtime.sum Hash.sha1 (first_value ++ zeros_digest)

abbrev banks : Map (Map Bytes)
banks = (Algorithm.sha1, (0, pcr_0) ∷ (1, replicate 20 0) ∷ []) ∷ []

abbrev device : TpmDevice
device = record {
  has_properties = true;
  pcr_read = λ selections. inr banks;
  run_command = λ n tag code parameters. inl (codes "unsupported");
}

abbrev library : TpmLibrary
library = record {
  open_device = λ path. inr 3;
  new_context = λ tcti. some device;
  marshal = λ l. inr [];
  success = 0;
}

abbrev actual : Map (Map Bytes)
actual = (0, (Algorithm.sha1, pcr_0) ∷ []) ∷ (1, (Algorithm.sha1, replicate 20 0) ∷ []) ∷ []

flags-IsCompared : IsCompared toy_runtime one_file library flags result actual
flags-IsCompared = record {
  log_path = codes "/sys/kernel/security/tpm0/binary_bios_measurements";
  tpm_path = codes "/dev/tpm0";
  file = file;
  no_arguments = refl;
  names_paths =
      unfold TcglogValidate.paths equal Path.dir Path.base Path.clean Path.path_elements
        Path.clean_element Path.clean_elements Path.join_elements Path.is_rooted Path.up_to_slash
        Path.behind_slash Path.without_slashes in
      refl;
  opens = refl;
  replays = replay_file;
  has_algorithms = unfold TcglogValidate.missing_algorithm Algorithm.contains in refl;
  has_tpm = refl;
  reads =
      unfold TcglogValidate.selected_pcrs TcglogValidate.sort TcglogValidate.insert_sorted read_pcrs
        read_pcrs_opened read_pcrs_of get_tpm_device_version read_pcrs_from_tpm2_device store_answer
        store_banks store_bank empty_values selections_for pcr_index_list_to_selection_data store_in
        lookup insert digest_of in
      refl;
}

flags-IsVerdict : IsVerdict toy_runtime one_file library flags result actual
flags-IsVerdict = validate-IsVerdict toy_runtime one_file library flags flags-IsCompared

pcr_1-validate :
    (text : Bytes) × (TcglogValidate.validate toy_runtime one_file library flags
      ≡ some (record {
        stdout = text ++ codes "*** The event log is broken! ***\n";
        stderr = [];
        status = exited 0;
      }))
pcr_1-validate =
    unextended-validate toy_runtime one_file library flags 1 Algorithm.sha1 flags-IsCompared
      (unfold TcglogValidate.selected_pcrs TcglogValidate.sort TcglogValidate.insert_sorted in
        Memᴰ.tail (Memᴰ.head refl))
      (Memᴰ.head refl) refl (unfold lookup digest_of in λ e. cc e)

flags-AreAscending :
    AreAscending (TcglogValidate.selected_pcrs flags)
    × ((i : ℕ)
        → Memᴰ i (TcglogValidate.selected_pcrs flags)
          ↔ (Memᴰ i (1 ∷ 0 ∷ []) ⊎ ((true ≡ false) × Memᴰ i (TcglogValidate.default_pcrs false))))
flags-AreAscending = selected_pcrs-AreAscending flags

device-IsRead :
    (values : Map (Map Bytes)) × (read_pcrs_from_tpm2_device device
        (Algorithm.sha1 ∷ [])
        (0 ∷ 1 ∷ [])
      ≡ answered values)
    × ((i alg : ℕ)
        → Memᴰ i (0 ∷ 1 ∷ [])
        → Memᴰ alg (Algorithm.sha1 ∷ [])
        → IsRead banks values i alg)
device-IsRead = read_pcrs_from_tpm2_device-IsRead device (Algorithm.sha1 ∷ []) (0 ∷ 1 ∷ []) refl

-- A device that answers with the number of the PCR.
abbrev first_device : TpmDevice
first_device = record {
  has_properties = false;
  pcr_read = λ selections. inl (codes "unsupported");
  run_command = λ n tag code parameters. inr (0, parameters ++ replicate 19 0);
}

abbrev first_library : TpmLibrary
first_library = record {
  open_device = λ path. inr 3;
  new_context = λ tcti. some first_device;
  marshal = λ l. inr l;
  success = 0;
}

abbrev numbered : ℕ → Bytes
numbered i = (i ∷ []) ++ replicate 19 0

first-IsLoaded :
    (values : Map (Map Bytes)) × (read_pcrs_from_tpm1_device first_library first_device 1
        (0 ∷ 7 ∷ [])
        []
      ≡ answered values)
    × ((i : ℕ) → Memᴰ i (0 ∷ 7 ∷ []) → value_at i Algorithm.sha1 values ≡ numbered i)
first-IsLoaded =
    read_pcrs_from_tpm1_device-IsLoaded first_library first_device numbered 1 (0 ∷ 7 ∷ []) answers
  where
    answers : Answers first_library first_device (0 ∷ 7 ∷ []) numbered
    answers = record { parameters = λ i. i ∷ []; marshals = λ i mem. refl; runs = λ n i mem. refl }

result-IsCounted : All IsCounted result.validated_events
result-IsCounted = replay_and_validate_log-IsCounted toy_runtime file plain replay_file
