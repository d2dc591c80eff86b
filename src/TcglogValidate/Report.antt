-- ===== src/TcglogValidate/Report.antt =====
-- tcglog-validate/main.go: the sections of the report.
use tcglog_parser.Common.{
  ℕ, ◌-◌, Bool, true, List, [], ◌∷◌, ◌++◌, ◌==◌, ltb, if◌then◌else◌, length, drop, Map,
}
use tcglog_parser.Go.Reader.{Bytes}
use tcglog_parser.Go.Text.{codes, dec, hex_bytes, equal}
use tcglog_parser.Types.Algorithm
use tcglog_parser.Types.EventType
use tcglog_parser.Log.Format.{Event, digest_of}
use tcglog_parser.Validate.Check.{Behaviour, var_data_only, IncorrectDigestValue, ValidatedEvent}
use tcglog_parser.Program.{Run, prints, returns, crashes}
use tcglog_parser.TcglogValidate.Tpm.{value_at}

abbrev pub behaviour_remark : Bytes
behaviour_remark =
    codes
      "- EV_EFI_VARIABLE_BOOT events only contain measurement of variable data rather than the entire UEFI_VARIABLE_DATA structure\n\n"

-- The remark on boot variables.
unfoldable pub print_behaviour : Behaviour → Run → Run
print_behaviour var_data_only next = prints behaviour_remark next
print_behaviour _ next = next

abbrev pub trailing_heading : Bytes
trailing_heading =
    codes
      "- The following events have trailing bytes at the end of their event data that was hashed and measured:\n"

abbrev pub event_and_pcr : Event → Bytes
event_and_pcr e =
    codes "  - Event "
    ++ (dec e.index
        ++ (codes " in PCR "
            ++ (dec e.pcr_index ++ (codes " (type: " ++ EventType.to_string e.event_type))))

abbrev pub trailing_line : ValidatedEvent → Bytes
trailing_line v =
    let n = v.measured_trailing_bytes_count in
    event_and_pcr v.event
    ++ (codes "): "
        ++ (hex_bytes (drop (length v.measured_bytes - n) v.measured_bytes)
            ++ (codes " (" ++ (dec n ++ codes " bytes)\n"))))

-- A line on an event; slicing off more bytes than there are panics.
unfoldable pub print_trailing_line : ValidatedEvent → Run → Run
print_trailing_line v next =
    if ltb (length v.measured_bytes) v.measured_trailing_bytes_count
    then crashes
    else prints (trailing_line v) next

-- The loop on trailing bytes; the flag says whether a line was printed.
unfoldable pub print_trailing : Bool → List ValidatedEvent → (Bool → Run) → Run
print_trailing seen [] next = next seen
print_trailing seen (v ∷ events) next =
    let skipped = print_trailing seen events next in
    let shown =
      prints (if seen then [] else trailing_heading)
        (print_trailing_line v (print_trailing true events next)) in
    if v.measured_trailing_bytes_count == 0 then skipped else shown

abbrev pub trailing_note : Bytes
trailing_note =
    codes
      "  This trailing bytes should be taken in to account when calculating updated digests for these events when the components that are being measured are upgraded or changed in some way.\n\n"

abbrev pub incorrect_heading : Bytes
incorrect_heading =
    codes
      "- The following events have digests that aren't generated from the data recorded with them in the log:\n"

abbrev pub incorrect_line : Event → IncorrectDigestValue → Bytes
incorrect_line e v =
    event_and_pcr e
    ++ (codes ", alg: "
        ++ (Algorithm.to_string v.algorithm
            ++ (codes ") - expected (from data): "
                ++ (hex_bytes v.expected
                    ++ (codes ", got: "
                        ++ (hex_bytes (digest_of v.algorithm e.digests) ++ codes "\n"))))))

unfoldable pub incorrect_lines : Event → List IncorrectDigestValue → Bytes
incorrect_lines e [] = []
incorrect_lines e (v ∷ vs) = incorrect_line e v ++ incorrect_lines e vs

-- The loop on incorrect digests.
unfoldable pub print_incorrect : Bool → List ValidatedEvent → (Bool → Run) → Run
print_incorrect seen [] next = next seen
print_incorrect seen (v ∷ events) next =
    let skipped = print_incorrect seen events next in
    let shown =
      prints
        ((if seen then [] else incorrect_heading)
          ++ incorrect_lines v.event v.incorrect_digest_values)
        (print_incorrect true events next) in
    if length v.incorrect_digest_values == 0 then skipped else shown

abbrev pub incorrect_note : Bytes
incorrect_note =
    codes
      "  This is unexpected for these event types. Knowledge of the format of the data being measured is required in order to calculate updated digests for these events when the components being measured are upgraded or changed in some way.\n\n"

abbrev pub bank : ℕ → ℕ → Bytes
bank i alg = codes "PCR " ++ (dec i ++ (codes ", bank " ++ Algorithm.to_string alg))

-- The loops over the expected values, for a log without a TPM.
unfoldable pub bank_values : Map (Map Bytes) → ℕ → List ℕ → Bytes
bank_values expected i [] = []
bank_values expected i (alg ∷ algorithms) =
    bank i alg
    ++ (codes ": "
        ++ (hex_bytes (value_at i alg expected)
            ++ (codes "\n" ++ bank_values expected i algorithms)))

unfoldable pub expected_values : Map (Map Bytes) → List ℕ → List ℕ → Bytes
expected_values expected algorithms [] = []
expected_values expected algorithms (i ∷ pcrs) =
    bank_values expected i algorithms ++ expected_values expected algorithms pcrs

abbrev pub inconsistent_heading : Bytes
inconsistent_heading =
    codes "- The log is not consistent with what was measured in to the TPM for some PCRs:\n"

abbrev pub inconsistent_line : Map (Map Bytes) → Map (Map Bytes) → ℕ → ℕ → Bytes
inconsistent_line expected actual i alg =
    codes "  - "
    ++ (bank i alg
        ++ (codes " - actual PCR value: "
            ++ (hex_bytes (value_at i alg actual)
                ++ (codes ", expected PCR value from log: "
                    ++ (hex_bytes (value_at i alg expected) ++ codes "\n")))))

abbrev pub agrees : Map (Map Bytes) → Map (Map Bytes) → ℕ → ℕ → Bool
agrees expected actual i alg = equal (value_at i alg expected) (value_at i alg actual)

-- The inner and the outer loop that compare the log with the TPM.
unfoldable pub compare_banks :
    Map (Map Bytes) → Map (Map Bytes) → Bool → ℕ → List ℕ → (Bool → Run) → Run
compare_banks expected actual seen i [] next = next seen
compare_banks expected actual seen i (alg ∷ algorithms) next =
    let same = compare_banks expected actual seen i algorithms next in
    let other =
      prints
        ((if seen then [] else inconsistent_heading) ++ inconsistent_line expected actual i alg)
        (compare_banks expected actual true i algorithms next) in
    if agrees expected actual i alg then same else other

unfoldable pub compare_pcrs :
    Map (Map Bytes) → Map (Map Bytes) → Bool → List ℕ → List ℕ → (Bool → Run) → Run
compare_pcrs expected actual seen algorithms [] next = next seen
compare_pcrs expected actual seen algorithms (i ∷ pcrs) next =
    compare_banks expected actual seen i algorithms
      λ seen'. compare_pcrs expected actual seen' algorithms pcrs next

-- What follows the comparison.
unfoldable pub conclude : Bool → Run
conclude seen =
    if seen then prints (codes "*** The event log is broken! ***\n") returns else returns
