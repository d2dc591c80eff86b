-- ===== src/Display/Failure.antt =====
-- The texts of the errors of log.go, tcgeventdata.go and efi.go.
use tcglog_parser.Common.{ℕ, none, some, true, false, [], ◌++◌}
use tcglog_parser.Errors.{
  Error, SpecIdReason, eof, unexpected_eof, log_read, pcr_index_out_of_range,
  unrecognized_algorithm, duplicate_digest, missing_digest, previous_error, invalid_spec_id_event,
  invalid_firmware_sub_type, device_path_node_length, not_enough_data, read_failed, no_algorithms,
  digest_size_mismatch,
}
use tcglog_parser.Go.Reader.{Bytes}
use tcglog_parser.Go.Text.{codes, dec}
use tcglog_parser.Go.Format.{FmtState}
use tcglog_parser.Types.Algorithm

-- The state of the verb %04x.
abbrev pub four_digits : FmtState
four_digits = record {
  plus = false;
  minus = false;
  sharp = false;
  space = false;
  zero_padded = true;
  width = some 4;
  precision = none;
}

-- %04x of an AlgorithmId, whose Format is called.
abbrev pub padded_algorithm : ℕ → Bytes
padded_algorithm a = elim (Algorithm.format four_digits b'x' a) [ some text ↦ text | none ↦ [] ]

unfoldable mutual
  -- Error.Error
  pub error_text : Error → Bytes
  error_text eof = codes "EOF"
  error_text unexpected_eof = codes "unexpected EOF"
  error_text (log_read e) =
      codes "error when reading from log stream (" ++ (error_text e ++ codes ")")
  error_text (pcr_index_out_of_range n) =
      codes "log entry has an out-of-range PCR index (" ++ (dec n ++ codes ")")
  error_text (unrecognized_algorithm a) =
      codes "crypto-agile log entry contains a digest for an unrecognized algorithm ("
      ++ (Algorithm.to_string a ++ codes ")")
  error_text (duplicate_digest a) =
      codes "crypto-agile log entry contains more than one digest value for algorithm "
      ++ Algorithm.to_string a
  error_text (missing_digest a) =
      codes "crypto-agile log entry is missing a digest value for algorithm "
      ++ (Algorithm.to_string a ++ codes " that was present in the Spec ID Event")
  error_text previous_error =
      codes "cannot read next event: log status inconsistent due to a previous error"
  error_text (invalid_spec_id_event reason) =
      codes "invalid SpecIdEvent (" ++ (reason_text reason ++ codes ")")
  error_text (invalid_firmware_sub_type n) =
      codes "invalid sub type for firmware device path node: " ++ dec n
  error_text (device_path_node_length n) =
      codes "unexpected device path node length (got " ++ (dec n ++ codes ", expected >= 4)")

  -- The field s of an invalidSpecIdEventError.
  pub reason_text : SpecIdReason → Bytes
  reason_text not_enough_data = codes "not enough data"
  reason_text (read_failed e) = error_text e
  reason_text no_algorithms = codes "numberOfAlgorithms is zero"
  reason_text (digest_size_mismatch a got expected) =
      codes "digestSize for algorithmId 0x"
      ++ (padded_algorithm a
          ++ (codes " doesn't match expected size (got: "
              ++ (dec got ++ (codes ", expected: " ++ (dec expected ++ codes ")")))))
