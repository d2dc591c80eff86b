-- ===== src/Tests/Data.antt =====
-- A small log in the old format, which the tests share: two events of PCR 0.
use tcglog_parser.Common.{false, [], ◌∷◌, ◌++◌, replicate}
use tcglog_parser.Go.Reader.{Bytes}
use tcglog_parser.Go.Runtime.{Hash, toy_runtime}
use tcglog_parser.Types.{spec_unknown, LogOptions}
use tcglog_parser.Types.Algorithm
use tcglog_parser.Types.EventType
use tcglog_parser.EventData.{opaque, separator}
use tcglog_parser.Log.Format.{Event}
use tcglog_parser.Log.Format.RoundTrip.{Stored, encode_1_2}
use tcglog_parser.Validate.Check.{unknown, ValidatedEvent, LogValidateResult}

abbrev pub plain : LogOptions
plain = record { enable_grub = false; enable_systemd_efi_stub = false; systemd_efi_stub_pcr = 0 }

abbrev pub code : Stored
code = record { pcr_index = 0; event_type = EventType.post_code; event = 65 ∷ 66 ∷ [] }

abbrev pub code_digest : Bytes
code_digest = replicate 20 7

-- A separator, with the digest of its data.
abbrev pub zeros : Stored
zeros = record { pcr_index = 0; event_type = EventType.separator; event = replicate 4 0 }

abbrev pub zeros_digest : Bytes
zeros_digest = toy_runtime.sum Hash.sha1 (replicate 4 0)

abbrev pub file : Bytes
file = encode_1_2 code code_digest ++ encode_1_2 zeros zeros_digest

abbrev pub code_event : Event
code_event = record {
  index = 0;
  pcr_index = 0;
  event_type = EventType.post_code;
  digests = (Algorithm.sha1, code_digest) ∷ [];
  content = opaque (65 ∷ 66 ∷ []);
}

abbrev pub zeros_event : Event
zeros_event = record {
  index = 1;
  pcr_index = 0;
  event_type = EventType.separator;
  digests = (Algorithm.sha1, zeros_digest) ∷ [];
  content = separator (replicate 4 0) false;
}

abbrev pub first_value : Bytes
first_value = toy_runtime.sum Hash.sha1 (replicate 20 0 ++ code_digest)

abbrev pub checked_code : ValidatedEvent
checked_code = record {
  event = code_event;
  measured_bytes = [];
  measured_trailing_bytes_count = 0;
  incorrect_digest_values = [];
}

abbrev pub checked_zeros : ValidatedEvent
checked_zeros = record {
  event = zeros_event;
  measured_bytes = replicate 4 0;
  measured_trailing_bytes_count = 0;
  incorrect_digest_values = [];
}

abbrev pub result : LogValidateResult
result = record {
  efi_boot_variable_behaviour = unknown;
  validated_events = checked_code ∷ checked_zeros ∷ [];
  spec = spec_unknown;
  algorithms = Algorithm.sha1 ∷ [];
  expected_pcr_values =
      (0, (Algorithm.sha1, toy_runtime.sum Hash.sha1 (first_value ++ zeros_digest)) ∷ []) ∷ [];
}
