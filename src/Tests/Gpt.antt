-- ===== src/Tests/Gpt.antt =====
-- A log with an EFI GPT event, for a table without partitions.
use tcglog_parser.Common.{none, [], ◌∷◌, ◌++◌, replicate}
use tcglog_parser.Go.Reader.{Bytes}
use tcglog_parser.Go.Runtime.{Hash, toy_runtime}
use tcglog_parser.Types.{spec_unknown}
use tcglog_parser.Types.Algorithm
use tcglog_parser.Types.EventType
use tcglog_parser.Log.Format.{Event}
use tcglog_parser.Log.Format.RoundTrip.{Stored, encode_1_2}
use tcglog_parser.Validate.Check.{unknown, ValidatedEvent, LogValidateResult}
use tcglog_parser.EventData.{efi_gpt}

abbrev table : Stored
table = record { pcr_index = 5; event_type = EventType.efi_gpt_event; event = replicate 100 0 }

-- No digest of the data.
abbrev wrong_digest : Bytes
wrong_digest = replicate 20 7

abbrev gpt_file : Bytes
gpt_file = encode_1_2 table wrong_digest

abbrev table_event : Event
table_event = record {
  index = 0;
  pcr_index = 5;
  event_type = EventType.efi_gpt_event;
  digests = (Algorithm.sha1, wrong_digest) ∷ [];
  content = efi_gpt (record {
    bytes = none;
    disk_guid = record { data1 = 0; data2 = 0; data3 = 0; data4 = replicate 8 0 };
    partitions = [];
  });
}

abbrev unchecked_table : ValidatedEvent
unchecked_table = record {
  event = table_event;
  measured_bytes = [];
  measured_trailing_bytes_count = 0;
  incorrect_digest_values = [];
}

abbrev gpt_result : LogValidateResult
gpt_result = record {
  efi_boot_variable_behaviour = unknown;
  validated_events = unchecked_table ∷ [];
  spec = spec_unknown;
  algorithms = Algorithm.sha1 ∷ [];
  expected_pcr_values =
      (5, (Algorithm.sha1, toy_runtime.sum Hash.sha1 (replicate 20 0 ++ wrong_digest)) ∷ []) ∷ [];
}
