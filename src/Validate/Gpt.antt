-- ===== src/Validate/Gpt.antt =====
-- EFI GPT events are never checked: their data holds no bytes.
use tcglog_parser.Common.{◌≡◌, []}
use tcglog_parser.Go.Runtime.{Runtime}
use tcglog_parser.Validate.Check.{ValidatedEvent}
use tcglog_parser.EventData.{EventData, efi_gpt}

-- Nothing was measured for the event, and none of its digests is found incorrect.
abbrev IsIgnored : EventData → ValidatedEvent → Type 0
IsIgnored (efi_gpt d) v = (v.measured_bytes ≡ []) × (v.incorrect_digest_values ≡ [])
IsIgnored _ v = Unit

-- The same, of the events that are EFI GPT events.
abbrev pub IsGptIgnored : ValidatedEvent → Type 0
IsGptIgnored v = IsIgnored v.event.content v
