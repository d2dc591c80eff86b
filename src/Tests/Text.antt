-- ===== src/Tests/Text.antt =====
-- Texts that the programs print, and paths.
use tcglog_parser.Common.{◌≡◌, refl, true, false, [], ◌∷◌, lookup}
use tcglog_parser.Errors.{unexpected_eof}
use tcglog_parser.Go.Text.{equal, codes}
use tcglog_parser.Types.Algorithm
use tcglog_parser.Types.EventType
use tcglog_parser.EventData.{broken, separator}
use tcglog_parser.Log.Format.{digest_of}
use tcglog_parser.TcglogDump
use tcglog_parser.Go.Path
use tcglog_parser.Tests.Data.{code_event}
use tcglog_parser.Go.Text.{dec, hex, hex_padded, hex_bytes, digits, digit_chars}
use tcglog_parser.Go.Format.{dec_two, plain_text, fprintf_unused}
use tcglog_parser.Go.Unicode.{encode_rune}
use tcglog_parser.Utils.{separated, separated_rest, pcr_arg_list_to_string, make_default_formatter}
use tcglog_parser.Display.Failure.{error_text, reason_text}
use tcglog_parser.Display.Data.{
  broken_to_string, separator_to_string, data_to_string, startup_locality_to_string,
}
use tcglog_parser.EventData.{broken, startup_locality}
use tcglog_parser.Errors.{digest_size_mismatch, invalid_spec_id_event, unexpected_eof}

pcr_list : pcr_arg_list_to_string (7 ∷ 10 ∷ []) ≡ codes "7, 10"
unfolding pcr_arg_list_to_string separated separated_rest dec digit_chars digits
pcr_list = refl

short_data :
    data_to_string (broken [] unexpected_eof)
    ≡ codes "Invalid event data: event data smaller than expected"
unfolding data_to_string broken_to_string
short_data = refl

separator_error : data_to_string (separator [] true) ≡ codes "*ERROR*"
unfolding data_to_string separator_to_string
separator_error = refl

locality :
    data_to_string (startup_locality [] 3) ≡ codes "EfiStartupLocalityEvent{ StartupLocality: 3 }"
unfolding data_to_string startup_locality_to_string dec digit_chars digits
locality = refl

-- The algorithm is not printed as a number.
mismatch :
    error_text (invalid_spec_id_event (digest_size_mismatch 11 20 32))
    ≡ codes
        "invalid SpecIdEvent (digestSize for algorithmId 0x%04x%!(EXTRA uint16=11) doesn't match expected size (got: 20, expected: 32))"
unfolding error_text reason_text Algorithm.format fprintf_unused make_default_formatter plain_text
    encode_rune dec digit_chars digits
mismatch = refl

abbrev shown : TcglogDump.Flags
shown = record {
  alg = codes "sha1";
  verbose = true;
  with_grub = false;
  with_sd_efi_stub = false;
  sd_efi_stub_pcr = 8;
  pcrs = [];
  args = [];
}

code_line :
    TcglogDump.event_line shown Algorithm.sha1 code_event
    ≡ codes " 0 0707070707070707070707070707070707070707 EV_POST_CODE\n"
unfolding TcglogDump.event_line dec_two dec digit_chars digits hex_bytes hex_padded hex digest_of
    lookup EventType.to_string data_to_string
code_line = refl

tpm_directory : Path.dir (codes "/dev/./x/..//tpm0") ≡ codes "/dev"
unfolding Path.dir Path.clean Path.path_elements Path.clean_element Path.clean_elements
    Path.join_elements Path.is_rooted Path.up_to_slash equal
tpm_directory = refl

tpm_name : Path.base (codes "/dev/tpm0/") ≡ codes "tpm0"
unfolding Path.base Path.behind_slash Path.without_slashes
tpm_name = refl
