-- ===== src/Tests/Dump.antt =====
-- tcglog-dump on the small log, and PCRs and verbs as the command line has them.
use mathlib.Core.List.{Memᴰ}
use tcglog_parser.Common.{
  ℕ, ◌<◌, ◌≡◌, refl, ◌≢◌, inr, true, false, none, some, List, [], ◌∷◌, ◌++◌, reverse, ◌↔◌, arith,
  ◌⊎◌,
}
use tcglog_parser.Errors.{eof}
use tcglog_parser.Go.Runtime.{toy_runtime}
use tcglog_parser.Go.Text.{equal, codes}
use tcglog_parser.Types.Algorithm
use tcglog_parser.Types.EventType
use tcglog_parser.Log.State.{none_yet, one_more}
use tcglog_parser.Program.{Files}
use tcglog_parser.TcglogDump
use tcglog_parser.TcglogDump.Loop.{printed}
use tcglog_parser.TcglogDump.Output.{ended, dump-prints, dump-ne-none, should_display_event_iff}
use tcglog_parser.Go.Format.{extra_operand}
use tcglog_parser.Utils.{pcr_arg_list_set, verb_text}
use tcglog_parser.Utils.Numbers.{numeral, AreDigits, pcr_arg_list_set_iff}
use tcglog_parser.Types.Verbs.{format-verb_text}
use tcglog_parser.Display.Failure.{four_digits}
use tcglog_parser.Tests.Data.{file, code_event, zeros_event}
use tcglog_parser.Tests.Log.{first_step, second_step, file_opens, file_end}

abbrev flags : TcglogDump.Flags
flags = record {
  alg = codes "sha1";
  verbose = true;
  with_grub = false;
  with_sd_efi_stub = false;
  sd_efi_stub_pcr = 0;
  pcrs = [];
  args = codes "log" ∷ [];
}

abbrev one_file : Files
one_file path = inr file

dump_file-prints :
    TcglogDump.dump toy_runtime one_file flags
    ≡ some (ended (printed flags Algorithm.sha1 (reverse (zeros_event ∷ code_event ∷ []))) eof)
dump_file-prints =
    dump-prints toy_runtime one_file flags Algorithm.sha1 file
      (record {
        path = codes "log";
        names_algorithm = unfold Algorithm.parse_algorithm equal in refl;
        names_path = unfold TcglogDump.log_path in refl;
        opens = refl;
      })
      file_opens (unfold Algorithm.contains in refl)
      (one_more (one_more none_yet first_step) second_step) file_end

dump_file-ne-none : TcglogDump.dump toy_runtime one_file flags ≢ none
dump_file-ne-none = dump-ne-none toy_runtime one_file flags

abbrev two_pcrs : List ℕ
two_pcrs = 7 ∷ 0 ∷ []

code_event_iff :
    (TcglogDump.should_display_event two_pcrs code_event ≡ true)
    ↔ ((two_pcrs ≡ []) ⊎ Memᴰ 0 two_pcrs)
code_event_iff = should_display_event_iff two_pcrs code_event

seventeen_iff : (pcr_arg_list_set (3 ∷ []) (codes "17") ≡ inr (3 ∷ 17 ∷ [])) ↔ (
    (codes "17" ≢ [])
    × AreDigits (codes "17")
    × (numeral (codes "17") < 4294967296)
    × (3 ∷ 17 ∷ [] ≡ 3 ∷ numeral (codes "17") ∷ []))
seventeen_iff = pcr_arg_list_set_iff (3 ∷ []) (codes "17") (3 ∷ 17 ∷ [])

x-verb_text :
    (EventType.format four_digits 120 11
      ≡ some (37 ∷ verb_text four_digits 120 ++ extra_operand (codes "uint32") 11))
    × (Algorithm.format four_digits 120 11
        ≡ some (37 ∷ verb_text four_digits 120 ++ extra_operand (codes "uint16") 11))
x-verb_text = format-verb_text four_digits 120 11 (λ e. omega (arith, e)) (λ e. omega (arith, e))
