-- ===== src/TcglogDump.antt =====
-- tcglog-dump/main.go: the program that prints the events of a log.
pub mod Loop
pub mod Output
use tcglog_parser.Common.{
  ℕ, zero, suc, ◌%◌, ◌^◌, ◌⊎◌, inl, inr, Bool, true, false, Option, none, some, List, [], ◌∷◌, ◌++◌,
  ◌==◌, if◌then◌else◌, length,
}
use tcglog_parser.Errors.{Result, ok, err, panic}
use tcglog_parser.Go.Reader.{Bytes}
use tcglog_parser.Go.Text.{codes, hex_bytes}
use tcglog_parser.Go.Format.{dec_two}
use tcglog_parser.Go.Runtime.{Runtime}
use tcglog_parser.Types.{LogOptions}
use tcglog_parser.Types.Algorithm
use tcglog_parser.Types.EventType
use tcglog_parser.Display.Failure.{error_text}
use tcglog_parser.Display.Data.{data_to_string}
use tcglog_parser.Log.Format.{Event, digest_of}
use tcglog_parser.Log.{Log, next_event_only, new_log, is_eof}
use tcglog_parser.Program.{Run, Files, returns, crashes, fails, prints}

-- The variables that the flags set, and flag.Args; an int is its 64 bits.
pub record Flags : Type 0 where
  pub alg : Bytes
  pub verbose : Bool
  pub with_grub : Bool
  pub with_sd_efi_stub : Bool
  pub sd_efi_stub_pcr : ℕ
  pub pcrs : List ℕ
  pub args : List Bytes

-- The loop of shouldDisplayEvent.
unfoldable pub is_listed : List ℕ → ℕ → Bool
is_listed [] index = false
is_listed (pcr ∷ pcrs) index = if pcr == index then true else is_listed pcrs index

-- shouldDisplayEvent
unfoldable pub should_display_event : List ℕ → Event → Bool
should_display_event pcrs e = if length pcrs == 0 then true else is_listed pcrs e.pcr_index

-- The details of a verbose line.
abbrev pub details : Bytes → Bytes
details text = if length text == 0 then [] else codes " [ " ++ (text ++ codes " ]")

-- The line of an event. The error that would add a warning is nil there.
unfoldable pub event_line : Flags → ℕ → Event → Bytes
event_line flags alg e =
    dec_two e.pcr_index
    ++ (codes " "
        ++ (hex_bytes (digest_of alg e.digests)
            ++ (codes " "
                ++ (EventType.to_string e.event_type
                    ++ ((if flags.verbose then details (data_to_string e.content) else [])
                        ++ codes "\n")))))

-- What a round does with the answer of NextEvent, with the further rounds.
unfoldable pub dump_round : Flags → ℕ → (Log → Run) → Log × Result Event → Run
dump_round flags alg more (l, ok e) =
    let shown = prints (event_line flags alg e) (more l) in
    if should_display_event flags.pcrs e then shown else more l
dump_round flags alg more (l, err x) =
    if is_eof x
    then returns
    else fails (
        codes "Encountered an error when reading the next log event: "
        ++ (error_text x ++ codes "\n"))
dump_round flags alg more (l, panic) = crashes

-- The loop of main.
unfoldable pub dump_loop : Runtime → Flags → ℕ → ℕ → Log → Run
dump_loop rt flags alg zero l = none
dump_loop rt flags alg (suc fuel) l =
    dump_round flags alg (dump_loop rt flags alg fuel) (next_event_only rt l)

abbrev pub log_options : Flags → LogOptions
log_options flags = record {
  enable_grub = flags.with_grub;
  enable_systemd_efi_stub = flags.with_sd_efi_stub;
  systemd_efi_stub_pcr = flags.sd_efi_stub_pcr % 2 ^ 32;
}

-- main behind NewLog. Each event takes a byte at least, so one round more than the file has bytes
-- is enough.
unfoldable pub dump_log : Runtime → Flags → ℕ → Bytes → Result Log → Run
dump_log rt flags alg file (ok l) =
    if Algorithm.contains l.algorithms alg
    then dump_loop rt flags alg (suc (length file)) l
    else fails (
        codes "The log doesn't contain entries for the "
        ++ (Algorithm.to_string alg ++ codes " digest algorithm\n"))
dump_log rt flags alg file (err x) =
    fails (codes "Failed to parse log file: " ++ (error_text x ++ codes "\n"))
dump_log rt flags alg file panic = crashes

-- main behind os.Open.
unfoldable pub dump_file : Runtime → Flags → ℕ → Bytes ⊎ Bytes → Run
dump_file rt flags alg (inl message) =
    fails (codes "Failed to open log file: " ++ (message ++ codes "\n"))
dump_file rt flags alg (inr file) = dump_log rt flags alg file (new_log rt file (log_options flags))

-- The file that main opens; `none` where there are too many arguments.
unfoldable pub log_path : List Bytes → Option Bytes
log_path [] = some (codes "/sys/kernel/security/tpm0/binary_bios_measurements")
log_path (path ∷ []) = some path
log_path (path ∷ another ∷ args) = none

-- main behind ParseAlgorithm and the choice of the file.
unfoldable pub dump_path : Runtime → Files → Flags → Option ℕ → Option Bytes → Run
dump_path rt files flags none path =
    fails (codes "Unrecognized algorithm \"" ++ (flags.alg ++ codes "\"\n"))
dump_path rt files flags (some alg) none = fails (codes "Too many arguments\n")
dump_path rt files flags (some alg) (some path) = dump_file rt flags alg (files path)

-- main, behind the parsing of the flags.
unfoldable pub dump : Runtime → Files → Flags → Run
dump rt files flags =
    dump_path rt files flags (Algorithm.parse_algorithm flags.alg) (log_path flags.args)
