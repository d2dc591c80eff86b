-- ===== src/TcglogDump/Output.antt =====
-- What a run of tcglog-dump prints, and that it ends.
use mathlib.Core.List.Memᴰ
use mathlib.Core.List.{Memᴰ}
use tcglog_parser.Common.{
  ℕ, zero, suc, ◌<◌, ◌≡◌, refl, sym, ap, ◌∙◌, ◌≢◌, ◌↔◌, ◌⊎◌, inl, inr, Bool, true, false, Option,
  none, some, List, [], ◌∷◌, ◌++◌, reverse, append-nil, arith, ◌==◌, ==_iff, if◌then◌else◌,
  Bool-cases, length,
}
use tcglog_parser.Errors.{Error, Result, ok, err, panic}
use tcglog_parser.Go.Reader.{Bytes}
use tcglog_parser.Go.Text.{codes}
use tcglog_parser.Go.Runtime.{Runtime}
use tcglog_parser.Types.Algorithm
use tcglog_parser.Display.Failure.{error_text}
use tcglog_parser.Log.Format.{Event}
use tcglog_parser.Log.{Log, without_count, next_event_only, next_event, new_log, is_eof}
use tcglog_parser.Log.State.{Returned}
use tcglog_parser.Log.Progress.{remaining}
use tcglog_parser.Validate.Terminates.{new_log-remaining}
use tcglog_parser.Program.{Run, Program, exited, Files, prints, returns, fails}
use tcglog_parser.TcglogDump.{
  Flags, is_listed, should_display_event, dump_round, dump_loop, log_options, dump_log, dump_file,
  log_path, dump_path, dump,
}
use tcglog_parser.TcglogDump.Loop.{dump_loop-ne-none, printed, IsPrinted, Returned-IsPrinted}

-- What the program leaves behind when reading the log ends in the error `x`.
abbrev pub ended : Bytes → Error → Program
ended text x = record {
  stdout = text;
  stderr =
      if is_eof x
      then []
      else codes "Encountered an error when reading the next log event: "
        ++ (error_text x ++ codes "\n");
  status = exited (if is_eof x then 0 else 1);
}

prints-ended :
    (text : Bytes) (x : Error) (b : Bool)
    → prints text (
        if b
        then returns
        else fails (
            codes "Encountered an error when reading the next log event: "
            ++ (error_text x ++ codes "\n")))
      ≡ some (record {
        stdout = text;
        stderr =
            if b
            then []
            else codes "Encountered an error when reading the next log event: "
              ++ (error_text x ++ codes "\n");
        status = exited (if b then 0 else 1);
      })
prints-ended text x true = rw append-nil
prints-ended text x false = rw append-nil

-- The loop, once reading the log ends in an error.
loop-ended :
    (rt : Runtime) (flags : Flags) (alg : ℕ) (run : Run) (text : Bytes) (l l' : Log) (x : Error)
    → next_event rt l ≡ (l', err x)
    → IsPrinted rt flags alg run text l
    → run ≡ some (ended text x)
unfolding dump_loop dump_round next_event_only
loop-ended rt flags alg run text l l' x step w = go w.fuel w.goes_on w.enough
  where
    go :
        (fuel : ℕ)
        → run ≡ prints text (dump_loop rt flags alg fuel l)
        → length (remaining l.stream) < fuel
        → run ≡ some (ended text x)
    go zero same enough = absurd (omega arith)
    go (suc fuel) same enough =
        same
        ∙ ap
            (λ p.
              prints text (dump_round flags alg (dump_loop rt flags alg fuel) (without_count p)))
            step
        ∙ prints-ended text x (is_eof x)

-- The command line names an algorithm and a file.
pub record IsCommand (files : Files) (flags : Flags) (alg : ℕ) (file : Bytes) : Type 0 where
  pub path : Bytes
  pub names_algorithm : Algorithm.parse_algorithm flags.alg ≡ some alg
  pub names_path : log_path flags.args ≡ some path
  pub opens : files path ≡ inr file

dump-file :
    (rt : Runtime) (files : Files) (flags : Flags) (alg : ℕ) (file : Bytes)
    → IsCommand files flags alg file
    → dump rt files flags ≡ dump_log rt flags alg file (new_log rt file (log_options flags))
unfolding dump dump_path dump_file
dump-file rt files flags alg file c =
    ap (λ o. dump_path rt files flags o (log_path flags.args)) c.names_algorithm
    ∙ ap (dump_path rt files flags (some alg)) c.names_path
    ∙ ap (dump_file rt flags alg) c.opens

-- tcglog-dump prints a line for each event that is to be shown, in the order of the log, and nothing
-- else on its standard output, where the command line names an algorithm of the log and a file, and
-- the file is a log that is opened and from which events are returned until reading fails. It ends
-- with status 0 at the end of the log, and with status 1 and a message at another error.
pub dump-prints :
    (rt : Runtime) (files : Files) (flags : Flags) (alg : ℕ) (file : Bytes) {start l l' : Log}
    {events : List Event} {x : Error}
    → IsCommand files flags alg file
    → new_log rt file (log_options flags) ≡ ok start
    → Algorithm.contains start.algorithms alg ≡ true
    → Returned rt start events l
    → next_event rt l ≡ (l', err x)
    → dump rt files flags ≡ some (ended (printed flags alg (reverse events)) x)
dump-prints rt files flags alg file {start} {l} {l'} {events} {x} c opens has returned step =
    let begins : dump rt files flags ≡ dump_loop rt flags alg (suc (length file)) start =
      dump-file rt files flags alg file c ∙ ap (dump_log rt flags alg file) opens ∙ opened in
    let room : length (remaining start.stream) < suc (length file) =
      omega
        (arith, ap length ((new_log-remaining rt file (log_options flags)).holds start opens)) in
    begins
    ∙ loop-ended rt flags alg _ _ l l' x step
        (Returned-IsPrinted flags alg (suc (length file)) room returned)
  where
    opened :
        dump_log rt flags alg file (ok start) ≡ dump_loop rt flags alg (suc (length file)) start
    opened = unfold dump_log in rw has

pub is_listed-Memᴰ : (pcrs : List ℕ) (index : ℕ) → (is_listed pcrs index ≡ true) ↔ Memᴰ index pcrs
unfolding is_listed
is_listed-Memᴰ [] index = (λ e. absurd (ground arith), λ m. absurd (Memᴰ.not-nil m))
is_listed-Memᴰ (pcr ∷ pcrs) index = elim (Bool-cases (pcr == index)) [
  | inl same ↦ (
    λ _. Memᴰ.head (sym ((==_iff pcr index).0 same)),
    λ _. ap (λ b. if b then true else is_listed pcrs index) same,
  )
  | inr other ↦
      let skip : is_listed (pcr ∷ pcrs) index ≡ is_listed pcrs index =
        ap (λ b. if b then true else is_listed pcrs index) other in
      (
        λ e. Memᴰ.tail ((is_listed-Memᴰ pcrs index).0 (sym skip ∙ e)),
        λ m. elim (Memᴰ.cases_cons m) [
          | inl e ↦ cc ((==_iff pcr index).1 (sym e), other)
          | inr m' ↦ skip ∙ (is_listed-Memᴰ pcrs index).1 m'
        ],
      )
]

-- An event is shown exactly where no PCR is listed, or its own is.
pub should_display_event_iff :
    (pcrs : List ℕ) (e : Event)
    → (should_display_event pcrs e ≡ true) ↔ ((pcrs ≡ []) ⊎ Memᴰ e.pcr_index pcrs)
unfolding should_display_event
should_display_event_iff [] e = (λ _. inl refl, λ _. refl)
should_display_event_iff (pcr ∷ pcrs) e =
    let (listed, shown) = is_listed-Memᴰ (pcr ∷ pcrs) e.pcr_index in
    let some_pcr : (suc (length pcrs) == 0) ≡ false = ground arith in
    let same : should_display_event (pcr ∷ pcrs) e ≡ is_listed (pcr ∷ pcrs) e.pcr_index =
      ap (λ b. if b then true else is_listed (pcr ∷ pcrs) e.pcr_index) some_pcr in
    (
      λ h. inr (listed (sym same ∙ h)),
      λ o. elim o [ inl h ↦ absurd (ground arith) | inr m ↦ same ∙ shown m ],
    )

dump_log-ne-none :
    (rt : Runtime) (flags : Flags) (alg : ℕ) (file : Bytes) (r : Result Log)
    → ((l : Log) → r ≡ ok l → length (remaining l.stream) < suc (length file))
    → dump_log rt flags alg file r ≢ none
unfolding dump_log
dump_log-ne-none rt flags alg file (ok l) h = go (Algorithm.contains l.algorithms alg)
  where
    go :
        (b : Bool)
        → (if b
            then dump_loop rt flags alg (suc (length file)) l
            else fails (
                codes "The log doesn't contain entries for the "
                ++ (Algorithm.to_string alg ++ codes " digest algorithm\n")))
          ≢ none
    go true = dump_loop-ne-none rt flags alg (suc (length file)) l (h l refl)
    go false = λ e. cc
dump_log-ne-none rt flags alg file (err x) h = λ e. cc
dump_log-ne-none rt flags alg file panic h = λ e. cc

-- A run of tcglog-dump ends, whatever the command line and the files are: its loop never needs more
-- rounds than one more than the log has bytes.
pub dump-ne-none : (rt : Runtime) (files : Files) (flags : Flags) → dump rt files flags ≢ none
unfolding dump
dump-ne-none rt files flags = go (Algorithm.parse_algorithm flags.alg) (log_path flags.args)
  where
    opened : (alg : ℕ) (r : Bytes ⊎ Bytes) → dump_file rt flags alg r ≢ none
    opened alg (inl message) = unfold dump_file in λ e. cc
    opened alg (inr file) =
        unfold dump_file in
        dump_log-ne-none rt flags alg file (new_log rt file (log_options flags)) λ l h.
          omega (arith, ap length ((new_log-remaining rt file (log_options flags)).holds l h))

    go : (alg : Option ℕ) (path : Option Bytes) → dump_path rt files flags alg path ≢ none
    go none path = unfold dump_path in λ e. cc
    go (some alg) none = unfold dump_path in λ e. cc
    go (some alg) (some path) = unfold dump_path in opened alg (files path)
