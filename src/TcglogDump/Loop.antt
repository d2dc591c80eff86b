-- ===== src/TcglogDump/Loop.antt =====
-- The loop of tcglog-dump ends, and prints the events that are shown in their order.
use tcglog_parser.Common.{
  ℕ, zero, suc, ◌<◌, ◌≡◌, refl, sym, ap, ◌∙◌, ◌≢◌, Bool, true, false, none, List, [], ◌∷◌, ◌++◌,
  reverse, append_assoc, append-nil, arith, if◌then◌else◌, length,
}
use mathlib.Core.Path.{subst}
use mathlib.Core.List.{reverse-cons}
use tcglog_parser.Errors.{Result, ok, err, panic}
use tcglog_parser.Go.Reader.{Bytes}
use tcglog_parser.Go.Runtime.{Runtime}
use tcglog_parser.Log.Format.{Event}
use tcglog_parser.Log.{Log, without_count, next_event_only, next_event, is_eof}
use tcglog_parser.Log.State.{Returned, none_yet, one_more}
use tcglog_parser.Log.Progress.{remaining, NextOfLog, next_event-NextOfLog}
use tcglog_parser.Program.{Run, prints, returns, fails}
use tcglog_parser.Program.Laws.{prints-nil, prints-append, prints-ne-none}
use tcglog_parser.TcglogDump.{Flags, should_display_event, event_line, dump_round, dump_loop}

dump_round-ne-none :
    (rt : Runtime) (flags : Flags) (alg : ℕ) (more : Log → Run) (l : Log)
    (p : Log × Result (Event × ℕ))
    → NextOfLog l p
    → ((l' : Log) → length (remaining l'.stream) < length (remaining l.stream) → more l' ≢ none)
    → dump_round flags alg more (without_count p) ≢ none
unfolding dump_round
dump_round-ne-none rt flags alg more l (l', ok (e, n)) next h =
    go (should_display_event flags.pcrs e) (h l' next.1)
  where
    go :
        (b : Bool)
        → more l' ≢ none
        → (if b then prints (event_line flags alg e) (more l') else more l') ≢ none
    go true ends = prints-ne-none (event_line flags alg e) (more l') ends
    go false ends = ends
dump_round-ne-none rt flags alg more l (l', err x) next h = go (is_eof x) _
  where
    go : (b : Bool) (message : Bytes) → (if b then returns else fails message) ≢ none
    go true message = λ e. cc
    go false message = λ e. cc
dump_round-ne-none rt flags alg more l (l', panic) next h = λ e. cc

pub dump_loop-ne-none :
    (rt : Runtime) (flags : Flags) (alg fuel : ℕ) (l : Log)
    → length (remaining l.stream) < fuel
    → dump_loop rt flags alg fuel l ≢ none
unfolding dump_loop next_event_only
dump_loop-ne-none rt flags alg zero l h = absurd (omega arith)
dump_loop-ne-none rt flags alg (suc fuel) l h =
    dump_round-ne-none rt flags alg (dump_loop rt flags alg fuel) l (next_event rt l)
      (next_event-NextOfLog rt l)
      (λ l' shorter. dump_loop-ne-none rt flags alg fuel l' (omega arith))

-- The lines of those of the events that are shown.
abbrev pub printed : Flags → ℕ → List Event → Bytes
printed flags alg [] = []
printed flags alg (e ∷ events) =
    (if should_display_event flags.pcrs e then event_line flags alg e else [])
    ++ printed flags alg events

printed-append :
    (flags : Flags) (alg : ℕ) (a b : List Event)
    → printed flags alg (a ++ b) ≡ printed flags alg a ++ printed flags alg b
printed-append flags alg [] b = refl
printed-append flags alg (e ∷ a) b =
    let line = if should_display_event flags.pcrs e then event_line flags alg e else [] in
    ap (◌++◌ line) (printed-append flags alg a b)
    ∙ sym (append_assoc line (printed flags alg a) (printed flags alg b))

-- One round that reads an event.
dump_round-prints :
    (flags : Flags) (alg : ℕ) (more : Log → Run) (l : Log) (e : Event)
    → dump_round flags alg more (l, ok e) ≡ prints (printed flags alg (e ∷ [])) (more l)
unfolding dump_round
dump_round-prints flags alg more l e = go (should_display_event flags.pcrs e)
  where
    line : Bytes
    line = event_line flags alg e

    go :
        (b : Bool)
        → (if b then prints line (more l) else more l)
          ≡ prints ((if b then line else []) ++ []) (more l)
    go true = ap (λ text. prints text (more l)) (sym (append-nil line))
    go false = sym (prints-nil (more l))

-- The loop on its way: what it printed, and the rounds that are left.
pub record IsPrinted (rt : Runtime) (flags : Flags) (alg : ℕ) (run : Run) (text : Bytes) (l : Log)
    : Type 0 where
  pub fuel : ℕ
  pub goes_on : run ≡ prints text (dump_loop rt flags alg fuel l)
  pub enough : length (remaining l.stream) < fuel

step-IsPrinted :
    (rt : Runtime) (flags : Flags) (alg : ℕ) (run : Run) (text : Bytes) (l l' : Log) (e : Event)
    (n : ℕ)
    → next_event rt l ≡ (l', ok (e, n))
    → IsPrinted rt flags alg run text l
    → IsPrinted rt flags alg run (text ++ printed flags alg (e ∷ [])) l'
unfolding dump_loop next_event_only
step-IsPrinted rt flags alg run text l l' e n step w = go w.fuel w.goes_on w.enough
  where
    next : NextOfLog l (l', ok (e, n))
    next = subst (NextOfLog l) step (next_event-NextOfLog rt l)

    go :
        (fuel : ℕ)
        → run ≡ prints text (dump_loop rt flags alg fuel l)
        → length (remaining l.stream) < fuel
        → IsPrinted rt flags alg run (text ++ printed flags alg (e ∷ [])) l'
    go zero same enough = absurd (omega arith)
    go (suc fuel) same enough =
        let more = dump_loop rt flags alg fuel in
        record {
          fuel = fuel;
          goes_on =
              same
              ∙ ap (λ p. prints text (dump_round flags alg more (without_count p))) step
              ∙ ap (prints text) (dump_round-prints flags alg more l' e)
              ∙ prints-append text (printed flags alg (e ∷ [])) (more l');
          enough = omega (arith, next.1);
        }

-- Behind the events that a log returned, the loop has printed those of them that are shown.
pub Returned-IsPrinted :
    {rt : Runtime} {start : Log} {events : List Event} {l : Log} (flags : Flags) (alg fuel : ℕ)
    → length (remaining start.stream) < fuel
    → Returned rt start events l
    → IsPrinted rt flags alg
        (dump_loop rt flags alg fuel start)
        (printed flags alg (reverse events))
        l
Returned-IsPrinted flags alg fuel enough none_yet = record {
  fuel = fuel;
  goes_on = sym (prints-nil _);
  enough = enough;
}
Returned-IsPrinted {rt} {start} flags alg fuel enough
      (one_more {events} {l} {l'} {e} {trailing} r step) =
    subst (λ text. IsPrinted rt flags alg (dump_loop rt flags alg fuel start) text l')
      (sym (
        ap (printed flags alg) (reverse-cons e events)
        ∙ printed-append flags alg (reverse events) (e ∷ [])))
      (step-IsPrinted rt flags alg _ _ l l' e trailing step
        (Returned-IsPrinted flags alg fuel enough r))
