-- ===== src/Program/Laws.antt =====
-- Texts printed in front of a run.
use tcglog_parser.Common.{◌≡◌, ◌≢◌, refl, sym, ap, none, some, [], ◌++◌, append_assoc}
use tcglog_parser.Go.Reader.{Bytes}
use tcglog_parser.Program.{Run, prints}

pub prints-nil : (run : Run) → prints [] run ≡ run
prints-nil (some p) = refl
prints-nil none = refl

pub prints-append : (a b : Bytes) (run : Run) → prints a (prints b run) ≡ prints (a ++ b) run
prints-append a b (some p) =
    ap (λ out. some (record p { stdout = out })) (sym (append_assoc a b p.stdout))
prints-append a b none = refl

pub prints-ne-none : (text : Bytes) (run : Run) → run ≢ none → prints text run ≢ none
prints-ne-none text (some p) h = λ e. cc
prints-ne-none text none h = λ e. h e
