-- ===== src/TcglogValidate/Events.antt =====
-- What the report says of the events of a log.
use tcglog_parser.Common.{
  ◌≡◌, refl, sym, ap, ◌∙◌, Bool, true, false, List, [], ◌∷◌, ◌++◌, All, arith, ltb, ◌==◌,
  if◌then◌else◌, length,
}
use tcglog_parser.Go.Reader.{Bytes}
use tcglog_parser.Validate.Check.{
  Behaviour, unknown, full, var_data_only, ValidatedEvent, LogValidateResult,
}
use tcglog_parser.Validate.Check.Count.{IsCounted}
use tcglog_parser.Program.{Run, prints, crashes}
use tcglog_parser.Program.Laws.{prints-nil, prints-append}
use tcglog_parser.TcglogValidate.Report.{
  behaviour_remark, print_behaviour, trailing_heading, trailing_line, print_trailing_line,
  print_trailing, trailing_note, incorrect_heading, incorrect_lines, print_incorrect,
  incorrect_note,
}
use tcglog_parser.TcglogValidate.{report_events}

-- The entries of a section, with the heading in front of the first one, unless it stands there.
abbrev pub section :
    (ValidatedEvent → Bool) → (ValidatedEvent → Bytes) → Bytes → Bool → List ValidatedEvent → Bytes
section skips entry heading seen [] = []
section skips entry heading seen (v ∷ events) =
    if skips v
    then section skips entry heading seen events
    else ((if seen then [] else heading) ++ entry v) ++ section skips entry heading true events

-- Whether the section has an entry.
abbrev pub has_entry : (ValidatedEvent → Bool) → Bool → List ValidatedEvent → Bool
has_entry skips seen [] = seen
has_entry skips seen (v ∷ events) =
    if skips v then has_entry skips seen events else has_entry skips true events

-- One round of a loop that prints a section.
section-round :
    (text : Bytes) (skipped shown more more' : Run) (rest rest' : Bytes) (b : Bool)
    → skipped ≡ prints rest more
    → shown ≡ prints text (prints rest' more')
    → (if b then skipped else shown)
      ≡ prints (if b then rest else text ++ rest') (if b then more else more')
section-round text skipped shown more more' rest rest' true h k = h
section-round text skipped shown more more' rest rest' false h k =
    k ∙ prints-append text rest' more'

next-if :
    (b : Bool) (next : Bool → Run) (x y : Bool)
    → (if b then next x else next y) ≡ next (if b then x else y)
next-if true next x y = refl
next-if false next x y = refl

abbrev pub has_no_trailing : ValidatedEvent → Bool
has_no_trailing v = v.measured_trailing_bytes_count == 0

abbrev pub has_no_incorrect : ValidatedEvent → Bool
has_no_incorrect v = length v.incorrect_digest_values == 0

abbrev pub incorrect_entry : ValidatedEvent → Bytes
incorrect_entry v = incorrect_lines v.event v.incorrect_digest_values

print_trailing_line-prints :
    (v : ValidatedEvent) (next : Run)
    → IsCounted v
    → print_trailing_line v next ≡ prints (trailing_line v) next
unfolding print_trailing_line
print_trailing_line-prints v next h =
    let fit : ltb (length v.measured_bytes) v.measured_trailing_bytes_count ≡ false =
      ground (arith, h) in
    ap (λ b. if b then crashes else prints (trailing_line v) next) fit

print_trailing-prints :
    (seen : Bool) (events : List ValidatedEvent) (next : Bool → Run)
    → All IsCounted events
    → print_trailing seen events next
      ≡ prints
          (section has_no_trailing trailing_line trailing_heading seen events)
          (next (has_entry has_no_trailing seen events))
unfolding print_trailing
print_trailing-prints seen [] next h = sym (prints-nil (next seen))
print_trailing-prints seen (v ∷ events) next (counted, h) =
    let heading : Bytes = if seen then [] else trailing_heading in
    section-round (heading ++ trailing_line v) (print_trailing seen events next) _
      (next (has_entry has_no_trailing seen events)) (next (has_entry has_no_trailing true events))
      (section has_no_trailing trailing_line trailing_heading seen events)
      (section has_no_trailing trailing_line trailing_heading true events) (has_no_trailing v)
      (print_trailing-prints seen events next h)
      (ap (prints heading) (print_trailing_line-prints v (print_trailing true events next) counted)
        ∙ prints-append heading (trailing_line v) (print_trailing true events next)
        ∙ ap (prints (heading ++ trailing_line v)) (print_trailing-prints true events next h))
    ∙ ap (prints (section has_no_trailing trailing_line trailing_heading seen (v ∷ events))) (
        next-if (has_no_trailing v) next (has_entry has_no_trailing seen events)
          (has_entry has_no_trailing true events))

print_incorrect-prints :
    (seen : Bool) (events : List ValidatedEvent) (next : Bool → Run)
    → print_incorrect seen events next
      ≡ prints
          (section has_no_incorrect incorrect_entry incorrect_heading seen events)
          (next (has_entry has_no_incorrect seen events))
unfolding print_incorrect
print_incorrect-prints seen [] next = sym (prints-nil (next seen))
print_incorrect-prints seen (v ∷ events) next =
    let heading : Bytes = if seen then [] else incorrect_heading in
    section-round (heading ++ incorrect_entry v) (print_incorrect seen events next) _
      (next (has_entry has_no_incorrect seen events))
      (next (has_entry has_no_incorrect true events))
      (section has_no_incorrect incorrect_entry incorrect_heading seen events)
      (section has_no_incorrect incorrect_entry incorrect_heading true events) (has_no_incorrect v)
      (print_incorrect-prints seen events next)
      (ap (prints (heading ++ incorrect_entry v)) (print_incorrect-prints true events next))
    ∙ ap (prints (section has_no_incorrect incorrect_entry incorrect_heading seen (v ∷ events))) (
        next-if (has_no_incorrect v) next (has_entry has_no_incorrect seen events)
          (has_entry has_no_incorrect true events))

abbrev pub behaviour_text : Behaviour → Bytes
behaviour_text var_data_only = behaviour_remark
behaviour_text unknown = []
behaviour_text full = []

print_behaviour-prints :
    (b : Behaviour) (next : Run) → print_behaviour b next ≡ prints (behaviour_text b) next
unfolding print_behaviour
print_behaviour-prints var_data_only next = refl
print_behaviour-prints unknown next = sym (prints-nil next)
print_behaviour-prints full next = sym (prints-nil next)

-- The sections on the events of a result.
abbrev pub events_text : LogValidateResult → Bytes
events_text res =
    let events = res.validated_events in
    behaviour_text res.efi_boot_variable_behaviour
    ++ (section has_no_trailing trailing_line trailing_heading false events
        ++ ((if has_entry has_no_trailing false events then trailing_note else [])
            ++ (section has_no_incorrect incorrect_entry incorrect_heading false events
                ++ (if has_entry has_no_incorrect false events then incorrect_note else []))))

-- The report on the events is printed without a panic, where no event counts more bytes as trailing
-- than were measured.
pub report_events-prints :
    (res : LogValidateResult) (next : Run)
    → All IsCounted res.validated_events
    → report_events res next ≡ prints (events_text res) next
unfolding report_events
report_events-prints res next h =
    let events = res.validated_events in
    let behaviour = behaviour_text res.efi_boot_variable_behaviour in
    let trailing = section has_no_trailing trailing_line trailing_heading false events in
    let trailing_end : Bytes =
      if has_entry has_no_trailing false events then trailing_note else [] in
    let incorrect = section has_no_incorrect incorrect_entry incorrect_heading false events in
    let incorrect_end : Bytes =
      if has_entry has_no_incorrect false events then incorrect_note else [] in
    print_behaviour-prints res.efi_boot_variable_behaviour _
    ∙ ap (prints behaviour) (
        print_trailing-prints false events _ h
        ∙ ap (λ r. prints trailing (prints trailing_end r)) (print_incorrect-prints false events _)
        ∙ ap (λ r. prints trailing (prints trailing_end r))
            (prints-append incorrect incorrect_end next)
        ∙ ap (prints trailing) (prints-append trailing_end (incorrect ++ incorrect_end) next)
        ∙ prints-append trailing (trailing_end ++ (incorrect ++ incorrect_end)) next)
    ∙ prints-append behaviour (trailing ++ (trailing_end ++ (incorrect ++ incorrect_end))) next
