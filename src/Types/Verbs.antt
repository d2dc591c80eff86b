-- ===== src/Types/Verbs.antt =====
-- EventType.Format and AlgorithmId.Format for other verbs than %s.
use tcglog_parser.Common.{ℕ, ◌≡◌, ◌≢◌, ap, ◌∙◌, false, some, ◌∷◌, ◌++◌, arith, ◌==◌, if◌then◌else◌}
use tcglog_parser.Go.Text.{codes}
use tcglog_parser.Go.Format.{FmtState, extra_operand, fprintf_unused}
use tcglog_parser.Utils.{verb_text, make_default_formatter}
use tcglog_parser.Utils.Formatter.{make_default_formatter-unused}
use tcglog_parser.Types.Algorithm
use tcglog_parser.Types.EventType

-- With any verb but %s, and but the percent sign, an event type and an algorithm are not printed as
-- numbers: their Format methods write the verb itself, with its flags, width and precision behind one
-- percent sign, and report the number as an operand too many.
pub format-verb_text :
    (s : FmtState) (f n : ℕ)
    → f ≢ b's'
    → f ≢ b'%'
    → (EventType.format s f n ≡ some (b'%' ∷ verb_text s f ++ extra_operand (codes "uint32") n))
      × (Algorithm.format s f n ≡ some (b'%' ∷ verb_text s f ++ extra_operand (codes "uint16") n))
unfolding EventType.format Algorithm.format
format-verb_text s f n h k =
    let other : (f == b's') ≡ false = ground (arith, h) in
    (
      ap
            (λ b.
              if b
              then some (EventType.to_string n)
              else fprintf_unused (make_default_formatter s f) (codes "uint32") n)
            other
          ∙ make_default_formatter-unused s f (codes "uint32") n k,
      ap
            (λ b.
              if b
              then some (Algorithm.to_string n)
              else fprintf_unused (make_default_formatter s f) (codes "uint16") n)
            other
          ∙ make_default_formatter-unused s f (codes "uint16") n k,
    )
