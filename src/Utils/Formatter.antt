-- ===== src/Utils/Formatter.antt =====
-- The format that makeDefaultFormatter makes is no format of a number.
use mathlib.Core.Option.{map}
use tcglog_parser.Common.{
  ℕ, ◌≡◌, ◌≢◌, refl, ap, ◌∙◌, Bool, true, false, Option, none, some, List, [], ◌∷◌, ◌++◌, arith,
  All, ◌==◌, if◌then◌else◌,
}
use tcglog_parser.Go.Reader.{Bytes}
use tcglog_parser.Go.Text.{codes, digits, digit_chars, dec}
use tcglog_parser.Go.Unicode.{encode_rune}
use tcglog_parser.Go.Format.{FmtState, plain_text, extra_operand, fprintf_unused}
use tcglog_parser.Utils.{flag_text, width_text, precision_text, verb_text, make_default_formatter}

-- No byte is a percent sign.
abbrev IsPlain : Bytes → Type 0
IsPlain s = All (λ c. (c == b'%') ≡ false) s

append-IsPlain : (a b : Bytes) → IsPlain a → IsPlain b → IsPlain (a ++ b)
append-IsPlain [] b h k = k
append-IsPlain (c ∷ a) b (h, hs) k = (h, append-IsPlain a b hs k)

if-IsPlain : (t : Bool) (a : Bytes) → IsPlain a → IsPlain (if t then a else [])
if-IsPlain true a h = h
if-IsPlain false a h = tt

plain_text-IsPlain : (s : Bytes) → IsPlain s → plain_text s ≡ some s
unfolding plain_text
plain_text-IsPlain [] h = refl
plain_text-IsPlain (c ∷ []) h = ap (λ b. if b then none else some (c ∷ [])) h.0
plain_text-IsPlain (c ∷ d ∷ s) (h, hs) =
    let sign = map (◌∷◌ b'%') (plain_text s) in
    let other = map (◌∷◌ c) (plain_text (d ∷ s)) in
    ap (λ b. if b then if d == b'%' then sign else none else other) h
    ∙ ap (map (◌∷◌ c)) (plain_text-IsPlain (d ∷ s) hs)

digit_chars-IsPlain : (ds : List ℕ) → IsPlain (digit_chars ds)
unfolding digit_chars
digit_chars-IsPlain [] = tt
digit_chars-IsPlain (d ∷ ds) = (ground arith, digit_chars-IsPlain ds)

dec-IsPlain : (n : ℕ) → IsPlain (dec n)
unfolding dec
dec-IsPlain n = digit_chars-IsPlain (digits 64 10 n)

width_text-IsPlain : (o : Option ℕ) → IsPlain (width_text o)
width_text-IsPlain (some n) = dec-IsPlain n
width_text-IsPlain none = tt

precision_text-IsPlain : (o : Option ℕ) → IsPlain (precision_text o)
precision_text-IsPlain (some n) = (refl, dec-IsPlain n)
precision_text-IsPlain none = tt

encode_rune-IsPlain : (f : ℕ) → f ≢ b'%' → IsPlain (encode_rune f)
unfolding encode_rune
encode_rune-IsPlain f h = ground arith

flag_text-IsPlain : (s : FmtState) → IsPlain (flag_text s)
flag_text-IsPlain s = append-IsPlain _ _ (if-IsPlain s.plus (codes "+") (refl, tt)) (
    append-IsPlain _ _ (if-IsPlain s.minus (codes "-") (refl, tt)) (
      append-IsPlain _ _ (if-IsPlain s.sharp (codes "#") (refl, tt)) (
        append-IsPlain _ _ (if-IsPlain s.space (codes " ") (refl, tt))
          (if-IsPlain s.zero_padded (codes "0") (refl, tt)))))

verb_text-IsPlain : (s : FmtState) (f : ℕ) → f ≢ b'%' → IsPlain (verb_text s f)
verb_text-IsPlain s f h = append-IsPlain (flag_text s) _ (flag_text-IsPlain s) (
    append-IsPlain (width_text s.width) _ (width_text-IsPlain s.width) (
      append-IsPlain (precision_text s.precision) _ (precision_text-IsPlain s.precision)
        (encode_rune-IsPlain f h)))

-- Fprintf writes the verb itself, and the number as an operand too many.
pub make_default_formatter-unused :
    (s : FmtState) (f : ℕ) (type_name : Bytes) (n : ℕ)
    → f ≢ b'%'
    → fprintf_unused (make_default_formatter s f) type_name n
      ≡ some (b'%' ∷ verb_text s f ++ extra_operand type_name n)
unfolding fprintf_unused make_default_formatter plain_text
make_default_formatter-unused s f type_name n h =
    ap (λ o. map (λ text. text ++ extra_operand type_name n) (map (◌∷◌ b'%') o))
      (plain_text-IsPlain (verb_text s f) (verb_text-IsPlain s f h))
