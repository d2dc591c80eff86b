-- ===== src/Go/Format.antt =====
-- Package fmt as a Formatter sees it: the state of a verb, and Fprintf of one unsigned number; and
-- strconv.ParseUint in base 10.
use mathlib.Core.Option.{map}
use tcglog_parser.Common.{
  ℕ, ◌+◌, ◌-◌, ◌*◌, ◌^◌, Bool, Option, none, some, [], ◌∷◌, ◌++◌, ◌==◌, ltb, leb, ◌&&◌,
  if◌then◌else◌, length, replicate,
}
use tcglog_parser.Go.Reader.{Bytes}
use tcglog_parser.Go.Text.{codes, dec}

-- fmt.State: the flags, the width and the precision of a verb.
pub record FmtState : Type 0 where
  pub plus : Bool
  pub minus : Bool
  pub sharp : Bool
  pub space : Bool
  pub zero_padded : Bool
  pub width : Option ℕ
  pub precision : Option ℕ

-- The text of a format in which each percent sign is doubled; `none` where one is not.
unfoldable pub plain_text : Bytes → Option Bytes
plain_text [] = some []
plain_text (c ∷ []) = if c == b'%' then none else some (c ∷ [])
plain_text (c ∷ d ∷ s) =
    let sign = map (◌∷◌ b'%') (plain_text s) in
    let other = map (◌∷◌ c) (plain_text (d ∷ s)) in
    if c == b'%' then if d == b'%' then sign else none else other

-- What Fprintf reports behind the text about an operand that no verb uses.
abbrev pub extra_operand : Bytes → ℕ → Bytes
extra_operand type_name n = codes "%!(EXTRA " ++ (type_name ++ (codes "=" ++ (dec n ++ codes ")")))

-- fmt.Fprintf of one operand, where the format has no verb that uses it; `none` where it has one.
unfoldable pub fprintf_unused : Bytes → Bytes → ℕ → Option Bytes
fprintf_unused format type_name n =
    map (λ text. text ++ extra_operand type_name n) (plain_text format)

-- The outcome of ParseUint: a number, ErrSyntax or ErrRange.
pub data ParsedUint : Type 0 where
  parsed : ℕ → ParsedUint
  syntax_error range_error : ParsedUint

abbrev pub is_digit : ℕ → Bool
is_digit c = leb b'0' c && leb c b'9'

unfoldable pub parse_digits : ℕ → ℕ → Bytes → ParsedUint
parse_digits limit n [] = parsed n
parse_digits limit n (c ∷ s) =
    let next = n * 10 + (c - b'0') in
    let rest = parse_digits limit next s in
    if is_digit c then if ltb next limit then rest else range_error else syntax_error

-- strconv.ParseUint(s, 10, bits)
unfoldable pub parse_uint : Bytes → ℕ → ParsedUint
parse_uint [] bits = syntax_error
parse_uint (c ∷ s) bits = parse_digits (2 ^ bits) 0 (c ∷ s)

-- %2d
unfoldable pub dec_two : ℕ → Bytes
dec_two n = replicate (2 - length (dec n)) b' ' ++ dec n
