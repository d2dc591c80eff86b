-- ===== src/Go/Text.antt =====
-- Strings as bytes, and the verbs of package fmt that the program uses: %d, %x and %0nx of an
-- unsigned integer, %x of bytes; the prefix and suffix functions of package strings.
pub mod Laws
use Prim.Native.Char.{code}
use Prim.Native.String.{String}
use tcglog_parser.Common.{
  ℕ, zero, suc, ◌+◌, ◌-◌, ◌/◌, ◌%◌, List, [], ◌∷◌, ◌++◌, ltb, ◌==◌, if◌then◌else◌, length, drop,
  take, replicate, Bool, true, false, ◌&&◌,
}
use tcglog_parser.Go.Reader.{Bytes}

-- The bytes of an ASCII text.
abbrev pub codes : String → Bytes
codes (String.◌∷◌ first rest) = code first ∷ codes rest
codes String.[] = []

-- Digits of `n`, highest first; 64 rounds are enough below 2 ^ 64 in any base.
unfoldable pub digits : ℕ → ℕ → ℕ → List ℕ
digits zero base n = []
digits (suc fuel) base n =
    let more = digits fuel base (n / base) ++ (n % base ∷ []) in if ltb n base then n ∷ [] else more

abbrev pub digit_char : ℕ → ℕ
digit_char d = if ltb d 10 then b'0' + d else b'a' + (d - 10)

unfoldable pub digit_chars : List ℕ → Bytes
digit_chars [] = []
digit_chars (d ∷ ds) = digit_char d ∷ digit_chars ds

-- %d and %x
unfoldable pub dec : ℕ → Bytes
dec n = digit_chars (digits 64 10 n)

unfoldable pub hex : ℕ → Bytes
hex n = digit_chars (digits 64 16 n)

-- %0wx
unfoldable pub hex_padded : ℕ → ℕ → Bytes
hex_padded w n = replicate (w - length (hex n)) b'0' ++ hex n

-- %x of a byte slice
unfoldable pub hex_bytes : Bytes → Bytes
hex_bytes [] = []
hex_bytes (b ∷ bs) = hex_padded 2 b ++ hex_bytes bs

-- bytes.Equal, and == of strings
unfoldable pub equal : Bytes → Bytes → Bool
equal [] [] = true
equal (x ∷ xs) (y ∷ ys) = x == y && equal xs ys
equal _ _ = false

-- strings.HasPrefix, strings.TrimPrefix
unfoldable pub has_prefix : Bytes → Bytes → Bool
has_prefix s [] = true
has_prefix [] (p ∷ ps) = false
has_prefix (c ∷ s) (p ∷ ps) = c == p && has_prefix s ps

unfoldable pub trim_prefix : Bytes → Bytes → Bytes
trim_prefix s p = if has_prefix s p then drop (length p) s else s

-- strings.TrimSuffix
unfoldable pub trim_suffix : Bytes → Bytes → Bytes
trim_suffix s p =
    let n = length s - length p in
    if ltb (length s) (length p) then s else if equal (drop n s) p then take n s else s
