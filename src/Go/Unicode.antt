-- ===== src/Go/Unicode.antt =====
-- unicode/utf16 and unicode/utf8: Decode and Encode of UTF-16 units, DecodeRune, EncodeRune, RuneLen
-- and RuneCount of UTF-8 bytes. A rune is its number; strings are their bytes.
pub mod Laws
use tcglog_parser.Common.{
  ℕ, zero, suc, ◌+◌, ◌-◌, ◌*◌, ◌/◌, ◌%◌, List, [], ◌∷◌, ◌++◌, ltb, leb, ◌==◌, if◌then◌else◌, length,
  drop, Option, none, some, Bool, ◌&&◌, ◌||◌,
}
use tcglog_parser.Go.Reader.{Bytes}

abbrev pub replacement_char : ℕ
replacement_char = 0xfffd

-- lo <= c && c < hi
abbrev pub within : ℕ → ℕ → ℕ → Bool
within lo hi c = leb lo c && ltb c hi

abbrev pub is_surrogate : ℕ → Bool
is_surrogate r = within 0xd800 0xe000 r

-- utf16.Decode
unfoldable pub utf16_decode : List ℕ → List ℕ
utf16_decode [] = []
utf16_decode (u ∷ []) = (if is_surrogate u then replacement_char else u) ∷ []
utf16_decode (u ∷ v ∷ us) =
    let pair = ((u - 0xd800) * 1024 + (v - 0xdc00) + 0x10000) ∷ utf16_decode us in
    let single = (if is_surrogate u then replacement_char else u) ∷ utf16_decode (v ∷ us) in
    if within 0xd800 0xdc00 u && within 0xdc00 0xe000 v then pair else single

-- utf16.Encode of one rune.
unfoldable pub utf16_encode_rune : ℕ → List ℕ
utf16_encode_rune r =
    if ltb r 0xd800 || within 0xe000 0x10000 r
    then r ∷ []
    else if within 0x10000 0x110000 r
    then (0xd800 + (r - 0x10000) / 1024 % 1024) ∷ (0xdc00 + (r - 0x10000) % 1024) ∷ []
    else replacement_char ∷ []

unfoldable pub utf16_encode : List ℕ → List ℕ
utf16_encode [] = []
utf16_encode (r ∷ rs) = utf16_encode_rune r ++ utf16_encode rs

-- utf8.RuneLen; `none` is -1.
unfoldable pub rune_len : ℕ → Option ℕ
rune_len r =
    if ltb r 0x80
    then some 1
    else if ltb r 0x800
    then some 2
    else if is_surrogate r
    then none
    else if ltb r 0x10000
    then some 3
    else if ltb r 0x110000
    then some 4
    else none

abbrev pub encode_three : ℕ → Bytes
encode_three r = (0xe0 + r / 4096) ∷ (0x80 + r / 64 % 64) ∷ (0x80 + r % 64) ∷ []

-- utf8.EncodeRune: what it writes.
unfoldable pub encode_rune : ℕ → Bytes
encode_rune r =
    if ltb r 0x80
    then r ∷ []
    else if ltb r 0x800
    then (0xc0 + r / 64) ∷ (0x80 + r % 64) ∷ []
    else if leb 0x110000 r || is_surrogate r
    then encode_three replacement_char
    else if ltb r 0x10000
    then encode_three r
    else (0xf0 + r / 262144) ∷ (0x80 + r / 4096 % 64) ∷ (0x80 + r / 64 % 64) ∷ (0x80 + r % 64) ∷ []

unfoldable pub encode_runes : List ℕ → Bytes
encode_runes [] = []
encode_runes (r ∷ rs) = encode_rune r ++ encode_runes rs

abbrev pub is_continuation : ℕ → Bool
is_continuation b = within 0x80 0xc0 b

-- The second bytes that may follow a lead byte of three and of four.
abbrev pub second_of_three : ℕ → ℕ → Bool
second_of_three b c = within (if b == 0xe0 then 0xa0 else 0x80) (if b == 0xed then 0xa0 else 0xc0) c

abbrev pub second_of_four : ℕ → ℕ → Bool
second_of_four b c = within (if b == 0xf0 then 0x90 else 0x80) (if b == 0xf4 then 0x90 else 0xc0) c

unfoldable pub invalid : ℕ × ℕ
invalid = (replacement_char, 1)

unfoldable pub decode_two : ℕ → Bytes → ℕ × ℕ
decode_two b (c ∷ _) = if is_continuation c then ((b - 0xc0) * 64 + (c - 0x80), 2) else invalid
decode_two b _ = invalid

unfoldable pub decode_three : ℕ → Bytes → ℕ × ℕ
decode_three b (c ∷ d ∷ _) =
    if second_of_three b c && is_continuation d
    then ((b - 0xe0) * 4096 + (c - 0x80) * 64 + (d - 0x80), 3)
    else invalid
decode_three b _ = invalid

unfoldable pub decode_four : ℕ → Bytes → ℕ × ℕ
decode_four b (c ∷ d ∷ e ∷ _) =
    if second_of_four b c && is_continuation d && is_continuation e
    then ((b - 0xf0) * 262144 + (c - 0x80) * 4096 + (d - 0x80) * 64 + (e - 0x80), 4)
    else invalid
decode_four b _ = invalid

-- utf8.DecodeRune of a string that is not empty: the rune and its width.
unfoldable pub decode_rune : ℕ → Bytes → ℕ × ℕ
decode_rune b bs =
    if ltb b 0x80
    then (b, 1)
    else if within 0xc2 0xe0 b
    then decode_two b bs
    else if within 0xe0 0xf0 b
    then decode_three b bs
    else if within 0xf0 0xf5 b
    then decode_four b bs
    else (replacement_char, 1)

-- The runes of a string, one utf8.DecodeRuneInString after the other. Each takes a byte at least, so
-- as many rounds as the string has bytes are enough.
unfoldable pub runes_loop : ℕ → Bytes → List ℕ
runes_loop fuel [] = []
runes_loop zero (b ∷ bs) = []
runes_loop (suc fuel) (b ∷ bs) =
    let (r, n) = decode_rune b bs in r ∷ runes_loop fuel (drop n (b ∷ bs))

unfoldable pub runes : Bytes → List ℕ
runes s = runes_loop (length s) s

-- utf8.RuneCount
unfoldable pub rune_count : Bytes → ℕ
rune_count s = length (runes s)
