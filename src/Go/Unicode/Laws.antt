-- ===== src/Go/Unicode/Laws.antt =====
-- Runes that are encoded and decoded again.
use tcglog_parser.Common.{
  ℕ, zero, suc, ◌+◌, ◌/◌, ◌%◌, ◌≤◌, ◌<◌, ◌≡◌, refl, ap, ◌∙◌, inl, inr, false, List, [], ◌∷◌, ◌++◌,
  arith, All, ltb, Bool-cases, length, drop, length-append, drop-append,
}
use tcglog_parser.Go.Reader.{Bytes}
use tcglog_parser.Go.Unicode.{
  is_surrogate, encode_rune, encode_runes, decode_two, decode_three, decode_four, decode_rune,
  runes_loop, runes,
}

-- A rune that UTF-8 has an encoding for.
abbrev pub IsRune : ℕ → Type 0
IsRune r = (r < 0x110000) × (is_surrogate r ≡ false)

-- The encoding of a rune is not empty, and is decoded to the rune, whatever follows it.
record IsDecoded (r : ℕ) : Type 0 where
  first : ℕ
  more : Bytes
  encodes : encode_rune r ≡ first ∷ more
  decodes : (rest : Bytes) → decode_rune first (more ++ rest) ≡ (r, suc (length more))

one-IsDecoded : (r : ℕ) → r < 0x80 → IsDecoded r
unfolding encode_rune decode_rune
one-IsDecoded r h = record {
  first = r;
  more = [];
  encodes = ground arith;
  decodes = λ rest. ground arith;
}

two-IsDecoded : (r : ℕ) → 0x80 ≤ r → r < 0x800 → IsDecoded r
unfolding encode_rune decode_rune decode_two
two-IsDecoded r low high = record {
  first = 0xc0 + r / 64;
  more = (0x80 + r % 64) ∷ [];
  encodes = ground arith;
  decodes = λ rest. ground arith;
}

three-IsDecoded : (r : ℕ) → 0x800 ≤ r → r < 0x10000 → is_surrogate r ≡ false → IsDecoded r
unfolding encode_rune decode_rune decode_three
three-IsDecoded r low high s = record {
  first = 0xe0 + r / 4096;
  more = (0x80 + r / 64 % 64) ∷ (0x80 + r % 64) ∷ [];
  encodes = ground arith;
  decodes = λ rest. ground arith;
}

four-IsDecoded : (r : ℕ) → 0x10000 ≤ r → r < 0x110000 → IsDecoded r
unfolding encode_rune decode_rune decode_four
four-IsDecoded r low high = record {
  first = 0xf0 + r / 262144;
  more = (0x80 + r / 4096 % 64) ∷ (0x80 + r / 64 % 64) ∷ (0x80 + r % 64) ∷ [];
  encodes = ground arith;
  decodes = λ rest. ground arith;
}

rune-IsDecoded : (r : ℕ) → IsRune r → IsDecoded r
rune-IsDecoded r (small, s) = elim (Bool-cases (ltb r 0x80)) [
  | inl one ↦ one-IsDecoded r (ground arith)
  | inr more ↦ elim (Bool-cases (ltb r 0x800)) [
    | inl two ↦ two-IsDecoded r (ground arith) (ground arith)
    | inr more' ↦ elim (Bool-cases (ltb r 0x10000)) [
      | inl three ↦ three-IsDecoded r (ground arith) (ground arith) s
      | inr four ↦ four-IsDecoded r (ground arith) small
    ]
  ]
]

-- One round of the loop over a string that starts with an encoded rune.
runes_loop-encode_rune :
    (fuel r : ℕ) (rest : Bytes)
    → IsRune r
    → runes_loop (suc fuel) (encode_rune r ++ rest) ≡ r ∷ runes_loop fuel rest
unfolding runes_loop
runes_loop-encode_rune fuel r rest h =
    let d = rune-IsDecoded r h in
    ap (λ s. runes_loop (suc fuel) (s ++ rest)) d.encodes
    ∙ ap (λ p. p.0 ∷ runes_loop fuel (drop p.1 (d.first ∷ d.more ++ rest))) (d.decodes rest)
    ∙ ap (λ s. r ∷ runes_loop fuel s) (drop-append (length d.more) d.more rest refl)

length-encode_rune : (r : ℕ) → IsRune r → 0 < length (encode_rune r)
length-encode_rune r h = let d = rune-IsDecoded r h in omega (arith, ap length d.encodes)

runes_loop-encode_runes :
    (fuel : ℕ) (rs : List ℕ)
    → All IsRune rs
    → length (encode_runes rs) ≤ fuel
    → runes_loop fuel (encode_runes rs) ≡ rs
unfolding encode_runes runes_loop
runes_loop-encode_runes fuel [] h enough = refl
runes_loop-encode_runes zero (r ∷ rs) (h, hs) enough =
    absurd (omega (arith, length-append (encode_rune r) (encode_runes rs), length-encode_rune r h))
runes_loop-encode_runes (suc fuel) (r ∷ rs) (h, hs) enough =
    let room : length (encode_runes rs) ≤ fuel =
      omega (arith, length-append (encode_rune r) (encode_runes rs), length-encode_rune r h) in
    runes_loop-encode_rune fuel r (encode_runes rs) h
    ∙ ap (◌∷◌ r) (runes_loop-encode_runes fuel rs hs room)

-- Decoding the runes of an encoded string gives them back.
pub runes-encode_runes : (rs : List ℕ) → All IsRune rs → runes (encode_runes rs) ≡ rs
unfolding runes
runes-encode_runes rs h = runes_loop-encode_runes (length (encode_runes rs)) rs h (omega arith)
