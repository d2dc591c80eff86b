-- ===== src/Utils/Numbers.antt =====
-- PCRArgList: which texts it takes, and what it reads from them.
use native.Mathlib.Nat.{pow-suc}
use tcglog_parser.Common.{
  ℕ, zero, suc, ◌+◌, ◌-◌, ◌*◌, ◌^◌, ◌≤◌, ◌<◌, ◌≡◌, ◌≢◌, refl, sym, ap, ◌∙◌, ◌↔◌, ◌⊎◌, inl, inr,
  Bool, true, false, List, [], ◌∷◌, ◌++◌, arith, All, ltb, if◌then◌else◌, length,
}
use tcglog_parser.Go.Reader.{Bytes}
use tcglog_parser.Go.Format.{
  ParsedUint, parsed, syntax_error, range_error, is_digit, parse_digits, parse_uint,
}
use tcglog_parser.Utils.{pcr_arg_list_set}

-- The number that decimal digits stand for.
abbrev pub numeral : Bytes → ℕ
numeral [] = 0
numeral (c ∷ s) = (c - b'0') * 10 ^ length s + numeral s

abbrev pub AreDigits : Bytes → Type 0
AreDigits s = All (λ c. is_digit c ≡ true) s

le-mul-pow : (n k : ℕ) → n ≤ n * 10 ^ k
le-mul-pow n zero = omega arith
le-mul-pow n (suc k) = rw pow-suc (omega (arith, le-mul-pow n k))

-- One digit more.
step : (n d k rest : ℕ) → (n * 10 + d) * 10 ^ k + rest ≡ n * 10 ^ suc k + (d * 10 ^ k + rest)
step n d k rest = rw pow-suc (omega arith)

-- What parse_digits reads from the rest of a text behind the number `n`.
record IsNumber (limit n : ℕ) (s : Bytes) (m : ℕ) : Type 0 where
  digits : AreDigits s
  value : n * 10 ^ length s + numeral s ≡ m
  fits : m < limit

parse_digits-IsNumber :
    (limit n : ℕ) (s : Bytes) {m : ℕ}
    → n < limit
    → parse_digits limit n s ≡ parsed m
    → IsNumber limit n s m
unfolding parse_digits
parse_digits-IsNumber limit n [] small h = record {
  digits = tt;
  value = ground arith;
  fits = ground arith;
}
parse_digits-IsNumber limit n (c ∷ s) {m} small h =
    go (is_digit c) (ltb next limit) refl refl h
      (λ small' h'. parse_digits-IsNumber limit next s small' h')
  where
    next : ℕ
    next = n * 10 + (c - b'0')

    go :
        (digit fit : Bool)
        → is_digit c ≡ digit
        → ltb next limit ≡ fit
        → (if digit then if fit then parse_digits limit next s else range_error else syntax_error)
          ≡ parsed m
        → (next < limit → parse_digits limit next s ≡ parsed m → IsNumber limit next s m)
        → IsNumber limit n (c ∷ s) m
    go true true e f h rest =
        let r = rest (ground arith) h in
        record {
          digits = (e, r.digits);
          value = sym (step n (c - b'0') (length s) (numeral s)) ∙ r.value;
          fits = r.fits;
        }
    go true false e f h rest = cc h
    go false fit e f h rest = cc h

parse_digits-parsed :
    (limit n : ℕ) (s : Bytes) {m : ℕ} → IsNumber limit n s m → parse_digits limit n s ≡ parsed m
unfolding parse_digits
parse_digits-parsed limit n [] v = ap parsed (omega (arith, v.value))
parse_digits-parsed limit n (c ∷ s) v =
    let next = n * 10 + (c - b'0') in
    let same = step n (c - b'0') (length s) (numeral s) in
    let fit : ltb next limit ≡ true =
      ground (arith, same, v.value, v.fits, le-mul-pow next (length s)) in
    ap
      (λ b.
        if b
        then if ltb next limit then parse_digits limit next s else range_error
        else syntax_error)
      v.digits.0
    ∙ ap (λ b. if b then parse_digits limit next s else range_error) fit
    ∙ parse_digits-parsed limit next s
        (record { digits = v.digits.1; value = same ∙ v.value; fits = v.fits })

-- PCRArgList.Set appends the number that a text stands for exactly where the text is not empty, is
-- made of decimal digits only, and stands for a number below 2^32; it appends nothing else.
pub pcr_arg_list_set_iff :
    (l : List ℕ) (value : Bytes) (l' : List ℕ)
    → (pcr_arg_list_set l value ≡ inr l')
      ↔ ((value ≢ []) × AreDigits value × (numeral value < 2 ^ 32) × (l' ≡ l ++ numeral value ∷ []))
unfolding pcr_arg_list_set
pcr_arg_list_set_iff l value l' = (λ h. to value h, λ h. from value h)
  where
    appended : ParsedUint → ParsedUint ⊎ List ℕ
    appended p = elim p [ parsed n ↦ inr (l ++ (n ∷ [])) | e ↦ inl e ]

    answer : (p : ParsedUint) → appended p ≡ inr l' → (n : ℕ) × (p ≡ parsed n) × (l' ≡ l ++ n ∷ [])
    answer (parsed n) h = (n, refl, cc h)
    answer syntax_error h = cc h
    answer range_error h = cc h

    to :
        (value : Bytes)
        → appended (parse_uint value 32) ≡ inr l'
        → (value ≢ []) × AreDigits value × (numeral value < 2 ^ 32) × (l' ≡ l ++ numeral value ∷ [])
    to [] h = unfold parse_uint in cc h
    to (c ∷ s) h =
        let (n, reads, same) = answer (parse_uint (c ∷ s) 32) h in
        let v =
          parse_digits-IsNumber (2 ^ 32) 0 (c ∷ s) {m = n} (omega arith)
            (unfold parse_uint in reads) in
        let number : numeral (c ∷ s) ≡ n = omega (arith, v.value) in
        (
          λ e. cc e,
          v.digits,
          omega (arith, number, v.fits),
          same ∙ ap (λ x. l ++ x ∷ []) (sym number),
        )

    from :
        (value : Bytes)
        → (value ≢ []) × AreDigits value × (numeral value < 2 ^ 32) × (l' ≡ l ++ numeral value ∷ [])
        → appended (parse_uint value 32) ≡ inr l'
    from [] (some_digit, _, _, _) = absurd (some_digit refl)
    from (c ∷ s) (_, digits, fits, same) =
        let read : parse_digits (2 ^ 32) 0 (c ∷ s) ≡ parsed (numeral (c ∷ s)) =
          parse_digits-parsed (2 ^ 32) 0 (c ∷ s)
            (record { digits = digits; value = omega arith; fits = fits }) in
        let whole : parse_uint (c ∷ s) 32 ≡ parsed (numeral (c ∷ s)) = unfold parse_uint in read in
        ap appended whole ∙ ap inr (sym same)
