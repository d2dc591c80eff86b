-- ===== src/Validate/Check/Trailing.antt =====
-- The search for the trailing bytes that a digest leaves out.
use tcglog_parser.Common.{
  List, ℕ, ◌+◌, zero, suc, ◌-◌, ◌≤◌, ◌<◌, ◌≡◌, refl, sym, ap, ◌∙◌, ◌≢◌, inl, inr, Bool, true, false,
  Option, none, some, [], ◌∷◌, arith, ◌==◌, if◌then◌else◌, Bool-cases, length, take, length-take,
}
use tcglog_parser.Errors.{Result, ok, panic, bind-ok}
use tcglog_parser.Go.Reader.{Bytes}
use tcglog_parser.Go.Runtime.{Runtime}
use tcglog_parser.Go.Text.{equal}
use tcglog_parser.Go.Text.Laws.{eq_of_equal, ne_of_equal}
use tcglog_parser.Types.Algorithm
use tcglog_parser.Validate.Check.{is_expected_digest_value, trailing_loop}

-- The measured bytes without the last `k` of them.
abbrev pub without : ℕ → Bytes → Bytes
without k measured = take (length measured - k) measured

take-take {ℓ} : {A : Type ℓ} (n m : ℕ) (xs : List A) → n ≤ m → take n (take m xs) ≡ take n xs
take-take zero m xs h = refl
take-take (suc n) zero xs h = absurd (omega arith)
take-take (suc n) (suc m) [] h = refl
take-take (suc n) (suc m) (x ∷ xs) h = ap (◌∷◌ x) (take-take n m xs (omega arith))

-- Dropping a byte, and then `k` more.
without-take :
    (k : ℕ) (measured : Bytes)
    → 0 < length measured
    → without k (take (length measured - 1) measured) ≡ without (suc k) measured
without-take k measured h =
    ap (λ n. take (n - k) (take (length measured - 1) measured))
      (length-take (length measured - 1) measured (omega arith))
    ∙ take-take (length measured - 1 - k) (length measured - 1) measured (omega arith)
    ∙ ap (λ n. take n measured) (omega arith)

take_all {ℓ} : {A : Type ℓ} (xs : List A) → take (length xs) xs ≡ xs
take_all [] = refl
take_all (x ∷ xs) = ap (◌∷◌ x) (take_all xs)

without-zero : (measured : Bytes) → without 0 measured ≡ measured
without-zero measured = ap (λ n. take n measured) (omega arith) ∙ take_all measured

-- What the search over at most `trailing` trailing bytes answers for a digest: the longest of the
-- candidates whose hash is the digest, and with it how many trailing bytes that candidate keeps; and
-- nothing where no candidate has that hash.
abbrev pub IsLongestFit : (Bytes → Bytes) → Bytes → Bytes → ℕ → Option (Bytes × ℕ) → Type 0
IsLongestFit sum digest measured trailing none =
    (k : ℕ) → k ≤ trailing → sum (without k measured) ≢ digest
IsLongestFit sum digest measured trailing (some (b, n)) =
    (k : ℕ) × (k + n ≡ trailing)
    × (b ≡ without k measured)
    × (sum b ≡ digest)
    × ((j : ℕ) → j < k → sum (without j measured) ≢ digest)

longer-IsLongestFit :
    (sum : Bytes → Bytes) (digest measured : Bytes) (trailing : ℕ) (o : Option (Bytes × ℕ))
    → 0 < length measured
    → sum measured ≢ digest
    → IsLongestFit sum digest (take (length measured - 1) measured) trailing o
    → IsLongestFit sum digest measured (suc trailing) o
longer-IsLongestFit sum digest measured trailing none h miss f = go
  where
    go : (k : ℕ) → k ≤ suc trailing → sum (without k measured) ≢ digest
    go zero le = λ e. miss (ap sum (sym (without-zero measured)) ∙ e)
    go (suc k) le = λ e. f k (omega arith) (ap sum (without-take k measured h) ∙ e)
longer-IsLongestFit sum digest measured trailing (some (b, n)) h miss
      (k, total, same, hit, longer) =
    (suc k, omega arith, same ∙ without-take k measured h, hit, go)
  where
    go : (j : ℕ) → j < suc k → sum (without j measured) ≢ digest
    go zero le = λ e. miss (ap sum (sym (without-zero measured)) ∙ e)
    go (suc j) le = λ e. longer j (omega arith) (ap sum (without-take j measured h) ∙ e)

-- The answers where the whole of the measured bytes decides.
hit-IsLongestFit :
    (sum : Bytes → Bytes) (digest measured : Bytes) (trailing : ℕ)
    → equal digest (sum measured) ≡ true
    → IsLongestFit sum digest measured trailing (some (measured, trailing))
hit-IsLongestFit sum digest measured trailing hit = (
  0,
  omega arith,
  sym (without-zero measured),
  sym (eq_of_equal digest (sum measured) hit),
  λ j lt. absurd (omega arith),
)

miss-IsLongestFit :
    (sum : Bytes → Bytes) (digest measured : Bytes)
    → equal digest (sum measured) ≡ false
    → IsLongestFit sum digest measured 0 none
miss-IsLongestFit sum digest measured miss zero le =
    λ e. ne_of_equal digest (sum measured) miss (ap sum (sym (without-zero measured)) ∙ e)
miss-IsLongestFit sum digest measured miss (suc k) le = absurd (omega arith)

-- One comparison of the search.
is_expected_digest_value-supported :
    (rt : Runtime) (digest : Bytes) (alg : ℕ) (measured : Bytes)
    → Algorithm.supported alg ≡ true
    → is_expected_digest_value rt digest alg measured
      ≡ ok (
        equal digest (rt.sum (Algorithm.get_hash alg) measured),
        rt.sum (Algorithm.get_hash alg) measured,
      )
unfolding is_expected_digest_value
is_expected_digest_value-supported rt digest alg measured s =
    let (h, e, _) = Algorithm.hash-supported rt alg measured s in
    bind-ok _ e ∙ ap (λ x. ok (equal digest x, x)) (Algorithm.hash-ok rt alg measured e)

-- For an algorithm with a hash function and no more trailing than measured bytes, the search never
-- panics, and answers with the longest candidate that has the digest, if there is one.
pub trailing_loop-IsLongestFit :
    (rt : Runtime) (digest : Bytes) (alg : ℕ) (measured : Bytes) (trailing : ℕ)
    → Algorithm.supported alg ≡ true
    → trailing ≤ length measured
    → (o : Option (Bytes × ℕ)) × (trailing_loop rt digest alg measured trailing ≡ ok o)
      × IsLongestFit (rt.sum (Algorithm.get_hash alg)) digest measured trailing o
unfolding trailing_loop
trailing_loop-IsLongestFit rt digest alg measured zero s h =
    let sum = rt.sum (Algorithm.get_hash alg) in
    let answer : Bool → Option (Bytes × ℕ) = λ b. if b then some (measured, 0) else none in
    let step =
      bind-ok (λ p. ok (answer p.0))
        (is_expected_digest_value-supported rt digest alg measured s) in
    elim (Bool-cases (equal digest (sum measured))) [
      | inl hit ↦ (
        some (measured, 0),
        step ∙ ap (λ b. ok (answer b)) hit,
        hit-IsLongestFit sum digest measured 0 hit,
      )
      | inr miss ↦
          (none, step ∙ ap (λ b. ok (answer b)) miss, miss-IsLongestFit sum digest measured miss)
    ]
trailing_loop-IsLongestFit rt digest alg measured (suc trailing) s h =
    let sum = rt.sum (Algorithm.get_hash alg) in
    let shorter = take (length measured - 1) measured in
    let rest =
      trailing_loop-IsLongestFit rt digest alg shorter trailing s
        (omega (arith, length-take (length measured - 1) measured (omega arith))) in
    let nonempty : (length measured == 0) ≡ false = ground arith in
    let next : Result (Option (Bytes × ℕ)) =
      if length measured == 0 then panic else trailing_loop rt digest alg shorter trailing in
    let answer : Bool → Result (Option (Bytes × ℕ)) =
      λ b. if b then ok (some (measured, suc trailing)) else next in
    let step =
      bind-ok (λ p. answer p.0) (is_expected_digest_value-supported rt digest alg measured s) in
    elim (Bool-cases (equal digest (sum measured))) [
      | inl hit ↦ (
        some (measured, suc trailing),
        step ∙ ap answer hit,
        hit-IsLongestFit sum digest measured (suc trailing) hit,
      )
      | inr miss ↦ (
        rest.0,
        step
            ∙ ap answer miss
            ∙ ap (λ b. if b then panic else trailing_loop rt digest alg shorter trailing) nonempty
            ∙ rest.1,
        longer-IsLongestFit sum digest measured trailing rest.0 (omega arith)
            (ne_of_equal digest (sum measured) miss) rest.2,
      )
    ]
