-- ===== src/Go/Reader/Fields.antt =====
-- Fields of a buffer at their offsets, and reads of several fields at once.
use tcglog_parser.Common.{
  ℕ, suc, ◌+◌, ◌^◌, ◌<◌, ◌≡◌, refl, ap, ◌∙◌, List, [], ◌∷◌, ◌++◌, append-nil, append_assoc, arith,
  length, take, drop, length-append, take-append,
}
use tcglog_parser.Errors.{ok}
use tcglog_parser.Go.Reader.{Bytes, read_full, le, le_bytes, le_at}
use tcglog_parser.Go.Reader.Laws.{read_full-append_of_eq, length-le_bytes, le-le_bytes}

pub drop-add {ℓ} :
    {A : Type ℓ} (k i : ℕ) (b rest : List A) → length b ≡ k → drop (k + i) (b ++ rest) ≡ drop i rest
drop-add k i [] rest h = let e : k + i ≡ i = omega arith in rw e
drop-add k i (x ∷ b) rest h =
    let e : k + i ≡ suc (length b + i) = omega arith in rw e (drop-add (length b) i b rest refl)

pub le_at-skip :
    (k i n : ℕ) (b rest : Bytes) → length b ≡ k → le_at (k + i) n (b ++ rest) ≡ le_at i n rest
unfolding le_at
le_at-skip k i n b rest h = ap (λ r. le (take n r)) (drop-add k i b rest h)

pub le_at-le_bytes : (n v : ℕ) (rest : Bytes) → v < 256 ^ n → le_at 0 n (le_bytes n v ++ rest) ≡ v
unfolding le_at
le_at-le_bytes n v rest h =
    rw (take-append n (le_bytes n v) rest (length-le_bytes n v)) (le-le_bytes n v h)

-- A field that ends the buffer.
pub le_at-le_bytes_last : (n v : ℕ) → v < 256 ^ n → le_at 0 n (le_bytes n v) ≡ v
le_at-le_bytes_last n v h = rw append-nil at (le_at-le_bytes n v [] h)

-- Two fields read at once.
pub read_full-append_two :
    (n : ℕ) (a b rest : Bytes)
    → length a + length b ≡ n
    → read_full n (a ++ (b ++ rest)) ≡ ok (a ++ b, rest)
read_full-append_two n a b rest h =
    rw (← append_assoc a b rest) (read_full-append_of_eq n (a ++ b) rest (length-append a b ∙ h))
