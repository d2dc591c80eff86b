-- ===== src/Go/Reader/Laws.antt =====
-- Reading back what was written in front of any rest, and what reading takes from a stream.
use tcglog_parser.Common.{
  ℕ, zero, suc, ◌+◌, ◌*◌, ◌/◌, ◌^◌, ◌<◌, ◌≡◌, refl, ap, [], ◌∷◌, ◌++◌, arith, length, length-append,
  length-take, length-drop, take-append, drop-append, take-append-drop, All,
}
use native.Mathlib.Nat.{pow-suc}
use tcglog_parser.Errors.{ok, bind-eq-ok, ok-injective}
use tcglog_parser.Go.Reader.{Bytes, read_full, le, le_bytes, read_uint}

abbrev pub IsByte : ℕ → Type 0
IsByte b = b < 256

pub read_full-append : (b rest : Bytes) → read_full (length b) (b ++ rest) ≡ ok (b, rest)
unfolding read_full
read_full-append [] rest = refl
read_full-append (x ∷ b) rest = ground (
  arith,
  length-append b rest,
  take-append (length (x ∷ b)) (x ∷ b) rest refl,
  drop-append (length (x ∷ b)) (x ∷ b) rest refl,
)

-- The same for a length that is known by an equation.
pub read_full-append_of_eq :
    (n : ℕ) (b rest : Bytes) → length b ≡ n → read_full n (b ++ rest) ≡ ok (b, rest)
read_full-append_of_eq n b rest h = rw (← h) (read_full-append b rest)

-- A successful read splits the stream at `n`.
pub read_full-ok :
    (n : ℕ) (s : Bytes) {b s' : Bytes}
    → read_full n s ≡ ok (b, s')
    → (length b ≡ n) × (s ≡ b ++ s') × (n + length s' ≡ length s)
unfolding read_full
read_full-ok zero s h = ground arith
read_full-ok (suc n) [] h = ground arith
read_full-ok (suc n) (x ∷ s) h = ground (
  arith,
  length-take (suc n) (x ∷ s),
  length-drop (suc n) (x ∷ s),
  take-append-drop (suc n) (x ∷ s),
)

pub length-le_bytes : (n v : ℕ) → length (le_bytes n v) ≡ n
unfolding le_bytes
length-le_bytes zero v = refl
length-le_bytes (suc n) v = ap suc (length-le_bytes n (v / 256))

pub le-le_bytes : (n v : ℕ) → v < 256 ^ n → le (le_bytes n v) ≡ v
unfolding le le_bytes
le-le_bytes zero v h = omega arith
le-le_bytes (suc n) v h =
    let h' : v < 256 ^ n * 256 = rw pow-suc at h in
    omega (arith, le-le_bytes n (v / 256) (omega arith))

pub le_bytes-IsByte : (n v : ℕ) → All IsByte (le_bytes n v)
unfolding le_bytes
le_bytes-IsByte zero v = tt
le_bytes-IsByte (suc n) v = (omega arith, le_bytes-IsByte n (v / 256))

pub read_uint-le_bytes :
    (n v : ℕ) (rest : Bytes) → v < 256 ^ n → read_uint n (le_bytes n v ++ rest) ≡ ok (v, rest)
unfolding read_uint
read_uint-le_bytes n v rest h =
    rw (read_full-append_of_eq n (le_bytes n v) rest (length-le_bytes n v), le-le_bytes n v h)

-- A successful read of an integer takes its bytes.
pub read_uint-ok :
    (n : ℕ) (s : Bytes) {v : ℕ} {s' : Bytes} → read_uint n s ≡ ok (v, s') → n + length s' ≡ length s
unfolding read_uint
read_uint-ok n s h =
    let (p, e, q) = bind-eq-ok (read_full n s) _ h in
    ground (arith, ok-injective q, (read_full-ok n s e).2)
