-- ===== src/Go/Runtime.antt =====
-- What the program takes from outside its repository: the hash functions of package crypto, the
-- size limit of one allocation, and the order in which Go ranges over a map.
use tcglog_parser.Common.{
  ℕ, ◌*◌, ◌≤◌, ◌≡◌, refl, ltb, if◌then◌else◌, length, Map, lookup, IsMap, ◌∷◌, ◌++◌, take,
  replicate, length-take, length-append, length-replicate, arith, ◌%◌, ◌^◌,
}
use tcglog_parser.Errors.{Result, ok, panic}
use tcglog_parser.Go.Reader.{Bytes}

-- crypto.Hash: the zero value and the functions that the program links in.
pub data Hash : Type 0 where
  no_hash sha1 sha256 sha384 sha512 : Hash

-- crypto.Hash.Size, which panics on the zero value.
unfoldable pub hash_size : Hash → Result ℕ
hash_size no_hash = panic
hash_size sha1 = ok 20
hash_size sha256 = ok 32
hash_size sha384 = ok 48
hash_size sha512 = ok 64

pub record Runtime : Type 0 where
  -- h := f.New(); h.Write(data); h.Sum(nil)
  pub sum : Hash → Bytes → Bytes
  pub length-sum : (h : Hash) (d : Bytes) {n : ℕ} → hash_size h ≡ ok n → length (sum h d) ≡ n
  -- The size in bytes from which on `make` panics.
  pub max_alloc : ℕ
  -- The entries of a map in the order of the `n`-th `range` over a map in a run: each key once, with
  -- its value. The order is the runtime's choice, each time anew.
  pub range : ℕ → Map Bytes → Map Bytes
  pub range-IsMap : (n : ℕ) (m : Map Bytes) → IsMap m → IsMap (range n m)
  pub lookup-range : (n k : ℕ) (m : Map Bytes) → IsMap m → lookup k (range n m) ≡ lookup k m

-- make([]T, n) for a T of `size` bytes: the run-time check of the length.
unfoldable pub make : Runtime → ℕ → ℕ → Result (Unit {0})
make rt size n = if ltb rt.max_alloc (size * n) then panic else ok tt

pub make_ok : (rt : Runtime) (size n : ℕ) → size * n ≤ rt.max_alloc → make rt size n ≡ ok tt
unfolding make
make_ok rt size n h = ground arith

-- crypto.Hash.New, Write and Sum: New panics where no function is registered.
unfoldable pub hash_sum : Runtime → Hash → Bytes → Result Bytes
hash_sum rt no_hash d = panic
hash_sum rt sha1 d = ok (rt.sum sha1 d)
hash_sum rt sha256 d = ok (rt.sum sha256 d)
hash_sum rt sha384 d = ok (rt.sum sha384 d)
hash_sum rt sha512 d = ok (rt.sum sha512 d)

abbrev toy_size : Hash → ℕ
toy_size no_hash = 0
toy_size sha1 = 20
toy_size sha256 = 32
toy_size sha384 = 48
toy_size sha512 = 64

-- A runtime for concrete runs: the hash of some bytes is their number and the bytes themselves,
-- filled up or cut to the size; maps are ranged over as they are stored.
abbrev toy_sum : Hash → Bytes → Bytes
toy_sum h d = take (toy_size h) ((length d % 256 ∷ d) ++ replicate (toy_size h) 0)

length-toy_size : (h : Hash) (d : Bytes) → length (toy_sum h d) ≡ toy_size h
length-toy_size h d = length-take (toy_size h) ((length d % 256 ∷ d) ++ replicate (toy_size h) 0) (
    omega (
      arith,
      length-append {0} (length d % 256 ∷ d) (replicate (toy_size h) 0),
      length-replicate {0} {A = ℕ} (toy_size h) 0,
    ))

pub length-toy_sum : (h : Hash) (d : Bytes) {n : ℕ} → hash_size h ≡ ok n → length (toy_sum h d) ≡ n
unfolding hash_size
length-toy_sum no_hash d e = cc
length-toy_sum sha1 d e = ground (arith, length-toy_size sha1 d)
length-toy_sum sha256 d e = ground (arith, length-toy_size sha256 d)
length-toy_sum sha384 d e = ground (arith, length-toy_size sha384 d)
length-toy_sum sha512 d e = ground (arith, length-toy_size sha512 d)

abbrev pub toy_runtime : Runtime
toy_runtime = record {
  sum = toy_sum;
  length-sum = length-toy_sum;
  max_alloc = 2 ^ 48;
  range = λ n m. m;
  range-IsMap = λ n m h. h;
  lookup-range = λ n k m h. refl;
}
