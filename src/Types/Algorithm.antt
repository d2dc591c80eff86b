-- ===== src/Types/Algorithm.antt =====
-- types.go and utils.go: digest algorithms, their hash functions and their names.
use tcglog_parser.Common.{
  ℕ, ◌==◌, if◌then◌else◌, List, [], ◌∷◌, Bool, true, false, ◌≡◌, refl, length, Option, none, some,
}
use tcglog_parser.Errors.{Result, ok, panic}
use tcglog_parser.Go.Format.{FmtState, fprintf_unused}
use tcglog_parser.Utils.{make_default_formatter}
use tcglog_parser.Go.Reader.{Bytes}
use tcglog_parser.Go.Runtime.{Runtime, Hash, no_hash, hash_size, hash_sum}
use tcglog_parser.Go.Text.{codes, hex_padded, equal}

-- TPM_ALG_ID values
abbrev pub sha1 : ℕ
sha1 = 0x0004

abbrev pub sha256 : ℕ
sha256 = 0x000b

abbrev pub sha384 : ℕ
sha384 = 0x000c

abbrev pub sha512 : ℕ
sha512 = 0x000d

unfoldable pub get_hash : ℕ → Hash
get_hash a =
    if a == sha1
    then Hash.sha1
    else if a == sha256
    then Hash.sha256
    else if a == sha384
    then Hash.sha384
    else if a == sha512
    then Hash.sha512
    else no_hash

abbrev is_hash : Hash → Bool
is_hash no_hash = false
is_hash Hash.sha1 = true
is_hash Hash.sha256 = true
is_hash Hash.sha384 = true
is_hash Hash.sha512 = true

unfoldable pub supported : ℕ → Bool
supported a = is_hash (get_hash a)

unfoldable pub size : ℕ → Result ℕ
size a = hash_size (get_hash a)

-- newHash, Write and Sum in one call.
unfoldable pub hash : Runtime → ℕ → Bytes → Result Bytes
hash rt a d = hash_sum rt (get_hash a) d

unfoldable pub to_string : ℕ → Bytes
to_string a =
    if a == sha1
    then codes "SHA-1"
    else if a == sha256
    then codes "SHA-256"
    else if a == sha384
    then codes "SHA-384"
    else if a == sha512
    then codes "SHA-512"
    else hex_padded 4 a

-- AlgorithmId.Format: what it writes; `none` where Fprintf would use its operand.
unfoldable pub format : FmtState → ℕ → ℕ → Option Bytes
format s f a =
    if f == b's'
    then some (to_string a)
    else fprintf_unused (make_default_formatter s f) (codes "uint16") a

-- AlgorithmIdList.Contains
unfoldable pub contains : List ℕ → ℕ → Bool
contains [] a = false
contains (alg ∷ l) a = if alg == a then true else contains l a

-- ParseAlgorithm; `none` is the error "Unrecognized algorithm".
unfoldable pub parse_algorithm : Bytes → Option ℕ
parse_algorithm s =
    if equal s (codes "sha1")
    then some sha1
    else if equal s (codes "sha256")
    then some sha256
    else if equal s (codes "sha384")
    then some sha384
    else if equal s (codes "sha512")
    then some sha512
    else none

-- The digest size, where there is a hash function, and 0 elsewhere.
abbrev pub size_or_zero : ℕ → ℕ
size_or_zero a = elim (size a) [ ok n ↦ n | _ ↦ 0 ]

-- For a supported algorithm neither `hash` nor `size` panics, and the hash has the size.
pub hash-supported :
    (rt : Runtime) (a : ℕ) (d : Bytes)
    → supported a ≡ true
    → (h : Bytes) × (hash rt a d ≡ ok h) × (size a ≡ ok (length h))
unfolding supported size hash hash_sum hash_size
hash-supported rt a d s = go (get_hash a) s
  where
    go :
        (f : Hash)
        → is_hash f ≡ true
        → (h : Bytes) × (hash_sum rt f d ≡ ok h) × (hash_size f ≡ ok (length h))
    go no_hash e = cc
    go Hash.sha1 e = (rt.sum Hash.sha1 d, refl, cc (rt.length-sum Hash.sha1 d refl))
    go Hash.sha256 e = (rt.sum Hash.sha256 d, refl, cc (rt.length-sum Hash.sha256 d refl))
    go Hash.sha384 e = (rt.sum Hash.sha384 d, refl, cc (rt.length-sum Hash.sha384 d refl))
    go Hash.sha512 e = (rt.sum Hash.sha512 d, refl, cc (rt.length-sum Hash.sha512 d refl))

pub hash_unsupported :
    (rt : Runtime) (a : ℕ) (d : Bytes)
    → supported a ≡ false
    → (hash rt a d ≡ panic) × (size a ≡ panic)
unfolding supported size hash hash_sum hash_size
hash_unsupported rt a d s = go (get_hash a) s
  where
    go : (f : Hash) → is_hash f ≡ false → (hash_sum rt f d ≡ panic) × (hash_size f ≡ panic)
    go no_hash e = (refl, refl)
    go Hash.sha1 e = cc
    go Hash.sha256 e = cc
    go Hash.sha384 e = cc
    go Hash.sha512 e = cc

-- The digest that a call of `hash` returns.
pub hash-ok :
    (rt : Runtime) (a : ℕ) (d : Bytes) {h : Bytes} → hash rt a d ≡ ok h → h ≡ rt.sum (get_hash a) d
unfolding hash
hash-ok rt a d e = go (get_hash a) e
  where
    go : (f : Hash) {h : Bytes} → hash_sum rt f d ≡ ok h → h ≡ rt.sum f d
    go no_hash e = unfold hash_sum in cc
    go Hash.sha1 e = unfold hash_sum in cc
    go Hash.sha256 e = unfold hash_sum in cc
    go Hash.sha384 e = unfold hash_sum in cc
    go Hash.sha512 e = unfold hash_sum in cc
