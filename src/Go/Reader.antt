-- ===== src/Go/Reader.antt =====
-- Go's readers over a byte sequence (bytes.Reader, io.SectionReader), as the bytes that are left:
-- io.ReadFull, Seek forward, and the fixed-size integers of encoding/binary.
pub mod Laws
pub mod Fields
use tcglog_parser.Common.{
  ℕ, zero, suc, ◌+◌, ◌*◌, ◌/◌, ◌%◌, List, [], ◌∷◌, ltb, ◌==◌, if◌then◌else◌, length, take, drop,
  reverse,
}
use tcglog_parser.Errors.{Result, ok, err, eof, unexpected_eof, ◌>>=◌}

abbrev pub Bytes : Type 0
Bytes = List ℕ

-- Reads `n` bytes: io.EOF where none is left, io.ErrUnexpectedEOF where fewer than `n` are.
unfoldable pub read_full : ℕ → Bytes → Result (Bytes × Bytes)
read_full n s =
    if n == 0
    then ok ([], s)
    else if length s == 0
    then err eof
    else if ltb (length s) n
    then err unexpected_eof
    else ok (take n s, drop n s)

-- The value of little-endian and of big-endian bytes.
unfoldable pub le : Bytes → ℕ
le [] = 0
le (b ∷ bs) = b + 256 * le bs

unfoldable pub be : Bytes → ℕ
be bs = le (reverse bs)

-- The `n` lowest bytes of `v`, lowest first, and highest first.
unfoldable pub le_bytes : ℕ → ℕ → Bytes
le_bytes zero v = []
le_bytes (suc n) v = v % 256 ∷ le_bytes n (v / 256)

unfoldable pub be_bytes : ℕ → ℕ → Bytes
be_bytes n v = reverse (le_bytes n v)

-- The little-endian integer of `n` bytes at offset `i` of a buffer.
unfoldable pub le_at : ℕ → ℕ → Bytes → ℕ
le_at i n b = le (take n (drop i b))

-- binary.Read of one unsigned integer of `n` bytes.
unfoldable pub read_uint : ℕ → Bytes → Result (ℕ × Bytes)
read_uint n s = do (b, s') ← read_full n s; ok (le b, s')

-- `n` little-endian 16-bit units from the front of a buffer.
unfoldable pub units : ℕ → Bytes → List ℕ
units zero b = []
units (suc n) b = le_at 0 2 b ∷ units n (drop 2 b)
