-- ===== src/Go/Text/Laws.antt =====
-- bytes.Equal decides equality.
use tcglog_parser.Common.{◌≡◌, refl, sym, ◌≢◌, true, false, [], ◌∷◌, arith}
use tcglog_parser.Go.Reader.{Bytes}
use tcglog_parser.Go.Text.{equal}

pub equal_of_eq : (a b : Bytes) → a ≡ b → equal a b ≡ true
unfolding equal
equal_of_eq [] [] h = refl
equal_of_eq [] (y ∷ b) h = cc
equal_of_eq (x ∷ a) [] h = cc
equal_of_eq (x ∷ a) (y ∷ b) h = ground (arith, equal_of_eq a b)

pub eq_of_equal : (a b : Bytes) → equal a b ≡ true → a ≡ b
unfolding equal
eq_of_equal [] [] h = refl
eq_of_equal [] (y ∷ b) h = cc
eq_of_equal (x ∷ a) [] h = cc
eq_of_equal (x ∷ a) (y ∷ b) h = ground (arith, eq_of_equal a b)

pub ne_of_equal : (a b : Bytes) → equal a b ≡ false → b ≢ a
ne_of_equal a b h = λ e. ground (arith, equal_of_eq a b (sym e))
