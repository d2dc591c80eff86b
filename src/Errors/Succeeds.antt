-- ===== src/Errors/Succeeds.antt =====
-- Calls that return a value: neither an error nor a panic. The rules follow a `do` block.
use tcglog_parser.Common.{◌≡◌, refl, ◌∙◌, Bool, true, false, if◌then◌else◌}
use tcglog_parser.Errors.{Result, ok, ◌>>=◌, bind-ok}

abbrev pub Succeeds {ℓ} : {A : Type ℓ} → Result A → Type ℓ
Succeeds {A} r = (a : A) × (r ≡ ok a)

pub Succeeds-ok {ℓ} : {A : Type ℓ} (a : A) → Succeeds (ok a)
Succeeds-ok a = (a, refl)

pub Succeeds-bind {ℓ κ} :
    {A : Type ℓ} {B : Type κ} (m : Result A) {f : A → Result B}
    → Succeeds m
    → ((a : A) → m ≡ ok a → Succeeds (f a))
    → Succeeds (m >>= f)
Succeeds-bind m {f} (a, e) h = let (b, e') = h a e in (b, bind-ok f e ∙ e')

pub Succeeds-if {ℓ} :
    {A : Type ℓ} (b : Bool) {x y : Result A}
    → Succeeds x
    → Succeeds y
    → Succeeds (if b then x else y)
Succeeds-if true p q = p
Succeeds-if false p q = q
