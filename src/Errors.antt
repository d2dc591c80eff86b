-- ===== src/Errors.antt =====
-- The error values of log.go, tcgeventdata.go and efi.go, and the outcome of a call: Go's
-- (value, error) pair, where `panic` stands for a run-time panic, which no caller recovers from.
pub mod Succeeds
use mathlib.Core.Path.{subst}
use tcglog_parser.Common.{ℕ, ◌≡◌, refl, ◌⊎◌, inl, inr, Bool, true, false, if◌then◌else◌}

mutual
  pub data Error : Type 0 where
    -- io.EOF and io.ErrUnexpectedEOF
    eof unexpected_eof : Error
    -- "error when reading from log stream (%v)"
    log_read : Error → Error
    pcr_index_out_of_range : ℕ → Error
    unrecognized_algorithm : ℕ → Error
    duplicate_digest : ℕ → Error
    missing_digest : ℕ → Error
    -- "cannot read next event: log status inconsistent due to a previous error"
    previous_error : Error
    invalid_spec_id_event : SpecIdReason → Error
    invalid_firmware_sub_type : ℕ → Error
    device_path_node_length : ℕ → Error

  -- The text that an invalidSpecIdEventError holds.
  pub data SpecIdReason : Type 0 where
    not_enough_data : SpecIdReason
    read_failed : Error → SpecIdReason
    no_algorithms : SpecIdReason
    digest_size_mismatch : ℕ → ℕ → ℕ → SpecIdReason

pub data Result {ℓ} (A : Type ℓ) : Type ℓ where
  ok : A → Result A
  err : Error → Result A
  panic : Result A

infixl 5 ◌>>=◌
abbrev pub ◌>>=◌ {ℓ κ} : {A : Type ℓ} {B : Type κ} → Result A → (A → Result B) → Result B
panic >>= next = panic
err e >>= next = err e
ok x >>= next = next x

-- A bind whose first part is known.
pub bind-ok {ℓ κ} :
    {A : Type ℓ} {B : Type κ} {m : Result A} {a : A} (f : A → Result B) → m ≡ ok a → (m >>= f) ≡ f a
bind-ok f h = rw h

pub bind-err {ℓ κ} :
    {A : Type ℓ} {B : Type κ} {m : Result A} {e : Error} (f : A → Result B)
    → m ≡ err e
    → (m >>= f) ≡ err e
bind-err f h = rw h

-- Inversion of a bind that succeeds.
pub bind-eq-ok {ℓ κ} :
    {A : Type ℓ} {B : Type κ} (first : Result A) (next : A → Result B) {y : B}
    → (first >>= next) ≡ ok y
    → (x : A) × (first ≡ ok x) × (next x ≡ ok y)
bind-eq-ok panic next h = cc
bind-eq-ok (ok x) next h = (x, refl, h)
bind-eq-ok (err e) next h = cc

pub Result-cases {ℓ} :
    {A : Type ℓ} (r : Result A) → ((a : A) × (r ≡ ok a)) ⊎ ((e : Error) × (r ≡ err e)) ⊎ (r ≡ panic)
Result-cases (ok a) = inl (a, refl)
Result-cases (err e) = inr (inl (e, refl))
Result-cases panic = inr (inr refl)

pub ok-injective {ℓ} : {A : Type ℓ} {a b : A} → ok a ≡ ok b → a ≡ b
ok-injective h = cc

-- Every value that `r` returns satisfies `P`. The rules follow a `do` block.
pub record Yields {ℓ κ} {A : Type ℓ} (P : A → Type κ) (r : Result A) : Type (ℓ ⊔ κ) where
  pub holds : (a : A) → r ≡ ok a → P a

module _ {ℓ κ} {A : Type ℓ} {P : A → Type κ} where
  pub Yields-ok : {a : A} → P a → Yields P (ok a)
  Yields-ok p = record { holds = λ b h. subst P (ok-injective h) p }

  pub Yields-err : {e : Error} → Yields P (err e)
  Yields-err = record { holds = λ b h. cc }

  pub Yields-panic : Yields P panic
  Yields-panic = record { holds = λ b h. cc }

  pub Yields-bind {ι} :
      {B : Type ι} (m : Result B) {f : B → Result A}
      → ((b : B) → m ≡ ok b → Yields P (f b))
      → Yields P (m >>= f)
  Yields-bind (ok b) h = h b refl
  Yields-bind (err e) h = Yields-err
  Yields-bind panic h = Yields-panic

  pub Yields-if :
      (b : Bool) {x y : Result A} → Yields P x → Yields P y → Yields P (if b then x else y)
  Yields-if true p q = p
  Yields-if false p q = q

  -- The same, where the proof of a branch knows the test's outcome.
  pub Yields-if_eq :
      (b : Bool) {x y : Result A}
      → (b ≡ true → Yields P x)
      → (b ≡ false → Yields P y)
      → Yields P (if b then x else y)
  Yields-if_eq true p q = p refl
  Yields-if_eq false p q = q refl

  -- A weaker predicate.
  pub Yields-map {ι} :
      {Q : A → Type ι} {r : Result A} → ((a : A) → Q a → P a) → Yields Q r → Yields P r
  Yields-map f y = record { holds = λ a h. f a (y.holds a h) }
