-- ===== src/Validate/Check/Fits.antt =====
-- A verdict that a digest fits some bytes: they have that digest.
use tcglog_parser.Common.{
  ℕ, zero, suc, ◌-◌, ◌≡◌, refl, sym, ◌∙◌, Bool, true, false, Option, none, some, ◌==◌,
  if◌then◌else◌, ◌&&◌, length, take,
}
use tcglog_parser.Errors.{
  ok, ◌>>=◌, Yields, Yields-ok, Yields-panic, Yields-bind, Yields-if, Yields-if_eq,
}
use tcglog_parser.Go.Reader.{Bytes}
use tcglog_parser.Go.Runtime.{Runtime}
use tcglog_parser.Types.Algorithm
use tcglog_parser.Types.EventType
use tcglog_parser.Log.Format.{Event}
use tcglog_parser.Validate.Check.{
  Behaviour, var_data_only, is_unknown, is_var_data_only, determine_measured_bytes,
  is_expected_digest_value, trailing_loop, Verdict, not_determined, fits, wrong, try_behaviour,
  behaviour_loop,
}
use tcglog_parser.Go.Text.Laws.{eq_of_equal}

module _ (rt : Runtime) (alg : ℕ) (digest : Bytes) where
  abbrev pub IsHashOf : Bytes → Type 0
  IsHashOf b = rt.sum (Algorithm.get_hash alg) b ≡ digest

  pub is_expected_digest_value-IsHashOf :
      (measured : Bytes)
      → Yields
          (λ p. p.0 ≡ true → IsHashOf measured)
          (is_expected_digest_value rt digest alg measured)
  unfolding is_expected_digest_value
  is_expected_digest_value-IsHashOf measured = Yields-bind (Algorithm.hash rt alg measured) λ h e.
      Yields-ok (λ good. sym (eq_of_equal digest h good ∙ Algorithm.hash-ok rt alg measured e))

  abbrev FoundIsHashOf : Option (Bytes × ℕ) → Type 0
  FoundIsHashOf none = Unit
  FoundIsHashOf (some (b, n)) = IsHashOf b

  trailing_loop-IsHashOf :
      (measured : Bytes) (trailing : ℕ)
      → Yields FoundIsHashOf (trailing_loop rt digest alg measured trailing)
  unfolding trailing_loop
  trailing_loop-IsHashOf measured zero =
      Yields-bind (is_expected_digest_value rt digest alg measured) λ (good, h) e.
        Yields-ok (found good ((is_expected_digest_value-IsHashOf measured).holds _ e))
    where
      found :
          (good : Bool)
          → (good ≡ true → IsHashOf measured)
          → FoundIsHashOf (if good then some (measured, 0) else none)
      found true h = h refl
      found false h = tt
  trailing_loop-IsHashOf measured (suc trailing) =
      Yields-bind (is_expected_digest_value rt digest alg measured) λ (good, h) e.
        Yields-if_eq good
          (λ t. Yields-ok ((is_expected_digest_value-IsHashOf measured).holds _ e t))
          (λ f.
            Yields-if (length measured == 0) Yields-panic
              (trailing_loop-IsHashOf (take (length measured - 1) measured) trailing))

  abbrev pub VerdictIsHashOf : Verdict → Type 0
  VerdictIsHashOf (fits behaviour b n) = IsHashOf b
  VerdictIsHashOf _ = Unit

  try_behaviour-IsHashOf :
      (e : Event) (trailing : ℕ) (behaviour : Behaviour)
      → Yields VerdictIsHashOf (try_behaviour rt e alg digest trailing behaviour)
  unfolding try_behaviour
  try_behaviour-IsHashOf e trailing behaviour =
      tried (determine_measured_bytes e.event_type e.content (is_var_data_only behaviour)).0 _
    where
      -- The verdict on what the search found.
      judged :
          (o : Option (Bytes × ℕ))
          → FoundIsHashOf o
          → VerdictIsHashOf (elim o [ some (b, n) ↦ fits behaviour b n | none ↦ wrong ])
      judged none h = tt
      judged (some (b, n)) h = h

      tried :
          (o : Option Bytes) (n : ℕ)
          → Yields VerdictIsHashOf (elim o [
            | none ↦ ok not_determined
            | some measured ↦ trailing_loop rt digest alg measured n >>= λ found.
                ok (elim found [ some (b, k) ↦ fits behaviour b k | none ↦ wrong ])
          ])
      tried none n = Yields-ok tt
      tried (some measured) n =
          Yields-bind (trailing_loop rt digest alg measured n)
            λ found e. Yields-ok (judged found ((trailing_loop-IsHashOf measured n).holds _ e))

  pub behaviour_loop-IsHashOf :
      (e : Event) (trailing : ℕ) (behaviour : Behaviour)
      → Yields VerdictIsHashOf (behaviour_loop rt e alg digest trailing behaviour)
  unfolding behaviour_loop
  behaviour_loop-IsHashOf e trailing behaviour =
      Yields-bind (try_behaviour rt e alg digest trailing behaviour)
        λ verdict h. again verdict ((try_behaviour-IsHashOf e trailing behaviour).holds _ h)
    where
      again :
          (v : Verdict)
          → VerdictIsHashOf v
          → Yields VerdictIsHashOf (elim v [
            | wrong ↦
                if e.event_type == EventType.efi_variable_boot && is_unknown behaviour
                then try_behaviour rt e alg digest trailing var_data_only
                else ok wrong
            | other ↦ ok other
          ])
      again not_determined h = Yields-ok tt
      again (fits b m n) h = Yields-ok h
      again wrong h =
          Yields-if (e.event_type == EventType.efi_variable_boot && is_unknown behaviour)
            (try_behaviour-IsHashOf e trailing var_data_only) (Yields-ok tt)
