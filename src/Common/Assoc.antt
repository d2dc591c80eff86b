-- ===== src/Common/Assoc.antt =====
-- Go maps keyed by integers, as association lists in which each key stands at most once.
use Prim.Native.Nat.{ℕ}
use mathlib.Core.Path.{◌≡◌, refl}
use mathlib.Core.Logic.{◌≢◌}
use mathlib.Core.Bool.{Bool}
use mathlib.Core.Option.{Option, none, some}
use mathlib.Core.List.{List, [], ◌∷◌, ◌++◌}
use native.Mathlib.Omega.{arith}
use tcglog_parser.Common.Tests.{◌==◌, if◌then◌else◌}

abbrev pub Map {ℓ} : Type ℓ → Type ℓ
Map V = List (ℕ × V)

module _ {ℓ} {V : Type ℓ} where
  -- v, ok := m[k]
  unfoldable pub lookup : ℕ → Map V → Option V
  lookup key ((j, here) ∷ more) = if j == key then some here else lookup key more
  lookup key [] = none

  -- m[k] = v
  unfoldable pub insert : ℕ → V → Map V → Map V
  insert key new ((j, old) ∷ more) =
      if j == key then (key, new) ∷ more else (j, old) ∷ insert key new more
  insert key new [] = (key, new) ∷ []

  -- Deleting the entries whose key fails a test while ranging over the map.
  unfoldable pub keep_keys : (ℕ → Bool) → Map V → Map V
  keep_keys p [] = []
  keep_keys p ((j, v) ∷ m) = if p j then (j, v) ∷ keep_keys p m else keep_keys p m

  -- Each key stands once.
  abbrev pub IsMap : Map V → Type ℓ
  IsMap [] = Unit
  IsMap ((j, v) ∷ m) = (lookup j m ≡ none) × IsMap m

  pub lookup-insert :
      (key other : ℕ) (new : V) (map : Map V)
      → lookup other (insert key new map) ≡ (if key == other then some new else lookup other map)
  unfolding lookup insert
  lookup-insert key other new (entry ∷ more) = ground (arith, lookup-insert key other new more)
  lookup-insert key other new [] = refl

  pub lookup-keep_keys :
      (p : ℕ → Bool) (j : ℕ) (m : Map V)
      → lookup j (keep_keys p m) ≡ (if p j then lookup j m else none)
  unfolding lookup keep_keys
  lookup-keep_keys p j [] = ground arith
  lookup-keep_keys p j ((i, w) ∷ m) = ground (arith, lookup-keep_keys p j m)

  pub insert-IsMap : (k : ℕ) (v : V) (m : Map V) → IsMap m → IsMap (insert k v m)
  unfolding lookup insert
  insert-IsMap k v [] h = (refl, tt)
  insert-IsMap k v ((i, w) ∷ m) h = ground (arith, insert-IsMap k v m, lookup-insert k i v m)

  pub keep_keys-IsMap : (p : ℕ → Bool) (m : Map V) → IsMap m → IsMap (keep_keys p m)
  unfolding lookup keep_keys
  keep_keys-IsMap p [] h = tt
  keep_keys-IsMap p ((i, w) ∷ m) h = ground (arith, keep_keys-IsMap p m, lookup-keep_keys p i m)

  pub insert_fresh :
      (k : ℕ) (v : V) (m : Map V) → lookup k m ≡ none → insert k v m ≡ m ++ (k, v) ∷ []
  unfolding lookup insert
  insert_fresh k v [] h = refl
  insert_fresh k v ((j, w) ∷ m) h = ground (arith, insert_fresh k v m)

  -- In a map no key before an entry is that entry's key.
  pub IsMap-append_none :
      (m : Map V) (k : ℕ) (v : V) (n : Map V) → IsMap (m ++ (k, v) ∷ n) → lookup k m ≡ none
  unfolding lookup
  IsMap-append_none [] k v n h = refl
  IsMap-append_none ((j, w) ∷ m) k v n h =
      ground (arith, IsMap-append_none m k v n h.1, lookup-append_key m k v n)
    where
      lookup-append_key :
          (m : Map V) (k : ℕ) (v : V) (n : Map V) → lookup k (m ++ (k, v) ∷ n) ≢ none
      lookup-append_key [] k v n e = ground arith
      lookup-append_key ((i, w) ∷ m) k v n e = ground (arith, lookup-append_key m k v n)
