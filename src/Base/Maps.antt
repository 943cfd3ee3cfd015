-- ===== src/Base/Maps.antt =====
-- A Go map with text keys, as an association list with at most one entry for each key.
use Prim.Native.Nat.{max}
use Prim.Native.String.{String}
use mathlib.Core.Path.{◌≡◌, refl}
use mathlib.Core.Logic.{◌↔◌}
use mathlib.Core.Bool.{Bool, true, false}
use mathlib.Core.List.{List, [], ◌∷◌}
use mathlib.Core.Option.{Option, none, some}
use native.Mathlib.Omega.{arith}
use text.Mathlib.TextEquality.{eq_iff}
use covonaut.Base.Tests.{if◌then◌else◌, ◌==◌}
use covonaut.Base.Lists.{count, Has, remove}

abbrev pub Map {ℓ} : Type ℓ → Type ℓ
Map V = List (String × V)

module _ {ℓ} {V : Type ℓ} where
  abbrev pub keys : Map V → List String
  keys [] = []
  keys ((k, v) ∷ m) = k ∷ keys m

  unfoldable pub lookup : String → Map V → Option V
  lookup key [] = none
  lookup key ((k, value) ∷ others) = if k == key then some value else lookup key others

  -- `delete(m, key)`
  unfoldable pub delete : String → Map V → Map V
  delete key [] = []
  delete key ((k, value) ∷ others) =
      let rest = delete key others in if k == key then rest else (k, value) ∷ rest

  -- `m[key] = new`
  unfoldable pub insert : String → V → Map V → Map V
  insert key new [] = (key, new) ∷ []
  insert key new ((k, value) ∷ others) =
      if k == key then (key, new) ∷ others else (k, value) ∷ insert key new others

  -- `m[k]` with the zero value `d`
  abbrev pub get_or : String → V → Map V → V
  get_or k d m = elim (lookup k m) [ none ↦ d | some v ↦ v ]

  -- `_, ok := m[k]`
  abbrev pub member : String → Map V → Bool
  member k m = elim (lookup k m) [ none ↦ false | some v ↦ true ]

  pub lookup-insert :
      (key q : String) (new : V) (m : Map V)
      → lookup q (insert key new m) ≡ (if key == q then some new else lookup q m)
  unfolding lookup insert
  lookup-insert key q new [] = refl
  lookup-insert key q new ((k, value) ∷ others) =
      ground (arith, lookup-insert key q new others, eq_iff k key, eq_iff k q, eq_iff key q)

  pub lookup-delete :
      (k j : String) (m : Map V) → lookup j (delete k m) ≡ (if k == j then none else lookup j m)
  unfolding lookup delete
  lookup-delete k j [] = ground arith
  lookup-delete k j ((i, w) ∷ m) =
      ground (arith, eq_iff k j, eq_iff i k, eq_iff i j, lookup-delete k j m)

  pub member_iff : (k : String) (m : Map V) → (member k m ≡ true) ↔ Has k (keys m)
  unfolding lookup
  member_iff k [] = ground arith
  member_iff k ((j, v) ∷ m) = ground (arith, member_iff k m)

  pub count-keys-insert :
      (k j : String) (v : V) (m : Map V)
      → count j (keys (insert k v m))
        ≡ (if k == j then max 1 (count j (keys m)) else count j (keys m))
  unfolding insert
  count-keys-insert k j v [] = ground arith
  count-keys-insert k j v ((i, w) ∷ m) =
      ground (arith, eq_iff k j, eq_iff i k, eq_iff i j, count-keys-insert k j v m)

  -- An assignment to a key that is there keeps the keys, in their order.
  pub keys-insert_present :
      (k : String) (v : V) (m : Map V) → Has k (keys m) → keys (insert k v m) ≡ keys m
  unfolding insert
  keys-insert_present k v [] h = absurd (omega arith)
  keys-insert_present k v ((i, w) ∷ m) h = ground (arith, eq_iff i k, keys-insert_present k v m)

  pub keys-delete : (k : String) (m : Map V) → keys (delete k m) ≡ remove k (keys m)
  unfolding delete remove
  keys-delete k [] = refl
  keys-delete k ((i, w) ∷ m) = ground (arith, keys-delete k m)
