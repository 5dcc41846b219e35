-- ===== src/Prelude/Maps.antt =====
-- A hash map with numbers as keys: an association list, in which `insert` replaces. Its order stands
-- for the unspecified order of the source's map.
use Prim.Native.Nat.{ℕ}
use mathlib.Core.Path.{◌≡◌, refl}
use mathlib.Core.Logic.{inl, inr}
use mathlib.Core.Bool.{Bool, true, false, ◌||◌}
use mathlib.Core.Option.{Option, none, some}
use mathlib.Core.List.{List, [], ◌∷◌}
use native.Mathlib.Omega.{arith}
use usbip_macos.Prelude.Tests.{◌==◌, if◌then◌else◌, Bool-cases}

module _ {ℓ} {V : Type ℓ} where
  unfoldable pub lookup : ℕ → List (ℕ × V) → Option V
  lookup k [] = none
  lookup k ((j, v) ∷ m) = if j == k then some v else lookup k m

  unfoldable pub remove : ℕ → List (ℕ × V) → List (ℕ × V)
  remove k [] = []
  remove k ((j, v) ∷ m) = let rest = remove k m in if j == k then rest else (j, v) ∷ rest

  unfoldable pub insert : ℕ → V → List (ℕ × V) → List (ℕ × V)
  unfolding remove
  insert k v m = (k, v) ∷ remove k m

  -- The entries whose value passes the test.
  unfoldable pub retain : (V → Bool) → List (ℕ × V) → List (ℕ × V)
  retain keep [] = []
  retain keep ((j, v) ∷ m) = let rest = retain keep m in if keep v then (j, v) ∷ rest else rest

  unfoldable pub contains_key : ℕ → List (ℕ × V) → Bool
  contains_key k [] = false
  contains_key k ((j, v) ∷ m) = j == k || contains_key k m

  abbrev pub keys : List (ℕ × V) → List ℕ
  keys [] = []
  keys ((j, v) ∷ m) = j ∷ keys m

  abbrev pub values : List (ℕ × V) → List V
  values [] = []
  values ((j, v) ∷ m) = v ∷ values m

  -- No key stands twice.
  abbrev pub UniqueKeys : List (ℕ × V) → Type 0
  UniqueKeys [] = Unit {0}
  UniqueKeys ((j, v) ∷ m) = (contains_key j m ≡ false) × UniqueKeys m

module _ {ℓ} {V : Type ℓ} where
  pub lookup-remove :
      (j k : ℕ) (m : List (ℕ × V)) → lookup j (remove k m) ≡ (if k == j then none else lookup j m)
  unfolding lookup remove
  lookup-remove j k [] = ground arith
  lookup-remove j k ((i, v) ∷ m) = ground (arith, lookup-remove j k m)

  pub lookup-insert :
      (j k : ℕ) (v : V) (m : List (ℕ × V))
      → lookup j (insert k v m) ≡ (if k == j then some v else lookup j m)
  unfolding lookup insert
  lookup-insert j k v m = ground (arith, lookup-remove j k m)

  pub contains_key-remove :
      (j k : ℕ) (m : List (ℕ × V))
      → contains_key j (remove k m) ≡ (if k == j then false else contains_key j m)
  unfolding contains_key remove
  contains_key-remove j k [] = ground arith
  contains_key-remove j k ((i, v) ∷ m) = ground (arith, contains_key-remove j k m)

  pub contains_key-insert :
      (j k : ℕ) (v : V) (m : List (ℕ × V))
      → contains_key j (insert k v m) ≡ (if k == j then true else contains_key j m)
  unfolding contains_key insert
  contains_key-insert j k v m = ground (arith, contains_key-remove j k m)

  pub contains_key_of_lookup :
      (k : ℕ) (m : List (ℕ × V)) (v : V) → lookup k m ≡ some v → contains_key k m ≡ true
  unfolding lookup contains_key
  contains_key_of_lookup k [] v e = cc
  contains_key_of_lookup k ((j, w) ∷ m) v e = ground (arith, contains_key_of_lookup k m v)

  pub lookup_of_contains_key :
      (k : ℕ) (m : List (ℕ × V)) → contains_key k m ≡ true → (v : V) × (lookup k m ≡ some v)
  unfolding lookup contains_key
  lookup_of_contains_key k [] e = cc
  lookup_of_contains_key k ((j, w) ∷ m) e = elim (Bool-cases (j == k)) [
    | inl h ↦ (w, rw h)
    | inr h ↦ rw h (lookup_of_contains_key k m (rw h at e))
  ]

  pub lookup_of_not_contains_key :
      (k : ℕ) (m : List (ℕ × V)) → contains_key k m ≡ false → lookup k m ≡ none
  unfolding lookup contains_key
  lookup_of_not_contains_key k [] e = refl
  lookup_of_not_contains_key k ((j, w) ∷ m) e = ground (arith, lookup_of_not_contains_key k m)

  pub contains_key-retain :
      (keep : V → Bool) (j : ℕ) (m : List (ℕ × V))
      → contains_key j m ≡ false
      → contains_key j (retain keep m) ≡ false
  unfolding contains_key retain
  contains_key-retain keep j [] h = refl
  contains_key-retain keep j ((i, v) ∷ m) h = ground (arith, contains_key-retain keep j m)

  -- With unique keys, what is retained was there and passes the test.
  pub lookup-retain :
      (keep : V → Bool) (j : ℕ) (m : List (ℕ × V)) (v : V)
      → UniqueKeys m
      → lookup j (retain keep m) ≡ some v
      → (lookup j m ≡ some v) × (keep v ≡ true)
  unfolding lookup retain
  lookup-retain keep j [] v u e = cc
  lookup-retain keep j ((i, w) ∷ m) v u e =
      ground (arith, lookup-retain keep j m v u.1, contains_key_of_lookup j m v)

  pub remove-UniqueKeys : (k : ℕ) (m : List (ℕ × V)) → UniqueKeys m → UniqueKeys (remove k m)
  unfolding remove
  remove-UniqueKeys k [] u = tt
  remove-UniqueKeys k ((j, v) ∷ m) u =
      ground (arith, remove-UniqueKeys k m u.1, contains_key-remove j k m)

  pub insert-UniqueKeys :
      (k : ℕ) (v : V) (m : List (ℕ × V)) → UniqueKeys m → UniqueKeys (insert k v m)
  unfolding insert
  insert-UniqueKeys k v m u = (ground (arith, contains_key-remove k k m), remove-UniqueKeys k m u)

  pub retain-UniqueKeys :
      (keep : V → Bool) (m : List (ℕ × V)) → UniqueKeys m → UniqueKeys (retain keep m)
  unfolding retain
  retain-UniqueKeys keep [] u = tt
  retain-UniqueKeys keep ((j, v) ∷ m) u =
      ground (arith, retain-UniqueKeys keep m u.1, contains_key-retain keep j m)

  pub remove_absent : (k : ℕ) (m : List (ℕ × V)) → contains_key k m ≡ false → remove k m ≡ m
  unfolding remove contains_key
  remove_absent k [] h = refl
  remove_absent k ((j, v) ∷ m) h = ground (arith, remove_absent k m)

  pub remove-nil : (k : ℕ) (m : List (ℕ × V)) → m ≡ [] → remove k m ≡ []
  unfolding remove
  remove-nil k m e = rw e

  pub retain-nil : (keep : V → Bool) (m : List (ℕ × V)) → m ≡ [] → retain keep m ≡ []
  unfolding retain
  retain-nil keep m e = rw e
