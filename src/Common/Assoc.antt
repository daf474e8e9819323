-- ===== src/Common/Assoc.antt =====
-- `std::map` and `std::unordered_map` as association lists.
use mathlib.Core.Path.{◌≡◌, refl}
use mathlib.Core.Bool.{Bool, true, false}
use mathlib.Core.List.{List, [], ◌∷◌}
use mathlib.Core.Option
use mathlib.Core.Option.{Option, none, some}
use native.Mathlib.Omega.{arith}
use chat.Common.Tests.{Key, ◌==◌, if◌then◌else◌}

-- An `unordered_map` promises no order; a new entry is put behind the others.
abbrev pub unordered {ℓ} : {K : Type ℓ} → K → K → Bool
unordered a b = false

abbrev pub is_some {ℓ} : {A : Type ℓ} → Option A → Bool
is_some none = false
is_some (some a) = true

module _ {ℓ κ} {K : Type ℓ} {V : Type κ} ⦃e : Key K⦄ where
  -- `find`; `none` is `end()`
  unfoldable pub lookup : K → List (K × V) → Option V
  lookup k [] = none
  lookup k ((j, v) ∷ m) = if j == k then some v else lookup k m

  -- `insert` of an absent key, in front of the first entry that `before` puts behind it: by
  -- `operator<` for a `std::map`; an `unordered_map` promises no order.
  unfoldable pub insert : (K → K → Bool) → K → V → List (K × V) → List (K × V)
  insert before k v [] = (k, v) ∷ []
  insert before k v ((j, w) ∷ m) =
      let rest = insert before k v m in if before k j then (k, v) ∷ (j, w) ∷ m else (j, w) ∷ rest

  -- a change through a reference to the entry
  unfoldable pub modify : K → (V → V) → List (K × V) → List (K × V)
  modify k f [] = []
  modify k f ((j, v) ∷ m) =
      let rest = modify k f m in if j == k then (j, f v) ∷ m else (j, v) ∷ rest

  -- `erase`
  unfoldable pub erase : K → List (K × V) → List (K × V)
  erase k [] = []
  erase k ((j, v) ∷ m) = let rest = erase k m in if j == k then rest else (j, v) ∷ rest

  pub lookup-insert :
      (before : K → K → Bool) (k j : K) (v : V) (m : List (K × V))
      → lookup k m ≡ none
      → lookup j (insert before k v m) ≡ (if k == j then some v else lookup j m)
  unfolding lookup insert
  lookup-insert before k j v [] h = refl
  lookup-insert before k j v ((i, w) ∷ m) h =
      ground (arith, e.same_iff k j, e.same_iff i k, e.same_iff i j, lookup-insert before k j v m)

  pub lookup-modify :
      (k j : K) (f : V → V) (m : List (K × V))
      → lookup j (modify k f m) ≡ (if k == j then Option.map f (lookup k m) else lookup j m)
  unfolding lookup modify
  lookup-modify k j f [] = ground arith
  lookup-modify k j f ((i, w) ∷ m) =
      ground (arith, e.same_iff k j, e.same_iff i k, e.same_iff i j, lookup-modify k j f m)

  pub lookup-erase :
      (k j : K) (m : List (K × V)) → lookup j (erase k m) ≡ (if k == j then none else lookup j m)
  unfolding lookup erase
  lookup-erase k j [] = ground arith
  lookup-erase k j ((i, w) ∷ m) =
      ground (arith, e.same_iff k j, e.same_iff i k, e.same_iff i j, lookup-erase k j m)

-- The keys in the order of the entries.
abbrev pub keys {ℓ κ} : {K : Type ℓ} {V : Type κ} → List (K × V) → List K
keys [] = []
keys ((k, v) ∷ m) = k ∷ keys m

-- `std::unordered_set`: `find` and `insert` of an absent element
module _ {ℓ} {K : Type ℓ} ⦃e : Key K⦄ where
  unfoldable pub contains : K → List K → Bool
  contains k [] = false
  contains k (j ∷ s) = let rest = contains k s in if j == k then true else rest

  pub contains-cons :
      (k j : K) (s : List K) → contains k (j ∷ s) ≡ (if j == k then true else contains k s)
  unfolding contains
  contains-cons k j s = refl

module _ {ℓ κ} {K : Type ℓ} {V : Type κ} ⦃e : Key K⦄ where
  pub contains-keys : (k : K) (m : List (K × V)) → contains k (keys m) ≡ is_some (lookup k m)
  unfolding contains lookup
  contains-keys k [] = refl
  contains-keys k ((j, v) ∷ m) = ground (arith, contains-keys k m)
