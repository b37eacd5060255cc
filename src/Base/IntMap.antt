-- ===== src/Base/IntMap.antt =====
-- `std::map<int, V>`: a list of entries in the order of the keys, which are compared as `int`s.
use mathlib.Core.Path.{◌≡◌, refl, ◌∙◌}
use mathlib.Core.List.{List, [], ◌∷◌}
use mathlib.Core.Option.{Option, none, some}
use mathlib.Core.Bool.{false}
use Prim.Native.Nat.{ℕ}
use native.Mathlib.Omega.{arith}
use net_module.Base.Tests.{◌==◌, if◌then◌else◌}
use net_module.Base.Word.{int_ltb}

module _ {V : Type 0} where
  unfoldable pub lookup : ℕ → List (ℕ × V) → Option V
  lookup k [] = none
  lookup k ((j, v) ∷ m) = if j == k then some v else lookup k m

  -- `m[k] = v`.
  unfoldable pub insert : ℕ → V → List (ℕ × V) → List (ℕ × V)
  insert k v [] = (k, v) ∷ []
  insert k v ((j, w) ∷ m) =
      let rest = insert k v m in
      if j == k then (k, v) ∷ m else if int_ltb k j then (k, v) ∷ (j, w) ∷ m else (j, w) ∷ rest

  -- `m.erase(k)`: all entries under the key, of which there is at most one.
  unfoldable pub erase : ℕ → List (ℕ × V) → List (ℕ × V)
  erase k [] = []
  erase k ((j, v) ∷ m) = let rest = erase k m in if j == k then rest else (j, v) ∷ rest

  pub lookup-erase :
      (k i : ℕ) (m : List (ℕ × V)) → lookup i (erase k m) ≡ (if k == i then none else lookup i m)
  unfolding lookup erase
  lookup-erase k i [] = ground arith
  lookup-erase k i ((j, w) ∷ m) = ground (arith, lookup-erase k i m)

  pub lookup-insert :
      (k i : ℕ) (new : V) (m : List (ℕ × V))
      → lookup i (insert k new m) ≡ (if k == i then some new else lookup i m)
  unfolding lookup insert
  lookup-insert k i new ((j, old) ∷ m) = ground (arith, lookup-insert k i new m)
  lookup-insert k i new [] = refl

  pub lookup-insert_same :
      (k : ℕ) (new : V) (m : List (ℕ × V)) → lookup k (insert k new m) ≡ some new
  lookup-insert_same k new m = lookup-insert k k new m ∙ ground arith

  pub lookup-insert_other :
      (k i : ℕ) (new : V) (m : List (ℕ × V))
      → (k == i) ≡ false
      → lookup i (insert k new m) ≡ lookup i m
  lookup-insert_other k i new m other = lookup-insert k i new m ∙ rw other refl

  pub lookup-erase_same : (k : ℕ) (m : List (ℕ × V)) → lookup k (erase k m) ≡ none
  lookup-erase_same k m = lookup-erase k k m ∙ ground arith

  pub lookup-erase_other :
      (k i : ℕ) (m : List (ℕ × V)) → (k == i) ≡ false → lookup i (erase k m) ≡ lookup i m
  lookup-erase_other k i m other = lookup-erase k i m ∙ rw other refl

  pub erase-insert : (k : ℕ) (new : V) (m : List (ℕ × V)) → erase k (insert k new m) ≡ erase k m
  unfolding insert erase
  erase-insert k new [] = ground arith
  erase-insert k new ((j, old) ∷ m) = ground (arith, erase-insert k new m)

  pub erase-erase : (k : ℕ) (m : List (ℕ × V)) → erase k (erase k m) ≡ erase k m
  unfolding erase
  erase-erase k [] = refl
  erase-erase k ((j, v) ∷ m) = ground (arith, erase-erase k m)
