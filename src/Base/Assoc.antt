-- ===== src/Base/Assoc.antt =====
-- Go's `map[string]V`, and its sets of strings, as association lists.

use mathlib.Core.Path.{◌≡◌, refl}
use mathlib.Core.Bool.{Bool, false, ◌||◌}
use mathlib.Core.Option.{Option, none, some}
use mathlib.Core.List.{List, [], ◌∷◌}
use native.Mathlib.Omega.{arith}
use kvfs.Base.Tests.{if◌then◌else◌}
use kvfs.Base.Text.{Bytes, beq, beq_iff}

module _ {ℓ} {V : Type ℓ} where
  -- m[k]
  unfoldable pub lookup : Bytes → List (Bytes × V) → Option V
  lookup k [] = none
  lookup k ((j, v) ∷ m) = if beq j k then some v else lookup k m

  -- m[k] = v
  unfoldable pub insert : Bytes → V → List (Bytes × V) → List (Bytes × V)
  insert k v [] = (k, v) ∷ []
  insert k v ((j, w) ∷ m) = if beq j k then (k, v) ∷ m else (j, w) ∷ insert k v m

  -- delete(m, k)
  unfoldable pub delete : Bytes → List (Bytes × V) → List (Bytes × V)
  delete k [] = []
  delete k ((j, w) ∷ m) = let rest = delete k m in if beq j k then rest else (j, w) ∷ rest

  pub lookup-insert :
      (k j : Bytes) (v : V) (m : List (Bytes × V))
      → lookup j (insert k v m) ≡ (if beq k j then some v else lookup j m)
  unfolding lookup insert
  lookup-insert k j v [] = refl
  lookup-insert k j v ((i, w) ∷ m) =
      ground (arith, beq_iff k j, beq_iff i k, beq_iff i j, lookup-insert k j v m)

  pub lookup-delete :
      (k j : Bytes) (m : List (Bytes × V))
      → lookup j (delete k m) ≡ (if beq k j then none else lookup j m)
  unfolding lookup delete
  lookup-delete k j [] = ground arith
  lookup-delete k j ((i, w) ∷ m) =
      ground (arith, beq_iff k j, beq_iff i k, beq_iff i j, lookup-delete k j m)

-- Membership in a set of strings, `_, ok := set[x]`.
unfoldable pub contains : List Bytes → Bytes → Bool
contains [] x = false
contains (y ∷ ys) x = beq y x || contains ys x
