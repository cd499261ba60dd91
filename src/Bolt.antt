-- ===== src/Bolt.antt =====
-- go.etcd.io/bbolt, which internal/store keeps its metadata in: the documented behaviour of a bucket
-- as an interface (for keys within bbolt's size limit), and with it Cursor.Seek. Bolt.Listed is a bucket by lists, for concrete runs.
pub mod Laws
pub mod Listed
use kvfs.Base.{
  ℕ, Bool, true, false, Option, none, some, List, [], ◌∷◌, ◌≡◌, ◌↔◌, if◌then◌else◌, All,
}
use kvfs.Base.Text.{Bytes, beq, blt, has_prefix}
use mathlib.Core.List.{Memᴰ}

-- Keys in strictly ascending order.
abbrev pub IsAscending {ℓ} : {V : Type ℓ} → List (Bytes × V) → Type 0
IsAscending [] = Unit
IsAscending ((k, v) ∷ items) = All (λ e. blt k e.0 ≡ true) items × IsAscending items

-- A bucket with values of one type: Get, Put and Delete, and `items`, what ForEach visits.
pub record Bolt : Type 1 where
  pub Bucket : Type 0 → Type 0
  pub empty : (V : Type 0) → Bucket V
  pub get : {V : Type 0} → Bytes → Bucket V → Option V
  pub put : {V : Type 0} → Bytes → V → Bucket V → Bucket V
  pub del : {V : Type 0} → Bytes → Bucket V → Bucket V
  pub items : {V : Type 0} → Bucket V → List (Bytes × V)
  pub get-empty : (V : Type 0) (j : Bytes) → get j (empty V) ≡ none
  pub get-put :
      {V : Type 0} (k j : Bytes) (v : V) (b : Bucket V)
      → get j (put k v b) ≡ (if beq k j then some v else get j b)
  pub get-del :
      {V : Type 0} (k j : Bytes) (b : Bucket V)
      → get j (del k b) ≡ (if beq k j then none else get j b)
  pub mem-items :
      {V : Type 0} (k : Bytes) (v : V) (b : Bucket V) → Memᴰ (k, v) (items b) ↔ (get k b ≡ some v)
  pub items-IsAscending : {V : Type 0} (b : Bucket V) → IsAscending (items b)

-- Cursor.Seek: the first item whose key is not before the one sought.
unfoldable pub first_from : {V : Type 0} → Bytes → List (Bytes × V) → Option (Bytes × V)
first_from sought [] = none
first_from sought ((k, v) ∷ items) = if blt k sought then first_from sought items else some (k, v)

-- What the cursor found begins with the prefix.
unfoldable pub found_prefix : {V : Type 0} → Bytes → Option (Bytes × V) → Bool
found_prefix prefix none = false
found_prefix prefix (some (k, v)) = has_prefix k prefix
