-- ===== src/Base/Text.antt =====
-- Go's `string`: a sequence of bytes, compared byte by byte. The Boolean tests are Go's `==` and
-- `<`; their laws make `<` a strict total order.
use Prim.Native.Nat.{ℕ}
use mathlib.Core.Path.{◌≡◌, refl, subst}
use mathlib.Core.Logic.{◌↔◌}
use mathlib.Core.Bool.{Bool, true, false, ◌&&◌}
use mathlib.Core.List.{List, [], ◌∷◌}
use native.Mathlib.Omega.{arith}
use native.Mathlib.Decide.{ℕ_discrete}
use kvfs.Base.Tests.{ltb, ◌==◌, if◌then◌else◌}

-- A Go string or byte slice.
abbrev pub Bytes : Type 0
Bytes = List ℕ

-- s == t
unfoldable pub beq : Bytes → Bytes → Bool
beq [] [] = true
beq [] (b ∷ t) = false
beq (a ∷ s) [] = false
beq (a ∷ s) (b ∷ t) = (a == b) && beq s t

-- s < t
unfoldable pub blt : Bytes → Bytes → Bool
blt [] [] = false
blt [] (b ∷ t) = true
blt (a ∷ s) [] = false
blt (a ∷ s) (b ∷ t) = let rest = blt s t in if ltb a b then true else if a == b then rest else false

-- s == ""
unfoldable pub is_empty : Bytes → Bool
is_empty [] = true
is_empty (a ∷ s) = false

-- strings.HasPrefix(s, prefix)
unfoldable pub has_prefix : Bytes → Bytes → Bool
has_prefix s [] = true
has_prefix [] (b ∷ prefix) = false
has_prefix (a ∷ s) (b ∷ prefix) = (a == b) && has_prefix s prefix

pub beq_refl : (s : Bytes) → beq s s ≡ true
unfolding beq
beq_refl [] = refl
beq_refl (a ∷ s) = ground (arith, beq_refl s)

pub beq→eq : (s t : Bytes) → beq s t ≡ true → s ≡ t
unfolding beq
beq→eq [] [] h = refl
beq→eq [] (b ∷ t) h = cc
beq→eq (a ∷ s) [] h = cc
beq→eq (a ∷ s) (b ∷ t) h = ground (arith, beq→eq s t)

pub eq→beq : (s t : Bytes) → s ≡ t → beq s t ≡ true
eq→beq s t e = subst (λ u. beq s u ≡ true) e (beq_refl s)

pub beq_iff : (s t : Bytes) → (beq s t ≡ true) ↔ (s ≡ t)
beq_iff s t = (beq→eq s t, eq→beq s t)

pub blt_irrefl : (s : Bytes) → blt s s ≡ false
unfolding blt
blt_irrefl [] = refl
blt_irrefl (a ∷ s) = ground (arith, blt_irrefl s)

pub blt_trans : (s t u : Bytes) → blt s t ≡ true → blt t u ≡ true → blt s u ≡ true
unfolding blt
blt_trans [] [] u p q = cc
blt_trans [] (b ∷ t) [] p q = cc
blt_trans [] (b ∷ t) (c ∷ u) p q = refl
blt_trans (a ∷ s) [] u p q = cc
blt_trans (a ∷ s) (b ∷ t) [] p q = cc
blt_trans (a ∷ s) (b ∷ t) (c ∷ u) p q = ground (arith, blt_trans s t u)

pub blt_total : (s t : Bytes) → beq s t ≡ false → blt s t ≡ false → blt t s ≡ true
unfolding beq blt
blt_total [] [] p q = cc
blt_total [] (b ∷ t) p q = cc
blt_total (a ∷ s) [] p q = refl
blt_total (a ∷ s) (b ∷ t) p q = ground (arith, blt_total s t)

pub is_empty→eq : (s : Bytes) → is_empty s ≡ true → s ≡ []
unfolding is_empty
is_empty→eq [] h = refl
is_empty→eq (a ∷ s) h = cc

Bytes-discrete : Discrete Bytes
Bytes-discrete = hlevel ℕ_discrete

pub blt_neg_trans : (s t u : Bytes) → blt s t ≡ false → blt t u ≡ false → blt s u ≡ false
blt_neg_trans s t u p q = ground (
  arith,
  blt_total s t,
  blt_total t u,
  beq_iff s t,
  beq_iff t u,
  blt_trans t s u,
  blt_trans u t s,
  blt_trans s u s,
  blt_irrefl s,
)
