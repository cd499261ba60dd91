-- ===== src/Base/Int.antt =====
-- Go's int64 values: signed integers, with the tests that the program makes on them.
use Prim.Native.Nat.{ℕ, suc, ◌<◌, ◌+◌, ◌-◌, ◌^◌, ◌%◌}
use mathlib.Core.Path.{◌≡◌}
use native.Mathlib.Omega.{arith}
use mathlib.Core.Bool.{Bool, true, false}
use kvfs.Base.Tests.{ltb, ◌==◌, if◌then◌else◌}

-- `negsuc n` is -(n + 1).
pub data ℤ : Type 0 where
  pos : ℕ → ℤ
  negsuc : ℕ → ℤ

-- a < b
abbrev pub ltb_ℤ : ℤ → ℤ → Bool
ltb_ℤ (pos a) (pos b) = ltb a b
ltb_ℤ (pos a) (negsuc b) = false
ltb_ℤ (negsuc a) (pos b) = true
ltb_ℤ (negsuc a) (negsuc b) = ltb b a

-- a == b
abbrev pub eqb_ℤ : ℤ → ℤ → Bool
eqb_ℤ (pos a) (pos b) = a == b
eqb_ℤ (pos a) (negsuc b) = false
eqb_ℤ (negsuc a) (pos b) = false
eqb_ℤ (negsuc a) (negsuc b) = a == b

-- The range of an int64.
abbrev pub IsInt64 : ℤ → Type 0
IsInt64 (pos n) = n < 2 ^ 63
IsInt64 (negsuc n) = n < 2 ^ 63

-- a - b on natural numbers
abbrev pub minus : ℕ → ℕ → ℤ
minus a b = if ltb a b then negsuc (b - a - 1) else pos (a - b)

infix 60 ◌+ℤ◌
abbrev pub ◌+ℤ◌ : ℤ → ℤ → ℤ
pos a +ℤ pos b = pos (a + b)
pos a +ℤ negsuc b = minus a (suc b)
negsuc a +ℤ pos b = minus b (suc a)
negsuc a +ℤ negsuc b = negsuc (suc (a + b))

abbrev pub neg : ℤ → ℤ
neg (pos n) = minus 0 n
neg (negsuc n) = pos (suc n)

-- The int64 that Go keeps of a result: two's complement.
abbrev pub wrap : ℤ → ℤ
wrap (pos n) = let m = n % 2 ^ 64 in if ltb m (2 ^ 63) then pos m else negsuc (2 ^ 64 - 1 - m)
wrap (negsuc n) = let m = n % 2 ^ 64 in if ltb m (2 ^ 63) then negsuc m else pos (2 ^ 64 - 1 - m)

pub wrap_small : (m : ℕ) → m < 2 ^ 63 → wrap (pos m) ≡ pos m
wrap_small m h = ground (arith, h)

infix 60 ◌+₆₄◌
abbrev pub ◌+₆₄◌ : ℤ → ℤ → ℤ
a +₆₄ b = wrap (a +ℤ b)
