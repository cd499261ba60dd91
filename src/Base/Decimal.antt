-- ===== src/Base/Decimal.antt =====
-- strconv.ParseUint and strconv.ParseInt at base 10 and 64 bits, and the verb %d of fmt.
use Prim.Native.Nat.{ℕ, zero, suc, ◌+◌, ◌-◌, ◌*◌, ◌/◌, ◌%◌, ◌^◌, ◌≤◌, ◌<◌}
use mathlib.Core.Path.{◌≡◌, refl, ◌∙◌, ap}
use mathlib.Core.Logic.{inl, inr}
use mathlib.Core.Bool.{Bool, true, false, ◌&&◌}
use mathlib.Core.List.{[], ◌∷◌, ◌++◌}
use native.Mathlib.Nat.{pow-suc}
use native.Mathlib.Omega.{arith}
use kvfs.Base.Tests.{ltb, leb, ◌==◌, if◌then◌else◌, Bool-cases}
use kvfs.Base.Lists.{All}
use kvfs.Base.Text.{Bytes}
use kvfs.Base.Int.{ℤ, pos, negsuc, IsInt64}

-- The two kinds of *NumError are kept apart: they come with different values.
pub data Parsed (A : Type 0) : Type 0 where
  value : A → Parsed A
  syntax : Parsed A
  out_of_range : Parsed A

parse_digits : ℕ → Bytes → Parsed ℕ
parse_digits n [] = value n
parse_digits n (c ∷ cs) =
    let m = n * 10 + (c - 48) in
    let rest = parse_digits m cs in
    if leb 48 c && leb c 57 then (if ltb m (2 ^ 64) then rest else out_of_range) else syntax

unfoldable pub parse_uint : Bytes → Parsed ℕ
unfolding parse_digits
parse_uint [] = syntax
parse_uint (c ∷ cs) = parse_digits 0 (c ∷ cs)

abbrev signed : Bool → Parsed ℕ → Parsed ℤ
signed neg syntax = syntax
signed neg out_of_range = out_of_range
signed true (value zero) = value (pos zero)
signed true (value (suc n)) = if ltb n (2 ^ 63) then value (negsuc n) else out_of_range
signed false (value n) = if ltb n (2 ^ 63) then value (pos n) else out_of_range

unfoldable pub parse_int : Bytes → Parsed ℤ
unfolding parse_uint
parse_int [] = syntax
parse_int (c ∷ cs) =
    if c == b'-'
    then signed true (parse_uint cs)
    else if c == b'+'
    then signed false (parse_uint cs)
    else signed false (parse_uint (c ∷ cs))

-- The digits of n, with as much fuel as there are digits.
format_digits : ℕ → ℕ → Bytes
format_digits zero n = (48 + n % 10) ∷ []
format_digits (suc fuel) n =
    let rest = format_digits fuel (n / 10) in
    if n / 10 == 0 then (48 + n % 10) ∷ [] else rest ++ (48 + n % 10) ∷ []

-- No number of 64 bits has more than twenty digits.
pub format_uint : ℕ → Bytes
unfolding format_digits
format_uint n = format_digits 20 n

unfoldable pub format_int : ℤ → Bytes
format_int (pos n) = format_uint n
format_int (negsuc n) = b'-' ∷ format_uint (suc n)

parse_digits-append :
    (acc d n : ℕ) (xs : Bytes)
    → parse_digits acc xs ≡ value n
    → d < 10
    → n * 10 + d < 2 ^ 64
    → parse_digits acc (xs ++ (48 + d) ∷ []) ≡ value (n * 10 + d)
unfolding parse_digits
parse_digits-append acc d n [] h small fits = ground arith
parse_digits-append acc d n (x ∷ xs) h small fits =
    ground (arith, parse_digits-append (acc * 10 + (x - 48)) d n xs)

parse-format_digits :
    (fuel n : ℕ) → n < 10 ^ suc fuel → n < 2 ^ 64 → parse_digits 0 (format_digits fuel n) ≡ value n
unfolding format_digits
parse-format_digits zero n h fits = unfold parse_digits in ground arith
parse-format_digits (suc fuel) n h fits = elim (Bool-cases (n / 10 == 0)) [
  | inl e ↦ rw e (unfold parse_digits in ground arith)
  | inr e ↦ rw e (
      parse_digits-append 0 (n % 10) (n / 10) (format_digits fuel (n / 10))
        (parse-format_digits fuel (n / 10) (omega (arith, pow-suc 10 (suc fuel))) (omega arith))
        (omega arith) (omega arith)
      ∙ ap value (omega arith))
]

-- A printed number begins with a digit.
record StartsWithDigit (s : Bytes) : Type 0 where
  first : ℕ
  others : Bytes
  shape : s ≡ first ∷ others
  low : 48 ≤ first
  high : first ≤ 57

StartsWithDigit-append : (s t : Bytes) → StartsWithDigit s → StartsWithDigit (s ++ t)
StartsWithDigit-append s t h = record {
  first = h.first;
  others = h.others ++ t;
  shape = ap (λ u. u ++ t) h.shape;
  low = h.low;
  high = h.high;
}

StartsWithDigit-last : (n : ℕ) → StartsWithDigit ((48 + n % 10) ∷ [])
StartsWithDigit-last n = record {
  first = 48 + n % 10;
  others = [];
  shape = refl;
  low = omega arith;
  high = omega arith;
}

format_digits-StartsWithDigit : (fuel n : ℕ) → StartsWithDigit (format_digits fuel n)
unfolding format_digits
format_digits-StartsWithDigit zero n = StartsWithDigit-last n
format_digits-StartsWithDigit (suc fuel) n = elim (Bool-cases (n / 10 == 0)) [
  | inl e ↦ rw e (StartsWithDigit-last n)
  | inr e ↦ rw e (StartsWithDigit-append _ _ (format_digits-StartsWithDigit fuel (n / 10)))
]

parse_uint-of_digit : (s : Bytes) → StartsWithDigit s → parse_uint s ≡ parse_digits 0 s
parse_uint-of_digit s h = rw h.shape (unfold parse_uint in refl)

-- What %d prints, ParseUint reads.
parse-format_uint : (n : ℕ) → n < 2 ^ 64 → parse_uint (format_uint n) ≡ value n
parse-format_uint n h =
    unfold format_uint in
    (parse_uint-of_digit _ (format_digits-StartsWithDigit 20 n)
      ∙ parse-format_digits 20 n (omega arith) h)

parse_int-of_digit : (s : Bytes) → StartsWithDigit s → parse_int s ≡ signed false (parse_uint s)
parse_int-of_digit s h = rw h.shape (no_sign h.first h.others h.low)
  where
    no_sign :
        (c : ℕ) (cs : Bytes) → 48 ≤ c → parse_int (c ∷ cs) ≡ signed false (parse_uint (c ∷ cs))
    no_sign c cs low = unfold parse_int in ground arith

-- What %d prints of an int64, ParseInt reads.
pub parse-format_int : (z : ℤ) → IsInt64 z → parse_int (format_int z) ≡ value z
unfolding format_int
parse-format_int (pos n) h =
    parse_int-of_digit (format_uint n) (unfold format_uint in format_digits-StartsWithDigit 20 n)
    ∙ ap (signed false) (parse-format_uint n (omega arith))
    ∙ ground arith
parse-format_int (negsuc n) h =
    unfold parse_int in (ap (signed true) (parse-format_uint (suc n) (omega arith)) ∙ ground arith)

-- A printed number has no byte but digits and the sign.
abbrev pub InDigits : Bytes → Type 0
InDigits = All (λ c. (45 ≤ c) × (c ≤ 57))

InDigits-append_one : (s : Bytes) (c : ℕ) → InDigits s → 45 ≤ c → c ≤ 57 → InDigits (s ++ c ∷ [])
InDigits-append_one [] c h low high = ((low, high), tt)
InDigits-append_one (x ∷ s) c h low high = (h.0, InDigits-append_one s c h.1 low high)

format_digits-InDigits : (fuel n : ℕ) → InDigits (format_digits fuel n)
unfolding format_digits
format_digits-InDigits zero n = ((omega arith, omega arith), tt)
format_digits-InDigits (suc fuel) n = elim (Bool-cases (n / 10 == 0)) [
  | inl e ↦ rw e ((omega arith, omega arith), tt)
  | inr e ↦ rw e (
      InDigits-append_one (format_digits fuel (n / 10)) _ (format_digits-InDigits fuel (n / 10))
        (omega arith) (omega arith))
]

pub format_int-InDigits : (z : ℤ) → InDigits (format_int z)
unfolding format_int
format_int-InDigits (pos n) = unfold format_uint in format_digits-InDigits 20 n
format_int-InDigits (negsuc n) =
    ((omega arith, omega arith), unfold format_uint in format_digits-InDigits 20 (suc n))
