-- ===== src/Base/Lists.antt =====
-- Lists measured by native numbers, and predicates on all of their elements.
use Prim.Native.Nat.{ℕ, zero, suc, ◌+◌, ◌-◌, min}
use mathlib.Core.Path.{◌≡◌, refl, ap, subst, sym}
use mathlib.Core.Logic.{◌⊎◌, inl, inr}
use mathlib.Core.List.{List, [], ◌∷◌, ◌++◌, map, Memᴰ}
use mathlib.Core.List.Memᴰ.{head, tail}
use native.Mathlib.Omega.{arith}

module _ {ℓ} {A : Type ℓ} where
  abbrev pub length : List A → ℕ
  length [] = 0
  length (x ∷ xs) = suc (length xs)

  abbrev pub take : ℕ → List A → List A
  take zero xs = []
  take (suc n) [] = []
  take (suc n) (x ∷ xs) = x ∷ take n xs

  abbrev pub drop : ℕ → List A → List A
  drop zero xs = xs
  drop (suc n) [] = []
  drop (suc n) (x ∷ xs) = drop n xs

  -- Every element satisfies the predicate.
  abbrev pub All {κ} : (A → Type κ) → List A → Type κ
  All P [] = Unit
  All P (x ∷ xs) = P x × All P xs

  pub append_nil : (xs : List A) → xs ++ [] ≡ xs
  append_nil [] = refl
  append_nil (x ∷ xs) = ap (λ l. x ∷ l) (append_nil xs)

  pub append_assoc : (xs ys zs : List A) → (xs ++ ys) ++ zs ≡ xs ++ (ys ++ zs)
  append_assoc [] ys zs = refl
  append_assoc (x ∷ xs) ys zs = ap (λ l. x ∷ l) (append_assoc xs ys zs)

  pub length-append : (xs ys : List A) → length (xs ++ ys) ≡ length xs + length ys
  length-append [] ys = omega arith
  length-append (x ∷ xs) ys = omega (arith, length-append xs ys)

  pub take-append-drop : (n : ℕ) (xs : List A) → take n xs ++ drop n xs ≡ xs
  take-append-drop zero xs = refl
  take-append-drop (suc n) [] = refl
  take-append-drop (suc n) (x ∷ xs) = ap (λ t. x ∷ t) (take-append-drop n xs)

  pub length-take : (n : ℕ) (xs : List A) → length (take n xs) ≡ min n (length xs)
  length-take zero xs = omega arith
  length-take (suc n) [] = omega arith
  length-take (suc n) (x ∷ xs) = omega (arith, length-take n xs)

  pub length-drop : (n : ℕ) (xs : List A) → length (drop n xs) ≡ length xs - n
  length-drop zero xs = omega arith
  length-drop (suc n) [] = omega arith
  length-drop (suc n) (x ∷ xs) = omega (arith, length-drop n xs)

  pub All-mem {κ} : (P : A → Type κ) {a : A} (xs : List A) → All P xs → Memᴰ a xs → P a
  All-mem P [] h m = elim m [ ]
  All-mem P (x ∷ xs) h (head e) = subst P (sym e) h.0
  All-mem P (x ∷ xs) h (tail m) = All-mem P xs h.1 m

  pub All-of_mem {κ} : (P : A → Type κ) (xs : List A) → ((a : A) → Memᴰ a xs → P a) → All P xs
  All-of_mem P [] f = tt
  All-of_mem P (x ∷ xs) f = (f x (head refl), All-of_mem P xs (λ a m. f a (tail m)))

  pub mem-append_left : {a : A} (xs ys : List A) → Memᴰ a xs → Memᴰ a (xs ++ ys)
  mem-append_left [] ys m = elim m [ ]
  mem-append_left (x ∷ xs) ys (head e) = head e
  mem-append_left (x ∷ xs) ys (tail m) = tail (mem-append_left xs ys m)

  pub mem-append_right : {a : A} (xs ys : List A) → Memᴰ a ys → Memᴰ a (xs ++ ys)
  mem-append_right [] ys m = m
  mem-append_right (x ∷ xs) ys m = tail (mem-append_right xs ys m)

  pub mem-of_mem_take : {a : A} (n : ℕ) (xs : List A) → Memᴰ a (take n xs) → Memᴰ a xs
  mem-of_mem_take (suc n) (x ∷ xs) (head e) = head e
  mem-of_mem_take (suc n) (x ∷ xs) (tail m) = tail (mem-of_mem_take n xs m)
  mem-of_mem_take zero xs m = elim m [ ]
  mem-of_mem_take (suc n) [] m = elim m [ ]

pub length-map {ℓ κ} :
    {A : Type ℓ} {B : Type κ} (f : A → B) (xs : List A) → length (map f xs) ≡ length xs
length-map f [] = refl
length-map f (x ∷ xs) = ap suc (length-map f xs)

pub mem-append_cases {ℓ} :
    {A : Type ℓ} {a : A} (xs ys : List A) → Memᴰ a (xs ++ ys) → Memᴰ a xs ⊎ Memᴰ a ys
mem-append_cases [] ys m = inr m
mem-append_cases (x ∷ xs) ys (head e) = inl (head e)
mem-append_cases (x ∷ xs) ys (tail m) = elim (mem-append_cases xs ys m) [
  | inl k ↦ inl (tail k)
  | inr k ↦ inr k
]
