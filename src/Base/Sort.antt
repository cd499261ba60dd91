-- ===== src/Base/Sort.antt =====
-- `sort.Slice` and `sort.Strings`: an insertion sort by the comparison of the call. Go promises an
-- order and not an algorithm; where the comparison leaves no ties the sorted list is unique, and
-- the lemmas below say so.
use mathlib.Core.List.Memᴰ.{head, tail}
use mathlib.Core.List.{Memᴰ, Permᴰ}
use mathlib.Core.List.Permᴰ
use Prim.Native.Nat.{ℕ, zero, suc}
use mathlib.Core.Path.{◌≡◌, refl, ap, ap₂, ◌∙◌, subst}
use mathlib.Core.Logic.{inl, inr}
use mathlib.Core.Bool.{Bool, true, false}
use mathlib.Core.List.{List, [], ◌∷◌}
use native.Mathlib.Omega.{arith}
use kvfs.Base.Tests.{if◌then◌else◌, Bool-cases}
use kvfs.Base.Lists.{
  length, take, drop, take-append-drop, mem-append_right, All, All-mem, All-of_mem,
}

-- A comparison that is a strict weak order.
pub record IsWeakOrder {ℓ} {A : Type ℓ} (before : A → A → Bool) : Type ℓ where
  pub asym : (a b : A) → before a b ≡ true → before b a ≡ false
  pub neg_trans : (a b c : A) → before a b ≡ false → before b c ≡ false → before a c ≡ false

module _ {ℓ} {A : Type ℓ} (before : A → A → Bool) where
  unfoldable pub insert_sorted : A → List A → List A
  insert_sorted x [] = x ∷ []
  insert_sorted x (y ∷ ys) = if before y x then y ∷ insert_sorted x ys else x ∷ y ∷ ys

  unfoldable pub sort : List A → List A
  unfolding insert_sorted
  sort [] = []
  sort (x ∷ xs) = insert_sorted x (sort xs)

  -- No later element comes before an earlier one.
  abbrev pub IsSorted : List A → Type 0
  IsSorted [] = Unit
  IsSorted (x ∷ xs) = All (λ y. before y x ≡ false) xs × IsSorted xs

  length-insert_sorted : (x : A) (xs : List A) → length (insert_sorted x xs) ≡ suc (length xs)
  unfolding insert_sorted
  length-insert_sorted x [] = refl
  length-insert_sorted x (y ∷ ys) = ground (arith, length-insert_sorted x ys)

  pub length-sort : (xs : List A) → length (sort xs) ≡ length xs
  unfolding sort
  length-sort [] = refl
  length-sort (x ∷ xs) = length-insert_sorted x (sort xs) ∙ ap suc (length-sort xs)

  insert_sorted-perm : (x : A) (xs : List A) → Permᴰ (insert_sorted x xs) (x ∷ xs)
  unfolding insert_sorted
  insert_sorted-perm x [] = Permᴰ.refl _
  insert_sorted-perm x (y ∷ ys) = elim (Bool-cases (before y x)) [
    | inl e ↦ rw e (Permᴰ.trans (Permᴰ.cons refl (insert_sorted-perm x ys)) (Permᴰ.swap refl refl))
    | inr e ↦ rw e (Permᴰ.refl _)
  ]

  pub sort-perm : (xs : List A) → Permᴰ (sort xs) xs
  unfolding sort
  sort-perm [] = Permᴰ.nil
  sort-perm (x ∷ xs) = Permᴰ.trans (insert_sorted-perm x (sort xs)) (Permᴰ.cons refl (sort-perm xs))

pub mem-perm {ℓ} : {A : Type ℓ} {a : A} {xs ys : List A} → Permᴰ xs ys → Memᴰ a xs → Memᴰ a ys
mem-perm Permᴰ.nil m = m
mem-perm (Permᴰ.cons e d) (head p) = head (p ∙ e)
mem-perm (Permᴰ.cons e d) (tail m) = tail (mem-perm d m)
mem-perm (Permᴰ.swap e₁ e₂) (head p) = tail (head (p ∙ e₁))
mem-perm (Permᴰ.swap e₁ e₂) (tail (head p)) = head (p ∙ e₂)
mem-perm (Permᴰ.swap e₁ e₂) (tail (tail m)) = tail (tail m)
mem-perm (Permᴰ.trans d₁ d₂) m = mem-perm d₂ (mem-perm d₁ m)

All-perm {ℓ κ} : {A : Type ℓ} (P : A → Type κ) {xs ys : List A} → Permᴰ xs ys → All P xs → All P ys
All-perm P {xs} {ys} d h = All-of_mem P ys (λ a m. All-mem P xs h (mem-perm (Permᴰ.symm d) m))

module _ {ℓ} {A : Type ℓ} (before : A → A → Bool) (order : IsWeakOrder before) where
  insert_sorted-IsSorted :
      (x : A) (ys : List A) → IsSorted before ys → IsSorted before (insert_sorted before x ys)
  unfolding insert_sorted
  insert_sorted-IsSorted x [] h = (tt, tt)
  insert_sorted-IsSorted x (y ∷ ys) h = elim (Bool-cases (before y x)) [
    | inl e ↦ rw e (
      All-perm (λ z. before z y ≡ false) (Permᴰ.symm (insert_sorted-perm before x ys))
          (order.asym y x e, h.0),
      insert_sorted-IsSorted x ys h.1,
    )
    | inr e ↦ rw e ((e, All-of_mem _ ys (λ z m. order.neg_trans z y x (All-mem _ ys h.0 m) e)), h)
  ]

  -- The sorted list is in order.
  pub sort-IsSorted : (xs : List A) → IsSorted before (sort before xs)
  unfolding sort
  sort-IsSorted [] = tt
  sort-IsSorted (x ∷ xs) = insert_sorted-IsSorted x (sort before xs) (sort-IsSorted xs)

  -- Where a tie is an equality, two insertions may be swapped.
  insert_sorted_comm :
      (x y : A) (zs : List A)
      → (before x y ≡ false → before y x ≡ false → x ≡ y)
      → insert_sorted before x (insert_sorted before y zs)
        ≡ insert_sorted before y (insert_sorted before x zs)
  unfolding insert_sorted
  insert_sorted_comm x y [] tie = ground (arith, order.asym x y, order.asym y x)
  insert_sorted_comm x y (z ∷ zs) tie = ground (
    arith,
    order.asym x y,
    order.asym y x,
    order.neg_trans z x y,
    order.neg_trans z y x,
    order.neg_trans x z y,
    order.neg_trans y z x,
    order.asym z x,
    order.asym z y,
    insert_sorted_comm x y zs tie,
  )

  -- A list with no ties between different elements has one sorted form.
  pub sort-eq-of_perm :
      {xs ys : List A}
      → ((a b : A) → Memᴰ a xs → Memᴰ b xs → before a b ≡ false → before b a ≡ false → a ≡ b)
      → Permᴰ xs ys
      → sort before xs ≡ sort before ys
  unfolding sort
  sort-eq-of_perm tie Permᴰ.nil = refl
  sort-eq-of_perm tie (Permᴰ.cons e d) =
      ap₂ (insert_sorted before) e (sort-eq-of_perm (λ a b ma mb. tie a b (tail ma) (tail mb)) d)
  sort-eq-of_perm {xs} {ys} tie (Permᴰ.swap {a = a} {b = b} {l = l} e₁ e₂) =
      insert_sorted_comm a b (sort before l) (tie a b (head refl) (tail (head refl)))
      ∙ ap₂ (λ s t. insert_sorted before s (insert_sorted before t (sort before l))) e₂ e₁
  sort-eq-of_perm tie (Permᴰ.trans d₁ d₂) =
      sort-eq-of_perm tie d₁
      ∙ sort-eq-of_perm
          (λ a b ma mb. tie a b (mem-perm (Permᴰ.symm d₁) ma) (mem-perm (Permᴰ.symm d₁) mb)) d₂

-- In a sorted list nothing behind a cut comes before an element in front of it.
pub IsSorted-split {ℓ} :
    {A : Type ℓ} (before : A → A → Bool) (n : ℕ) (xs : List A) {a b : A}
    → IsSorted before xs
    → Memᴰ a (take n xs)
    → Memᴰ b (drop n xs)
    → before b a ≡ false
IsSorted-split before zero xs h ma mb = elim ma [ ]
IsSorted-split before (suc n) [] h ma mb = elim ma [ ]
IsSorted-split before (suc n) (x ∷ xs) {b = b} h (head e) mb = rw e (
    All-mem (λ z. before z x ≡ false) xs h.0
      (subst (λ l. Memᴰ b l) (take-append-drop n xs) (mem-append_right (take n xs) (drop n xs) mb)))
IsSorted-split before (suc n) (x ∷ xs) h (tail ma) mb = IsSorted-split before n xs h.1 ma mb
