-- ===== src/Rebalance/Sets.antt =====
-- The set helpers of rebalance.go, by what the resulting lists contain.
use mathlib.Core.List.{Permᴰ}
use kvfs.Base.{
  sym, true, false, zero, suc, take, Bool-cases, ◌↔◌, inl, inr, ℕ, not, List, [], ◌∷◌, ◌≡◌, refl,
  ◌∙◌, ap, ◌&&◌, arith,
}
use kvfs.Base.Text.{beq_refl, Bytes, beq, beq_iff, beq_refl, blt}
use kvfs.Base.Assoc.{contains}
use kvfs.Base.Sort.{sort, sort-perm}
use kvfs.Placement.Spread.{AllDistinct}
use kvfs.Rebalance.{sorted_copy, set_diff, intersect, unique, unique_sorted}

contains-perm : {xs ys : List Bytes} (a : Bytes) → Permᴰ xs ys → contains xs a ≡ contains ys a
unfolding contains
contains-perm a Permᴰ.nil = refl
contains-perm a (Permᴰ.cons e d) = ground (arith, ap (λ x. beq x a) e, contains-perm a d)
contains-perm a (Permᴰ.swap e₁ e₂) = ground (arith, ap (λ x. beq x a) e₁, ap (λ x. beq x a) e₂)
contains-perm a (Permᴰ.trans d₁ d₂) = contains-perm a d₁ ∙ contains-perm a d₂

pub contains-sort : (xs : List Bytes) (a : Bytes) → contains (sort blt xs) a ≡ contains xs a
contains-sort xs a = contains-perm a (sort-perm blt xs)

pub contains-sorted_copy :
    (xs : List Bytes) (a : Bytes) → contains (sorted_copy xs) a ≡ contains xs a
unfolding sorted_copy
contains-sorted_copy xs a = contains-sort xs a

pub contains-set_diff :
    (xs ys : List Bytes) (a : Bytes)
    → contains (set_diff xs ys) a ≡ (contains xs a && not (contains ys a))
unfolding contains set_diff
contains-set_diff [] ys a = refl
contains-set_diff (x ∷ xs) ys a = ground (arith, contains-set_diff xs ys a, beq_iff x a)

pub contains-intersect :
    (xs ys : List Bytes) (a : Bytes)
    → contains (intersect xs ys) a ≡ (contains xs a && contains ys a)
unfolding contains intersect
contains-intersect [] ys a = refl
contains-intersect (x ∷ xs) ys a = ground (arith, contains-intersect xs ys a, beq_iff x a)

contains-unique :
    (seen xs : List Bytes) (a : Bytes)
    → contains (unique seen xs) a ≡ (contains xs a && not (contains seen a))
unfolding contains unique
contains-unique seen [] a = refl
contains-unique seen (x ∷ xs) a =
    ground
      (arith, contains-unique seen xs a, contains-unique (x ∷ seen) xs a, beq_iff x a, beq_refl a)

pub contains-unique_sorted :
    (xs : List Bytes) (a : Bytes) → contains (unique_sorted xs) a ≡ contains xs a
unfolding unique_sorted
contains-unique_sorted xs a =
    contains-sort (unique [] xs) a ∙ contains-unique [] xs a ∙ unfold contains in ground arith

contains-none : (l : List Bytes) → ((a : Bytes) → contains l a ≡ false) → l ≡ []
contains-none [] h = refl
contains-none (x ∷ l) h = absurd (unfold contains in ground (arith, h x, beq_refl x))

pub set_diff-nil :
    (xs ys : List Bytes)
    → (set_diff xs ys ≡ []) ↔ ((a : Bytes) → contains xs a ≡ true → contains ys a ≡ true)
set_diff-nil xs ys = (
  λ h a m.
      unfold contains in ground (arith, m, contains-set_diff xs ys a, ap (λ l. contains l a) h),
  included xs,
)
  where
    included :
        (zs : List Bytes)
        → ((a : Bytes) → contains zs a ≡ true → contains ys a ≡ true)
        → set_diff zs ys ≡ []
    included zs h =
        contains-none (set_diff zs ys) (λ a. contains-set_diff zs ys a ∙ ground (arith, h a))

pub AllDistinct-set_diff : (xs ys : List Bytes) → AllDistinct xs → AllDistinct (set_diff xs ys)
unfolding set_diff
AllDistinct-set_diff [] ys h = tt
AllDistinct-set_diff (x ∷ xs) ys h = elim (Bool-cases (contains ys x)) [
  | inl e ↦ rw e (AllDistinct-set_diff xs ys h.1)
  | inr e ↦ rw e (rw (contains-set_diff xs ys x, h.0) refl, AllDistinct-set_diff xs ys h.1)
]

pub AllDistinct-perm : {xs ys : List Bytes} → Permᴰ xs ys → AllDistinct xs → AllDistinct ys
unfolding contains
AllDistinct-perm Permᴰ.nil h = tt
AllDistinct-perm (Permᴰ.cons {a = a} {l₂ = l} e d) h =
    (ap (λ x. contains l x) (sym e) ∙ sym (contains-perm a d) ∙ h.0, AllDistinct-perm d h.1)
AllDistinct-perm (Permᴰ.swap {a = a} {b = b} {a' = a'} {b' = b'} {l = l} e₁ e₂) h = (
  ground (arith, h.0, h.1.0, beq_iff b' a', beq_iff b a, ap (λ x. contains l x) e₂, e₁, e₂),
  (ap (λ x. contains l x) (sym e₁) ∙ ground (arith, h.0), h.1.1),
)
AllDistinct-perm (Permᴰ.trans d₁ d₂) h = AllDistinct-perm d₂ (AllDistinct-perm d₁ h)

contains-take :
    (x : Bytes) (n : ℕ) (xs : List Bytes) → contains xs x ≡ false → contains (take n xs) x ≡ false
unfolding contains
contains-take x zero xs h = refl
contains-take x (suc n) [] h = refl
contains-take x (suc n) (y ∷ xs) h = ground (arith, h, contains-take x n xs)

pub AllDistinct-take : (n : ℕ) (xs : List Bytes) → AllDistinct xs → AllDistinct (take n xs)
AllDistinct-take zero xs h = tt
AllDistinct-take (suc n) [] h = tt
AllDistinct-take (suc n) (x ∷ xs) h = (contains-take x n xs h.0, AllDistinct-take n xs h.1)
