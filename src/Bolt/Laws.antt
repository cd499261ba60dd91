-- ===== src/Bolt/Laws.antt =====
-- What the laws of a bucket say of its items: buckets that hold the same are listed alike, and Seek
-- finds a key with a prefix where there is one.
use kvfs.Base.{
  true, false, List, [], ◌∷◌, ◌≡◌, ◌⊎◌, inl, inr, refl, sym, ◌∙◌, subst, All-mem, arith, Bool-cases,
}
use kvfs.Base.Text.{Bytes, blt, has_prefix, blt_irrefl, blt_trans}
use kvfs.Bolt.{IsAscending, Bolt, first_from, found_prefix}
use mathlib.Core.Path.{ap₂}
use mathlib.Core.List.{Memᴰ}
use mathlib.Core.List.Memᴰ.{head, tail}

not_before_itself : (k : Bytes) → blt k k ≡ true → ⊥
not_before_itself k h = ground (arith, blt_irrefl k)

module _ {V : Type 0} where
  first_of :
      {e : Bytes × V} (x : Bytes × V) (xs : List (Bytes × V))
      → IsAscending (x ∷ xs)
      → Memᴰ e (x ∷ xs)
      → (e ≡ x) ⊎ (blt x.0 e.0 ≡ true)
  first_of x xs h (head e) = inl e
  first_of x xs h (tail m) = inr (All-mem (λ e. blt x.0 e.0 ≡ true) xs h.0 m)

  in_tail :
      {e : Bytes × V} (x : Bytes × V) (xs : List (Bytes × V))
      → blt x.0 e.0 ≡ true
      → Memᴰ e (x ∷ xs)
      → Memᴰ e xs
  in_tail x xs l (head p) = elim (not_before_itself x.0 (subst (λ z. blt x.0 z.0 ≡ true) p l)) [ ]
  in_tail x xs l (tail m) = m

  same_head :
      (x y : Bytes × V) → (x ≡ y) ⊎ (blt y.0 x.0 ≡ true) → (y ≡ x) ⊎ (blt x.0 y.0 ≡ true) → x ≡ y
  same_head x y (inl e) h = e
  same_head x y (inr l) (inl e) = sym e
  same_head x y (inr l) (inr r) = elim (not_before_itself x.0 (blt_trans x.0 y.0 x.0 r l)) [ ]

  -- Two ascending lists with the same elements are equal.
  ascending_ext :
      (xs ys : List (Bytes × V))
      → IsAscending xs
      → IsAscending ys
      → ((e : Bytes × V) → Memᴰ e xs → Memᴰ e ys)
      → ((e : Bytes × V) → Memᴰ e ys → Memᴰ e xs)
      → xs ≡ ys
  ascending_ext [] [] hx hy f g = refl
  ascending_ext [] (y ∷ ys) hx hy f g = elim (g y (head refl)) [ ]
  ascending_ext (x ∷ xs) [] hx hy f g = elim (f x (head refl)) [ ]
  ascending_ext (x ∷ xs) (y ∷ ys) hx hy f g =
      let same : x ≡ y =
        same_head x y (first_of y ys hy (f x (head refl))) (first_of x xs hx (g y (head refl))) in
      ap₂ (λ a l. a ∷ l) same
        (ascending_ext xs ys hx.1 hy.1
          (λ e m.
            in_tail y ys
              (subst (λ z. blt z.0 e.0 ≡ true) same (All-mem (λ e. blt x.0 e.0 ≡ true) xs hx.0 m))
              (f e (tail m)))
          (λ e m.
            in_tail x xs
              (subst (λ z. blt z.0 e.0 ≡ true) (sym same)
                (All-mem (λ e. blt y.0 e.0 ≡ true) ys hy.0 m))
              (g e (tail m))))

module _ (bolt : Bolt) where
  -- Buckets that agree on every Get have the same items.
  pub items_ext :
      {V : Type 0} (b c : bolt.Bucket V)
      → ((k : Bytes) → bolt.get k b ≡ bolt.get k c)
      → bolt.items b ≡ bolt.items c
  items_ext b c h =
      ascending_ext (bolt.items b) (bolt.items c) (bolt.items-IsAscending b)
        (bolt.items-IsAscending c)
        (λ e m. (bolt.mem-items e.0 e.1 c).1 (sym (h e.0) ∙ (bolt.mem-items e.0 e.1 b).0 m))
        (λ e m. (bolt.mem-items e.0 e.1 b).1 (h e.0 ∙ (bolt.mem-items e.0 e.1 c).0 m))

-- A key with the prefix is not before it, and a key between the prefix and such a key has it too.
prefix_not_before : (k p : Bytes) → has_prefix k p ≡ true → blt k p ≡ false
unfolding has_prefix blt
prefix_not_before [] [] h = refl
prefix_not_before (a ∷ k) [] h = refl
prefix_not_before [] (b ∷ p) h = cc
prefix_not_before (a ∷ k) (b ∷ p) h = ground (arith, prefix_not_before k p)

prefix_between :
    (p j k : Bytes)
    → blt j p ≡ false
    → blt j k ≡ true
    → has_prefix k p ≡ true
    → has_prefix j p ≡ true
unfolding has_prefix blt
prefix_between [] [] k a l h = refl
prefix_between [] (b ∷ j) k a l h = refl
prefix_between (c ∷ p) [] k a l h = cc
prefix_between (c ∷ p) (b ∷ j) [] a l h = cc
prefix_between (c ∷ p) (b ∷ j) (d ∷ k) a l h = ground (arith, prefix_between p j k)

-- Seek finds a key with the prefix as soon as one of the items has it.
pub seek-found :
    {V : Type 0} (p : Bytes) (items : List (Bytes × V)) {e : Bytes × V}
    → IsAscending items
    → Memᴰ e items
    → has_prefix e.0 p ≡ true
    → found_prefix p (first_from p items) ≡ true
unfolding found_prefix first_from
seek-found p [] h m q = elim m [ ]
seek-found p ((j, v) ∷ items) h (head s) q =
    let here : has_prefix j p ≡ true = subst (λ z. has_prefix z.0 p ≡ true) s q in
    rw (prefix_not_before j p here) here
seek-found p ((j, v) ∷ items) {e} h (tail m) q = elim (Bool-cases (blt j p)) [
  | inl f ↦ rw f (seek-found p items h.1 m q)
  | inr f ↦ rw f (prefix_between p j e.0 f (All-mem (λ e. blt j e.0 ≡ true) items h.0 m) q)
]

-- What Seek finds is one of the items.
pub mem-of_seek :
    {V : Type 0} (p : Bytes) (items : List (Bytes × V))
    → found_prefix p (first_from p items) ≡ true
    → (e : Bytes × V) × Memᴰ e items × (has_prefix e.0 p ≡ true)
unfolding found_prefix first_from
mem-of_seek p [] h = cc
mem-of_seek p ((j, v) ∷ items) h = elim (Bool-cases (blt j p)) [
  | inl f ↦ let rest = mem-of_seek p items (rw f at h) in (rest.0, tail rest.1, rest.2)
  | inr f ↦ ((j, v), head refl, (rw f at h))
]
