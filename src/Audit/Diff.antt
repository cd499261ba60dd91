-- ===== src/Audit/Diff.antt =====
-- The walk with two pointers of symmetricDiff finds the two differences of ascending lists.
use kvfs.Base.{true, false, List, [], ◌∷◌, ◌≡◌, inl, inr, refl, ◌&&◌, not, All, arith, Bool-cases}
use kvfs.Base.Text.{Bytes, blt, beq_iff, blt_irrefl, blt_trans, blt_total}
use kvfs.Base.Assoc.{contains}
use kvfs.Audit.{symmetric_diff}

-- Strictly ascending: what a sorted list without duplicates is.
abbrev pub Ascends : List Bytes → Type 0
Ascends [] = Unit
Ascends (x ∷ xs) = All (λ y. blt x y ≡ true) xs × Ascends xs

not_contains_above :
    (x : Bytes) (ys : List Bytes) → All (λ y. blt x y ≡ true) ys → contains ys x ≡ false
unfolding contains
not_contains_above x [] h = refl
not_contains_above x (y ∷ ys) h =
    ground (arith, h.0, beq_iff y x, blt_irrefl x, not_contains_above x ys h.1)

above_trans :
    (x y : Bytes) (ys : List Bytes)
    → blt x y ≡ true
    → All (λ z. blt y z ≡ true) ys
    → All (λ z. blt x z ≡ true) ys
above_trans x y [] l h = tt
above_trans x y (z ∷ ys) l h = (blt_trans x y z l h.0, above_trans x y ys l h.1)

-- A string before the first of an ascending list is not in it.
not_contains_before :
    (x y : Bytes) (ys : List Bytes)
    → blt x y ≡ true
    → Ascends (y ∷ ys)
    → contains (y ∷ ys) x ≡ false
not_contains_before x y ys l h = not_contains_above x (y ∷ ys) (l, above_trans x y ys l h.0)

same_of : (x y : Bytes) → blt x y ≡ false → blt y x ≡ false → x ≡ y
same_of x y p q = ground (arith, blt_total x y, beq_iff x y)

-- The first list of the walk is a without b, the second b without a.
pub symmetric_diff-contains :
    (a b : List Bytes) (z : Bytes)
    → Ascends a
    → Ascends b
    → (contains (symmetric_diff a b).0 z ≡ (contains a z && not (contains b z)))
      × (contains (symmetric_diff a b).1 z ≡ (contains b z && not (contains a z)))
unfolding symmetric_diff contains
symmetric_diff-contains [] b z ha hb = (refl, ground arith)
symmetric_diff-contains (x ∷ a) [] z ha hb = (ground arith, refl)
symmetric_diff-contains (x ∷ a) (y ∷ b) z ha hb = elim (Bool-cases (blt x y)) [
  | inl l ↦
      (let rest = symmetric_diff-contains a (y ∷ b) z ha.1 hb in
        let apart = not_contains_before x y b l hb in
        rw l
          (ground (arith, rest.0, apart, beq_iff x z), ground (arith, rest.1, apart, beq_iff x z)))
  | inr l ↦ elim (Bool-cases (blt y x)) [
    | inl r ↦
        (let rest = symmetric_diff-contains (x ∷ a) b z ha hb.1 in
          let apart = not_contains_before y x a r ha in
          rw (l, r)
            (
              ground (arith, rest.0, apart, beq_iff y z),
              ground (arith, rest.1, apart, beq_iff y z),
            ))
    | inr r ↦
        (let rest = symmetric_diff-contains a b z ha.1 hb.1 in
          let same = same_of x y l r in
          let in_a = not_contains_above x a ha.0 in
          let in_b = not_contains_above y b hb.0 in
          rw (l, r)
            (
              ground (arith, rest.0, in_a, in_b, same, beq_iff x z, beq_iff y z),
              ground (arith, rest.1, in_a, in_b, same, beq_iff x z, beq_iff y z),
            ))
  ]
]
