-- ===== src/Bolt/Listed.antt =====
-- A bucket as a list of items in ascending order of the keys.
use kvfs.Base.{
  true, Option, none, some, List, [], ◌∷◌, ◌≡◌, inl, inr, refl, sym, subst, ap, if◌then◌else◌, All,
  All-of_mem, All-mem, arith, Bool-cases,
}
use kvfs.Base.Text.{Bytes, beq, blt, beq_iff, beq_refl, blt_irrefl, blt_trans, blt_total}
use kvfs.Bolt.{Bolt, IsAscending}
use mathlib.Core.List.{Memᴰ}
use mathlib.Core.List.Memᴰ.{head, tail}

module _ {V : Type 0} where
  unfoldable pub get : Bytes → List (Bytes × V) → Option V
  get j [] = none
  get j ((k, v) ∷ b) = if beq k j then some v else get j b

  unfoldable pub put : Bytes → V → List (Bytes × V) → List (Bytes × V)
  put k v [] = (k, v) ∷ []
  put k v ((j, w) ∷ b) =
      let rest = put k v b in
      if beq k j then (k, v) ∷ b else if blt k j then (k, v) ∷ (j, w) ∷ b else (j, w) ∷ rest

  unfoldable pub del : Bytes → List (Bytes × V) → List (Bytes × V)
  del k [] = []
  del k ((j, w) ∷ b) = let rest = del k b in if beq k j then rest else (j, w) ∷ rest

  get-put :
      (k j : Bytes) (v : V) (b : List (Bytes × V))
      → get j (put k v b) ≡ (if beq k j then some v else get j b)
  unfolding get put
  get-put k j v [] = refl
  get-put k j v ((i, w) ∷ b) =
      ground (arith, beq_iff k j, beq_iff k i, beq_iff i j, get-put k j v b)

  get-del :
      (k j : Bytes) (b : List (Bytes × V)) → get j (del k b) ≡ (if beq k j then none else get j b)
  unfolding get del
  get-del k j [] = ground arith
  get-del k j ((i, w) ∷ b) = ground (arith, beq_iff k j, beq_iff k i, beq_iff i j, get-del k j b)

  All-put :
      (P : Bytes × V → Type 0) (k : Bytes) (v : V) (b : List (Bytes × V))
      → P (k, v)
      → All P b
      → All P (put k v b)
  unfolding put
  All-put P k v [] p h = (p, tt)
  All-put P k v ((j, w) ∷ b) p h = elim (Bool-cases (beq k j)) [
    | inl e ↦ rw e (p, h.1)
    | inr e ↦ rw e (elim (Bool-cases (blt k j)) [
      | inl f ↦ rw f (p, h)
      | inr f ↦ rw f (h.0, All-put P k v b p h.1)
    ])
  ]

  All-del : (P : Bytes × V → Type 0) (k : Bytes) (b : List (Bytes × V)) → All P b → All P (del k b)
  unfolding del
  All-del P k [] h = tt
  All-del P k ((j, w) ∷ b) h = elim (Bool-cases (beq k j)) [
    | inl e ↦ rw e (All-del P k b h.1)
    | inr e ↦ rw e (h.0, All-del P k b h.1)
  ]

  after_smaller :
      (k j : Bytes) (b : List (Bytes × V))
      → blt k j ≡ true
      → All (λ e. blt j e.0 ≡ true) b
      → All (λ e. blt k e.0 ≡ true) b
  after_smaller k j b l h = All-of_mem _ b (λ e m. blt_trans k j e.0 l (All-mem _ b h m))

  put-IsAscending :
      (k : Bytes) (v : V) (b : List (Bytes × V)) → IsAscending b → IsAscending (put k v b)
  unfolding put
  put-IsAscending k v [] h = (tt, tt)
  put-IsAscending k v ((j, w) ∷ b) h = elim (Bool-cases (beq k j)) [
    | inl e ↦ rw e (subst (λ x. All (λ e. blt x e.0 ≡ true) b) (sym ((beq_iff k j).0 e)) h.0, h.1)
    | inr e ↦ rw e (elim (Bool-cases (blt k j)) [
      | inl f ↦ rw f ((f, after_smaller k j b f h.0), h)
      | inr f ↦
          rw f (
            All-put (λ e. blt j e.0 ≡ true) k v b (blt_total k j e f) h.0,
            put-IsAscending k v b h.1,
          )
    ])
  ]

  del-IsAscending : (k : Bytes) (b : List (Bytes × V)) → IsAscending b → IsAscending (del k b)
  unfolding del
  del-IsAscending k [] h = tt
  del-IsAscending k ((j, w) ∷ b) h = elim (Bool-cases (beq k j)) [
    | inl e ↦ rw e (del-IsAscending k b h.1)
    | inr e ↦ rw e (All-del (λ e. blt j e.0 ≡ true) k b h.0, del-IsAscending k b h.1)
  ]

  get-of_mem :
      (k : Bytes) (v : V) (b : List (Bytes × V)) → IsAscending b → Memᴰ (k, v) b → get k b ≡ some v
  unfolding get
  get-of_mem k v [] h m = elim m [ ]
  get-of_mem k v ((j, w) ∷ b) h (head e) =
      let same : k ≡ j = ap (λ p. p.0) e in
      let eq : v ≡ w = ap (λ p. p.1) e in rw (same, beq_refl j, eq) refl
  get-of_mem k v ((j, w) ∷ b) h (tail m) =
      let before : blt j k ≡ true = All-mem (λ e. blt j e.0 ≡ true) b h.0 m in
      ground (arith, beq_iff j k, blt_irrefl k, get-of_mem k v b h.1 m)

  mem-of_get : (k : Bytes) (v : V) (b : List (Bytes × V)) → get k b ≡ some v → Memᴰ (k, v) b
  unfolding get
  mem-of_get k v [] h = cc
  mem-of_get k v ((j, w) ∷ b) h = elim (Bool-cases (beq j k)) [
    | inl e ↦ head (ground (arith, beq_iff j k, e))
    | inr e ↦ tail (mem-of_get k v b (rw e at h))
  ]

-- The items with the order.
abbrev pub Listed : Type 0 → Type 0
Listed V = (b : List (Bytes × V)) × IsAscending b

unfoldable pub listed : Bolt
unfolding get put del put-IsAscending del-IsAscending get-put get-del get-of_mem mem-of_get
    after_smaller All-put All-del
listed = record {
  Bucket = Listed;
  empty = λ V. ([], tt);
  get = λ k b. get k b.0;
  put = λ k v b. (put k v b.0, put-IsAscending k v b.0 b.1);
  del = λ k b. (del k b.0, del-IsAscending k b.0 b.1);
  items = λ b. b.0;
  get-empty = λ V j. refl;
  get-put = λ k j v b. get-put k j v b.0;
  get-del = λ k j b. get-del k j b.0;
  mem-items = λ k v b. (get-of_mem k v b.0 b.1, mem-of_get k v b.0);
  items-IsAscending = λ b. b.1;
}
