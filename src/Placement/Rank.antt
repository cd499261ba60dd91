-- ===== src/Placement/Rank.antt =====
-- The ranking of placement.go: its comparison is a strict order with ties only between equal
-- identifiers, so the ranking does not depend on the order in which the nodes are listed.
use mathlib.Core.List.{Memᴰ, Permᴰ}
use mathlib.Core.List.Memᴰ.{head, tail}
use kvfs.Base.{◌≡◌, refl, sym, ap, ◌∙◌, false, true, List, [], ◌∷◌, map, arith}
use kvfs.Base.Text.{Bytes, beq_iff, blt_irrefl, blt_trans, blt_total, blt_neg_trans}
use kvfs.Base.Sort.{IsWeakOrder, sort-eq-of_perm}
use kvfs.Placement.{Node, Scored, scored_before, score_node, rank}

scored_before_asym : (a b : Scored) → scored_before a b ≡ true → scored_before b a ≡ false
unfolding scored_before
scored_before_asym a b h =
    ground (arith, blt_trans a.node.id b.node.id a.node.id, blt_irrefl a.node.id)

scored_before_neg_trans :
    (a b c : Scored)
    → scored_before a b ≡ false
    → scored_before b c ≡ false
    → scored_before a c ≡ false
unfolding scored_before
scored_before_neg_trans a b c p q = ground (arith, blt_neg_trans a.node.id b.node.id c.node.id)

pub scored_before-IsWeakOrder : IsWeakOrder scored_before
scored_before-IsWeakOrder = record {
  asym = scored_before_asym;
  neg_trans = scored_before_neg_trans;
}

-- A tie is between nodes with one identifier.
tie-id :
    (a b : Scored) → scored_before a b ≡ false → scored_before b a ≡ false → a.node.id ≡ b.node.id
unfolding scored_before
tie-id a b p q = ground (arith, blt_total a.node.id b.node.id, beq_iff a.node.id b.node.id)

-- No two different nodes of the list share an identifier.
pub record HasDistinctIds (nodes : List Node) : Type 0 where
  pub unique : (a b : Node) → Memᴰ a nodes → Memᴰ b nodes → a.id ≡ b.id → a ≡ b

pub map-perm {ℓ κ} :
    {A : Type ℓ} {B : Type κ} (f : A → B) {xs ys : List A}
    → Permᴰ xs ys
    → Permᴰ (map f xs) (map f ys)
map-perm f Permᴰ.nil = Permᴰ.nil
map-perm f (Permᴰ.cons e d) = Permᴰ.cons (ap f e) (map-perm f d)
map-perm f (Permᴰ.swap e₁ e₂) = Permᴰ.swap (ap f e₁) (ap f e₂)
map-perm f (Permᴰ.trans d₁ d₂) = Permᴰ.trans (map-perm f d₁) (map-perm f d₂)

pub mem-map {ℓ κ} :
    {A : Type ℓ} {B : Type κ} (f : A → B) {b : B} (xs : List A)
    → Memᴰ b (map f xs)
    → (a : A) × Memᴰ a xs × (b ≡ f a)
mem-map f [] m = elim m [ ]
mem-map f (x ∷ xs) (head e) = (x, head refl, e)
mem-map f (x ∷ xs) (tail m) = let (a, ma, e) = mem-map f xs m in (a, tail ma, e)

module _ (sha256 : Bytes → Bytes) (chunk_id : Bytes) where
  scored_tie :
      (nodes : List Node)
      → HasDistinctIds nodes
      → (a b : Scored) → Memᴰ a (map (score_node sha256 chunk_id) nodes)
      → Memᴰ b (map (score_node sha256 chunk_id) nodes)
      → scored_before a b ≡ false
      → scored_before b a ≡ false
      → a ≡ b
  unfolding score_node
  scored_tie nodes d a b ma mb p q =
      let (x, mx, ex) = mem-map (score_node sha256 chunk_id) nodes ma in
      let (y, my, ey) = mem-map (score_node sha256 chunk_id) nodes mb in
      ex
      ∙ ap (score_node sha256 chunk_id) (
          d.unique x y mx my (
            ap (λ (s : Scored). s.node.id) (sym ex)
            ∙ tie-id a b p q
            ∙ ap (λ (s : Scored). s.node.id) ey))
      ∙ sym ey

  pub rank-perm :
      {nodes others : List Node}
      → HasDistinctIds nodes
      → Permᴰ nodes others
      → rank sha256 chunk_id nodes ≡ rank sha256 chunk_id others
  unfolding rank
  rank-perm {nodes} d p =
      sort-eq-of_perm scored_before scored_before-IsWeakOrder (scored_tie nodes d)
        (map-perm (score_node sha256 chunk_id) p)
