-- ===== src/Placement/Top.antt =====
-- PickFromNodes of placement.go picks the nodes of the highest scores.
use mathlib.Core.List.{Memᴰ, Permᴰ}
use mathlib.Core.List.Permᴰ
use mathlib.Core.List.Memᴰ.{head, tail}
use kvfs.Base.{
  min, ℕ, ◌<◌, true, false, List, [], ◌∷◌, ◌++◌, ◌≡◌, ◌⊎◌, inl, inr, ap, length, arith, Bool-cases,
  mem-append_right,
}
use kvfs.Base.Text.{Bytes, beq, blt, beq_iff, blt_total}
use kvfs.Placement.Rank.{map-perm}
use kvfs.Placement.{Node, scored_before, hrw_score, score_node, pick_from_nodes}
use kvfs.Placement.Pick.{length-pick_from_nodes, pick_from_nodes-best}
use kvfs.Placement.Spread.{AllDistinct}
use kvfs.Placement.Distinct.{ids, mem-ids}
use kvfs.Placement.Domains.{AllDistinct-perm}

-- The members of two parts of a list of different strings differ.
ids_differ :
    (xs ys : List Node) (a b : Node)
    → AllDistinct (ids (xs ++ ys))
    → Memᴰ a xs
    → Memᴰ b ys
    → beq a.id b.id ≡ false
ids_differ [] ys a b d ma mb = elim ma [ ]
ids_differ (x ∷ xs) ys a b d (head e) mb = elim (Bool-cases (beq a.id b.id)) [
  | inr r ↦ r
  | inl r ↦ absurd (
      cc (
        d.0,
        mem-ids (xs ++ ys) b (mem-append_right xs ys mb),
        ap (λ (n : Node). n.id) e,
        (beq_iff a.id b.id).0 r,
      ))
]
ids_differ (x ∷ xs) ys a b d (tail m) mb = ids_differ xs ys a b d.1 m mb

module _ (sha256 : Bytes → Bytes) (chunk_id : Bytes) where
  -- The score of the first is higher, or the scores are equal and its identifier is the smaller one.
  abbrev pub Outranks : Node → Node → Type 0
  Outranks a b =
      (hrw_score sha256 chunk_id b.id < hrw_score sha256 chunk_id a.id)
      ⊎ ((hrw_score sha256 chunk_id b.id ≡ hrw_score sha256 chunk_id a.id) × (blt a.id b.id ≡ true))

  -- Among nodes of different identifiers as many are picked as were asked for, or all where there are
  -- fewer; with some rest they are the nodes given, and each of them outranks each node of the rest:
  -- its score for the chunk is higher, or it is equal and its identifier is the smaller one.
  pub pick_from_nodes-tops_lem :
      (n : ℕ) (nodes : List Node)
      → AllDistinct (ids nodes)
      → (length (pick_from_nodes sha256 chunk_id n nodes) ≡ min n (length nodes))
        × (rest : List Node) × Permᴰ (pick_from_nodes sha256 chunk_id n nodes ++ rest) nodes
        × ((a b : Node)
            → Memᴰ a (pick_from_nodes sha256 chunk_id n nodes)
            → Memᴰ b rest
            → Outranks a b)
  unfolding scored_before score_node
  pick_from_nodes-tops_lem n nodes d =
      let (same, best) = pick_from_nodes-best sha256 chunk_id n nodes in
      let parts = AllDistinct-perm (map-perm (λ (x : Node). x.id) (Permᴰ.symm same)) d in
      (
        length-pick_from_nodes sha256 chunk_id n nodes,
        _,
        same,
        λ a b ma mb. ground (
          arith,
          best a b ma mb,
          ids_differ _ _ a b parts ma mb,
          blt_total a.id b.id,
          beq_iff a.id b.id,
        ),
      )
