-- ===== src/Placement/Pick.antt =====
-- What PickFromNodes of placement.go returns.
use mathlib.Core.List.{Memᴰ, Permᴰ}
use mathlib.Core.List.{map-append, map-map, map-id}
use kvfs.Base.{
  ℕ, zero, suc, ◌≤◌, min, ◌≡◌, refl, sym, ap, ◌∙◌, false, List, [], ◌∷◌, ◌++◌, map, arith,
  Bool-cases, inl, inr, subst, take, drop, length, length-take, length-map, take-append-drop, ltb,
  if◌then◌else◌, mem-append_right, mem-of_mem_take, suc-beq_zero,
}
use kvfs.Base.Text.{Bytes}
use kvfs.Base.Sort.{IsSorted, IsSorted-split, sort, sort-perm, sort-IsSorted, length-sort, mem-perm}
use kvfs.Placement.{Node, Scored, scored_before, score_node, rank, pick_from_nodes}
use kvfs.Placement.Rank.{HasDistinctIds, scored_before-IsWeakOrder, map-perm, mem-map, rank-perm}

take-of_le {ℓ} : {A : Type ℓ} (n : ℕ) (xs : List A) → length xs ≤ n → take n xs ≡ xs
take-of_le zero [] h = refl
take-of_le zero (x ∷ xs) h = elim h [ ]
take-of_le (suc n) [] h = refl
take-of_le (suc n) (x ∷ xs) h = ap (λ t. x ∷ t) (take-of_le n xs (omega arith))

-- Cutting at the length changes nothing where the length is below n.
take-clamp {ℓ} :
    {A : Type ℓ} (n m : ℕ) (xs : List A)
    → length xs ≡ m
    → take (if ltb m n then m else n) xs ≡ take n xs
take-clamp n m xs e = elim (Bool-cases (ltb m n)) [
  | inl h ↦ rw h (take-of_le m xs (omega arith) ∙ sym (take-of_le n xs (ground arith)))
  | inr h ↦ rw h
]

module _ (sha256 : Bytes → Bytes) (chunk_id : Bytes) where
  length-rank : (nodes : List Node) → length (rank sha256 chunk_id nodes) ≡ length nodes
  unfolding rank
  length-rank nodes =
      length-sort scored_before (map (score_node sha256 chunk_id) nodes)
      ∙ length-map (score_node sha256 chunk_id) nodes

  -- The ranked nodes are the nodes.
  pub rank-node-perm :
      (nodes : List Node) → Permᴰ (map (λ s. s.node) (rank sha256 chunk_id nodes)) nodes
  unfolding rank score_node
  rank-node-perm nodes =
      subst (λ l. Permᴰ (map (λ s. s.node) (rank sha256 chunk_id nodes)) l)
        (map-map (λ (s : Scored). s.node) (score_node sha256 chunk_id) nodes ∙ map-id nodes)
        (map-perm (λ s. s.node) (sort-perm scored_before (map (score_node sha256 chunk_id) nodes)))

  -- The clamp of n and the early returns do not show.
  pick_from_nodes_lem :
      (n : ℕ) (nodes : List Node)
      → pick_from_nodes sha256 chunk_id n nodes
        ≡ map (λ s. s.node) (take n (rank sha256 chunk_id nodes))
  unfolding pick_from_nodes sort
  pick_from_nodes_lem zero [] = refl
  pick_from_nodes_lem (suc n) [] = unfold rank in refl
  pick_from_nodes_lem zero (x ∷ xs) = refl
  pick_from_nodes_lem (suc n) (x ∷ xs) = rw suc-beq_zero (
      ap (map (λ s. s.node)) (
        take-clamp (suc n) (length (x ∷ xs)) (rank sha256 chunk_id (x ∷ xs))
          (length-rank (x ∷ xs))))

  -- As many nodes are picked as were asked for, or all of them where there are fewer.
  pub length-pick_from_nodes :
      (n : ℕ) (nodes : List Node)
      → length (pick_from_nodes sha256 chunk_id n nodes) ≡ min n (length nodes)
  length-pick_from_nodes n nodes = rw pick_from_nodes_lem (
      length-map (λ s. s.node) (take n (rank sha256 chunk_id nodes))
      ∙ length-take n (rank sha256 chunk_id nodes)
      ∙ ap (λ k. min n k) (length-rank nodes))

  -- The nodes that are left over, together with the picked ones, are the given nodes, and no node
  -- that is left over ranks before a picked one.
  abbrev left_over : ℕ → List Node → List Scored
  left_over n nodes = drop n (rank sha256 chunk_id nodes)

  split_again :
      (n : ℕ) (nodes : List Node)
      → map (λ s. s.node) (rank sha256 chunk_id nodes)
        ≡ pick_from_nodes sha256 chunk_id n nodes ++ map (λ s. s.node) (left_over n nodes)
  split_again n nodes =
      ap (map (λ s. s.node)) (sym (take-append-drop n (rank sha256 chunk_id nodes)))
      ∙ map-append (λ (s : Scored). s.node) (take n (rank sha256 chunk_id nodes))
          (left_over n nodes)
      ∙ ap (λ l. l ++ map (λ s. s.node) (left_over n nodes)) (sym (pick_from_nodes_lem n nodes))

  rank-IsSorted : (nodes : List Node) → IsSorted scored_before (rank sha256 chunk_id nodes)
  unfolding rank
  rank-IsSorted nodes = sort-IsSorted scored_before scored_before-IsWeakOrder _

  -- What is ranked carries the score of its node.
  rank_score :
      (nodes : List Node) (s : Scored)
      → Memᴰ s (rank sha256 chunk_id nodes)
      → s ≡ score_node sha256 chunk_id s.node
  unfolding rank score_node
  rank_score nodes s m =
      let (x, mx, e) =
        mem-map (score_node sha256 chunk_id) nodes (mem-perm (sort-perm scored_before _) m) in
      e ∙ ap (score_node sha256 chunk_id) (ap (λ (s : Scored). s.node) (sym e))

  mem_of_drop :
      (n : ℕ) (nodes : List Node) {s : Scored}
      → Memᴰ s (left_over n nodes)
      → Memᴰ s (rank sha256 chunk_id nodes)
  mem_of_drop n nodes {s} m =
      subst (λ l. Memᴰ s l) (take-append-drop n (rank sha256 chunk_id nodes))
        (mem-append_right (take n (rank sha256 chunk_id nodes)) (left_over n nodes) m)

  pub pick_from_nodes-best :
      (n : ℕ) (nodes : List Node)
      → Permᴰ
          (pick_from_nodes sha256 chunk_id n nodes ++ map (λ s. s.node) (left_over n nodes))
          nodes
        × ((a b : Node)
            → Memᴰ a (pick_from_nodes sha256 chunk_id n nodes)
            → Memᴰ b (map (λ s. s.node) (left_over n nodes))
            → scored_before (score_node sha256 chunk_id b) (score_node sha256 chunk_id a) ≡ false)
  pick_from_nodes-best n nodes = (
    subst (λ l. Permᴰ l nodes) (split_again n nodes) (rank-node-perm nodes),
    λ a b ma mb.
        let (s, ms, es) =
          mem-map (λ (s : Scored). s.node) _
            (subst (λ l. Memᴰ a l) (pick_from_nodes_lem n nodes) ma) in
        let (t, mt, et) = mem-map (λ (s : Scored). s.node) (left_over n nodes) mb in
        rw
          (
            es,
            et,
            ← rank_score nodes t (mem_of_drop n nodes mt),
            ← rank_score nodes s (mem-of_mem_take n _ ms),
          )
          (IsSorted-split scored_before n (rank sha256 chunk_id nodes) (rank-IsSorted nodes) ms mt),
  )

  -- The order in which the nodes are listed does not matter.
  pick_from_nodes-perm :
      (n : ℕ) {nodes others : List Node}
      → HasDistinctIds nodes
      → Permᴰ nodes others
      → pick_from_nodes sha256 chunk_id n nodes ≡ pick_from_nodes sha256 chunk_id n others
  pick_from_nodes-perm n {nodes} {others} d p =
      pick_from_nodes_lem n nodes
      ∙ ap (λ l. map (λ s. s.node) (take n l)) (rank-perm sha256 chunk_id d p)
      ∙ sym (pick_from_nodes_lem n others)
