-- ===== src/Placement/Examples.antt =====
-- The theorems on placement.go at concrete inputs: three nodes in two racks.
use mathlib.Core.List.{Memᴰ, Permᴰ}
use kvfs.Base.{◌++◌, List, [], ◌∷◌, ◌≡◌, refl, min, length}
use kvfs.Base.Text.{Bytes, beq, blt}
use kvfs.Base.Assoc.{contains}
use kvfs.Base.Sort.{sort}
use kvfs.Placement.{
  Node, scored_before, hrw_score, rank, score_node, pick_from_nodes, pick_from_nodes_by_domain,
  spread_walk, domain_walk, fill_walk, record_domain_pick, record_fill_pick,
}
use kvfs.Placement.Rank.{HasDistinctIds}
use kvfs.Placement.Top.{Outranks, pick_from_nodes-tops_lem}
use kvfs.Placement.Spread.{AllDistinct}
use kvfs.Placement.Distinct.{ids, unique-of_AllDistinct}
use kvfs.Placement.Domains.{Spreads, pick_from_nodes_by_domain-Spreads}

-- A hash that is its input.
abbrev toy_hash : Bytes → Bytes
toy_hash s = s

abbrev chunk : Bytes
chunk = b'c' ∷ []

abbrev dn1 : Node
dn1 = record { id = b'1' ∷ []; addr = b'a' ∷ []; domain = b'r' ∷ [] }

abbrev dn2 : Node
dn2 = record { id = b'2' ∷ []; addr = b'b' ∷ []; domain = b's' ∷ [] }

abbrev dn3 : Node
dn3 = record { id = b'3' ∷ []; addr = b'c' ∷ []; domain = b's' ∷ [] }

abbrev nodes : List Node
nodes = dn1 ∷ dn2 ∷ dn3 ∷ []

abbrev others : List Node
others = dn2 ∷ dn1 ∷ dn3 ∷ []

nodes-AllDistinct : AllDistinct (ids nodes)
unfolding contains beq
nodes-AllDistinct = (refl, (refl, (refl, tt)))

nodes-HasDistinctIds : HasDistinctIds nodes
nodes-HasDistinctIds = record { unique = unique-of_AllDistinct nodes nodes-AllDistinct }

-- The higher score first: by this hash, the later identifier.
picks_two : pick_from_nodes toy_hash chunk 2 nodes ≡ dn3 ∷ dn2 ∷ []
unfolding pick_from_nodes rank sort scored_before score_node hrw_score blt
picks_two = refl

-- Over racks the second best node of rack s gives way to the one of rack r.
spreads_two : pick_from_nodes_by_domain toy_hash chunk 2 nodes ≡ dn3 ∷ dn1 ∷ []
unfolding pick_from_nodes_by_domain spread_walk domain_walk fill_walk record_domain_pick
    record_fill_pick rank sort scored_before score_node hrw_score blt contains beq
spreads_two = refl

pick_from_nodes-tops_lem_example :
    (length (pick_from_nodes toy_hash chunk 2 nodes) ≡ min 2 (length nodes))
    × (rest : List Node) × Permᴰ (pick_from_nodes toy_hash chunk 2 nodes ++ rest) nodes
    × ((a b : Node)
        → Memᴰ a (pick_from_nodes toy_hash chunk 2 nodes)
        → Memᴰ b rest
        → Outranks toy_hash chunk a b)
pick_from_nodes-tops_lem_example = pick_from_nodes-tops_lem toy_hash chunk 2 nodes nodes-AllDistinct

pick_from_nodes_by_domain-Spreads_example :
    Spreads nodes (pick_from_nodes_by_domain toy_hash chunk 2 nodes)
pick_from_nodes_by_domain-Spreads_example = pick_from_nodes_by_domain-Spreads toy_hash chunk 2 nodes
