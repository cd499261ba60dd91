-- ===== src/Placement.antt =====
-- internal/placement/placement.go: rendezvous hashing. SHA-256 is a parameter, any function from
-- byte strings to byte strings; the map that records used domains and identifiers is a list.
pub mod Rank
pub mod Pick
pub mod Spread
pub mod Distinct
pub mod Fill
pub mod Domains
pub mod Top
mod Examples
use kvfs.Base.{
  ℕ, ◌+◌, ◌*◌, Bool, true, false, ◌||◌, List, [], ◌∷◌, ◌++◌, map, if◌then◌else◌, leb, ltb, ◌==◌,
  length, take, not,
}
use kvfs.Base.Text.{Bytes, beq, blt, is_empty}
use kvfs.Base.Assoc.{contains}
use kvfs.Base.Sort.{sort}

-- A storage node.
pub record Node : Type 0 where
  pub id : Bytes
  pub addr : Bytes
  pub domain : Bytes

pub record Scored : Type 0 where
  pub node : Node
  pub score : ℕ

-- binary.BigEndian.Uint64: the value of the bytes, the first one the highest.
be_from : ℕ → Bytes → ℕ
be_from acc [] = acc
be_from acc (b ∷ bs) = be_from (acc * 256 + b) bs

be_uint64 : Bytes → ℕ
unfolding be_from
be_uint64 bs = be_from 0 (take 8 bs)

-- The comparison that `sort.Slice` is given: higher score first, then the smaller identifier.
unfoldable pub scored_before : Scored → Scored → Bool
scored_before a b =
    if not (a.score == b.score) then ltb b.score a.score else blt a.node.id b.node.id

has_domain : List Node → Bool
unfolding is_empty
has_domain [] = false
has_domain (nd ∷ nodes) = not (is_empty nd.domain) || has_domain nodes

-- The local variables of the two walks of PickFromNodesByDomain.
pub record Walk : Type 0 where
  pub out : List Node
  pub used_domain : List Bytes
  pub used_id : List Bytes

-- out = append(out, s.node) and the two marks
pub record_domain_pick : Walk → Node → Walk
record_domain_pick w nd = record {
  out = w.out ++ nd ∷ [];
  used_domain = nd.domain ∷ w.used_domain;
  used_id = nd.id ∷ w.used_id;
}

pub record_fill_pick : Walk → Node → Walk
record_fill_pick w nd = record w { out = w.out ++ nd ∷ []; used_id = nd.id ∷ w.used_id }

-- The first walk: the best node of each domain, until n are picked.
pub domain_walk : ℕ → List Scored → Walk → Walk
domain_walk n [] w = w
domain_walk n (s ∷ ss) w =
    let rest =
      domain_walk n ss
        (if contains w.used_domain s.node.domain then w else record_domain_pick w s.node) in
    if leb n (length w.out) then w else rest

-- The second walk: the best nodes that are not picked yet, until n are picked.
pub fill_walk : ℕ → List Scored → Walk → Walk
fill_walk n [] w = w
fill_walk n (s ∷ ss) w =
    let rest =
      fill_walk n ss (if contains w.used_id s.node.id then w else record_fill_pick w s.node) in
    if leb n (length w.out) then w else rest

abbrev pub start_walk : Walk
start_walk = record { out = []; used_domain = []; used_id = [] }

-- Both walks over the ranked nodes.
pub spread_walk : ℕ → List Scored → List Node
spread_walk n ss =
    let w = domain_walk n ss start_walk in
    if ltb (length w.out) n then (fill_walk n ss w).out else w.out

module _ (sha256 : Bytes → Bytes) (chunk_id : Bytes) where
  -- The first eight bytes of the hash of chunk_id|node_id.
  pub hrw_score : Bytes → ℕ
  unfolding be_uint64
  hrw_score node_id = be_uint64 (sha256 (chunk_id ++ b'|' ∷ node_id))

  pub score_node : Node → Scored
  score_node nd = record { node = nd; score = hrw_score nd.id }

  -- All nodes, best first.
  pub rank : List Node → List Scored
  unfolding score_node
  rank nodes = sort scored_before (map score_node nodes)

  -- A negative n is the n = 0 of the model: both give no node.
  pub pick_from_nodes : ℕ → List Node → List Node
  pick_from_nodes n [] = []
  pick_from_nodes n nodes =
      let m = (if ltb (length nodes) n then length nodes else n) in
      if n == 0 then [] else map (λ s. s.node) (take m (rank nodes))

  pub pick_from_nodes_by_domain : ℕ → List Node → List Node
  unfolding has_domain
  pick_from_nodes_by_domain n [] = []
  pick_from_nodes_by_domain n nodes =
      let m = (if ltb (length nodes) n then length nodes else n) in
      if n == 0
      then []
      else if not (has_domain nodes)
      then pick_from_nodes m nodes
      else spread_walk m (rank nodes)
