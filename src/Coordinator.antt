-- ===== src/Coordinator.antt =====
-- internal/coordinator/coordinator.go: the placement of chunks and the quorum of their writes. The
-- requests to the nodes are parameters: the answers of a fan-out, in the order in which they arrive,
-- and what a node says to a GET or a DELETE.
pub mod Acks
pub mod ReadBack
mod Examples
use kvfs.Base.{
  ℕ, zero, suc, ◌+◌, ◌/◌, Bool, true, false, Option, none, some, List, [], ◌∷◌, ◌++◌, map, ltb,
  length, min, if◌then◌else◌,
}
use kvfs.Base.Text.{Bytes}
use kvfs.Base.Int.{ℤ, pos, negsuc}
use kvfs.Base.Call.{Call, ok, failed}
use kvfs.Placement.{Node, pick_from_nodes, pick_from_nodes_by_domain}

-- The part of the configuration that the quorum depends on.
pub record Config : Type 0 where
  pub nodes : List Node
  pub replication_factor : ℤ
  pub quorum_write : ℤ

-- New makes both numbers positive.
pub record Coordinator : Type 0 where
  pub nodes : List Node
  pub replication_factor : ℕ
  pub quorum_write : ℕ

-- The errors, with the numbers and texts that their messages print.
pub data Refusal : Type 0 where
  no_nodes : Refusal
  factor_over_nodes : ℕ → ℕ → Refusal
  quorum_over_factor : ℕ → ℕ → Refusal
  no_targets : Refusal
  invalid_quorum : ℤ → Refusal
  quorum_over_targets : ℕ → ℕ → Refusal
  quorum_not_reached : ℕ → ℕ → List (Bytes × Bytes) → Refusal

pub data Built : Type 0 where
  built : Coordinator → Built
  refused : Refusal → Built

-- The number itself where it is positive, else the default.
unfoldable pub positive_or : ℤ → ℕ → ℕ
positive_or (pos zero) d = d
positive_or (pos (suc n)) d = suc n
positive_or (negsuc n) d = d

-- New
unfoldable pub new_coordinator : Config → Built
unfolding positive_or
new_coordinator cfg =
    let r = positive_or cfg.replication_factor (min 3 (length cfg.nodes)) in
    let q = positive_or cfg.quorum_write (suc (r / 2)) in
    elim cfg.nodes [
      | [] ↦ refused no_nodes
      | nd ∷ nodes ↦
          if ltb (length cfg.nodes) r
          then refused (factor_over_nodes r (length cfg.nodes))
          else if ltb r q
          then refused (quorum_over_factor q r)
          else built (record { nodes = cfg.nodes; replication_factor = r; quorum_write = q })
    ]

abbrev pub node_at : Bytes → Node
node_at a = record { id = a; addr = a; domain = [] }

-- NewWithAddrs
unfoldable pub new_with_addrs : List Bytes → ℤ → ℤ → Built
new_with_addrs addrs r q =
    new_coordinator (record { nodes = map node_at addrs; replication_factor = r; quorum_write = q })

-- DNs
unfoldable pub dns : Coordinator → List Bytes
dns c = map (λ nd. nd.addr) c.nodes

-- UpdateNodes
unfoldable update_nodes : List Node → Coordinator → Built
update_nodes [] c = refused no_nodes
update_nodes (nd ∷ nodes) c =
    if ltb (length (nd ∷ nodes)) c.replication_factor
    then refused (factor_over_nodes c.replication_factor (length (nd ∷ nodes)))
    else built (record c { nodes = nd ∷ nodes })

-- What one goroutine of a fan-out sends: the address and how its PUT ended.
pub record Answer : Type 0 where
  pub addr : Bytes
  pub outcome : Call (Unit {0})

-- What a write returns: the addresses that acked, and the error where there is one.
pub record Written : Type 0 where
  pub acks : List Bytes
  pub error : Option Refusal

unfoldable pub acks_of : List Answer → List Bytes
acks_of [] = []
acks_of (a ∷ answers) = elim a.outcome [
  | ok u ↦ a.addr ∷ acks_of answers
  | failed e ↦ acks_of answers
]

unfoldable errors_of : List Answer → List (Bytes × Bytes)
errors_of [] = []
errors_of (a ∷ answers) = elim a.outcome [
  | ok u ↦ errors_of answers
  | failed e ↦ (a.addr, e) ∷ errors_of answers
]

-- The loop over the results of a fan-out, and the test of the quorum.
unfoldable pub count_acks : ℕ → List Answer → Written
unfolding acks_of errors_of
count_acks w answers =
    let acks = acks_of answers in
    if ltb (length acks) w
    then record {
      acks = acks;
      error = some (quorum_not_reached (length acks) w (errors_of answers));
    }
    else record { acks = acks; error = none }

-- The default stands in for 0.
unfoldable pub quorum_of : Coordinator → ℤ → ℕ
quorum_of c (pos zero) = c.quorum_write
quorum_of c (pos (suc n)) = suc n
quorum_of c (negsuc n) = 0

module _ (fan_out : List Bytes → List Answer) where
  -- WriteChunkToAddrsW
  unfoldable pub write_chunk_to_addrs_w : Coordinator → List Bytes → ℤ → Written
  unfolding quorum_of
  write_chunk_to_addrs_w c [] w = record { acks = []; error = some no_targets }
  write_chunk_to_addrs_w c (t ∷ targets) (negsuc n) = record {
    acks = [];
    error = some (invalid_quorum (negsuc n));
  }
  write_chunk_to_addrs_w c (t ∷ targets) (pos n) =
      let w = quorum_of c (pos n) in
      if ltb (length (t ∷ targets)) w
      then record { acks = []; error = some (quorum_over_targets w (length (t ∷ targets))) }
      else count_acks w (fan_out (t ∷ targets))

  -- WriteChunkToAddrs
  unfoldable write_chunk_to_addrs : Coordinator → List Bytes → Written
  write_chunk_to_addrs c targets = write_chunk_to_addrs_w c targets (pos 0)

module _ (sha256 : Bytes → Bytes) where
  -- PlaceN
  unfoldable pub place_n : Coordinator → Bytes → ℕ → List Bytes
  place_n c key n = map (λ nd. nd.addr) (pick_from_nodes_by_domain sha256 key n c.nodes)

  -- PlaceChunk
  unfoldable pub place_chunk : Coordinator → Bytes → List Bytes
  place_chunk c chunk_id = place_n c chunk_id c.replication_factor

  -- PlaceNFromAddrs, of an n that is not negative
  unfoldable pub place_n_from_addrs : Bytes → ℕ → List Bytes → List Bytes
  place_n_from_addrs key n addrs =
      map (λ nd. nd.addr) (pick_from_nodes sha256 key n (map node_at addrs))

  -- WriteChunk
  unfoldable write_chunk : (List Bytes → List Answer) → Coordinator → Bytes → Written
  write_chunk fan_out c chunk_id = elim (place_chunk c chunk_id) [
    | [] ↦ record { acks = []; error = some no_targets }
    | t ∷ targets ↦ count_acks c.quorum_write (fan_out (t ∷ targets))
  ]

pub data Fetched : Type 0 where
  found : Bytes → Bytes → Fetched
  all_failed : Option Bytes → Fetched

-- ReadChunk: the body and the address of the first candidate that answers, else the last error.
unfoldable pub read_from : (Bytes → Call Bytes) → List Bytes → Option Bytes → Fetched
read_from get [] last = all_failed last
read_from get (addr ∷ candidates) last = elim (get addr) [
  | ok body ↦ found body addr
  | failed e ↦ read_from get candidates (some e)
]

unfoldable pub read_chunk : (Bytes → Call Bytes) → List Bytes → Fetched
unfolding read_from
read_chunk get candidates = read_from get candidates none

-- DeleteChunk: the replicas that did not answer, with their errors.
unfoldable delete_chunk : (Bytes → Call (Unit {0})) → List Bytes → List (Bytes × Bytes)
delete_chunk delete [] = []
delete_chunk delete (addr ∷ replicas) = elim (delete addr) [
  | ok u ↦ delete_chunk delete replicas
  | failed e ↦ (addr, e) ∷ delete_chunk delete replicas
]
