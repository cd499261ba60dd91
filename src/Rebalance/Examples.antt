-- ===== src/Rebalance/Examples.antt =====
-- The theorems on rebalance.go at concrete inputs: a cluster whose state is its disks and the
-- replicas of its one chunk, with a node that refuses writes.
use mathlib.Core.List.{Memᴰ}
use mathlib.Core.List.Memᴰ.{head}
use kvfs.Base.{
  ℕ, Bool, true, false, none, some, List, [], ◌∷◌, ◌≡◌, ◌||◌, ◌&&◌, refl, if◌then◌else◌, arith,
}
use kvfs.Base.Text.{Bytes, beq, beq_refl, blt}
use kvfs.Base.Assoc.{contains}
use kvfs.Base.Int.{pos}
use kvfs.Base.Sort.{sort}
use kvfs.Base.Call.{ok}
use kvfs.Placement.Spread.{AllDistinct}
use kvfs.Store.{ChunkRef, Stripe, ObjectMeta}
use kvfs.Rebalance.{
  shard_move, Placer, Migration, set_diff, sorted_copy, classed_dns, desired_chunk, desired_stripe,
  chunk_move, plan_chunk, plan_chunks, plan_chunks_from, plan_stripe, shard_addrs,
}
use kvfs.Rebalance.Migrate.{migrate_shard, Cluster, migrate_chunk}
use kvfs.Rebalance.Safety.{IsFaithful, Backed}
use kvfs.Rebalance.Shards
use kvfs.Rebalance.Shards.{Moved, migrate_shard-Moved}
use kvfs.Rebalance.Outcome.{migrate_chunk-Backed}
use kvfs.Rebalance.Stripes.{new_addrs, plan_stripe-moves_lem}

abbrev d1 : Bytes
d1 = b'1' ∷ []

abbrev d2 : Bytes
d2 = b'2' ∷ []

abbrev d3 : Bytes
d3 = b'3' ∷ []

abbrev id : Bytes
id = b'c' ∷ []

-- The pairs of a node and a chunk on its disk, and the replicas of the chunk.
abbrev State : Type 0
State = List (Bytes × Bytes) × List Bytes

abbrev on_disk : List (Bytes × Bytes) → Bytes → Bytes → Bool
on_disk [] a j = false
on_disk ((b, i) ∷ disks) a j = (beq b a && beq i j) || on_disk disks a j

-- The node 3 is full.
abbrev toy_cluster : Cluster State
toy_cluster = record {
  read_chunk = λ s i from. ok (b'x' ∷ []);
  put_chunk_to = λ s addr i body.
      if beq addr d3 then (s, some (b'f' ∷ [])) else (((addr, i) ∷ s.0, s.1), none);
  update_chunk_replicas = λ s b k i addrs. ((s.0, addrs), none);
  update_shard_replicas = λ s b k i j addrs. (s, none);
}

abbrev holds : State → Bytes → Bytes → Bool
holds s a j = on_disk s.0 a j

abbrev replicas : State → Bytes → Bytes → ℕ → List Bytes
replicas s b k i = s.1

toy_cluster-IsFaithful : IsFaithful toy_cluster holds replicas
toy_cluster-IsFaithful = record {
  put_stores = λ s addr i body h. ground (arith, h, beq_refl addr, beq_refl i);
  put_keeps = λ s addr i body a j h. ground (arith, h);
  put_replicas = λ s addr i body b k n. ground arith;
  update_holds = λ s b k i addrs a j. refl;
  update_sets = λ s b k i addrs h. refl;
  update_fails = λ s b k i addrs e h. absurd (ground (arith, h));
}

-- The chunk is on the nodes 1 and 2 and shall be on 2 and 3.
abbrev ref : ChunkRef
ref = record { chunk_id = id; size = pos 1; replicas = d1 ∷ d2 ∷ [] }

abbrev object : ObjectMeta
object = record {
  bucket = b'b' ∷ [];
  key = b'o' ∷ [];
  size = pos 1;
  content_type = [];
  etag = [];
  chunks = ref ∷ [];
  ec = none;
  stripes = [];
  version = pos 1;
  created_at = some (pos 0);
  class_label = [];
  legacy_chunk_id = [];
  legacy_replicas = [];
}

abbrev placer : Placer
placer = record {
  place_chunk = λ i. d3 ∷ d2 ∷ [];
  place_n = λ i n. d3 ∷ d2 ∷ [];
  place_n_from_addrs = λ i n addrs. addrs;
}

abbrev move : Migration
move = chunk_move placer object [] 0 ref

abbrev before : State
before = ((d1, id) ∷ (d2, id) ∷ [], d1 ∷ d2 ∷ [])

current : (a : Bytes) → contains move.actual a ≡ contains (d1 ∷ d2 ∷ []) a
unfolding sorted_copy sort blt
current a = refl

before-Backed :
    Backed toy_cluster holds replicas toy_cluster-IsFaithful before object.bucket object.key 0 id
unfolding contains
before-Backed a m = ground (arith, m, beq_refl id)

migrate_chunk-Backed_example :
    Backed toy_cluster holds replicas toy_cluster-IsFaithful
      (migrate_chunk toy_cluster move before).0
      object.bucket
      object.key
      0
      id
migrate_chunk-Backed_example =
    migrate_chunk-Backed toy_cluster holds replicas toy_cluster-IsFaithful move before current
      before-Backed

planned : Memᴰ move (plan_chunks placer none object)
unfolding plan_chunks plan_chunks_from plan_chunk set_diff sorted_copy sort blt contains beq
    desired_chunk classed_dns
planned = head refl

abbrev stripe : Stripe
stripe = record { stripe_id = id; shards = ref ∷ []; data_len = pos 0 }

plan_stripe-moves_lem_example :
    let moves = plan_stripe placer object (pos 2) [] 0 stripe in
    AllDistinct (new_addrs moves)
    × ((mg : Migration)
        → Memᴰ mg moves
        → (contains (desired_stripe placer stripe (pos 2) []) mg.new_addr ≡ true)
          × (contains (shard_addrs stripe.shards) mg.new_addr ≡ false)
          × (contains (desired_stripe placer stripe (pos 2) []) mg.old_addr ≡ false))
plan_stripe-moves_lem_example =
    plan_stripe-moves_lem placer object (pos 2) [] 0 stripe
      (unfold desired_stripe contains beq in (refl, (refl, tt)))

-- The same with the replicas of a shard in the place of those of the chunk.
abbrev shard_cluster : Cluster State
shard_cluster = record {
  read_chunk = λ s i from. ok (b'x' ∷ []);
  put_chunk_to = λ s addr i body. (((addr, i) ∷ s.0, s.1), none);
  update_chunk_replicas = λ s b k i addrs. (s, none);
  update_shard_replicas = λ s b k i j addrs. ((s.0, addrs), none);
}

abbrev shard_replicas : State → Bytes → Bytes → ℕ → ℕ → List Bytes
shard_replicas s b k i j = s.1

shard_cluster-IsFaithful : Shards.IsFaithful shard_cluster holds shard_replicas
shard_cluster-IsFaithful = record {
  put_stores = λ s addr i body h. ground (arith, beq_refl addr, beq_refl i);
  put_replicas = λ s addr i body b k n m. refl;
  update_holds = λ s b k i j addrs a n. refl;
  update_sets = λ s b k i j addrs h. refl;
  update_fails = λ s b k i j addrs e h. absurd (ground (arith, h));
}

abbrev shard_to_move : Migration
shard_to_move = shard_move object 0 0 ref d1 d2

migrate_shard-Moved_example :
    Moved shard_cluster holds shard_replicas shard_cluster-IsFaithful shard_to_move before
      (migrate_shard shard_cluster shard_to_move before)
migrate_shard-Moved_example =
    migrate_shard-Moved shard_cluster holds shard_replicas shard_cluster-IsFaithful shard_to_move
      before
