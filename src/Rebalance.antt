-- ===== src/Rebalance.antt =====
-- internal/rebalance/rebalance.go: the plan that moves chunks and shards to where they belong.
-- Placement and the class resolver are functions given as arguments. An empty list of addresses
-- is Go's nil slice, as ListRuntimeDNsByClass returns it. Rebalance.Migrate executes a plan.
pub mod Migrate
pub mod Sets
pub mod Safety
pub mod Replicas
pub mod Outcome
pub mod Chunks
pub mod Stripes
pub mod Shards
mod Examples
use kvfs.Base.{
  ℕ, suc, ◌+◌, Bool, true, false, not, Option, none, some, List, [], ◌∷◌, ◌++◌, if◌then◌else◌,
  length, ltb, ◌==◌,
}
use kvfs.Base.Text.{Bytes, beq, blt, is_empty}
use kvfs.Base.Assoc.{contains}
use kvfs.Base.Int.{ℤ, pos, ltb_ℤ, ◌+₆₄◌, ◌+ℤ◌, wrap}
use kvfs.Base.Sort.{sort}
use kvfs.Store.{ChunkRef, Stripe, EcParams, ObjectMeta, is_ec}
use kvfs.Base.Call.{Call, ok, failed}

-- The placement that the plan asks the coordinator for.
pub record Placer : Type 0 where
  pub place_chunk : Bytes → List Bytes
  pub place_n : Bytes → ℤ → List Bytes
  pub place_n_from_addrs : Bytes → ℤ → List Bytes → List Bytes

pub data MigrationKind : Type 0 where
  chunk shard : MigrationKind

pub record Migration : Type 0 where
  pub bucket : Bytes
  pub key : Bytes
  pub kind : MigrationKind
  pub chunk_id : Bytes
  pub size : ℤ
  pub chunk_index : ℕ
  pub actual : List Bytes
  pub desired : List Bytes
  pub missing : List Bytes
  pub surplus : List Bytes
  pub stripe_index : ℕ
  pub shard_index : ℕ
  pub old_addr : Bytes
  pub new_addr : Bytes

pub record Plan : Type 0 where
  pub scanned : ℕ
  pub migrations : List Migration

unfoldable pub sorted_copy : List Bytes → List Bytes
sorted_copy addrs = sort blt addrs

unfoldable pub set_diff : List Bytes → List Bytes → List Bytes
set_diff [] b = []
set_diff (x ∷ a) b = let rest = set_diff a b in if contains b x then rest else x ∷ rest

unfoldable pub intersect : List Bytes → List Bytes → List Bytes
intersect [] b = []
intersect (x ∷ a) b = let rest = intersect a b in if contains b x then x ∷ rest else rest

-- The loop of uniqueSorted, with the addresses seen so far.
unfoldable pub unique : List Bytes → List Bytes → List Bytes
unique seen [] = []
unique seen (x ∷ addrs) =
    let skipped = unique seen addrs in
    let kept = unique (x ∷ seen) addrs in if contains seen x then skipped else x ∷ kept

unfoldable pub unique_sorted : List Bytes → List Bytes
unique_sorted addrs = sort blt (unique [] addrs)

-- The largest number of replicas that a chunk has.
unfoldable pub replication_factor : List ChunkRef → ℕ → ℕ
replication_factor [] r = r
replication_factor (c ∷ chunks) r =
    replication_factor chunks (if ltb r (length c.replicas) then length c.replicas else r)

-- The nodes of the class, or none if the class does not apply; no resolver is Go's nil.
unfoldable pub classed_dns : Option (Bytes → Call (List Bytes)) → Bytes → ℤ → List Bytes
classed_dns none label want = []
classed_dns (some list_by_class) label want =
    if is_empty label then [] else elim (list_by_class label) [
      | failed e ↦ []
      | ok dns ↦ if ltb_ℤ (pos (length dns)) want then [] else dns
    ]

-- actualSet: the first replica of every shard that has one.
unfoldable pub shard_addrs : List ChunkRef → List Bytes
shard_addrs [] = []
shard_addrs (sh ∷ shards) = elim sh.replicas [
  | [] ↦ shard_addrs shards
  | a ∷ others ↦ a ∷ shard_addrs shards
]

abbrev pub shard_move : ObjectMeta → ℕ → ℕ → ChunkRef → Bytes → Bytes → Migration
shard_move obj si shi sh addr to = record {
  bucket = obj.bucket;
  key = obj.key;
  kind = shard;
  chunk_id = sh.chunk_id;
  size = sh.size;
  chunk_index = 0;
  actual = [];
  desired = [];
  missing = [];
  surplus = [];
  stripe_index = si;
  shard_index = shi;
  old_addr = addr;
  new_addr = to;
}

-- The loop over the shards of a stripe, with the unused addresses.
unfoldable pub plan_shards :
    ObjectMeta → ℕ → List Bytes → ℕ → List ChunkRef → List Bytes → List Migration
plan_shards obj si desired shi [] unused = []
plan_shards obj si desired shi (sh ∷ shards) [] = []
plan_shards obj si desired shi (sh ∷ shards) (to ∷ unused) =
    let kept = plan_shards obj si desired (suc shi) shards (to ∷ unused) in
    let moved = plan_shards obj si desired (suc shi) shards unused in
    elim sh.replicas [
      | [] ↦ kept
      | addr ∷ others ↦
          if contains desired addr then kept else shard_move obj si shi sh addr to ∷ moved
    ]

module _ (placer : Placer) where
  unfoldable pub desired_chunk : ChunkRef → List Bytes → List Bytes
  desired_chunk c [] = sorted_copy (placer.place_chunk c.chunk_id)
  desired_chunk c (dn ∷ subset) =
      sorted_copy (placer.place_n_from_addrs c.chunk_id (pos (length c.replicas)) (dn ∷ subset))

  unfoldable pub desired_stripe : Stripe → ℤ → List Bytes → List Bytes
  desired_stripe st want [] = placer.place_n st.stripe_id want
  desired_stripe st want (dn ∷ subset) = placer.place_n_from_addrs st.stripe_id want (dn ∷ subset)

  -- The migration of one chunk.
  abbrev pub chunk_move : ObjectMeta → List Bytes → ℕ → ChunkRef → Migration
  chunk_move obj subset ci c =
      let desired = desired_chunk c subset in
      let actual = sorted_copy c.replicas in
      record {
        bucket = obj.bucket;
        key = obj.key;
        kind = chunk;
        chunk_id = c.chunk_id;
        size = c.size;
        chunk_index = ci;
        actual = actual;
        desired = desired;
        missing = set_diff desired actual;
        surplus = set_diff actual desired;
        stripe_index = 0;
        shard_index = 0;
        old_addr = [];
        new_addr = [];
      }

  -- A chunk that misses no node is skipped.
  unfoldable pub plan_chunk : ObjectMeta → List Bytes → ℕ → ChunkRef → List Migration
  plan_chunk obj subset ci c =
      let mg = chunk_move obj subset ci c in if length mg.missing == 0 then [] else mg ∷ []

  unfoldable pub plan_chunks_from : ObjectMeta → List Bytes → ℕ → List ChunkRef → List Migration
  plan_chunks_from obj subset ci [] = []
  plan_chunks_from obj subset ci (c ∷ chunks) =
      plan_chunk obj subset ci c ++ plan_chunks_from obj subset (suc ci) chunks

  unfoldable pub plan_chunks : Option (Bytes → Call (List Bytes)) → ObjectMeta → List Migration
  plan_chunks resolver obj =
      let subset = classed_dns resolver obj.class_label (pos (replication_factor obj.chunks 0)) in
      plan_chunks_from obj subset 0 obj.chunks

  unfoldable pub plan_stripe : ObjectMeta → ℤ → List Bytes → ℕ → Stripe → List Migration
  plan_stripe obj want subset si st =
      let desired = desired_stripe st want subset in
      plan_shards obj si desired 0 st.shards (sort blt (set_diff desired (shard_addrs st.shards)))

  unfoldable pub plan_stripes : ObjectMeta → ℤ → List Bytes → ℕ → List Stripe → List Migration
  plan_stripes obj want subset si [] = []
  plan_stripes obj want subset si (st ∷ stripes) =
      plan_stripe obj want subset si st ++ plan_stripes obj want subset (suc si) stripes

  -- obj.EC.K + obj.EC.M; the caller has checked that obj.EC is there.
  unfoldable pub shard_count : Option EcParams → ℤ
  shard_count none = pos 0
  shard_count (some ec) = ec.k +₆₄ ec.m

  unfoldable pub plan_ec : Option (Bytes → Call (List Bytes)) → ObjectMeta → List Migration
  plan_ec resolver obj =
      let want = shard_count obj.ec in
      plan_stripes obj want (classed_dns resolver obj.class_label want) 0 obj.stripes

  unfoldable pub plan_objects :
      Option (Bytes → Call (List Bytes)) → List ObjectMeta → List Migration
  plan_objects resolver [] = []
  plan_objects resolver (obj ∷ objs) =
      (if is_ec obj then plan_ec resolver obj else plan_chunks resolver obj)
      ++ plan_objects resolver objs

  unfoldable pub compute_plan :
      Option (Bytes → Call (List Bytes)) → Call (List ObjectMeta) → Call Plan
  compute_plan resolver (failed e) = failed e
  compute_plan resolver (ok objs) =
      ok (record { scanned = length objs; migrations = plan_objects resolver objs })
