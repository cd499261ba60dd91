-- ===== src/Gc.antt =====
-- internal/gc/gc.go: the plan that lists the chunks to delete, and its execution. What a storage
-- node lists and whether it deletes a chunk are functions given as arguments. Times are integers:
-- nanoseconds for the clock and the minimal age, seconds for a chunk's mtime. The clock is read
-- once.
pub mod Claims
pub mod Planning
pub mod Sweeps
pub mod Running
mod Examples
use kvfs.Base.{
  ℕ, suc, ◌+◌, ◌*◌, ◌/◌, ◌^◌, Bool, true, false, Option, none, some, List, [], ◌∷◌, ◌++◌,
  if◌then◌else◌, length, map, ◌&&◌, ◌||◌, take,
}
use kvfs.Base.Text.{Bytes, beq, blt, is_empty}
use kvfs.Base.Call.{Call, ok, failed}
use kvfs.Base.Assoc.{lookup, insert, contains}
use kvfs.Base.Int.{ℤ, pos, negsuc, minus, neg, ltb_ℤ, wrap, ◌+ℤ◌, ◌+₆₄◌}
use kvfs.Base.Sort.{sort}
use kvfs.Store.{ChunkRef, Stripe, ObjectMeta}

-- map[chunkID]map[addr]bool
abbrev pub Claimed : Type 0
Claimed = List (Bytes × List Bytes)

-- set[addr] = true
unfoldable pub set_addr : List Bytes → Bytes → List Bytes
set_addr set addr = if contains set addr then set else addr ∷ set

unfoldable pub set_addrs : List Bytes → List Bytes → List Bytes
set_addrs [] set = set
set_addrs (addr ∷ addrs) set = set_addrs addrs (set_addr set addr)

-- out[chunkID], an empty set if there is none.
unfoldable pub claimants : Bytes → Claimed → List Bytes
claimants id out = elim (lookup id out) [ none ↦ [] | some set ↦ set ]

-- The closure add of buildClaimedSet.
unfoldable pub add : Claimed → ChunkRef → Claimed
add out c = insert c.chunk_id (set_addrs c.replicas (claimants c.chunk_id out)) out

unfoldable pub add_refs : List ChunkRef → Claimed → Claimed
add_refs [] out = out
add_refs (c ∷ cs) out = add_refs cs (add out c)

unfoldable pub add_stripes : List Stripe → Claimed → Claimed
add_stripes [] out = out
add_stripes (st ∷ stripes) out = add_stripes stripes (add_refs st.shards out)

unfoldable pub add_objects : List ObjectMeta → Claimed → Claimed
add_objects [] out = out
add_objects (o ∷ objs) out = add_objects objs (add_stripes o.stripes (add_refs o.chunks out))

unfoldable pub build_claimed_set : List ObjectMeta → Claimed
build_claimed_set objs = add_objects objs []

-- claimed[id][addr]
unfoldable pub is_claimed : Claimed → Bytes → Bytes → Bool
is_claimed claimed id addr = contains (claimants id claimed) addr

unfoldable pub count_pairs : Claimed → ℕ
count_pairs [] = 0
count_pairs ((id, set) ∷ claimed) = length set + count_pairs claimed

-- What ListChunks says of one chunk on disk.
pub record ChunkInfo : Type 0 where
  pub id : Bytes
  pub size : ℤ
  pub mtime : ℤ

pub record Sweep : Type 0 where
  pub addr : Bytes
  pub chunk_id : Bytes
  pub size : ℤ
  pub age_sec : ℤ

pub record Plan : Type 0 where
  pub scanned : ℕ
  pub claimed_keys : ℕ
  pub sweeps : List Sweep

abbrev default_min_age : ℤ
default_min_age = pos (60 * 10 ^ 9)

unfoldable effective_min_age : ℤ → ℤ
effective_min_age min_age = if ltb_ℤ (pos 0) min_age then min_age else default_min_age

-- Time.Unix: nanoseconds to seconds, rounded down.
abbrev unix : ℤ → ℤ
unix (pos n) = pos (n / 10 ^ 9)
unix (negsuc n) = negsuc (n / 10 ^ 9)

unfoldable pub cutoff : ℤ → ℤ → ℤ
unfolding effective_min_age
cutoff now min_age = unix (now +ℤ neg (effective_min_age min_age))

unfoldable pub sweep_of : ℤ → Bytes → ChunkInfo → Sweep
sweep_of now addr c = record {
  addr = addr;
  chunk_id = c.id;
  size = c.size;
  age_sec = unix now +₆₄ wrap (neg c.mtime);
}

module _ (claimed : Claimed) (now oldest : ℤ) where
  -- The inner loop of ComputePlan, over the chunks of one node.
  unfoldable pub scan_chunks : Bytes → List ChunkInfo → List Sweep
  scan_chunks addr [] = []
  scan_chunks addr (c ∷ cs) =
      let rest = scan_chunks addr cs in
      if is_claimed claimed c.id addr
      then rest
      else if ltb_ℤ oldest c.mtime
      then rest
      else sweep_of now addr c ∷ rest

  -- The outer loop, over the nodes, with the plan so far.
  unfoldable pub scan_nodes : (Bytes → Call (List ChunkInfo)) → List Bytes → Plan → Call Plan
  scan_nodes list_chunks [] plan = ok plan
  scan_nodes list_chunks (addr ∷ addrs) plan = elim (list_chunks addr) [
    | failed e ↦ failed e
    | ok cs ↦ scan_nodes list_chunks addrs (record plan {
      scanned = plan.scanned + length cs;
      sweeps = plan.sweeps ++ scan_chunks addr cs;
    })
  ]

unfoldable pub sweep_before : Sweep → Sweep → Bool
sweep_before a b = if beq a.addr b.addr then blt a.chunk_id b.chunk_id else blt a.addr b.addr

-- The sort at the end of ComputePlan.
unfoldable pub sort_sweeps : Call Plan → Call Plan
sort_sweeps (failed e) = failed e
sort_sweeps (ok plan) = ok (record plan { sweeps = sort sweep_before plan.sweeps })

unfoldable pub compute_plan :
    List Bytes → (Bytes → Call (List ChunkInfo)) → Call (List ObjectMeta) → ℤ → ℤ → Call Plan
unfolding sort_sweeps
compute_plan dns list_chunks (failed e) min_age now = failed e
compute_plan dns list_chunks (ok objs) min_age now =
    let claimed = build_claimed_set objs in
    sort_sweeps (
      scan_nodes claimed now (cutoff now min_age) list_chunks dns
        (record { scanned = 0; claimed_keys = count_pairs claimed; sweeps = [] }))

pub record RunStats : Type 0 where
  pub deleted : ℕ
  pub failed_count : ℕ
  pub bytes_freed : ℤ
  pub errors : List Bytes

-- The message of a worker.
pub data Result : Type 0 where
  freed : ℤ → Result
  error : Bytes → Result

-- idPrefix
unfoldable pub id_prefix : Bytes → Bytes
id_prefix id = take 16 id

-- One worker of Run: none is a successful deletion.
unfoldable pub sweep_one : (Bytes → Bytes → Option Bytes) → Sweep → Result
sweep_one delete_chunk_from s = elim (delete_chunk_from s.addr s.chunk_id) [
  | none ↦ freed s.size
  | some e ↦ error (s.addr ++ b'/' ∷ (id_prefix s.chunk_id ++ b':' ∷ b' ' ∷ e))
]

unfoldable pub count_result : RunStats → Result → RunStats
count_result stats (freed n) = record stats {
  deleted = suc stats.deleted;
  bytes_freed = stats.bytes_freed +₆₄ n;
}
count_result stats (error e) = record stats {
  failed_count = suc stats.failed_count;
  errors = if is_empty e then stats.errors else stats.errors ++ e ∷ [];
}

unfoldable pub collect : List Result → RunStats → RunStats
collect [] stats = stats
collect (r ∷ rs) stats = collect rs (count_result stats r)

-- Run, with the results in the order in which the workers finish.
unfoldable pub run : (Bytes → Bytes → Option Bytes) → List Sweep → RunStats
run delete_chunk_from finished =
    collect (map (sweep_one delete_chunk_from) finished)
      (record { deleted = 0; failed_count = 0; bytes_freed = pos 0; errors = [] })
