-- ===== src/Gc/Examples.antt =====
-- The theorems on gc.go at concrete inputs: one node that holds a claimed chunk and an old chunk
-- that nothing claims.
use mathlib.Core.List.{Memᴰ, Permᴰ}
use kvfs.Base.{
  ◌+◌, true, false, not, Option, none, some, List, [], ◌∷◌, ◌≡◌, ◌↔◌, refl, length, All,
}
use kvfs.Base.Text.{Bytes, beq}
use kvfs.Base.Assoc.{contains, lookup, insert}
use kvfs.Base.Int.{ℤ, pos, ltb_ℤ}
use kvfs.Base.Sort.{sort}
use kvfs.Store.{ObjectMeta}
use kvfs.Base.Call.{Call, ok}
use kvfs.Gc.{
  ChunkInfo, Sweep, Plan, cutoff, sweep_of, compute_plan, build_claimed_set, is_claimed, scan_nodes,
  scan_chunks, count_pairs, add_objects, add_refs, add_stripes, add, set_addrs, set_addr, claimants,
  run,
}
use kvfs.Gc.Claims.{any, object_claims}
use kvfs.Gc.Sweeps.{compute_plan-sweeps_iff, compute_plan-ok_iff}
use kvfs.Gc.Running.{count, deletes, run-counts}

abbrev dn1 : Bytes
dn1 = b'1' ∷ []

abbrev kept : Bytes
kept = b'k' ∷ []

abbrev lost : Bytes
lost = b'l' ∷ []

abbrev object : ObjectMeta
object = record {
  bucket = b'b' ∷ [];
  key = b'o' ∷ [];
  size = pos 4;
  content_type = [];
  etag = [];
  chunks = record { chunk_id = kept; size = pos 4; replicas = dn1 ∷ [] } ∷ [];
  ec = none;
  stripes = [];
  version = pos 1;
  created_at = some (pos 0);
  class_label = [];
  legacy_chunk_id = [];
  legacy_replicas = [];
}

abbrev on_disk : Bytes → Call (List ChunkInfo)
on_disk addr = ok (
    record { id = kept; size = pos 4; mtime = pos 0 }
    ∷ record { id = lost; size = pos 9; mtime = pos 0 }
    ∷ [])

abbrev a_day : ℤ
a_day = pos 86400000000000

abbrev lost_sweep : Sweep
lost_sweep = record { addr = dn1; chunk_id = lost; size = pos 9; age_sec = pos 86400 }

abbrev plan : Plan
plan = record { scanned = 2; claimed_keys = 1; sweeps = lost_sweep ∷ [] }

planned : compute_plan (dn1 ∷ []) on_disk (ok (object ∷ [])) (pos 0) a_day ≡ ok plan
unfolding compute_plan scan_nodes count_pairs sort build_claimed_set scan_chunks add_objects
    is_claimed add_stripes contains add_refs claimants add lookup insert set_addrs beq set_addr
    cutoff sweep_of
planned = refl

compute_plan-sweeps_iff_example : Memᴰ lost_sweep plan.sweeps ↔ (
    (addr : Bytes) × Memᴰ addr (dn1 ∷ [])
    × (cs : List ChunkInfo) × (on_disk addr ≡ ok cs)
    × (c : ChunkInfo) × Memᴰ c cs
    × (any (object_claims c.id addr) (object ∷ []) ≡ false)
    × (ltb_ℤ (cutoff a_day (pos 0)) c.mtime ≡ false)
    × (lost_sweep ≡ sweep_of a_day addr c))
compute_plan-sweeps_iff_example =
    compute_plan-sweeps_iff (dn1 ∷ []) on_disk (object ∷ []) (pos 0) a_day plan lost_sweep planned

compute_plan-ok_iff_example :
    ((p : Plan) × (compute_plan (dn1 ∷ []) on_disk (ok (object ∷ [])) (pos 0) a_day ≡ ok p)) ↔ (
      ((os : List ObjectMeta) × (ok (object ∷ []) ≡ ok os))
      × All (λ addr. (cs : List ChunkInfo) × (on_disk addr ≡ ok cs)) (dn1 ∷ []))
compute_plan-ok_iff_example =
    compute_plan-ok_iff (dn1 ∷ []) on_disk (ok (object ∷ [])) (pos 0) a_day

-- The node deletes nothing but the chunk l.
abbrev disk : Bytes → Bytes → Option Bytes
disk addr id = elim (beq id lost) [ true ↦ none | false ↦ some (b'e' ∷ []) ]

abbrev other_sweep : Sweep
other_sweep = record { addr = dn1; chunk_id = kept; size = pos 4; age_sec = pos 1 }

run-counts_example :
    let stats = run disk (other_sweep ∷ lost_sweep ∷ []) in
    (stats.deleted ≡ count (deletes disk) (lost_sweep ∷ other_sweep ∷ []))
    × (stats.failed_count ≡ count (λ s. not (deletes disk s)) (lost_sweep ∷ other_sweep ∷ []))
    × (length stats.errors ≡ stats.failed_count)
    × (stats.deleted + stats.failed_count ≡ 2)
run-counts_example =
    run-counts disk (lost_sweep ∷ other_sweep ∷ []) (other_sweep ∷ lost_sweep ∷ [])
      (Permᴰ.swap refl refl)
