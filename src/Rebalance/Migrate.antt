-- ===== src/Rebalance/Migrate.antt =====
-- internal/rebalance/rebalance.go: the execution of a plan. The cluster, its nodes' disks and its
-- metadata, is a state that the coordinator's and the store's operations take and return.
use kvfs.Base.{
  ℕ, suc, Bool, true, false, Option, none, some, List, [], ◌∷◌, ◌++◌, if◌then◌else◌, length, ◌==◌,
  ◌||◌,
}
use kvfs.Base.Text.{Bytes, is_empty}
use kvfs.Base.Int.{ℤ, pos, ◌+₆₄◌}
use kvfs.Base.Call.{Call, ok, failed}
use kvfs.Rebalance.{Migration, chunk, shard, intersect, unique_sorted}

-- The operations of Coordinator and ObjectStore that Run calls.
pub record Cluster (S : Type 0) : Type 0 where
  pub read_chunk : S → Bytes → List Bytes → Call Bytes
  pub put_chunk_to : S → Bytes → Bytes → Bytes → S × Option Bytes
  pub update_chunk_replicas : S → Bytes → Bytes → ℕ → List Bytes → S × Option Bytes
  pub update_shard_replicas : S → Bytes → Bytes → ℕ → ℕ → List Bytes → S × Option Bytes

-- What went wrong; the texts carry the causes.
pub data MigrateError : Type 0 where
  no_actual missing_addr : MigrateError
  read_source put_failed update_meta : Bytes → MigrateError
  partial_copy : List (Bytes × Bytes) → MigrateError

pub record MigrateResult : Type 0 where
  pub is_ok : Bool
  pub bytes_copied : ℤ
  pub err : Option MigrateError

abbrev pub failure : ℤ → MigrateError → MigrateResult
failure n e = record { is_ok = false; bytes_copied = n; err = some e }

abbrev pub success : ℤ → MigrateResult
success n = record { is_ok = true; bytes_copied = n; err = none }

-- The variables of the copy loop: the cluster, successfulMissing, copyErrs, bytesCopied.
pub record Copying (S : Type 0) : Type 0 where
  pub state : S
  pub successful : List Bytes
  pub copy_errs : List (Bytes × Bytes)
  pub bytes_copied : ℤ

module _ {S : Type 0} (cluster : Cluster S) where
  -- What one PutChunkTo of the loop changes.
  unfoldable pub copied : Bytes → Bytes → Copying S → S × Option Bytes → Copying S
  copied dst body w (t, none) = record w {
    state = t;
    successful = w.successful ++ dst ∷ [];
    bytes_copied = w.bytes_copied +₆₄ pos (length body);
  }
  copied dst body w (t, some e) = record w { state = t; copy_errs = w.copy_errs ++ (dst, e) ∷ [] }

  unfoldable pub copy_to : Bytes → Bytes → List Bytes → Copying S → Copying S
  copy_to id body [] w = w
  copy_to id body (dst ∷ missing) w =
      copy_to id body missing (copied dst body w (cluster.put_chunk_to w.state dst id body))

  unfoldable pub final_replicas : Migration → Copying S → List Bytes
  final_replicas mg w = elim w.copy_errs [
    | [] ↦ unique_sorted (intersect mg.actual mg.desired ++ w.successful)
    | e ∷ errs ↦ unique_sorted (mg.actual ++ w.successful)
  ]

  unfoldable pub chunk_result : Copying S → Option Bytes → MigrateResult
  chunk_result w (some e) = failure w.bytes_copied (update_meta e)
  chunk_result w none = elim w.copy_errs [
    | [] ↦ success w.bytes_copied
    | e ∷ errs ↦ failure w.bytes_copied (partial_copy (e ∷ errs))
  ]

  unfoldable pub finish_chunk : Migration → Copying S → S × MigrateResult
  finish_chunk mg w =
      let (t, updated) =
        cluster.update_chunk_replicas w.state mg.bucket mg.key mg.chunk_index
          (final_replicas mg w) in
      (t, chunk_result w updated)

  unfoldable pub start_copying : S → Copying S
  start_copying s = record { state = s; successful = []; copy_errs = []; bytes_copied = pos 0 }

  unfoldable pub migrate_chunk : Migration → S → S × MigrateResult
  migrate_chunk mg s =
      if length mg.actual == 0
      then (s, failure (pos 0) no_actual)
      else elim (cluster.read_chunk s mg.chunk_id mg.actual) [
        | failed e ↦ (s, failure (pos 0) (read_source e))
        | ok body ↦ finish_chunk mg (copy_to mg.chunk_id body mg.missing (start_copying s))
      ]

  -- The end of migrateShard, after the copy.
  unfoldable pub finish_shard : Migration → Bytes → S × Option Bytes → S × MigrateResult
  finish_shard mg body (t, some e) = (t, failure (pos 0) (put_failed e))
  finish_shard mg body (t, none) =
      let (u, updated) =
        cluster.update_shard_replicas t mg.bucket mg.key mg.stripe_index mg.shard_index
          (mg.new_addr ∷ []) in
      elim updated [
        | none ↦ (u, success (pos (length body)))
        | some e ↦ (u, failure (pos (length body)) (update_meta e))
      ]

  unfoldable pub migrate_shard : Migration → S → S × MigrateResult
  migrate_shard mg s =
      if is_empty mg.old_addr || is_empty mg.new_addr
      then (s, failure (pos 0) missing_addr)
      else elim (cluster.read_chunk s mg.chunk_id (mg.old_addr ∷ [])) [
        | failed e ↦ (s, failure (pos 0) (read_source e))
        | ok body ↦ finish_shard mg body (cluster.put_chunk_to s mg.new_addr mg.chunk_id body)
      ]

  unfoldable pub migrate_one : Migration → S → S × MigrateResult
  migrate_one mg s = elim mg.kind [ shard ↦ migrate_shard mg s | chunk ↦ migrate_chunk mg s ]

pub record RunStats : Type 0 where
  pub migrated : ℕ
  pub failed_count : ℕ
  pub bytes_copied : ℤ
  pub errors : List MigrateError

unfoldable pub count_result : RunStats → MigrateResult → RunStats
count_result stats r = record {
  migrated = if r.is_ok then suc stats.migrated else stats.migrated;
  failed_count = if r.is_ok then stats.failed_count else suc stats.failed_count;
  bytes_copied = stats.bytes_copied +₆₄ r.bytes_copied;
  errors = elim r.err [ none ↦ stats.errors | some e ↦ stats.errors ++ e ∷ [] ];
}

-- Run with the workers one after the other, in the order in which they are given.
module _ {S : Type 0} (cluster : Cluster S) where
  unfoldable pub run_from : List Migration → S → RunStats → S × RunStats
  run_from [] s stats = (s, stats)
  run_from (mg ∷ mgs) s stats =
      let (t, r) = migrate_one cluster mg s in run_from mgs t (count_result stats r)

  unfoldable pub run : List Migration → S → S × RunStats
  run mgs s =
      run_from mgs s (record { migrated = 0; failed_count = 0; bytes_copied = pos 0; errors = [] })
