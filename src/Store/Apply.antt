-- ===== src/Store/Apply.antt =====
-- internal/store/wal.go: how a follower applies entries of the leader's WAL.
use kvfs.Base.{true, false, Option, none, some, List, [], ◌∷◌}
use kvfs.Base.Int.{ℤ}
use kvfs.Bolt.{Bolt}
use kvfs.Store.Objects.{put_object_full, delete_object_internal}
use kvfs.Store.Buckets.{create_bucket_replay, delete_bucket_internal}
use kvfs.Store.Multipart.{put_upload_replay, put_part_internal}
use kvfs.Store.Complete.{complete_replay, abort_tx}
use kvfs.Store.Nodes.{add_runtime_dn_internal, remove_runtime_dn_internal}
use kvfs.Store.{
  Error, Result, Entry, Io, MetaStore, commit, without_log, not_found, unknown_op, undecodable,
  done, fail, put_object_entry, delete_object_entry, create_bucket_entry, delete_bucket_entry,
  create_upload_entry, put_part_entry, complete_entry, abort_entry, add_dn_entry, remove_dn_entry,
  unknown_entry, undecodable_entry,
}

module _ (bolt : Bolt) where
  -- Only whether a call succeeded.
  unfoldable pub forget : {A : Type 0} → MetaStore bolt × Result A → MetaStore bolt × Option Error
  forget (m, done a) = (m, none)
  forget (m, fail e) = (m, some e)

  -- The replay of an abort: an upload that is not there is no error.
  unfoldable pub abort_replayed :
      {A : Type 0} → MetaStore bolt × Result A → MetaStore bolt × Option Error
  abort_replayed (m, done a) = (m, none)
  abort_replayed (m, fail not_found) = (m, none)
  abort_replayed (m, fail e) = (m, some e)

  -- ApplyEntry, with the environment's answers and the clock.
  unfoldable pub apply_entry : Io → ℤ → Entry → MetaStore bolt → MetaStore bolt × Option Error
  unfolding abort_replayed
  apply_entry io now (put_object_entry obj) m =
      forget (put_object_full bolt false true io now obj m)
  apply_entry io now (delete_object_entry bucket key) m =
      forget (delete_object_internal bolt false io bucket key m)
  apply_entry io now (create_bucket_entry meta) m = forget (create_bucket_replay bolt io now meta m)
  apply_entry io now (delete_bucket_entry name) m =
      forget (delete_bucket_internal bolt false io name m)
  apply_entry io now (create_upload_entry up) m = forget (put_upload_replay bolt io now up m)
  apply_entry io now (put_part_entry bucket key upload_id part) m =
      forget (without_log bolt m (put_part_internal bolt io bucket key upload_id part m))
  apply_entry io now (complete_entry bucket key upload_id obj) m =
      forget (complete_replay bolt io bucket key upload_id obj m)
  apply_entry io now (abort_entry bucket key upload_id) m =
      abort_replayed
        (without_log bolt m (commit bolt io m.db (abort_tx bolt bucket key upload_id m.db)))
  apply_entry io now (add_dn_entry addr) m =
      forget (add_runtime_dn_internal bolt false io now addr m)
  apply_entry io now (remove_dn_entry addr) m =
      forget (remove_runtime_dn_internal bolt false io addr m)
  apply_entry io now (unknown_entry op) m = (m, some unknown_op)
  apply_entry io now (undecodable_entry op) m = (m, some undecodable)

  -- ApplyAll: up to the first error. Each entry has its answers and its time.
  unfoldable pub apply_all : List (Io × ℤ × Entry) → MetaStore bolt → MetaStore bolt × Option Error
  apply_all [] m = (m, none)
  apply_all ((io, now, entry) ∷ entries) m =
      let step = apply_entry io now entry m in
      elim step.1 [ none ↦ apply_all entries step.0 | some e ↦ step ]
