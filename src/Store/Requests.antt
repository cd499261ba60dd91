-- ===== src/Store/Requests.antt =====
-- The calls of a leader that write to its WAL, as one type, and a sequence of them, each of which ends
-- before the next begins: in the program a commit and its append are two steps, which concurrent calls
-- may interleave.
use kvfs.Base.{Option, List, [], ◌∷◌}
use kvfs.Base.Text.{Bytes}
use kvfs.Base.Int.{ℤ}
use kvfs.Bolt.{Bolt}
use kvfs.Store.{ObjectMeta, PartMeta, CompletePart, Error, Io, MetaStore}
use kvfs.Store.Objects.{put_object, put_object_after_replicate, delete_object}
use kvfs.Store.Buckets.{create_bucket, delete_bucket}
use kvfs.Store.Multipart.{create_multipart_upload, put_multipart_part}
use kvfs.Store.Complete.{complete_multipart_upload, abort_multipart_upload}
use kvfs.Store.Nodes.{add_runtime_dn, remove_runtime_dn}
use kvfs.Store.Apply.{forget}

-- A new upload brings the identifiers that it draws.
pub data Request : Type 0 where
  put_call : ObjectMeta → Request
  put_replicated_call : ObjectMeta → Request
  delete_call : Bytes → Bytes → Request
  new_bucket_call : Bytes → Request
  drop_bucket_call : Bytes → Request
  new_upload_call : List Bytes → Bytes → Bytes → Bytes → Request
  put_part_call : Bytes → Bytes → Bytes → PartMeta → Request
  complete_call : Bytes → Bytes → Bytes → List CompletePart → Request
  abort_call : Bytes → Bytes → Bytes → Request
  add_dn_call : Bytes → Request
  remove_dn_call : Bytes → Request

module _ (bolt : Bolt) (sha_hex : Bytes → Bytes) where
  unfoldable pub handle : Io → ℤ → Request → MetaStore bolt → MetaStore bolt × Option Error
  handle io now (put_call obj) m = forget bolt (put_object bolt io now obj m)
  handle io now (put_replicated_call obj) m =
      forget bolt (put_object_after_replicate bolt io now obj m)
  handle io now (delete_call bucket key) m = forget bolt (delete_object bolt io bucket key m)
  handle io now (new_bucket_call name) m = forget bolt (create_bucket bolt io now name m)
  handle io now (drop_bucket_call name) m = forget bolt (delete_bucket bolt io name m)
  handle io now (new_upload_call ids bucket key content_type) m =
      forget bolt (create_multipart_upload bolt io now ids bucket key content_type m)
  handle io now (put_part_call bucket key upload_id part) m =
      forget bolt (put_multipart_part bolt io now bucket key upload_id part m)
  handle io now (complete_call bucket key upload_id parts) m =
      forget bolt (complete_multipart_upload bolt sha_hex io now bucket key upload_id parts m)
  handle io now (abort_call bucket key upload_id) m =
      forget bolt (abort_multipart_upload bolt io bucket key upload_id m)
  handle io now (add_dn_call addr) m = forget bolt (add_runtime_dn bolt io now addr m)
  handle io now (remove_dn_call addr) m = forget bolt (remove_runtime_dn bolt io addr m)

  -- The calls one after the other, whatever each answers.
  unfoldable pub handle_all : List (Io × ℤ × Request) → MetaStore bolt → MetaStore bolt
  handle_all [] m = m
  handle_all ((io, now, request) ∷ requests) m = handle_all requests (handle io now request m).0
