-- ===== src/Store/Complete.antt =====
-- internal/store/store.go: the end of a multipart upload.
use kvfs.Base.{ℕ, true, Option, none, some, List, [], ◌∷◌, ◌++◌, if◌then◌else◌, ◌&&◌, not, length}
use kvfs.Base.Text.{Bytes, beq, is_empty}
use kvfs.Base.Int.{ℤ, ltb_ℤ, ◌+₆₄◌, pos}
use kvfs.Base.Decimal.{format_int}
use kvfs.Bolt.{Bolt}
use kvfs.Store.Objects.{obj_key, next_version}
use kvfs.Store.Multipart.{multipart_key, validate_part_number, part_at}
use kvfs.Store.{
  ChunkRef, ObjectMeta, PartMeta, Upload, CompletePart, Result, Io, Db, MetaStore, commit, then_log,
  without_log, not_found, invalid_part, invalid_part_order, no_object, done, fail, complete_entry,
  abort_entry,
}

-- What the loop of CompleteMultipartUpload has gathered; `etags` is what the hash was fed.
pub record Assembly : Type 0 where
  pub prev_part : ℤ
  pub chunks : List ChunkRef
  pub size : ℤ
  pub etags : Bytes
  pub completed : List PartMeta

unfoldable pub nothing_yet : Assembly
nothing_yet = record { prev_part = pos 0; chunks = []; size = pos 0; etags = []; completed = [] }

-- One round of the loop.
unfoldable pub add_part : List (ℤ × PartMeta) → CompletePart → Assembly → Result Assembly
add_part parts want a = elim (validate_part_number want.part_number) [
  | some e ↦ fail e
  | none ↦
      if ltb_ℤ a.prev_part want.part_number
      then elim (part_at want.part_number parts) [
        | none ↦ fail invalid_part
        | some got ↦
            if not (is_empty want.etag) && not (beq want.etag got.etag)
            then fail invalid_part
            else done (record {
              prev_part = want.part_number;
              chunks = a.chunks ++ got.chunks;
              size = a.size +₆₄ got.size;
              etags = a.etags ++ got.etag;
              completed = a.completed ++ got ∷ [];
            })
      ]
      else fail invalid_part_order
]

unfoldable pub assemble : List (ℤ × PartMeta) → List CompletePart → Assembly → Result Assembly
assemble parts [] a = done a
assemble parts (want ∷ wanted) a = elim (add_part parts want a) [
  | fail e ↦ fail e
  | done next ↦ assemble parts wanted next
]

pub record Completed : Type 0 where
  pub object : ObjectMeta
  pub parts : List PartMeta

module _ (bolt : Bolt) where
  module _ (sha_hex : Bytes → Bytes) where
    unfoldable pub complete_etag : Bytes → ℕ → Bytes
    complete_etag etags n = b'"' ∷ (sha_hex etags ++ b'-' ∷ (format_int (pos n) ++ b'"' ∷ []))

    unfoldable pub complete_tx :
        ℤ → Bytes → Bytes → Bytes → List CompletePart → Db bolt → Result (Db bolt × Completed)
    complete_tx now bucket key upload_id wanted db =
        let mk = multipart_key bucket key upload_id in
        let k = obj_key bucket key in
        elim (bolt.get mk db.uploads) [
          | none ↦ fail not_found
          | some up ↦ elim (assemble up.parts wanted nothing_yet) [
            | fail e ↦ fail e
            | done a ↦
                let obj : ObjectMeta = record {
                  bucket = bucket;
                  key = key;
                  size = a.size;
                  content_type = up.content_type;
                  etag = complete_etag a.etags (length wanted);
                  chunks = a.chunks;
                  ec = none;
                  stripes = [];
                  version = next_version (bolt.get k db.objects) (pos 0);
                  created_at = some now;
                  class_label = [];
                  legacy_chunk_id = [];
                  legacy_replicas = [];
                } in
                done (
                  record db {
                    objects = bolt.put k obj db.objects;
                    uploads = bolt.del mk db.uploads;
                  },
                  record { object = obj; parts = a.completed },
                )
          ]
        ]

    unfoldable pub complete_multipart_upload :
        Io
        → ℤ
        → Bytes
        → Bytes
        → Bytes
        → List CompletePart
        → MetaStore bolt
        → MetaStore bolt × Result Completed
    complete_multipart_upload io now bucket key upload_id [] m = (m, fail invalid_part)
    complete_multipart_upload io now bucket key upload_id (want ∷ wanted) m =
        then_log bolt io true (λ r. complete_entry bucket key upload_id (some r.object)) m
          (commit bolt io m.db (complete_tx now bucket key upload_id (want ∷ wanted) m.db))

  -- completeMultipartReplay
  unfoldable pub complete_replay :
      Io
      → Bytes
      → Bytes
      → Bytes
      → Option ObjectMeta
      → MetaStore bolt
      → MetaStore bolt × Result (Unit {0})
  complete_replay io bucket key upload_id none m = (m, fail no_object)
  complete_replay io bucket key upload_id (some obj) m = without_log bolt m (
      commit bolt io m.db (
        done (
          record m.db {
            objects = bolt.put (obj_key obj.bucket obj.key) obj m.db.objects;
            uploads = bolt.del (multipart_key bucket key upload_id) m.db.uploads;
          },
          tt,
        )))

  unfoldable pub abort_tx : Bytes → Bytes → Bytes → Db bolt → Result (Db bolt × Upload)
  abort_tx bucket key upload_id db =
      let k = multipart_key bucket key upload_id in
      elim (bolt.get k db.uploads) [
        | none ↦ fail not_found
        | some up ↦ done (record db { uploads = bolt.del k db.uploads }, up)
      ]

  unfoldable pub abort_multipart_upload :
      Io → Bytes → Bytes → Bytes → MetaStore bolt → MetaStore bolt × Result Upload
  abort_multipart_upload io bucket key upload_id m =
      then_log bolt io true (λ up. abort_entry bucket key upload_id) m
        (commit bolt io m.db (abort_tx bucket key upload_id m.db))
