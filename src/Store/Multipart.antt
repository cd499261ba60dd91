-- ===== src/Store/Multipart.antt =====
-- internal/store/store.go: multipart uploads. SHA-256 in hexadecimal is a parameter; the identifiers
-- that a new upload draws are an argument.
use kvfs.Base.{true, Option, none, some, List, [], ◌∷◌, ◌++◌, if◌then◌else◌, ◌||◌, map}
use kvfs.Base.Text.{Bytes, is_empty}
use kvfs.Base.Int.{ℤ, ltb_ℤ, eqb_ℤ, pos}
use kvfs.Base.Sort.{sort}
use kvfs.Bolt.{Bolt}
use kvfs.Store.Objects.{has_no_chunks, time_or}
use kvfs.Store.{
  PartMeta, Upload, Error, Result, Io, Db, MetaStore, commit, then_log, without_log, not_found,
  invalid_part, required, no_id_drawn, done, fail, create_upload_entry, put_part_entry,
}

unfoldable pub multipart_key : Bytes → Bytes → Bytes → Bytes
multipart_key bucket key upload_id = bucket ++ b'/' ∷ (key ++ b'/' ∷ upload_id)

unfoldable pub validate_part_number : ℤ → Option Error
validate_part_number n = if ltb_ℤ n (pos 1) || ltb_ℤ (pos 10000) n then some invalid_part else none

-- up.Parts[n]
unfoldable pub part_at : ℤ → List (ℤ × PartMeta) → Option PartMeta
part_at n [] = none
part_at n ((j, p) ∷ parts) = if eqb_ℤ j n then some p else part_at n parts

-- up.Parts[n] = part
unfoldable pub set_part : ℤ → PartMeta → List (ℤ × PartMeta) → List (ℤ × PartMeta)
set_part n part [] = (n, part) ∷ []
set_part n part ((j, p) ∷ parts) =
    if eqb_ℤ j n then (n, part) ∷ parts else (j, p) ∷ set_part n part parts

module _ (bolt : Bolt) where
  -- The first identifier drawn that no upload has.
  unfoldable pub fresh_id : Db bolt → Bytes → Bytes → List Bytes → Option Bytes
  fresh_id db bucket key [] = none
  fresh_id db bucket key (id ∷ ids) = elim (bolt.get (multipart_key bucket key id) db.uploads) [
    | none ↦ some id
    | some up ↦ fresh_id db bucket key ids
  ]

  unfoldable pub create_upload_tx :
      ℤ → List Bytes → Bytes → Bytes → Bytes → Db bolt → Result (Db bolt × Upload)
  create_upload_tx now ids bucket key content_type db = elim (bolt.get bucket db.buckets) [
    | none ↦ fail not_found
    | some b ↦ elim (fresh_id db bucket key ids) [
      | none ↦ fail no_id_drawn
      | some id ↦
          let up : Upload = record {
            bucket = bucket;
            key = key;
            upload_id = id;
            content_type = content_type;
            created_at = some now;
            parts = [];
          } in
          done (record db { uploads = bolt.put (multipart_key bucket key id) up db.uploads }, up)
    ]
  ]

  unfoldable pub create_multipart_upload :
      Io → ℤ → List Bytes → Bytes → Bytes → Bytes → MetaStore bolt → MetaStore bolt × Result Upload
  create_multipart_upload io now ids bucket key content_type m =
      if is_empty bucket || is_empty key
      then (m, fail required)
      else then_log bolt io true create_upload_entry m
          (commit bolt io m.db (create_upload_tx now ids bucket key content_type m.db))

  unfoldable get_multipart_upload : Bytes → Bytes → Bytes → Db bolt → Result Upload
  get_multipart_upload bucket key upload_id db =
      elim (bolt.get (multipart_key bucket key upload_id) db.uploads) [
        | none ↦ fail not_found
        | some up ↦ done up
      ]

  -- putMultipartUploadReplay
  unfoldable pub put_upload_replay :
      Io → ℤ → Upload → MetaStore bolt → MetaStore bolt × Result (Unit {0})
  put_upload_replay io now up m =
      if is_empty up.bucket || is_empty up.key || is_empty up.upload_id
      then (m, fail required)
      else (let stored = record up { created_at = time_or now up.created_at } in
          without_log bolt m (
            commit bolt io m.db (
              done (
                record m.db {
                  uploads =
                      bolt.put (multipart_key up.bucket up.key up.upload_id) stored m.db.uploads;
                },
                tt,
              ))))

  unfoldable pub put_part_tx :
      Bytes → Bytes → Bytes → PartMeta → Db bolt → Result (Db bolt × Unit {0})
  put_part_tx bucket key upload_id part db =
      let k = multipart_key bucket key upload_id in
      elim (bolt.get k db.uploads) [
        | none ↦ fail not_found
        | some up ↦
            let changed = record up { parts = set_part part.part_number part up.parts } in
            done (record db { uploads = bolt.put k changed db.uploads }, tt)
      ]

  -- putMultipartPartInternal
  unfoldable pub put_part_internal :
      Io → Bytes → Bytes → Bytes → PartMeta → MetaStore bolt → Db bolt × Result (Unit {0})
  put_part_internal io bucket key upload_id part m =
      commit bolt io m.db (put_part_tx bucket key upload_id part m.db)

  unfoldable pub put_multipart_part :
      Io
      → ℤ
      → Bytes
      → Bytes
      → Bytes
      → PartMeta
      → MetaStore bolt
      → MetaStore bolt × Result (Unit {0})
  put_multipart_part io now bucket key upload_id part m =
      elim (validate_part_number part.part_number) [
        | some e ↦ (m, fail e)
        | none ↦
            if is_empty part.etag || has_no_chunks part.chunks
            then (m, fail invalid_part)
            else (let stored = record part { created_at = time_or now part.created_at } in
                then_log bolt io true (λ u. put_part_entry bucket key upload_id stored) m
                  (put_part_internal io bucket key upload_id stored m))
      ]

  unfoldable list_multipart_parts : Bytes → Bytes → Bytes → Db bolt → Result (List PartMeta)
  list_multipart_parts bucket key upload_id db =
      elim (get_multipart_upload bucket key upload_id db) [
        | fail e ↦ fail e
        | done up ↦ done (sort (λ p q. ltb_ℤ p.part_number q.part_number) (map (λ e. e.1) up.parts))
      ]
