-- ===== src/Store/ShippingUploads.antt =====
-- Calls of a leader on multipart uploads and on the runtime registry, shipped to a follower.
use kvfs.Base.{
  true, false, none, some, List, [], ◌∷◌, ◌≡◌, inl, inr, refl, ◌||◌, All, arith, Bool-cases,
  Option-cases,
}
use kvfs.Base.Text.{Bytes, is_empty}
use kvfs.Base.Int.{ℤ}
use kvfs.Bolt.{Bolt}
use kvfs.Store.{
  PartMeta, Upload, CompletePart, Entry, Io, Db, MetaStore, not_found, no_id_drawn, done,
  create_upload_entry, put_part_entry, complete_entry, abort_entry, add_dn_entry, remove_dn_entry,
}
use kvfs.Store.Results.{fail-done, Result-cases}
use kvfs.Store.Objects.{time_or, has_no_chunks}
use kvfs.Store.Multipart.{
  multipart_key, validate_part_number, fresh_id, create_upload_tx, create_multipart_upload,
  put_part_tx, put_part_internal, put_multipart_part,
}
use kvfs.Store.Complete.{
  nothing_yet, assemble, Completed, complete_tx, complete_multipart_upload, abort_tx,
  abort_multipart_upload,
}
use kvfs.Store.Nodes.{
  add_dn_tx, add_runtime_dn_internal, add_runtime_dn, remove_dn_tx, remove_runtime_dn_internal,
  remove_runtime_dn,
}
use kvfs.Store.Apply.{forget}
use kvfs.Store.Agreement.{Agrees}
use kvfs.Store.Replaying.{Applied}
use kvfs.Store.ReplayingUploads.{
  new_upload-applied, put_part-applied, complete-applied, abort-applied, add_dn-applied,
  remove_dn-applied,
}
use kvfs.Store.Replay.{fresh_id-nonempty, Follows, unchanged, logged-Follows}
use kvfs.Store.Shipping.{ended_by}

module _ (bolt : Bolt) where
  module _ (fio : Io) (quiet : fio.commit_error ≡ none) (now : ℤ) (log : List Entry)
      (m f : MetaStore bolt) (e : m.wal ≡ some log) (h : Agrees bolt m.db f.db) (io : Io)
      (app : io.append_error ≡ none) (later : ℤ) where
    by_end :
        {A : Type 0} (entry : A → Entry) (x : Db bolt × A)
        → Applied bolt fio now (entry x.1) f x.0
        → (d : Db bolt) (a : A) → done x ≡ done (d, a)
        → Applied bolt fio now (entry a) f d
    by_end = ended_by bolt fio quiet now log m f e h io app later

    pub new_upload-Follows :
        (ids : List Bytes) (bucket key content_type : Bytes)
        → All (λ i. is_empty i ≡ false) ids
        → Follows bolt fio now log
            (forget bolt (create_multipart_upload bolt io later ids bucket key content_type m)).0
            f
    unfolding forget create_multipart_upload create_upload_tx
    new_upload-Follows ids bucket key content_type named =
        elim (Bool-cases (is_empty bucket || is_empty key)) [
          | inl bad ↦ rw (bad, create_multipart_upload) (unchanged bolt fio now log m f e h)
          | inr good ↦
              rw (good, create_multipart_upload)
                (logged-Follows bolt fio now log m f e h io true create_upload_entry
                  (create_upload_tx bolt later ids bucket key content_type m.db) app
                  (λ d a t. elim (Option-cases (bolt.get bucket m.db.buckets)) [
                    | inl g ↦ elim (fail-done not_found (d, a) (rw (g, create_upload_tx) at t)) [ ]
                    | inr (b, g) ↦ elim (Option-cases (fresh_id bolt m.db bucket key ids)) [
                      | inl i ↦
                          elim (fail-done no_id_drawn (d, a)
                            (rw i at (rw (g, create_upload_tx) at t))) [ ]
                      | inr (id, i) ↦
                          by_end create_upload_entry _
                            (new_upload-applied bolt fio quiet now f m.db h
                              (record {
                                bucket = bucket;
                                key = key;
                                upload_id = id;
                                content_type = content_type;
                                created_at = some later;
                                parts = [];
                              })
                              later (ground (arith, good)) (ground (arith, good))
                              (fresh_id-nonempty bolt m.db bucket key ids id named i) refl)
                            d a (rw i at (rw (g, create_upload_tx) at t))
                    ]
                  ]))
        ]

    pub put_part-Follows :
        (bucket key upload_id : Bytes) (part : PartMeta)
        → Follows bolt fio now log
            (forget bolt (put_multipart_part bolt io later bucket key upload_id part m)).0
            f
    unfolding forget put_multipart_part put_part_internal put_part_tx
    put_part-Follows bucket key upload_id part =
        elim (Option-cases (validate_part_number part.part_number)) [
          | inr (x, bad) ↦ rw (bad, put_multipart_part) (unchanged bolt fio now log m f e h)
          | inl good ↦
              rw (good, put_multipart_part)
                (elim (Bool-cases (is_empty part.etag || has_no_chunks part.chunks)) [
                  | inl bad ↦ rw bad (unchanged bolt fio now log m f e h)
                  | inr fine ↦ rw fine (
                      let stored : PartMeta = record part {
                        created_at = time_or later part.created_at;
                      } in
                      let entry = λ (u : Unit {0}). put_part_entry bucket key upload_id stored in
                      logged-Follows bolt fio now log m f e h io true entry
                        (put_part_tx bolt bucket key upload_id stored m.db) app
                        (λ d a t.
                          elim (Option-cases
                            (bolt.get (multipart_key bucket key upload_id) m.db.uploads)) [
                              | inl g ↦
                                  elim (fail-done not_found (d, a) (rw (g, put_part_tx) at t)) [ ]
                              | inr (up, g) ↦
                                  by_end entry _
                                    (put_part-applied bolt fio quiet now f m.db h bucket key
                                      upload_id stored up g)
                                    d a (rw (g, put_part_tx) at t)
                            ]))
                ])
        ]

    pub complete-Follows :
        (sha_hex : Bytes → Bytes) (bucket key upload_id : Bytes) (parts : List CompletePart)
        → Follows bolt fio now log
            (forget bolt
              (complete_multipart_upload bolt sha_hex io later bucket key upload_id parts m)).0
            f
    unfolding forget complete_multipart_upload complete_tx
    complete-Follows sha_hex bucket key upload_id [] = unchanged bolt fio now log m f e h
    complete-Follows sha_hex bucket key upload_id (p ∷ parts) =
        let entry = λ (r : Completed). complete_entry bucket key upload_id (some r.object) in
        logged-Follows bolt fio now log m f e h io true entry
          (complete_tx bolt sha_hex later bucket key upload_id (p ∷ parts) m.db) app
          (λ d a t.
            elim (Option-cases (bolt.get (multipart_key bucket key upload_id) m.db.uploads)) [
              | inl g ↦ elim (fail-done not_found (d, a) (rw (g, complete_tx) at t)) [ ]
              | inr (up, g) ↦ elim (Result-cases (assemble up.parts (p ∷ parts) nothing_yet)) [
                | inl (x, s) ↦ elim (fail-done x (d, a) (rw s at (rw (g, complete_tx) at t))) [ ]
                | inr (asm, s) ↦
                    by_end entry _
                      (complete-applied bolt fio quiet now f m.db h bucket key upload_id _) d a
                      (rw s at (rw (g, complete_tx) at t))
              ]
            ])

    pub abort-Follows :
        (bucket key upload_id : Bytes)
        → Follows bolt fio now log
            (forget bolt (abort_multipart_upload bolt io bucket key upload_id m)).0
            f
    unfolding abort_multipart_upload abort_tx
    abort-Follows bucket key upload_id =
        let entry = λ (up : Upload). abort_entry bucket key upload_id in
        logged-Follows bolt fio now log m f e h io true entry
          (abort_tx bolt bucket key upload_id m.db) app
          (λ d a t.
            elim (Option-cases (bolt.get (multipart_key bucket key upload_id) m.db.uploads)) [
              | inl g ↦ elim (fail-done not_found (d, a) (rw (g, abort_tx) at t)) [ ]
              | inr (up, g) ↦
                  by_end entry _
                    (abort-applied bolt fio quiet now f m.db h bucket key upload_id up g) d a
                    (rw (g, abort_tx) at t)
            ])

    pub add_dn-Follows :
        (addr : Bytes)
        → Follows bolt fio now log (forget bolt (add_runtime_dn bolt io later addr m)).0 f
    unfolding forget add_runtime_dn add_runtime_dn_internal add_dn_tx
    add_dn-Follows addr = elim (Bool-cases (is_empty addr)) [
      | inl bad ↦
          rw (bad, add_runtime_dn, add_runtime_dn_internal) (unchanged bolt fio now log m f e h)
      | inr good ↦
          rw (good, add_runtime_dn, add_runtime_dn_internal)
            (let entry = λ (u : Unit {0}). add_dn_entry addr in
              logged-Follows bolt fio now log m f e h io true entry (add_dn_tx bolt later addr m.db)
                app (by_end entry _ (add_dn-applied bolt fio quiet now f m.db h later addr good)))
    ]

    pub remove_dn-Follows :
        (addr : Bytes)
        → Follows bolt fio now log (forget bolt (remove_runtime_dn bolt io addr m)).0 f
    unfolding forget remove_runtime_dn remove_runtime_dn_internal remove_dn_tx
    remove_dn-Follows addr = elim (Bool-cases (is_empty addr)) [
      | inl bad ↦
          rw (bad, remove_runtime_dn, remove_runtime_dn_internal)
            (unchanged bolt fio now log m f e h)
      | inr good ↦
          rw (good, remove_runtime_dn, remove_runtime_dn_internal)
            (let entry = λ (u : Unit {0}). remove_dn_entry addr in
              logged-Follows bolt fio now log m f e h io true entry (remove_dn_tx bolt addr m.db)
                app (by_end entry _ (remove_dn-applied bolt fio quiet now f m.db h addr good)))
    ]
