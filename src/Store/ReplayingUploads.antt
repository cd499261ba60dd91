-- ===== src/Store/ReplayingUploads.antt =====
-- One entry on a multipart upload or on the runtime registry, applied to a database that agrees with
-- the leader's.
use kvfs.Base.{false, none, some, ◌≡◌, refl, sym, ap, ◌∙◌}
use kvfs.Base.Text.{Bytes, is_empty}
use kvfs.Base.Int.{ℤ}
use kvfs.Bolt.{Bolt}
use kvfs.Store.Objects.{obj_key, time_or}
use kvfs.Store.Multipart.{
  multipart_key, set_part, put_upload_replay, put_part_tx, put_part_internal,
}
use kvfs.Store.Complete.{complete_replay, abort_tx}
use kvfs.Store.Nodes.{
  registered, add_dn_tx, add_runtime_dn_internal, remove_dn_tx, remove_runtime_dn_internal,
}
use kvfs.Store.Apply.{abort_replayed, apply_entry}
use kvfs.Store.Agreement.{timeless, Agrees, put-put, del-del, put-timeless, del-timeless}
use kvfs.Store.Replaying.{Applied, applied}
use kvfs.Store.{
  ObjectMeta, PartMeta, Upload, Io, Db, MetaStore, commit, without_log, done, create_upload_entry,
  put_part_entry, complete_entry, abort_entry, add_dn_entry, remove_dn_entry,
}

module _ (bolt : Bolt) (io : Io) (quiet : io.commit_error ≡ none) (now : ℤ) (f : MetaStore bolt)
    (d : Db bolt) (h : Agrees bolt d f.db) where
  pub new_upload-applied :
      (up : Upload) (t : ℤ)
      → is_empty up.bucket ≡ false
      → is_empty up.key ≡ false
      → is_empty up.upload_id ≡ false
      → up.created_at ≡ some t
      → Applied bolt io now (create_upload_entry up) f (record d {
        uploads = bolt.put (multipart_key up.bucket up.key up.upload_id) up d.uploads;
      })
  unfolding apply_entry put_upload_replay time_or
  new_upload-applied up t e₁ e₂ e₃ made =
      let k = multipart_key up.bucket up.key up.upload_id in
      let again : Upload = record up { created_at = time_or now up.created_at } in
      let same : up ≡ again = ap (λ c. record up { created_at = c }) (rw (made, time_or) refl) in
      applied bolt io quiet now f (create_upload_entry up) _
        (record f.db { uploads = bolt.put k again f.db.uploads }) (tt {0}) (done _)
        (rw (e₁, e₂, e₃, apply_entry) refl) refl
        (record {
          objects = h.objects;
          buckets = h.buckets;
          uploads = put-put bolt k up again d.uploads f.db.uploads h.uploads same;
          runtime_dns = h.runtime_dns;
        })

  pub put_part-applied :
      (bucket key upload_id : Bytes) (part : PartMeta) (up : Upload)
      → bolt.get (multipart_key bucket key upload_id) d.uploads ≡ some up
      → Applied bolt io now (put_part_entry bucket key upload_id part) f (record d {
        uploads =
            bolt.put
              (multipart_key bucket key upload_id)
              (record up { parts = set_part part.part_number part up.parts })
              d.uploads;
      })
  unfolding apply_entry put_part_internal put_part_tx
  put_part-applied bucket key upload_id part up e =
      let k = multipart_key bucket key upload_id in
      let found : bolt.get k f.db.uploads ≡ some up = sym (h.uploads k) ∙ e in
      let changed = record up { parts = set_part part.part_number part up.parts } in
      applied bolt io quiet now f (put_part_entry bucket key upload_id part) _
        (record f.db { uploads = bolt.put k changed f.db.uploads }) (tt {0}) _ refl
        (rw (found, put_part_tx) refl)
        (record {
          objects = h.objects;
          buckets = h.buckets;
          uploads = put-put bolt k changed changed d.uploads f.db.uploads h.uploads refl;
          runtime_dns = h.runtime_dns;
        })

  pub complete-applied :
      (bucket key upload_id : Bytes) (obj : ObjectMeta)
      → Applied bolt io now (complete_entry bucket key upload_id (some obj)) f (record d {
        objects = bolt.put (obj_key obj.bucket obj.key) obj d.objects;
        uploads = bolt.del (multipart_key bucket key upload_id) d.uploads;
      })
  unfolding apply_entry complete_replay
  complete-applied bucket key upload_id obj =
      let k = obj_key obj.bucket obj.key in
      let mk = multipart_key bucket key upload_id in
      applied bolt io quiet now f (complete_entry bucket key upload_id (some obj)) _
        (record f.db { objects = bolt.put k obj f.db.objects; uploads = bolt.del mk f.db.uploads })
        (tt {0}) _ refl refl
        (record {
          objects = put-put bolt k obj obj d.objects f.db.objects h.objects refl;
          buckets = h.buckets;
          uploads = del-del bolt mk d.uploads f.db.uploads h.uploads;
          runtime_dns = h.runtime_dns;
        })

  pub abort-applied :
      (bucket key upload_id : Bytes) (up : Upload)
      → bolt.get (multipart_key bucket key upload_id) d.uploads ≡ some up
      → Applied bolt io now
          (abort_entry bucket key upload_id)
          f
          (record d { uploads = bolt.del (multipart_key bucket key upload_id) d.uploads })
  unfolding apply_entry abort_replayed without_log commit abort_tx
  abort-applied bucket key upload_id up e =
      let k = multipart_key bucket key upload_id in
      let found : bolt.get k f.db.uploads ≡ some up = sym (h.uploads k) ∙ e in
      let next = record f.db { uploads = bolt.del k f.db.uploads } in
      let tx : abort_tx bolt bucket key upload_id f.db ≡ done (next, up) =
        rw (found, abort_tx) refl in
      let eq : apply_entry bolt io now (abort_entry bucket key upload_id) f
          ≡ (record f { db = next }, none) =
        ap (λ t. abort_replayed bolt (without_log bolt f (commit bolt io f.db t))) tx
        ∙ rw (quiet, commit) refl in
      record {
        agreed = rw eq (record {
          objects = h.objects;
          buckets = h.buckets;
          uploads = del-del bolt k d.uploads f.db.uploads h.uploads;
          runtime_dns = h.runtime_dns;
        });
        ended = rw eq refl;
      }

  pub add_dn-applied :
      (later : ℤ) (addr : Bytes)
      → is_empty addr ≡ false
      → Applied bolt io now
          (add_dn_entry addr)
          f
          (record d { runtime_dns = bolt.put addr (registered later addr) d.runtime_dns })
  unfolding apply_entry add_runtime_dn_internal add_dn_tx timeless registered
  add_dn-applied later addr e =
      applied bolt io quiet now f (add_dn_entry addr) _
        (record f.db { runtime_dns = bolt.put addr (registered now addr) f.db.runtime_dns })
        (tt {0}) (done _) (rw (e, apply_entry, add_runtime_dn_internal) refl) refl
        (record {
          objects = h.objects;
          buckets = h.buckets;
          uploads = h.uploads;
          runtime_dns =
              put-timeless bolt addr (registered later addr) (registered now addr) d.runtime_dns
                f.db.runtime_dns h.runtime_dns refl;
        })

  pub remove_dn-applied :
      (addr : Bytes)
      → is_empty addr ≡ false
      → Applied bolt io now
          (remove_dn_entry addr)
          f
          (record d { runtime_dns = bolt.del addr d.runtime_dns })
  unfolding apply_entry remove_runtime_dn_internal remove_dn_tx
  remove_dn-applied addr e =
      applied bolt io quiet now f (remove_dn_entry addr) _
        (record f.db { runtime_dns = bolt.del addr f.db.runtime_dns }) (tt {0}) (done _)
        (rw (e, apply_entry, remove_runtime_dn_internal) refl) refl
        (record {
          objects = h.objects;
          buckets = h.buckets;
          uploads = h.uploads;
          runtime_dns = del-timeless bolt addr d.runtime_dns f.db.runtime_dns h.runtime_dns;
        })
