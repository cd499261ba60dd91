-- ===== src/Store/Shipped.antt =====
-- A sequence of calls of a leader, shipped to a follower by the entries of the WAL.
use kvfs.Base.{
  true, false, none, some, List, [], ◌∷◌, ◌++◌, ◌≡◌, inl, inr, refl, ap, ◌∙◌, Option-cases,
  append_nil, append_assoc,
}
use kvfs.Base.Text.{Bytes}
use kvfs.Base.Int.{ℤ}
use kvfs.Bolt.{Bolt}
use kvfs.Store.{Entry, Io, MetaStore}
use kvfs.Store.Objects.{put_object, put_object_after_replicate}
use kvfs.Store.Apply.{apply_entry, apply_all}
use kvfs.Store.Requests.{
  Request, handle, handle_all, put_call, put_replicated_call, delete_call, new_bucket_call,
  drop_bucket_call, new_upload_call, put_part_call, complete_call, abort_call, add_dn_call,
  remove_dn_call,
}
use kvfs.Store.Agreement.{Agrees}
use kvfs.Store.Replay.{stamped, AppendsSucceed, DrawsNames, Follows, nothing-Follows}
use kvfs.Store.Shipping.{put-Follows, delete-Follows, new_bucket-Follows, drop_bucket-Follows}
use kvfs.Store.ShippingUploads.{
  new_upload-Follows, put_part-Follows, complete-Follows, abort-Follows, add_dn-Follows,
  remove_dn-Follows,
}

abbrev EachDrawsNames : List (Io × ℤ × Request) → Type 0
EachDrawsNames [] = Unit
EachDrawsNames ((io, now, r) ∷ requests) = DrawsNames r × EachDrawsNames requests

stamped-append :
    (io : Io) (now : ℤ) (xs ys : List Entry)
    → stamped io now (xs ++ ys) ≡ stamped io now xs ++ stamped io now ys
stamped-append io now [] ys = refl
stamped-append io now (x ∷ xs) ys = ap (λ l. (io, now, x) ∷ l) (stamped-append io now xs ys)

module _ (bolt : Bolt) where
  apply_all-append :
      (xs ys : List (Io × ℤ × Entry)) (f : MetaStore bolt)
      → (apply_all bolt xs f).1 ≡ none
      → apply_all bolt (xs ++ ys) f ≡ apply_all bolt ys (apply_all bolt xs f).0
  unfolding apply_all
  apply_all-append [] ys f h = refl
  apply_all-append ((io, now, x) ∷ xs) ys f h =
      elim (Option-cases (apply_entry bolt io now x f).1) [
        | inl e ↦
            rw (e, apply_all)
              (apply_all-append xs ys (apply_entry bolt io now x f).0 (rw (e, apply_all) at h))
        | inr (w, e) ↦ (let q : some w ≡ none = rw (e, apply_all) at (rw (e, apply_all) at h) in cc)
      ]

  module _ (sha_hex : Bytes → Bytes) (fio : Io) (quiet : fio.commit_error ≡ none) (now : ℤ) where
    handle-Follows :
        (log : List Entry) (m f : MetaStore bolt) (io : Io) (later : ℤ) (request : Request)
        → m.wal ≡ some log
        → Agrees bolt m.db f.db
        → io.append_error ≡ none
        → DrawsNames request
        → Follows bolt fio now log (handle bolt sha_hex io later request m).0 f
    unfolding handle put_object put_object_after_replicate
    handle-Follows log m f io later (put_call obj) e h app named =
        put-Follows bolt fio quiet now log m f e h io app later obj true
    handle-Follows log m f io later (put_replicated_call obj) e h app named =
        put-Follows bolt fio quiet now log m f e h io app later obj false
    handle-Follows log m f io later (delete_call bucket key) e h app named =
        delete-Follows bolt fio quiet now log m f e h io app later bucket key
    handle-Follows log m f io later (new_bucket_call name) e h app named =
        new_bucket-Follows bolt fio quiet now log m f e h io app later name
    handle-Follows log m f io later (drop_bucket_call name) e h app named =
        drop_bucket-Follows bolt fio quiet now log m f e h io app later name
    handle-Follows log m f io later (new_upload_call ids bucket key content_type) e h app named =
        new_upload-Follows bolt fio quiet now log m f e h io app later ids bucket key content_type
          named
    handle-Follows log m f io later (put_part_call bucket key upload_id part) e h app named =
        put_part-Follows bolt fio quiet now log m f e h io app later bucket key upload_id part
    handle-Follows log m f io later (complete_call bucket key upload_id parts) e h app named =
        complete-Follows bolt fio quiet now log m f e h io app later sha_hex bucket key upload_id
          parts
    handle-Follows log m f io later (abort_call bucket key upload_id) e h app named =
        abort-Follows bolt fio quiet now log m f e h io app later bucket key upload_id
    handle-Follows log m f io later (add_dn_call addr) e h app named =
        add_dn-Follows bolt fio quiet now log m f e h io app later addr
    handle-Follows log m f io later (remove_dn_call addr) e h app named =
        remove_dn-Follows bolt fio quiet now log m f e h io app later addr

    followed :
        (log : List Entry) (m n f : MetaStore bolt) (one : Follows bolt fio now log m f)
        → Follows bolt fio now
            (log ++ one.entries)
            n
            (apply_all bolt (stamped fio now one.entries) f).0
        → Follows bolt fio now log n f
    followed log m n f one two =
        let joined : apply_all bolt (stamped fio now (one.entries ++ two.entries)) f
            ≡ apply_all bolt (stamped fio now two.entries)
                (apply_all bolt (stamped fio now one.entries) f).0 =
          rw (stamped-append fio now one.entries two.entries) (
            apply_all-append (stamped fio now one.entries) (stamped fio now two.entries) f
              one.ended) in
        record {
          entries = one.entries ++ two.entries;
          grown = two.grown ∙ ap some (append_assoc log one.entries two.entries);
          agreed = rw joined two.agreed;
          ended = rw joined two.ended;
        }

    -- A leader whose WAL is `log` and a follower agree on objects, buckets, uploads and, the times
    -- aside, the runtime registry. The leader then serves any sequence of calls that write the WAL,
    -- one after the other and no other mutation among them: puts and deletions of objects, creations
    -- and deletions of buckets, the four calls on uploads, and additions to and removals from the
    -- runtime registry. Then the WAL is `log` and some more entries, and the follower that applies
    -- those gets no error and agrees with the leader on the same four. The appends to the WAL succeed,
    -- commits of the leader and the hook may fail; commits of the follower succeed, and no identifier
    -- drawn for an upload is empty.
    pub handle_all-Follows :
        (requests : List (Io × ℤ × Request)) (log : List Entry) (m f : MetaStore bolt)
        → m.wal ≡ some log
        → Agrees bolt m.db f.db
        → AppendsSucceed requests
        → EachDrawsNames requests
        → Follows bolt fio now log (handle_all bolt sha_hex requests m) f
    unfolding handle_all
    handle_all-Follows [] log m f e h app named =
        nothing-Follows bolt fio now log m f (rw (append_nil log) e) h
    handle_all-Follows ((io, later, r) ∷ requests) log m f e h app named =
        let one = handle-Follows log m f io later r e h app.0 named.0 in
        followed log _ _ f one
          (handle_all-Follows requests (log ++ one.entries) _ _ one.grown one.agreed app.1 named.1)
