-- ===== src/Store/Shipping.antt =====
-- Each call of a leader, and a sequence of them, shipped to a follower.
use kvfs.Base.{
  Bool, true, none, some, List, [], ◌∷◌, ◌++◌, ◌≡◌, inl, inr, subst, Bool-cases, Option-cases,
}
use kvfs.Base.Text.{Bytes}
use kvfs.Base.Int.{ℤ}
use kvfs.Bolt.{Bolt, first_from, found_prefix}
use kvfs.Store.{
  ObjectMeta, Entry, Io, Db, MetaStore, not_found, already_exists, bucket_not_empty, done,
  put_object_entry, delete_object_entry, create_bucket_entry, delete_bucket_entry,
}
use kvfs.Store.Results.{fail-done, done-injective}
use kvfs.Store.Objects.{
  obj_key, put_object_tx, put_object_full, delete_object_tx, delete_object_internal, delete_object,
}
use kvfs.Store.Buckets.{
  validate_bucket_name, create_bucket_tx, create_bucket, delete_bucket_tx, delete_bucket_internal,
  delete_bucket,
}
use kvfs.Store.Apply.{forget}
use kvfs.Store.Agreement.{Agrees}
use kvfs.Store.Replaying.{
  Applied, put-applied, delete-applied, new_bucket-applied, drop_bucket-applied,
}
use kvfs.Store.Replay.{validate-nonempty, Follows, unchanged, logged-Follows}

module _ (bolt : Bolt) where
  module _ (fio : Io) (quiet : fio.commit_error ≡ none) (now : ℤ) (log : List Entry)
      (m f : MetaStore bolt) (e : m.wal ≡ some log) (h : Agrees bolt m.db f.db) (io : Io)
      (app : io.append_error ≡ none) (later : ℤ) where
    -- The step of a transaction that is known to end so.
    pub ended_by :
        {A : Type 0} (entry : A → Entry) (x : Db bolt × A)
        → Applied bolt fio now (entry x.1) f x.0
        → (d : Db bolt) (a : A) → done x ≡ done (d, a)
        → Applied bolt fio now (entry a) f d
    ended_by entry x p d a t =
        subst (λ y. Applied bolt fio now (entry y.1) f y.0) (done-injective x (d, a) t) p

    pub put-Follows :
        (obj : ObjectMeta) (fire : Bool)
        → Follows bolt fio now log (forget bolt (put_object_full bolt true fire io later obj m)).0 f
    unfolding put_object_full put_object_tx
    put-Follows obj fire =
        logged-Follows bolt fio now log m f e h io fire put_object_entry _ app
          (ended_by put_object_entry _ (put-applied bolt fio quiet now f m.db h later obj))

    pub delete-Follows :
        (bucket key : Bytes)
        → Follows bolt fio now log (forget bolt (delete_object bolt io bucket key m)).0 f
    unfolding delete_object delete_object_internal delete_object_tx
    delete-Follows bucket key =
        logged-Follows bolt fio now log m f e h io true (λ u. delete_object_entry bucket key)
          (delete_object_tx bolt bucket key m.db) app
          (λ d a t. elim (Option-cases (bolt.get (obj_key bucket key) m.db.objects)) [
            | inl g ↦ elim (fail-done not_found (d, a) (rw (g, delete_object_tx) at t)) [ ]
            | inr (o, g) ↦
                ended_by (λ u. delete_object_entry bucket key) _
                  (delete-applied bolt fio quiet now f m.db h bucket key o g) d a
                  (rw (g, delete_object_tx) at t)
          ])

    pub new_bucket-Follows :
        (name : Bytes)
        → Follows bolt fio now log (forget bolt (create_bucket bolt io later name m)).0 f
    unfolding forget create_bucket create_bucket_tx
    new_bucket-Follows name = elim (Option-cases (validate_bucket_name name)) [
      | inr (x, bad) ↦ rw (bad, create_bucket) (unchanged bolt fio now log m f e h)
      | inl good ↦
          rw (good, create_bucket)
            (logged-Follows bolt fio now log m f e h io true create_bucket_entry
              (create_bucket_tx bolt later name m.db) app
              (λ d a t. elim (Option-cases (bolt.get name m.db.buckets)) [
                | inr (b, g) ↦
                    elim (fail-done already_exists (d, a) (rw (g, create_bucket_tx) at t)) [ ]
                | inl g ↦
                    ended_by create_bucket_entry _
                      (new_bucket-applied bolt fio quiet now f m.db h later name
                        (validate-nonempty name good))
                      d a (rw (g, create_bucket_tx) at t)
              ]))
    ]

    pub drop_bucket-Follows :
        (name : Bytes) → Follows bolt fio now log (forget bolt (delete_bucket bolt io name m)).0 f
    unfolding delete_bucket delete_bucket_internal delete_bucket_tx
    drop_bucket-Follows name =
        logged-Follows bolt fio now log m f e h io true (λ u. delete_bucket_entry name)
          (delete_bucket_tx bolt name m.db) app
          (λ d a t. elim (Option-cases (bolt.get name m.db.buckets)) [
            | inl g ↦ elim (fail-done not_found (d, a) (rw (g, delete_bucket_tx) at t)) [ ]
            | inr (b, g) ↦
                let prefix = name ++ b'/' ∷ [] in
                elim (Bool-cases
                  (found_prefix prefix (first_from prefix (bolt.items m.db.objects)))) [
                    | inl held ↦
                        elim (fail-done bucket_not_empty (d, a)
                          (rw held at (rw (g, delete_bucket_tx) at t))) [ ]
                    | inr clear ↦
                        ended_by (λ u. delete_bucket_entry name) _
                          (drop_bucket-applied bolt fio quiet now f m.db h name b g clear) d a
                          (rw clear at (rw (g, delete_bucket_tx) at t))
                  ]
          ])
