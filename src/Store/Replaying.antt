-- ===== src/Store/Replaying.antt =====
-- One entry of the WAL, applied to a database that agrees with the leader's: what each operation logs
-- makes of it what the operation made of the leader's.
use kvfs.Base.{
  Bool, false, Option, none, some, List, [], ◌∷◌, ◌++◌, ◌≡◌, refl, sym, ◌∙◌, if◌then◌else◌, arith,
}
use kvfs.Base.Int.{ℤ, eqb_ℤ, pos, negsuc}
use kvfs.Bolt.{Bolt, first_from, found_prefix}
use kvfs.Store.Objects.{
  obj_key, next_version, time_or, put_object_tx, put_object_full, delete_object_tx,
  delete_object_internal,
}
use kvfs.Base.Text.{Bytes, is_empty}
use kvfs.Store.Buckets.{create_bucket_replay, delete_bucket_tx, delete_bucket_internal}
use kvfs.Store.Apply.{forget, apply_entry}
use kvfs.Store.Agreement.{Agrees, put-put, del-del, seek-agree}
use kvfs.Store.{
  ObjectMeta, BucketMeta, Error, Result, Entry, Io, Db, MetaStore, commit, append_wal, answer,
  then_log, without_log, commit_failed, done, fail, put_object_entry, delete_object_entry,
  create_bucket_entry, delete_bucket_entry,
}

eqb_ℤ_zero : (v : ℤ) → eqb_ℤ (if eqb_ℤ v (pos 0) then pos 1 else v) (pos 0) ≡ false
eqb_ℤ_zero (pos n) = ground arith
eqb_ℤ_zero (negsuc n) = refl

next_version_idem :
    (prev : Option ObjectMeta) (v : ℤ)
    → next_version prev (next_version prev v) ≡ next_version prev v
unfolding next_version
next_version_idem none v = rw (eqb_ℤ_zero v) refl
next_version_idem (some p) v = refl

time_or_idem : (now later : ℤ) (t : Option ℤ) → time_or later (time_or now t) ≡ time_or now t
unfolding time_or
time_or_idem now later none = refl
time_or_idem now later (some t) = refl

module _ (bolt : Bolt) where
  pub commit-done :
      {A : Type 0} (io : Io) (d next : Db bolt) (a : A)
      → io.commit_error ≡ none
      → commit bolt io d (done (next, a)) ≡ (next, done a)
  unfolding commit
  commit-done io d next a h = rw h refl

  pub commit-refused :
      {A : Type 0} (io : Io) (d next : Db bolt) (a : A) (text : Bytes)
      → io.commit_error ≡ some text
      → commit bolt io d (done (next, a)) ≡ (d, fail (commit_failed text))
  unfolding commit
  commit-refused io d next a text h = rw h refl

  answer-store :
      {A : Type 0} (a : A) (x : MetaStore bolt × Option Error) → (answer bolt a x).0 ≡ x.0
  unfolding answer
  answer-store a (m, none) = refl
  answer-store a (m, some e) = refl

  -- A successful append, whatever the hook says.
  pub then_log-appended :
      {A : Type 0} (io : Io) (fire : Bool) (entry : A → Entry) (m : MetaStore bolt)
      (log : List Entry) (d : Db bolt) (a : A)
      → m.wal ≡ some log
      → io.append_error ≡ none
      → (then_log bolt io fire entry m (d, done a)).0
        ≡ record { db = d; wal = some (log ++ entry a ∷ []) }
  unfolding then_log append_wal
  then_log-appended io fire entry m log d a e app =
      rw (answer-store a (append_wal bolt io fire (entry a) (record m { db = d })))
        (rw (e, append_wal) (rw app refl))

  pub forget-store : {A : Type 0} (x : MetaStore bolt × Result A) → (forget bolt x).0 ≡ x.0
  unfolding forget
  forget-store (m, done a) = refl
  forget-store (m, fail e) = refl

  -- The follower applies the entry without an error, and then agrees with the database given.
  pub record Applied (io : Io) (now : ℤ) (entry : Entry) (f : MetaStore bolt) (d : Db bolt)
      : Type 0 where
    pub agreed : Agrees bolt d (apply_entry bolt io now entry f).0.db
    pub ended : (apply_entry bolt io now entry f).1 ≡ none

  module _ (io : Io) (quiet : io.commit_error ≡ none) (now : ℤ) (f : MetaStore bolt) where
    -- An entry whose replay ends by one commit.
    pub applied :
        {A : Type 0} (entry : Entry) (d next : Db bolt) (a : A) (tx : Result (Db bolt × A))
        → apply_entry bolt io now entry f
          ≡ forget bolt (without_log bolt f (commit bolt io f.db tx))
        → tx ≡ done (next, a)
        → Agrees bolt d next
        → Applied io now entry f d
    unfolding forget without_log
    applied entry d next a tx e t h =
        let eq : apply_entry bolt io now entry f ≡ (record f { db = next }, none) =
          rw (e, t, commit-done io f.db next a quiet) refl in
        record { agreed = rw eq h; ended = rw eq refl }

    module _ (d : Db bolt) (h : Agrees bolt d f.db) where
      pub put-applied :
          (later : ℤ) (obj : ObjectMeta)
          → let k = obj_key obj.bucket obj.key in
            let stored : ObjectMeta = record obj {
              version = next_version (bolt.get k d.objects) obj.version;
              created_at = time_or later obj.created_at;
            } in
            Applied io now
              (put_object_entry stored)
              f
              (record d { objects = bolt.put k stored d.objects })
      unfolding apply_entry put_object_full put_object_tx
      put-applied later obj =
          let k = obj_key obj.bucket obj.key in
          let stored : ObjectMeta = record obj {
            version = next_version (bolt.get k d.objects) obj.version;
            created_at = time_or later obj.created_at;
          } in
          let again : ObjectMeta = record stored {
            version = next_version (bolt.get k f.db.objects) stored.version;
            created_at = time_or now stored.created_at;
          } in
          let same : stored ≡ again =
            rw
              (
                sym (h.objects k),
                next_version_idem (bolt.get k d.objects) obj.version,
                time_or_idem later now obj.created_at,
              )
              refl in
          applied (put_object_entry stored) _
            (record f.db { objects = bolt.put k again f.db.objects }) again _ refl refl
            (record {
              objects = put-put bolt k stored again d.objects f.db.objects h.objects same;
              buckets = h.buckets;
              uploads = h.uploads;
              runtime_dns = h.runtime_dns;
            })

      pub delete-applied :
          (bucket key : Bytes) (o : ObjectMeta)
          → bolt.get (obj_key bucket key) d.objects ≡ some o
          → Applied io now
              (delete_object_entry bucket key)
              f
              (record d { objects = bolt.del (obj_key bucket key) d.objects })
      unfolding apply_entry delete_object_internal delete_object_tx
      delete-applied bucket key o e =
          let k = obj_key bucket key in
          let found : bolt.get k f.db.objects ≡ some o = sym (h.objects k) ∙ e in
          applied (delete_object_entry bucket key) _
            (record f.db { objects = bolt.del k f.db.objects }) (tt {0}) _ refl
            (rw (found, delete_object_tx) refl)
            (record {
              objects = del-del bolt k d.objects f.db.objects h.objects;
              buckets = h.buckets;
              uploads = h.uploads;
              runtime_dns = h.runtime_dns;
            })

      pub new_bucket-applied :
          (later : ℤ) (name : Bytes)
          → is_empty name ≡ false
          → let meta : BucketMeta = record { name = name; created_at = some later } in
            Applied io now
              (create_bucket_entry meta)
              f
              (record d { buckets = bolt.put name meta d.buckets })
      unfolding apply_entry create_bucket_replay time_or
      new_bucket-applied later name e =
          let meta : BucketMeta = record { name = name; created_at = some later } in
          applied (create_bucket_entry meta) _
            (record f.db { buckets = bolt.put name meta f.db.buckets }) (tt {0}) (done _)
            (rw (e, apply_entry) refl) refl
            (record {
              objects = h.objects;
              buckets = put-put bolt name meta meta d.buckets f.db.buckets h.buckets refl;
              uploads = h.uploads;
              runtime_dns = h.runtime_dns;
            })

      pub drop_bucket-applied :
          (name : Bytes) (b : BucketMeta)
          → bolt.get name d.buckets ≡ some b
          → (let prefix = name ++ b'/' ∷ [] in
              found_prefix prefix (first_from prefix (bolt.items d.objects)) ≡ false)
          → Applied io now
              (delete_bucket_entry name)
              f
              (record d { buckets = bolt.del name d.buckets })
      unfolding apply_entry delete_bucket_internal delete_bucket_tx
      drop_bucket-applied name b e none_left =
          let prefix = name ++ b'/' ∷ [] in
          let found : bolt.get name f.db.buckets ≡ some b = sym (h.buckets name) ∙ e in
          let clear : found_prefix prefix (first_from prefix (bolt.items f.db.objects)) ≡ false =
            sym (seek-agree bolt prefix d.objects f.db.objects h.objects) ∙ none_left in
          applied (delete_bucket_entry name) _
            (record f.db { buckets = bolt.del name f.db.buckets }) (tt {0}) _ refl
            (rw (found, delete_bucket_tx) (rw clear refl))
            (record {
              objects = h.objects;
              buckets = del-del bolt name d.buckets f.db.buckets h.buckets;
              uploads = h.uploads;
              runtime_dns = h.runtime_dns;
            })
