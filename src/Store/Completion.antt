-- ===== src/Store/Completion.antt =====
-- The outcome of CompleteMultipartUpload of store.go, as its transaction.
use kvfs.Base.{
  ◌≢◌, ◌⊎◌, ◌∷◌, ◌++◌, Bool-cases, arith, true, Option, none, some, List, [], ◌≡◌, inl, inr, refl,
  sym, ap, ◌∙◌, subst, if◌then◌else◌, length, Option-cases,
}
use kvfs.Base.Text.{Bytes, beq}
use kvfs.Base.Int.{ℤ, pos, negsuc, eqb_ℤ, ◌+₆₄◌}
use kvfs.Base.Decimal.{format_int}
use kvfs.Bolt.{Bolt}
use kvfs.Store.{
  ObjectMeta, PartMeta, Upload, CompletePart, Db, not_found, done, fail, Io, Entry, Result,
  MetaStore, commit, then_log, answer, append_wal, complete_entry,
}
use kvfs.Store.Results.{fail-done, done-injective, Result-cases}
use kvfs.Store.Objects.{obj_key, next_version}
use kvfs.Store.Multipart.{multipart_key}
use kvfs.Store.Complete.{
  Assembly, nothing_yet, assemble, Completed, complete_etag, complete_tx, complete_multipart_upload,
}
use kvfs.Store.Assembly.{
  IsChosen, all_chunks, all_etags, total_size, Gathered, assemble-done, assemble-succeeds,
}

-- The version that follows what is stored.
abbrev pub IsNextVersion : Option ObjectMeta → ℤ → Type 0
IsNextVersion none v = v ≡ pos 1
IsNextVersion (some old) v =
    (v ≡ old.version +₆₄ pos 1) ⊎ ((old.version +₆₄ pos 1 ≡ pos 0) × (v ≡ pos 1))

eqb_ℤ-zero : (z : ℤ) → eqb_ℤ z (pos 0) ≡ true → z ≡ pos 0
eqb_ℤ-zero (pos n) h = ap pos (ground (arith, h))
eqb_ℤ-zero (negsuc n) h = absurd (cc h)

next_version-IsNextVersion :
    (prev : Option ObjectMeta) → IsNextVersion prev (next_version prev (pos 0))
unfolding next_version
next_version-IsNextVersion none = refl
next_version-IsNextVersion (some old) = elim (Bool-cases (eqb_ℤ (old.version +₆₄ pos 1) (pos 0))) [
  | inl e ↦ rw e (inr (eqb_ℤ-zero _ e, refl))
  | inr e ↦ rw e (inl refl)
]

module _ (bolt : Bolt) (sha_hex : Bytes → Bytes) where
  -- The upload was there and its parts were chosen; the object has their chunks in order, the sum of
  -- their sizes, the hash of their ETags with their number as its ETag, and the version after the one
  -- that was stored, 1 where there was none and never 0; it is stored, the upload is gone, and the rest
  -- of objects and uploads is as before.
  pub record IsCompletion (bucket key upload_id : Bytes) (wanted : List CompletePart) (d : Db bolt)
      (e : Db bolt) (c : Completed) : Type 0 where
    pub up : Upload
    pub stored : bolt.get (multipart_key bucket key upload_id) d.uploads ≡ some up
    pub chosen : IsChosen up.parts (pos 0) wanted c.parts
    pub chunks : c.object.chunks ≡ all_chunks c.parts
    pub size : c.object.size ≡ total_size (pos 0) c.parts
    pub etag :
        c.object.etag
        ≡ b'"'
          ∷ (sha_hex (all_etags c.parts) ++ b'-' ∷ (format_int (pos (length wanted)) ++ b'"' ∷ []))
    pub version : IsNextVersion (bolt.get (obj_key bucket key) d.objects) c.object.version
    pub objects :
        (k : Bytes)
        → bolt.get k e.objects
          ≡ (if beq (obj_key bucket key) k then some c.object else bolt.get k d.objects)
    pub uploads :
        (k : Bytes)
        → bolt.get k e.uploads
          ≡ (if beq (multipart_key bucket key upload_id) k then none else bolt.get k d.uploads)

  -- The end of a completion that assembled the parts.
  abbrev end_of :
      ℤ
      → Bytes
      → Bytes
      → Bytes
      → List CompletePart
      → Db bolt
      → Upload
      → Assembly
      → Db bolt × Completed
  end_of now bucket key upload_id wanted d up a =
      let obj : ObjectMeta = record {
        bucket = bucket;
        key = key;
        size = a.size;
        content_type = up.content_type;
        etag = complete_etag bolt sha_hex a.etags (length wanted);
        chunks = a.chunks;
        ec = none;
        stripes = [];
        version = next_version (bolt.get (obj_key bucket key) d.objects) (pos 0);
        created_at = some now;
        class_label = [];
        legacy_chunk_id = [];
        legacy_replicas = [];
      } in
      (
        record d {
          objects = bolt.put (obj_key bucket key) obj d.objects;
          uploads = bolt.del (multipart_key bucket key upload_id) d.uploads;
        },
        record { object = obj; parts = a.completed },
      )

  end_of-IsCompletion :
      (now : ℤ) (bucket key upload_id : Bytes) (wanted : List CompletePart) (d : Db bolt)
      (up : Upload) (a : Assembly)
      → bolt.get (multipart_key bucket key upload_id) d.uploads ≡ some up
      → assemble up.parts wanted nothing_yet ≡ done a
      → let r = end_of now bucket key upload_id wanted d up a in
        IsCompletion bucket key upload_id wanted d r.0 r.1
  unfolding nothing_yet Gathered complete_etag
  end_of-IsCompletion now bucket key upload_id wanted d up a g s =
      let (chosen, is, (chunks, etags, size, completed)) =
        assemble-done up.parts wanted nothing_yet a s in
      record {
        up = up;
        stored = g;
        chosen = subst (λ l. IsChosen up.parts (pos 0) wanted l) (sym completed) is;
        chunks = chunks ∙ ap all_chunks (sym completed);
        size = size ∙ ap (total_size (pos 0)) (sym completed);
        etag =
            ap (λ l. complete_etag bolt sha_hex l (length wanted))
              (etags ∙ ap all_etags (sym completed));
        version = next_version-IsNextVersion (bolt.get (obj_key bucket key) d.objects);
        objects = λ k. bolt.get-put (obj_key bucket key) k _ d.objects;
        uploads = λ k. bolt.get-del (multipart_key bucket key upload_id) k d.uploads;
      }

  -- The transaction of a completion, which does not see an empty list.
  complete_tx-done_iff :
      (now : ℤ) (bucket key upload_id : Bytes) (wanted : List CompletePart) (d : Db bolt)
      → ((e : Db bolt) (c : Completed)
          → complete_tx bolt sha_hex now bucket key upload_id wanted d ≡ done (e, c)
          → IsCompletion bucket key upload_id wanted d e c)
        × ((up : Upload) (chosen : List PartMeta)
            → bolt.get (multipart_key bucket key upload_id) d.uploads ≡ some up
            → IsChosen up.parts (pos 0) wanted chosen
            → (r : Db bolt × Completed) × (complete_tx bolt sha_hex now bucket key upload_id wanted
                  d
                ≡ done r))
  unfolding complete_tx nothing_yet
  complete_tx-done_iff now bucket key upload_id wanted d = (
    λ e c t. elim (Option-cases (bolt.get (multipart_key bucket key upload_id) d.uploads)) [
      | inl g ↦ absurd (fail-done not_found (e, c) (rw (g, complete_tx) at t))
      | inr (up, g) ↦ elim (Result-cases (assemble up.parts wanted nothing_yet)) [
        | inl (x, s) ↦ absurd (fail-done x (e, c) (rw s at (rw (g, complete_tx) at t)))
        | inr (a, s) ↦
            subst (λ r. IsCompletion bucket key upload_id wanted d r.0 r.1)
              (done-injective (end_of now bucket key upload_id wanted d up a) (e, c)
                (rw s at (rw (g, complete_tx) at t)))
              (end_of-IsCompletion now bucket key upload_id wanted d up a g s)
      ]
    ],
    λ up chosen g is.
        let (a, s) = assemble-succeeds up.parts nothing_yet refl is in
        (end_of now bucket key upload_id wanted d up a, (rw (g, complete_tx) (rw s refl))),
  )

  appended :
      (io : Io) (e : Entry) (m : MetaStore bolt) (a : Completed)
      → let r = answer bolt a (append_wal bolt io true e m) in
        (r.0.db ≡ m.db)
        × ((c : Completed) → r.1 ≡ done c → a ≡ c)
        × (io.append_error ≡ none → io.hook_error ≡ none → r.1 ≡ done a)
  unfolding answer append_wal
  appended io e m a = (ground arith, λ c h. ground (arith, h), λ x y. ground (arith, x, y))

  -- How a call ends, from how its transaction ends.
  logged :
      (io : Io) (entry : Completed → Entry) (m : MetaStore bolt) (t : Result (Db bolt × Completed))
      → let call = then_log bolt io true entry m (commit bolt io m.db t) in
        ((c : Completed) → call.1 ≡ done c → t ≡ done (call.0.db, c))
        × ((call.0.db ≡ m.db) ⊎ ((c : Completed) × (t ≡ done (call.0.db, c))))
        × (io.commit_error ≡ none
            → io.append_error ≡ none
            → io.hook_error ≡ none
            → (r : Db bolt × Completed) → t ≡ done r
            → (c : Completed) × (call.1 ≡ done c))
  unfolding then_log commit
  logged io entry m (fail e) = (λ c h. absurd (cc h), inl refl, λ x y z r h. absurd (cc h))
  logged io entry m (done (db, a)) =
      let (same, gives, fine) = appended io (entry a) (record m { db = db }) a in
      elim (Option-cases io.commit_error) [
        | inl quiet ↦ rw quiet (
          λ c h. cc (same, gives c h),
          inr (a, ap (λ x. done (x, a)) (sym same)),
          λ x y z r h. (a, fine y z),
        )
        | inr (text, bad) ↦
            rw bad (λ c h. absurd (fail-done _ c h), inl refl, λ x y z r h. absurd (cc x))
      ]

  -- CompleteMultipartUpload changes the database only by a completion, and it succeeds only with one.
  -- A completion of a list of parts that is not empty: the upload is there, the parts that are named
  -- are in it, with ascending numbers from 1 to 10000 and with the ETags named, where they are; the
  -- object stored has their chunks in order, the sum of their sizes, the ETag made of theirs and the
  -- next version; the upload is gone. And where the commit, the append to the WAL and its hook
  -- succeed, the list is not empty, the upload is there and has such parts, the call succeeds.
  pub complete-done_iff :
      (io : Io) (now : ℤ) (bucket key upload_id : Bytes) (wanted : List CompletePart)
      (m : MetaStore bolt)
      → let call = complete_multipart_upload bolt sha_hex io now bucket key upload_id wanted m in
        ((c : Completed)
          → call.1 ≡ done c
          → (wanted ≢ []) × IsCompletion bucket key upload_id wanted m.db call.0.db c)
        × ((call.0.db ≡ m.db)
            ⊎ ((wanted ≢ [])
                × ((c : Completed) × IsCompletion bucket key upload_id wanted m.db call.0.db c)))
        × (io.commit_error ≡ none
            → io.append_error ≡ none
            → io.hook_error ≡ none
            → wanted ≢ []
            → (up : Upload) (chosen : List PartMeta)
            → bolt.get (multipart_key bucket key upload_id) m.db.uploads ≡ some up
            → IsChosen up.parts (pos 0) wanted chosen
            → (c : Completed) × (call.1 ≡ done c))
  unfolding complete_multipart_upload
  complete-done_iff io now bucket key upload_id [] m =
      (λ c e. absurd (fail-done _ c e), inl refl, λ h a k ne up ch g i. absurd (ne refl))
  complete-done_iff io now bucket key upload_id (want ∷ wanted) m =
      let (only, changed, works) =
        logged io (λ r. complete_entry bucket key upload_id (some r.object)) m
          (complete_tx bolt sha_hex now bucket key upload_id (want ∷ wanted) m.db) in
      let (is, does) = complete_tx-done_iff now bucket key upload_id (want ∷ wanted) m.db in
      (
        λ c e. (λ h. absurd (cc h), is _ c (only c e)),
        elim changed [ inl same ↦ inl same | inr (c, t) ↦ inr (λ h. absurd (cc h), (c, is _ c t)) ],
        λ h a k ne up ch g i. let (r, t) = does up ch g i in works h a k r t,
      )
