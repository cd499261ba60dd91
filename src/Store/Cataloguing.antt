-- ===== src/Store/Cataloguing.antt =====
-- The store's transactions on objects carry out the abstract catalog.
use kvfs.Base.{
  false, Option, none, some, List, [], ◌≡◌, inl, inr, refl, sym, ap, ◌∙◌, subst, ◌&&◌, arith,
  Bool-cases, Option-cases,
}
use kvfs.Base.Text.{Bytes, beq, is_empty}
use kvfs.Base.Int.{ℤ}
use kvfs.Base.Decimal.{out_of_range}
use kvfs.Bolt.{Bolt}
use kvfs.Store.{
  ChunkRef, Stripe, ObjectMeta, is_ec, Db, not_found, out_of_range, not_ec, done, fail,
}
use kvfs.Store.Objects.{
  obj_key, next_version, normalize_legacy, replaced, replaced_shard, put_object_tx, get_object,
  update_chunk_replicas_tx, update_shard_replicas_tx, delete_object_tx,
}
use kvfs.Store.Catalog.{
  has_slash, obj_key-injective, ObjectCall, Reply, CatalogState, set, catalog_step, settle,
  read_reply, perform, put_now, delete_one, move_chunk, move_shard, read,
}

-- What readers see of a record.
unfoldable pub seen : Option ObjectMeta → Option ObjectMeta
seen none = none
seen (some o) = some (normalize_legacy o)

chunks-clean : (o : ObjectMeta) → o.legacy_chunk_id ≡ [] → (normalize_legacy o).chunks ≡ o.chunks
unfolding normalize_legacy is_empty
chunks-clean o e = ground (arith, e)

-- A record without legacy fields is seen as it is.
normalize-clean :
    (o : ObjectMeta) → o.legacy_chunk_id ≡ [] → o.legacy_replicas ≡ [] → normalize_legacy o ≡ o
unfolding normalize_legacy
normalize-clean o e₁ e₂ = λ i. record o {
  chunks = chunks-clean o e₁ i;
  legacy_chunk_id = sym e₁ i;
  legacy_replicas = sym e₂ i;
}

next_version-seen :
    (prev : Option ObjectMeta) (v : ℤ) → next_version (seen prev) v ≡ next_version prev v
unfolding seen next_version normalize_legacy
next_version-seen none v = refl
next_version-seen (some o) v = refl

module _ (bolt : Bolt) where
  abbrev pub Represents : CatalogState → Db bolt → Type 0
  Represents s d =
      (b k : Bytes) → has_slash b ≡ false → seen (bolt.get (obj_key b k) d.objects) ≡ s b k

  set-Represents :
      (s : CatalogState) (d : Db bolt) (bucket key : Bytes) (o : ObjectMeta)
      → Represents s d
      → has_slash bucket ≡ false
      → Represents
          (set bucket key (seen (some o)) s)
          (record d { objects = bolt.put (obj_key bucket key) o d.objects })
  unfolding set
  set-Represents s d bucket key o h p b k q =
      rw
        (
          bolt.get-put (obj_key bucket key) (obj_key b k) o d.objects,
          obj_key-injective bucket b key k p q,
        )
        (elim (Bool-cases (beq bucket b && beq key k)) [
          | inl e ↦ rw e refl
          | inr e ↦ rw e (h b k q)
        ])

  del-Represents :
      (s : CatalogState) (d : Db bolt) (bucket key : Bytes)
      → Represents s d
      → has_slash bucket ≡ false
      → Represents
          (set bucket key none s)
          (record d { objects = bolt.del (obj_key bucket key) d.objects })
  unfolding set seen
  del-Represents s d bucket key h p b k q =
      rw
        (
          bolt.get-del (obj_key bucket key) (obj_key b k) d.objects,
          obj_key-injective bucket b key k p q,
        )
        (elim (Bool-cases (beq bucket b && beq key k)) [
          | inl e ↦ rw e refl
          | inr e ↦ rw e (h b k q)
        ])

  -- One call: the same reply, and the states go on to correspond.
  unfoldable pub Simulates : CatalogState → Db bolt → ObjectCall → Type 0
  Simulates s d c =
      ((perform bolt c d).1 ≡ (catalog_step c s).1)
      × Represents (catalog_step c s).0 (perform bolt c d).0

  simulated :
      (c : ObjectCall) (s t : CatalogState) (d e : Db bolt) (r : Reply)
      → perform bolt c d ≡ (e, r)
      → catalog_step c s ≡ (t, r)
      → Represents t e
      → Simulates s d c
  unfolding Simulates
  simulated c s t d e r impl spec h = rw (impl, spec) (refl, h)

  pub put-Simulates :
      (now : ℤ) (obj : ObjectMeta) (s : CatalogState) (d : Db bolt)
      → Represents s d
      → has_slash obj.bucket ≡ false
      → Simulates s d (put_now now obj)
  unfolding Simulates perform catalog_step settle put_object_tx seen
  put-Simulates now obj s d h p =
      let v : next_version (bolt.get (obj_key obj.bucket obj.key) d.objects) obj.version
          ≡ next_version (s obj.bucket obj.key) obj.version =
        sym (next_version-seen _ obj.version)
        ∙ ap (λ o. next_version o obj.version) (h obj.bucket obj.key p) in
      rw (sym v) (refl, set-Represents s d obj.bucket obj.key _ h p)

  -- What readers see of an object, from what is stored.
  seen_none :
      (bucket key : Bytes) (s : CatalogState) (d : Db bolt)
      → Represents s d
      → has_slash bucket ≡ false
      → bolt.get (obj_key bucket key) d.objects ≡ none
      → s bucket key ≡ none
  unfolding seen
  seen_none bucket key s d h p g = sym (h bucket key p) ∙ ap seen g

  seen_some :
      (bucket key : Bytes) (s : CatalogState) (d : Db bolt) (o : ObjectMeta)
      → Represents s d
      → has_slash bucket ≡ false
      → bolt.get (obj_key bucket key) d.objects ≡ some o
      → s bucket key ≡ some (normalize_legacy o)
  unfolding seen
  seen_some bucket key s d o h p g = sym (h bucket key p) ∙ ap seen g

  pub delete-Simulates :
      (bucket key : Bytes) (s : CatalogState) (d : Db bolt)
      → Represents s d
      → has_slash bucket ≡ false
      → Simulates s d (delete_one bucket key)
  unfolding perform catalog_step settle delete_object_tx set
  delete-Simulates bucket key s d h p =
      elim (Option-cases (bolt.get (obj_key bucket key) d.objects)) [
        | inl g ↦
            simulated (delete_one bucket key) s s d d (fail not_found)
              (rw (g, perform, delete_object_tx) refl)
              (rw (seen_none bucket key s d h p g, catalog_step) refl) h
        | inr (o, g) ↦
            simulated (delete_one bucket key) s (set bucket key none s) d
              (record d { objects = bolt.del (obj_key bucket key) d.objects }) (done none)
              (rw (g, perform, delete_object_tx) refl)
              (rw (seen_some bucket key s d o h p g, catalog_step) refl)
              (del-Represents s d bucket key h p)
      ]

  pub read-Simulates :
      (bucket key : Bytes) (s : CatalogState) (d : Db bolt)
      → Represents s d
      → has_slash bucket ≡ false
      → Simulates s d (read bucket key)
  unfolding perform catalog_step read_reply get_object
  read-Simulates bucket key s d h p =
      elim (Option-cases (bolt.get (obj_key bucket key) d.objects)) [
        | inl g ↦
            simulated (read bucket key) s s d d (fail not_found) (rw (g, perform, get_object) refl)
              (rw (seen_none bucket key s d h p g, catalog_step) refl) h
        | inr (o, g) ↦
            simulated (read bucket key) s s d d (done (some (normalize_legacy o)))
              (rw (g, perform, get_object) refl)
              (rw (seen_some bucket key s d o h p g, catalog_step) refl) h
      ]

  -- A normalized record with other chunks or other stripes is seen as it is.
  seen-chunks :
      (o : ObjectMeta) (chunks : List ChunkRef)
      → seen (some (record (normalize_legacy o) { chunks = chunks }))
        ≡ some (record (normalize_legacy o) { chunks = chunks })
  unfolding seen normalize_legacy
  seen-chunks o chunks =
      ap some (normalize-clean (record (normalize_legacy o) { chunks = chunks }) refl refl)

  seen-stripes :
      (o : ObjectMeta) (stripes : List Stripe)
      → seen (some (record (normalize_legacy o) { stripes = stripes }))
        ≡ some (record (normalize_legacy o) { stripes = stripes })
  unfolding seen normalize_legacy
  seen-stripes o stripes =
      ap some (normalize-clean (record (normalize_legacy o) { stripes = stripes }) refl refl)

  pub move_chunk-Simulates :
      (bucket key : Bytes) (i : ℤ) (replicas : List Bytes) (s : CatalogState) (d : Db bolt)
      → Represents s d
      → has_slash bucket ≡ false
      → Simulates s d (move_chunk bucket key i replicas)
  unfolding perform catalog_step settle update_chunk_replicas_tx set
  move_chunk-Simulates bucket key i replicas s d h p =
      let c = move_chunk bucket key i replicas in
      elim (Option-cases (bolt.get (obj_key bucket key) d.objects)) [
        | inl g ↦
            simulated c s s d d (fail not_found) (rw (g, perform, update_chunk_replicas_tx) refl)
              (rw (seen_none bucket key s d h p g, catalog_step) refl) h
        | inr (raw, g) ↦
            let o = normalize_legacy raw in
            let e = seen_some bucket key s d raw h p g in
            elim (Option-cases (replaced i replicas o.chunks)) [
              | inl x ↦
                  simulated c s s d d (fail out_of_range)
                    (rw (g, perform, update_chunk_replicas_tx) (rw x refl))
                    (rw (e, catalog_step) (rw x refl)) h
              | inr (chunks, x) ↦
                  let new : ObjectMeta = record o { chunks = chunks } in
                  simulated c s (set bucket key (some new) s) d
                    (record d { objects = bolt.put (obj_key bucket key) new d.objects }) (done none)
                    (rw (g, perform, update_chunk_replicas_tx) (rw x refl))
                    (rw (e, catalog_step) (rw x refl))
                    (subst
                      (λ z.
                        Represents (set bucket key z s)
                          (record d { objects = bolt.put (obj_key bucket key) new d.objects }))
                      (seen-chunks raw chunks) (set-Represents s d bucket key new h p))
            ]
      ]

  pub move_shard-Simulates :
      (bucket key : Bytes) (i j : ℤ) (replicas : List Bytes) (s : CatalogState) (d : Db bolt)
      → Represents s d
      → has_slash bucket ≡ false
      → Simulates s d (move_shard bucket key i j replicas)
  unfolding perform catalog_step settle update_shard_replicas_tx set
  move_shard-Simulates bucket key i j replicas s d h p =
      let c = move_shard bucket key i j replicas in
      elim (Option-cases (bolt.get (obj_key bucket key) d.objects)) [
        | inl g ↦
            simulated c s s d d (fail not_found) (rw (g, perform, update_shard_replicas_tx) refl)
              (rw (seen_none bucket key s d h p g, catalog_step) refl) h
        | inr (raw, g) ↦
            let o = normalize_legacy raw in
            let e = seen_some bucket key s d raw h p g in
            elim (Bool-cases (is_ec o)) [
              | inr x ↦
                  simulated c s s d d (fail not_ec)
                    (rw (g, perform, update_shard_replicas_tx) (rw x refl))
                    (rw (e, catalog_step) (rw x refl)) h
              | inl y ↦ elim (Option-cases (replaced_shard i j replicas o.stripes)) [
                | inl x ↦
                    simulated c s s d d (fail out_of_range)
                      (rw (g, perform, update_shard_replicas_tx) (rw (y, x) refl))
                      (rw (e, catalog_step) (rw (y, x) refl)) h
                | inr (stripes, x) ↦
                    let new : ObjectMeta = record o { stripes = stripes } in
                    simulated c s (set bucket key (some new) s) d
                      (record d { objects = bolt.put (obj_key bucket key) new d.objects })
                      (done none) (rw (g, perform, update_shard_replicas_tx) (rw (y, x) refl))
                      (rw (e, catalog_step) (rw (y, x) refl))
                      (subst
                        (λ z.
                          Represents (set bucket key z s)
                            (record d { objects = bolt.put (obj_key bucket key) new d.objects }))
                        (seen-stripes raw stripes) (set-Represents s d bucket key new h p))
              ]
            ]
      ]
