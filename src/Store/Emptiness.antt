-- ===== src/Store/Emptiness.antt =====
-- When DeleteBucket of store.go deletes a bucket: its search of the objects by prefix finds exactly the
-- objects of that bucket.
use kvfs.Base.{
  true, false, some, [], ◌∷◌, ◌++◌, ◌≡◌, ◌↔◌, inl, inr, refl, subst, ◌==◌, arith, Bool-cases,
  Option-cases, and-eq-true, ==_iff,
}
use kvfs.Base.Text.{Bytes, has_prefix}
use kvfs.Bolt.{Bolt}
use kvfs.Bolt.Laws.{seek-found, mem-of_seek}
use kvfs.Store.{ObjectMeta, BucketMeta, Db, not_found, bucket_not_empty, done, fail}
use kvfs.Store.Objects.{obj_key, normalize_legacy, get_object}
use kvfs.Store.Buckets.{bucket_has_objects, delete_bucket_tx}
use mathlib.Core.Path.{ap₂}

obj_key-prefix : (name key : Bytes) → has_prefix (obj_key name key) (name ++ b'/' ∷ []) ≡ true
unfolding obj_key has_prefix
obj_key-prefix [] key = refl
obj_key-prefix (c ∷ name) key = ground (arith, obj_key-prefix name key)

prefix-obj_key :
    (name k : Bytes)
    → has_prefix k (name ++ b'/' ∷ []) ≡ true
    → (key : Bytes) × (k ≡ obj_key name key)
unfolding obj_key has_prefix
prefix-obj_key [] [] h = absurd (cc h)
prefix-obj_key [] (a ∷ k) h = (k, ground (arith, h))
prefix-obj_key (c ∷ name) [] h = absurd (cc h)
prefix-obj_key (c ∷ name) (a ∷ k) h =
    let both = and-eq-true (a == c) (has_prefix k (name ++ b'/' ∷ [])) h in
    let rest = prefix-obj_key name k both.1 in
    (rest.0, ap₂ (λ x l. x ∷ l) ((==_iff a c).0 both.0) rest.1)

module _ (bolt : Bolt) where
  -- The search finds something exactly if the bucket has an object.
  found-object :
      (name : Bytes) (d : Db bolt)
      → bucket_has_objects bolt name d ≡ true
      → (key : Bytes) × (o : ObjectMeta) × (bolt.get (obj_key name key) d.objects ≡ some o)
  unfolding bucket_has_objects
  found-object name d h =
      let (e, m, p) = mem-of_seek (name ++ b'/' ∷ []) (bolt.items d.objects) h in
      let k = prefix-obj_key name e.0 p in
      (
        k.0,
        e.1,
        subst (λ z. bolt.get z d.objects ≡ some e.1) k.1 ((bolt.mem-items e.0 e.1 d.objects).0 m),
      )

  object-found :
      (name key : Bytes) (o : ObjectMeta) (d : Db bolt)
      → bolt.get (obj_key name key) d.objects ≡ some o
      → bucket_has_objects bolt name d ≡ true
  unfolding bucket_has_objects
  object-found name key o d g =
      seek-found (name ++ b'/' ∷ []) (bolt.items d.objects) (bolt.items-IsAscending d.objects)
        ((bolt.mem-items (obj_key name key) o d.objects).1 g) (obj_key-prefix name key)

  get_object-stored :
      (name key : Bytes) (o : ObjectMeta) (d : Db bolt)
      → bolt.get (obj_key name key) d.objects ≡ some o
      → get_object bolt name key d ≡ done (normalize_legacy o)
  unfolding get_object
  get_object-stored name key o d g = rw (g, get_object) refl

  get_object-absent :
      (name key : Bytes) (d : Db bolt)
      → bucket_has_objects bolt name d ≡ false
      → get_object bolt name key d ≡ fail not_found
  unfolding get_object
  get_object-absent name key d clear = elim (Option-cases (bolt.get (obj_key name key) d.objects)) [
    | inl g ↦ rw (g, get_object) refl
    | inr (o, g) ↦ absurd (cc (object-found name key o d g, clear))
  ]

  -- The outcome of the deletion of a bucket that exists: it is deleted exactly if no key of it reads
  -- as an object, and with an object in it the error is that it is not empty.
  pub delete_bucket-outcome :
      (name : Bytes) (b : BucketMeta) (d : Db bolt)
      → bolt.get name d.buckets ≡ some b
      → ((delete_bucket_tx bolt name d
            ≡ done (record d { buckets = bolt.del name d.buckets }, tt {0}))
          ↔ ((key : Bytes) → get_object bolt name key d ≡ fail not_found))
        × ((delete_bucket_tx bolt name d ≡ fail bucket_not_empty)
            ↔ ((key : Bytes) × (o : ObjectMeta) × (get_object bolt name key d ≡ done o)))
  unfolding delete_bucket_tx bucket_has_objects
  delete_bucket-outcome name b d g = elim (Bool-cases (bucket_has_objects bolt name d)) [
    | inl held ↦
        let (key, o, stored) = found-object name d held in
        let read : get_object bolt name key d ≡ done (normalize_legacy o) =
          get_object-stored name key o d stored in
        let refused : delete_bucket_tx bolt name d ≡ fail bucket_not_empty =
          rw (g, delete_bucket_tx) (rw held refl) in
        (
          (λ t. absurd (cc (refused, t)), λ all. absurd (cc (all key, read))),
          (λ t. (key, normalize_legacy o, read), λ w. refused),
        )
    | inr clear ↦
        let deleted : delete_bucket_tx bolt name d
            ≡ done (record d { buckets = bolt.del name d.buckets }, tt {0}) =
          rw (g, delete_bucket_tx) (rw clear refl) in
        (
          (λ t key. get_object-absent name key d clear, λ all. deleted),
          (
            λ t. absurd (cc (deleted, t)),
            λ w. absurd (cc (get_object-absent name w.0 d clear, w.2)),
          ),
        )
  ]
