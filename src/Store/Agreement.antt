-- ===== src/Store/Agreement.antt =====
-- When two databases agree on what the WAL of store.go carries, and what keeps them so. The tables of
-- URL keys and of storage nodes, which no entry of the WAL is about, are not compared.
use kvfs.Base.{Option, none, some, ◌≡◌, inl, inr, refl, ap, Bool-cases}
use kvfs.Base.Text.{Bytes, beq}
use kvfs.Base.Int.{pos}
use kvfs.Bolt.{Bolt, first_from, found_prefix}
use kvfs.Bolt.Laws.{items_ext}
use kvfs.Store.{RuntimeDn, Db}

-- An entry of the runtime registry without its time.
unfoldable pub timeless : Option RuntimeDn → Option RuntimeDn
timeless none = none
timeless (some e) = some (record e { registered_at = pos 0 })

module _ (bolt : Bolt) where
  -- The same objects, buckets and uploads, and the same runtime registry except for its times.
  pub record Agrees (d e : Db bolt) : Type 0 where
    pub objects : (k : Bytes) → bolt.get k d.objects ≡ bolt.get k e.objects
    pub buckets : (k : Bytes) → bolt.get k d.buckets ≡ bolt.get k e.buckets
    pub uploads : (k : Bytes) → bolt.get k d.uploads ≡ bolt.get k e.uploads
    pub runtime_dns :
        (k : Bytes) → timeless (bolt.get k d.runtime_dns) ≡ timeless (bolt.get k e.runtime_dns)

  pub Agrees-refl : (d : Db bolt) → Agrees d d
  Agrees-refl d = record {
    objects = λ k. refl;
    buckets = λ k. refl;
    uploads = λ k. refl;
    runtime_dns = λ k. refl;
  }

  pub put-put :
      {V : Type 0} (k : Bytes) (v w : V) (b c : bolt.Bucket V)
      → ((j : Bytes) → bolt.get j b ≡ bolt.get j c)
      → v ≡ w
      → (j : Bytes) → bolt.get j (bolt.put k v b) ≡ bolt.get j (bolt.put k w c)
  put-put k v w b c h e j = rw (bolt.get-put k j v b, bolt.get-put k j w c, h j, e) refl

  pub del-del :
      {V : Type 0} (k : Bytes) (b c : bolt.Bucket V)
      → ((j : Bytes) → bolt.get j b ≡ bolt.get j c)
      → (j : Bytes) → bolt.get j (bolt.del k b) ≡ bolt.get j (bolt.del k c)
  del-del k b c h j = rw (bolt.get-del k j b, bolt.get-del k j c, h j) refl

  pub put-timeless :
      (k : Bytes) (v w : RuntimeDn) (b c : bolt.Bucket RuntimeDn)
      → ((j : Bytes) → timeless (bolt.get j b) ≡ timeless (bolt.get j c))
      → timeless (some v) ≡ timeless (some w)
      → (j : Bytes)
      → timeless (bolt.get j (bolt.put k v b)) ≡ timeless (bolt.get j (bolt.put k w c))
  put-timeless k v w b c h e j =
      rw (bolt.get-put k j v b, bolt.get-put k j w c)
        (elim (Bool-cases (beq k j)) [ inl f ↦ rw f e | inr f ↦ rw f (h j) ])

  pub del-timeless :
      (k : Bytes) (b c : bolt.Bucket RuntimeDn)
      → ((j : Bytes) → timeless (bolt.get j b) ≡ timeless (bolt.get j c))
      → (j : Bytes) → timeless (bolt.get j (bolt.del k b)) ≡ timeless (bolt.get j (bolt.del k c))
  del-timeless k b c h j =
      rw (bolt.get-del k j b, bolt.get-del k j c)
        (elim (Bool-cases (beq k j)) [ inl f ↦ rw f refl | inr f ↦ rw f (h j) ])

  pub seek-agree :
      {V : Type 0} (p : Bytes) (b c : bolt.Bucket V)
      → ((j : Bytes) → bolt.get j b ≡ bolt.get j c)
      → found_prefix p (first_from p (bolt.items b)) ≡ found_prefix p (first_from p (bolt.items c))
  seek-agree p b c h = ap (λ l. found_prefix p (first_from p l)) (items_ext bolt b c h)
