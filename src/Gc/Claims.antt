-- ===== src/Gc/Claims.antt =====
-- The claimed set of gc.go against its meaning: an object claims a chunk on an address when one
-- of its chunk references or one of its shards names both.
use kvfs.Base.{Bool, false, List, [], ◌∷◌, ◌≡◌, refl, ◌∙◌, ◌||◌, ◌&&◌, arith}
use kvfs.Base.Text.{Bytes, beq, beq_iff}
use kvfs.Base.Assoc.{lookup, lookup-insert, contains}
use kvfs.Store.{ChunkRef, Stripe, ObjectMeta}
use kvfs.Gc.{
  Claimed, set_addr, set_addrs, claimants, add, add_refs, add_stripes, add_objects,
  build_claimed_set, is_claimed,
}

abbrev pub any {ℓ} : {A : Type ℓ} → (A → Bool) → List A → Bool
any test [] = false
any test (x ∷ xs) = test x || any test xs

module _ (id addr : Bytes) where
  abbrev pub ref_claims : ChunkRef → Bool
  ref_claims c = beq c.chunk_id id && contains c.replicas addr

  abbrev pub object_claims : ObjectMeta → Bool
  object_claims o = any ref_claims o.chunks || any (λ st. any ref_claims st.shards) o.stripes

  contains-set_addr :
      (set : List Bytes) (x : Bytes)
      → contains (set_addr set x) addr ≡ (beq x addr || contains set addr)
  unfolding set_addr contains
  contains-set_addr set x = ground (arith, beq_iff x addr)

  contains-set_addrs :
      (addrs set : List Bytes)
      → contains (set_addrs addrs set) addr ≡ (contains addrs addr || contains set addr)
  unfolding set_addrs contains
  contains-set_addrs [] set = refl
  contains-set_addrs (x ∷ addrs) set =
      ground (arith, contains-set_addrs addrs (set_addr set x), contains-set_addr set x)

  is_claimed-add :
      (out : Claimed) (c : ChunkRef)
      → is_claimed (add out c) id addr ≡ (ref_claims c || is_claimed out id addr)
  unfolding is_claimed add claimants
  is_claimed-add out c = ground (
    arith,
    lookup-insert c.chunk_id id (set_addrs c.replicas (claimants c.chunk_id out)) out,
    contains-set_addrs c.replicas (claimants c.chunk_id out),
    beq_iff c.chunk_id id,
  )

  is_claimed-add_refs :
      (cs : List ChunkRef) (out : Claimed)
      → is_claimed (add_refs cs out) id addr ≡ (any ref_claims cs || is_claimed out id addr)
  unfolding add_refs
  is_claimed-add_refs [] out = refl
  is_claimed-add_refs (c ∷ cs) out =
      ground (arith, is_claimed-add_refs cs (add out c), is_claimed-add out c)

  is_claimed-add_stripes :
      (stripes : List Stripe) (out : Claimed)
      → is_claimed (add_stripes stripes out) id addr
        ≡ (any (λ st. any ref_claims st.shards) stripes || is_claimed out id addr)
  unfolding add_stripes
  is_claimed-add_stripes [] out = refl
  is_claimed-add_stripes (st ∷ stripes) out = ground (
    arith,
    is_claimed-add_stripes stripes (add_refs st.shards out),
    is_claimed-add_refs st.shards out,
  )

  is_claimed-add_objects :
      (objs : List ObjectMeta) (out : Claimed)
      → is_claimed (add_objects objs out) id addr
        ≡ (any object_claims objs || is_claimed out id addr)
  unfolding add_objects
  is_claimed-add_objects [] out = refl
  is_claimed-add_objects (o ∷ objs) out = ground (
    arith,
    is_claimed-add_objects objs (add_stripes o.stripes (add_refs o.chunks out)),
    is_claimed-add_stripes o.stripes (add_refs o.chunks out),
    is_claimed-add_refs o.chunks out,
  )

  -- The claimed set holds a chunk at an address exactly when some object claims it there, in a
  -- chunk reference or in a shard of a stripe.
  pub is_claimed-build_claimed_set :
      (objs : List ObjectMeta)
      → is_claimed (build_claimed_set objs) id addr ≡ any object_claims objs
  unfolding build_claimed_set
  is_claimed-build_claimed_set objs =
      is_claimed-add_objects objs [] ∙ unfold is_claimed claimants lookup contains in ground arith
