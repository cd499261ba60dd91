-- ===== src/Audit/Meaning.antt =====
-- What the two inventories hold, in terms of the metadata and of the disk, and with it what the audit
-- reports.
use kvfs.Base.{
  ℕ, zero, suc, ◌+◌, ◌≤◌, ◌<◌, Bool, true, false, List, [], ◌∷◌, ◌++◌, ◌≡◌, inl, inr, refl, sym,
  ◌∙◌, ◌==◌, ◌&&◌, ◌||◌, not, length, arith, Bool-cases,
}
use kvfs.Base.Text.{Bytes, beq, is_empty, beq_iff}
use kvfs.Base.Assoc.{contains}
use kvfs.Store.{ChunkRef, Stripe, ObjectMeta}
use kvfs.Audit.{
  Inventory, is_hex_digit, all_hex, valid_hex64, nibble, bucket_of, add_expected, add_replicas,
  add_chunks, add_shards, add_objects, expected_chunks, File, is_chunk_file, ids_in, inventory,
}
use kvfs.Audit.Diff.{Ascends}
use kvfs.Audit.Exact.{
  some_from, some_from-none, contains-append_lem, contains-sort, lacks, TellsApart, audit_of,
  audit_one_dn-exact_lem,
}
use kvfs.Gc.Claims.{any, ref_claims, object_claims}

module _ (node x : Bytes) (i : ℕ) where
  -- The id is one that the expectation of a node takes, in this bucket.
  abbrev fits : Bool
  fits = not (is_empty node) && valid_hex64 x && (bucket_of x == i)

  contains-add_expected :
      (dn id : Bytes) (inv : Inventory)
      → contains (add_expected node dn id inv i) x
        ≡ (contains (inv i) x || (beq dn node && beq id x && fits))
  unfolding add_expected contains
  contains-add_expected dn id inv =
      ground (arith, contains-append_lem (inv i) (id ∷ []) x, beq_iff dn node, beq_iff id x)

  contains-add_replicas :
      (id : Bytes) (replicas : List Bytes) (inv : Inventory)
      → contains (add_replicas node id replicas inv i) x
        ≡ (contains (inv i) x || (beq id x && contains replicas node && fits))
  unfolding add_replicas contains
  contains-add_replicas id [] inv = ground arith
  contains-add_replicas id (dn ∷ replicas) inv = ground (
    arith,
    contains-add_replicas id replicas (add_expected node dn id inv),
    contains-add_expected dn id inv,
  )

  contains-add_chunks :
      (chunks : List ChunkRef) (inv : Inventory)
      → contains (add_chunks node chunks inv i) x
        ≡ (contains (inv i) x || (any (ref_claims x node) chunks && fits))
  unfolding add_chunks
  contains-add_chunks [] inv = ground arith
  contains-add_chunks (c ∷ chunks) inv = ground (
    arith,
    contains-add_chunks chunks (add_replicas node c.chunk_id c.replicas inv),
    contains-add_replicas c.chunk_id c.replicas inv,
  )

  contains-add_shards :
      (stripes : List Stripe) (inv : Inventory)
      → contains (add_shards node stripes inv i) x
        ≡ (contains (inv i) x || (any (λ st. any (ref_claims x node) st.shards) stripes && fits))
  unfolding add_shards
  contains-add_shards [] inv = ground arith
  contains-add_shards (st ∷ stripes) inv = ground (
    arith,
    contains-add_shards stripes (add_chunks node st.shards inv),
    contains-add_chunks st.shards inv,
  )

  contains-add_objects :
      (objs : List ObjectMeta) (inv : Inventory)
      → contains (add_objects node objs inv i) x
        ≡ (contains (inv i) x || (any (object_claims x node) objs && fits))
  unfolding add_objects
  contains-add_objects [] inv = ground arith
  contains-add_objects (o ∷ objs) inv = ground (
    arith,
    contains-add_objects objs (add_shards node o.stripes (add_chunks node o.chunks inv)),
    contains-add_shards o.stripes (add_chunks node o.chunks inv),
    contains-add_chunks o.chunks inv,
  )

  contains-expected_chunks :
      (objs : List ObjectMeta)
      → contains (expected_chunks node objs i) x ≡ (any (object_claims x node) objs && fits)
  unfolding expected_chunks contains
  contains-expected_chunks objs =
      contains-sort (add_objects node objs (λ j. []) i) x ∙ contains-add_objects objs (λ j. [])

-- A chunk file with this id.
abbrev is_file_of : Bytes → File → Bool
is_file_of x f =
    (length f.dir == 2) && (length f.base == 62) && valid_hex64 x && beq (f.dir ++ f.base) x

bucket_of-dir :
    (dir base : Bytes) → (length dir == 2) ≡ true → bucket_of (dir ++ base) ≡ bucket_of dir
unfolding bucket_of
bucket_of-dir [] base h = cc
bucket_of-dir (a ∷ []) base h = absurd (cc h)
bucket_of-dir (a ∷ b ∷ []) base h = refl
bucket_of-dir (a ∷ b ∷ c ∷ dir) base h = absurd (ground (arith, h))

contains-ids_in :
    (i : ℕ) (files : List File) (x : Bytes)
    → contains (ids_in i files) x ≡ (any (is_file_of x) files && (bucket_of x == i))
unfolding ids_in is_chunk_file contains
contains-ids_in i [] x = refl
contains-ids_in i (f ∷ files) x =
    ground
      (arith, contains-ids_in i files x, beq_iff (f.dir ++ f.base) x, bucket_of-dir f.dir f.base)

contains-inventory :
    (i : ℕ) (files : List File) (x : Bytes)
    → contains (inventory files i) x ≡ (any (is_file_of x) files && (bucket_of x == i))
unfolding inventory
contains-inventory i files x = contains-sort (ids_in i files) x ∙ contains-ids_in i files x

is_hex_digit-nibble_lt : (c : ℕ) → is_hex_digit c ≡ true → nibble c < 16
unfolding is_hex_digit nibble
is_hex_digit-nibble_lt c h = ground (arith, h)

-- A valid id stands in one of the 256 buckets.
bucket_of-lt : (x : Bytes) → valid_hex64 x ≡ true → bucket_of x < 256
unfolding valid_hex64 all_hex bucket_of
bucket_of-lt [] h = absurd (cc h)
bucket_of-lt (a ∷ []) h = absurd (cc h)
bucket_of-lt (a ∷ b ∷ x) h = ground (arith, h, is_hex_digit-nibble_lt a, is_hex_digit-nibble_lt b)

other_number : (b i j : ℕ) → (b == i) ≡ true → suc i ≤ j → (b == j) ≡ false
other_number b i j e k = ground (arith, e, k)

some_from-at :
    (i n b : ℕ) (p : Bool) (test : ℕ → Bool)
    → i ≤ b
    → b < i + n
    → ((j : ℕ) → test j ≡ ((b == j) && p))
    → some_from i n test ≡ p
unfolding some_from
some_from-at i zero b p test le lt h = absurd (omega (arith, le, lt))
some_from-at i (suc n) b p test le lt h = elim (Bool-cases (b == i)) [
  | inl e ↦
      let after_it =
        some_from-none (suc i) n test (λ j k l. h j ∙ ground (arith, other_number b i j e k)) in
      rw (h i, e, after_it) (ground arith)
  | inr e ↦
      rw (h i, e) (some_from-at (suc i) n b p test (ground (arith, e, le)) (omega (arith, lt)) h)
]

no_file : (x : Bytes) (files : List File) → valid_hex64 x ≡ false → any (is_file_of x) files ≡ false
no_file x [] h = refl
no_file x (f ∷ files) h = ground (arith, h, no_file x files h)

module _ (dn : Bytes) (objs : List ObjectMeta) (files : List File) (x : Bytes) where
  -- The metadata names the node for the chunk, and the disk has a file of it.
  abbrev pub is_expected : Bool
  is_expected = any (object_claims x dn) objs && not (is_empty dn) && valid_hex64 x

  abbrev pub is_on_disk : Bool
  is_on_disk = any (is_file_of x) files

  missing_at :
      (j : ℕ)
      → lacks (expected_chunks dn objs) (inventory files) x j
        ≡ ((bucket_of x == j) && (is_expected && not is_on_disk))
  missing_at j =
      rw (contains-expected_chunks dn x j objs, contains-inventory j files x) (ground arith)

  extra_at :
      (j : ℕ)
      → lacks (inventory files) (expected_chunks dn objs) x j
        ≡ ((bucket_of x == j) && (is_on_disk && not is_expected))
  extra_at j =
      rw (contains-expected_chunks dn x j objs, contains-inventory j files x)
        (ground (arith, no_file x files))

  collapsed :
      (p : Bool) (test : ℕ → Bool)
      → (valid_hex64 x ≡ false → p ≡ false)
      → ((j : ℕ) → test j ≡ ((bucket_of x == j) && p))
      → some_from 0 256 test ≡ p
  collapsed p test invalid h = elim (Bool-cases (valid_hex64 x)) [
    | inl v ↦ some_from-at 0 256 (bucket_of x) p test (omega arith) (bucket_of-lt x v) h
    | inr v ↦ some_from-none 0 256 test (λ j k l. h j ∙ ground (arith, invalid v)) ∙ sym (invalid v)
  ]

  -- The node answers, its disk does not change during the audit, no bucket of the expectation or of the
  -- disk has an id twice, and the hashes tell the two inventories apart. Then the audit finds the node
  -- reachable, reports a chunk as missing when and only when it has a valid id, the metadata names the
  -- node for it and the disk has no file of it, and as extra when and only when the disk has a file of
  -- it and the metadata does not name the node for it.
  pub audit_one_dn-reports_lem :
      (sha hex : Bytes → Bytes)
      → ((i : ℕ) → Ascends (expected_chunks dn objs i))
      → ((i : ℕ) → Ascends (inventory files i))
      → TellsApart sha hex (expected_chunks dn objs) (inventory files)
      → ((audit_of sha hex dn objs files).reachable ≡ true)
        × (contains (audit_of sha hex dn objs files).missing x ≡ (is_expected && not is_on_disk))
        × (contains (audit_of sha hex dn objs files).extra x ≡ (is_on_disk && not is_expected))
  audit_one_dn-reports_lem sha hex asc_exp asc_act tells =
      let (r, m, e) = audit_one_dn-exact_lem sha hex dn objs files x asc_exp asc_act tells in
      (
        r,
        m
            ∙ collapsed (is_expected && not is_on_disk)
                (lacks (expected_chunks dn objs) (inventory files) x) (λ v. ground (arith, v))
                missing_at,
        e
            ∙ collapsed (is_on_disk && not is_expected)
                (lacks (inventory files) (expected_chunks dn objs) x)
                (λ v. ground (arith, no_file x files v)) extra_at,
      )
