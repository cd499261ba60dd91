-- ===== src/Audit.antt =====
-- The audit of the nodes' inventories: internal/coord/anti_entropy.go compares what the metadata expects
-- of a node with the Merkle summary of internal/dn/merkle.go. SHA-256 and the hexadecimal form are
-- parameters. A map from bucket numbers to lists is a function.
pub mod Diff
pub mod Exact
pub mod Meaning
mod Examples
use kvfs.Base.{
  ℕ, zero, suc, Bool, true, false, Option, none, some, List, [], ◌∷◌, ◌++◌, ◌+◌, ◌*◌, ◌-◌, ◌&&◌,
  ◌||◌, not, ltb, leb, ◌==◌, length, if◌then◌else◌,
}
use kvfs.Base.Text.{Bytes, beq, blt, is_empty}
use kvfs.Base.Sort.{sort}
use kvfs.Base.Call.{Call, ok, failed}
use kvfs.Store.{ChunkRef, Stripe, ObjectMeta}

-- What a node has, or should have, by bucket.
abbrev pub Inventory : Type 0
Inventory = ℕ → List Bytes

unfoldable pub is_hex_digit : ℕ → Bool
is_hex_digit c = leb b'0' c && leb c b'9' || leb b'a' c && leb c b'f'

unfoldable pub all_hex : Bytes → Bool
unfolding is_hex_digit
all_hex [] = true
all_hex (c ∷ s) = is_hex_digit c && all_hex s

-- validHex64 and dn.validChunkID
unfoldable pub valid_hex64 : Bytes → Bool
unfolding all_hex
valid_hex64 s = (length s == 64) && all_hex s

unfoldable pub nibble : ℕ → ℕ
nibble c = if leb c b'9' then c - b'0' else c - 87

-- The number that the first two digits write.
unfoldable pub bucket_of : Bytes → ℕ
unfolding nibble
bucket_of [] = 0
bucket_of (a ∷ []) = nibble a
bucket_of (a ∷ b ∷ s) = 16 * nibble a + nibble b

-- symmetricDiff: the walk with two pointers.
unfoldable pub symmetric_diff : List Bytes → List Bytes → List Bytes × List Bytes
symmetric_diff [] b = ([], b)
symmetric_diff (x ∷ a) [] = (x ∷ a, [])
symmetric_diff (x ∷ a) (y ∷ b) =
    let left = symmetric_diff a (y ∷ b) in
    let right = symmetric_diff (x ∷ a) b in
    let both = symmetric_diff a b in
    if blt x y then (x ∷ left.0, left.1) else if blt y x then (right.0, y ∷ right.1) else both

-- add of expectedChunksByDN, for the inventory of one node.
unfoldable pub add_expected : Bytes → Bytes → Bytes → Inventory → Inventory
add_expected node dn id inv i =
    if beq dn node && not (is_empty dn) && valid_hex64 id && (bucket_of id == i)
    then inv i ++ id ∷ []
    else inv i

unfoldable pub add_replicas : Bytes → Bytes → List Bytes → Inventory → Inventory
unfolding add_expected
add_replicas node id [] inv = inv
add_replicas node id (dn ∷ replicas) inv =
    add_replicas node id replicas (add_expected node dn id inv)

unfoldable pub add_chunks : Bytes → List ChunkRef → Inventory → Inventory
unfolding add_replicas
add_chunks node [] inv = inv
add_chunks node (c ∷ chunks) inv =
    add_chunks node chunks (add_replicas node c.chunk_id c.replicas inv)

unfoldable pub add_shards : Bytes → List Stripe → Inventory → Inventory
unfolding add_chunks
add_shards node [] inv = inv
add_shards node (st ∷ stripes) inv = add_shards node stripes (add_chunks node st.shards inv)

unfoldable pub add_objects : Bytes → List ObjectMeta → Inventory → Inventory
unfolding add_chunks add_shards
add_objects node [] inv = inv
add_objects node (o ∷ objs) inv =
    add_objects node objs (add_shards node o.stripes (add_chunks node o.chunks inv))

-- expectedChunksByDN, looked up at one node.
unfoldable pub expected_chunks : Bytes → List ObjectMeta → Inventory
unfolding add_objects
expected_chunks node objs i = sort blt (add_objects node objs (λ j. []) i)

-- A file of a node's chunk directory: its folder and its name.
pub record File : Type 0 where
  pub dir : Bytes
  pub base : Bytes

unfoldable pub is_chunk_file : File → Bool
is_chunk_file f = (length f.dir == 2) && (length f.base == 62) && valid_hex64 (f.dir ++ f.base)

-- The ids of the files in one bucket, in the order of the walk.
unfoldable pub ids_in : ℕ → List File → List Bytes
unfolding is_chunk_file
ids_in i [] = []
ids_in i (f ∷ files) =
    let rest = ids_in i files in
    if is_chunk_file f && (bucket_of f.dir == i) then (f.dir ++ f.base) ∷ rest else rest

-- The inventory that computeMerkle summarises and listBucket lists.
unfoldable pub inventory : List File → Inventory
inventory files i = sort blt (ids_in i files)

pub record BucketSum : Type 0 where
  pub idx : ℕ
  pub hash : Bytes
  pub count : ℕ

pub record MerkleResponse : Type 0 where
  pub root : Bytes
  pub total : ℕ
  pub buckets : List BucketSum

-- What is hashed of a bucket: each id with a newline.
unfoldable pub joined : List Bytes → Bytes
joined [] = []
joined (id ∷ ids) = id ++ 10 ∷ joined ids

unfoldable pub total_of : ℕ → ℕ → Inventory → ℕ
total_of i zero inv = 0
total_of i (suc n) inv = length (inv i) + total_of (suc i) n inv

-- An entry of the report; a note is the text of the error alone.
pub record AuditEntry : Type 0 where
  pub dn : Bytes
  pub reachable : Bool
  pub expected_total : ℕ
  pub actual_total : ℕ
  pub root_match : Bool
  pub missing : List Bytes
  pub extra : List Bytes
  pub examined : ℕ
  pub note : Bytes

module _ (sha : Bytes → Bytes) (hex : Bytes → Bytes) where
  unfoldable pub bucket_hash : List Bytes → Bytes
  bucket_hash ids = hex (sha (joined ids))

  -- The sums of n buckets from i on, one after the other.
  unfoldable pub sums_from : ℕ → ℕ → Inventory → Bytes
  sums_from i zero inv = []
  sums_from i (suc n) inv = sha (joined (inv i)) ++ sums_from (suc i) n inv

  -- computeExpectedRoot
  unfoldable pub root_of : Inventory → Bytes
  root_of inv = hex (sha (sums_from 0 256 inv))

  unfoldable pub bucket_sums : ℕ → ℕ → Inventory → List BucketSum
  bucket_sums i zero inv = []
  bucket_sums i (suc n) inv =
      record { idx = i; hash = bucket_hash (inv i); count = length (inv i) }
      ∷ bucket_sums (suc i) n inv

  -- computeMerkle
  unfoldable pub compute_merkle : List File → MerkleResponse
  compute_merkle files = record {
    root = root_of (inventory files);
    total = total_of 0 256 (inventory files);
    buckets = bucket_sums 0 256 (inventory files);
  }

  module _ (fetch_bucket : ℕ → Call (List Bytes)) where
    -- A round of the loop of auditOneDN over the node's buckets.
    unfoldable pub examine : Inventory → BucketSum → AuditEntry → AuditEntry
    examine exp b entry =
        if beq (bucket_hash (exp b.idx)) b.hash then entry else elim (fetch_bucket b.idx) [
          | failed text ↦ record entry { examined = suc entry.examined; note = text }
          | ok actual ↦
              let diff = symmetric_diff (exp b.idx) actual in
              record entry {
                examined = suc entry.examined;
                missing = entry.missing ++ diff.0;
                extra = entry.extra ++ diff.1;
              }
        ]

    unfoldable pub walk_buckets : Inventory → List BucketSum → AuditEntry → AuditEntry
    walk_buckets exp [] entry = entry
    walk_buckets exp (b ∷ buckets) entry = walk_buckets exp buckets (examine exp b entry)

    -- auditOneDN
    unfoldable pub audit_one_dn : Call MerkleResponse → Bytes → Inventory → AuditEntry
    audit_one_dn merkle dn exp =
        let blank : AuditEntry = record {
          dn = dn;
          reachable = false;
          expected_total = total_of 0 256 exp;
          actual_total = 0;
          root_match = false;
          missing = [];
          extra = [];
          examined = 0;
          note = [];
        } in
        elim merkle [
          | failed text ↦ record blank { note = text }
          | ok m ↦
              let seen = record blank { reachable = true; actual_total = m.total } in
              if beq (root_of exp) m.root
              then record seen { root_match = true }
              else (let walked = walk_buckets exp m.buckets seen in
                  record walked {
                    missing = sort blt walked.missing;
                    extra = sort blt walked.extra;
                  })
        ]
