-- ===== src/Audit/Examples.antt =====
-- The audit at a concrete input: the metadata expects one chunk of the node, its disk has another, both
-- in the bucket 171. The hash is the text itself.
use kvfs.Base.{
  ℕ, zero, suc, Bool, true, false, none, List, [], ◌∷◌, ◌++◌, ◌≡◌, inl, inr, refl, sym, subst,
  if◌then◌else◌, ◌==◌, ◌&&◌, not, arith, Bool-cases,
}
use kvfs.Base.Text.{Bytes, beq, is_empty, beq_iff}
use kvfs.Base.Assoc.{contains}
use kvfs.Base.Int.{pos}
use kvfs.Base.Sort.{insert_sorted, sort}
use kvfs.Store.{ObjectMeta}
use kvfs.Audit.{
  Inventory, is_hex_digit, all_hex, valid_hex64, nibble, bucket_of, add_expected, add_replicas,
  add_chunks, add_shards, add_objects, expected_chunks, File, is_chunk_file, ids_in, inventory,
  joined, bucket_hash, sums_from, root_of,
}
use kvfs.Audit.Diff.{Ascends}
use kvfs.Audit.Exact.{TellsApart, audit_of}
use kvfs.Audit.Meaning.{is_expected, is_on_disk, audit_one_dn-reports_lem}
use cubical.Cubical.Foundations.Prelude.{fun_ext}

unfoldable digits : ℕ → ℕ → Bytes
digits zero c = []
digits (suc n) c = c ∷ digits n c

abbrev folder : Bytes
folder = b'a' ∷ b'b' ∷ []

abbrev expected_id : Bytes
expected_id = folder ++ digits 62 b'0'

abbrev found_id : Bytes
found_id = folder ++ digits 62 b'1'

abbrev dn1 : Bytes
dn1 = b'1' ∷ []

abbrev objects : List ObjectMeta
objects =
    record {
      bucket = b'b' ∷ [];
      key = b'o' ∷ [];
      size = pos 4;
      content_type = [];
      etag = [];
      chunks = record { chunk_id = expected_id; size = pos 4; replicas = dn1 ∷ [] } ∷ [];
      ec = none;
      stripes = [];
      version = pos 1;
      created_at = none;
      class_label = [];
      legacy_chunk_id = [];
      legacy_replicas = [];
    }
    ∷ []

abbrev disk : List File
disk = record { dir = folder; base = digits 62 b'1' } ∷ []

abbrev itself : Bytes → Bytes
itself s = s

expected_at : (i : ℕ) → expected_chunks dn1 objects i ≡ (if 171 == i then expected_id ∷ [] else [])
unfolding expected_chunks add_objects add_shards add_chunks add_replicas add_expected digits sort
    insert_sorted beq is_empty valid_hex64 all_hex is_hex_digit bucket_of nibble
expected_at i = elim (Bool-cases (171 == i)) [ inl e ↦ rw e refl | inr e ↦ rw e refl ]

found_at : (i : ℕ) → inventory disk i ≡ (if 171 == i then found_id ∷ [] else [])
unfolding inventory ids_in is_chunk_file digits sort insert_sorted valid_hex64 all_hex is_hex_digit
    bucket_of nibble
found_at i = elim (Bool-cases (171 == i)) [ inl e ↦ rw e refl | inr e ↦ rw e refl ]

Ascends-if : (b : Bool) (x : Bytes) → Ascends (if b then x ∷ [] else [])
Ascends-if true x = (tt, tt)
Ascends-if false x = tt

no_ids-joined :
    (x y : Bytes)
    → beq (joined (x ∷ [])) (joined (y ∷ [])) ≡ false
    → (b : Bool) → joined (if b then x ∷ [] else []) ≡ joined (if b then y ∷ [] else [])
    → (if b then x ∷ [] else []) ≡ (if b then y ∷ [] else [])
no_ids-joined x y apart true e =
    absurd (ground (arith, apart, beq_iff (joined (x ∷ [])) (joined (y ∷ [])), e))
no_ids-joined x y apart false e = refl

abbrev one_at : Bytes → Inventory
one_at x i = if 171 == i then x ∷ [] else []

apart : beq (joined (expected_id ∷ [])) (joined (found_id ∷ [])) ≡ false
unfolding joined beq digits
apart = refl

roots_apart :
    beq (root_of itself itself (one_at expected_id)) (root_of itself itself (one_at found_id))
    ≡ false
unfolding root_of sums_from joined beq digits
roots_apart = refl

told_apart : TellsApart itself itself (one_at expected_id) (one_at found_id)
unfolding bucket_hash
told_apart = record {
  buckets = λ i e. no_ids-joined expected_id found_id apart (171 == i) e;
  root = λ e. absurd (
      ground (
        arith,
        roots_apart,
        beq_iff (root_of itself itself (one_at expected_id))
            (root_of itself itself (one_at found_id)),
        e,
      ));
}

told : TellsApart itself itself (expected_chunks dn1 objects) (inventory disk)
told =
    subst (TellsApart itself itself (expected_chunks dn1 objects)) (fun_ext (λ j. sym (found_at j)))
      (subst (λ e. TellsApart itself itself e (one_at found_id))
        (fun_ext (λ j. sym (expected_at j))) told_apart)

audit_one_dn-reports_lem_example :
    ((audit_of itself itself dn1 objects disk).reachable ≡ true)
    × (contains (audit_of itself itself dn1 objects disk).missing expected_id ≡ (
        is_expected dn1 objects disk expected_id && not (is_on_disk dn1 objects disk expected_id)))
    × (contains (audit_of itself itself dn1 objects disk).extra expected_id ≡ (
        is_on_disk dn1 objects disk expected_id && not (is_expected dn1 objects disk expected_id)))
audit_one_dn-reports_lem_example =
    audit_one_dn-reports_lem dn1 objects disk expected_id itself itself
      (λ i. subst Ascends (sym (expected_at i)) (Ascends-if (171 == i) expected_id))
      (λ i. subst Ascends (sym (found_at i)) (Ascends-if (171 == i) found_id)) told
