-- ===== src/Audit/Exact.antt =====
-- What the audit of a node reports, where the node answers for its own disk.
use kvfs.Base.{
  ℕ, zero, suc, ◌+◌, ◌≤◌, ◌<◌, Bool, true, false, List, [], ◌∷◌, ◌++◌, ◌≡◌, inl, inr, refl, sym, ap,
  ◌∙◌, ◌&&◌, ◌||◌, not, length, arith, Bool-cases,
}
use kvfs.Base.Text.{Bytes, beq, blt, beq_iff}
use kvfs.Base.Assoc.{contains}
use kvfs.Base.Call.{ok}
use kvfs.Base.Sort.{insert_sorted, sort}
use kvfs.Store.{ObjectMeta}
use kvfs.Audit.{
  Inventory, symmetric_diff, expected_chunks, File, inventory, BucketSum, total_of, AuditEntry,
  bucket_hash, root_of, bucket_sums, compute_merkle, examine, walk_buckets, audit_one_dn,
}
use kvfs.Audit.Diff.{Ascends, symmetric_diff-contains}

-- The test holds of one of n numbers from i on.
unfoldable pub some_from : ℕ → ℕ → (ℕ → Bool) → Bool
some_from i zero test = false
some_from i (suc n) test = test i || some_from (suc i) n test

pub some_from-none :
    (i n : ℕ) (test : ℕ → Bool)
    → ((j : ℕ) → i ≤ j → j < i + n → test j ≡ false)
    → some_from i n test ≡ false
unfolding some_from
some_from-none i zero test h = refl
some_from-none i (suc n) test h =
    rw (h i (omega arith) (omega arith))
      (some_from-none (suc i) n test (λ j k l. h j (omega (arith, k)) (omega (arith, l))))

pub contains-append_lem :
    (xs ys : List Bytes) (x : Bytes) → contains (xs ++ ys) x ≡ (contains xs x || contains ys x)
unfolding contains
contains-append_lem [] ys x = refl
contains-append_lem (z ∷ xs) ys x = ground (arith, contains-append_lem xs ys x)

contains-insert_sorted :
    (y : Bytes) (xs : List Bytes) (x : Bytes)
    → contains (insert_sorted blt y xs) x ≡ (beq y x || contains xs x)
unfolding contains insert_sorted
contains-insert_sorted y [] x = refl
contains-insert_sorted y (z ∷ xs) x = ground (arith, contains-insert_sorted y xs x)

pub contains-sort : (xs : List Bytes) (x : Bytes) → contains (sort blt xs) x ≡ contains xs x
unfolding contains sort
contains-sort [] x = refl
contains-sort (y ∷ xs) x =
    contains-insert_sorted y (sort blt xs) x ∙ ap (λ b. beq y x || b) (contains-sort xs x)

or_assoc : (a b c : Bool) → ((a || b) || c) ≡ (a || (b || c))
or_assoc a b c = ground arith

-- What one inventory has of an id that the other has not.
abbrev pub lacks : Inventory → Inventory → Bytes → ℕ → Bool
lacks a b x i = contains (a i) x && not (contains (b i) x)

lacks_itself : (a b : Inventory) (x : Bytes) (i : ℕ) → a i ≡ b i → lacks a b x i ≡ false
lacks_itself a b x i e = rw e (ground arith)

module _ (sha hex : Bytes → Bytes) (exp act : Inventory) where
  -- The hash of a bucket tells what is expected from what is there, and so does the root.
  pub record TellsApart : Type 0 where
    pub buckets :
        (i : ℕ) → bucket_hash sha hex (exp i) ≡ bucket_hash sha hex (act i) → exp i ≡ act i
    pub root : root_of sha hex exp ≡ root_of sha hex act → (i : ℕ) → i < 256 → exp i ≡ act i

  module _ (asc_exp : (i : ℕ) → Ascends (exp i)) (asc_act : (i : ℕ) → Ascends (act i))
      (tells : TellsApart) (x : Bytes) where
    abbrev walk : List BucketSum → AuditEntry → AuditEntry
    walk bs entry = walk_buckets sha hex (λ i. ok (act i)) exp bs entry

    abbrev sum_at : ℕ → BucketSum
    sum_at i = record { idx = i; hash = bucket_hash sha hex (act i); count = length (act i) }

    examine-contains :
        (i : ℕ) (entry : AuditEntry)
        → let out = examine sha hex (λ j. ok (act j)) exp (sum_at i) entry in
          (contains out.missing x ≡ (contains entry.missing x || lacks exp act x i))
          × (contains out.extra x ≡ (contains entry.extra x || lacks act exp x i))
          × (out.reachable ≡ entry.reachable)
          × (out.note ≡ entry.note)
    unfolding examine
    examine-contains i entry =
        elim (Bool-cases (beq (bucket_hash sha hex (exp i)) (bucket_hash sha hex (act i)))) [
          | inl e ↦
              let same = tells.buckets i ((beq_iff _ _).0 e) in
              rw (e, examine)
                (
                  rw (lacks_itself exp act x i same) (ground arith),
                  rw (lacks_itself act exp x i (sym same)) (ground arith),
                  refl,
                  refl,
                )
          | inr e ↦
              let diff = symmetric_diff-contains (exp i) (act i) x (asc_exp i) (asc_act i) in
              rw (e, examine)
                (
                  contains-append_lem entry.missing (symmetric_diff (exp i) (act i)).0 x
                      ∙ ap (λ b. contains entry.missing x || b) diff.0,
                  contains-append_lem entry.extra (symmetric_diff (exp i) (act i)).1 x
                      ∙ ap (λ b. contains entry.extra x || b) diff.1,
                  refl,
                  refl,
                )
        ]

    walk-contains :
        (i n : ℕ) (entry : AuditEntry)
        → let out = walk (bucket_sums sha hex i n act) entry in
          (contains out.missing x ≡ (contains entry.missing x || some_from i n (lacks exp act x)))
          × (contains out.extra x ≡ (contains entry.extra x || some_from i n (lacks act exp x)))
          × (out.reachable ≡ entry.reachable)
          × (out.note ≡ entry.note)
    unfolding walk_buckets bucket_sums some_from
    walk-contains i zero entry = (ground arith, ground arith, refl, refl)
    walk-contains i (suc n) entry =
        let one = examine-contains i entry in
        let rest =
          walk-contains (suc i) n (examine sha hex (λ j. ok (act j)) exp (sum_at i) entry) in
        (
          rest.0
              ∙ ap (λ b. b || some_from (suc i) n (lacks exp act x)) one.0
              ∙ or_assoc (contains entry.missing x) (lacks exp act x i)
                  (some_from (suc i) n (lacks exp act x)),
          rest.1
              ∙ ap (λ b. b || some_from (suc i) n (lacks act exp x)) one.1
              ∙ or_assoc (contains entry.extra x) (lacks act exp x i)
                  (some_from (suc i) n (lacks act exp x)),
          rest.2 ∙ one.2,
          rest.3 ∙ one.3,
        )

-- The audit of a node that answers for the files of its disk, against the objects' metadata.
abbrev pub audit_of :
    (Bytes → Bytes) → (Bytes → Bytes) → Bytes → List ObjectMeta → List File → AuditEntry
audit_of sha hex dn objs files =
    audit_one_dn sha hex (λ i. ok (inventory files i)) (ok (compute_merkle sha hex files)) dn
      (expected_chunks dn objs)

-- The node answers, its disk does not change during the audit, no chunk is expected of it or stands on
-- it twice, and the hashes tell the two inventories apart. Then the chunks reported missing are those
-- that the metadata expects in one of the 256 buckets and the disk lacks there, and the extra ones
-- those of the disk that the metadata does not expect.
pub audit_one_dn-exact_lem :
    (sha hex : Bytes → Bytes) (dn : Bytes) (objs : List ObjectMeta) (files : List File) (x : Bytes)
    → ((i : ℕ) → Ascends (expected_chunks dn objs i))
    → ((i : ℕ) → Ascends (inventory files i))
    → TellsApart sha hex (expected_chunks dn objs) (inventory files)
    → ((audit_of sha hex dn objs files).reachable ≡ true)
      × (contains (audit_of sha hex dn objs files).missing x
          ≡ some_from 0 256 (lacks (expected_chunks dn objs) (inventory files) x))
      × (contains (audit_of sha hex dn objs files).extra x
          ≡ some_from 0 256 (lacks (inventory files) (expected_chunks dn objs) x))
unfolding audit_one_dn compute_merkle contains
audit_one_dn-exact_lem sha hex dn objs files x asc_exp asc_act tells =
    let exp = expected_chunks dn objs in
    let act = inventory files in
    elim (Bool-cases (beq (root_of sha hex exp) (root_of sha hex act))) [
      | inl e ↦
          let same = tells.root ((beq_iff _ _).0 e) in
          rw e (
            refl,
            sym (
                some_from-none 0 256 (lacks exp act x)
                  (λ j k l. lacks_itself exp act x j (same j l))),
            sym (
                some_from-none 0 256 (lacks act exp x)
                  (λ j k l. lacks_itself act exp x j (sym (same j l)))),
          )
      | inr e ↦
          let seen : AuditEntry = record {
            dn = dn;
            reachable = true;
            expected_total = total_of 0 256 exp;
            actual_total = total_of 0 256 act;
            root_match = false;
            missing = [];
            extra = [];
            examined = 0;
            note = [];
          } in
          let (m, t, r, k) = walk-contains sha hex exp act asc_exp asc_act tells x 0 256 seen in
          rw e (r, contains-sort _ x ∙ m, contains-sort _ x ∙ t)
    ]
