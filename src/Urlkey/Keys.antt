-- ===== src/Urlkey/Keys.antt =====
-- What the key management of urlkey.go keeps of the keys.
use kvfs.Base.{
  true, false, none, some, List, [], ◌∷◌, ◌≡◌, inl, inr, if◌then◌else◌, ◌==◌, length, arith,
  Bool-cases,
}
use kvfs.Base.Text.{Bytes, beq, beq_iff, is_empty}
use kvfs.Base.Assoc.{lookup, insert, delete, lookup-insert, lookup-delete}
use kvfs.Urlkey.{Signer, add, set_primary, remove, has_kid, unknown_kid, primary_remove}

pub has_kid-insert :
    (kid k secret : Bytes) (keys : List (Bytes × Bytes))
    → has_kid k (insert kid secret keys) ≡ (if beq kid k then true else has_kid k keys)
unfolding has_kid
has_kid-insert kid k secret keys = ground (arith, lookup-insert kid k secret keys)

has_kid-delete :
    (kid k : Bytes) (keys : List (Bytes × Bytes))
    → has_kid k (delete kid keys) ≡ (if beq kid k then false else has_kid k keys)
unfolding has_kid
has_kid-delete kid k keys = ground (arith, lookup-delete kid k keys)

-- The primary key is registered, and no registered secret is empty.
pub record IsWellFormed (s : Signer) : Type 0 where
  pub primary_known : has_kid s.primary s.keys ≡ true
  pub secrets : (kid secret : Bytes) → lookup kid s.keys ≡ some secret → is_empty secret ≡ false

insert-IsWellFormed :
    (kid secret : Bytes) (s : Signer)
    → IsWellFormed s
    → is_empty secret ≡ false
    → IsWellFormed (record s { keys = insert kid secret s.keys })
insert-IsWellFormed kid secret s w e = record {
  primary_known = rw has_kid-insert (ground (arith, w.primary_known));
  secrets = λ k x h. ground (arith, lookup-insert kid k secret s.keys, w.secrets k x);
}

pub add-IsWellFormed :
    (kid secret : Bytes) (s : Signer) → IsWellFormed s → IsWellFormed (add kid secret s).0
unfolding add
add-IsWellFormed kid secret s w = elim (Bool-cases (is_empty kid)) [
  | inl e ↦ rw e w
  | inr e ↦ rw e (elim (Bool-cases (is_empty secret)) [
    | inl f ↦ rw f w
    | inr f ↦ rw f (elim (Bool-cases (has_kid kid s.keys)) [
      | inl g ↦ rw g w
      | inr g ↦ rw g (insert-IsWellFormed kid secret s w f)
    ])
  ])
]

pub set_primary-IsWellFormed :
    (kid : Bytes) (s : Signer) → IsWellFormed s → IsWellFormed (set_primary kid s).0
unfolding set_primary
set_primary-IsWellFormed kid s w = elim (Bool-cases (has_kid kid s.keys)) [
  | inl e ↦ rw e (record { primary_known = e; secrets = w.secrets })
  | inr e ↦ rw e w
]

delete-IsWellFormed :
    (kid : Bytes) (s : Signer)
    → IsWellFormed s
    → beq kid s.primary ≡ false
    → IsWellFormed (record s { keys = delete kid s.keys })
delete-IsWellFormed kid s w e = record {
  primary_known = rw (has_kid-delete, e) w.primary_known;
  secrets = λ k x h. ground (arith, lookup-delete kid k s.keys, w.secrets k x);
}

pub remove-IsWellFormed :
    (kid : Bytes) (s : Signer) → IsWellFormed s → IsWellFormed (remove kid s).0
unfolding remove
remove-IsWellFormed kid s w = elim (Bool-cases (has_kid kid s.keys)) [
  | inr e ↦ rw e w
  | inl e ↦ rw e (elim (Bool-cases (beq kid s.primary)) [
    | inl f ↦ rw f w
    | inr f ↦ rw f (elim (Bool-cases (length s.keys == 1)) [
      | inl g ↦ rw g w
      | inr g ↦ rw g (delete-IsWellFormed kid s w f)
    ])
  ])
]

-- Two registered identifiers are two entries.
two_entries :
    (a b : Bytes) (keys : List (Bytes × Bytes))
    → has_kid a keys ≡ true
    → has_kid b keys ≡ true
    → beq a b ≡ false
    → (length keys == 1) ≡ false
unfolding has_kid lookup
two_entries a b [] ha hb ne = cc
two_entries a b ((k, x) ∷ []) ha hb ne = ground (arith, beq_iff k a, beq_iff k b, beq_iff a b)
two_entries a b ((k, x) ∷ (j, y) ∷ keys) ha hb ne = ground arith

-- Remove takes out exactly the registered kids that are not primary: its check for the last key
-- never decides.
remove-outcome :
    (kid : Bytes) (s : Signer)
    → IsWellFormed s
    → (remove kid s).1 ≡ (
        if has_kid kid s.keys
        then (if beq kid s.primary then some primary_remove else none)
        else some unknown_kid)
unfolding remove
remove-outcome kid s w = ground (arith, two_entries kid s.primary s.keys, w.primary_known)
