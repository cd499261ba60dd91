-- ===== src/Urlkey/Rotation.antt =====
-- Key rotation in urlkey.go: what the key operations, in any order, keep of the signer and of
-- the URLs that it has signed.
use kvfs.Base.{
  Bool, true, false, Option, none, some, List, [], ◌∷◌, ◌≡◌, ◌⊎◌, inl, inr, refl, if◌then◌else◌,
  ◌||◌, arith, Bool-cases, subst, All,
}
use kvfs.Base.Text.{Bytes, beq, beq_iff, beq_refl, is_empty}
use kvfs.Base.Assoc.{lookup, insert, lookup-insert, lookup-delete}
use kvfs.Urlkey.{
  Signer, add, set_primary, remove, new_signer, new_multi_signer, copy_keys, made, has_kid,
  default_kid,
}
use kvfs.Urlkey.Keys.{
  IsWellFormed, add-IsWellFormed, set_primary-IsWellFormed, remove-IsWellFormed, has_kid-insert,
}

-- A key operation.
pub data KeyOp : Type 0 where
  add_key : Bytes → Bytes → KeyOp
  use_key : Bytes → KeyOp
  drop_key : Bytes → KeyOp

abbrev run_op : KeyOp → Signer → Signer
run_op (add_key kid secret) s = (add kid secret s).0
run_op (use_key kid) s = (set_primary kid s).0
run_op (drop_key kid) s = (remove kid s).0

abbrev pub run_ops : List KeyOp → Signer → Signer
run_ops [] s = s
run_ops (o ∷ ops) s = run_ops ops (run_op o s)

run_op-IsWellFormed : (o : KeyOp) (s : Signer) → IsWellFormed s → IsWellFormed (run_op o s)
run_op-IsWellFormed (add_key kid secret) s w = add-IsWellFormed kid secret s w
run_op-IsWellFormed (use_key kid) s w = set_primary-IsWellFormed kid s w
run_op-IsWellFormed (drop_key kid) s w = remove-IsWellFormed kid s w

run_ops-IsWellFormed :
    (ops : List KeyOp) (s : Signer) → IsWellFormed s → IsWellFormed (run_ops ops s)
run_ops-IsWellFormed [] s w = w
run_ops-IsWellFormed (o ∷ ops) s w =
    run_ops-IsWellFormed ops (run_op o s) (run_op-IsWellFormed o s w)

-- A lone key is well formed.
one_key-IsWellFormed :
    (kid secret : Bytes)
    → is_empty secret ≡ false
    → IsWellFormed (record { keys = (kid, secret) ∷ []; primary = kid })
one_key-IsWellFormed kid secret e = record {
  primary_known = unfold has_kid lookup in ground (arith, beq_refl kid);
  secrets = λ k x h. unfold lookup in ground arith;
}

new_signer-IsWellFormed :
    (secret : Bytes) (s : Signer) → new_signer secret ≡ made s → IsWellFormed s
unfolding new_signer has_kid lookup insert is_empty
new_signer-IsWellFormed [] s h = cc h
new_signer-IsWellFormed (b ∷ secret) s h =
    subst IsWellFormed (made-injective h) (one_key-IsWellFormed default_kid (b ∷ secret) refl)
  where
    made-injective : {a b : Signer} → made a ≡ made b → a ≡ b
    made-injective h = cc

has_kid-cons :
    (kid secret k : Bytes) (keys : List (Bytes × Bytes))
    → has_kid k ((kid, secret) ∷ keys) ≡ (if beq kid k then true else has_kid k keys)
unfolding has_kid lookup
has_kid-cons kid secret k keys = ground arith

-- What the copy holds, beside what it held.
copy_keys-has_kid :
    (keys out copied : List (Bytes × Bytes)) (k : Bytes)
    → copy_keys keys out ≡ some copied
    → has_kid k copied ≡ (has_kid k keys || has_kid k out)
unfolding copy_keys
copy_keys-has_kid [] out copied k h = unfold has_kid lookup in ground (arith, h)
copy_keys-has_kid ((kid, secret) ∷ keys) out copied k h = rw has_kid-cons (
    ground (
      arith,
      has_kid-insert kid k secret out,
      copy_keys-has_kid keys (insert kid secret out) copied k,
    ))

copy_keys-secrets :
    (keys out copied : List (Bytes × Bytes)) (k x : Bytes)
    → copy_keys keys out ≡ some copied
    → ((j y : Bytes) → lookup j out ≡ some y → is_empty y ≡ false)
    → lookup k copied ≡ some x
    → is_empty x ≡ false
unfolding copy_keys
copy_keys-secrets [] out copied k x h ok found = ok k x (cc (h, found))
copy_keys-secrets ((kid, secret) ∷ keys) out copied k x h ok found =
    elim (Bool-cases (is_empty secret)) [
      | inl e ↦ absurd (ground (arith, h, e))
      | inr e ↦
          copy_keys-secrets keys (insert kid secret out) copied k x (ground (arith, h, e))
            (λ j y f. ground (arith, lookup-insert kid j secret out, ok j y, e)) found
    ]

new_multi_signer-IsWellFormed :
    (keys : List (Bytes × Bytes)) (primary : Bytes) (s : Signer)
    → new_multi_signer keys primary ≡ made s
    → IsWellFormed s
unfolding new_multi_signer
new_multi_signer-IsWellFormed [] primary s h = cc
new_multi_signer-IsWellFormed (k ∷ keys) primary s h = by_copy (copy_keys (k ∷ keys) []) refl
  where
    by_copy : (o : Option (List (Bytes × Bytes))) → copy_keys (k ∷ keys) [] ≡ o → IsWellFormed s
    by_copy none e = absurd (ground (arith, h, e))
    by_copy (some copied) e =
        let same : s ≡ record { keys = copied; primary = primary } = ground (arith, h, e) in
        let known : has_kid primary (k ∷ keys) ≡ true = ground (arith, h, e) in
        rw same (record {
          primary_known = rw (copy_keys-has_kid (k ∷ keys) [] copied primary e, known);
          secrets = λ j x f.
              copy_keys-secrets (k ∷ keys) [] copied j x e (λ i y g. unfold lookup in cc g) f;
        })

-- A signer that either constructor made, after any key operations, has its primary key registered
-- and no empty secret.
pub made-IsWellFormed :
    (secret : Bytes) (keys : List (Bytes × Bytes)) (primary : Bytes) (s : Signer) (ops : List KeyOp)
    → (new_signer secret ≡ made s) ⊎ (new_multi_signer keys primary ≡ made s)
    → IsWellFormed (run_ops ops s)
made-IsWellFormed secret keys primary s ops (inl h) =
    run_ops-IsWellFormed ops s (new_signer-IsWellFormed secret s h)
made-IsWellFormed secret keys primary s ops (inr h) =
    run_ops-IsWellFormed ops s (new_multi_signer-IsWellFormed keys primary s h)

-- An operation that does not drop kid keeps its secret.
abbrev pub drops : Bytes → KeyOp → Bool
drops kid (drop_key k) = beq k kid
drops kid _ = false

abbrev pub adds : Bytes → KeyOp → Bool
adds kid (add_key k secret) = beq k kid
adds kid _ = false

add-keeps :
    (k secret kid x : Bytes) (s : Signer)
    → lookup kid s.keys ≡ some x
    → lookup kid (add k secret s).0.keys ≡ some x
unfolding add has_kid
add-keeps k secret kid x s h = ground (arith, lookup-insert k kid secret s.keys, beq_iff k kid)

remove-keeps :
    (k kid x : Bytes) (s : Signer)
    → beq k kid ≡ false
    → lookup kid s.keys ≡ some x
    → lookup kid (remove k s).0.keys ≡ some x
unfolding remove
remove-keeps k kid x s ne h = ground (arith, lookup-delete k kid s.keys)

pub set_primary-keys : (k : Bytes) (s : Signer) → (set_primary k s).0.keys ≡ s.keys
unfolding set_primary
set_primary-keys k s = ground arith

pub run_ops-keeps :
    (ops : List KeyOp) (kid x : Bytes) (s : Signer)
    → All (λ o. drops kid o ≡ false) ops
    → lookup kid s.keys ≡ some x
    → lookup kid (run_ops ops s).keys ≡ some x
run_ops-keeps [] kid x s no_drop h = h
run_ops-keeps (add_key k secret ∷ ops) kid x s no_drop h =
    run_ops-keeps ops kid x _ no_drop.1 (add-keeps k secret kid x s h)
run_ops-keeps (use_key k ∷ ops) kid x s no_drop h =
    run_ops-keeps ops kid x _ no_drop.1 (rw set_primary-keys h)
run_ops-keeps (drop_key k ∷ ops) kid x s no_drop h =
    run_ops-keeps ops kid x _ no_drop.1 (remove-keeps k kid x s no_drop.0 h)
