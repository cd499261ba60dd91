-- ===== src/Urlkey/Accept.antt =====
-- The URLs of a signer that Verify of urlkey.go accepts after key operations, and refuses.

use kvfs.Base.{false, Option, none, some, List, [], ◌∷◌, ◌≡◌, ◌≢◌, ◌↔◌, refl, ◌∙◌, arith, All}
use kvfs.Base.Text.{Bytes, beq, beq_iff, beq_refl, is_empty}
use kvfs.Base.Assoc.{lookup, lookup-insert, lookup-delete}
use kvfs.Base.Int.{ℤ, ltb_ℤ, IsInt64}
use kvfs.Base.Decimal.{value, parse_int, parse-format_int, format_int}
use kvfs.Urlkey.{
  Signer, add, remove, has_kid, unknown_kid, Query, build_url, secret_or_empty, verify, verify_one,
  verify_key, message,
}
use kvfs.Urlkey.Url.{parameter, read_url, read_url-plain, IsPlain, format_int-IsPlain}
use kvfs.Urlkey.Keys.{IsWellFormed}
use kvfs.Urlkey.Rotation.{
  KeyOp, add_key, use_key, drop_key, run_ops, drops, adds, run_ops-keeps, set_primary-keys,
}

is_empty-of_ne : (s : Bytes) → s ≢ [] → is_empty s ≡ false
unfolding is_empty
is_empty-of_ne [] h = absurd (h refl)
is_empty-of_ne (b ∷ s) h = refl

remove-none :
    (kid : Bytes) (t : Signer) → (remove kid t).1 ≡ none → lookup kid (remove kid t).0.keys ≡ none
unfolding remove
remove-none kid t h = ground (arith, lookup-delete kid kid t.keys, beq_refl kid)

add-none :
    (k secret kid : Bytes) (s : Signer)
    → beq k kid ≡ false
    → lookup kid s.keys ≡ none
    → lookup kid (add k secret s).0.keys ≡ none
unfolding add
add-none k secret kid s ne h = ground (arith, lookup-insert k kid secret s.keys)

remove-keeps_none :
    (k kid : Bytes) (s : Signer) → lookup kid s.keys ≡ none → lookup kid (remove k s).0.keys ≡ none
unfolding remove
remove-keeps_none k kid s h = ground (arith, lookup-delete k kid s.keys)

run_ops-none :
    (ops : List KeyOp) (kid : Bytes) (s : Signer)
    → All (λ o. adds kid o ≡ false) ops
    → lookup kid s.keys ≡ none
    → lookup kid (run_ops ops s).keys ≡ none
run_ops-none [] kid s no_add h = h
run_ops-none (add_key k secret ∷ ops) kid s no_add h =
    run_ops-none ops kid _ no_add.1 (add-none k secret kid s no_add.0 h)
run_ops-none (use_key k ∷ ops) kid s no_add h =
    run_ops-none ops kid _ no_add.1 (rw set_primary-keys h)
run_ops-none (drop_key k ∷ ops) kid s no_add h =
    run_ops-none ops kid _ no_add.1 (remove-keeps_none k kid s h)

module _ (hmac_hex : Bytes → Bytes → Bytes) where
  pub verify_one-none :
      (secret method path sig : Bytes) (exp : ℤ)
      → (verify_one hmac_hex secret method path exp sig ≡ none)
        ↔ (hmac_hex secret (message method path exp) ≡ sig)
  unfolding verify_one
  verify_one-none secret method path sig exp =
      ground (arith, beq_iff (hmac_hex secret (message method path exp)) sig)

  -- Past the checks of its form and its time, the keys decide about a URL.
  pub verify_of_time :
      (s : Signer) (method path : Bytes) (q : Query) (now exp : ℤ)
      → q.sig ≢ []
      → parse_int q.exp ≡ value exp
      → ltb_ℤ exp now ≡ false
      → verify hmac_hex s method path q now ≡ verify_key hmac_hex s method path q exp
  unfolding verify
  verify_of_time s method path q now exp sig e t =
      rw (is_empty-of_ne q.sig sig, is_empty-of_parse q.exp exp e, e, t)
    where
      is_empty-of_parse : (t : Bytes) (z : ℤ) → parse_int t ≡ value z → is_empty t ≡ false
      is_empty-of_parse [] z h = absurd (unfold parse_int in ground (arith, h))
      is_empty-of_parse (b ∷ t) z h = unfold is_empty in refl

  -- What a URL of BuildURL carries.
  abbrev carried : Signer → Bytes → Bytes → ℤ → Query
  carried s method path exp = record {
    sig = hmac_hex (secret_or_empty (lookup s.primary s.keys)) (message method path exp);
    exp = format_int exp;
    kid = s.primary;
  }

  read_url-build_url :
      (s : Signer) (method path : Bytes) (exp : ℤ)
      → ((secret text : Bytes) → IsPlain (hmac_hex secret text))
      → IsPlain path
      → IsPlain s.primary
      → read_url (build_url hmac_hex s method path exp) ≡ some (path, carried s method path exp)
  unfolding build_url parameter
  read_url-build_url s method path exp mac plain_path plain_kid =
      read_url-plain path s.primary _ (format_int exp) plain_path plain_kid (mac _ _)
        (format_int-IsPlain exp)

  verify-carried :
      (s : Signer) (ops : List KeyOp) (method path : Bytes) (exp now : ℤ)
      → IsWellFormed s
      → s.primary ≢ []
      → ((secret text : Bytes) → hmac_hex secret text ≢ [])
      → All (λ o. drops s.primary o ≡ false) ops
      → IsInt64 exp
      → ltb_ℤ exp now ≡ false
      → verify hmac_hex (run_ops ops s) method path (carried s method path exp) now ≡ none
  unfolding verify_key
  verify-carried s ops method path exp now w named mac no_drop range time =
      by_secret (lookup s.primary s.keys) refl
    where
      by_secret :
          (o : Option Bytes)
          → lookup s.primary s.keys ≡ o
          → verify hmac_hex (run_ops ops s) method path (carried s method path exp) now ≡ none
      by_secret none e = absurd (unfold has_kid in ground (arith, w.primary_known, e))
      by_secret (some secret) e =
          verify_of_time (run_ops ops s) method path (carried s method path exp) now exp (mac _ _)
            (parse-format_int exp range) time
          ∙ rw (is_empty-of_ne s.primary named, run_ops-keeps ops s.primary secret s no_drop e, e)
              ((verify_one-none secret method path _ exp).1 refl)

  -- A URL that a signer made for a path of letters, digits and - . / _ ~, under a primary key with such
  -- a name, is read back with its path and its parameters, and these are accepted until the URL
  -- expires, under any key operations that do not drop the key that signed it. The hexadecimal MAC is
  -- never empty and needs no escapes.
  pub verify-build_url :
      (s : Signer) (ops : List KeyOp) (method path : Bytes) (exp now : ℤ)
      → IsWellFormed s
      → s.primary ≢ []
      → IsPlain s.primary
      → IsPlain path
      → ((secret text : Bytes) → (hmac_hex secret text ≢ []) × IsPlain (hmac_hex secret text))
      → All (λ o. drops s.primary o ≡ false) ops
      → IsInt64 exp
      → ltb_ℤ exp now ≡ false
      → (q : Query) × (read_url (build_url hmac_hex s method path exp) ≡ some (path, q))
        × (verify hmac_hex (run_ops ops s) method path q now ≡ none)
  verify-build_url s ops method path exp now w named plain plain_path mac no_drop range time = (
    carried s method path exp,
    read_url-build_url s method path exp (λ k t. (mac k t).1) plain_path plain,
    verify-carried s ops method path exp now w named (λ k t. (mac k t).0) no_drop range time,
  )

  -- Such a URL is refused with ErrUnknownKid, until it expires, once the key that signed it was
  -- removed, as long as no key of that name is added.
  pub verify-removed :
      (s t : Signer) (ops : List KeyOp) (method path : Bytes) (exp now : ℤ)
      → s.primary ≢ []
      → IsPlain s.primary
      → IsPlain path
      → ((secret text : Bytes) → (hmac_hex secret text ≢ []) × IsPlain (hmac_hex secret text))
      → (remove s.primary t).1 ≡ none
      → All (λ o. adds s.primary o ≡ false) ops
      → IsInt64 exp
      → ltb_ℤ exp now ≡ false
      → (q : Query) × (read_url (build_url hmac_hex s method path exp) ≡ some (path, q))
        × (verify hmac_hex (run_ops ops (remove s.primary t).0) method path q now
            ≡ some unknown_kid)
  unfolding verify_key
  verify-removed s t ops method path exp now named plain plain_path mac done no_add range time = (
    carried s method path exp,
    read_url-build_url s method path exp (λ k x. (mac k x).1) plain_path plain,
    verify_of_time (run_ops ops (remove s.primary t).0) method path (carried s method path exp) now
          exp ((mac _ _).0) (parse-format_int exp range) time
        ∙ rw (
          is_empty-of_ne s.primary named,
          run_ops-none ops s.primary (remove s.primary t).0 no_add (remove-none s.primary t done),
        ),
  )
