-- ===== src/Urlkey.antt =====
-- internal/urlkey/urlkey.go: presigned URLs under rotating keys. A method of Signer takes the
-- signer and returns the new one. HMAC-SHA256 with its hexadecimal form is a parameter, a function
-- of the secret and the message; the clock is an argument, in seconds.
pub mod Keys
pub mod Url
pub mod Accept
pub mod Verdict
pub mod Rotation
mod Examples
use kvfs.Base.{
  ℕ, Bool, true, false, Option, none, some, List, [], ◌∷◌, ◌++◌, if◌then◌else◌, ◌==◌, length, map,
  ◌||◌,
}
use kvfs.Base.Text.{Bytes, beq, blt, is_empty}
use kvfs.Base.Assoc.{lookup, insert, delete}
use kvfs.Base.Int.{ℤ, ltb_ℤ}
use kvfs.Base.Decimal.{Parsed, value, syntax, out_of_range, parse_int, format_int}
use kvfs.Base.Sort.{sort}

pub data Error : Type 0 where
  missing_sig missing_exp bad_exp expired bad_sig empty_secret unknown_kid : Error
  duplicate_kid primary_remove last_kid_remove empty_kid : Error

pub record Signer : Type 0 where
  pub keys : List (Bytes × Bytes)
  pub primary : Bytes

abbrev pub default_kid : Bytes
default_kid = b'v' ∷ b'1' ∷ []

-- A method that changes the signer or fails.
abbrev pub Outcome : Type 0
Outcome = Signer × Option Error

unfoldable pub has_kid : Bytes → List (Bytes × Bytes) → Bool
has_kid kid keys = elim (lookup kid keys) [ none ↦ false | some secret ↦ true ]

unfoldable pub add : Bytes → Bytes → Signer → Outcome
unfolding has_kid
add kid secret s =
    if is_empty kid
    then (s, some empty_kid)
    else if is_empty secret
    then (s, some empty_secret)
    else if has_kid kid s.keys
    then (s, some duplicate_kid)
    else (record s { keys = insert kid secret s.keys }, none)

unfoldable pub set_primary : Bytes → Signer → Outcome
unfolding has_kid
set_primary kid s =
    if has_kid kid s.keys then (record s { primary = kid }, none) else (s, some unknown_kid)

unfoldable pub remove : Bytes → Signer → Outcome
unfolding has_kid
remove kid s =
    if has_kid kid s.keys
    then (if beq kid s.primary
        then (s, some primary_remove)
        else if length s.keys == 1
        then (s, some last_kid_remove)
        else (record s { keys = delete kid s.keys }, none))
    else (s, some unknown_kid)

-- The copy of NewMultiSigner; none is an empty secret.
copy_keys : List (Bytes × Bytes) → List (Bytes × Bytes) → Option (List (Bytes × Bytes))
copy_keys [] out = some out
copy_keys ((kid, secret) ∷ keys) out =
    let rest = copy_keys keys (insert kid secret out) in if is_empty secret then none else rest

pub data Made : Type 0 where
  made : Signer → Made
  refused : Error → Made

-- NewSigner: the one key is added to an empty map.
with_primary : Bytes → Outcome → Made
with_primary kid (s, none) = made (record s { primary = kid })
with_primary kid (s, some e) = refused e

unfoldable pub new_signer : Bytes → Made
unfolding add with_primary
new_signer secret =
    if is_empty secret
    then refused empty_secret
    else with_primary default_kid (add default_kid secret (record { keys = []; primary = [] }))

unfoldable pub new_multi_signer : List (Bytes × Bytes) → Bytes → Made
unfolding copy_keys has_kid
new_multi_signer [] primary = refused empty_secret
new_multi_signer (k ∷ keys) primary =
    if has_kid primary (k ∷ keys)
    then elim (copy_keys (k ∷ keys) []) [
      | none ↦ refused empty_secret
      | some copied ↦ made (record { keys = copied; primary = primary })
    ]
    else refused unknown_kid

-- Kids: the registered identifiers, sorted.
unfoldable kids : Signer → List Bytes
kids s = sort blt (map (λ e. e.0) s.keys)

-- The query parameters of a URL; one that is absent is empty.
pub record Query : Type 0 where
  pub sig : Bytes
  pub exp : Bytes
  pub kid : Bytes

-- METHOD:PATH:EXP
unfoldable pub message : Bytes → Bytes → ℤ → Bytes
message method path exp = method ++ b':' ∷ (path ++ b':' ∷ format_int exp)

-- A missing key of the map reads as the empty secret.
abbrev pub secret_or_empty : Option Bytes → Bytes
secret_or_empty none = []
secret_or_empty (some secret) = secret

module _ (hmac_hex : Bytes → Bytes → Bytes) where
  unfoldable sign : Signer → Bytes → Bytes → ℤ → Bytes × Bytes
  sign s method path exp =
      (hmac_hex (secret_or_empty (lookup s.primary s.keys)) (message method path exp), s.primary)

  -- BuildURL, with exp in place of now + ttl.
  unfoldable pub build_url : Signer → Bytes → Bytes → ℤ → Bytes
  unfolding sign
  build_url s method path exp =
      let (sig, kid) = sign s method path exp in
      path
      ++ b'?'
        ∷ b'k'
        ∷ b'i'
        ∷ b'd'
        ∷ b'='
        ∷ (kid
            ++ b'&'
              ∷ b's'
              ∷ b'i'
              ∷ b'g'
              ∷ b'='
              ∷ (sig ++ b'&' ∷ b'e' ∷ b'x' ∷ b'p' ∷ b'=' ∷ format_int exp))

  unfoldable pub verify_one : Bytes → Bytes → Bytes → ℤ → Bytes → Option Error
  verify_one secret method path exp sig =
      if beq (hmac_hex secret (message method path exp)) sig then none else some bad_sig

  -- With no kid in the query every key is tried.
  unfoldable pub verify_any : List (Bytes × Bytes) → Bytes → Bytes → ℤ → Bytes → Option Error
  unfolding verify_one
  verify_any [] method path exp sig = some bad_sig
  verify_any ((kid, secret) ∷ keys) method path exp sig =
      let rest = verify_any keys method path exp sig in
      elim (verify_one secret method path exp sig) [ none ↦ none | some e ↦ rest ]

  unfoldable pub verify_key : Signer → Bytes → Bytes → Query → ℤ → Option Error
  unfolding verify_any
  verify_key s method path q exp =
      if is_empty q.kid
      then verify_any s.keys method path exp q.sig
      else elim (lookup q.kid s.keys) [
        | none ↦ some unknown_kid
        | some secret ↦ verify_one secret method path exp q.sig
      ]

  unfoldable pub verify : Signer → Bytes → Bytes → Query → ℤ → Option Error
  unfolding verify_key
  verify s method path q now =
      if is_empty q.sig
      then some missing_sig
      else if is_empty q.exp
      then some missing_exp
      else elim (parse_int q.exp) [
        | syntax ↦ some bad_exp
        | out_of_range ↦ some bad_exp
        | value exp ↦ if ltb_ℤ exp now then some expired else verify_key s method path q exp
      ]
