-- ===== src/Urlkey/Examples.antt =====
-- The theorems on urlkey.go at concrete inputs: a signer with two keys and a toy MAC.

use kvfs.Base.{length, ◌+◌, arith, false, none, some, List, [], ◌∷◌, ◌≡◌, ◌≢◌, ◌↔◌, inl, refl}
use kvfs.Base.Text.{Bytes, beq, is_empty}
use kvfs.Base.Assoc.{lookup, insert, delete}
use kvfs.Base.Int.{ℤ, IsInt64, pos, ltb_ℤ}
use kvfs.Base.Decimal.{format_int, value, parse_int}
use kvfs.Urlkey.{
  Signer, add, set_primary, remove, has_kid, new_signer, made, unknown_kid, Query, build_url,
  verify, message, default_kid,
}
use kvfs.Urlkey.Url.{read_url, IsPlain, format_int-IsPlain}
use kvfs.Urlkey.Keys.{IsWellFormed}
use kvfs.Urlkey.Rotation.{KeyOp, add_key, use_key, run_ops, made-IsWellFormed}
use kvfs.Urlkey.Accept.{verify-build_url, verify-removed}
use kvfs.Urlkey.Verdict.{verify-none_iff, KeyMatches}

abbrev toy_hmac : Bytes → Bytes → Bytes
toy_hmac secret text = b'x' ∷ format_int (pos (length secret + length text))

toy_hmac-fit : (secret text : Bytes) → (toy_hmac secret text ≢ []) × IsPlain (toy_hmac secret text)
toy_hmac-fit secret text = (λ h. cc, (refl, format_int-IsPlain (pos (length secret + length text))))

abbrev get : Bytes
get = b'G' ∷ []

abbrev path : Bytes
path = b'/' ∷ []

abbrev v1 : Bytes
v1 = default_kid

abbrev v2 : Bytes
v2 = b'v' ∷ b'2' ∷ []

abbrev old_secret : Bytes
old_secret = b's' ∷ []

abbrev new_secret : Bytes
new_secret = b't' ∷ []

abbrev one_key : Signer
one_key = record { keys = (v1, old_secret) ∷ []; primary = v1 }

abbrev two_keys : Signer
two_keys = record { keys = (v2, new_secret) ∷ (v1, old_secret) ∷ []; primary = v1 }

abbrev rotate : List KeyOp
rotate = add_key v2 new_secret ∷ use_key v2 ∷ []

abbrev rotated : Signer
rotated = run_ops rotate one_key

by_range : IsInt64 (pos 9)
by_range = omega arith

made_one_key : new_signer old_secret ≡ made one_key
unfolding new_signer add has_kid lookup insert beq is_empty
made_one_key = refl

made-IsWellFormed_example : IsWellFormed (run_ops rotate one_key)
made-IsWellFormed_example = made-IsWellFormed old_secret [] [] one_key rotate (inl made_one_key)

one_key-IsWellFormed : IsWellFormed one_key
one_key-IsWellFormed = made-IsWellFormed old_secret [] [] one_key [] (inl made_one_key)

verify-build_url_example :
    (q : Query) × (read_url (build_url toy_hmac one_key get path (pos 9)) ≡ some (path, q))
    × (verify toy_hmac (run_ops rotate one_key) get path q (pos 9) ≡ none)
verify-build_url_example =
    verify-build_url toy_hmac one_key rotate get path (pos 9) (pos 9) one_key-IsWellFormed (λ h. cc)
      (refl, (refl, tt)) (refl, tt) toy_hmac-fit (refl, (refl, tt)) by_range refl

verify-removed_example :
    (q : Query) × (read_url (build_url toy_hmac one_key get path (pos 9)) ≡ some (path, q))
    × (verify toy_hmac (run_ops [] (remove v1 rotated).0) get path q (pos 9) ≡ some unknown_kid)
verify-removed_example =
    verify-removed toy_hmac one_key rotated [] get path (pos 9) (pos 9) (λ h. cc) (refl, (refl, tt))
      (refl, tt) toy_hmac-fit
      (unfold remove add set_primary has_kid lookup insert delete beq is_empty in refl) tt by_range
      refl

abbrev query : Query
query = record {
  sig = toy_hmac old_secret (message get path (pos 9));
  exp = format_int (pos 9);
  kid = v1;
}

verify-none_iff_example : (verify toy_hmac one_key get path query (pos 9) ≡ none) ↔ (
    (query.sig ≢ [])
    × (exp : ℤ) × (parse_int query.exp ≡ value exp)
    × (ltb_ℤ exp (pos 9) ≡ false)
    × KeyMatches toy_hmac one_key query (message get path exp))
verify-none_iff_example = verify-none_iff toy_hmac one_key get path query (pos 9)
