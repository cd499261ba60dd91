-- ===== src/Urlkey/Verdict.antt =====
-- Which URLs Verify of urlkey.go accepts.
use mathlib.Core.List.{Memᴰ}
use mathlib.Core.List.Memᴰ.{head, tail}
use kvfs.Base.{
  Option-cases, true, false, none, some, List, [], ◌∷◌, ◌≡◌, ◌≢◌, ◌⊎◌, ◌↔◌, inl, inr, refl, sym,
  ◌∙◌, ap, arith,
}
use kvfs.Base.Text.{Bytes, is_empty}
use kvfs.Base.Assoc.{lookup}
use kvfs.Base.Int.{ℤ, ltb_ℤ}
use kvfs.Base.Decimal.{Parsed, value, syntax, out_of_range, parse_int}
use kvfs.Urlkey.{Signer, Query, verify, verify_one, verify_any, verify_key, message}
use kvfs.Urlkey.Accept.{verify_one-none, verify_of_time}

is_empty_nil : is_empty [] ≡ true
unfolding is_empty
is_empty_nil = refl

is_empty-cases : (s : Bytes) → ((is_empty s ≡ true) × (s ≡ [])) ⊎ ((is_empty s ≡ false) × (s ≢ []))
unfolding is_empty
is_empty-cases [] = inl (refl, refl)
is_empty-cases (b ∷ s) = inr (refl, λ h. cc)

module _ (hmac_hex : Bytes → Bytes → Bytes) where
  -- A registered secret that signed the text: the one of the kid, or any if there is no kid.
  abbrev pub KeyMatches : Signer → Query → Bytes → Type 0
  KeyMatches s q text =
      ((q.kid ≢ [])
        × (secret : Bytes) × (lookup q.kid s.keys ≡ some secret)
        × (hmac_hex secret text ≡ q.sig))
      ⊎ ((q.kid ≡ [])
          × (k : Bytes) × (secret : Bytes) × Memᴰ (k, secret) s.keys
          × (hmac_hex secret text ≡ q.sig))

  verify_any_sound :
      (keys : List (Bytes × Bytes)) (method path sig : Bytes) (exp : ℤ)
      → verify_any hmac_hex keys method path exp sig ≡ none
      → (k : Bytes) × (secret : Bytes) × Memᴰ (k, secret) keys
        × (hmac_hex secret (message method path exp) ≡ sig)
  verify_any_sound [] method path sig exp h = absurd (unfold verify_any in cc)
  verify_any_sound ((k, secret) ∷ keys) method path sig exp h =
      elim (Option-cases (verify_one hmac_hex secret method path exp sig)) [
        | inl e ↦ (k, secret, head refl, (verify_one-none hmac_hex secret method path sig exp).0 e)
        | inr (x, e) ↦
            let (j, y, m, f) =
              verify_any_sound keys method path sig exp
                (unfold verify_any in ground (arith, h, e)) in
            (j, y, tail m, f)
      ]

  verify_any_complete :
      (keys : List (Bytes × Bytes)) (method path sig k secret : Bytes) (exp : ℤ)
      → Memᴰ (k, secret) keys
      → hmac_hex secret (message method path exp) ≡ sig
      → verify_any hmac_hex keys method path exp sig ≡ none
  unfolding verify_any
  verify_any_complete [] method path sig k secret exp m h = elim m [ ]
  verify_any_complete ((j, y) ∷ keys) method path sig k secret exp (head e) h = ground (
    arith,
    (verify_one-none hmac_hex y method path sig exp).1
        (ap (λ (p : Bytes × Bytes). hmac_hex p.1 (message method path exp)) (sym e) ∙ h),
  )
  verify_any_complete ((j, y) ∷ keys) method path sig k secret exp (tail m) h =
      ground (arith, verify_any_complete keys method path sig k secret exp m h)

  verify_key-none :
      (s : Signer) (method path : Bytes) (q : Query) (exp : ℤ)
      → (verify_key hmac_hex s method path q exp ≡ none) ↔ KeyMatches s q (message method path exp)
  verify_key-none s method path q exp = elim (is_empty-cases q.kid) [
    | inl (e, z) ↦ (
      λ h.
          let (k, secret, m, mac) =
            verify_any_sound s.keys method path q.sig exp
              (unfold verify_key in ground (arith, h, e)) in
          inr (z, k, secret, m, mac),
      λ h. elim h [
        | inl (ne, _, _, _) ↦ absurd (ne z)
        | inr (_, k, secret, m, mac) ↦
            unfold verify_key in
            rw e (verify_any_complete s.keys method path q.sig k secret exp m mac)
      ],
    )
    | inr (e, ne) ↦ elim (Option-cases (lookup q.kid s.keys)) [
      | inl l ↦ (
        λ h. absurd (unfold verify_key in ground (arith, h, e, l)),
        λ h. elim h [
          | inl (_, secret, f, _) ↦ absurd (cc (l, f))
          | inr (z, _, _, _, _) ↦ absurd (ne z)
        ],
      )
      | inr (secret, l) ↦ (
        λ h. inl (
          ne,
          secret,
          l,
          (verify_one-none hmac_hex secret method path q.sig exp).0
              (unfold verify_key in ground (arith, h, e, l)),
        ),
        λ h. elim h [
          | inl (_, x, f, mac) ↦
              unfold verify_key in
              rw (e, f) ((verify_one-none hmac_hex x method path q.sig exp).1 mac)
          | inr (z, _, _, _, _) ↦ absurd (ne z)
        ],
      )
    ]
  ]

  has_sig :
      (s : Signer) (method path : Bytes) (q : Query) (now : ℤ)
      → verify hmac_hex s method path q now ≡ none
      → q.sig ≢ []
  has_sig s method path q now h z =
      absurd (unfold verify in ground (arith, h, ap is_empty z, is_empty_nil))

  in_time :
      (s : Signer) (method path : Bytes) (q : Query) (now exp : ℤ)
      → parse_int q.exp ≡ value exp
      → verify hmac_hex s method path q now ≡ none
      → ltb_ℤ exp now ≡ false
  in_time s method path q now exp e h = unfold verify in ground (arith, h, e)

  -- Verify accepts exactly the URLs that carry a signature and a time that has not passed, with
  -- the signature made by the registered key that the kid names, or by any where it names none.
  pub verify-none_iff :
      (s : Signer) (method path : Bytes) (q : Query) (now : ℤ)
      → (verify hmac_hex s method path q now ≡ none) ↔ (
          (q.sig ≢ [])
          × (exp : ℤ) × (parse_int q.exp ≡ value exp)
          × (ltb_ℤ exp now ≡ false)
          × KeyMatches s q (message method path exp))
  verify-none_iff s method path q now = (
    λ h. by_exp (parse_int q.exp) refl h,
    λ (sig, exp, e, time, keys).
        verify_of_time hmac_hex s method path q now exp sig e time
        ∙ (verify_key-none s method path q exp).1 keys,
  )
    where
      by_exp :
          (o : Parsed ℤ)
          → parse_int q.exp ≡ o
          → verify hmac_hex s method path q now ≡ none
          → (q.sig ≢ [])
            × (exp : ℤ) × (parse_int q.exp ≡ value exp)
            × (ltb_ℤ exp now ≡ false)
            × KeyMatches s q (message method path exp)
      by_exp syntax e h = absurd (unfold verify in ground (arith, e, h))
      by_exp out_of_range e h = absurd (unfold verify in ground (arith, e, h))
      by_exp (value exp) e h =
          let sig : q.sig ≢ [] = has_sig s method path q now h in
          let time : ltb_ℤ exp now ≡ false = in_time s method path q now exp e h in
          (
            sig,
            exp,
            e,
            time,
            (verify_key-none s method path q exp).0
                (sym (verify_of_time hmac_hex s method path q now exp sig e time) ∙ h),
          )
