-- ===== src/Coordinator/ReadBack.antt =====
-- A chunk of coordinator.go that reached its write quorum can be read back while fewer nodes than the
-- quorum are down.
use mathlib.Core.List.{Memᴰ, Permᴰ}
use mathlib.Core.List.Permᴰ
use mathlib.Core.List.Memᴰ.{head, tail}
use kvfs.Base.{
  ◌<◌, true, false, Option, none, some, List, [], ◌∷◌, ◌≡◌, ◌⊎◌, inl, inr, refl, sym, ap, subst,
  length, arith, Bool-cases,
}
use kvfs.Base.Text.{Bytes, beq, beq_refl, beq_iff}
use kvfs.Base.Assoc.{contains}
use kvfs.Base.Int.{ℤ}
use kvfs.Base.Call.{Call, ok, failed}
use kvfs.Placement.Spread.{AllDistinct}
use kvfs.Placement.Distinct.{length-le_of_contains}
use kvfs.Placement.Domains.{AllDistinct-perm}
use kvfs.Coordinator.{Coordinator, Answer, quorum_of, read_from, read_chunk, found}
use kvfs.Coordinator.Acks.{addrs_of, acks_of-AllDistinct, write, write_chunk_to_addrs_w-acks}

-- Either all of the strings are in the list, or one of them is not.
one_outside :
    (xs down : List Bytes)
    → ((z : Bytes) → Memᴰ z xs → contains down z ≡ true)
      ⊎ ((z : Bytes) × (contains xs z ≡ true) × (contains down z ≡ false))
unfolding contains
one_outside [] down = inl (λ z m. elim m [ ])
one_outside (x ∷ xs) down = elim (Bool-cases (contains down x)) [
  | inr e ↦ inr (x, ground (arith, beq_refl x), e)
  | inl e ↦ elim (one_outside xs down) [
    | inr (z, m, o) ↦ inr (z, ground (arith, m), o)
    | inl all ↦ inl (λ z m. elim m [ head p ↦ rw p e | tail k ↦ all z k ])
  ]
]

-- Distinct strings that are more than those of a list are not all in it.
some_outside :
    (xs down : List Bytes)
    → AllDistinct xs
    → length down < length xs
    → (z : Bytes) × (contains xs z ≡ true) × (contains down z ≡ false)
some_outside xs down d l = elim (one_outside xs down) [
  | inr z ↦ z
  | inl all ↦ absurd (omega (arith, l, length-le_of_contains xs down d all))
]

-- The answer of a node that serves no other data under the chunk's id.
abbrev pub Serves : Bytes → Call Bytes → Type 0
Serves body (ok b) = b ≡ body
Serves body (failed e) = Unit

module _ (get : Bytes → Call Bytes) (body : Bytes) where
  read_from-found :
      (candidates : List Bytes) (last : Option Bytes) (z : Bytes)
      → ((a : Bytes) → contains candidates a ≡ true → Serves body (get a))
      → contains candidates z ≡ true
      → get z ≡ ok body
      → (addr : Bytes) × (read_from get candidates last ≡ found body addr)
        × (contains candidates addr ≡ true)
  unfolding read_from contains
  read_from-found [] last z serves m g = absurd (cc m)
  read_from-found (a ∷ candidates) last z serves m g =
      go (get a) refl
        (λ text. read_from-found candidates (some text) z (λ x k. serves x (ground (arith, k))))
    where
      go :
          (r : Call Bytes)
          → get a ≡ r
          → ((text : Bytes)
              → contains candidates z ≡ true
              → get z ≡ ok body
              → (addr : Bytes) × (read_from get candidates (some text) ≡ found body addr)
                × (contains candidates addr ≡ true))
          → (addr : Bytes) × (read_from get (a ∷ candidates) last ≡ found body addr)
            × (contains (a ∷ candidates) addr ≡ true)
      go (ok b) e rest = (
        a,
        rw (e, read_from)
            (ap (λ b. found b a) (subst (Serves body) e (serves a (ground (arith, beq_refl a))))),
        ground (arith, beq_refl a),
      )
      go (failed text) e rest = elim (Bool-cases (beq a z)) [
        | inl same ↦ absurd (cc (e, g, ap get ((beq_iff a z).0 same)))
        | inr other ↦
            let (addr, f, k) = rest text (ground (arith, m, other)) g in
            (addr, rw (e, read_from) f, ground (arith, k))
      ]

  -- No two targets are the same and each answers once, in any order, and the write has no error. After
  -- it fewer nodes are down than its quorum; a node that acknowledged the chunk and is not down
  -- answers a GET with the data, and one that is down fails or answers with the data. Then ReadChunk
  -- over the addresses that the write returned finds the data on one of them.
  pub read_chunk-written_lem :
      (fan_out : List Bytes → List Answer) (c : Coordinator) (targets down : List Bytes) (w : ℤ)
      → AllDistinct targets
      → Permᴰ (addrs_of (fan_out targets)) targets
      → (write fan_out c targets w).error ≡ none
      → length down < quorum_of c w
      → ((a : Bytes)
          → contains (write fan_out c targets w).acks a ≡ true
          → contains down a ≡ false
          → get a ≡ ok body)
      → ((a : Bytes) → contains down a ≡ true → Serves body (get a))
      → (addr : Bytes) × (read_chunk get (write fan_out c targets w).acks ≡ found body addr)
        × (contains (write fan_out c targets w).acks addr ≡ true)
  unfolding read_chunk
  read_chunk-written_lem fan_out c targets down w distinct answered fine few up others =
      let out = write fan_out c targets w in
      let (same, enough) = write_chunk_to_addrs_w-acks fan_out c targets w fine in
      let acks_distinct : AllDistinct out.acks =
        rw same (
          acks_of-AllDistinct (fan_out targets)
            (AllDistinct-perm (Permᴰ.symm answered) distinct)) in
      let (z, m, o) =
        some_outside out.acks down acks_distinct (rw same (omega (arith, few, enough))) in
      let serves : (a : Bytes) → contains out.acks a ≡ true → Serves body (get a) = λ a k.
        elim (Bool-cases (contains down a)) [
          | inl e ↦ others a e
          | inr e ↦ subst (Serves body) (sym (up a k e)) refl
        ] in
      read_from-found out.acks none z serves m (up z m o)
