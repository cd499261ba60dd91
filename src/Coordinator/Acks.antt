-- ===== src/Coordinator/Acks.antt =====
-- When a write of coordinator.go reaches its quorum, and whose acknowledgements it returns.
use kvfs.Base.{
  ℕ, Bool, true, zero, length-map, suc, ◌≤◌, false, none, List, [], ◌∷◌, ◌≡◌, ◌↔◌, ◌≢◌, refl, ap,
  ◌∙◌, length, map, arith,
}
use kvfs.Base.Text.{Bytes}
use kvfs.Base.Int.{ℤ, pos, negsuc}
use mathlib.Core.List.{Permᴰ}
use kvfs.Base.Assoc.{contains}
use kvfs.Base.Call.{ok, failed}
use kvfs.Gc.Running.{count}
use kvfs.Placement.Spread.{AllDistinct}
use kvfs.Coordinator.{
  Coordinator, Answer, Written, acks_of, count_acks, quorum_of, write_chunk_to_addrs_w,
}

abbrev pub addrs_of : List Answer → List Bytes
addrs_of = map (λ a. a.addr)

length-perm {ℓ} : {A : Type ℓ} {xs ys : List A} → Permᴰ xs ys → length xs ≡ length ys
length-perm Permᴰ.nil = refl
length-perm (Permᴰ.cons e d) = ap suc (length-perm d)
length-perm (Permᴰ.swap e₁ e₂) = refl
length-perm (Permᴰ.trans d₁ d₂) = length-perm d₁ ∙ length-perm d₂

not_contains-acks_of :
    (answers : List Answer) (x : Bytes)
    → contains (addrs_of answers) x ≡ false
    → contains (acks_of answers) x ≡ false
unfolding acks_of contains
not_contains-acks_of [] x h = h
not_contains-acks_of (a ∷ answers) x h = ground (arith, h, not_contains-acks_of answers x)

pub acks_of-AllDistinct :
    (answers : List Answer) → AllDistinct (addrs_of answers) → AllDistinct (acks_of answers)
unfolding acks_of
acks_of-AllDistinct [] d = tt
acks_of-AllDistinct (a ∷ answers) d =
    elim a.outcome
      as (λ o.
        AllDistinct (elim o [ ok u ↦ a.addr ∷ acks_of answers | failed e ↦ acks_of answers ])) [
          | ok u ↦ (not_contains-acks_of answers a.addr d.0, acks_of-AllDistinct answers d.1)
          | failed e ↦ acks_of-AllDistinct answers d.1
        ]

length-acks_of : (answers : List Answer) → length (acks_of answers) ≤ length answers
unfolding acks_of
length-acks_of [] = omega arith
length-acks_of (a ∷ answers) = ground (arith, length-acks_of answers)

-- A PUT that did not fail.
abbrev pub has_acked : Answer → Bool
has_acked a = elim a.outcome [ ok u ↦ true | failed e ↦ false ]

length-acks_of_count : (answers : List Answer) → length (acks_of answers) ≡ count has_acked answers
unfolding acks_of
length-acks_of_count [] = refl
length-acks_of_count (a ∷ answers) = ground (arith, length-acks_of_count answers)

quorum_of-le :
    (c : Coordinator) (n k : ℕ)
    → (quorum_of c (pos n) ≤ k) ↔ ((n ≡ 0 → c.quorum_write ≤ k) × (n ≢ 0 → n ≤ k))
unfolding quorum_of
quorum_of-le c zero k = (λ h. (λ z. h, λ z. absurd (z refl)), λ h. h.0 refl)
quorum_of-le c (suc n) k =
    (λ h. (λ z. absurd (omega (arith, z)), λ z. h), λ h. h.1 (λ z. omega (arith, z)))

module _ (fan_out : List Bytes → List Answer) (c : Coordinator) where
  abbrev pub write : List Bytes → ℤ → Written
  write targets w = write_chunk_to_addrs_w fan_out c targets w

  -- What a write without an error returns.
  pub write_chunk_to_addrs_w-acks :
      (targets : List Bytes) (w : ℤ)
      → (write targets w).error ≡ none
      → ((write targets w).acks ≡ acks_of (fan_out targets))
        × (quorum_of c w ≤ length (acks_of (fan_out targets)))
  unfolding write_chunk_to_addrs_w count_acks
  write_chunk_to_addrs_w-acks [] w e = absurd (cc e)
  write_chunk_to_addrs_w-acks (t ∷ targets) (negsuc n) e = absurd (cc e)
  write_chunk_to_addrs_w-acks (t ∷ targets) (pos n) e = ground (arith, e)

  -- Each target answers once, in any order. Then the write has no error when and only when there is a
  -- target, the quorum asked for is not negative, and the number of PUTs that did not fail is at least
  -- the quorum asked for, or the coordinator's quorum_write where 0 is asked for. The test before the
  -- fan-out refuses only what could not succeed.
  pub write_chunk_to_addrs_w-ok_iff :
      (targets : List Bytes) (w : ℤ)
      → Permᴰ (addrs_of (fan_out targets)) targets
      → ((write targets w).error ≡ none) ↔ (
          (targets ≢ [])
          × ((n : ℕ) × (w ≡ pos n)
              × (n ≡ 0 → c.quorum_write ≤ count has_acked (fan_out targets))
              × (n ≢ 0 → n ≤ count has_acked (fan_out targets))))
  unfolding write_chunk_to_addrs_w count_acks
  write_chunk_to_addrs_w-ok_iff [] w p = (λ e. absurd (cc e), λ h. absurd (h.0 refl))
  write_chunk_to_addrs_w-ok_iff (t ∷ targets) (negsuc n) p =
      (λ e. absurd (cc e), λ h. absurd (cc h.1.1))
  write_chunk_to_addrs_w-ok_iff (t ∷ targets) (pos n) p =
      let answers = fan_out (t ∷ targets) in
      let counted = length-acks_of_count answers in
      let asked = quorum_of-le c n (length (acks_of answers)) in
      (
        λ e.
            let enough = (write_chunk_to_addrs_w-acks (t ∷ targets) (pos n) e).1 in
            (
              λ q. absurd (cc q),
              (n, refl, rw (← counted) (asked.0 enough).0, rw (← counted) (asked.0 enough).1),
            ),
        λ h.
            let (m, same, by_default, by_number) = h.1 in
            let n_is : n ≡ m = cc same in
            ground (
              arith,
              asked.1 (rw (n_is, counted) (by_default, by_number)),
              length-perm p,
              length-map (λ (a : Answer). a.addr) answers,
              length-acks_of answers,
            ),
      )
