-- ===== src/Election/Campaign.antt =====
-- Who wins a campaign of election.go: runCandidate with the answers of all its peers at hand.
use mathlib.Core.List.{Memᴰ}
use mathlib.Core.List.Memᴰ.{head, tail}
use kvfs.Base.{
  ℕ, ◌+◌, ◌%◌, ◌^◌, ◌≤◌, ◌<◌, Bool, true, false, none, some, List, [], ◌∷◌, ◌≡◌, ◌≢◌, ◌⊎◌, ◌↔◌, inl,
  inr, refl, ◌∙◌, ap, if◌then◌else◌, map, length, ◌*◌, arith, Bool-cases,
}
use kvfs.Base.Text.{Bytes, beq, beq_iff}
use kvfs.Election.{
  Elector, Peer, Answer, start_campaign, conclude, ask_peers, on_answer, leader, follower,
  candidate, run_candidate,
}

-- The peers other than self that granted their vote.
pub yes_votes : Bytes → (Bytes → Answer) → List Peer → ℕ
yes_votes self answers [] = 0
yes_votes self answers (p ∷ ps) =
    let rest = yes_votes self answers ps in
    if beq p.id self then rest else elim (answers p.id) [
      | none ↦ rest
      | some (granted, t) ↦ if granted then rest + 1 else rest
    ]

-- No answer is of a term above the campaign's.
abbrev pub NoHigherTerm : ℕ → (Bytes → Answer) → Type 0
NoHigherTerm term answers = (p : Bytes) (b : Bool) (t : ℕ) → answers p ≡ some (b, t) → t ≤ term

one_answer :
    (term : ℕ) (a : Answer) (e : Elector) (v : ℕ)
    → ((b : Bool) (t : ℕ) → a ≡ some (b, t) → t ≤ term)
    → on_answer term a (e, v)
      ≡ (e, (elim a as (λ x. ℕ) [ none ↦ v | some (granted, t) ↦ if granted then v + 1 else v ]))
unfolding on_answer
one_answer term none e v h = refl
one_answer term (some (b, t)) e v h = ground (arith, h b t refl)

-- One more vote may be counted before or after the rest.
one_more :
    (a : Answer) (v n : ℕ)
    → (elim a as (λ x. ℕ) [ none ↦ v | some (granted, t) ↦ if granted then v + 1 else v ]) + n
      ≡ v + (elim a as (λ x. ℕ) [ none ↦ n | some (granted, t) ↦ if granted then n + 1 else n ])
one_more none v n = refl
one_more (some (true, t)) v n = omega arith
one_more (some (false, t)) v n = refl

ask_peers_lem :
    (self : Bytes) (term : ℕ) (answers : Bytes → Answer) (ps : List Peer) (e : Elector) (v : ℕ)
    → NoHigherTerm term answers
    → ask_peers self term answers ps (e, v) ≡ (e, v + yes_votes self answers ps)
unfolding ask_peers yes_votes
ask_peers_lem self term answers [] e v h = ground arith
ask_peers_lem self term answers (p ∷ ps) e v h = elim (Bool-cases (beq p.id self)) [
  | inl own ↦ rw own (ask_peers_lem self term answers ps e v h)
  | inr other ↦
      rw (other, one_answer term (answers p.id) e v (h p.id))
        (ask_peers_lem self term answers ps e _ h
          ∙ ap (λ k. (e, k)) (one_more (answers p.id) v (yes_votes self answers ps)))
]

module _ (self : Bytes) (peers : List Peer) (answers : Bytes → Answer) (now : ℕ) (e : Elector)
    (campaigning : e.state ≡ candidate) (fits : e.current_term + 1 < 2 ^ 64) where
  run_candidate_lem :
      NoHigherTerm (e.current_term + 1) answers
      → run_candidate self peers answers now e
        ≡ conclude self peers
            (e.current_term + 1)
            (1 + yes_votes self answers peers)
            now
            (record (start_campaign self e) { current_term = e.current_term + 1 })
  unfolding run_candidate
  run_candidate_lem h =
      let term : (e.current_term + 1) % 2 ^ 64 ≡ e.current_term + 1 = omega arith in
      rw (term, ask_peers_lem self (e.current_term + 1) answers peers _ 1 h)

  -- A candidate begins a campaign at a term below 2^64 - 1, and no peer answers with a term above the
  -- campaign's.
  -- Then the candidate leads at the next term exactly if its own vote and the votes granted to it are
  -- more than half of the number of peers, and else it is a follower.
  pub run_candidate-leads_iff :
      NoHigherTerm (e.current_term + 1) answers
      → ((run_candidate self peers answers now e).current_term ≡ e.current_term + 1)
        × (((run_candidate self peers answers now e).state ≡ leader)
            ↔ (length peers < 2 * (1 + yes_votes self answers peers)))
        × (((run_candidate self peers answers now e).state ≡ leader)
            ⊎ ((run_candidate self peers answers now e).state ≡ follower))
  run_candidate-leads_iff h =
      rw (run_candidate_lem h)
        (unfold conclude start_campaign in (ground arith, ground arith, ground arith))

-- An elector that has seen a higher term follows at that term.
abbrev StepsDown : ℕ → Elector → Type 0
StepsDown term e = (term < e.current_term) × (e.state ≡ follower)

one_answer-StepsDown :
    (term : ℕ) (a : Answer) (s : Elector × ℕ)
    → StepsDown term s.0
    → StepsDown term (on_answer term a s).0
unfolding on_answer
one_answer-StepsDown term none (e, v) h = h
one_answer-StepsDown term (some (b, t)) (e, v) h = ground arith

ask_skips :
    (self : Bytes) (term : ℕ) (answers : Bytes → Answer) (p : Peer) (ps : List Peer)
    (s : Elector × ℕ)
    → beq p.id self ≡ true
    → ask_peers self term answers (p ∷ ps) s ≡ ask_peers self term answers ps s
unfolding ask_peers
ask_skips self term answers p ps s own = rw own

ask_asks :
    (self : Bytes) (term : ℕ) (answers : Bytes → Answer) (p : Peer) (ps : List Peer)
    (s : Elector × ℕ)
    → beq p.id self ≡ false
    → ask_peers self term answers (p ∷ ps) s
      ≡ ask_peers self term answers ps (on_answer term (answers p.id) s)
unfolding ask_peers
ask_asks self term answers p ps s other = rw other

ask_peers-StepsDown :
    (self : Bytes) (term : ℕ) (answers : Bytes → Answer) (ps : List Peer) (s : Elector × ℕ)
    → StepsDown term s.0
    → StepsDown term (ask_peers self term answers ps s).0
ask_peers-StepsDown self term answers [] s h = unfold ask_peers in h
ask_peers-StepsDown self term answers (p ∷ ps) s h = elim (Bool-cases (beq p.id self)) [
  | inl own ↦
      rw (ask_skips self term answers p ps s own) (ask_peers-StepsDown self term answers ps s h)
  | inr other ↦ rw (ask_asks self term answers p ps s other) (
      ask_peers-StepsDown self term answers ps (on_answer term (answers p.id) s)
        (one_answer-StepsDown term (answers p.id) s h))
]

-- Until then the elector is as it was.
one_answer-cases :
    (term : ℕ) (a : Answer) (e : Elector) (v : ℕ)
    → e.current_term ≡ term
    → ((on_answer term a (e, v)).0 ≡ e) ⊎ StepsDown term (on_answer term a (e, v)).0
unfolding on_answer
one_answer-cases term none e v h = inl refl
one_answer-cases term (some (b, t)) e v h = ground arith

higher_answer :
    (term t : ℕ) (b : Bool) (s : Elector × ℕ)
    → s.0.current_term ≡ term
    → term < t
    → StepsDown term (on_answer term (some (b, t)) s).0
unfolding on_answer
higher_answer term t b (e, v) h higher = ground arith

ask_peers-higher_term :
    (self : Bytes) (term : ℕ) (answers : Bytes → Answer) (ps : List Peer) (s : Elector × ℕ)
    (p : Bytes) (b : Bool) (t : ℕ)
    → s.0.current_term ≡ term
    → Memᴰ p (map (λ (q : Peer). q.id) ps)
    → p ≢ self
    → answers p ≡ some (b, t)
    → term < t
    → StepsDown term (ask_peers self term answers ps s).0
ask_peers-higher_term self term answers [] s p b t at m ne a higher = elim m [ ]
ask_peers-higher_term self term answers (q ∷ ps) (e, v) p b t at (head eq) ne a higher =
    elim (Bool-cases (beq q.id self)) [
      | inl own ↦ absurd (ne (eq ∙ (beq_iff q.id self).0 own))
      | inr other ↦
          rw (ask_asks self term answers q ps (e, v) other, ← eq, a)
            (ask_peers-StepsDown self term answers ps (on_answer term (some (b, t)) (e, v))
              (higher_answer term t b (e, v) at higher))
    ]
ask_peers-higher_term self term answers (q ∷ ps) (e, v) p b t at (tail m) ne a higher =
    elim (Bool-cases (beq q.id self)) [
      | inl own ↦
          rw (ask_skips self term answers q ps (e, v) own)
            (ask_peers-higher_term self term answers ps (e, v) p b t at m ne a higher)
      | inr other ↦
          rw (ask_asks self term answers q ps (e, v) other)
            (elim (one_answer-cases term (answers q.id) e v at) [
              | inl same ↦
                  ask_peers-higher_term self term answers ps (on_answer term (answers q.id) (e, v))
                    p b t (ap (λ (x : Elector). x.current_term) same ∙ at) m ne a higher
              | inr down ↦
                  ask_peers-StepsDown self term answers ps (on_answer term (answers q.id) (e, v))
                    down
            ])
    ]

-- One answer of a higher term ends the campaign: the elector follows, at a term that is higher.
run_candidate-steps_down :
    (self : Bytes) (peers : List Peer) (answers : Bytes → Answer) (now : ℕ) (e : Elector)
    (p : Bytes) (b : Bool) (t : ℕ)
    → e.current_term + 1 < 2 ^ 64
    → Memᴰ p (map (λ (q : Peer). q.id) peers)
    → p ≢ self
    → answers p ≡ some (b, t)
    → e.current_term + 1 < t
    → ((run_candidate self peers answers now e).state ≡ follower)
      × (e.current_term + 1 < (run_candidate self peers answers now e).current_term)
unfolding run_candidate
run_candidate-steps_down self peers answers now e p b t fits m ne a higher =
    let term : (e.current_term + 1) % 2 ^ 64 ≡ e.current_term + 1 = omega arith in
    rw term (
      ground (
        arith,
        ask_peers-higher_term self (e.current_term + 1) answers peers
            (record e { current_term = e.current_term + 1; voted_for = self; leader_id = [] }, 1) p
            b t refl m ne a higher,
      ))
