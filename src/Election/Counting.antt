-- ===== src/Election/Counting.antt =====
-- The votes of a campaign of election.go, counted twice: as the candidate counts them, and as they
-- were granted.
use mathlib.Core.List.{Memᴰ}
use mathlib.Core.List.Memᴰ.{head, tail}
use kvfs.Base.{
  ltb, ℕ, suc, ◌+◌, ◌≤◌, ◌<◌, true, false, Option, none, some, List, [], ◌∷◌, ◌≡◌, ◌≢◌, ◌⊎◌, inl,
  inr, refl, ap, if◌then◌else◌, map, arith, length, Bool-cases,
}
use kvfs.Base.Text.{Bytes, beq, beq_iff, beq_refl}
use kvfs.Election.{Elector, Peer, Answer, ask_peers, on_answer}
use kvfs.Election.Cluster.{count_votes}

-- One peer votes for one of two candidates at most.
pub count_votes-disjoint :
    (g : Bytes → Option Bytes) (a b : Bytes) (ps : List Peer)
    → a ≢ b
    → count_votes g a ps + count_votes g b ps ≤ length ps
unfolding count_votes
count_votes-disjoint g a b [] ne = omega arith
count_votes-disjoint g a b (p ∷ ps) ne =
    elim (g p.id)
      as (λ o.
        (elim o [
          | none ↦ count_votes g a ps
          | some c ↦ if beq c a then count_votes g a ps + 1 else count_votes g a ps
        ])
          + (elim o [
            | none ↦ count_votes g b ps
            | some c ↦ if beq c b then count_votes g b ps + 1 else count_votes g b ps
          ])
        ≤ suc (length ps)) [
          | none ↦ omega (arith, count_votes-disjoint g a b ps ne)
          | some c ↦ ground (arith, count_votes-disjoint g a b ps ne, beq_iff c a, beq_iff c b)
        ]

vote_mono :
    (i : Bytes) (a b : Option Bytes) (n m : ℕ)
    → (a ≡ some i → b ≡ some i)
    → n ≤ m
    → (elim a as (λ x. ℕ) [ none ↦ n | some chosen ↦ if beq chosen i then n + 1 else n ])
      ≤ (elim b as (λ x. ℕ) [ none ↦ m | some chosen ↦ if beq chosen i then m + 1 else m ])
vote_mono i none none n m h le = le
vote_mono i none (some y) n m h le = ground arith
vote_mono i (some x) none n m h le = elim (Bool-cases (beq x i)) [
  | inl e ↦ cc (h (ap some ((beq_iff x i).0 e)))
  | inr e ↦ rw e le
]
vote_mono i (some x) (some y) n m h le = elim (Bool-cases (beq x i)) [
  | inl e ↦ ground (arith, h (ap some ((beq_iff x i).0 e)), beq_iff y i)
  | inr e ↦ ground arith
]

pub count_votes_mono :
    (g g' : Bytes → Option Bytes) (i : Bytes) (ps : List Peer)
    → ((p : Bytes) → g p ≡ some i → g' p ≡ some i)
    → count_votes g i ps ≤ count_votes g' i ps
unfolding count_votes
count_votes_mono g g' i [] h = omega arith
count_votes_mono g g' i (p ∷ ps) h =
    vote_mono i (g p.id) (g' p.id) (count_votes g i ps) (count_votes g' i ps) (h p.id)
      (count_votes_mono g g' i ps h)

-- The votes for i from peers other than i.
unfoldable pub count_others : (Bytes → Option Bytes) → Bytes → List Peer → ℕ
count_others g i [] = 0
count_others g i (p ∷ ps) =
    let rest = count_others g i ps in
    if beq p.id i
    then rest
    else elim (g p.id) [ none ↦ rest | some chosen ↦ if beq chosen i then rest + 1 else rest ]

count_others-le :
    (g : Bytes → Option Bytes) (i : Bytes) (ps : List Peer)
    → count_others g i ps ≤ count_votes g i ps
unfolding count_others count_votes
count_others-le g i [] = omega arith
count_others-le g i (p ∷ ps) = ground (arith, count_others-le g i ps)

-- A candidate among the peers has its own vote beside those of the others.
pub count_others-lt :
    (g : Bytes → Option Bytes) (i : Bytes) (ps : List Peer)
    → Memᴰ i (map (λ (p : Peer). p.id) ps)
    → g i ≡ some i
    → count_others g i ps < count_votes g i ps
unfolding count_others count_votes
count_others-lt g i [] m h = elim m [ ]
count_others-lt g i (p ∷ ps) (head e) h =
    ground (arith, beq_iff p.id i, beq_refl i, count_others-le g i ps, ap g e)
count_others-lt g i (p ∷ ps) (tail m) h = ground (arith, count_others-lt g i ps m h)

on_answer-cases :
    (term : ℕ) (a : Answer) (s : Elector × ℕ)
    → ((on_answer term a s).1 ≡ s.1)
      ⊎ ((t : ℕ) × (a ≡ some (true, t)) × ((on_answer term a s).1 ≡ s.1 + 1))
unfolding on_answer
on_answer-cases term none (e, v) = inl refl
on_answer-cases term (some (false, t)) (e, v) = inl (ground arith)
on_answer-cases term (some (true, t)) (e, v) = elim (Bool-cases (ltb term t)) [
  | inl higher ↦ inl (rw higher)
  | inr fine ↦ inr (t, refl, rw fine)
]

ask_one : Bytes → ℕ → (Bytes → Answer) → Peer → Elector × ℕ → Elector × ℕ
ask_one i term answers p s = if beq p.id i then s else on_answer term (answers p.id) s

others_one : (Bytes → Option Bytes) → Bytes → Peer → ℕ → ℕ
others_one g i p n =
    if beq p.id i
    then n
    else elim (g p.id) [ none ↦ n | some chosen ↦ if beq chosen i then n + 1 else n ]

-- One answer adds a vote only if the peer's vote was granted.
ask_one-le :
    (g : Bytes → Option Bytes) (i : Bytes) (term n : ℕ) (answers : Bytes → Answer) (p : Peer)
    (s : Elector × ℕ)
    → ((q : Bytes) (t : ℕ) → answers q ≡ some (true, t) → g q ≡ some i)
    → (ask_one i term answers p s).1 + n ≤ s.1 + others_one g i p n
unfolding ask_one others_one
ask_one-le g i term n answers p s h = elim (Bool-cases (beq p.id i)) [
  | inl self ↦ rw self (omega arith)
  | inr other ↦ rw other (elim (on_answer-cases term (answers p.id) s) [
    | inl same ↦ rw same (ground arith)
    | inr (t, granted, more) ↦ rw (more, h p.id t granted, beq_refl i) (omega arith)
  ])
]

-- What a campaign counts are votes that were granted.
pub ask_peers-le :
    (g : Bytes → Option Bytes) (i : Bytes) (term : ℕ) (answers : Bytes → Answer) (ps : List Peer)
    (s : Elector × ℕ)
    → ((q : Bytes) (t : ℕ) → answers q ≡ some (true, t) → g q ≡ some i)
    → (ask_peers i term answers ps s).1 ≤ s.1 + count_others g i ps
unfolding ask_peers count_others ask_one others_one
ask_peers-le g i term answers [] s h = omega arith
ask_peers-le g i term answers (p ∷ ps) s h = omega (
  arith,
  ask_peers-le g i term answers ps (ask_one i term answers p s) h,
  ask_one-le g i term (count_others g i ps) answers p s h,
)
