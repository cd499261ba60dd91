-- ===== src/Election/Votes.antt =====
-- What HandleVote, HandleHeartbeat and the campaign of election.go promise, over any moves of one elector.
use kvfs.Base.{
  ℕ, ◌+◌, ◌^◌, ◌≤◌, ◌<◌, true, false, Option, none, some, List, [], ◌≡◌, ◌≢◌, refl, arith, sym, ◌∙◌,
}
use kvfs.Base.Text.{Bytes}
use kvfs.Election.{
  Elector, Peer, vote, VoteQuery, start_campaign, conclude, handle_vote, handle_heartbeat,
  parse_term,
}
use kvfs.Election.Moves.{Move, Moves, Fits, NeverWraps}
use kvfs.Election.Terms.{Quiet-Keeps, handle_vote-VoteOutcome, is_empty-cases}

start_campaign_term :
    (self : Bytes) (e : Elector)
    → e.current_term + 1 < 2 ^ 64
    → (start_campaign self e).current_term ≡ e.current_term + 1
unfolding start_campaign
start_campaign_term self e h = omega arith

conclude_term :
    (self : Bytes) (peers : List Peer) (term votes now : ℕ) (e : Elector)
    → ((conclude self peers term votes now e).current_term ≡ e.current_term)
      × ((conclude self peers term votes now e).voted_for ≡ e.voted_for)
unfolding conclude
conclude_term self peers term votes now e = ground arith

-- The term does not fall, and a vote that is cast stays while the term does.
record Holds (e e' : Elector) : Type 0 where
  term : e.current_term ≤ e'.current_term
  voted : e'.current_term ≡ e.current_term → e.voted_for ≢ [] → e'.voted_for ≡ e.voted_for

Move-Holds :
    (self : Bytes) (peers : List Peer) {e e' : Elector} (m : Move self peers e e')
    → Fits m
    → Holds e e'
Move-Holds self peers (Move.quiet q) fits =
    let k = Quiet-Keeps q in record { term = k.term; voted = λ t h. k.voted t }
Move-Holds self peers (Move.campaign e) fits = record {
  term = omega (arith, start_campaign_term self e fits);
  voted = λ t h. absurd (omega (arith, start_campaign_term self e fits));
}
Move-Holds self peers (Move.ballot e s now q) fits =
    let v = handle_vote-VoteOutcome s now q e in record { term = v.term; voted = v.kept }
Move-Holds self peers (Move.finish e term votes now) fits =
    let c = conclude_term self peers term votes now e in
    record { term = omega (arith, c.0); voted = λ t h. c.1 }

chain_votes :
    (e e' e'' : Elector)
    → Holds e e'
    → Holds e' e''
    → e''.current_term ≡ e.current_term
    → e.voted_for ≢ []
    → e''.voted_for ≡ e.voted_for
chain_votes e e' e'' a b t h =
    let kept : e'.voted_for ≡ e.voted_for = a.voted (omega (arith, a.term, b.term)) h in
    b.voted (omega (arith, a.term, b.term)) (λ x. h (sym kept ∙ x)) ∙ kept

Moves-Holds :
    (self : Bytes) (peers : List Peer) {e e' : Elector} (r : Moves self peers e e')
    → NeverWraps r
    → Holds e e'
Moves-Holds self peers Moves.here fits = record { term = omega arith; voted = λ t h. refl }
Moves-Holds self peers {e} {e'} (Moves.next {e' = mid} r m) fits =
    let a = Moves-Holds self peers r fits.0 in
    let b = Move-Holds self peers m fits.1 in
    record { term = omega (arith, a.term, b.term); voted = λ t h. chain_votes e mid e' a b t h }

-- Over any moves, among them no campaign that begins at the term 2^64 - 1, where it would wrap to 0, the
-- term of an elector does not fall.
pub current_term-le_of_Moves :
    (self : Bytes) (peers : List Peer) (e e' : Elector) (r : Moves self peers e e')
    → NeverWraps r
    → e.current_term ≤ e'.current_term
current_term-le_of_Moves self peers e e' r fits = (Moves-Holds self peers r fits).term

-- Two votes that an elector grants at one term are for one candidate, with any moves between them but
-- a campaign that begins at the term 2^64 - 1, where the term would wrap to 0.
pub one_vote_per_term :
    (self : Bytes) (peers : List Peer) (e e' : Elector) (q q' : VoteQuery) (seq seq' : Option ℕ)
    (now now' t : ℕ)
    → (handle_vote seq now q e).1 ≡ vote true t
    → (r : Moves self peers (handle_vote seq now q e).0 e') → NeverWraps r
    → (handle_vote seq' now' q' e').1 ≡ vote true t
    → q'.candidate_id ≡ q.candidate_id
one_vote_per_term self peers e e' q q' seq seq' now now' t h r fits h' =
    let a = (handle_vote-VoteOutcome seq now q e).granted t h in
    let m = Moves-Holds self peers r fits in
    let o = handle_vote-VoteOutcome seq' now' q' e' in
    let b = o.granted t h' in
    let same_term : e'.current_term ≡ t = omega (arith, m.term, o.term, a.0, b.0) in
    let first = (handle_vote seq now q e).0 in
    let named : first.voted_for ≢ [] = λ x. a.2 (sym a.1 ∙ x) in
    let kept : e'.voted_for ≡ first.voted_for = m.voted (same_term ∙ sym a.0) named in
    let again : (handle_vote seq' now' q' e').0.voted_for ≡ e'.voted_for =
      o.kept (b.0 ∙ sym same_term) (λ x. named (sym kept ∙ x)) in
    sym b.1 ∙ again ∙ kept ∙ a.1

-- The candidate's log is not behind the voter's, where the voter knows its own.
abbrev IsUpToDate : Option ℕ → ℕ → Type 0
IsUpToDate none candidate_seq = Unit
IsUpToDate (some voter_seq) candidate_seq = voter_seq ≤ candidate_seq

-- A stale request, for a vote or with a heartbeat, changes nothing and is answered with the term.
stale_term_refused :
    (seq : Option ℕ) (now t : ℕ) (q : VoteQuery) (leader_id : Bytes) (e : Elector)
    → parse_term q.term ≡ some t
    → q.candidate_id ≢ []
    → t < e.current_term
    → (handle_vote seq now q e ≡ (e, vote false e.current_term))
      × (handle_heartbeat now q.term leader_id e ≡ (e, vote false e.current_term))
unfolding handle_vote handle_heartbeat
stale_term_refused seq now t q leader_id e p named stale =
    (ground (arith, is_empty-cases q.candidate_id), ground arith)
