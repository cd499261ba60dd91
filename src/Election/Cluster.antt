-- ===== src/Election/Cluster.antt =====
-- A cluster of electors of election.go. Its steps are the moves of single electors, in any order;
-- requests may be lost, delayed, repeated or forged. `granted` is no state of the program: it
-- records for each term and voter the candidate that got the vote.
use mathlib.Core.List.{Memᴰ}
use kvfs.Base.{
  ℕ, ◌+◌, ◌^◌, ◌<◌, true, false, ◌&&◌, Option, none, some, List, [], ◌∷◌, ◌≡◌, ◌≢◌, if◌then◌else◌,
  ◌==◌, map,
}
use kvfs.Base.Text.{Bytes, beq}
use kvfs.Election.{
  Elector, Peer, leader, Reply, vote, bad_request, VoteQuery, Answer, new, start_campaign, conclude,
  handle_vote, ask_peers,
}
use kvfs.Election.Moves.{Quiet}

pub record Cluster : Type 0 where
  pub node : Bytes → Elector
  pub granted : ℕ → Bytes → Option Bytes

-- Every elector has just been made.
unfoldable pub start : Cluster
unfolding new
start = record { node = λ i. new 0; granted = λ t i. none }

unfoldable pub set_node : Bytes → Elector → Cluster → Cluster
set_node i e c = record c { node = λ j. if beq j i then e else c.node j }

unfoldable pub grant : ℕ → Bytes → Bytes → Cluster → Cluster
grant t i chosen c = record c {
  granted = λ u j. if u == t && beq j i then some chosen else c.granted u j;
}

-- The votes for a candidate among the peers, at one term.
unfoldable pub count_votes : (Bytes → Option Bytes) → Bytes → List Peer → ℕ
count_votes g i [] = 0
count_votes g i (p ∷ ps) =
    let rest = count_votes g i ps in
    elim (g p.id) [ none ↦ rest | some chosen ↦ if beq chosen i then rest + 1 else rest ]

-- A granted vote is recorded.
unfoldable pub record_reply : Bytes → Bytes → Reply → Cluster → Cluster
unfolding grant
record_reply i chosen bad_request c = c
record_reply i chosen (vote false t) c = c
record_reply i chosen (vote true t) c = grant t i chosen c

pub data Step (peers : List Peer) : Cluster → Cluster → Type 0 where
  quiet :
      (c : Cluster) (i : Bytes) {e : Elector} → Quiet (c.node i) e → Step peers c (set_node i e c)
  -- An elector with a name, that does not lead, begins a campaign and votes for itself.
  campaign :
      (c : Cluster) (i : Bytes)
      → i ≢ []
      → (c.node i).state ≢ leader
      → Step peers c (
          grant
            (start_campaign i (c.node i)).current_term
            i
            i
            (set_node i (start_campaign i (c.node i)) c))
  -- Any vote request reaches any elector.
  ballot :
      (c : Cluster) (i : Bytes) (seq : Option ℕ) (now : ℕ) (q : VoteQuery)
      → Step peers c (
          record_reply i q.candidate_id
            (handle_vote seq now q (c.node i)).1
            (set_node i (handle_vote seq now q (c.node i)).0 c))
  -- A campaign that was begun at a term counts the answers that its peers gave at that term.
  finish :
      (c : Cluster) (i : Bytes) (term now : ℕ) (answers : Bytes → Answer)
      → Memᴰ i (map (λ (p : Peer). p.id) peers)
      → c.granted term i ≡ some i
      → ((p : Bytes) (t : ℕ) → answers p ≡ some (true, t) → c.granted term p ≡ some i)
      → Step peers c (
          set_node i
            (conclude i peers term (ask_peers i term answers peers (c.node i, 1)).1 now (c.node i))
            c)

pub data Reach (peers : List Peer) : Cluster → Type 0 where
  here : Reach peers start
  next : {c c' : Cluster} → Reach peers c → Step peers c c' → Reach peers c'

-- No campaign begins at the largest uint64, where the term wraps to 0.
abbrev pub Fits : {peers : List Peer} {c c' : Cluster} → Step peers c c' → Type 0
Fits (Step.quiet c i q) = Unit
Fits (Step.campaign c i named idle) = (c.node i).current_term + 1 < 2 ^ 64
Fits (Step.ballot c i seq now q) = Unit
Fits (Step.finish c i term now answers m own honest) = Unit

abbrev pub NeverWraps : {peers : List Peer} {c : Cluster} → Reach peers c → Type 0
NeverWraps Reach.here = Unit
NeverWraps (Reach.next r st) = NeverWraps r × Fits st
