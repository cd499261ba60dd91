-- ===== src/Election/Append.antt =====
-- HandleAppendWAL and ReplicateEntry of election.go: one log entry, pushed by the leader.
-- The registered AppendEntryFunc works on a local state S of which nothing is known.
use kvfs.Base.{
  ◌≤◌, ◌≡◌, ◌⊎◌, ◌↔◌, inl, inr, refl, arith, Bool-cases, ℕ, ◌+◌, Bool, true, false, Option, none,
  some, List, [], ◌∷◌, if◌then◌else◌, leb, ltb, ◌&&◌, not,
}
use kvfs.Base.Text.{Bytes, beq}
use kvfs.Election.{Elector, Peer, parse_term, follower, quorum, is_leader}

-- The status of the response, with the term where the body has one.
pub data AppendReply : Type 0 where
  bad_request : AppendReply  -- 400
  stale_term : ℕ → AppendReply  -- 409
  no_append_fn : AppendReply  -- 503
  append_failed : AppendReply  -- 500
  appended : ℕ → AppendReply  -- 200

-- The update of the elector at a higher term. The leader that is known stays.
unfoldable pub follow_term : ℕ → ℕ → Elector → Elector
follow_term now term e =
    if ltb e.current_term term
    then record e { current_term = term; voted_for = []; state = follower; last_hb = now }
    else e

-- One entry is applied to the local state, by the function that was registered.
unfoldable pub apply_entry :
    {S : Type 0} → Option (Bytes → S → S × Bool) → ℕ → Bytes → S → S × AppendReply
apply_entry none term body s = (s, no_append_fn)
apply_entry (some append_fn) term body s =
    let (s', done) = append_fn body s in if done then (s', appended term) else (s', append_failed)

append_at :
    {S : Type 0}
    → Option (Bytes → S → S × Bool)
    → ℕ
    → ℕ
    → Bytes
    → Elector
    → S
    → (Elector × S) × AppendReply
unfolding follow_term apply_entry
append_at append_fn now term body e s =
    if ltb term e.current_term
    then ((e, s), stale_term e.current_term)
    else let (s', reply) = apply_entry append_fn term body s in
      ((follow_term now term e, s'), reply)

-- No body is a body that could not be read.
unfoldable pub handle_append_wal :
    {S : Type 0}
    → Option (Bytes → S → S × Bool)
    → ℕ
    → Bytes
    → Option Bytes
    → Elector
    → S
    → (Elector × S) × AppendReply
unfolding append_at
handle_append_wal append_fn now term none e s = ((e, s), bad_request)
handle_append_wal append_fn now term (some body) e s = elim (parse_term term) [
  | none ↦ ((e, s), bad_request)
  | some t ↦ append_at append_fn now t body e s
]

-- pushAppendWAL: the peer answered 200.
abbrev is_ack : Option AppendReply → Bool
is_ack (some (appended t)) = true
is_ack _ = false

-- The acknowledgements, the leader's own included.
unfoldable pub count_acks : Bytes → (Bytes → Option AppendReply) → List Peer → ℕ → ℕ
count_acks self answers [] acks = acks
count_acks self answers (p ∷ ps) acks =
    count_acks self answers ps
      (if not (beq p.id self) && is_ack (answers p.id) then acks + 1 else acks)

pub data ReplicateResult : Type 0 where
  replicated : ReplicateResult
  not_leader : ReplicateResult
  too_few_acks : ℕ → ReplicateResult

unfoldable replicate_entry :
    Bytes → List Peer → (Bytes → Option AppendReply) → Elector → ReplicateResult
unfolding count_acks
replicate_entry self peers answers e =
    let acks = count_acks self answers peers 1 in
    if not (is_leader e.state)
    then not_leader
    else if leb (quorum peers) acks
    then replicated
    else too_few_acks acks

-- The elector after HandleAppendWAL is as before, or it follows the term of the request.
handle_append_wal-elector :
    {S : Type 0} (append_fn : Option (Bytes → S → S × Bool)) (now : ℕ) (term : Bytes)
    (body : Option Bytes) (e : Elector) (s : S)
    → ((handle_append_wal append_fn now term body e s).0.0 ≡ e)
      ⊎ ((t : ℕ) × (parse_term term ≡ some t)
          × (e.current_term ≤ t)
          × ((handle_append_wal append_fn now term body e s).0.0 ≡ follow_term now t e))
unfolding handle_append_wal
handle_append_wal-elector append_fn now term none e s = inl refl
handle_append_wal-elector append_fn now term (some body) e s = by_term (parse_term term) refl
  where
    by_term :
        (o : Option ℕ)
        → parse_term term ≡ o
        → ((handle_append_wal append_fn now term (some body) e s).0.0 ≡ e)
          ⊎ ((t : ℕ) × (parse_term term ≡ some t)
              × (e.current_term ≤ t)
              × ((handle_append_wal append_fn now term (some body) e s).0.0 ≡ follow_term now t e))
    by_term none p = inl (rw (handle_append_wal, p))
    by_term (some t) p = elim (Bool-cases (ltb t e.current_term)) [
      | inl stale ↦ inl (rw (handle_append_wal, p, stale))
      | inr fine ↦ inr (t, p, ground arith, rw (handle_append_wal, p, fine))
    ]

-- HandleAppendWAL answers 200 exactly when the term is not stale and the entry was applied.
pub handle_append_wal-appended_iff :
    {S : Type 0} (append_fn : Bytes → S → S × Bool) (now t : ℕ) (term body : Bytes) (e : Elector)
    (s : S)
    → parse_term term ≡ some t
    → (((handle_append_wal (some append_fn) now term (some body) e s).1 ≡ appended t)
        ↔ ((e.current_term ≤ t) × ((append_fn body s).1 ≡ true)))
      × ((handle_append_wal (some append_fn) now term (some body) e s).0.1
          ≡ (if ltb t e.current_term then s else (append_fn body s).0))
unfolding handle_append_wal
handle_append_wal-appended_iff append_fn now t term body e s p = (ground arith, ground arith)
