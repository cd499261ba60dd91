-- ===== src/Gc/Planning.antt =====
-- The two loops of ComputePlan of gc.go: what they put into the plan.
use mathlib.Core.List.{Memᴰ}
use mathlib.Core.List.Memᴰ.{head, tail}
use kvfs.Base.{
  ◌+◌, false, List, [], ◌∷◌, ◌++◌, ◌≡◌, ◌⊎◌, inl, inr, refl, sym, ◌∙◌, ap, if◌then◌else◌, ◌||◌,
  length, arith, Bool-cases, subst, mem-append_left, mem-append_cases, mem-append_right,
}
use kvfs.Base.Text.{Bytes}
use kvfs.Base.Int.{ℤ, ltb_ℤ}
use kvfs.Base.Call.{Call, ok, failed}
use kvfs.Gc.{Claimed, ChunkInfo, Sweep, Plan, is_claimed, sweep_of, scan_chunks, scan_nodes}

module _ (claimed : Claimed) (now oldest : ℤ) where
  -- Both safety nets let the chunk go.
  abbrev Expired : Bytes → ChunkInfo → Type 0
  Expired addr c = (is_claimed claimed c.id addr ≡ false) × (ltb_ℤ oldest c.mtime ≡ false)

  -- What one node contributes.
  abbrev FromNode : Bytes → List ChunkInfo → Sweep → Type 0
  FromNode addr cs s = (c : ChunkInfo) × Memᴰ c cs × Expired addr c × (s ≡ sweep_of now addr c)

  scan_chunks-cons :
      (addr : Bytes) (c : ChunkInfo) (cs : List ChunkInfo)
      → scan_chunks claimed now oldest addr (c ∷ cs) ≡ (
          if is_claimed claimed c.id addr || ltb_ℤ oldest c.mtime
          then scan_chunks claimed now oldest addr cs
          else sweep_of now addr c ∷ scan_chunks claimed now oldest addr cs)
  unfolding scan_chunks
  scan_chunks-cons addr c cs = ground arith

  -- A chunk of the list is either kept or put first.
  scan_chunks-step :
      (addr : Bytes) (c : ChunkInfo) (cs : List ChunkInfo)
      → (scan_chunks claimed now oldest addr (c ∷ cs) ≡ scan_chunks claimed now oldest addr cs)
        ⊎ (Expired addr c
            × (scan_chunks claimed now oldest addr (c ∷ cs)
                ≡ sweep_of now addr c ∷ scan_chunks claimed now oldest addr cs))
  scan_chunks-step addr c cs =
      elim (Bool-cases (is_claimed claimed c.id addr || ltb_ℤ oldest c.mtime)) [
        | inl e ↦ inl (rw (scan_chunks-cons addr c cs, e))
        | inr e ↦ inr (ground (arith, e), rw (scan_chunks-cons addr c cs, e))
      ]

  scan_chunks_sound :
      (addr : Bytes) (cs : List ChunkInfo) (s : Sweep)
      → Memᴰ s (scan_chunks claimed now oldest addr cs)
      → FromNode addr cs s
  unfolding scan_chunks
  scan_chunks_sound addr [] s m = elim m [ ]
  scan_chunks_sound addr (c ∷ cs) s m = elim (scan_chunks-step addr c cs) [
    | inl e ↦ later (scan_chunks_sound addr cs s (subst (λ l. Memᴰ s l) e m))
    | inr (old, e) ↦ elim (subst (λ l. Memᴰ s l) e m) [
      | head p ↦ (c, head refl, old, p)
      | tail k ↦ later (scan_chunks_sound addr cs s k)
    ]
  ]
    where
      later : FromNode addr cs s → FromNode addr (c ∷ cs) s
      later (x, k, old, p) = (x, tail k, old, p)

  scan_chunks_complete :
      (addr : Bytes) (cs : List ChunkInfo) (c : ChunkInfo)
      → Memᴰ c cs
      → Expired addr c
      → Memᴰ (sweep_of now addr c) (scan_chunks claimed now oldest addr cs)
  scan_chunks_complete addr [] c m old = elim m [ ]
  scan_chunks_complete addr (x ∷ cs) c (head p) old =
      rw (scan_chunks-cons addr x cs, expired) (head (ap (sweep_of now addr) p))
    where
      expired : (is_claimed claimed x.id addr || ltb_ℤ oldest x.mtime) ≡ false
      expired =
          subst (λ (y : ChunkInfo). (is_claimed claimed y.id addr || ltb_ℤ oldest y.mtime) ≡ false)
            p (rw (old.0, old.1))
  scan_chunks_complete addr (x ∷ cs) c (tail m) old = elim (scan_chunks-step addr x cs) [
    | inl e ↦ rw e (scan_chunks_complete addr cs c m old)
    | inr (_, e) ↦ rw e (tail (scan_chunks_complete addr cs c m old))
  ]

  scan_chunks_complete_sweep :
      (addr : Bytes) (cs : List ChunkInfo) (s : Sweep)
      → FromNode addr cs s
      → Memᴰ s (scan_chunks claimed now oldest addr cs)
  scan_chunks_complete_sweep addr cs s (c, k, old, q) =
      subst (λ (t : Sweep). Memᴰ t (scan_chunks claimed now oldest addr cs)) (sym q)
        (scan_chunks_complete addr cs c k old)

  ok-injective : {A : Type 0} {a b : A} → ok a ≡ ok b → a ≡ b
  ok-injective h = cc h

  module _ (list_chunks : Bytes → Call (List ChunkInfo)) where
    -- A sweep of one of the nodes.
    abbrev Swept : List Bytes → Sweep → Type 0
    Swept addrs s =
        (addr : Bytes) × Memᴰ addr addrs
        × (cs : List ChunkInfo) × (list_chunks addr ≡ ok cs)
        × FromNode addr cs s

    abbrev pub with_node : Bytes → List ChunkInfo → Plan → Plan
    with_node addr cs plan = record plan {
      scanned = plan.scanned + length cs;
      sweeps = plan.sweeps ++ scan_chunks claimed now oldest addr cs;
    }

    scan_nodes-nil :
        (plan p : Plan) → scan_nodes claimed now oldest list_chunks [] plan ≡ ok p → plan ≡ p
    unfolding scan_nodes
    scan_nodes-nil plan p h = cc h

    pub scan_nodes-step :
        (addr : Bytes) (addrs : List Bytes) (plan : Plan) (cs : List ChunkInfo)
        → list_chunks addr ≡ ok cs
        → scan_nodes claimed now oldest list_chunks (addr ∷ addrs) plan
          ≡ scan_nodes claimed now oldest list_chunks addrs (with_node addr cs plan)
    unfolding scan_nodes
    scan_nodes-step addr addrs plan cs l = rw (scan_nodes, l) refl

    -- A plan comes out only if the node was listed.
    pub scan_nodes-cons :
        (addr : Bytes) (addrs : List Bytes) (plan p : Plan)
        → scan_nodes claimed now oldest list_chunks (addr ∷ addrs) plan ≡ ok p
        → (cs : List ChunkInfo) × (list_chunks addr ≡ ok cs)
          × (scan_nodes claimed now oldest list_chunks addrs (with_node addr cs plan) ≡ ok p)
    unfolding scan_nodes
    scan_nodes-cons addr addrs plan p h = by_call (list_chunks addr) refl
      where
        by_call :
            (r : Call (List ChunkInfo))
            → list_chunks addr ≡ r
            → (cs : List ChunkInfo) × (list_chunks addr ≡ ok cs)
              × (scan_nodes claimed now oldest list_chunks addrs (with_node addr cs plan) ≡ ok p)
        by_call (failed e) l = absurd (ground (arith, h, l))
        by_call (ok cs) l = (cs, l, ground (arith, h, l))

    pub scan_nodes_sound :
        (addrs : List Bytes) (plan p : Plan) (s : Sweep)
        → scan_nodes claimed now oldest list_chunks addrs plan ≡ ok p
        → Memᴰ s p.sweeps
        → Memᴰ s plan.sweeps ⊎ Swept addrs s
    scan_nodes_sound [] plan p s h m =
        inl (subst (λ (q : Plan). Memᴰ s q.sweeps) (sym (scan_nodes-nil plan p h)) m)
    scan_nodes_sound (addr ∷ addrs) plan p s h m =
        let (cs, l, r) = scan_nodes-cons addr addrs plan p h in
        elim (scan_nodes_sound addrs (with_node addr cs plan) p s r m) [
          | inr (a, k, ds, e, f) ↦ inr (a, tail k, ds, e, f)
          | inl k ↦ elim (mem-append_cases plan.sweeps _ k) [
            | inl k ↦ inl k
            | inr k ↦ inr (addr, head refl, cs, l, scan_chunks_sound addr cs s k)
          ]
        ]

    pub scan_nodes_complete :
        (addrs : List Bytes) (plan p : Plan) (s : Sweep)
        → scan_nodes claimed now oldest list_chunks addrs plan ≡ ok p
        → Memᴰ s plan.sweeps ⊎ Swept addrs s
        → Memᴰ s p.sweeps
    scan_nodes_complete [] plan p s h m = elim m [
      | inl k ↦ subst (λ (q : Plan). Memᴰ s q.sweeps) (scan_nodes-nil plan p h) k
      | inr (_, k, _, _, _) ↦ elim k [ ]
    ]
    scan_nodes_complete (addr ∷ addrs) plan p s h m =
        let (cs, l, r) = scan_nodes-cons addr addrs plan p h in
        scan_nodes_complete addrs (with_node addr cs plan) p s r (elim m [
          | inl k ↦ inl (mem-append_left plan.sweeps _ k)
          | inr (a, head e, ds, d, f) ↦ inl (mem-append_right plan.sweeps _ (here a cs ds e l d f))
          | inr (a, tail k, ds, d, f) ↦ inr (a, k, ds, d, f)
        ])
      where
        here :
            (a : Bytes) (cs ds : List ChunkInfo)
            → a ≡ addr
            → list_chunks addr ≡ ok cs
            → list_chunks a ≡ ok ds
            → FromNode a ds s
            → Memᴰ s (scan_chunks claimed now oldest addr cs)
        here a cs ds e l d f =
            let same : ds ≡ cs = ok-injective (sym d ∙ ap list_chunks e ∙ l) in
            scan_chunks_complete_sweep addr cs s (
              subst (λ (b : Bytes). FromNode b cs s) e
                (subst (λ (es : List ChunkInfo). FromNode a es s) same f))
