-- ===== src/Gc/Sweeps.antt =====
-- The plan of ComputePlan of gc.go: which chunks it sweeps, in which order, and when there is one.
use mathlib.Core.List.{Memᴰ, Permᴰ}
use mathlib.Core.List.Permᴰ
use kvfs.Base.{false, List, [], ◌∷◌, ◌≡◌, ◌↔◌, inl, inr, refl, sym, ◌∙◌, arith, subst}
use kvfs.Base.Text.{Bytes, beq_iff, blt_trans, blt_irrefl, blt_neg_trans, blt_total}
use kvfs.Base.Int.{ℤ, ltb_ℤ}
use kvfs.Base.Sort.{IsWeakOrder, IsSorted, sort, sort-perm, sort-IsSorted, mem-perm}
use kvfs.Store.{ObjectMeta}
use kvfs.Base.Call.{Call, ok, failed}
use kvfs.Gc.{
  Claimed, ChunkInfo, Sweep, Plan, build_claimed_set, cutoff, sweep_of, scan_nodes, sweep_before,
  sort_sweeps, compute_plan, count_pairs,
}
use kvfs.Gc.Claims.{any, object_claims, is_claimed-build_claimed_set}
use kvfs.Gc.Planning.{
  with_node, scan_nodes-step, scan_nodes-cons, scan_nodes_sound, scan_nodes_complete,
}
use kvfs.Base.{All}

sweep_before-IsWeakOrder : IsWeakOrder sweep_before
unfolding sweep_before
sweep_before-IsWeakOrder = record {
  asym = λ a b h. ground (
    arith,
    beq_iff a.addr b.addr,
    beq_iff b.addr a.addr,
    blt_trans a.addr b.addr a.addr,
    blt_irrefl a.addr,
    blt_trans a.chunk_id b.chunk_id a.chunk_id,
    blt_irrefl a.chunk_id,
  );
  neg_trans = λ a b c p q. ground (
    arith,
    beq_iff a.addr b.addr,
    beq_iff b.addr c.addr,
    beq_iff a.addr c.addr,
    blt_neg_trans a.addr b.addr c.addr,
    blt_neg_trans a.chunk_id b.chunk_id c.chunk_id,
    blt_total a.addr c.addr,
    blt_total a.addr b.addr,
    blt_total b.addr c.addr,
    blt_trans c.addr a.addr b.addr,
    blt_trans b.addr c.addr a.addr,
    blt_irrefl a.addr,
    blt_irrefl b.addr,
    blt_trans c.addr b.addr a.addr,
    blt_trans a.addr c.addr a.addr,
  );
}

-- The plan is the sorted result of the loops.
compute_plan-scan :
    (dns : List Bytes) (list_chunks : Bytes → Call (List ChunkInfo)) (objs : List ObjectMeta)
    → (min_age now : ℤ) (p : Plan) → compute_plan dns list_chunks (ok objs) min_age now ≡ ok p
    → (q : Plan) × (scan_nodes
          (build_claimed_set objs)
          now
          (cutoff now min_age)
          list_chunks
          dns
          (record { scanned = 0; claimed_keys = count_pairs (build_claimed_set objs); sweeps = [] })
        ≡ ok q)
      × (p ≡ record q { sweeps = sort sweep_before q.sweeps })
compute_plan-scan dns list_chunks objs min_age now p h = unsort _ refl (unfold compute_plan in h)
  where
    unsort :
        (r : Call Plan) {t : Call Plan}
        → t ≡ r
        → sort_sweeps r ≡ ok p
        → (q : Plan) × (t ≡ ok q) × (p ≡ record q { sweeps = sort sweep_before q.sweeps })
    unsort (failed e) l k = absurd (unfold sort_sweeps in cc k)
    unsort (ok q) l k = (q, l, unfold sort_sweeps in cc k)

-- The plan lists exactly the chunks that a node holds, that no object claims at that node and
-- that are not younger than the cutoff, each with its address, identifier, size and age.
pub compute_plan-sweeps_iff :
    (dns : List Bytes) (list_chunks : Bytes → Call (List ChunkInfo)) (objs : List ObjectMeta)
    → (min_age now : ℤ) (p : Plan) (s : Sweep)
    → compute_plan dns list_chunks (ok objs) min_age now ≡ ok p
    → Memᴰ s p.sweeps ↔ (
        (addr : Bytes) × Memᴰ addr dns
        × (cs : List ChunkInfo) × (list_chunks addr ≡ ok cs)
        × (c : ChunkInfo) × Memᴰ c cs
        × (any (object_claims c.id addr) objs ≡ false)
        × (ltb_ℤ (cutoff now min_age) c.mtime ≡ false)
        × (s ≡ sweep_of now addr c))
compute_plan-sweeps_iff dns list_chunks objs min_age now p s h =
    let (q, scan, e) = compute_plan-scan dns list_chunks objs min_age now p h in
    let perm : Permᴰ p.sweeps q.sweeps =
      subst (λ (r : Plan). Permᴰ r.sweeps q.sweeps) (sym e) (sort-perm sweep_before q.sweeps) in
    (
      λ m.
          elim (scan_nodes_sound (build_claimed_set objs) now (cutoff now min_age) list_chunks dns _
            q s scan (mem-perm perm m)) [
              | inl k ↦ elim k [ ]
              | inr (addr, k, cs, l, (c, d, (free, old), t)) ↦ (
                addr,
                k,
                cs,
                l,
                c,
                d,
                sym (is_claimed-build_claimed_set c.id addr objs) ∙ free,
                old,
                t,
              )
            ],
      λ (addr, k, cs, l, c, d, free, old, t). mem-perm (Permᴰ.symm perm) (
          scan_nodes_complete (build_claimed_set objs) now (cutoff now min_age) list_chunks dns _ q
            s scan
            (inr (
              addr,
              k,
              cs,
              l,
              (c, d, (is_claimed-build_claimed_set c.id addr objs ∙ free, old), t),
            ))),
    )

-- The sweeps of a plan stand in the order of their addresses and, at one address, of their
-- identifiers.
compute_plan-IsSorted :
    (dns : List Bytes) (list_chunks : Bytes → Call (List ChunkInfo)) (objs : Call (List ObjectMeta))
    → (min_age now : ℤ) (p : Plan) → compute_plan dns list_chunks objs min_age now ≡ ok p
    → IsSorted sweep_before p.sweeps
unfolding compute_plan
compute_plan-IsSorted dns list_chunks (failed e) min_age now p h = absurd (cc h)
compute_plan-IsSorted dns list_chunks (ok objs) min_age now p h =
    let (q, scan, e) = compute_plan-scan dns list_chunks objs min_age now p h in
    subst (λ (r : Plan). IsSorted sweep_before r.sweeps) (sym e)
      (sort-IsSorted sweep_before sweep_before-IsWeakOrder q.sweeps)

module _ (claimed : Claimed) (now oldest : ℤ) (list_chunks : Bytes → Call (List ChunkInfo)) where
  scan_nodes-ok :
      (addrs : List Bytes) (plan : Plan)
      → All (λ addr. (cs : List ChunkInfo) × (list_chunks addr ≡ ok cs)) addrs
      → (p : Plan) × (scan_nodes claimed now oldest list_chunks addrs plan ≡ ok p)
  unfolding scan_nodes
  scan_nodes-ok [] plan h = (plan, refl)
  scan_nodes-ok (addr ∷ addrs) plan ((cs, l), h) =
      let (p, e) = scan_nodes-ok addrs (with_node claimed now oldest list_chunks addr cs plan) h in
      (p, scan_nodes-step claimed now oldest list_chunks addr addrs plan cs l ∙ e)

  listed-of_scan_nodes :
      (addrs : List Bytes) (plan p : Plan)
      → scan_nodes claimed now oldest list_chunks addrs plan ≡ ok p
      → All (λ addr. (cs : List ChunkInfo) × (list_chunks addr ≡ ok cs)) addrs
  listed-of_scan_nodes [] plan p h = tt
  listed-of_scan_nodes (addr ∷ addrs) plan p h =
      let (cs, l, r) = scan_nodes-cons claimed now oldest list_chunks addr addrs plan p h in
      ((cs, l), listed-of_scan_nodes addrs _ p r)

-- There is a plan exactly when the objects and the chunks of every node could be listed.
pub compute_plan-ok_iff :
    (dns : List Bytes) (list_chunks : Bytes → Call (List ChunkInfo)) (objs : Call (List ObjectMeta))
    → (min_age now : ℤ)
    → ((p : Plan) × (compute_plan dns list_chunks objs min_age now ≡ ok p)) ↔ (
        ((os : List ObjectMeta) × (objs ≡ ok os))
        × All (λ addr. (cs : List ChunkInfo) × (list_chunks addr ≡ ok cs)) dns)
compute_plan-ok_iff dns list_chunks (failed e) min_age now =
    (λ (p, h). absurd (unfold compute_plan in cc h), λ ((os, h), _). absurd (cc h))
compute_plan-ok_iff dns list_chunks (ok objs) min_age now = (
  λ (p, h).
      let (q, scan, e) = compute_plan-scan dns list_chunks objs min_age now p h in
      (
        (objs, refl),
        listed-of_scan_nodes (build_claimed_set objs) now (cutoff now min_age) list_chunks dns _ q
            scan,
      ),
  λ (_, all).
      let (q, e) =
        scan_nodes-ok (build_claimed_set objs) now (cutoff now min_age) list_chunks dns
          (record { scanned = 0; claimed_keys = count_pairs (build_claimed_set objs); sweeps = [] })
          all in
      (record q { sweeps = sort sweep_before q.sweeps }, unfold compute_plan sort_sweeps in rw e),
)
