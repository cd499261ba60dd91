-- ===== src/Placement/Fill.antt =====
-- How many nodes PickFromNodesByDomain returns, and that it returns none twice.
use mathlib.Core.List.{Memᴰ, map-append}
use mathlib.Core.List.Memᴰ.{head, tail}
use kvfs.Base.{
  ℕ, ◌≤◌, ◌<◌, ◌≡◌, refl, sym, ap, ◌∙◌, false, true, List, [], ◌∷◌, ◌++◌, arith, Bool, ◌||◌,
  Bool-cases, inl, inr, ◌⊎◌, subst, length, length-append, leb, leb→le,
}
use kvfs.Base.Text.{Bytes, beq, beq_iff, beq_refl}
use kvfs.Base.Assoc.{contains}
use kvfs.Placement.{
  Node, Scored, Walk, domain_walk, fill_walk, record_domain_pick, record_fill_pick, start_walk,
}
use kvfs.Placement.Spread.{
  AllDistinct, contains-append, AllDistinct-append_one, next_domain_walk, domain_walk_step,
  next_fill_walk, fill_walk_step,
}
use kvfs.Placement.Distinct.{ids, unique-of_AllDistinct}

-- What both walks keep: the picks are given nodes, each once, at most n, and marked.
pub record IsPicking (n : ℕ) (nodes : List Node) (w : Walk) : Type 0 where
  pub marks : (x : Bytes) → contains w.used_id x ≡ contains (ids w.out) x
  pub distinct : AllDistinct (ids w.out)
  pub given : (nd : Node) → Memᴰ nd w.out → Memᴰ nd nodes
  pub size : length w.out ≤ n

pub IsPicking-start : (n : ℕ) (nodes : List Node) → IsPicking n nodes start_walk
IsPicking-start n nodes = record {
  marks = λ x. refl;
  distinct = tt;
  given = λ nd m. elim m [ ];
  size = omega arith;
}

given_append :
    (nodes out : List Node) (new : Node)
    → ((nd : Node) → Memᴰ nd out → Memᴰ nd nodes)
    → Memᴰ new nodes
    → (nd : Node) → Memᴰ nd (out ++ new ∷ [])
    → Memᴰ nd nodes
given_append nodes [] new h m nd (head e) = subst (λ u. Memᴰ u nodes) (sym e) m
given_append nodes [] new h m nd (tail k) = elim k [ ]
given_append nodes (x ∷ xs) new h m nd (head e) = h nd (head e)
given_append nodes (x ∷ xs) new h m nd (tail k) =
    given_append nodes xs new (λ u mu. h u (tail mu)) m nd k

record_fill_pick-IsPicking :
    (n : ℕ) (nodes : List Node) (w : Walk) (nd : Node)
    → IsPicking n nodes w
    → Memᴰ nd nodes
    → contains w.used_id nd.id ≡ false
    → length w.out < n
    → IsPicking n nodes (record_fill_pick w nd)
unfolding record_fill_pick contains
record_fill_pick-IsPicking n nodes w nd h m e room = record {
  marks = λ x.
      rw (map-append (λ (nd : Node). nd.id) w.out (nd ∷ []), contains-append)
        (ground (arith, h.marks x));
  distinct =
      rw (map-append (λ (nd : Node). nd.id) w.out (nd ∷ []))
        (AllDistinct-append_one (ids w.out) nd.id h.distinct (sym (h.marks nd.id) ∙ e));
  given = given_append nodes w.out nd h.given m;
  size = rw (length-append w.out (nd ∷ [])) (omega arith);
}

next_fill_walk-IsPicking :
    (n : ℕ) (nodes : List Node) (w : Walk) (nd : Node)
    → IsPicking n nodes w
    → Memᴰ nd nodes
    → length w.out < n
    → IsPicking n nodes (next_fill_walk w nd)
unfolding next_fill_walk
next_fill_walk-IsPicking n nodes w nd h m room = elim (Bool-cases (contains w.used_id nd.id)) [
  | inl e ↦ rw e h
  | inr e ↦ rw e (record_fill_pick-IsPicking n nodes w nd h m e room)
]

leb→lt : (n m : ℕ) → leb n m ≡ false → m < n
leb→lt n m h = ground arith

pub fill_walk-IsPicking :
    (n : ℕ) (nodes : List Node) (ss : List Scored) (w : Walk)
    → ((s : Scored) → Memᴰ s ss → Memᴰ s.node nodes)
    → IsPicking n nodes w
    → IsPicking n nodes (fill_walk n ss w)
fill_walk-IsPicking n nodes [] w sub h = unfold fill_walk in h
fill_walk-IsPicking n nodes (s ∷ ss) w sub h = elim (Bool-cases (leb n (length w.out))) [
  | inl e ↦ rw (fill_walk_step, e) h
  | inr e ↦
      rw (fill_walk_step, e)
        (fill_walk-IsPicking n nodes ss (next_fill_walk w s.node) (λ t m. sub t (tail m))
          (next_fill_walk-IsPicking n nodes w s.node h (sub s (head refl)) (leb→lt n _ e)))
]

-- Beside that, the walk over the domains has marked the domain of every node it picked.
pub record IsPickingDomains (n : ℕ) (nodes : List Node) (w : Walk) : Type 0 where
  pub picking : IsPicking n nodes w
  pub seen :
      (nd : Node)
      → Memᴰ nd nodes
      → contains w.used_id nd.id ≡ true
      → contains w.used_domain nd.domain ≡ true

eq_domain : (a b : Node) → a ≡ b → beq a.domain b.domain ≡ true
eq_domain a b e = (beq_iff a.domain b.domain).1 (ap (λ (nd : Node). nd.domain) e)

module _ (n : ℕ) (nodes : List Node) (d : AllDistinct (ids nodes)) where
  record_domain_pick-IsPickingDomains :
      (w : Walk) (nd : Node)
      → IsPickingDomains n nodes w
      → Memᴰ nd nodes
      → contains w.used_domain nd.domain ≡ false
      → length w.out < n
      → IsPickingDomains n nodes (record_domain_pick w nd)
  unfolding record_domain_pick contains
  record_domain_pick-IsPickingDomains w nd h m e room =
      let fresh : contains w.used_id nd.id ≡ false = ground (arith, h.seen nd m) in
      record {
        picking = record {
          marks = λ x.
              rw (map-append (λ (nd : Node). nd.id) w.out (nd ∷ []), contains-append)
                (ground (arith, h.picking.marks x));
          distinct = rw (map-append (λ (nd : Node). nd.id) w.out (nd ∷ [])) (
              AllDistinct-append_one (ids w.out) nd.id h.picking.distinct
                (sym (h.picking.marks nd.id) ∙ fresh));
          given = given_append nodes w.out nd h.picking.given m;
          size = rw (length-append w.out (nd ∷ [])) (omega arith);
        };
        seen = λ o mo.
            same_domain o (contains w.used_id o.id) (contains w.used_domain o.domain) mo
              (h.seen o mo);
      }
    where
      same_domain :
          (o : Node) (b c : Bool)
          → Memᴰ o nodes
          → (b ≡ true → c ≡ true)
          → (beq nd.id o.id || b) ≡ true
          → (beq nd.domain o.domain || c) ≡ true
      same_domain o b c mo keep marked = elim (Bool-cases (beq nd.id o.id)) [
        | inl same ↦
            rw (
              eq_domain nd o
                (unique-of_AllDistinct nodes d nd o m mo ((beq_iff nd.id o.id).0 same)))
        | inr differ ↦ ground (arith, keep)
      ]

  next_domain_walk-IsPickingDomains :
      (w : Walk) (nd : Node)
      → IsPickingDomains n nodes w
      → Memᴰ nd nodes
      → length w.out < n
      → IsPickingDomains n nodes (next_domain_walk w nd)
  unfolding next_domain_walk
  next_domain_walk-IsPickingDomains w nd h m room =
      elim (Bool-cases (contains w.used_domain nd.domain)) [
        | inl e ↦ rw e h
        | inr e ↦ rw e (record_domain_pick-IsPickingDomains w nd h m e room)
      ]

  pub domain_walk-IsPickingDomains :
      (ss : List Scored) (w : Walk)
      → ((s : Scored) → Memᴰ s ss → Memᴰ s.node nodes)
      → IsPickingDomains n nodes w
      → IsPickingDomains n nodes (domain_walk n ss w)
  domain_walk-IsPickingDomains [] w sub h = unfold domain_walk in h
  domain_walk-IsPickingDomains (s ∷ ss) w sub h = elim (Bool-cases (leb n (length w.out))) [
    | inl e ↦ rw (domain_walk_step, e) h
    | inr e ↦
        rw (domain_walk_step, e)
          (domain_walk-IsPickingDomains ss (next_domain_walk w s.node) (λ t m. sub t (tail m))
            (next_domain_walk-IsPickingDomains w s.node h (sub s (head refl)) (leb→lt n _ e)))
  ]

-- The second walk stops because n nodes are picked, or every node it saw is picked.
next_fill_walk-keeps_id :
    (w : Walk) (nd : Node) (x : Bytes)
    → contains w.used_id x ≡ true
    → contains (next_fill_walk w nd).used_id x ≡ true
unfolding next_fill_walk record_fill_pick contains
next_fill_walk-keeps_id w nd x h = ground arith

fill_walk-keeps_id :
    (n : ℕ) (ss : List Scored) (w : Walk) (x : Bytes)
    → contains w.used_id x ≡ true
    → contains (fill_walk n ss w).used_id x ≡ true
fill_walk-keeps_id n [] w x h = unfold fill_walk in h
fill_walk-keeps_id n (s ∷ ss) w x h = elim (Bool-cases (leb n (length w.out))) [
  | inl e ↦ rw (fill_walk_step, e) h
  | inr e ↦
      rw (fill_walk_step, e)
        (fill_walk-keeps_id n ss (next_fill_walk w s.node) x (next_fill_walk-keeps_id w s.node x h))
]

next_fill_walk-marks : (w : Walk) (nd : Node) → contains (next_fill_walk w nd).used_id nd.id ≡ true
unfolding next_fill_walk record_fill_pick contains
next_fill_walk-marks w nd = ground (arith, beq_refl nd.id)

with_first :
    (n : ℕ) (s : Scored) (ss : List Scored) (w : Walk)
    → contains w.used_id s.node.id ≡ true
    → (n ≤ length (fill_walk n ss w).out)
      ⊎ ((t : Scored) → Memᴰ t ss → contains (fill_walk n ss w).used_id t.node.id ≡ true)
    → (n ≤ length (fill_walk n ss w).out)
      ⊎ ((t : Scored) → Memᴰ t (s ∷ ss) → contains (fill_walk n ss w).used_id t.node.id ≡ true)
with_first n s ss w h (inl full) = inl full
with_first n s ss w h (inr all) = inr (go all)
  where
    go :
        ((t : Scored) → Memᴰ t ss → contains (fill_walk n ss w).used_id t.node.id ≡ true)
        → (t : Scored) → Memᴰ t (s ∷ ss)
        → contains (fill_walk n ss w).used_id t.node.id ≡ true
    go all t (head e) = rw e (fill_walk-keeps_id n ss w s.node.id h)
    go all t (tail m) = all t m

pub fill_walk_end :
    (n : ℕ) (ss : List Scored) (w : Walk)
    → (n ≤ length (fill_walk n ss w).out)
      ⊎ ((s : Scored) → Memᴰ s ss → contains (fill_walk n ss w).used_id s.node.id ≡ true)
fill_walk_end n [] w = inr (λ s m. elim m [ ])
fill_walk_end n (s ∷ ss) w = elim (Bool-cases (leb n (length w.out))) [
  | inl e ↦ rw (fill_walk_step, e) (inl (leb→le n (length w.out) e))
  | inr e ↦
      rw (fill_walk_step, e)
        (with_first n s ss (next_fill_walk w s.node) (next_fill_walk-marks w s.node)
          (fill_walk_end n ss (next_fill_walk w s.node)))
]
