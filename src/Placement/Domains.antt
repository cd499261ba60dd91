-- ===== src/Placement/Domains.antt =====
-- What PickFromNodesByDomain of placement.go returns.
use mathlib.Core.List.{Memᴰ, Permᴰ, map-append}
use mathlib.Core.List.Memᴰ.{head, tail}
use mathlib.Core.List.Permᴰ
use kvfs.Base.{
  ℕ, zero, suc, ◌≤◌, ◌<◌, ◌≡◌, refl, sym, ap, ◌∙◌, false, true, List, [], ◌∷◌, ◌++◌, map, arith,
  min, All-mem, Bool-cases, inl, inr, ◌⊎◌, subst, length, ltb, if◌then◌else◌, length-map, not,
  suc-beq_zero, mem-append_left,
}
use kvfs.Base.Text.{Bytes, beq_iff, is_empty→eq}
use kvfs.Base.Assoc.{contains}
use kvfs.Base.Sort.{mem-perm}
use kvfs.Placement.{
  Node, Scored, domain_walk, fill_walk, start_walk, spread_walk, rank, pick_from_nodes,
  pick_from_nodes_by_domain, has_domain,
}
use kvfs.Placement.Rank.{mem-map, map-perm}
use kvfs.Placement.Pick.{rank-node-perm, length-pick_from_nodes, pick_from_nodes-best}
use kvfs.Placement.Spread.{
  AllDistinct, domains, Represented, spread_walk-spreads, contains→mem, mem→contains,
  contains-append,
}
use kvfs.Placement.Distinct.{ids, length-le_of_contains}
use kvfs.Placement.Fill.{
  IsPicking, IsPickingDomains, IsPicking-start, domain_walk-IsPickingDomains, fill_walk-IsPicking,
  fill_walk_end,
}

-- What a choice of n nodes promises: as many as there are up to n, given ones, none twice.
pub record IsChoice (n : ℕ) (nodes out : List Node) : Type 0 where
  pub count : length out ≡ min n (length nodes)
  pub distinct : AllDistinct (ids out)
  pub given : (nd : Node) → Memᴰ nd out → Memᴰ nd nodes

module _ (nodes : List Node) (d : AllDistinct (ids nodes)) (m : ℕ) (fits : m ≤ length nodes)
    (ss : List Scored) (sub : (s : Scored) → Memᴰ s ss → Memᴰ s.node nodes)
    (cover : (nd : Node) → Memᴰ nd nodes → (s : Scored) × Memᴰ s ss × (s.node ≡ nd)) where
  first : IsPickingDomains m nodes (domain_walk m ss start_walk)
  first =
      domain_walk-IsPickingDomains m nodes d ss start_walk sub
        (record { picking = IsPicking-start m nodes; seen = λ nd k h. unfold contains in cc h })

  second : IsPicking m nodes (fill_walk m ss (domain_walk m ss start_walk))
  second = fill_walk-IsPicking m nodes ss _ sub first.picking

  filled : m ≤ length (fill_walk m ss (domain_walk m ss start_walk)).out
  filled = elim (fill_walk_end m ss (domain_walk m ss start_walk)) [
    | inl full ↦ full
    | inr all ↦ omega (
      arith,
      length-map (λ (nd : Node). nd.id) nodes,
      length-map (λ (nd : Node). nd.id) (fill_walk m ss (domain_walk m ss start_walk)).out,
      length-le_of_contains (ids nodes) (ids (fill_walk m ss (domain_walk m ss start_walk)).out) d
          (covered all),
    )
  ]
    where
      covered :
          ((s : Scored)
            → Memᴰ s ss
            → contains (fill_walk m ss (domain_walk m ss start_walk)).used_id s.node.id ≡ true)
          → (z : Bytes) → Memᴰ z (ids nodes)
          → contains (ids (fill_walk m ss (domain_walk m ss start_walk)).out) z ≡ true
      covered all z mz =
          let (nd, mnd, e) = mem-map (λ (nd : Node). nd.id) nodes mz in
          let (s, ms, es) = cover nd mnd in rw (e, ← es) (sym (second.marks s.node.id) ∙ all s ms)

  spread_walk-IsChoice : IsChoice m nodes (spread_walk m ss)
  unfolding spread_walk
  spread_walk-IsChoice = elim (Bool-cases (ltb (length (domain_walk m ss start_walk).out) m)) [
    | inl e ↦ rw e (record {
      count = omega (arith, filled, second.size);
      distinct = second.distinct;
      given = second.given;
    })
    | inr e ↦ rw e (record {
      count = ground (arith, first.picking.size);
      distinct = first.picking.distinct;
      given = first.picking.given;
    })
  ]

contains-of_perm :
    (xs ys : List Bytes) (z : Bytes) → Permᴰ xs ys → contains xs z ≡ false → contains ys z ≡ false
contains-of_perm xs ys z p h = elim (Bool-cases (contains ys z)) [
  | inl e ↦ cc (h, mem→contains xs z (mem-perm (Permᴰ.symm p) (contains→mem ys z e)))
  | inr e ↦ e
]

pub AllDistinct-perm : {xs ys : List Bytes} → Permᴰ xs ys → AllDistinct xs → AllDistinct ys
AllDistinct-perm Permᴰ.nil h = tt
AllDistinct-perm (Permᴰ.cons {l₁ = xs} {l₂ = ys} e p) h =
    (rw (← e) (contains-of_perm xs ys _ p h.0), AllDistinct-perm p h.1)
AllDistinct-perm (Permᴰ.swap {a = a} {b = b} e₁ e₂) h =
    rw (← e₁, ← e₂) (unfold contains in ground (arith, beq_iff a b, beq_iff b a))
AllDistinct-perm (Permᴰ.trans p q) h = AllDistinct-perm q (AllDistinct-perm p h)

AllDistinct-prefix : (xs ys : List Bytes) → AllDistinct (xs ++ ys) → AllDistinct xs
AllDistinct-prefix [] ys h = tt
AllDistinct-prefix (x ∷ xs) ys h =
    (unfold contains in ground (arith, contains-append xs ys x), AllDistinct-prefix xs ys h.1)

clamp-min : (n m : ℕ) → (if ltb m n then m else n) ≡ min n m
clamp-min n m = ground arith

-- The picks are in pairwise different domains, or every domain of the nodes has a pick.
abbrev pub Spreads : List Node → List Node → Type 0
Spreads nodes out = AllDistinct (domains out) ⊎ ((nd : Node) → Memᴰ nd nodes → Represented out nd)

has_domain-empty : (ns : List Node) (a : Node) → has_domain ns ≡ false → Memᴰ a ns → a.domain ≡ []
unfolding has_domain
has_domain-empty [] a h m = elim m [ ]
has_domain-empty (x ∷ xs) a h (head e) = rw e (is_empty→eq x.domain (ground arith))
has_domain-empty (x ∷ xs) a h (tail m) = has_domain-empty xs a (ground arith) m

represented_by_first :
    (nodes out : List Node)
    → has_domain nodes ≡ false
    → 0 < length out
    → ((nd : Node) → Memᴰ nd out → Memᴰ nd nodes)
    → Spreads nodes out
represented_by_first nodes [] e pos sub = absurd (omega arith)
represented_by_first nodes (y ∷ ys) e pos sub = inr (λ nd k.
    unfold contains in
    ground (
      arith,
      beq_iff y.domain nd.domain,
      has_domain-empty nodes y e (sub y (head refl)),
      has_domain-empty nodes nd e k,
    ))

mem-of_mem {ℓ κ} :
    {A : Type ℓ} {B : Type κ} (f : A → B) {a : A} (xs : List A) → Memᴰ a xs → Memᴰ (f a) (map f xs)
mem-of_mem f [] m = elim m [ ]
mem-of_mem f (x ∷ xs) (head e) = head (ap f e)
mem-of_mem f (x ∷ xs) (tail m) = tail (mem-of_mem f xs m)

IsChoice-of_min :
    (n k : ℕ) (nodes out : List Node)
    → min k (length nodes) ≡ min n (length nodes)
    → IsChoice k nodes out
    → IsChoice n nodes out
IsChoice-of_min n k nodes out e c = record {
  count = c.count ∙ e;
  distinct = c.distinct;
  given = c.given;
}

module _ (sha256 : Bytes → Bytes) (chunk_id : Bytes) where
  -- With distinct identifiers PickFromNodes is a choice of n nodes.
  pick_from_nodes-IsChoice :
      (n : ℕ) (nodes : List Node)
      → AllDistinct (ids nodes)
      → IsChoice n nodes (pick_from_nodes sha256 chunk_id n nodes)
  pick_from_nodes-IsChoice n nodes d = record {
    count = length-pick_from_nodes sha256 chunk_id n nodes;
    distinct = AllDistinct-prefix (ids (pick_from_nodes sha256 chunk_id n nodes)) _ (
        subst AllDistinct
          (map-append (λ (nd : Node). nd.id) (pick_from_nodes sha256 chunk_id n nodes) _)
          (AllDistinct-perm
            (map-perm (λ (nd : Node). nd.id)
              (Permᴰ.symm (pick_from_nodes-best sha256 chunk_id n nodes).0))
            d));
    given =
        λ nd m. mem-perm (pick_from_nodes-best sha256 chunk_id n nodes).0 (mem-append_left _ _ m);
  }

  ranked_given :
      (nodes : List Node) (s : Scored) → Memᴰ s (rank sha256 chunk_id nodes) → Memᴰ s.node nodes
  ranked_given nodes s m =
      mem-perm (rank-node-perm sha256 chunk_id nodes) (mem-of_mem (λ (s : Scored). s.node) _ m)

  given_ranked :
      (nodes : List Node) (nd : Node)
      → Memᴰ nd nodes
      → (s : Scored) × Memᴰ s (rank sha256 chunk_id nodes) × (s.node ≡ nd)
  given_ranked nodes nd m =
      let (s, ms, e) =
        mem-map (λ (s : Scored). s.node) (rank sha256 chunk_id nodes)
          (mem-perm (Permᴰ.symm (rank-node-perm sha256 chunk_id nodes)) m) in
      (s, ms, sym e)

  by_walk :
      (nodes : List Node)
      → AllDistinct (ids nodes)
      → (m : ℕ) → m ≤ length nodes
      → IsChoice m nodes (
          if not (has_domain nodes)
          then pick_from_nodes sha256 chunk_id m nodes
          else spread_walk m (rank sha256 chunk_id nodes))
  by_walk nodes d m fits = elim (Bool-cases (has_domain nodes)) [
    | inl e ↦ rw e (
        IsChoice-of_min m m nodes _ refl (
          spread_walk-IsChoice nodes d m fits (rank sha256 chunk_id nodes) (ranked_given nodes)
            (given_ranked nodes)))
    | inr e ↦ rw e (pick_from_nodes-IsChoice m nodes d)
  ]

  -- With distinct identifiers PickFromNodesByDomain returns min(n, |nodes|) given nodes, none twice.
  pick_from_nodes_by_domain-IsChoice :
      (n : ℕ) (nodes : List Node)
      → AllDistinct (ids nodes)
      → IsChoice n nodes (pick_from_nodes_by_domain sha256 chunk_id n nodes)
  unfolding pick_from_nodes_by_domain
  pick_from_nodes_by_domain-IsChoice n [] d = record {
    count = omega arith;
    distinct = tt;
    given = λ nd m. m;
  }
  pick_from_nodes_by_domain-IsChoice zero (x ∷ xs) d = record {
    count = omega arith;
    distinct = tt;
    given = λ nd m. elim m [ ];
  }
  pick_from_nodes_by_domain-IsChoice (suc n) (x ∷ xs) d =
      rw (suc-beq_zero, clamp-min (suc n) (length (x ∷ xs)))
        (IsChoice-of_min (suc n) (min (suc n) (length (x ∷ xs))) (x ∷ xs) _ (omega arith)
          (by_walk (x ∷ xs) d (min (suc n) (length (x ∷ xs))) (omega arith)))

  -- A pick from nodes with no domain at all represents the one domain that there is.
  pick_from_nodes-Spreads :
      (m : ℕ) (nodes : List Node)
      → 0 < m
      → has_domain nodes ≡ false
      → Spreads nodes (pick_from_nodes sha256 chunk_id m nodes)
  pick_from_nodes-Spreads m [] pos e = inr (λ nd k. elim k [ ])
  pick_from_nodes-Spreads m (x ∷ xs) pos e =
      represented_by_first (x ∷ xs) (pick_from_nodes sha256 chunk_id m (x ∷ xs)) e
        (omega (arith, length-pick_from_nodes sha256 chunk_id m (x ∷ xs)))
        (λ nd k.
          mem-perm (pick_from_nodes-best sha256 chunk_id m (x ∷ xs)).0 (mem-append_left _ _ k))

  spread_walk-represents :
      (m : ℕ) (nodes : List Node) → Spreads nodes (spread_walk m (rank sha256 chunk_id nodes))
  spread_walk-represents m nodes = elim (spread_walk-spreads m (rank sha256 chunk_id nodes)) [
    | inl apart ↦ inl apart
    | inr all ↦ inr (λ nd k.
        let (s, ms, e) = given_ranked nodes nd k in
        subst (Represented (spread_walk m (rank sha256 chunk_id nodes))) e
          (All-mem (λ s. Represented (spread_walk m (rank sha256 chunk_id nodes)) s.node) _ all ms))
  ]

  -- Either the picks are in pairwise different domains, or every domain has a pick.
  pub pick_from_nodes_by_domain-Spreads :
      (n : ℕ) (nodes : List Node)
      → Spreads nodes (pick_from_nodes_by_domain sha256 chunk_id n nodes)
  unfolding pick_from_nodes_by_domain
  pick_from_nodes_by_domain-Spreads n [] = inl tt
  pick_from_nodes_by_domain-Spreads zero (x ∷ xs) = inl tt
  pick_from_nodes_by_domain-Spreads (suc n) (x ∷ xs) =
      rw (suc-beq_zero, clamp-min (suc n) (length (x ∷ xs)))
        (elim (Bool-cases (has_domain (x ∷ xs))) [
          | inl e ↦ rw e (spread_walk-represents _ (x ∷ xs))
          | inr e ↦ rw e (pick_from_nodes-Spreads _ (x ∷ xs) (omega arith) e)
        ])
