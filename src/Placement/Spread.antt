-- ===== src/Placement/Spread.antt =====
-- The walk over failure domains of PickFromNodesByDomain.
use mathlib.Core.List.{Memᴰ, map-append}
use mathlib.Core.List.Memᴰ.{head, tail}
use kvfs.Base.{
  ℕ, ◌≤◌, ◌≡◌, refl, sym, ◌∙◌, false, true, List, [], ◌∷◌, ◌++◌, map, arith, All, ◌||◌, All-mem,
  All-of_mem, Bool-cases, inl, inr, ◌⊎◌, subst, length, ltb, leb, leb→le, if◌then◌else◌,
}
use kvfs.Base.Text.{Bytes, beq, beq_iff, beq_refl}
use kvfs.Base.Assoc.{contains}
use kvfs.Placement.{
  Node, Scored, Walk, domain_walk, fill_walk, record_domain_pick, record_fill_pick, start_walk,
  spread_walk,
}

pub contains→mem : (ys : List Bytes) (x : Bytes) → contains ys x ≡ true → Memᴰ x ys
unfolding contains
contains→mem [] x h = cc
contains→mem (y ∷ ys) x h = elim (Bool-cases (beq y x)) [
  | inl e ↦ head (sym ((beq_iff y x).0 e))
  | inr e ↦ tail (contains→mem ys x (ground (arith, e)))
]

pub mem→contains : (ys : List Bytes) (x : Bytes) → Memᴰ x ys → contains ys x ≡ true
unfolding contains
mem→contains [] x m = elim m [ ]
mem→contains (y ∷ ys) x (head e) = ground (arith, (beq_iff y x).1 (sym e))
mem→contains (y ∷ ys) x (tail m) = ground (arith, mem→contains ys x m)

-- No two of the strings are equal.
abbrev pub AllDistinct : List Bytes → Type 0
AllDistinct [] = Unit
AllDistinct (x ∷ xs) = (contains xs x ≡ false) × AllDistinct xs

pub contains-append :
    (xs ys : List Bytes) (x : Bytes) → contains (xs ++ ys) x ≡ (contains xs x || contains ys x)
unfolding contains
contains-append [] ys x = refl
contains-append (y ∷ xs) ys x = ground (arith, contains-append xs ys x)

pub AllDistinct-append_one :
    (xs : List Bytes) (y : Bytes)
    → AllDistinct xs
    → contains xs y ≡ false
    → AllDistinct (xs ++ y ∷ [])
unfolding contains
AllDistinct-append_one [] y h e = (refl, tt)
AllDistinct-append_one (x ∷ xs) y h e = (
  rw contains-append (ground (arith, beq_iff x y, beq_iff y x, h.0)),
  AllDistinct-append_one xs y h.1 (ground arith),
)

abbrev pub domains : List Node → List Bytes
domains = map (λ nd. nd.domain)

-- What the walk over the domains keeps: the marks are the domains of the picks, each once.
pub record IsSpread (w : Walk) : Type 0 where
  pub marks : (x : Bytes) → contains w.used_domain x ≡ contains (domains w.out) x
  pub distinct : AllDistinct (domains w.out)

IsSpread-start : IsSpread start_walk
IsSpread-start = record { marks = λ x. refl; distinct = tt }

domains-record_domain_pick :
    (w : Walk) (nd : Node) → domains (record_domain_pick w nd).out ≡ domains w.out ++ nd.domain ∷ []
unfolding record_domain_pick
domains-record_domain_pick w nd = map-append (λ (nd : Node). nd.domain) w.out (nd ∷ [])

record_domain_pick-IsSpread :
    (w : Walk) (nd : Node)
    → IsSpread w
    → contains w.used_domain nd.domain ≡ false
    → IsSpread (record_domain_pick w nd)
unfolding contains
record_domain_pick-IsSpread w nd h e = record {
  marks = λ x.
      rw (domains-record_domain_pick w nd, contains-append)
        (unfold record_domain_pick in ground (arith, h.marks x));
  distinct =
      rw (domains-record_domain_pick w nd)
        (AllDistinct-append_one (domains w.out) nd.domain h.distinct (sym (h.marks nd.domain) ∙ e));
}

unfoldable pub next_domain_walk : Walk → Node → Walk
next_domain_walk w nd = if contains w.used_domain nd.domain then w else record_domain_pick w nd

next_domain_walk-IsSpread : (w : Walk) (nd : Node) → IsSpread w → IsSpread (next_domain_walk w nd)
unfolding next_domain_walk
next_domain_walk-IsSpread w nd h = elim (Bool-cases (contains w.used_domain nd.domain)) [
  | inl e ↦ rw e h
  | inr e ↦ rw e (record_domain_pick-IsSpread w nd h e)
]

-- The walk steps over one node.
pub domain_walk_step :
    (n : ℕ) (s : Scored) (ss : List Scored) (w : Walk)
    → domain_walk n (s ∷ ss) w
      ≡ (if leb n (length w.out) then w else domain_walk n ss (next_domain_walk w s.node))
unfolding domain_walk next_domain_walk
domain_walk_step n s ss w = refl

domain_walk_go :
    (n : ℕ) (s : Scored) (ss : List Scored) (w : Walk)
    → leb n (length w.out) ≡ false
    → domain_walk n (s ∷ ss) w ≡ domain_walk n ss (next_domain_walk w s.node)
domain_walk_go n s ss w e = rw (domain_walk_step, e)

domain_walk-IsSpread :
    (n : ℕ) (ss : List Scored) (w : Walk) → IsSpread w → IsSpread (domain_walk n ss w)
domain_walk-IsSpread n [] w h = unfold domain_walk in h
domain_walk-IsSpread n (s ∷ ss) w h = elim (Bool-cases (leb n (length w.out))) [
  | inl e ↦ rw (domain_walk_step, e) h
  | inr e ↦
      rw (domain_walk_step, e)
        (domain_walk-IsSpread n ss (next_domain_walk w s.node)
          (next_domain_walk-IsSpread w s.node h))
]

Or_right {ℓ κ} : {A : Type ℓ} {B C : Type κ} → A ⊎ B → C → A ⊎ (C × B)
Or_right (inl a) c = inl a
Or_right (inr b) c = inr (c, b)

-- A domain that is represented stays so.
next_domain_walk-keeps :
    (w : Walk) (nd : Node) (x : Bytes)
    → contains (domains w.out) x ≡ true
    → contains (domains (next_domain_walk w nd).out) x ≡ true
unfolding next_domain_walk
next_domain_walk-keeps w nd x h = elim (Bool-cases (contains w.used_domain nd.domain)) [
  | inl e ↦ rw e h
  | inr e ↦ rw (e, domains-record_domain_pick w nd, contains-append, h)
]

next_domain_walk-represents :
    (w : Walk) (nd : Node)
    → IsSpread w
    → contains (domains (next_domain_walk w nd).out) nd.domain ≡ true
unfolding next_domain_walk contains
next_domain_walk-represents w nd h = elim (Bool-cases (contains w.used_domain nd.domain)) [
  | inl e ↦ rw e (sym (h.marks nd.domain) ∙ e)
  | inr e ↦
      rw (e, domains-record_domain_pick w nd, contains-append) (ground (arith, beq_refl nd.domain))
]

domain_walk-keeps :
    (n : ℕ) (ss : List Scored) (w : Walk) (x : Bytes)
    → contains (domains w.out) x ≡ true
    → contains (domains (domain_walk n ss w).out) x ≡ true
domain_walk-keeps n [] w x h = unfold domain_walk in h
domain_walk-keeps n (s ∷ ss) w x h = elim (Bool-cases (leb n (length w.out))) [
  | inl e ↦ rw (domain_walk_step, e) h
  | inr e ↦
      rw (domain_walk_step, e)
        (domain_walk-keeps n ss (next_domain_walk w s.node) x (next_domain_walk-keeps w s.node x h))
]

abbrev pub Represented : List Node → Node → Type 0
Represented out nd = contains (domains out) nd.domain ≡ true

-- The walk stops because n nodes are picked, or it has seen every domain.
domain_walk_end :
    (n : ℕ) (ss : List Scored) (w : Walk)
    → IsSpread w
    → (n ≤ length (domain_walk n ss w).out)
      ⊎ All (λ s. Represented (domain_walk n ss w).out s.node) ss
domain_walk_end n [] w h = inr tt
domain_walk_end n (s ∷ ss) w h = elim (Bool-cases (leb n (length w.out))) [
  | inl e ↦ rw (domain_walk_step, e) (inl (leb→le n (length w.out) e))
  | inr e ↦
      subst (λ (r : Walk). (n ≤ length r.out) ⊎ All (λ s. Represented r.out s.node) (s ∷ ss))
        (sym (domain_walk_go n s ss w e))
        (Or_right
          (domain_walk_end n ss (next_domain_walk w s.node) (next_domain_walk-IsSpread w s.node h))
          (domain_walk-keeps n ss (next_domain_walk w s.node) s.node.domain
            (next_domain_walk-represents w s.node h)))
]

unfoldable pub next_fill_walk : Walk → Node → Walk
next_fill_walk w nd = if contains w.used_id nd.id then w else record_fill_pick w nd

pub fill_walk_step :
    (n : ℕ) (s : Scored) (ss : List Scored) (w : Walk)
    → fill_walk n (s ∷ ss) w
      ≡ (if leb n (length w.out) then w else fill_walk n ss (next_fill_walk w s.node))
unfolding fill_walk next_fill_walk
fill_walk_step n s ss w = refl

next_fill_walk-keeps :
    (w : Walk) (nd : Node) (x : Bytes)
    → contains (domains w.out) x ≡ true
    → contains (domains (next_fill_walk w nd).out) x ≡ true
unfolding next_fill_walk record_fill_pick
next_fill_walk-keeps w nd x h = elim (Bool-cases (contains w.used_id nd.id)) [
  | inl e ↦ rw e h
  | inr e ↦ rw (e, map-append (λ (nd : Node). nd.domain) w.out (nd ∷ []), contains-append, h)
]

fill_walk-keeps :
    (n : ℕ) (ss : List Scored) (w : Walk) (x : Bytes)
    → contains (domains w.out) x ≡ true
    → contains (domains (fill_walk n ss w).out) x ≡ true
fill_walk-keeps n [] w x h = unfold fill_walk in h
fill_walk-keeps n (s ∷ ss) w x h = elim (Bool-cases (leb n (length w.out))) [
  | inl e ↦ rw (fill_walk_step, e) h
  | inr e ↦
      rw (fill_walk_step, e)
        (fill_walk-keeps n ss (next_fill_walk w s.node) x (next_fill_walk-keeps w s.node x h))
]

-- The picks of both walks are in different domains, or they represent every domain.
pub spread_walk-spreads :
    (n : ℕ) (ss : List Scored)
    → AllDistinct (domains (spread_walk n ss)) ⊎ All (λ s. Represented (spread_walk n ss) s.node) ss
unfolding spread_walk
spread_walk-spreads n ss =
    let w = domain_walk n ss start_walk in
    elim (Bool-cases (ltb (length w.out) n)) [
      | inl e ↦ rw e (elim (domain_walk_end n ss start_walk IsSpread-start) [
        | inl full ↦ absurd (ground arith)
        | inr all ↦ inr (
            All-of_mem _ ss λ s m.
              fill_walk-keeps n ss w s.node.domain
                (All-mem (λ s. Represented w.out s.node) ss all m))
      ])
      | inr e ↦ rw e (inl (domain_walk-IsSpread n ss start_walk IsSpread-start).distinct)
    ]
