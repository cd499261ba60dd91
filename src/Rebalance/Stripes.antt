-- ===== src/Rebalance/Stripes.antt =====
-- What planEC of rebalance.go plans for a stripe of shards.

use mathlib.Core.List.{Memᴰ}
use mathlib.Core.List.Permᴰ
use mathlib.Core.List.Memᴰ.{head, tail}
use kvfs.Base.{
  ℕ, suc, true, false, List, [], ◌∷◌, ◌≡◌, ◌⊎◌, inl, inr, refl, sym, ◌∙◌, ap, length, arith,
  Bool-cases, subst, map, take, mem-of_mem_take,
}
use kvfs.Base.Text.{Bytes, blt}
use kvfs.Base.Assoc.{contains}
use kvfs.Base.Int.{ℤ}
use kvfs.Base.Sort.{sort, sort-perm}
use kvfs.Placement.Spread.{AllDistinct, mem→contains}
use kvfs.Store.{ChunkRef, Stripe, ObjectMeta}
use kvfs.Rebalance.{
  Placer, Migration, set_diff, shard_addrs, shard_move, plan_shards, plan_stripe, desired_stripe,
}
use kvfs.Rebalance.Sets.{
  contains-sort, contains-set_diff, AllDistinct-set_diff, AllDistinct-perm, AllDistinct-take,
}

mem-map_self {ℓ κ} :
    {A : Type ℓ} {B : Type κ} (f : A → B) {a : A} (xs : List A) → Memᴰ a xs → Memᴰ (f a) (map f xs)
mem-map_self f [] m = elim m [ ]
mem-map_self f (x ∷ xs) (head e) = head (ap f e)
mem-map_self f (x ∷ xs) (tail m) = tail (mem-map_self f xs m)

abbrev pub new_addrs : List Migration → List Bytes
new_addrs moves = map (λ (mg : Migration). mg.new_addr) moves

module _ (obj : ObjectMeta) (si : ℕ) (desired : List Bytes) where
  plan_shards-cons :
      (shi : ℕ) (sh : ChunkRef) (shards : List ChunkRef) (to : Bytes) (unused : List Bytes)
      → ((plan_shards obj si desired shi (sh ∷ shards) (to ∷ unused)
          ≡ plan_shards obj si desired (suc shi) shards (to ∷ unused)))
        ⊎ ((addr : Bytes) × (contains desired addr ≡ false)
            × (plan_shards obj si desired shi (sh ∷ shards) (to ∷ unused)
                ≡ shard_move obj si shi sh addr to
                  ∷ plan_shards obj si desired (suc shi) shards unused))
  unfolding plan_shards
  plan_shards-cons shi sh shards to unused = by_replicas sh.replicas refl
    where
      by_replicas :
          (l : List Bytes)
          → sh.replicas ≡ l
          → ((plan_shards obj si desired shi (sh ∷ shards) (to ∷ unused)
              ≡ plan_shards obj si desired (suc shi) shards (to ∷ unused)))
            ⊎ ((addr : Bytes) × (contains desired addr ≡ false)
                × (plan_shards obj si desired shi (sh ∷ shards) (to ∷ unused)
                    ≡ shard_move obj si shi sh addr to
                      ∷ plan_shards obj si desired (suc shi) shards unused))
      by_replicas [] e = inl (rw e refl)
      by_replicas (addr ∷ others) e = elim (Bool-cases (contains desired addr)) [
        | inl d ↦ inl (rw (e, d) refl)
        | inr d ↦ inr (addr, d, rw (e, d) refl)
      ]

  -- The new addresses are the first of the unused ones, in order.
  plan_shards-new_addr :
      (shi : ℕ) (shards : List ChunkRef) (unused : List Bytes)
      → let moves = plan_shards obj si desired shi shards unused in
        map (λ (mg : Migration). mg.new_addr) moves ≡ take (length moves) unused
  plan_shards-new_addr shi [] unused = unfold plan_shards in refl
  plan_shards-new_addr shi (sh ∷ shards) [] = unfold plan_shards in refl
  plan_shards-new_addr shi (sh ∷ shards) (to ∷ unused) =
      elim (plan_shards-cons shi sh shards to unused) [
        | inl e ↦ rw e (plan_shards-new_addr (suc shi) shards (to ∷ unused))
        | inr (addr, d, e) ↦ rw e (ap (λ l. to ∷ l) (plan_shards-new_addr (suc shi) shards unused))
      ]

  -- Only a shard on an undesired node moves.
  plan_shards-old_addr :
      (shi : ℕ) (shards : List ChunkRef) (unused : List Bytes) (mg : Migration)
      → Memᴰ mg (plan_shards obj si desired shi shards unused)
      → contains desired mg.old_addr ≡ false
  unfolding plan_shards
  plan_shards-old_addr shi [] unused mg m = elim m [ ]
  plan_shards-old_addr shi (sh ∷ shards) [] mg m = elim m [ ]
  plan_shards-old_addr shi (sh ∷ shards) (to ∷ unused) mg m =
      elim (plan_shards-cons shi sh shards to unused) [
        | inl e ↦
            plan_shards-old_addr (suc shi) shards (to ∷ unused) mg (subst (λ l. Memᴰ mg l) e m)
        | inr (addr, d, e) ↦ elim (subst (λ l. Memᴰ mg l) e m) [
          | head p ↦ ap (λ (g : Migration). contains desired g.old_addr) p ∙ d
          | tail k ↦ plan_shards-old_addr (suc shi) shards unused mg k
        ]
      ]

-- The shards of a stripe that planEC moves leave nodes that are not desired and go to nodes that
-- are desired and had no shard, each to another one. The desired nodes are distinct.
pub plan_stripe-moves_lem :
    (placer : Placer) (obj : ObjectMeta) (want : ℤ) (subset : List Bytes) (si : ℕ) (st : Stripe)
    → AllDistinct (desired_stripe placer st want subset)
    → let moves = plan_stripe placer obj want subset si st in
      AllDistinct (new_addrs moves)
      × ((mg : Migration)
          → Memᴰ mg moves
          → (contains (desired_stripe placer st want subset) mg.new_addr ≡ true)
            × (contains (shard_addrs st.shards) mg.new_addr ≡ false)
            × (contains (desired_stripe placer st want subset) mg.old_addr ≡ false))
unfolding plan_stripe
plan_stripe-moves_lem placer obj want subset si st distinct =
    let desired = desired_stripe placer st want subset in
    let free = set_diff desired (shard_addrs st.shards) in
    let unused = sort blt free in
    let moves = plan_shards obj si desired 0 st.shards unused in
    let firsts = plan_shards-new_addr obj si desired 0 st.shards unused in
    (
      subst AllDistinct (sym firsts) (
          AllDistinct-take (length moves) unused (
            AllDistinct-perm (Permᴰ.symm (sort-perm blt free))
              (AllDistinct-set_diff desired (shard_addrs st.shards) distinct))),
      λ mg m.
          let taken : Memᴰ mg.new_addr (take (length moves) unused) =
            subst (λ l. Memᴰ mg.new_addr l) firsts
              (mem-map_self (λ (g : Migration). g.new_addr) moves m) in
          let both =
            sym (contains-set_diff desired (shard_addrs st.shards) mg.new_addr)
            ∙ sym (contains-sort free mg.new_addr)
            ∙ mem→contains unused mg.new_addr (mem-of_mem_take (length moves) unused taken) in
          (
            ground (arith, both),
            ground (arith, both),
            plan_shards-old_addr obj si desired 0 st.shards unused mg m,
          ),
    )
