-- ===== src/Gc/Running.antt =====
-- The counters of Run of gc.go, for any order in which the workers finish.
use mathlib.Core.List.{Permᴰ}
use kvfs.Base.{
  ℕ, suc, ◌+◌, Bool, true, false, Option, none, some, List, [], ◌∷◌, ◌++◌, map, ◌≡◌, refl, ◌∙◌, ap,
  if◌then◌else◌, length, arith, length-append, not,
}
use kvfs.Base.Text.{Bytes, is_empty}
use kvfs.Base.Int.{pos}
use kvfs.Gc.{Sweep, RunStats, Result, sweep_one, id_prefix, count_result, collect, run}

abbrev pub count {ℓ} : {A : Type ℓ} → (A → Bool) → List A → ℕ
count test [] = 0
count test (x ∷ xs) = let rest = count test xs in if test x then suc rest else rest

count-perm {ℓ} :
    {A : Type ℓ} (test : A → Bool) {xs ys : List A} → Permᴰ xs ys → count test xs ≡ count test ys
count-perm test Permᴰ.nil = refl
count-perm test (Permᴰ.cons e d) = ground (arith, ap test e, count-perm test d)
count-perm test (Permᴰ.swap e₁ e₂) = ground (arith, ap test e₁, ap test e₂)
count-perm test (Permᴰ.trans d₁ d₂) = count-perm test d₁ ∙ count-perm test d₂

module _ (delete_chunk_from : Bytes → Bytes → Option Bytes) where
  abbrev pub deletes : Sweep → Bool
  deletes s = elim (delete_chunk_from s.addr s.chunk_id) [ none ↦ true | some e ↦ false ]

  is_empty-append_cons : (xs ys : Bytes) (b : ℕ) → is_empty (xs ++ b ∷ ys) ≡ false
  unfolding is_empty
  is_empty-append_cons [] ys b = refl
  is_empty-append_cons (x ∷ xs) ys b = refl

  result : Sweep → Result
  result s = sweep_one delete_chunk_from s

  -- A worker that deletes counts there, another one among the failures, with its message.
  count_result-deleted :
      (stats : RunStats) (s : Sweep)
      → (count_result stats (result s)).deleted
        ≡ (if deletes s then suc stats.deleted else stats.deleted)
  unfolding count_result result sweep_one
  count_result-deleted stats s = ground arith

  count_result-failed_count :
      (stats : RunStats) (s : Sweep)
      → (count_result stats (result s)).failed_count
        ≡ (if deletes s then stats.failed_count else suc stats.failed_count)
  unfolding count_result result sweep_one
  count_result-failed_count stats s = ground arith

  count_result-errors :
      (stats : RunStats) (s : Sweep)
      → length (count_result stats (result s)).errors
        ≡ (if deletes s then length stats.errors else suc (length stats.errors))
  count_result-errors stats s = by_call (delete_chunk_from s.addr s.chunk_id) refl
    where
      by_call :
          (o : Option Bytes)
          → delete_chunk_from s.addr s.chunk_id ≡ o
          → length (count_result stats (result s)).errors
            ≡ (if deletes s then length stats.errors else suc (length stats.errors))
      by_call none e = unfold count_result result sweep_one in ground (arith, e)
      by_call (some x) e =
          unfold count_result result sweep_one in
          ground (
            arith,
            e,
            is_empty-append_cons s.addr (id_prefix s.chunk_id ++ b':' ∷ b' ' ∷ x) b'/',
            length-append stats.errors
                ((s.addr ++ b'/' ∷ (id_prefix s.chunk_id ++ b':' ∷ b' ' ∷ x)) ∷ []),
          )

  collect-counts :
      (ss : List Sweep) (stats : RunStats)
      → let after = collect (map result ss) stats in
        (after.deleted ≡ count deletes ss + stats.deleted)
        × (after.failed_count ≡ count (λ s. not (deletes s)) ss + stats.failed_count)
        × (length after.errors ≡ count (λ s. not (deletes s)) ss + length stats.errors)
  unfolding collect
  collect-counts [] stats = (omega arith, omega arith, omega arith)
  collect-counts (s ∷ ss) stats =
      let (d, f, e) = collect-counts ss (count_result stats (result s)) in
      (
        ground (arith, d, count_result-deleted stats s),
        ground (arith, f, count_result-failed_count stats s),
        ground (arith, e, count_result-errors stats s),
      )

  count-not : (ss : List Sweep) → count deletes ss + count (λ s. not (deletes s)) ss ≡ length ss
  count-not [] = refl
  count-not (s ∷ ss) = ground (arith, count-not ss)

-- In whatever order the workers finish, Run counts as deleted the sweeps of the plan whose
-- deletion succeeds and as failed the others, keeps a message for each failure, and counts every
-- sweep once.
pub run-counts :
    (delete_chunk_from : Bytes → Bytes → Option Bytes) (sweeps finished : List Sweep)
    → Permᴰ finished sweeps
    → let stats = run delete_chunk_from finished in
      (stats.deleted ≡ count (deletes delete_chunk_from) sweeps)
      × (stats.failed_count ≡ count (λ s. not (deletes delete_chunk_from s)) sweeps)
      × (length stats.errors ≡ stats.failed_count)
      × (stats.deleted + stats.failed_count ≡ length sweeps)
unfolding run result
run-counts delete_chunk_from sweeps finished perm =
    let (d, f, e) =
      collect-counts delete_chunk_from finished
        (record { deleted = 0; failed_count = 0; bytes_freed = pos 0; errors = [] }) in
    let deleted = count-perm (deletes delete_chunk_from) perm in
    let not_deleted = count-perm (λ s. not (deletes delete_chunk_from s)) perm in
    (
      ground (arith, d, deleted),
      ground (arith, f, not_deleted),
      ground (arith, f, e),
      ground (arith, d, f, deleted, not_deleted, count-not delete_chunk_from sweeps),
    )
