-- ===== src/Heartbeat/Ticks.antt =====
-- What Tick of heartbeat.go does to the statuses, in any order of its probes.
use kvfs.Base.{
  none, some, List, [], ◌∷◌, ◌≡◌, inl, inr, refl, sym, ◌∙◌, if◌then◌else◌, arith, Bool-cases,
}
use kvfs.Base.Text.{Bytes, beq, beq_iff, beq_refl}
use kvfs.Base.Assoc.{lookup, lookup-insert, contains}
use kvfs.Placement.Spread.{AllDistinct}
use kvfs.Heartbeat.{Status, Monitor, Probe, probed, update, update_all, evict, tick}

lookup-evict :
    (live : List Bytes) (statuses : List (Bytes × Status)) (a : Bytes)
    → lookup a (evict live statuses) ≡ (if contains live a then lookup a statuses else none)
unfolding evict lookup
lookup-evict live [] a = ground arith
lookup-evict live ((b, st) ∷ statuses) a = ground (arith, beq_iff b a, lookup-evict live statuses a)

pub lookup-update :
    (addr a : Bytes) (p : Probe) (m : Monitor)
    → lookup a (update addr p m).statuses ≡ (
        if beq addr a
        then some (probed m.fail_threshold addr p (lookup addr m.statuses))
        else lookup a m.statuses)
unfolding update
lookup-update addr a p m =
    lookup-insert addr a (probed m.fail_threshold addr p (lookup addr m.statuses)) m.statuses

pub fail_threshold-update :
    (addr : Bytes) (p : Probe) (m : Monitor) → (update addr p m).fail_threshold ≡ m.fail_threshold
unfolding update
fail_threshold-update addr p m = refl

lookup-update_all :
    (probe : Bytes → Probe) (finished : List Bytes) (m : Monitor) (a : Bytes)
    → AllDistinct finished
    → lookup a (update_all probe finished m).statuses ≡ (
        if contains finished a
        then some (probed m.fail_threshold a (probe a) (lookup a m.statuses))
        else lookup a m.statuses)
unfolding update_all contains
lookup-update_all probe [] m a h = refl
lookup-update_all probe (addr ∷ finished) m a h =
    let after = update addr (probe addr) m in
    lookup-update_all probe finished after a h.1 ∙ elim (Bool-cases (beq addr a)) [
      | inl e ↦
          let same : addr ≡ a = (beq_iff addr a).0 e in
          rw (sym same, h.0, beq_refl addr, lookup-update addr addr (probe addr) m, beq_refl addr)
            refl
      | inr e ↦
          rw (e, fail_threshold-update addr (probe addr) m, lookup-update addr a (probe addr) m, e)
            refl
    ]

-- After a tick, in whatever order its probes end, a registered node has the status that its own
-- probe makes of the one it had, if any, and no other node has a status. The registered addresses
-- are distinct and not none, and each is probed once.
pub tick-lookup :
    (probe : Bytes → Probe) (addr : Bytes) (addrs finished : List Bytes) (m : Monitor) (a : Bytes)
    → AllDistinct finished
    → ((b : Bytes) → contains finished b ≡ contains (addr ∷ addrs) b)
    → lookup a (tick probe (addr ∷ addrs) finished m).statuses ≡ (
        if contains (addr ∷ addrs) a
        then some (probed m.fail_threshold a (probe a) (lookup a m.statuses))
        else none)
unfolding tick
tick-lookup probe addr addrs finished m a distinct same =
    let kept = record m { statuses = evict (addr ∷ addrs) m.statuses } in
    lookup-update_all probe finished kept a distinct
    ∙ rw (same a, lookup-evict (addr ∷ addrs) m.statuses a) (ground arith)
