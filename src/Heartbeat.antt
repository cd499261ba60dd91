-- ===== src/Heartbeat.antt =====
-- internal/heartbeat/heartbeat.go: the liveness of the storage nodes. A probe's outcome and the
-- time of its end are arguments; the probe's timeout is left out. Latencies and times are integers.
pub mod Ticks
pub mod History
mod Examples
use kvfs.Base.{
  ℕ, suc, ◌+◌, ◌%◌, ◌^◌, Bool, true, false, Option, none, some, List, [], ◌∷◌, if◌then◌else◌, map,
}
use kvfs.Base.Text.{Bytes, beq, blt}
use kvfs.Base.Assoc.{lookup, insert, contains}
use kvfs.Base.Int.{ℤ, pos, ltb_ℤ, wrap, ◌+ℤ◌, ◌+₆₄◌}
use kvfs.Base.Sort.{sort}

pub record Status : Type 0 where
  pub addr : Bytes
  pub healthy : Bool
  pub last_seen : Option ℤ
  pub last_error : Bytes
  pub latency_ms : ℤ
  pub consec_fails : ℤ
  pub total_probes : ℕ

pub record Monitor : Type 0 where
  pub statuses : List (Bytes × Status)
  pub fail_threshold : ℤ

-- What a probe returns, and when; no error is a healthy node.
pub record Probe : Type 0 where
  pub latency : ℤ
  pub err : Option Bytes
  pub now : ℤ

unfoldable pub new : ℤ → Monitor
new fail_threshold = record {
  statuses = [];
  fail_threshold = if ltb_ℤ (pos 0) fail_threshold then fail_threshold else pos 3;
}

-- The status of a node that has none yet.
unfoldable pub first_status : Bytes → Option Status → Status
first_status addr (some st) = st
first_status addr none = record {
  addr = addr;
  healthy = true;
  last_seen = none;
  last_error = [];
  latency_ms = pos 0;
  consec_fails = pos 0;
  total_probes = 0;
}

unfoldable pub count_probe : ℤ → Status → Status
count_probe latency st = record st {
  total_probes = (st.total_probes + 1) % 2 ^ 64;
  latency_ms = latency;
}

unfoldable pub record_outcome : ℤ → Option Bytes → ℤ → Status → Status
record_outcome threshold none now st = record st {
  last_seen = some now;
  consec_fails = pos 0;
  last_error = [];
  healthy = true;
}
record_outcome threshold (some e) now st =
    let fails = st.consec_fails +₆₄ pos 1 in
    record st {
      consec_fails = fails;
      last_error = e;
      healthy = if ltb_ℤ fails threshold then st.healthy else false;
    }

-- What update makes of the status that it found, if any.
unfoldable pub probed : ℤ → Bytes → Probe → Option Status → Status
probed threshold addr p found =
    record_outcome threshold p.err p.now (count_probe p.latency (first_status addr found))

unfoldable pub update : Bytes → Probe → Monitor → Monitor
update addr p m = record m {
  statuses = insert addr (probed m.fail_threshold addr p (lookup addr m.statuses)) m.statuses;
}

-- The statuses of addresses that are still registered.
unfoldable pub evict : List Bytes → List (Bytes × Status) → List (Bytes × Status)
evict live [] = []
evict live ((addr, st) ∷ statuses) =
    let rest = evict live statuses in if contains live addr then (addr, st) ∷ rest else rest

-- The probes' goroutines, in the order in which they take the lock.
unfoldable pub update_all : (Bytes → Probe) → List Bytes → Monitor → Monitor
update_all probe [] m = m
update_all probe (addr ∷ finished) m = update_all probe finished (update addr (probe addr) m)

unfoldable pub tick : (Bytes → Probe) → List Bytes → List Bytes → Monitor → Monitor
tick probe [] finished m = m
tick probe (addr ∷ addrs) finished m =
    update_all probe finished (record m { statuses = evict (addr ∷ addrs) m.statuses })

unfoldable addr_before : Status → Status → Bool
addr_before a b = blt a.addr b.addr

unfoldable snapshot : Monitor → List Status
snapshot m = sort addr_before (map (λ e. e.1) m.statuses)

unfoldable healthy_keys : List (Bytes × Status) → List Bytes
healthy_keys [] = []
healthy_keys ((addr, st) ∷ statuses) =
    let rest = healthy_keys statuses in if st.healthy then addr ∷ rest else rest

unfoldable healthy_addrs : Monitor → List Bytes
healthy_addrs m = sort blt (healthy_keys m.statuses)
