-- ===== src/Heartbeat/History.antt =====
-- The health that heartbeat.go reports of a node, by the outcomes of its probes.
use kvfs.Base.{ℕ, suc, none, some, List, [], ◌∷◌, ◌≡◌, refl, ◌∙◌}
use kvfs.Base.Text.{Bytes}
use kvfs.Base.Assoc.{lookup}
use kvfs.Base.Int.{ℤ, pos, ltb_ℤ}
use kvfs.Heartbeat.{Status, Monitor, Probe, first_status, update}
use kvfs.Heartbeat.Ticks.{fail_threshold-update}

-- The probes of one node, the last one first.
abbrev pub updates : Bytes → List Probe → Monitor → Monitor
updates addr [] m = m
updates addr (p ∷ earlier) m = update addr p (updates addr earlier m)

-- How many probes have failed since the last one that did not.
abbrev failures : List Probe → ℕ
failures [] = 0
failures (p ∷ earlier) = let rest = failures earlier in elim p.err [ none ↦ 0 | some e ↦ suc rest ]

fail_threshold-updates :
    (addr : Bytes) (h : List Probe) (m : Monitor)
    → (updates addr h m).fail_threshold ≡ m.fail_threshold
fail_threshold-updates addr [] m = refl
fail_threshold-updates addr (p ∷ h) m =
    fail_threshold-update addr p (updates addr h m) ∙ fail_threshold-updates addr h m

-- What a status says after a history with a threshold.
record Agrees (threshold : ℤ) (h : List Probe) (st : Status) : Type 0 where
  fails : st.consec_fails ≡ pos (failures h)
  health : st.healthy ≡ ltb_ℤ (pos (failures h)) threshold

abbrev Seen : ℤ → Bytes → List Probe → Monitor → Type 0
Seen threshold addr h m =
    Agrees threshold h (first_status addr (lookup addr m.statuses)) × (m.fail_threshold ≡ threshold)
