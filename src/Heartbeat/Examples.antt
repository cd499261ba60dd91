-- ===== src/Heartbeat/Examples.antt =====
-- The theorems on heartbeat.go at concrete inputs: two nodes of which one does not answer.
use kvfs.Base.{true, false, none, some, [], ◌∷◌, ◌≡◌, refl, if◌then◌else◌, arith}
use kvfs.Base.Text.{Bytes, beq}
use kvfs.Base.Assoc.{lookup, contains}
use kvfs.Base.Int.{pos}
use kvfs.Heartbeat.{Probe, new, probed, tick}
use kvfs.Heartbeat.Ticks.{tick-lookup}

abbrev d1 : Bytes
d1 = b'1' ∷ []

abbrev d2 : Bytes
d2 = b'2' ∷ []

abbrev timeout : Probe
timeout = record { latency = pos 2000; err = some (b't' ∷ []); now = pos 5 }

abbrev answer : Probe
answer = record { latency = pos 3; err = none; now = pos 5 }

abbrev network : Bytes → Probe
network addr = elim (beq addr d1) [ true ↦ answer | false ↦ timeout ]

-- The probe of the second node ends first.
both_probed : (b : Bytes) → contains (d2 ∷ d1 ∷ []) b ≡ contains (d1 ∷ d2 ∷ []) b
unfolding contains
both_probed b = ground arith

tick-lookup_example :
    lookup d2 (tick network (d1 ∷ d2 ∷ []) (d2 ∷ d1 ∷ []) (new (pos 2))).statuses ≡ (
      if contains (d1 ∷ d2 ∷ []) d2
      then some
          (probed (new (pos 2)).fail_threshold d2 (network d2) (lookup d2 (new (pos 2)).statuses))
      else none)
tick-lookup_example =
    tick-lookup network d1 (d2 ∷ []) (d2 ∷ d1 ∷ []) (new (pos 2)) d2
      (unfold contains beq in (refl, (refl, tt))) both_probed
