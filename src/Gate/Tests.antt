-- ===== src/Gate/Tests.antt =====
-- agent_packets.py: the theorems at concrete samples; fault signatures are numbers.
use linuxcnc_status_monitor.Common.{
  ℕ, ◌≡◌, ◌↔◌, refl, true, false, none, some, [], ◌∷◌, ◌==◌, arith,
}
use linuxcnc_status_monitor.Gate.{idle, SameFault, Gate, new_gate, tick, should_send}
use linuxcnc_status_monitor.Gate.Edges.{sampled, asked, handle_all, edge_not_lost}

same_number : (a b : ℕ) → (a == b ≡ true) ↔ (a ≡ b)
same_number a b = ground arith

abbrev numbers : SameFault ℕ
numbers = record { same = λ a b. a == b; same_iff = same_number }

-- polled every 2 ticks, an idle heartbeat every 60; no fault (0) so far
abbrev quiet : Gate ℕ
quiet = record (new_gate 2 60) {
  last_sampled_state = idle;
  prev_state = idle;
  last_poll = some 100;
  last_fault = some 0;
  idle_sent = true;
  last_heartbeat = 100;
}

edge_not_lost_example :
    let g' =
      handle_all numbers
        (sampled 102 idle (some 0) ∷ asked 102 idle false ∷ sampled 103 idle none ∷ [])
        (tick numbers 101 idle (some 7) quiet).1 in
    ((tick numbers 104 idle (some 0) g').0 ≡ true) × ((should_send 104 idle false g').0 ≡ true)
edge_not_lost_example =
    edge_not_lost numbers 101 104 idle idle 7 0 (some 0) false
      (sampled 102 idle (some 0) ∷ asked 102 idle false ∷ sampled 103 idle none ∷ []) quiet refl
      (ground arith)
