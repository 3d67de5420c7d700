-- ===== src/Cycle/Snapshot.antt =====
-- cycle_time_calculator.py: `CycleSnapshot` and `snapshot`, the view of the calculator that goes into a
-- status packet.
use linuxcnc_status_monitor.Common.{
  ℕ, ◌+◌, ◌≡◌, Bool, ◌||◌, Option, none, some, List, [], ◌∷◌, length, last?, min, if◌then◌else◌,
}
use linuxcnc_status_monitor.Common.Floats.{Floats}
use linuxcnc_status_monitor.Cycle.State.{Calculator, max_history, elapsed_ms, progress_of}
use linuxcnc_status_monitor.Cycle.Invariant.{IsValid}

pub record Snapshot (F : Type 0) : Type 0 where
  pub is_running : Bool
  pub is_paused : Bool
  pub current_cycle_ms : ℕ
  pub parts_produced : ℕ
  pub abort_count : ℕ
  pub run_from_here_count : ℕ
  pub last_completed_ms : Option ℕ
  pub average_cycle_ms : Option F
  pub total_completed_cycles : ℕ
  pub cycle_complete_signalled : Bool
  pub is_run_from_here : Bool
  pub last_aborted_ms : Option ℕ
  pub partial_parts : ℕ
  pub partial_part_equiv : F
  pub last_partial_pct : Option F
  pub progress_pct : F
  pub part_in_progress : Bool

unfoldable pub sum : List ℕ → ℕ
sum [] = 0
sum (x ∷ xs) = x + sum xs

module _ ⦃fl : Floats⦄ where
  open fl use {Float, zero as fzero, ratio, percent, round_1, round_2}

  unfoldable pub average : List ℕ → Option Float
  unfolding sum
  average [] = none
  average (x ∷ xs) = some (round_1 (ratio (sum (x ∷ xs)) (length (x ∷ xs))))

  -- `snapshot`
  unfoldable pub snapshot : ℕ → Calculator Float → Snapshot Float
  unfolding average
  snapshot now c = record {
    is_running = c.state.running;
    is_paused = c.state.paused;
    current_cycle_ms = if c.state.running then elapsed_ms now c else 0;
    parts_produced = c.parts_produced;
    abort_count = c.abort_count;
    run_from_here_count = c.run_from_here_count;
    last_completed_ms = last? c.completed_durations_ms;
    average_cycle_ms = average c.completed_durations_ms;
    total_completed_cycles = length c.completed_durations_ms;
    cycle_complete_signalled = c.state.cycle_complete_signalled;
    is_run_from_here = c.state.is_run_from_here;
    last_aborted_ms = last? c.aborted_durations_ms;
    partial_parts = c.partial_parts;
    partial_part_equiv = round_2 c.partial_equiv;
    last_partial_pct = c.last_partial_pct;
    progress_pct =
        percent (
          if c.state.running
          then progress_of c
          else if c.part_open
          then c.open_progress
          else fzero);
    part_in_progress = c.state.running || c.part_open;
  }

  -- The snapshot of a valid calculator has as many completed cycles as parts, up to the length of the
  -- history.
  total-snapshot :
      (now : ℕ) (c : Calculator Float)
      → IsValid c
      → (snapshot now c).total_completed_cycles ≡ min (snapshot now c).parts_produced max_history
  unfolding snapshot
  total-snapshot now c v = v.completed_kept
