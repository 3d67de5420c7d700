-- ===== src/Machine/Counting.antt =====
-- status.py: what each step of `_CycleStateMachine` does to the number of parts.

use linuxcnc_status_monitor.Common.{
  ℕ, String, ◌+◌, ◌≡◌, ◌⊎◌, refl, Bool, true, false, Option, none, some, arith, if_rule,
}
use linuxcnc_status_monitor.Common.Floats.{Floats}
use linuxcnc_status_monitor.Cycle.State.{
  Calculator, classify, leave_part_open, elapsed_ms, resolved_rfh, progress_of,
}
use linuxcnc_status_monitor.Cycle.Operations.{
  start_cycle, classify_running, set_furthest, pause_cycle, resume_cycle, signal_cycle_complete,
  settle, stop_cycle, abort_cycle, abandon_other_program, classify_if_known, record_abort,
  count_part,
}
use linuxcnc_status_monitor.Tracker.Lines.{reached_end}
use linuxcnc_status_monitor.Machine.{Poll, Machine, report, track, finish_run}

module _ ⦃fl : Floats⦄ where
  open fl use {Float}

  -- no part is counted, and no completion is signalled
  abbrev pub KeepsParts : Calculator Float → Calculator Float → Type 0
  KeepsParts c c' =
      (c'.parts_produced ≡ c.parts_produced)
      × (c.state.cycle_complete_signalled ≡ false → c'.state.cycle_complete_signalled ≡ false)

  pub report-KeepsParts :
      (rfh : Option Bool) (f : Float) (c : Calculator Float) → KeepsParts c (report rfh f c)
  unfolding report set_furthest classify_running classify
  report-KeepsParts none f c = (refl, λ h. h)
  report-KeepsParts (some true) f c = ground arith
  report-KeepsParts (some false) f c = ground arith

  pub track-KeepsParts : (p : Poll) (m : Machine Float) → KeepsParts m.calc (track p m).calc
  unfolding track
  track-KeepsParts p m =
      if_rule {A = Machine Float} (λ m'. KeepsParts m.calc m'.calc) p.in_subroutine (refl, λ h. h)
        (report-KeepsParts _ _ m.calc)

  pub start-KeepsParts :
      (now : ℕ) (program : Option String) (c : Calculator Float)
      → KeepsParts c (start_cycle now none program c)
  unfolding start_cycle classify_if_known abandon_other_program
  start-KeepsParts now program c = ground arith

  pub pause-KeepsParts : (now : ℕ) (c : Calculator Float) → KeepsParts c (pause_cycle now c)
  unfolding pause_cycle
  pause-KeepsParts now c = ground arith

  pub resume-KeepsParts :
      (now : ℕ) (c c' : Calculator Float) → resume_cycle now c ≡ some c' → KeepsParts c c'
  unfolding resume_cycle
  resume-KeepsParts now c c' e = ground arith

  pub abort-KeepsParts : (now : ℕ) (c : Calculator Float) → KeepsParts c (abort_cycle now c)
  unfolding abort_cycle record_abort
  abort-KeepsParts now c = ground arith

  pub settle-parts :
      (d : ℕ) (complete rfh : Bool) (f : Float) (c : Calculator Float)
      → ((settle d complete rfh f c).parts_produced ≡ c.parts_produced)
        ⊎ (((settle d complete rfh f c).parts_produced ≡ c.parts_produced + 1) × (complete ≡ true))
  unfolding settle count_part record_abort leave_part_open
  settle-parts d complete rfh f c = ground arith

  pub stop-parts :
      (now : ℕ) (c : Calculator Float)
      → ((stop_cycle now c).parts_produced ≡ c.parts_produced)
        ⊎ (((stop_cycle now c).parts_produced ≡ c.parts_produced + 1)
            × (c.state.cycle_complete_signalled ≡ true))
  unfolding stop_cycle
  stop-parts now c = ground (
    arith,
    settle-parts (elapsed_ms now c) c.state.cycle_complete_signalled (resolved_rfh c)
        (progress_of c) c,
  )

  pub stop-unsignalled :
      (now : ℕ) (c : Calculator Float)
      → c.state.running ≡ true
      → (stop_cycle now c).state.cycle_complete_signalled ≡ false
  unfolding stop_cycle
  stop-unsignalled now c h = ground arith

  pub signal-parts :
      (c : Calculator Float)
      → ((signal_cycle_complete c).parts_produced ≡ c.parts_produced)
        × ((signal_cycle_complete c).state.running ≡ c.state.running)
  unfolding signal_cycle_complete
  signal-parts c = ground arith

  -- what a finished run counts
  pub finish_run-parts :
      (p : Poll) (m : Machine Float)
      → m.calc.state.cycle_complete_signalled ≡ false
      → ((finish_run p m).calc.parts_produced ≡ m.calc.parts_produced)
        ⊎ (((finish_run p m).calc.parts_produced ≡ m.calc.parts_produced + 1)
            × (reached_end m.tracker p.info ≡ true))
  unfolding finish_run
  finish_run-parts p m h = ground (
    arith,
    signal-parts m.calc,
    stop-parts p.now (signal_cycle_complete m.calc),
    stop-parts p.now m.calc,
  )

  pub finish_run-unsignalled :
      (p : Poll) (m : Machine Float)
      → m.calc.state.running ≡ true
      → (finish_run p m).calc.state.cycle_complete_signalled ≡ false
  unfolding finish_run
  finish_run-unsignalled p m h = ground (
    arith,
    signal-parts m.calc,
    stop-unsignalled p.now (signal_cycle_complete m.calc),
    stop-unsignalled p.now m.calc,
  )
