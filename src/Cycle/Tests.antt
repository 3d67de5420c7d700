-- ===== src/Cycle/Tests.antt =====
-- cycle_time_calculator.py: the theorems at concrete calls, with fractions in tenths.
use linuxcnc_status_monitor.Common.{
  not, ◌&&◌, ℕ, ◌+◌, ◌-◌, ◌/◌, ◌≡◌, refl, true, false, none, some, [], ◌∷◌, arith, if◌then◌else◌,
}
use linuxcnc_status_monitor.Common.Tenths.{tenths}
use linuxcnc_status_monitor.Cycle.State.{
  Calculator, new_calculator, idle_state, push_history, elapsed_ms, ms_per_ns,
}
use linuxcnc_status_monitor.Cycle.Operations.{
  start, pause, resume, signal_complete, stop, run, step, stop_cycle, start_cycle,
  signal_cycle_complete,
}
use linuxcnc_status_monitor.Cycle.Invariant.{IsValid, new-IsValid, run-IsValid}
use linuxcnc_status_monitor.Cycle.Accounting.{accounted, accounted-step, ends_cycle}
use linuxcnc_status_monitor.Cycle.Timing.{
  begun, interrupted_then_continued, other_program_starts_anew,
}

-- a first run that was stopped, with a part of 2.5 s left open at four tenths
abbrev one_open : Calculator ℕ
one_open = record new_calculator {
  abort_count = 1;
  aborted_durations_ms = 2500 ∷ [];
  carry_ms = 2500;
  part_open = true;
  open_progress = 4;
  open_program = some "a.ngc";
}

-- one second into a run of a.ngc
abbrev under_way : Calculator ℕ
under_way = record one_open {
  state = record idle_state {
    start_ns = some 7_000_000_000;
    running = true;
    program = some "a.ngc";
    classified = true;
    progress = 3;
  };
}

run-IsValid_example :
    (c' : Calculator ℕ) × (run
        (start 0 none (some "a.ngc") ∷ pause 5 ∷ resume 9 ∷ signal_complete ∷ stop 20 ∷ [])
        new_calculator
      ≡ some c')
    × IsValid c'
run-IsValid_example =
    run-IsValid (start 0 none (some "a.ngc") ∷ pause 5 ∷ resume 9 ∷ signal_complete ∷ stop 20 ∷ [])
      new-IsValid

accounted-step_example :
    accounted (stop_cycle 9_000_000_000 under_way)
    ≡ accounted under_way
      + (if ends_cycle (stop 9_000_000_000) under_way && not (under_way.part_open) then 1 else 0)
unfolding step
accounted-step_example = accounted-step (stop 9_000_000_000) under_way refl refl

interrupted_then_continued_example :
    let c' = stop_cycle 3_000_000_000 (begun 0 "a.ngc" false new_calculator) in
    let c'' =
      stop_cycle 9_000_000_000 (signal_cycle_complete (begun 5_000_000_000 "a.ngc" true c')) in
    (c''.parts_produced ≡ 0 + 1)
    × (c''.abort_count ≡ 0 + 1)
    × (c''.partial_parts ≡ 0)
    × (c''.part_open ≡ false)
    × (c''.completed_durations_ms
        ≡ push_history []
            ((9_000_000_000 - 5_000_000_000) / ms_per_ns + (3_000_000_000 - 0) / ms_per_ns))
interrupted_then_continued_example =
    interrupted_then_continued new_calculator "a.ngc" 0 3_000_000_000 5_000_000_000 9_000_000_000
      refl refl (omega arith)

other_program_starts_anew_example :
    let c' = start_cycle 100 none (some "b.ngc") one_open in
    (c'.part_open ≡ false)
    × (c'.partial_parts ≡ 0 + 1)
    × (c'.partial_equiv ≡ 0 + 4)
    × (c'.last_partial_pct ≡ some 40)
    × (elapsed_ms 200 c' ≡ (200 - 100) / ms_per_ns)
other_program_starts_anew_example =
    other_program_starts_anew one_open "a.ngc" "b.ngc" 100 200 none refl refl refl refl
