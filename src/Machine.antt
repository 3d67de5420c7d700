-- ===== src/Machine.antt =====
-- status.py: `_CycleStateMachine`, which turns polled LinuxCNC states into calls of the cycle timer
-- and the line tracker. The proofs are in the modules below.
pub mod Sync
pub mod Counting
pub mod Parts
pub mod Aborts
mod Tests
use text.Mathlib.Text.{◌==◌ as str_eq}
use linuxcnc_status_monitor.Common.{
  ℕ, String, Bool, true, false, not, ◌&&◌, ◌||◌, Option, none, some, List, ◌==◌, if◌then◌else◌,
}
use linuxcnc_status_monitor.Common.Floats.{Floats}
use linuxcnc_status_monitor.Cycle.State.{Calculator, new_calculator}
use linuxcnc_status_monitor.Cycle.Operations.{
  start_cycle, classify_running, set_furthest, pause_cycle, resume_cycle, signal_cycle_complete,
  stop_cycle, abort_cycle,
}
use linuxcnc_status_monitor.Tracker.Program.{ProgramInfo}
use linuxcnc_status_monitor.Tracker.Lines.{
  Tracker, begin, hold, sample, is_run_from_here, tracker_progress, reached_end,
}

-- the constants of the `linuxcnc` module
pub record LinuxCnc : Type 0 where
  pub state_on : ℕ
  pub mode_auto : ℕ
  pub interp_idle : ℕ
  pub interp_paused : ℕ

-- the fields of `linuxcnc.stat` that the state machine reads
pub record Stat : Type 0 where
  pub task_state : ℕ
  pub task_mode : ℕ
  pub interp_state : ℕ
  pub paused : Bool
  pub estop : Bool
  pub motion_line : ℕ
  pub current_line : ℕ
  pub read_line : ℕ

-- What one update is given: the poll, whether LinuxCNC is in a subroutine and the move lines of that
-- file, the scanner's landmarks (after it has waited for them), and the clock.
pub record Poll : Type 0 where
  pub stat : Stat
  pub in_subroutine : Bool
  pub macro_moves : List ℕ
  pub info : ProgramInfo
  pub now : ℕ

pub data Phase : Type 0 where
  idle running paused : Phase

pub record Machine (F : Type 0) : Type 0 where
  pub calc : Calculator F
  pub tracker : Tracker
  pub phase : Phase
  pub idle_motion_line : ℕ
  pub idle_current_line : ℕ

module _ (cnc : LinuxCnc) where
  -- `_is_program_running`
  unfoldable pub is_program_running : Stat → Bool
  is_program_running stat =
      stat.task_state == cnc.state_on
      && stat.task_mode == cnc.mode_auto
      && not (stat.interp_state == cnc.interp_idle || stat.interp_state == cnc.interp_paused)
      && not stat.paused

  -- `_is_program_paused`
  unfoldable pub is_program_paused : Stat → Bool
  is_program_paused stat =
      stat.task_state == cnc.state_on && stat.task_mode == cnc.mode_auto && stat.paused

  -- `machine_ok`
  unfoldable pub machine_ok : Stat → Bool
  machine_ok stat = stat.task_state == cnc.state_on && not stat.estop

-- `self._scanner.info.path or None`
unfoldable pub known_path : String → Option String
known_path path = if str_eq path "" then none else some path

module _ ⦃fl : Floats⦄ where
  open fl use {Float}

  -- `_CycleStateMachine(calculator, scanner)`
  abbrev pub new_machine : Machine Float
  new_machine = record {
    calc = new_calculator;
    tracker = begin 0 0;
    phase = idle;
    idle_motion_line = 0;
    idle_current_line = 0;
  }

  -- `reset`
  unfoldable pub reset : Machine Float → Machine Float
  reset m = record m { phase = idle; idle_motion_line = 0; idle_current_line = 0 }

  -- once the start is known, the calculator is told of it and of the progress
  unfoldable pub report : Option Bool → Float → Calculator Float → Calculator Float
  report none progress c = c
  report (some rfh) progress c = set_furthest progress (classify_running rfh c)

  -- `_track`
  unfoldable pub track : Poll → Machine Float → Machine Float
  track p m =
      if p.in_subroutine
      then (record m {
        tracker = hold p.stat.motion_line p.stat.current_line p.macro_moves m.tracker;
      })
      else let t =
          sample p.stat.motion_line p.stat.current_line p.info p.stat.read_line m.tracker in
        record m {
          tracker = t;
          calc = report (is_run_from_here t p.info) (tracker_progress t p.info) m.calc;
        }

  -- remember the line numbers of an idle sample, as stale ones
  unfoldable pub rest_at : Stat → Machine Float → Machine Float
  rest_at stat m = record m {
    idle_motion_line = stat.motion_line;
    idle_current_line = stat.current_line;
  }

  unfoldable pub begin_run : Poll → Machine Float → Machine Float
  begin_run p m =
      let m' = track p (record m {
        tracker = begin m.idle_motion_line m.idle_current_line;
        calc = start_cycle p.now none (known_path p.info.path) m.calc;
      }) in
      record m' { phase = running }

  -- the end of a run that went idle with the machine on: a part if M2 / M30 was reached
  unfoldable pub finish_run : Poll → Machine Float → Machine Float
  unfolding rest_at
  finish_run p m =
      let calc' = (if reached_end m.tracker p.info then signal_cycle_complete m.calc else m.calc) in
      rest_at p.stat (record m { calc = stop_cycle p.now calc'; phase = idle })

  unfoldable pub abort_run : Poll → Machine Float → Machine Float
  unfolding rest_at
  abort_run p m = rest_at p.stat (record m { calc = abort_cycle p.now m.calc; phase = idle })

  unfoldable pub resume_run : Poll → Machine Float → Option (Machine Float)
  resume_run p m = elim (resume_cycle p.now m.calc) [
    | none ↦ none
    | some c ↦ some (record m { calc = c; phase = running })
  ]

  module _ (cnc : LinuxCnc) where
    unfoldable pub update_idle : Poll → Machine Float → Machine Float
    unfolding rest_at
    update_idle p m = if is_program_running cnc p.stat then begin_run p m else rest_at p.stat m

    unfoldable pub update_running : Poll → Machine Float → Machine Float
    update_running p m =
        let m' = track p m in
        if is_program_paused cnc p.stat
        then record m' { calc = pause_cycle p.now m'.calc; phase = paused }
        else if is_program_running cnc p.stat
        then m'
        else if machine_ok cnc p.stat
        then finish_run p m'
        else abort_run p m'

    unfoldable pub update_paused : Poll → Machine Float → Option (Machine Float)
    update_paused p m =
        let m' = track p m in
        if is_program_running cnc p.stat
        then resume_run p m'
        else if is_program_paused cnc p.stat
        then some m'
        else some (abort_run p m')

    -- `update`, by the state before it
    unfoldable pub update_in : Phase → Poll → Machine Float → Option (Machine Float)
    update_in idle p m = some (update_idle p m)
    update_in running p m = some (update_running p m)
    update_in paused p m = update_paused p m

    unfoldable pub update : Poll → Machine Float → Option (Machine Float)
    unfolding update_in
    update p m = update_in m.phase p m
