-- ===== src/Machine/Tests.antt =====
-- status.py: the theorems about `_CycleStateMachine` at concrete polls.
use linuxcnc_status_monitor.Common.{ℕ, ◌+◌, ◌≡◌, inr, refl, true, false, some, [], arith}
use linuxcnc_status_monitor.Common.Tenths.{tenths}
use linuxcnc_status_monitor.Cycle.State.{idle_state, new_calculator}
use linuxcnc_status_monitor.Tracker.Program.{ProgramInfo}
use linuxcnc_status_monitor.Tracker.Lines.{begin}
use linuxcnc_status_monitor.Machine.{
  LinuxCnc, Stat, Poll, idle, running, Machine, new_machine, update, update_in, update_running,
  is_program_running, is_program_paused, machine_ok, finish_run, abort_run, track,
}
use linuxcnc_status_monitor.Machine.Sync.{IsSynced, Steps, update-IsSynced}
use linuxcnc_status_monitor.Machine.Parts.{CountsRightly, update-parts}
use linuxcnc_status_monitor.Machine.Aborts.{update-abort}

abbrev cnc : LinuxCnc
cnc = record { state_on = 4; mode_auto = 2; interp_idle = 1; interp_paused = 3 }

-- ten lines, with moves in lines 3 to 8 and M30 in line 9
abbrev program : ProgramInfo
program = record {
  path = "a.ngc";
  first_exec_line = 1;
  first_motion_line = 3;
  tail_line = 8;
  end_line = 9;
  motion_mask = [];
}

-- the machine on and idle, in line 9
abbrev at_end : Stat
at_end = record {
  task_state = 4;
  task_mode = 2;
  interp_state = 1;
  paused = false;
  estop = false;
  motion_line = 8;
  current_line = 9;
  read_line = 9;
}

abbrev poll_of : Stat → Poll
poll_of stat = record {
  stat = stat;
  in_subroutine = false;
  macro_moves = [];
  info = program;
  now = 9_000_000_000;
}

-- a run of a.ngc since second 2, seen from its first move on
abbrev under_way : Machine ℕ
under_way = record new_machine {
  phase = running;
  calc = record new_calculator {
    state = record idle_state {
      start_ns = some 2_000_000_000;
      running = true;
      program = some "a.ngc";
      classified = true;
    };
  };
  tracker = record (begin 0 0) {
    motion_live = true;
    current_live = true;
    start_line = some 3;
    last_motion_line = some 7;
    max_line = 7;
  };
}

under_way-IsSynced : IsSynced under_way
under_way-IsSynced = record { valid = ground arith; in_phase = (refl, refl) }

update-IsSynced_example : Steps cnc (update cnc (poll_of at_end) under_way)
update-IsSynced_example = update-IsSynced cnc (poll_of at_end) under_way under_way-IsSynced

update-at_end :
    update cnc (poll_of at_end) under_way
    ≡ some (finish_run (poll_of at_end) (track (poll_of at_end) under_way))
unfolding update update_in update_running is_program_running is_program_paused machine_ok
update-at_end = refl

update-parts_example :
    CountsRightly cnc
      (poll_of at_end)
      under_way
      (finish_run (poll_of at_end) (track (poll_of at_end) under_way))
update-parts_example =
    update-parts cnc (poll_of at_end) under_way _ under_way-IsSynced refl update-at_end

-- the same, with the E-stop pressed
abbrev stopped : Stat
stopped = record at_end { task_state = 1; estop = true }

update-stopped :
    update cnc (poll_of stopped) under_way
    ≡ some (abort_run (poll_of stopped) (track (poll_of stopped) under_way))
unfolding update update_in update_running is_program_running is_program_paused machine_ok
update-stopped = refl

update-abort_example :
    let m' = abort_run (poll_of stopped) (track (poll_of stopped) under_way) in
    (m'.phase ≡ idle)
    × (m'.calc.parts_produced ≡ 0)
    × (m'.calc.abort_count ≡ 0 + 1)
    × (m'.calc.part_open ≡ true)
unfolding is_program_running is_program_paused machine_ok
update-abort_example =
    update-abort cnc (poll_of stopped) under_way _ under_way-IsSynced (inr (refl, refl)) refl refl
      update-stopped
