-- ===== src/Cycle/Operations.antt =====
-- cycle_time_calculator.py: the control methods of `CycleTimeCalculator`. A method that cannot raise
-- returns the new calculator.
use linuxcnc_status_monitor.Common.{
  ℕ, ◌+◌, ◌-◌, String, Bool, true, false, not, ◌&&◌, ◌||◌, Option, none, some, List, [], ◌∷◌, ltb,
  leb, ◌==◌, if◌then◌else◌,
}
use linuxcnc_status_monitor.Common.Floats.{Floats}
use linuxcnc_status_monitor.Cycle.State.{
  Calculator, min_valid_cycle_ms, push_history, program_changed, fmax, fmin, idle_state, elapsed_ms,
  resolved_rfh, progress_of, leave_part_open, close_part, finalize_partial, classify,
}

-- The calls of the class's methods, with the clock reading of those that read the clock.
pub data Op (F : Type 0) : Type 0 where
  start : ℕ → Option Bool → Option String → Op F
  set_program : Option String → Op F
  classify_start : Bool → Op F
  set_progress : F → Op F
  pause : ℕ → Op F
  resume : ℕ → Op F
  signal_complete : Op F
  stop : ℕ → Op F
  drop : Op F
  abort : ℕ → Op F
  reset : Op F

module _ ⦃fl : Floats⦄ where
  open fl use {Float, zero as fzero, one as fone}

  -- the guard that `start_cycle` and `set_program` share
  unfoldable pub abandon_other_program : Option String → Calculator Float → Calculator Float
  unfolding finalize_partial program_changed
  abandon_other_program program c =
      if c.part_open && program_changed program c.open_program then finalize_partial c else c

  unfoldable pub classify_if_known : Option Bool → Calculator Float → Calculator Float
  unfolding classify
  classify_if_known none c = c
  classify_if_known (some rfh) c = classify rfh c

  unfoldable pub start_cycle : ℕ → Option Bool → Option String → Calculator Float → Calculator Float
  start_cycle now run_from_here program c =
      if c.state.running
      then c
      else classify_if_known run_from_here (
          abandon_other_program program (record c {
            state = record idle_state { start_ns = some now; running = true; program = program };
          }))

  unfoldable pub set_known_program : String → Calculator Float → Calculator Float
  unfolding abandon_other_program program_changed
  set_known_program program c =
      let c' = record c { state = record c.state { program = some program } } in
      abandon_other_program (some program) c'

  -- `program == self._state.program`, for a known program
  unfoldable pub is_program : String → Option String → Bool
  unfolding program_changed
  is_program program none = false
  is_program program (some p) = not (program_changed (some program) (some p))

  unfoldable pub set_program_if_new : Option String → Calculator Float → Calculator Float
  set_program_if_new none c = c
  set_program_if_new (some program) c =
      if not c.state.running || is_program program c.state.program
      then c
      else set_known_program program c

  unfoldable pub classify_running : Bool → Calculator Float → Calculator Float
  unfolding classify
  classify_running rfh c = if c.state.running && not c.state.classified then classify rfh c else c

  unfoldable pub set_furthest : Float → Calculator Float → Calculator Float
  set_furthest fraction c =
      if c.state.running
      then (record c {
        state = record c.state {
          progress = fmax c.state.progress (fmin fone (fmax fzero fraction));
        };
      })
      else c

  unfoldable pub pause_cycle : ℕ → Calculator Float → Calculator Float
  pause_cycle now c =
      if not c.state.running || c.state.paused
      then c
      else record c { state = record c.state { pause_start_ns = some now; paused = true } }

  -- `now - None` raises a TypeError, the result `none`
  unfoldable pub end_pause : ℕ → Option ℕ → Calculator Float → Option (Calculator Float)
  end_pause now none c = none
  end_pause now (some pause_start) c = some (record c {
    state = record c.state {
      total_paused_ns = c.state.total_paused_ns + (now - pause_start);
      pause_start_ns = none;
      paused = false;
    };
  })

  unfoldable pub resume_cycle : ℕ → Calculator Float → Option (Calculator Float)
  unfolding end_pause
  resume_cycle now c =
      if not c.state.running || not c.state.paused
      then some c
      else end_pause now c.state.pause_start_ns c

  unfoldable pub signal_cycle_complete : Calculator Float → Calculator Float
  signal_cycle_complete c =
      if not c.state.running || c.state.cycle_complete_signalled
      then c
      else record c { state = record c.state { cycle_complete_signalled = true } }

  -- the abort that `stop_cycle` and `abort_cycle` record
  unfoldable pub record_abort : ℕ → Float → Calculator Float → Calculator Float
  unfolding leave_part_open
  record_abort duration progress c = leave_part_open duration progress (record c {
    abort_count = c.abort_count + 1;
    aborted_durations_ms =
        (if leb min_valid_cycle_ms duration
          then push_history c.aborted_durations_ms duration
          else c.aborted_durations_ms);
  })

  unfoldable pub count_part : ℕ → Calculator Float → Calculator Float
  unfolding close_part
  count_part duration c = close_part (record c {
    completed_durations_ms = push_history c.completed_durations_ms duration;
    parts_produced = c.parts_produced + 1;
  })

  -- the decision tree of `stop_cycle`, before the state is reset
  unfoldable pub settle : ℕ → Bool → Bool → Float → Calculator Float → Calculator Float
  unfolding count_part leave_part_open record_abort
  settle duration complete rfh progress c =
      if ltb duration min_valid_cycle_ms && c.carry_ms == 0
      then c
      else if complete
      then count_part duration c
      else if rfh
      then leave_part_open duration progress c
      else record_abort duration progress c

  unfoldable pub stop_cycle : ℕ → Calculator Float → Calculator Float
  stop_cycle now c =
      if c.state.running
      then (record (settle (elapsed_ms now c) c.state.cycle_complete_signalled (resolved_rfh c)
          (progress_of c) c) { state = idle_state })
      else c

  unfoldable pub drop_cycle : Calculator Float → Calculator Float
  drop_cycle c = if c.state.running then record c { state = idle_state } else c

  unfoldable pub abort_cycle : ℕ → Calculator Float → Calculator Float
  abort_cycle now c =
      if c.state.running
      then (record (record_abort (elapsed_ms now c) (progress_of c) c) { state = idle_state })
      else c

  unfoldable pub reset_stats : Calculator Float → Calculator Float
  reset_stats c = if c.state.running then c else record c {
    completed_durations_ms = [];
    aborted_durations_ms = [];
    parts_produced = 0;
    abort_count = 0;
    run_from_here_count = 0;
    carry_ms = 0;
    part_open = false;
    open_progress = fzero;
    open_program = none;
    partial_parts = 0;
    partial_equiv = fzero;
    last_partial_pct = none;
  }

  unfoldable pub step : Op Float → Calculator Float → Option (Calculator Float)
  step (start now rfh program) c = some (start_cycle now rfh program c)
  step (set_program program) c = some (set_program_if_new program c)
  step (classify_start rfh) c = some (classify_running rfh c)
  step (set_progress fraction) c = some (set_furthest fraction c)
  step (pause now) c = some (pause_cycle now c)
  step (resume now) c = resume_cycle now c
  step signal_complete c = some (signal_cycle_complete c)
  step (stop now) c = some (stop_cycle now c)
  step drop c = some (drop_cycle c)
  step (abort now) c = some (abort_cycle now c)
  step reset c = some (reset_stats c)

  -- a sequence of calls; `none` if one of them raises
  unfoldable pub run : List (Op Float) → Calculator Float → Option (Calculator Float)
  run [] c = some c
  run (op ∷ ops) c = elim (step op c) [ none ↦ none | some c' ↦ run ops c' ]
