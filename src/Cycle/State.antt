-- ===== src/Cycle/State.antt =====
-- cycle_time_calculator.py: `_CycleState`, the fields of `CycleTimeCalculator`, and its private
-- helpers. `time.perf_counter_ns()` is the argument `now`; logging is not modelled.
use text.Mathlib.Text.{◌==◌ as str_eq}
use linuxcnc_status_monitor.Common.{
  ℕ, ◌+◌, ◌-◌, ◌/◌, String, Bool, true, false, not, ◌&&◌, Option, none, some, List, [], ◌∷◌, ◌++◌,
  length, drop, if◌then◌else◌,
}
use linuxcnc_status_monitor.Common.Floats.{Floats}

abbrev pub ms_per_ns : ℕ
ms_per_ns = 1_000_000

abbrev pub min_valid_cycle_ms : ℕ
min_valid_cycle_ms = 1_000

abbrev pub max_history : ℕ
max_history = 500

-- `_CycleState`, over the type of floats
pub record CycleState (F : Type 0) : Type 0 where
  pub start_ns : Option ℕ
  pub pause_start_ns : Option ℕ
  pub total_paused_ns : ℕ
  pub running : Bool
  pub paused : Bool
  pub cycle_complete_signalled : Bool
  pub program : Option String
  pub is_run_from_here : Bool
  pub classified : Bool
  pub progress : F

pub record Calculator (F : Type 0) : Type 0 where
  pub state : CycleState F
  pub completed_durations_ms : List ℕ
  pub aborted_durations_ms : List ℕ
  pub parts_produced : ℕ
  pub abort_count : ℕ
  pub run_from_here_count : ℕ
  pub carry_ms : ℕ
  pub part_open : Bool
  pub open_progress : F
  pub open_program : Option String
  pub partial_parts : ℕ
  pub partial_equiv : F
  pub last_partial_pct : Option F

-- `deque(maxlen=MAX_HISTORY).append(x)`: the oldest entries fall out
unfoldable pub push_history : List ℕ → ℕ → List ℕ
push_history xs x = drop (length (xs ++ x ∷ []) - max_history) (xs ++ x ∷ [])

-- both are known and they differ
unfoldable pub program_changed : Option String → Option String → Bool
program_changed (some p) (some q) = not (str_eq p q)
program_changed _ _ = false

-- the end of the time that counts: the start of the pause while paused
unfoldable pub active_until : Bool → Option ℕ → ℕ → ℕ
active_until true (some pause_start) now = pause_start
active_until _ _ now = now

-- `max(0, active_ns // MS_PER_NS) + carry`: the truncated difference is 0 where the source clamps
unfoldable pub elapsed_since : Option ℕ → ℕ → ℕ → ℕ → ℕ
elapsed_since none until total_paused carry = 0
elapsed_since (some start) until total_paused carry =
    (until - start - total_paused) / ms_per_ns + carry

module _ ⦃fl : Floats⦄ where
  open fl use {Float, zero as fzero, one as fone, lt, add, percent}

  -- Python's `max(a, b)` keeps the first of equals
  unfoldable pub fmax : Float → Float → Float
  fmax a b = if lt a b then b else a

  unfoldable pub fmin : Float → Float → Float
  fmin a b = if lt b a then b else a

  abbrev pub idle_state : CycleState Float
  idle_state = record {
    start_ns = none;
    pause_start_ns = none;
    total_paused_ns = 0;
    running = false;
    paused = false;
    cycle_complete_signalled = false;
    program = none;
    is_run_from_here = false;
    classified = false;
    progress = fzero;
  }

  -- `CycleTimeCalculator()`
  abbrev pub new_calculator : Calculator Float
  new_calculator = record {
    state = idle_state;
    completed_durations_ms = [];
    aborted_durations_ms = [];
    parts_produced = 0;
    abort_count = 0;
    run_from_here_count = 0;
    carry_ms = 0;
    part_open = false;
    open_progress = fzero;
    open_program = none;
    partial_parts = 0;
    partial_equiv = fzero;
    last_partial_pct = none;
  }

  -- `_elapsed_ms_unsafe`
  unfoldable pub elapsed_ms : ℕ → Calculator Float → ℕ
  unfolding elapsed_since active_until
  elapsed_ms now c =
      elapsed_since c.state.start_ns (active_until c.state.paused c.state.pause_start_ns now)
        c.state.total_paused_ns c.carry_ms

  -- `_resolved_rfh_unsafe`
  unfoldable pub resolved_rfh : Calculator Float → Bool
  resolved_rfh c = if c.state.classified then c.state.is_run_from_here else c.part_open

  -- `_progress_unsafe`
  unfoldable pub progress_of : Calculator Float → Float
  progress_of c =
      if c.part_open && resolved_rfh c
      then fmax c.state.progress c.open_progress
      else c.state.progress

  -- `_leave_part_open_unsafe`
  unfoldable pub leave_part_open : ℕ → Float → Calculator Float → Calculator Float
  leave_part_open duration progress c = record c {
    carry_ms = duration;
    part_open = true;
    open_progress = progress;
    open_program = c.state.program;
  }

  -- `_close_part_unsafe`
  unfoldable pub close_part : Calculator Float → Calculator Float
  close_part c = record c {
    carry_ms = 0;
    part_open = false;
    open_progress = fzero;
    open_program = none;
  }

  -- `_finalize_partial_unsafe`
  unfoldable pub finalize_partial : Calculator Float → Calculator Float
  unfolding close_part
  finalize_partial c = close_part (record c {
    partial_parts = c.partial_parts + 1;
    partial_equiv = add c.partial_equiv c.open_progress;
    last_partial_pct = some (percent c.open_progress);
  })

  -- `_classify_unsafe`
  unfoldable pub classify : Bool → Calculator Float → Calculator Float
  unfolding finalize_partial
  classify true c = record c {
    state = record c.state { classified = true; is_run_from_here = true };
    run_from_here_count = c.run_from_here_count + 1;
  }
  classify false c =
      let c' = record c {
        state = record c.state { classified = true; is_run_from_here = false };
      } in
      record (if c'.part_open then finalize_partial c' else c') { carry_ms = 0 }
