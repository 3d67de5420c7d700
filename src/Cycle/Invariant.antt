-- ===== src/Cycle/Invariant.antt =====
-- cycle_time_calculator.py: what holds between the fields after any sequence of calls.
use linuxcnc_status_monitor.Common.{
  ℕ, ◌+◌, ◌-◌, ◌≤◌, ◌≡◌, refl, Bool, true, false, not, ◌&&◌, Option, none, some, List, [], ◌∷◌,
  ◌++◌, min, length, length-append, length-drop, is_some, ltb, arith, Bool-cases, Option-cases,
  if_rule, ◌||◌, inl, inr, String,
}
use linuxcnc_status_monitor.Common.Floats.{Floats}
use linuxcnc_status_monitor.Cycle.State.{
  Calculator, max_history, push_history, new_calculator, idle_state, elapsed_ms, resolved_rfh,
  progress_of, finalize_partial, classify,
}
use linuxcnc_status_monitor.Cycle.Operations.{
  Op, start, set_program, classify_start, set_progress, pause, resume, signal_complete, stop, drop,
  abort, reset, abandon_other_program, classify_if_known, start_cycle, set_known_program,
  set_program_if_new, classify_running, set_furthest, pause_cycle, resume_cycle,
  signal_cycle_complete, record_abort, count_part, settle, stop_cycle, drop_cycle, abort_cycle,
  reset_stats, step, run,
}

pub length-push_history :
    (xs : List ℕ) (x : ℕ)
    → length xs ≤ max_history
    → length (push_history xs x) ≡ min (length xs + 1) max_history
unfolding push_history
length-push_history xs x h = omega (
  arith,
  length-drop (length (xs ++ x ∷ []) - max_history) (xs ++ x ∷ []),
  length-append xs (x ∷ []),
)

module _ ⦃fl : Floats⦄ where
  open fl use {Float}

  -- A cycle has a start time exactly while it runs, a pause exactly while it is paused, and only a
  -- running cycle is paused; time is carried only for an open part; the histories hold the last
  -- `max_history` entries of what was counted.
  pub record IsValid (c : Calculator Float) : Type 0 where
    pub started : is_some c.state.start_ns ≡ c.state.running
    pub pause_known : is_some c.state.pause_start_ns ≡ c.state.paused
    pub paused_running : c.state.paused && not c.state.running ≡ false
    pub carried : not c.part_open && ltb 0 c.carry_ms ≡ false
    pub completed_kept : length c.completed_durations_ms ≡ min c.parts_produced max_history
    pub aborted_kept : length c.aborted_durations_ms ≤ min c.abort_count max_history

  pub new-IsValid : IsValid new_calculator
  new-IsValid = ground arith

  pub finalize_partial-IsValid : {c : Calculator Float} → IsValid c → IsValid (finalize_partial c)
  unfolding finalize_partial
  finalize_partial-IsValid v = ground arith

  classify-IsValid : {c : Calculator Float} (rfh : Bool) → IsValid c → IsValid (classify rfh c)
  unfolding classify
  classify-IsValid true v = ground arith
  classify-IsValid false v = ground arith

  abandon-IsValid :
      {c : Calculator Float} (program : Option String)
      → IsValid c
      → IsValid (abandon_other_program program c)
  unfolding abandon_other_program
  abandon-IsValid program v = ground arith

  classify_if_known-IsValid :
      {c : Calculator Float} (rfh : Option Bool) → IsValid c → IsValid (classify_if_known rfh c)
  unfolding classify_if_known
  classify_if_known-IsValid none v = v
  classify_if_known-IsValid (some rfh) v = classify-IsValid rfh v

  count_part-IsValid :
      {c : Calculator Float} (duration : ℕ) → IsValid c → IsValid (count_part duration c)
  unfolding count_part
  count_part-IsValid {c} duration v =
      ground (arith, length-push_history c.completed_durations_ms duration)

  record_abort-IsValid :
      {c : Calculator Float} (duration : ℕ) (p : Float)
      → IsValid c
      → IsValid (record_abort duration p c)
  unfolding record_abort
  record_abort-IsValid {c} duration p v =
      ground (arith, length-push_history c.aborted_durations_ms duration)

  settle-IsValid :
      {c : Calculator Float} (duration : ℕ) (complete rfh : Bool) (p : Float)
      → IsValid c
      → IsValid (settle duration complete rfh p c)
  unfolding settle
  settle-IsValid {c} duration complete rfh p v =
      ground (arith, count_part-IsValid duration v, record_abort-IsValid duration p v)

  -- ending a cycle keeps what holds of the counters
  idle-IsValid : {c : Calculator Float} → IsValid c → IsValid (record c { state = idle_state })
  idle-IsValid v = ground arith

  pub stop_cycle-IsValid : {c : Calculator Float} (now : ℕ) → IsValid c → IsValid (stop_cycle now c)
  unfolding stop_cycle
  stop_cycle-IsValid {c} now v = ground (
    arith,
    settle-IsValid (elapsed_ms now c) c.state.cycle_complete_signalled (resolved_rfh c)
        (progress_of c) v,
  )

  pub abort_cycle-IsValid :
      {c : Calculator Float} (now : ℕ) → IsValid c → IsValid (abort_cycle now c)
  unfolding abort_cycle
  abort_cycle-IsValid {c} now v =
      ground (arith, record_abort-IsValid (elapsed_ms now c) (progress_of c) v)

  pub start_cycle-IsValid :
      {c : Calculator Float} (now : ℕ) (rfh : Option Bool) (program : Option String)
      → IsValid c
      → IsValid (start_cycle now rfh program c)
  unfolding start_cycle
  start_cycle-IsValid {c} now rfh program v =
      if_rule IsValid c.state.running v
        (classify_if_known-IsValid rfh (abandon-IsValid program (ground arith)))

  pub resume_cycle-IsValid :
      {c : Calculator Float} (now : ℕ)
      → IsValid c
      → (c' : Calculator Float) × (resume_cycle now c ≡ some c') × IsValid c'
  unfolding resume_cycle
  resume_cycle-IsValid {c} now v = elim (Bool-cases (not c.state.running || not c.state.paused)) [
    | inl skip ↦ (c, ground arith, v)
    | inr pausing ↦ elim (Option-cases c.state.pause_start_ns) [
      | inl unknown ↦ absurd (ground arith)
      | inr (pause_start, e) ↦ (
        record c {
          state = record c.state {
            total_paused_ns = c.state.total_paused_ns + (now - pause_start);
            pause_start_ns = none;
            paused = false;
          };
        },
        ground arith,
        ground arith,
      )
    ]
  ]

  set_program-IsValid :
      {c : Calculator Float} (program : Option String)
      → IsValid c
      → IsValid (set_program_if_new program c)
  unfolding set_program_if_new set_known_program
  set_program-IsValid none v = v
  set_program-IsValid {c} (some program) v = ground (
    arith,
    abandon-IsValid {c = record c { state = record c.state { program = some program } }}
        (some program) (ground arith),
  )

  pub classify_running-IsValid :
      {c : Calculator Float} (rfh : Bool) → IsValid c → IsValid (classify_running rfh c)
  unfolding classify_running
  classify_running-IsValid rfh v = ground (arith, classify-IsValid rfh v)

  pub set_furthest-IsValid :
      {c : Calculator Float} (fraction : Float) → IsValid c → IsValid (set_furthest fraction c)
  unfolding set_furthest
  set_furthest-IsValid fraction v = ground arith

  pub pause_cycle-IsValid :
      {c : Calculator Float} (now : ℕ) → IsValid c → IsValid (pause_cycle now c)
  unfolding pause_cycle
  pause_cycle-IsValid now v = ground arith

  pub signal-IsValid : {c : Calculator Float} → IsValid c → IsValid (signal_cycle_complete c)
  unfolding signal_cycle_complete
  signal-IsValid v = ground arith

  -- Every call keeps the invariant, and none raises.
  pub step-IsValid :
      (op : Op Float) {c : Calculator Float}
      → IsValid c
      → (c' : Calculator Float) × (step op c ≡ some c') × IsValid c'
  unfolding step
  step-IsValid (start now rfh program) v =
      (start_cycle now rfh program _, refl, start_cycle-IsValid now rfh program v)
  step-IsValid (set_program program) v = (_, refl, set_program-IsValid program v)
  step-IsValid (classify_start rfh) v = (_, refl, classify_running-IsValid rfh v)
  step-IsValid (set_progress fraction) v = (_, refl, set_furthest-IsValid fraction v)
  step-IsValid (pause now) v = (_, refl, pause_cycle-IsValid now v)
  step-IsValid (resume now) v = resume_cycle-IsValid now v
  step-IsValid signal_complete v = (_, refl, signal-IsValid v)
  step-IsValid (stop now) v = (_, refl, stop_cycle-IsValid now v)
  step-IsValid drop v = (_, refl, unfold drop_cycle in ground arith)
  step-IsValid (abort now) v = (_, refl, abort_cycle-IsValid now v)
  step-IsValid reset v = (_, refl, unfold reset_stats in ground arith)

  -- From a valid calculator every sequence of calls runs through without an exception, and the
  -- calculator is valid after it.
  pub run-IsValid :
      (ops : List (Op Float)) {c : Calculator Float}
      → IsValid c
      → (c' : Calculator Float) × (run ops c ≡ some c') × IsValid c'
  unfolding run
  run-IsValid [] v = (_, refl, v)
  run-IsValid (op ∷ ops) v =
      let (c₁, e, v₁) = step-IsValid op v in
      let (c₂, e₂, v₂) = run-IsValid ops v₁ in (c₂, rw (e, run) e₂, v₂)
