-- ===== src/Machine/Sync.antt =====
-- status.py: `_CycleStateMachine` and the cycle timer never disagree about the phase, and no update
-- raises.
use linuxcnc_status_monitor.Common.{
  ℕ, String, ◌≡◌, refl, Bool, true, false, Option, none, some, arith, Bool-cases, if_rule, inl, inr,
}
use linuxcnc_status_monitor.Common.Floats.{Floats}
use linuxcnc_status_monitor.Cycle.State.{Calculator, classify}
use linuxcnc_status_monitor.Cycle.Operations.{
  start_cycle, classify_running, set_furthest, pause_cycle, resume_cycle, stop_cycle, abort_cycle,
  abandon_other_program, classify_if_known,
}
use linuxcnc_status_monitor.Cycle.Invariant.{
  IsValid, classify_running-IsValid, set_furthest-IsValid, pause_cycle-IsValid, signal-IsValid,
  stop_cycle-IsValid, abort_cycle-IsValid, start_cycle-IsValid, resume_cycle-IsValid,
}
use linuxcnc_status_monitor.Machine.{
  LinuxCnc, Poll, Phase, idle, running, paused, Machine, report, track, rest_at, known_path,
  begin_run, finish_run, abort_run, resume_run, update_idle, update_running, update_paused,
  update_in, update, is_program_running, is_program_paused, machine_ok,
}

module _ ⦃fl : Floats⦄ where
  open fl use {Float}

  -- what the timer's flags are in each phase
  abbrev pub InPhase : Phase → Calculator Float → Type 0
  InPhase idle c = c.state.running ≡ false
  InPhase running c = (c.state.running ≡ true) × (c.state.paused ≡ false)
  InPhase paused c = (c.state.running ≡ true) × (c.state.paused ≡ true)

  -- the timer is valid and in the phase of the state machine
  pub record IsSynced (m : Machine Float) : Type 0 where
    pub valid : IsValid m.calc
    pub in_phase : InPhase m.phase m.calc

  report-InPhase :
      (rfh : Option Bool) (f : Float) (ph : Phase) (c : Calculator Float)
      → InPhase ph c
      → InPhase ph (report rfh f c)
  unfolding report set_furthest classify_running classify
  report-InPhase none f ph c h = h
  report-InPhase (some true) f idle c h = ground arith
  report-InPhase (some true) f running c h = ground arith
  report-InPhase (some true) f paused c h = ground arith
  report-InPhase (some false) f idle c h = ground arith
  report-InPhase (some false) f running c h = ground arith
  report-InPhase (some false) f paused c h = ground arith

  report-IsValid :
      (rfh : Option Bool) (f : Float) {c : Calculator Float} → IsValid c → IsValid (report rfh f c)
  unfolding report
  report-IsValid none f v = v
  report-IsValid (some rfh) f v = set_furthest-IsValid f (classify_running-IsValid rfh v)

  pub track-InPhase :
      (p : Poll) (ph : Phase) (m : Machine Float) → InPhase ph m.calc → InPhase ph (track p m).calc
  unfolding track
  track-InPhase p ph m h =
      if_rule {A = Machine Float} (λ m'. InPhase ph m'.calc) p.in_subroutine h
        (report-InPhase _ _ ph m.calc h)

  track-IsValid : (p : Poll) (m : Machine Float) → IsValid m.calc → IsValid (track p m).calc
  unfolding track
  track-IsValid p m v =
      if_rule {A = Machine Float} (λ m'. IsValid m'.calc) p.in_subroutine v (report-IsValid _ _ v)

  track-IsSynced : (p : Poll) (m : Machine Float) → IsSynced m → IsSynced (track p m)
  unfolding track
  track-IsSynced p m s =
      if_rule IsSynced p.in_subroutine (record { valid = s.valid; in_phase = s.in_phase })
        (record {
          valid = report-IsValid _ _ s.valid;
          in_phase = report-InPhase _ _ m.phase m.calc s.in_phase;
        })

  start_cycle-InPhase :
      (now : ℕ) (program : Option String) (c : Calculator Float)
      → InPhase idle c
      → InPhase running (start_cycle now none program c)
  unfolding start_cycle classify_if_known abandon_other_program
  start_cycle-InPhase now program c h = ground arith

  begin_run-IsSynced :
      (p : Poll) (m : Machine Float)
      → IsValid m.calc
      → InPhase idle m.calc
      → IsSynced (begin_run p m)
  unfolding begin_run
  begin_run-IsSynced p m v h = record {
    valid = track-IsValid p _ (start_cycle-IsValid p.now none (known_path p.info.path) v);
    in_phase =
        track-InPhase p running _ (start_cycle-InPhase p.now (known_path p.info.path) m.calc h);
  }

  stopped : (now : ℕ) (c : Calculator Float) → (stop_cycle now c).state.running ≡ false
  unfolding stop_cycle
  stopped now c = ground arith

  aborted : (now : ℕ) (c : Calculator Float) → (abort_cycle now c).state.running ≡ false
  unfolding abort_cycle
  aborted now c = ground arith

  finish_run-IsSynced : (p : Poll) (m : Machine Float) → IsValid m.calc → IsSynced (finish_run p m)
  unfolding finish_run
  finish_run-IsSynced p m v = record {
    valid = stop_cycle-IsValid p.now (if_rule IsValid _ (signal-IsValid v) v);
    in_phase = stopped p.now _;
  }

  abort_run-IsSynced : (p : Poll) (m : Machine Float) → IsValid m.calc → IsSynced (abort_run p m)
  unfolding abort_run
  abort_run-IsSynced p m v = record {
    valid = abort_cycle-IsValid p.now v;
    in_phase = aborted p.now _;
  }

  pause-InPhase :
      (now : ℕ) (c : Calculator Float) → InPhase running c → InPhase paused (pause_cycle now c)
  unfolding pause_cycle
  pause-InPhase now c h = ground arith

  resume-InPhase :
      (now : ℕ) (c c' : Calculator Float)
      → InPhase paused c
      → resume_cycle now c ≡ some c'
      → InPhase running c'
  unfolding resume_cycle
  resume-InPhase now c c' h e = ground arith

  resume_run-IsSynced :
      (p : Poll) (m : Machine Float)
      → IsValid m.calc
      → InPhase paused m.calc
      → (m' : Machine Float) × (resume_run p m ≡ some m') × IsSynced m'
  unfolding resume_run
  resume_run-IsSynced p m v h =
      let (c', e, v') = resume_cycle-IsValid p.now v in
      (
        record m { calc = c'; phase = running },
        rw (e, resume_run),
        record { valid = v'; in_phase = resume-InPhase p.now m.calc c' h e },
      )

  module _ (cnc : LinuxCnc) where
    -- The result of an update that does not raise is in step with the timer.
    abbrev pub Steps : Option (Machine Float) → Type 0
    Steps r = (m' : Machine Float) × (r ≡ some m') × IsSynced m'

    rest_at-IsSynced : (p : Poll) (m : Machine Float) → IsSynced m → IsSynced (rest_at p.stat m)
    unfolding rest_at
    rest_at-IsSynced p m s = record { valid = s.valid; in_phase = s.in_phase }

    update_running-IsSynced :
        (p : Poll) (m : Machine Float)
        → IsSynced m
        → InPhase running m.calc
        → IsSynced (update_running cnc p m)
    unfolding update_running
    update_running-IsSynced p m s h =
        let v' = track-IsValid p m s.valid in
        let h' = track-InPhase p running m h in
        if_rule IsSynced (is_program_paused cnc p.stat)
          (record { valid = pause_cycle-IsValid p.now v'; in_phase = pause-InPhase p.now _ h' })
          (if_rule IsSynced (is_program_running cnc p.stat) (track-IsSynced p m s) (
            if_rule IsSynced (machine_ok cnc p.stat) (finish_run-IsSynced p _ v')
              (abort_run-IsSynced p _ v')))

    update_idle-IsSynced :
        (p : Poll) (m : Machine Float)
        → IsSynced m
        → InPhase idle m.calc
        → IsSynced (update_idle cnc p m)
    unfolding update_idle
    update_idle-IsSynced p m s h =
        if_rule IsSynced (is_program_running cnc p.stat) (begin_run-IsSynced p m s.valid h)
          (rest_at-IsSynced p m s)

    update_paused-IsSynced :
        (p : Poll) (m : Machine Float)
        → IsSynced m
        → InPhase paused m.calc
        → Steps (update_paused cnc p m)
    unfolding update_paused
    update_paused-IsSynced p m s h = elim (Bool-cases (is_program_running cnc p.stat)) [
      | inl going ↦ rw going (
          resume_run-IsSynced p (track p m) (track-IsValid p m s.valid)
            (track-InPhase p paused m h))
      | inr stopping ↦ rw stopping (
          if_rule Steps (is_program_paused cnc p.stat) (_, refl, track-IsSynced p m s)
            (_, refl, abort_run-IsSynced p _ (track-IsValid p m s.valid)))
    ]

    update_in-IsSynced :
        (ph : Phase) (p : Poll) (m : Machine Float)
        → IsSynced m
        → InPhase ph m.calc
        → Steps (update_in cnc ph p m)
    unfolding update_in
    update_in-IsSynced idle p m s h = (_, refl, update_idle-IsSynced p m s h)
    update_in-IsSynced running p m s h = (_, refl, update_running-IsSynced p m s h)
    update_in-IsSynced paused p m s h = update_paused-IsSynced p m s h

    -- Every update of a state machine that is in step with the timer goes through, and the result
    -- is in step again: the timer is valid, runs exactly in RUNNING and PAUSED, and is paused
    -- exactly in PAUSED.
    pub update-IsSynced : (p : Poll) (m : Machine Float) → IsSynced m → Steps (update cnc p m)
    unfolding update
    update-IsSynced p m s = update_in-IsSynced m.phase p m s s.in_phase
