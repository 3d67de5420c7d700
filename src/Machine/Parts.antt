-- ===== src/Machine/Parts.antt =====
-- status.py: when an update of `_CycleStateMachine` counts a part.
use mathlib.Core.Path.{subst}
use linuxcnc_status_monitor.Common.{
  ◌+◌, ◌≡◌, ◌⊎◌, ◌∙◌, sym, refl, true, false, Option, none, some, arith, Option-cases, if_rule,
  if_cases, inl, inr,
}
use linuxcnc_status_monitor.Common.Floats.{Floats}
use linuxcnc_status_monitor.Cycle.Operations.{start_cycle, pause_cycle, resume_cycle}
use linuxcnc_status_monitor.Tracker.Lines.{begin, reached_end}
use linuxcnc_status_monitor.Machine.{
  LinuxCnc, Poll, Phase, idle, running, paused, Machine, track, rest_at, known_path, begin_run,
  finish_run, abort_run, resume_run, update_idle, update_running, update_paused, update_in, update,
  is_program_running, is_program_paused, machine_ok,
}
use linuxcnc_status_monitor.Machine.Sync.{InPhase, IsSynced, track-InPhase}
use linuxcnc_status_monitor.Machine.Counting.{
  KeepsParts, track-KeepsParts, start-KeepsParts, pause-KeepsParts, resume-KeepsParts,
  abort-KeepsParts, finish_run-parts, finish_run-unsignalled,
}

module _ ⦃fl : Floats⦄ where
  open fl use {Float}

  module _ (cnc : LinuxCnc) (p : Poll) (m : Machine Float) where
    -- the run has just gone idle, with the machine on and no E-stop, after its end was reached
    abbrev IsMachineIdle : Type 0
    IsMachineIdle =
        (m.phase ≡ running)
        × (is_program_running cnc p.stat ≡ false)
        × (is_program_paused cnc p.stat ≡ false)
        × (machine_ok cnc p.stat ≡ true)

    abbrev pub IsPartEnd : Type 0
    IsPartEnd =
        (m.phase ≡ running)
        × (is_program_running cnc p.stat ≡ false)
        × (is_program_paused cnc p.stat ≡ false)
        × (machine_ok cnc p.stat ≡ true)
        × (reached_end (track p m).tracker p.info ≡ true)

    -- no completion stays signalled; a part more only at the end of a part
    abbrev pub CountsRightly : Machine Float → Type 0
    CountsRightly m' =
        (m'.calc.state.cycle_complete_signalled ≡ false)
        × ((m'.calc.parts_produced ≡ m.calc.parts_produced)
            ⊎ ((m'.calc.parts_produced ≡ m.calc.parts_produced + 1) × IsPartEnd))

    abbrev Rightly : Option (Machine Float) → Type 0
    Rightly none = Unit {0}
    Rightly (some m') = CountsRightly m'

    module _ (clear : m.calc.state.cycle_complete_signalled ≡ false) where
      kept : (m' : Machine Float) → KeepsParts m.calc m'.calc → CountsRightly m'
      kept m' k = (k.1 clear, inl k.0)

      -- a step after `track` that keeps the count
      kept_after : (m' : Machine Float) → KeepsParts (track p m).calc m'.calc → CountsRightly m'
      kept_after m' k = let t = track-KeepsParts p m in kept m' (k.0 ∙ t.0, λ h. k.1 (t.1 h))

      abort_run-rightly : CountsRightly (abort_run p (track p m))
      unfolding abort_run
      abort_run-rightly =
          kept_after (abort_run p (track p m)) (abort-KeepsParts p.now (track p m).calc)

      finish_run-rightly :
          InPhase running m.calc → IsMachineIdle → CountsRightly (finish_run p (track p m))
      finish_run-rightly h (e, r, s, on) =
          let t = track-KeepsParts p m in
          (
            finish_run-unsignalled p (track p m) (track-InPhase p running m h).0,
            ground (arith, finish_run-parts p (track p m) (t.1 clear), t.0),
          )

      begin_run-KeepsParts : KeepsParts m.calc (begin_run p m).calc
      unfolding begin_run
      begin_run-KeepsParts =
          let begun = record m {
            tracker = begin m.idle_motion_line m.idle_current_line;
            calc = start_cycle p.now none (known_path p.info.path) m.calc;
          } in
          let t = track-KeepsParts p begun in
          let s = start-KeepsParts p.now (known_path p.info.path) m.calc in
          (t.0 ∙ s.0, λ h. t.1 (s.1 h))

      update_idle-rightly : CountsRightly (update_idle cnc p m)
      unfolding update_idle
      update_idle-rightly =
          if_rule CountsRightly (is_program_running cnc p.stat)
            (kept (begin_run p m) begin_run-KeepsParts)
            (kept (rest_at p.stat m) (unfold rest_at in (refl, λ h. h)))

      update_running-rightly :
          m.phase ≡ running → InPhase running m.calc → CountsRightly (update_running cnc p m)
      unfolding update_running
      update_running-rightly e h =
          if_cases CountsRightly (is_program_paused cnc p.stat)
            (λ _.
              kept_after
                (record (track p m) { calc = pause_cycle p.now (track p m).calc; phase = paused })
                (pause-KeepsParts p.now (track p m).calc))
            (λ not_paused.
              if_cases CountsRightly (is_program_running cnc p.stat)
                (λ _. kept (track p m) (track-KeepsParts p m))
                (λ not_running.
                  if_cases CountsRightly (machine_ok cnc p.stat)
                    (λ on. finish_run-rightly h (e, not_running, not_paused, on))
                    (λ _. abort_run-rightly)))

      resume_run-Rightly : Rightly (resume_run p (track p m))
      unfolding resume_run
      resume_run-Rightly = elim (Option-cases (resume_cycle p.now (track p m).calc)) [
        | inl raised ↦
            let stuck : resume_run p (track p m) ≡ none = rw (raised, resume_run) in
            subst Rightly (sym stuck) tt
        | inr (c, e) ↦
            let m' = record (track p m) { calc = c; phase = running } in
            let resumed : resume_run p (track p m) ≡ some m' = rw (e, resume_run) in
            subst Rightly (sym resumed)
              (kept_after m' (resume-KeepsParts p.now (track p m).calc c e))
      ]

      update_paused-Rightly : Rightly (update_paused cnc p m)
      unfolding update_paused
      update_paused-Rightly = if_rule Rightly (is_program_running cnc p.stat) resume_run-Rightly (
          if_rule Rightly (is_program_paused cnc p.stat) (kept (track p m) (track-KeepsParts p m))
            abort_run-rightly)

      update_in-Rightly :
          (ph : Phase) → m.phase ≡ ph → InPhase ph m.calc → Rightly (update_in cnc ph p m)
      unfolding update_in
      update_in-Rightly idle e h = update_idle-rightly
      update_in-Rightly running e h = update_running-rightly e h
      update_in-Rightly paused e h = update_paused-Rightly

    -- An update of a state machine that is in step with the timer and has no completion signalled
    -- raises the number of parts by one only when a running program has gone idle with the
    -- machine on, no E-stop and its end reached; in every other update the number stays, and no
    -- completion stays signalled.
    pub update-parts :
        (m' : Machine Float)
        → IsSynced m
        → m.calc.state.cycle_complete_signalled ≡ false
        → update cnc p m ≡ some m'
        → CountsRightly m'
    unfolding update
    update-parts m' s clear u = subst Rightly u (update_in-Rightly clear m.phase refl s.in_phase)
