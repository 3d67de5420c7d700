-- ===== src/Machine/Aborts.antt =====
-- status.py: what an E-stop, a switched-off machine or a stop while paused does in
-- `_CycleStateMachine`.
use mathlib.Core.Path.{subst}
use linuxcnc_status_monitor.Common.{
  ℕ, ◌+◌, ◌≡◌, ◌⊎◌, ◌∙◌, ap, refl, Bool, true, false, Option, none, some, arith, if_rule, inl, inr,
}
use linuxcnc_status_monitor.Common.Floats.{Floats}
use linuxcnc_status_monitor.Cycle.State.{Calculator, classify, leave_part_open}
use linuxcnc_status_monitor.Cycle.Operations.{
  classify_running, set_furthest, abort_cycle, record_abort,
}
use linuxcnc_status_monitor.Machine.{
  LinuxCnc, Poll, idle, running, paused, Machine, report, track, abort_run, update_running,
  update_paused, update_in, update, is_program_running, is_program_paused, machine_ok,
}
use linuxcnc_status_monitor.Machine.Counting.{track-KeepsParts, abort-KeepsParts}
use linuxcnc_status_monitor.Machine.Sync.{InPhase, IsSynced}

module _ ⦃fl : Floats⦄ where
  open fl use {Float}

  report-aborts :
      (rfh : Option Bool) (f : Float) (c : Calculator Float)
      → ((report rfh f c).abort_count ≡ c.abort_count)
        × ((report rfh f c).state.running ≡ c.state.running)
  unfolding report set_furthest classify_running classify
  report-aborts none f c = (refl, refl)
  report-aborts (some true) f c = ground arith
  report-aborts (some false) f c = ground arith

  track-aborts :
      (p : Poll) (m : Machine Float)
      → ((track p m).calc.abort_count ≡ m.calc.abort_count)
        × ((track p m).calc.state.running ≡ m.calc.state.running)
  unfolding track
  track-aborts p m =
      if_rule {A = Machine Float}
        (λ m'.
          (m'.calc.abort_count ≡ m.calc.abort_count)
          × (m'.calc.state.running ≡ m.calc.state.running))
        p.in_subroutine (refl, refl) (report-aborts _ _ m.calc)

  abort-counts :
      (now : ℕ) (c : Calculator Float)
      → c.state.running ≡ true
      → ((abort_cycle now c).abort_count ≡ c.abort_count + 1)
        × ((abort_cycle now c).part_open ≡ true)
  unfolding abort_cycle record_abort leave_part_open
  abort-counts now c h = ground arith

  module _ (cnc : LinuxCnc) (p : Poll) (m : Machine Float) where
    aborts :
        (m.phase ≡ paused) ⊎ ((m.phase ≡ running) × (machine_ok cnc p.stat ≡ false))
        → is_program_running cnc p.stat ≡ false
        → is_program_paused cnc p.stat ≡ false
        → update cnc p m ≡ some (abort_run p (track p m))
    unfolding update update_in update_paused update_running
    aborts (inl e) r q = ap (λ ph. update_in cnc ph p m) e ∙ ground arith
    aborts (inr (e, off)) r q = ap (λ ph. update_in cnc ph p m) e ∙ ground arith

    was_running :
        IsSynced m
        → (m.phase ≡ paused) ⊎ ((m.phase ≡ running) × (machine_ok cnc p.stat ≡ false))
        → m.calc.state.running ≡ true
    was_running s (inl e) = (subst (λ ph. InPhase ph m.calc) e s.in_phase).0
    was_running s (inr (e, off)) = (subst (λ ph. InPhase ph m.calc) e s.in_phase).0

    abbrev Aborted : Machine Float → Type 0
    Aborted m' =
        (m'.phase ≡ idle)
        × (m'.calc.parts_produced ≡ m.calc.parts_produced)
        × (m'.calc.abort_count ≡ m.calc.abort_count + 1)
        × (m'.calc.part_open ≡ true)

    -- With the state machine in step with the timer, a poll that shows the program neither
    -- running nor paused, during a run with an E-stop or the machine off, or while paused, ends
    -- in IDLE with one more abort, an open part and no part counted.
    pub update-abort :
        (m' : Machine Float)
        → IsSynced m
        → (m.phase ≡ paused) ⊎ ((m.phase ≡ running) × (machine_ok cnc p.stat ≡ false))
        → is_program_running cnc p.stat ≡ false
        → is_program_paused cnc p.stat ≡ false
        → update cnc p m ≡ some m'
        → (m'.phase ≡ idle)
          × (m'.calc.parts_produced ≡ m.calc.parts_produced)
          × (m'.calc.abort_count ≡ m.calc.abort_count + 1)
          × (m'.calc.part_open ≡ true)
    unfolding abort_run
    update-abort m' s cause r q u =
        let same : abort_run p (track p m) ≡ m' = cc (aborts cause r q) in
        let t = track-KeepsParts p m in
        let more =
          abort-counts p.now (track p m).calc ((track-aborts p m).1 ∙ was_running s cause) in
        subst Aborted same (
          refl,
          (abort-KeepsParts p.now (track p m).calc).0 ∙ t.0,
          more.0 ∙ ap (λ n. n + 1) (track-aborts p m).0,
          more.1,
        )
