-- ===== src/Cycle/Accounting.antt =====
-- cycle_time_calculator.py: every started part is counted once: as a produced part, as a partial
-- part, or as the part that is still open.
use linuxcnc_status_monitor.Common.{
  ℕ, ◌+◌, ◌≡◌, refl, Bool, true, false, not, ◌&&◌, Option, none, some, ltb, ◌==◌, arith,
  if◌then◌else◌, String,
}
use linuxcnc_status_monitor.Common.Floats.{Floats}
use linuxcnc_status_monitor.Cycle.State.{
  Calculator, min_valid_cycle_ms, elapsed_ms, resolved_rfh, progress_of, leave_part_open,
  close_part, classify,
}
use linuxcnc_status_monitor.Cycle.Operations.{
  Op, start, set_program, classify_start, set_progress, pause, resume, signal_complete, stop, drop,
  abort, reset, abandon_other_program, classify_if_known, start_cycle, set_known_program,
  set_program_if_new, classify_running, set_furthest, pause_cycle, resume_cycle,
  signal_cycle_complete, record_abort, count_part, settle, stop_cycle, drop_cycle, abort_cycle,
  step,
}

module _ ⦃fl : Floats⦄ where
  open fl use {Float}

  -- parts produced, parts left partial, and the open part
  abbrev pub accounted : Calculator Float → ℕ
  accounted c = c.parts_produced + c.partial_parts + (if c.part_open then 1 else 0)

  -- a stop or an abort of a running cycle that is not discarded as too short
  abbrev pub ends_cycle : Op Float → Calculator Float → Bool
  ends_cycle (stop now) c =
      c.state.running && not (ltb (elapsed_ms now c) min_valid_cycle_ms && c.carry_ms == 0)
  ends_cycle (abort now) c = c.state.running
  ends_cycle _ c = false

  abbrev pub is_reset : Op Float → Bool
  is_reset reset = true
  is_reset _ = false

  accounted-abandon :
      (program : Option String) (c : Calculator Float)
      → accounted (abandon_other_program program c) ≡ accounted c
  unfolding abandon_other_program
  accounted-abandon program c = ground arith

  accounted-classify :
      (rfh : Bool) (c : Calculator Float) → accounted (classify rfh c) ≡ accounted c
  unfolding classify
  accounted-classify true c = refl
  accounted-classify false c = ground arith

  accounted-classify_if_known :
      (rfh : Option Bool) (c : Calculator Float) → accounted (classify_if_known rfh c) ≡ accounted c
  unfolding classify_if_known
  accounted-classify_if_known none c = refl
  accounted-classify_if_known (some rfh) c = accounted-classify rfh c

  accounted-start :
      (now : ℕ) (rfh : Option Bool) (program : Option String) (c : Calculator Float)
      → accounted (start_cycle now rfh program c) ≡ accounted c
  unfolding start_cycle
  accounted-start now rfh program c = grind (arith, accounted-classify_if_known, accounted-abandon)

  accounted-set_program :
      (program : Option String) (c : Calculator Float)
      → accounted (set_program_if_new program c) ≡ accounted c
  unfolding set_program_if_new set_known_program
  accounted-set_program none c = refl
  accounted-set_program (some program) c = grind (
    arith,
    accounted-abandon (some program)
        (record c { state = record c.state { program = some program } }),
  )

  accounted-settle :
      (duration : ℕ) (complete rfh : Bool) (p : Float) (c : Calculator Float)
      → accounted (settle duration complete rfh p c)
        ≡ accounted c
          + (if not (ltb duration min_valid_cycle_ms && c.carry_ms == 0) && not c.part_open
              then 1
              else 0)
  unfolding settle count_part leave_part_open record_abort close_part
  accounted-settle duration complete rfh p c = ground arith

  -- Every call but a reset, where it goes through, keeps the sum of produced, partial and open
  -- parts, except that the stop or abort of a counted run with no part open adds one.
  pub accounted-step :
      (op : Op Float) (c : Calculator Float) {c' : Calculator Float}
      → is_reset op ≡ false
      → step op c ≡ some c'
      → accounted c' ≡ accounted c + (if ends_cycle op c && not c.part_open then 1 else 0)
  unfolding step
  accounted-step (start now rfh program) c h e = ground (arith, accounted-start now rfh program c)
  accounted-step (set_program program) c h e = ground (arith, accounted-set_program program c)
  accounted-step (classify_start rfh) c h e =
      unfold classify_running in ground (arith, accounted-classify rfh c)
  accounted-step (set_progress f) c h e = unfold set_furthest in ground arith
  accounted-step (pause now) c h e = unfold pause_cycle in ground arith
  accounted-step (resume now) c h e = unfold resume_cycle in ground arith
  accounted-step signal_complete c h e = unfold signal_cycle_complete in ground arith
  accounted-step (stop now) c h e =
      unfold stop_cycle in
      ground (
        arith,
        accounted-settle (elapsed_ms now c) c.state.cycle_complete_signalled (resolved_rfh c)
            (progress_of c) c,
      )
  accounted-step drop c h e = unfold drop_cycle in ground arith
  accounted-step (abort now) c h e = unfold abort_cycle record_abort in ground arith
  accounted-step reset c h e = cc
