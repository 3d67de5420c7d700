-- ===== src/Cycle/Timing.antt =====
-- cycle_time_calculator.py: what a cycle's time counts, and the part rules of the module's
-- introduction, as whole sequences of calls.
use text.Mathlib.Text.{◌==◌ as str_eq}
use text.Mathlib.TextPositions.{eq_refl}
use linuxcnc_status_monitor.Common.{
  ℕ, ◌+◌, ◌-◌, ◌/◌, ◌≤◌, ◌≡◌, refl, ap, Bool, true, false, Option, none, some, arith, Bool-cases,
  if_rule, inl, inr, if◌then◌else◌, String,
}
use linuxcnc_status_monitor.Common.Floats.{Floats}
use linuxcnc_status_monitor.Cycle.State.{
  Calculator, min_valid_cycle_ms, ms_per_ns, push_history, elapsed_ms, resolved_rfh,
  leave_part_open, close_part, classify, fmax, fmin,
}
use linuxcnc_status_monitor.Cycle.Operations.{
  abandon_other_program, classify_if_known, start_cycle, classify_running, pause_cycle,
  resume_cycle, signal_cycle_complete, record_abort, count_part, settle, stop_cycle, set_furthest,
}

module _ ⦃fl : Floats⦄ where
  open fl use {Float, percent, add, zero as fzero, one as fone, lt}

  -- While a cycle is paused its time stands still.
  pub elapsed-paused :
      (c : Calculator Float) (t now later : ℕ)
      → c.state.running ≡ true
      → c.state.paused ≡ false
      → (elapsed_ms now (pause_cycle t c) ≡ elapsed_ms t c)
        × (elapsed_ms later (pause_cycle t c) ≡ elapsed_ms t c)
  unfolding elapsed_ms pause_cycle
  elapsed-paused c t now later r p = ground arith

  -- Pausing and resuming a running cycle that is not paused goes through, and the time of the
  -- cycle leaves out the pause.
  pub elapsed-pause-resume :
      (c : Calculator Float) {start_ns : ℕ} (t₁ t₂ now : ℕ)
      → c.state.running ≡ true
      → c.state.paused ≡ false
      → c.state.start_ns ≡ some start_ns
      → (c' : Calculator Float) × (resume_cycle t₂ (pause_cycle t₁ c) ≡ some c')
        × (c'.state.paused ≡ false)
        × (elapsed_ms now c'
            ≡ (now - start_ns - (c.state.total_paused_ns + (t₂ - t₁))) / ms_per_ns + c.carry_ms)
  unfolding elapsed_ms pause_cycle resume_cycle
  elapsed-pause-resume c t₁ t₂ now r p s = (
    record c {
      state = record c.state {
        total_paused_ns = c.state.total_paused_ns + (t₂ - t₁);
        pause_start_ns = none;
        paused = false;
      };
    },
    ground arith,
    refl,
    ground arith,
  )

  -- the first calls of a cycle, as status.py makes them
  abbrev pub begun : ℕ → String → Bool → Calculator Float → Calculator Float
  begun now program rfh c = classify_running rfh (start_cycle now none (some program) c)

  module _ (c : Calculator Float) (program : String) (t₀ t₁ : ℕ)
      (idle : c.state.running ≡ false) where
    -- A run from the top that stops midway after at least a second is one abort; the part stays open
    -- with the time of the run. An open part from before is recorded as partial, whatever its program.
    pub interrupted_from_top :
        min_valid_cycle_ms ≤ (t₁ - t₀) / ms_per_ns
        → let c' = stop_cycle t₁ (begun t₀ program false c) in
          (c'.state.running ≡ false)
          × (c'.abort_count ≡ c.abort_count + 1)
          × (c'.parts_produced ≡ c.parts_produced)
          × (c'.partial_parts ≡ c.partial_parts + (if c.part_open then 1 else 0))
          × (c'.part_open ≡ true)
          × (c'.open_program ≡ some program)
          × (c'.carry_ms ≡ (t₁ - t₀) / ms_per_ns)
          × (c'.completed_durations_ms ≡ c.completed_durations_ms)
    unfolding start_cycle abandon_other_program classify_if_known classify_running classify
        stop_cycle settle record_abort leave_part_open elapsed_ms resolved_rfh
    interrupted_from_top h = ground arith

    -- A Run From Here of the open part's program that reaches the end is the same part: its time
    -- goes on from the carried time, and neither an abort nor a partial part is recorded.
    pub continued_to_end :
        c.part_open ≡ true
        → c.open_program ≡ some program
        → min_valid_cycle_ms ≤ c.carry_ms
        → let c' = stop_cycle t₁ (signal_cycle_complete (begun t₀ program true c)) in
          (c'.state.running ≡ false)
          × (c'.abort_count ≡ c.abort_count)
          × (c'.parts_produced ≡ c.parts_produced + 1)
          × (c'.partial_parts ≡ c.partial_parts)
          × (c'.part_open ≡ false)
          × (c'.carry_ms ≡ 0)
          × (c'.completed_durations_ms
              ≡ push_history c.completed_durations_ms ((t₁ - t₀) / ms_per_ns + c.carry_ms))
    unfolding start_cycle abandon_other_program classify_if_known classify_running classify
        stop_cycle settle count_part close_part elapsed_ms resolved_rfh signal_cycle_complete
    continued_to_end o p h = ground (arith, eq_refl program)

  -- From a calculator with no cycle running and no part open, a part stopped midway after a
  -- second or more and finished by Run From Here of the same program is one part and one abort,
  -- and its time is the sum of the two runs without the time between them.
  pub interrupted_then_continued :
      (c : Calculator Float) (program : String) (t₀ t₁ t₂ t₃ : ℕ)
      → c.state.running ≡ false
      → c.part_open ≡ false
      → min_valid_cycle_ms ≤ (t₁ - t₀) / ms_per_ns
      → let c' = stop_cycle t₁ (begun t₀ program false c) in
        let c'' = stop_cycle t₃ (signal_cycle_complete (begun t₂ program true c')) in
        (c''.parts_produced ≡ c.parts_produced + 1)
        × (c''.abort_count ≡ c.abort_count + 1)
        × (c''.partial_parts ≡ c.partial_parts)
        × (c''.part_open ≡ false)
        × (c''.completed_durations_ms
            ≡ push_history c.completed_durations_ms ((t₃ - t₂) / ms_per_ns + (t₁ - t₀) / ms_per_ns))
  interrupted_then_continued c program t₀ t₁ t₂ t₃ idle closed h =
      let c' = stop_cycle t₁ (begun t₀ program false c) in
      let first = interrupted_from_top c program t₀ t₁ idle h in
      let second = continued_to_end c' program t₂ t₃ first.0 first.4 first.5 (omega arith) in
      (
        omega arith,
        omega arith,
        omega (arith, ap (λ (b : Bool). if b then ◌+◌ 1 0 else 0) closed),
        second.4,
        cc (second.6, first.6, first.7),
      )

  -- With no cycle running and a part of a known program open, starting another known program
  -- records the open part as partial with its progress and carries no time into the new cycle.
  pub other_program_starts_anew :
      (c : Calculator Float) (old new : String) (now later : ℕ) (rfh : Option Bool)
      → c.state.running ≡ false
      → c.part_open ≡ true
      → c.open_program ≡ some old
      → str_eq new old ≡ false
      → let c' = start_cycle now rfh (some new) c in
        (c'.part_open ≡ false)
        × (c'.partial_parts ≡ c.partial_parts + 1)
        × (c'.partial_equiv ≡ add c.partial_equiv c.open_progress)
        × (c'.last_partial_pct ≡ some (percent c.open_progress))
        × (elapsed_ms later c' ≡ (later - now) / ms_per_ns)
  unfolding start_cycle abandon_other_program classify_if_known classify elapsed_ms
  other_program_starts_anew c old new now later rfh idle o p d = ground arith

  -- Only the first classification of a cycle counts.
  pub classify_once :
      (c : Calculator Float) (first second : Bool)
      → classify_running second (classify_running first c) ≡ classify_running first c
  unfolding classify_running classify
  classify_once c first second = ground arith

  lt_asym : (a b : Float) → lt a b ≡ true → lt b a ≡ false
  lt_asym a b h = elim (Bool-cases (lt b a)) [
    | inl back ↦ cc (fl.lt_irrefl a, fl.lt_trans a b a h back)
    | inr fine ↦ fine
  ]

  fmax-ge_left : (a b : Float) → lt (fmax a b) a ≡ false
  unfolding fmax
  fmax-ge_left a b = ground (arith, lt_asym a b, fl.lt_irrefl a)

  fmin-le_left : (a b : Float) → lt a (fmin a b) ≡ false
  unfolding fmin
  fmin-le_left a b = ground (arith, lt_asym b a, fl.lt_irrefl a)

  fmax-le : (u a b : Float) → lt u a ≡ false → lt u b ≡ false → lt u (fmax a b) ≡ false
  unfolding fmax
  fmax-le u a b p q = ground arith

  -- `set_progress` never lowers a cycle's progress, and never takes it above 1.
  pub set_furthest_bounds :
      (c : Calculator Float) (fraction : Float)
      → lt fone c.state.progress ≡ false
      → (lt (set_furthest fraction c).state.progress c.state.progress ≡ false)
        × (lt fone (set_furthest fraction c).state.progress ≡ false)
  unfolding set_furthest
  set_furthest_bounds c fraction h =
      if_rule {A = Calculator Float}
        (λ c'.
          (lt c'.state.progress c.state.progress ≡ false) × (lt fone c'.state.progress ≡ false))
        c.state.running (fmax-ge_left _ _, fmax-le fone _ _ h (fmin-le_left fone _))
        (fl.lt_irrefl _, h)
