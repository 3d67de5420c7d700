-- ===== src/Tracker/End.antt =====
-- program_tracker.py: `CycleLineTracker.reached_end` tells a run that came to M2 / M30 from one that
-- stopped before.
use linuxcnc_status_monitor.Common.{
  ℕ, ◌≤◌, ◌<◌, ◌≡◌, ◌≢◌, ◌⊎◌, refl, true, false, Option, none, some, List, [], ◌∷◌, contains, arith,
}
use linuxcnc_status_monitor.Tracker.Program.{ProgramInfo, is_move_line}
use linuxcnc_status_monitor.Tracker.Lines.{
  Tracker, begin, hold, note_read, sort_motion, see_motion, see_current, sample, reached_end,
}

-- What the sampling loop sees: a sample inside a subroutine file with that file's moves, or one in
-- the program with the interpreter's read line.
pub data Sighting : Type 0 where
  inside : ℕ → ℕ → List ℕ → Sighting
  outside : ℕ → ℕ → ℕ → Sighting

unfoldable pub see : ProgramInfo → Sighting → Tracker → Tracker
see prog (inside motion current moves) t = hold motion current moves t
see prog (outside motion current read) t = sample motion current prog read t

unfoldable pub follow : ProgramInfo → List Sighting → Tracker → Tracker
follow prog [] t = t
follow prog (s ∷ rest) t = follow prog rest (see prog s t)

module _ (prog : ProgramInfo) where
  -- in the program, before the tail move, before the end line and with no read-ahead to it
  abbrev pub IsBeforeEnd : Sighting → Type 0
  IsBeforeEnd (inside motion current moves) = Unit {0}
  IsBeforeEnd (outside motion current read) =
      (motion < prog.tail_line) × (current < prog.end_line) × (read < prog.end_line)

  abbrev pub AllBeforeEnd : List Sighting → Type 0
  AllBeforeEnd [] = Unit {0}
  AllBeforeEnd (s ∷ rest) = IsBeforeEnd s × AllBeforeEnd rest

  abbrev IsBelow : Option ℕ → Type 0
  IsBelow none = Unit {0}
  IsBelow (some m) = m < prog.tail_line

  record IsShort (t : Tracker) : Type 0 where
    last_below : IsBelow t.last_motion_line
    end_unseen : t.end_seen ≡ false
    end_unread : t.read_end ≡ false

  sample-IsShort :
      (m c r : ℕ) {t : Tracker}
      → IsBeforeEnd (outside m c r)
      → IsShort t
      → IsShort (sample m c prog r t)
  unfolding sample note_read sort_motion see_motion see_current
  sample-IsShort m c r b s = ground arith

  see-IsShort : (s : Sighting) {t : Tracker} → IsBeforeEnd s → IsShort t → IsShort (see prog s t)
  unfolding see
  see-IsShort (inside m c moves) b s =
      unfold hold in
      record { last_below = s.last_below; end_unseen = s.end_unseen; end_unread = s.end_unread }
  see-IsShort (outside m c r) b s = sample-IsShort m c r b s

  follow-IsShort :
      (rest : List Sighting) {t : Tracker}
      → AllBeforeEnd rest
      → IsShort t
      → IsShort (follow prog rest t)
  unfolding follow
  follow-IsShort [] b s = s
  follow-IsShort (x ∷ rest) b s = follow-IsShort rest b.1 (see-IsShort x b.0 s)

  reached_end-IsShort : (t : Tracker) → 0 < prog.tail_line → IsShort t → reached_end t prog ≡ false
  unfolding reached_end
  reached_end-IsShort t pos s = ground arith

  -- With a tail line known, a run is not taken for complete if every sample in the program is
  -- before the tail line and before the end line and has no read-ahead as far as the end line,
  -- whatever subroutines the run went through.
  pub stopped_run_incomplete :
      (m c : ℕ) (rest : List Sighting)
      → 0 < prog.tail_line
      → AllBeforeEnd rest
      → reached_end (follow prog rest (begin m c)) prog ≡ false
  stopped_run_incomplete m c rest pos b =
      reached_end-IsShort _ pos
        (follow-IsShort rest b (record { last_below = tt; end_unseen = refl; end_unread = refl }))

  -- With a tail line that is a move line and an end line known, and LinuxCNC neither just back
  -- from a subroutine nor last seen in one, a sample of the tail move, live or not the stale
  -- line, makes the run complete.
  pub tail_move_completes :
      (t : Tracker) (c r : ℕ)
      → 0 < prog.end_line
      → 0 < prog.tail_line
      → is_move_line prog prog.tail_line ≡ true
      → (t.motion_live ≡ true) ⊎ (prog.tail_line ≢ t.stale_motion)
      → (t.after_sub ≡ false) × (t.from_sub ≡ false)
      → reached_end (sample prog.tail_line c prog r t) prog ≡ true
  unfolding sample note_read sort_motion see_motion see_current reached_end
  tail_move_completes t c r pe pt move live outside_sub = ground arith

  -- What was seen stays seen: with the end line seen, the run is complete after any further samples.
  end_seen-follow :
      (rest : List Sighting) (t : Tracker)
      → t.end_seen ≡ true
      → (follow prog rest t).end_seen ≡ true
  unfolding follow see hold sample note_read sort_motion see_motion see_current
  end_seen-follow [] t e = e
  end_seen-follow (inside m c moves ∷ rest) t e = end_seen-follow rest _ e
  end_seen-follow (outside m c r ∷ rest) t e =
      end_seen-follow rest (sample m c prog r t) (ground arith)

  end_seen-sample :
      (t : Tracker) (m c r : ℕ)
      → 0 < prog.end_line
      → prog.end_line ≤ c
      → (t.current_live ≡ true) ⊎ (c ≢ t.stale_current)
      → contains c t.sub_lines ≡ false
      → (sample m c prog r t).end_seen ≡ true
  unfolding sample note_read sort_motion see_motion see_current
  end_seen-sample t m c r pe le live own = ground arith

  -- With an end line known, a fresh sample at or after the end line that is no subroutine's line
  -- makes the run complete, and it stays complete whatever is sampled later.
  pub end_line_completes :
      (t : Tracker) (m c r : ℕ) (rest : List Sighting)
      → 0 < prog.end_line
      → prog.end_line ≤ c
      → (t.current_live ≡ true) ⊎ (c ≢ t.stale_current)
      → contains c t.sub_lines ≡ false
      → reached_end (follow prog rest (sample m c prog r t)) prog ≡ true
  unfolding reached_end
  end_line_completes t m c r rest pe le live own = rw (
    end_seen-follow rest (sample m c prog r t) (end_seen-sample t m c r pe le live own),
    reached_end,
  )
