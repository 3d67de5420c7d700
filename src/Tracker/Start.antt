-- ===== src/Tracker/Start.antt =====
-- program_tracker.py: `CycleLineTracker` finds where a cycle started, and its line numbers fit
-- together.
use linuxcnc_status_monitor.Common.{
  ℕ, ◌≤◌, ◌<◌, ◌≡◌, ◌≢◌, refl, true, false, Option, none, some, List, [], ◌∷◌, is_some, arith,
}
use linuxcnc_status_monitor.Tracker.Program.{ProgramInfo, is_move_line}
use linuxcnc_status_monitor.Tracker.Lines.{
  Tracker, begin, hold, note_read, sort_motion, see_motion, see_current, sample, is_run_from_here,
}

abbrev AtMost : Option ℕ → ℕ → Type 0
AtMost none n = Unit {0}
AtMost (some m) n = m ≤ n

-- A first line is known exactly when a last one is, and neither is beyond the furthest line.
pub record IsConsistent (t : Tracker) : Type 0 where
  pub known : is_some t.start_line ≡ is_some t.last_motion_line
  pub start_within : AtMost t.start_line t.max_line
  pub last_within : AtMost t.last_motion_line t.max_line

pub begin-IsConsistent : (m c : ℕ) → IsConsistent (begin m c)
begin-IsConsistent m c = record { known = refl; start_within = tt; last_within = tt }

pub hold-IsConsistent :
    (m c : ℕ) (moves : List ℕ) {t : Tracker} → IsConsistent t → IsConsistent (hold m c moves t)
unfolding hold
hold-IsConsistent m c moves v = record {
  known = v.known;
  start_within = v.start_within;
  last_within = v.last_within;
}

sort_motion-IsConsistent :
    (m : ℕ) (prog : ProgramInfo) {t : Tracker}
    → IsConsistent t
    → IsConsistent (sort_motion m prog t).1
unfolding sort_motion
sort_motion-IsConsistent m prog v = ground arith

see_motion-IsConsistent : (m : ℕ) {t : Tracker} → IsConsistent t → IsConsistent (see_motion m t)
unfolding see_motion
see_motion-IsConsistent m v = ground arith

note_read-IsConsistent :
    (r : ℕ) (prog : ProgramInfo) {t : Tracker} → IsConsistent t → IsConsistent (note_read r prog t)
unfolding note_read
note_read-IsConsistent r prog v = ground arith

see_current-IsConsistent :
    (c : ℕ) (prog : ProgramInfo) {t : Tracker}
    → IsConsistent t
    → IsConsistent (see_current c prog t)
unfolding see_current
see_current-IsConsistent c prog v = record {
  known = v.known;
  start_within = v.start_within;
  last_within = v.last_within;
}

-- Every sample keeps the line numbers consistent.
pub sample-IsConsistent :
    (m c r : ℕ) (prog : ProgramInfo) {t : Tracker}
    → IsConsistent t
    → IsConsistent (sample m c prog r t)
unfolding sample
sample-IsConsistent m c r prog {t} v =
    let (m', t') = sort_motion m prog (note_read r prog t) in
    see_current-IsConsistent _ prog (
      see_motion-IsConsistent m'
        (sort_motion-IsConsistent m prog (note_read-IsConsistent r prog v)))

-- The start line of a cycle is the first move seen: no later sample changes it.
pub start_line-sample :
    (m c r s : ℕ) (prog : ProgramInfo) (t : Tracker)
    → t.start_line ≡ some s
    → (sample m c prog r t).start_line ≡ some s
unfolding sample note_read sort_motion see_motion see_current
start_line-sample m c r s prog t e = ground arith

-- The first sample with a move of the program that is not the stale line sets the start line, if
-- LinuxCNC is not just back from a subroutine.
pub start_line-first :
    (m c r : ℕ) (prog : ProgramInfo) (t : Tracker)
    → t.start_line ≡ none
    → t.after_sub ≡ false
    → 0 < m
    → m ≢ t.stale_motion
    → is_move_line prog m ≡ true
    → (sample m c prog r t).start_line ≡ some m
unfolding sample note_read sort_motion see_motion see_current
start_line-first m c r prog t none_yet outside pos fresh move = ground arith

-- While the motion line is the stale one, or none, no start is seen.
IsWaiting : ℕ → Tracker → Type 0
IsWaiting m t = (t.start_line ≡ none) × (t.motion_live ≡ false) × (t.stale_motion ≡ m)

stale-sample :
    (m c r : ℕ) (prog : ProgramInfo) (t : Tracker)
    → IsWaiting m t
    → IsWaiting m (sample m c prog r t)
unfolding IsWaiting sample note_read sort_motion see_motion see_current
stale-sample m c r prog t w = ground arith

-- samples with the same motion line; each pair is a current line and a read line
unfoldable pub samples : ℕ → ProgramInfo → List (ℕ × ℕ) → Tracker → Tracker
samples m prog [] t = t
samples m prog ((c, r) ∷ rest) t = samples m prog rest (sample m c prog r t)

stale-samples :
    (m : ℕ) (prog : ProgramInfo) (rest : List (ℕ × ℕ)) (t : Tracker)
    → IsWaiting m t
    → IsWaiting m (samples m prog rest t)
unfolding samples
stale-samples m prog [] t w = w
stale-samples m prog ((c, r) ∷ rest) t w =
    stale-samples m prog rest (sample m c prog r t) (stale-sample m c r prog t w)

-- However long the motion line stays what it was before the cycle, whether the run is a Run From
-- Here stays unknown.
pub stale_line_ignored :
    (m idle_current : ℕ) (prog : ProgramInfo) (rest : List (ℕ × ℕ))
    → is_run_from_here (samples m prog rest (begin m idle_current)) prog ≡ none
unfolding IsWaiting is_run_from_here
stale_line_ignored m idle_current prog rest =
    rw ((stale-samples m prog rest (begin m idle_current) (refl, refl, refl)).0, is_run_from_here)
