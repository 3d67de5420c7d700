-- ===== src/Tracker/Lines.antt =====
-- program_tracker.py: `CycleLineTracker`, the line bookkeeping of one cycle. A line number that the
-- source reads as `int(x or 0)` is a natural number here: each is used only where it is > 0.
use linuxcnc_status_monitor.Common.{
  ℕ, max, Bool, true, false, not, ◌&&◌, ◌||◌, Option, none, some, List, [], ◌∷◌, length, contains,
  ltb, leb, ◌==◌, if◌then◌else◌,
}
use linuxcnc_status_monitor.Common.Floats.{Floats}
use linuxcnc_status_monitor.Tracker.Program.{
  ProgramInfo, is_move_line, is_near_start, program_progress,
}

abbrev pub sub_lines_max : ℕ
sub_lines_max = 5000

-- The sets of the source are lists without repetition.
pub record Tracker : Type 0 where
  pub stale_motion : ℕ
  pub stale_current : ℕ
  pub motion_live : Bool
  pub current_live : Bool
  pub start_line : Option ℕ
  pub last_motion_line : Option ℕ
  pub max_line : ℕ
  pub end_seen : Bool
  pub sub_lines : List ℕ
  pub sub_moves : List ℕ
  pub sub_last : ℕ
  pub after_sub : Bool
  pub from_sub : Bool
  pub read_end : Bool

-- `begin`
abbrev pub begin : ℕ → ℕ → Tracker
begin idle_motion_line idle_current_line = record {
  stale_motion = idle_motion_line;
  stale_current = idle_current_line;
  motion_live = false;
  current_live = false;
  start_line = none;
  last_motion_line = none;
  max_line = 0;
  end_seen = false;
  sub_lines = [];
  sub_moves = [];
  sub_last = 0;
  after_sub = false;
  from_sub = false;
  read_end = false;
}

-- `set.add`
unfoldable pub add : ℕ → List ℕ → List ℕ
add n xs = if contains n xs then xs else n ∷ xs

-- `set.update`
unfoldable pub add_all : List ℕ → List ℕ → List ℕ
add_all [] ys = ys
add_all (x ∷ xs) ys = add_all xs (add x ys)

-- the body of the loop over the two line numbers in `hold`
unfoldable pub add_line : ℕ → List ℕ → List ℕ
unfolding add
add_line n xs = if ltb 0 n && ltb (length xs) sub_lines_max then add n xs else xs

unfoldable pub add_moves : List ℕ → List ℕ → List ℕ
unfolding add_all
add_moves [] ys = ys
add_moves (x ∷ xs) ys = if ltb (length ys) sub_lines_max then add_all (x ∷ xs) ys else ys

-- A sample taken inside a subroutine.
unfoldable pub hold : ℕ → ℕ → List ℕ → Tracker → Tracker
hold motion_line current_line moves t =
    let sub_moves' = add_moves moves t.sub_moves in
    record t {
      stale_motion = motion_line;
      motion_live = false;
      stale_current = current_line;
      current_live = false;
      sub_lines = add_line current_line (add_line motion_line t.sub_lines);
      sub_moves = sub_moves';
      sub_last = if contains motion_line sub_moves' then motion_line else t.sub_last;
      after_sub = true;
      from_sub = if ltb 0 motion_line then true else t.from_sub;
    }

-- `_subs_line`
unfoldable pub subs_line : Tracker → ℕ → ProgramInfo → Bool
subs_line t line prog =
    t.after_sub
    && (contains line t.sub_lines
        || (ltb t.sub_last line && contains line t.sub_moves)
        || not (is_move_line prog line))

-- the read-ahead of the interpreter has passed M2 / M30
unfoldable pub note_read : ℕ → ProgramInfo → Tracker → Tracker
note_read read_line prog t =
    if ltb 0 prog.end_line && leb prog.end_line read_line then record t { read_end = true } else t

-- Is the motion line a subroutine's, no move of the program, or one of its moves? Returns the motion
-- line to go on with.
unfoldable pub sort_motion : ℕ → ProgramInfo → Tracker → ℕ × Tracker
unfolding subs_line
sort_motion motion_line prog t =
    if ltb 0 motion_line && not (motion_line == t.stale_motion) && subs_line t motion_line prog
    then (0, record t { from_sub = true })
    else if ltb 0 motion_line && not (is_move_line prog motion_line)
    then (0, t)
    else if ltb 0 motion_line && not (motion_line == t.stale_motion)
    then (motion_line, record t { from_sub = false; after_sub = false; sub_last = 0 })
    else (motion_line, t)

-- `if x is None: x = value`
unfoldable pub or_first : Option ℕ → ℕ → Option ℕ
or_first none n = some n
or_first (some m) n = some m

unfoldable pub see_motion : ℕ → Tracker → Tracker
unfolding or_first
see_motion motion_line t =
    let live = t.motion_live || (ltb 0 motion_line && not (motion_line == t.stale_motion)) in
    if live && ltb 0 motion_line
    then (record t {
      motion_live = true;
      start_line = or_first t.start_line motion_line;
      last_motion_line = some motion_line;
      max_line = max t.max_line motion_line;
    })
    else record t { motion_live = live }

unfoldable pub see_current : ℕ → ProgramInfo → Tracker → Tracker
see_current current_line prog t =
    let live = t.current_live || (ltb 0 current_line && not (current_line == t.stale_current)) in
    record t {
      current_live = live;
      end_seen = t.end_seen || (live && ltb 0 prog.end_line && leb prog.end_line current_line);
    }

-- A sample taken in the program. `current_line` of a subroutine counts as 0.
unfoldable pub sample : ℕ → ℕ → ProgramInfo → ℕ → Tracker → Tracker
sample motion_line current_line prog read_line t =
    let (motion, t₁) = sort_motion motion_line prog (note_read read_line prog t) in
    let current =
      if ltb 0 current_line && contains current_line t₁.sub_lines then 0 else current_line in
    see_current current prog (see_motion motion t₁)

-- `is_run_from_here`: none until the first new move is seen
unfoldable pub is_run_from_here : Tracker → ProgramInfo → Option Bool
is_run_from_here t prog = elim t.start_line [
  | none ↦ none
  | some start ↦ some (not (is_near_start prog start))
]

module _ ⦃fl : Floats⦄ where
  -- `CycleLineTracker.progress`
  unfoldable pub tracker_progress : Tracker → ProgramInfo → fl.Float
  tracker_progress t prog = elim t.start_line [
    | none ↦ fl.zero
    | some start ↦ program_progress prog t.max_line
  ]

-- `reached_end`, evaluated once the cycle has gone idle
unfoldable pub reached_end : Tracker → ProgramInfo → Bool
reached_end t prog =
    if t.end_seen
    then true
    else if t.from_sub
    then t.read_end
    else if prog.end_line == 0
    then false
    else if prog.tail_line == 0
    then true
    else elim t.last_motion_line [ none ↦ false | some last ↦ leb prog.tail_line last ]
