-- ===== src/Tracker/Program.antt =====
-- program_tracker.py: `ProgramInfo`, the line landmarks of one G-code file.
-- Line numbers are 1-based; the source's -1 for "not found" is 0 here, since every test of it in the
-- source is `<= 0`, `> 0` or `== -1`.
use linuxcnc_status_monitor.Common.{
  ℕ, zero, suc, ◌+◌, ◌-◌, ◌/◌, max, String, Bool, true, false, not, ◌&&◌, List, [], ◌∷◌, ◌++◌, ltb,
  leb, ◌==◌, if◌then◌else◌,
}
use linuxcnc_status_monitor.Common.Floats.{Floats}
use linuxcnc_status_monitor.Cycle.State.{fmax, fmin}

-- The answers of Python's `re` and `str` for one stripped line: the module's regular expressions
-- are applied by the library, so they are parameters.
pub record Patterns : Type 0 where
  pub skip : String → Bool
  pub percent : String → Bool
  -- `_code_part`: the line without its comments
  pub code_part : String → String
  pub is_blank : String → Bool
  pub end_word : String → Bool
  pub motion : String → Bool
  pub offset_only : String → Bool

pub record ProgramInfo : Type 0 where
  pub path : String
  pub first_exec_line : ℕ
  pub first_motion_line : ℕ
  pub tail_line : ℕ
  pub end_line : ℕ
  -- one entry per line: does the line have a move (empty = not scanned)
  pub motion_mask : List Bool

-- `ProgramInfo(path=path)`
abbrev pub blank_info : String → ProgramInfo
blank_info path = record {
  path = path;
  first_exec_line = 1;
  first_motion_line = 0;
  tail_line = 0;
  end_line = 0;
  motion_mask = [];
}

-- the local variables of the loop in `from_lines`
pub record Scan : Type 0 where
  pub first_exec : ℕ
  pub motion_lines : List ℕ
  pub end_word : ℕ
  pub last_percent : ℕ
  pub mask : List Bool

abbrev pub empty_scan : Scan
empty_scan = record { first_exec = 0; motion_lines = []; end_word = 0; last_percent = 0; mask = [] }

-- `xs[0]` or `xs[-1]` if there is one, else "not found"
unfoldable pub first_or : List ℕ → ℕ
first_or [] = 0
first_or (x ∷ xs) = x

unfoldable pub last_or : List ℕ → ℕ
last_or [] = 0
last_or (x ∷ []) = x
last_or (x ∷ y ∷ xs) = last_or (y ∷ xs)

-- `mask[i]`, false out of range
unfoldable pub mask_at : List Bool → ℕ → Bool
mask_at [] i = false
mask_at (b ∷ mask) zero = b
mask_at (b ∷ mask) (suc i) = mask_at mask i

module _ (p : Patterns) where
  -- `_is_motion`
  unfoldable pub is_motion : String → Bool
  is_motion code = not (p.is_blank code) && p.motion code && not (p.offset_only code)

  -- the test for the program's end word
  unfoldable pub is_end : String → Bool
  is_end code = not (p.is_blank code) && p.end_word code

  -- the rest of the loop body, for a line that is not a lone %
  unfoldable pub scan_code : ℕ → String → Scan → Scan
  scan_code lineno code s =
      let s' = record s {
        end_word = if s.end_word == 0 && is_end code then lineno else s.end_word;
      } in
      if is_motion code
      then (record s' {
        mask = s'.mask ++ true ∷ [];
        motion_lines = if s'.end_word == 0 then s'.motion_lines ++ lineno ∷ [] else s'.motion_lines;
      })
      else record s' { mask = s'.mask ++ false ∷ [] }

  unfoldable pub scan_line : ℕ → String → Scan → Scan
  unfolding scan_code
  scan_line lineno stripped s =
      let s' = record s {
        first_exec = if s.first_exec == 0 && not (p.skip stripped) then lineno else s.first_exec;
      } in
      if p.percent stripped
      then record s' { last_percent = lineno; mask = s'.mask ++ false ∷ [] }
      else scan_code lineno (p.code_part stripped) s'

  unfoldable pub scan_from : ℕ → List String → Scan → Scan
  scan_from lineno [] s = s
  scan_from lineno (stripped ∷ lines) s = scan_from (suc lineno) lines (scan_line lineno stripped s)

  -- `ProgramInfo.from_lines`, of the stripped lines
  unfoldable pub from_lines : List String → String → ProgramInfo
  unfolding first_or last_or
  from_lines lines path =
      let s = scan_from 1 lines empty_scan in
      record {
        path = path;
        first_exec_line = if s.first_exec == 0 then 1 else s.first_exec;
        first_motion_line = first_or s.motion_lines;
        tail_line = last_or s.motion_lines;
        end_line =
            if not (s.end_word == 0)
            then s.end_word
            else if ltb (max s.first_exec 1) s.last_percent
            then s.last_percent
            else 0;
        motion_mask = s.mask;
      }

-- `ProgramInfo.is_move_line`
unfoldable pub is_move_line : ProgramInfo → ℕ → Bool
is_move_line info line = elim info.motion_mask [
  | [] ↦ true
  | _ ∷ _ ↦ ltb 0 line && mask_at info.motion_mask (line - 1)
]

-- `ProgramInfo.start_tolerance`
unfoldable pub start_tolerance : ProgramInfo → ℕ
start_tolerance info = max 5 ((info.tail_line - info.first_motion_line) / 50)

-- `ProgramInfo.is_near_start`
unfoldable pub is_near_start : ProgramInfo → ℕ → Bool
is_near_start info line =
    if info.first_motion_line == 0
    then true
    else leb line (info.first_motion_line + start_tolerance info)

module _ ⦃fl : Floats⦄ where
  open fl use {Float, zero as fzero, one as fone, ratio}

  -- `ProgramInfo.progress`. Before the first move the quotient of the source is negative and clamped
  -- to 0.0; here the truncated difference gives the quotient 0.
  unfoldable pub program_progress : ProgramInfo → ℕ → Float
  program_progress info line =
      if info.first_motion_line == 0
      then fzero
      else if info.tail_line == 0
      then fzero
      else if leb info.tail_line info.first_motion_line
      then (if leb info.tail_line line then fone else fzero)
      else fmin fone (
          fmax fzero
            (ratio (line - info.first_motion_line) (info.tail_line - info.first_motion_line)))
