-- ===== src/Tracker/Macros.antt =====
-- program_tracker.py: `MacroMoves`, the move lines of subroutine files, read once for each version of a
-- file.
use text.Mathlib.Text.{◌==◌ as str_eq}
use linuxcnc_status_monitor.Common.{
  ℕ, suc, ◌*◌, String, Bool, ◌&&◌, Option, none, some, List, [], ◌∷◌, length, leb, ◌==◌,
  if◌then◌else◌,
}
use linuxcnc_status_monitor.Tracker.Program.{Patterns, from_lines}

abbrev pub max_bytes : ℕ
max_bytes = 256 * 1024

abbrev pub max_files : ℕ
max_files = 32

-- modification time and size
pub record Version : Type 0 where
  pub mtime : ℕ
  pub size : ℕ

pub record Cached : Type 0 where
  pub path : String
  pub version : Version
  pub moves : List ℕ

-- the numbers, from `n` on, of the lines with a move
unfoldable pub move_numbers : ℕ → List Bool → List ℕ
move_numbers n [] = []
move_numbers n (b ∷ mask) = let rest = move_numbers (suc n) mask in if b then n ∷ rest else rest

unfoldable pub same_version : Version → Version → Bool
same_version v w = v.mtime == w.mtime && v.size == w.size

-- `self._cache.get(path)`
unfoldable pub find : String → List Cached → Option Cached
find path [] = none
find path (c ∷ cache) = let rest = find path cache in if str_eq path c.path then some c else rest

-- `self._cache[path] = ...`
unfoldable pub put : Cached → List Cached → List Cached
put c [] = c ∷ []
put c (d ∷ cache) = let rest = put c cache in if str_eq c.path d.path then c ∷ cache else d ∷ rest

-- the hit, if it is of this version
unfoldable pub hit_of : Version → Option Cached → Option (List ℕ)
unfolding same_version
hit_of v none = none
hit_of v (some c) = if same_version c.version v then some c.moves else none

-- room for one more file
unfoldable pub make_room : List Cached → List Cached
make_room cache = if leb max_files (length cache) then [] else cache

module _ (p : Patterns) where
  -- the moves of a file that is not too large, from the lines that are read if it can be opened
  unfoldable pub read_moves : Version → Option (List String) → List ℕ
  unfolding move_numbers
  read_moves v none = []
  read_moves v (some lines) =
      if leb v.size max_bytes then move_numbers 1 (from_lines p lines "").motion_mask else []

  unfoldable pub look_up :
      String → Version → Option (List String) → Option (List ℕ) → List Cached → List ℕ × List Cached
  unfolding read_moves put make_room
  look_up path v lines (some moves) cache = (moves, cache)
  look_up path v lines none cache =
      let moves = read_moves v lines in
      (moves, put (record { path = path; version = v; moves = moves }) (make_room cache))

  -- `lines`, for what `os.stat` gives and the lines that a read would find
  unfoldable pub lines :
      String → Option Version → Option (List String) → List Cached → List ℕ × List Cached
  unfolding look_up hit_of find
  lines path stat content cache = if str_eq path "" then ([], cache) else elim stat [
    | none ↦ ([], cache)
    | some v ↦ look_up path v content (hit_of v (find path cache)) cache
  ]
