-- ===== src/Tracker/File.antt =====
-- program_tracker.py: `ProgramFile`, which file is the loaded program, and what its answer means.
-- `os.path` is not modelled: `realpath` is `os.path.realpath`, and `folder_prefix` is the real path of
-- a folder with the separator at its end.
use text.Mathlib.Text.{◌==◌ as str_eq, starts_with}
use text.Mathlib.TextEquality.{eq_iff}
use linuxcnc_status_monitor.Common.{
  ℕ, String, Bool, true, false, not, ◌&&◌, ◌||◌, ltb, if◌then◌else◌, ◌≡◌, ◌≢◌, ◌↔◌, arith, List, [],
  ◌∷◌,
}

module _ (realpath folder_prefix : String → String) where
  -- `set_dirs`: empty names are dropped
  unfoldable pub set_dirs : List String → List String
  set_dirs [] = []
  set_dirs (d ∷ ds) = if str_eq d "" then set_dirs ds else folder_prefix d ∷ set_dirs ds

  -- `str.startswith` with a tuple
  unfoldable pub starts_with_any : String → List String → Bool
  starts_with_any path [] = false
  starts_with_any path (d ∷ ds) = starts_with path d || starts_with_any path ds

  -- `is_subroutine_file`
  unfoldable pub is_subroutine_file : List String → String → Bool
  is_subroutine_file [] path = false
  is_subroutine_file (d ∷ ds) path =
      not (str_eq path "") && starts_with_any (realpath path) (d ∷ ds)

  -- `update`: from the program before to the new program, with `in_subroutine`
  unfoldable pub update_program : List String → String → String → ℕ → Bool → String × Bool
  update_program dirs program file call_level busy =
      let sub = ltb 0 call_level || is_subroutine_file dirs file in
      let program' =
        (if str_eq file ""
          then (if busy then program else "")
          else if not sub || str_eq file program
          then file
          else if not busy && str_eq program ""
          then file
          else program) in
      (program', sub && not (str_eq file program'))

  module _ (dirs : List String) (program file : String) (call_level : ℕ) (busy : Bool) where
    abbrev updated : String × Bool
    updated = update_program dirs program file call_level busy

    -- With a file name given, the answer is 'not in a subroutine' exactly when the file is the
    -- loaded program.
    pub update_program-lines : file ≢ "" → (updated.1 ≡ false) ↔ (updated.0 ≡ file)
    unfolding update_program
    update_program-lines named =
        ground (arith, eq_iff file "", eq_iff file program, eq_iff file file)

    -- During a run, a subroutine file or a call level above 0 never changes the loaded program.
    pub update_program-busy :
        busy ≡ true
        → (ltb 0 call_level || is_subroutine_file dirs file ≡ true)
        → updated.0 ≡ program
    unfolding update_program
    update_program-busy b sub = ground (arith, eq_iff file program)
