-- ===== src/Tracker/Tests.antt =====
-- program_tracker.py: the theorems at a concrete program of ten lines.
use text.Mathlib.Text.{◌==◌ as str_eq}
use linuxcnc_status_monitor.Common.{
  ◌≡◌, inr, refl, String, true, false, none, List, [], ◌∷◌, ◌++◌, if◌then◌else◌, arith,
}
use linuxcnc_status_monitor.Tracker.Program.{
  Patterns, ProgramInfo, from_lines, scan_from, scan_line, scan_code, is_motion, is_end, first_or,
  last_or,
}
use linuxcnc_status_monitor.Tracker.Lines.{begin, sample, is_run_from_here, reached_end}
use linuxcnc_status_monitor.Tracker.Start.{samples, stale_line_ignored}
use linuxcnc_status_monitor.Tracker.End.{
  inside, outside, follow, stopped_run_incomplete, end_line_completes,
}
use linuxcnc_status_monitor.Common.{some, inl, ◌≤◌, length}
use linuxcnc_status_monitor.Tracker.Scanner.{
  Signature, Scanner, new_scanner, no_signature, signature_of, same_signature, scan, end_scan,
  load_changed, load,
}
use linuxcnc_status_monitor.Tracker.Scanned.{
  IsIn, IsCurrent, reads_of, begun, loaded, ended, reached-IsCurrent,
}
use linuxcnc_status_monitor.Tracker.Macros.{max_files}
use linuxcnc_status_monitor.Tracker.MacroReads.{MoveRequest, answers, directs, answers-directs}

-- every line is "G1" (a move), "M30" (the end), "%" or something else
abbrev patterns : Patterns
patterns = record {
  skip = λ l. str_eq l "%";
  percent = λ l. str_eq l "%";
  code_part = λ l. l;
  is_blank = λ l. str_eq l "";
  end_word = λ l. str_eq l "M30";
  motion = λ l. str_eq l "G1";
  offset_only = λ l. false;
}

abbrev lines : List String
lines = "%" ∷ "G21" ∷ "G1" ∷ "G1" ∷ "G1" ∷ "M5" ∷ "M30" ∷ "G1" ∷ []

abbrev prog : ProgramInfo
prog = record {
  path = "a.ngc";
  first_exec_line = 2;
  first_motion_line = 3;
  tail_line = 5;
  end_line = 7;
  motion_mask = false ∷ false ∷ true ∷ true ∷ true ∷ false ∷ false ∷ true ∷ [];
}

from_lines_test : from_lines patterns lines "a.ngc" ≡ prog
unfolding from_lines scan_from scan_line scan_code is_motion is_end first_or last_or
from_lines_test = refl

stale_line_ignored_example :
    is_run_from_here (samples 5 prog ((2, 6) ∷ (3, 7) ∷ []) (begin 5 7)) prog ≡ none
stale_line_ignored_example = stale_line_ignored 5 7 prog ((2, 6) ∷ (3, 7) ∷ [])

stopped_run_incomplete_example :
    reached_end
      (follow prog (outside 3 3 5 ∷ inside 12 12 (12 ∷ []) ∷ outside 4 5 6 ∷ []) (begin 5 7))
      prog
    ≡ false
stopped_run_incomplete_example =
    stopped_run_incomplete prog 5 7 (outside 3 3 5 ∷ inside 12 12 (12 ∷ []) ∷ outside 4 5 6 ∷ [])
      (omega arith)
      ((omega arith, omega arith, omega arith), (tt, ((omega arith, omega arith, omega arith), tt)))

end_line_completes_example :
    reached_end (follow prog (outside 0 0 0 ∷ []) (sample 5 7 prog 7 (begin 4 4))) prog ≡ true
end_line_completes_example =
    end_line_completes prog (begin 4 4) 5 7 7 (outside 0 0 0 ∷ []) (omega arith) (omega arith)
      (inr (omega arith)) refl

abbrev folder : String → String
folder d = if str_eq d "/subs" then "/subs/" else d

-- a large file, whose scan ends after another file was loaded
abbrev large : Signature
large = record { path = "b.ngc"; mtime = 7; size = 2000 }

abbrev large_loaded : Scanner
large_loaded = load patterns "b.ngc" (some (7, 2000)) none (new_scanner 1000)

abbrev both_loaded : Scanner
both_loaded = load patterns "a.ngc" (some (5, 80)) (some lines) large_loaded

large_scanning : IsIn large both_loaded.scanning
unfolding new_scanner no_signature load load_changed signature_of same_signature scan
large_scanning = inl refl

reached-IsCurrent_example :
    IsCurrent patterns
      ((large, some []) ∷ reads_of "a.ngc" (some (5, 80)) (some lines) large_loaded
        ++ reads_of "b.ngc" (some (7, 2000)) none (new_scanner 1000)
        ++ [])
      (end_scan patterns large (some []) both_loaded)
unfolding reads_of same_signature load new_scanner
reached-IsCurrent_example = reached-IsCurrent patterns (
    ended
      (loaded (loaded (begun 1000) "b.ngc" (some (7, 2000)) none) "a.ngc" (some (5, 80))
        (some lines))
      large (some []) large_scanning)

abbrev macro : MoveRequest
macro = record { path = "m.ngc"; stat = some (record { mtime = 3; size = 40 }) }

answers-directs_example :
    ((answers patterns (λ path v. some lines) (macro ∷ macro ∷ []) []).0
      ≡ directs patterns (λ path v. some lines) (macro ∷ macro ∷ []))
    × (length (answers patterns (λ path v. some lines) (macro ∷ macro ∷ []) []).1 ≤ max_files)
answers-directs_example =
    answers-directs patterns (λ path v. some lines) (macro ∷ macro ∷ []) [] tt (omega arith)
