-- ===== src/Tracker/Scanner.antt =====
-- program_tracker.py: `ProgramScanner`, which keeps the landmarks of the loaded file. A large file is
-- scanned on a thread of its own: `scanning` holds the scans that have begun there, and `end_scan` is
-- the end of one of them.
use text.Mathlib.Text.{◌==◌ as str_eq}
use linuxcnc_status_monitor.Common.{
  ℕ, String, Bool, true, false, ◌&&◌, Option, none, some, List, [], ◌∷◌, ltb, ◌==◌, if◌then◌else◌,
}
use linuxcnc_status_monitor.Tracker.Program.{Patterns, ProgramInfo, blank_info, from_lines}

-- path, modification time and size
pub record Signature : Type 0 where
  pub path : String
  pub mtime : ℕ
  pub size : ℕ

pub record Scanner : Type 0 where
  pub info : ProgramInfo
  pub sig : Signature
  pub background_bytes : ℕ
  pub done : Bool
  pub scanning : List Signature

unfoldable pub no_signature : Signature
no_signature = record { path = ""; mtime = 0; size = 0 }

unfoldable pub new_scanner : ℕ → Scanner
unfolding no_signature
new_scanner background_bytes = record {
  info = blank_info "";
  sig = no_signature;
  background_bytes = background_bytes;
  done = true;
  scanning = [];
}

unfoldable pub same_signature : Signature → Signature → Bool
same_signature a b = str_eq a.path b.path && a.mtime == b.mtime && a.size == b.size

-- what `os.stat` gives, or nothing if it raises
unfoldable pub signature_of : String → Option (ℕ × ℕ) → Signature
signature_of path none = record { path = path; mtime = 0; size = 0 }
signature_of path (some (mtime, size)) = record { path = path; mtime = mtime; size = size }

-- the scans without the first one of a signature
unfoldable pub remove_scan : Signature → List Signature → List Signature
unfolding same_signature
remove_scan sig [] = []
remove_scan sig (x ∷ xs) = if same_signature sig x then xs else x ∷ remove_scan sig xs

module _ (p : Patterns) where
  -- what a scan makes of the lines, or of a file that cannot be read
  unfoldable pub scanned : String → Option (List String) → ProgramInfo
  scanned path none = blank_info path
  scanned path (some lines) = from_lines p lines path

  -- `_scan`, for the lines that it reads
  unfoldable pub scan : Signature → Option (List String) → Scanner → Scanner
  unfolding scanned same_signature
  scan sig lines s =
      if same_signature sig s.sig
      then record s { info = scanned sig.path lines; done = true }
      else s

  -- a scan on a thread of its own ends
  unfoldable pub end_scan : Signature → Option (List String) → Scanner → Scanner
  unfolding scan remove_scan
  end_scan sig lines s = record (scan sig lines s) { scanning = remove_scan sig s.scanning }

  unfoldable pub load_changed : Signature → Option (List String) → Scanner → Scanner
  unfolding scan
  load_changed sig lines s =
      let s' = record s { sig = sig } in
      if ltb s.background_bytes sig.size
      then record s' { info = blank_info sig.path; done = false; scanning = sig ∷ s.scanning }
      else scan sig lines s'

  -- `load`, for what `os.stat` gives and the lines that a scan at once would read
  unfoldable pub load : String → Option (ℕ × ℕ) → Option (List String) → Scanner → Scanner
  unfolding load_changed signature_of same_signature no_signature
  load path stat lines s =
      if str_eq path ""
      then if str_eq s.sig.path ""
        then s
        else record s { info = blank_info ""; sig = no_signature; done = true }
      else if same_signature (signature_of path stat) s.sig
      then s
      else load_changed (signature_of path stat) lines s
