-- ===== src/Tracker/Scanned.antt =====
-- program_tracker.py: whatever loads and ends of scans come in whatever order, the landmarks are those of
-- the loaded file.

use text.Mathlib.Text.{◌==◌ as str_eq}
use text.Mathlib.TextEquality.{eq_iff}
use text.Mathlib.TextPositions.{eq_refl}
use linuxcnc_status_monitor.Common.{
  ℕ, ◌≡◌, ◌⊎◌, inl, inr, ap, refl, String, Bool, true, false, Option, List, [], ◌∷◌, ◌++◌,
  if◌then◌else◌, ltb, arith, if_rule, if_cases,
}
use linuxcnc_status_monitor.Tracker.Program.{Patterns, blank_info}
use linuxcnc_status_monitor.Tracker.Scanner.{
  Signature, Scanner, new_scanner, no_signature, same_signature, signature_of, scanned, scan,
  remove_scan, end_scan, load_changed, load,
}

abbrev pub IsIn : Signature → List Signature → Type 0
IsIn sig [] = ⊥
IsIn sig (x ∷ xs) = (same_signature sig x ≡ true) ⊎ IsIn sig xs

same_signature_refl : (a : Signature) → same_signature a a ≡ true
unfolding same_signature
same_signature_refl a = ground (arith, eq_refl a.path)

-- what is the same as a third thing is the same
same_signature_join :
    (a b x : Signature)
    → same_signature a x ≡ true
    → same_signature b x ≡ true
    → same_signature a b ≡ true
unfolding same_signature
same_signature_join a b x h k =
    ground (arith, eq_iff a.path x.path, eq_iff b.path x.path, eq_iff a.path b.path)

same_signature_sym : (a b : Signature) → same_signature a b ≡ true → same_signature b a ≡ true
same_signature_sym a b e = same_signature_join b a b (same_signature_refl b) e

same_signature-path : (a b : Signature) → same_signature a b ≡ true → a.path ≡ b.path
unfolding same_signature
same_signature-path a b h = (eq_iff a.path b.path).0 (ground arith)

contrast : (b : Bool) → b ≡ false → b ≡ true → ⊥
contrast b f t = cc

IsIn-remove_scan :
    (sig cur : Signature) (xs : List Signature)
    → same_signature sig cur ≡ false
    → IsIn cur xs
    → IsIn cur (remove_scan sig xs)
unfolding remove_scan
IsIn-remove_scan sig cur [] h k = k
IsIn-remove_scan sig cur (x ∷ xs) h (inl same) =
    if_cases (IsIn cur) (same_signature sig x)
      (λ e. absurd (contrast (same_signature sig cur) h (same_signature_join sig cur x e same)))
      (λ e. inl same)
IsIn-remove_scan sig cur (x ∷ xs) h (inr k) =
    if_rule (IsIn cur) (same_signature sig x) k (inr (IsIn-remove_scan sig cur xs h k))

-- what was read of files, the last first: for which signature, and the lines, if it could be read
abbrev pub Reads : Type 0
Reads = List (Signature × Option (List String))

abbrev pub WasRead : Signature → Option (List String) → Reads → Type 0
WasRead sig lines [] = ⊥
WasRead sig lines (x ∷ xs) = (same_signature sig x.0 ≡ true) × (lines ≡ x.1) ⊎ WasRead sig lines xs

-- what a load reads itself: a file with a new signature that is not too large
unfoldable pub reads_of : String → Option (ℕ × ℕ) → Option (List String) → Scanner → Reads
reads_of path stat lines s =
    if str_eq path ""
    then []
    else if same_signature (signature_of path stat) s.sig
    then []
    else if ltb s.background_bytes (signature_of path stat).size
    then []
    else (signature_of path stat, lines) ∷ []

module _ (p : Patterns) where
  -- nothing is loaded; or the scan is done and the landmarks are those of what was read for the
  -- signature of the loaded file; or the scan of the loaded file is still going on, and they are blank
  abbrev pub IsCurrent : Reads → Scanner → Type 0
  IsCurrent reads s =
      (s.done ≡ true) × (s.sig.path ≡ "") × (s.info ≡ blank_info "")
      ⊎ ((s.done ≡ true)
            × ((lines : Option (List String)) × (WasRead s.sig lines reads)
                × (s.info ≡ scanned p s.sig.path lines))
          ⊎ (s.done ≡ false) × (s.info ≡ blank_info s.sig.path) × IsIn s.sig s.scanning)

  scanned-IsCurrent :
      (sig : Signature) (lines : Option (List String)) (s : Scanner) (scanning : List Signature)
      (reads : Reads)
      → same_signature sig s.sig ≡ true
      → IsCurrent
          ((sig, lines) ∷ reads)
          (record s { info = scanned p sig.path lines; done = true; scanning = scanning })
  scanned-IsCurrent sig lines s scanning reads e = inr (
      inl (
        refl,
        (
          lines,
          inl (same_signature_sym sig s.sig e, refl),
          ap (λ path. scanned p path lines) (same_signature-path sig s.sig e),
        ),
      ))

  -- the end of a scan of another file
  others-IsCurrent :
      (sig : Signature) (lines : Option (List String)) (s : Scanner) (reads : Reads)
      → same_signature sig s.sig ≡ false
      → IsCurrent reads s
      → IsCurrent ((sig, lines) ∷ reads) (record s { scanning = remove_scan sig s.scanning })
  others-IsCurrent sig lines s reads e (inl c) = inl c
  others-IsCurrent sig lines s reads e (inr (inl (d, (l, was, i)))) = inr (inl (d, (l, inr was, i)))
  others-IsCurrent sig lines s reads e (inr (inr (d, i, k))) =
      inr (inr (d, i, IsIn-remove_scan sig s.sig s.scanning e k))

  end_scan-IsCurrent :
      (sig : Signature) (lines : Option (List String)) (s : Scanner) (reads : Reads)
      → IsCurrent reads s
      → IsCurrent ((sig, lines) ∷ reads) (end_scan p sig lines s)
  unfolding end_scan scan
  end_scan-IsCurrent sig lines s reads c =
      let rest = remove_scan sig s.scanning in
      if_cases (λ (x : Scanner). IsCurrent ((sig, lines) ∷ reads) (record x { scanning = rest }))
        (same_signature sig s.sig) (λ e. scanned-IsCurrent sig lines s rest reads e)
        (λ e. others-IsCurrent sig lines s reads e c)

  -- one test decides on what is read and on the scanner
  either :
      (reads : Reads) (b : Bool) (l l' : Reads) (s s' : Scanner)
      → IsCurrent (l ++ reads) s
      → IsCurrent (l' ++ reads) s'
      → IsCurrent ((if b then l else l') ++ reads) (if b then s else s')
  either reads true l l' s s' c d = c
  either reads false l l' s s' c d = d

  load-IsCurrent :
      (path : String) (stat : Option (ℕ × ℕ)) (lines : Option (List String)) (s : Scanner)
      (reads : Reads)
      → IsCurrent reads s
      → IsCurrent (reads_of path stat lines s ++ reads) (load p path stat lines s)
  unfolding load no_signature reads_of load_changed scan
  load-IsCurrent path stat lines s reads c =
      let sig = signature_of path stat in
      let s' = record s { sig = sig } in
      let self = same_signature_refl sig in
      let no_file = record s { info = blank_info ""; sig = no_signature; done = true } in
      let begun_scan = record s' {
        info = blank_info sig.path;
        done = false;
        scanning = sig ∷ s.scanning;
      } in
      let large = ltb s.background_bytes sig.size in
      let now =
        (if same_signature sig sig
          then record s' { info = scanned p sig.path lines; done = true }
          else s') in
      let read = (sig, lines) ∷ [] in
      either reads (str_eq path "") []
        (if same_signature sig s.sig then [] else if large then [] else read)
        (if str_eq s.sig.path "" then s else no_file)
        (if same_signature sig s.sig then s else if large then begun_scan else now)
        (if_rule (IsCurrent reads) (str_eq s.sig.path "") c (inl (refl, refl, refl)))
        (either reads (same_signature sig s.sig) [] (if large then [] else read) s
          (if large then begun_scan else now) c
          (either reads large [] read begun_scan now (inr (inr (refl, refl, inl self))) (
            if_cases (IsCurrent ((sig, lines) ∷ reads)) (same_signature sig sig)
              (λ e. scanned-IsCurrent sig lines s' s.scanning reads e)
              (λ e. absurd (contrast (same_signature sig sig) e self)))))

  -- loads, and ends of scans that go on, in any order, with what they read
  pub data Reached : Scanner → Reads → Type 0 where
    begun : (background_bytes : ℕ) → Reached (new_scanner background_bytes) []
    loaded :
        {s : Scanner} {reads : Reads}
        → Reached s reads
        → (path : String) (stat : Option (ℕ × ℕ)) (lines : Option (List String))
        → Reached (load p path stat lines s) (reads_of path stat lines s ++ reads)
    ended :
        {s : Scanner} {reads : Reads}
        → Reached s reads
        → (sig : Signature) (lines : Option (List String)) → IsIn sig s.scanning
        → Reached (end_scan p sig lines s) ((sig, lines) ∷ reads)

  -- In whatever order files are loaded and scans end, either nothing is loaded and the landmarks
  -- are blank; or the scanner is done, and the landmarks are those of lines that a load or a scan
  -- has read for the signature of the loaded file, or blank where that read failed; or it is not
  -- done, the landmarks are blank, and a scan of the loaded file is still going on.
  pub reached-IsCurrent : {s : Scanner} {reads : Reads} → Reached s reads → IsCurrent reads s
  reached-IsCurrent (begun n) = unfold new_scanner in unfold no_signature in inl (refl, refl, refl)
  reached-IsCurrent (loaded {s = s} {reads = reads} r path stat lines) =
      load-IsCurrent path stat lines s reads (reached-IsCurrent r)
  reached-IsCurrent (ended {s = s} {reads = reads} r sig lines k) =
      end_scan-IsCurrent sig lines s reads (reached-IsCurrent r)
