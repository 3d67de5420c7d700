-- ===== src/Tracker/Landmarks.antt =====
-- program_tracker.py: `ProgramInfo.from_lines` finds the first M2 / M30 line and the first and last
-- moves before it.
use mathlib.Core.List.{append-nil, append_assoc}
use linuxcnc_status_monitor.Common.{
  ℕ, zero, suc, ◌+◌, ◌≤◌, ◌<◌, ◌≡◌, ◌≢◌, ◌⊎◌, inl, inr, refl, ap, String, Bool, true, not, ◌&&◌,
  Option, none, some, List, [], ◌∷◌, ◌++◌, ◌∙◌, map, contains, ◌==◌, arith, if◌then◌else◌,
  Bool-cases, if_rule,
}
use linuxcnc_status_monitor.Tracker.Ascending.{
  IsAscending, IsAscending-weaken, first_or-le, le-last_or, contains-last_or, le-first_or,
}
use linuxcnc_status_monitor.Tracker.Program.{
  Patterns, ProgramInfo, Scan, empty_scan, last_or, is_motion, is_end, scan_line, scan_from,
  from_lines, mask_at, is_move_line,
}

-- the line with a 1-based number
abbrev pub line_at : List String → ℕ → Option String
line_at [] i = none
line_at (l ∷ ls) zero = none
line_at (l ∷ ls) (suc zero) = some l
line_at (l ∷ ls) (suc (suc i)) = line_at ls (suc i)

line_at-zero : (ls : List String) → line_at ls 0 ≡ none
line_at-zero [] = refl
line_at-zero (l ∷ ls) = refl

mask_at-map :
    (f : String → Bool) (ls : List String) (i : ℕ) {l : String}
    → line_at ls (suc i) ≡ some l
    → mask_at (map f ls) i ≡ f l
unfolding mask_at
mask_at-map f [] i at = cc
mask_at-map f (x ∷ ls) zero at = cc
mask_at-map f (x ∷ ls) (suc i) at = mask_at-map f ls i at

is_move_line-of_mask :
    (info : ProgramInfo) (f : String → Bool) (ls : List String) (line : ℕ) {l : String}
    → info.motion_mask ≡ map f ls
    → line_at ls line ≡ some l
    → is_move_line info line ≡ f l
unfolding is_move_line
is_move_line-of_mask info f [] line e at = cc
is_move_line-of_mask info f (x ∷ ls) zero e at = cc
is_move_line-of_mask info f (x ∷ ls) (suc i) e at =
    rw (e, is_move_line) (ground (arith, mask_at-map f (x ∷ ls) i at))

module _ (p : Patterns) where
  -- what one line is: a lone % is neither
  abbrev pub line_is_end : String → Bool
  line_is_end l = not (p.percent l) && is_end p (p.code_part l)

  abbrev pub line_is_move : String → Bool
  line_is_move l = not (p.percent l) && is_motion p (p.code_part l)

  -- the first line from `n` on with an end word, 0 if there is none
  abbrev pub first_end : ℕ → List String → ℕ
  first_end n [] = 0
  first_end n (l ∷ ls) = if line_is_end l then n else first_end (suc n) ls

  -- the move lines from `n` on that stand before the end line
  abbrev moves_from : ℕ → List String → List ℕ
  moves_from n [] = []
  moves_from n (l ∷ ls) =
      if line_is_end l
      then []
      else if line_is_move l
      then n ∷ moves_from (suc n) ls
      else moves_from (suc n) ls

  mask-scan_line :
      (n : ℕ) (l : String) (s : Scan) → (scan_line p n l s).mask ≡ s.mask ++ line_is_move l ∷ []
  unfolding scan_line
  mask-scan_line n l s = ground arith

  scan_line-ended :
      (n : ℕ) (l : String) (s : Scan)
      → s.end_word ≢ 0
      → ((scan_line p n l s).end_word ≡ s.end_word)
        × ((scan_line p n l s).motion_lines ≡ s.motion_lines)
  unfolding scan_line
  scan_line-ended n l s h = ground arith

  scan_line-running :
      (n : ℕ) (l : String) (s : Scan)
      → s.end_word ≡ 0
      → 0 < n
      → ((scan_line p n l s).end_word ≡ (if line_is_end l then n else 0))
        × ((scan_line p n l s).motion_lines ≡ (
            if line_is_end l
            then s.motion_lines
            else if line_is_move l
            then s.motion_lines ++ n ∷ []
            else s.motion_lines))
  unfolding scan_line
  scan_line-running n l s h pos = ground arith

  mask-scan_from :
      (n : ℕ) (ls : List String) (s : Scan)
      → (scan_from p n ls s).mask ≡ s.mask ++ map line_is_move ls
  unfolding scan_from
  mask-scan_from n [] s = rw append-nil
  mask-scan_from n (l ∷ ls) s =
      mask-scan_from (suc n) ls (scan_line p n l s)
      ∙ rw mask-scan_line (append_assoc s.mask (line_is_move l ∷ []) (map line_is_move ls))

  end_word-kept :
      (n : ℕ) (ls : List String) (s : Scan)
      → s.end_word ≢ 0
      → ((scan_from p n ls s).end_word ≡ s.end_word)
        × ((scan_from p n ls s).motion_lines ≡ s.motion_lines)
  unfolding scan_from
  end_word-kept n [] s h = (refl, refl)
  end_word-kept n (l ∷ ls) s h =
      ground (arith, scan_line-ended n l s h, end_word-kept (suc n) ls (scan_line p n l s))

  end_word-scan_from :
      (n : ℕ) (ls : List String) (s : Scan)
      → s.end_word ≡ 0
      → 0 < n
      → ((scan_from p n ls s).end_word ≡ first_end n ls)
        × ((scan_from p n ls s).motion_lines ≡ s.motion_lines ++ moves_from n ls)
  unfolding scan_from
  end_word-scan_from n [] s h pos = (h, rw append-nil)
  end_word-scan_from n (l ∷ ls) s h pos = ground (
    arith,
    scan_line-running n l s h pos,
    end_word-kept (suc n) ls (scan_line p n l s),
    end_word-scan_from (suc n) ls (scan_line p n l s),
    append_assoc s.motion_lines (n ∷ []) (moves_from (suc n) ls),
    append-nil s.motion_lines,
  )

  moves_from-IsAscending : (n : ℕ) (ls : List String) → IsAscending n (moves_from n ls)
  moves_from-IsAscending n [] = tt
  moves_from-IsAscending n (l ∷ ls) = if_rule (IsAscending n) (line_is_end l) tt (
      if_rule (IsAscending n) (line_is_move l) (omega arith, moves_from-IsAscending (suc n) ls)
        (IsAscending-weaken n (suc n) _ (omega arith) (moves_from-IsAscending (suc n) ls)))

  -- what is listed is exactly the moves before the end
  contains-moves_from :
      (n i j : ℕ) (ls : List String) {l : String}
      → 0 < n
      → j ≡ n + i
      → line_at ls (suc i) ≡ some l
      → line_is_move l ≡ true
      → (first_end n ls ≡ 0) ⊎ (j < first_end n ls)
      → contains j (moves_from n ls) ≡ true
  contains-moves_from n i j [] pos eq at m e = cc
  contains-moves_from n zero j (x ∷ ls) pos eq at m e = ground arith
  contains-moves_from n (suc i) j (x ∷ ls) pos eq at m e =
      ground (arith, λ (d : j ≡ suc n + i). contains-moves_from (suc n) i j ls (omega arith) d at m)

  first_end-cases :
      (n : ℕ) (ls : List String) → (first_end (suc n) ls ≡ 0) ⊎ (n < first_end (suc n) ls)
  first_end-cases n [] = inl refl
  first_end-cases n (l ∷ ls) = ground (arith, first_end-cases (suc n) ls)

  moves_from_sound :
      (n j : ℕ) (ls : List String)
      → contains j (moves_from n ls) ≡ true
      → (i : ℕ) × (l : String) × (j ≡ n + i)
        × (line_at ls (suc i) ≡ some l)
        × (line_is_move l ≡ true)
        × ((first_end n ls ≡ 0) ⊎ (j < first_end n ls))
  moves_from_sound n j [] h = cc
  moves_from_sound n j (l ∷ ls) h = elim (Bool-cases (line_is_end l)) [
    | inl ended ↦ absurd (ground arith)
    | inr going ↦ elim (Bool-cases (line_is_move l && n == j)) [
      | inl here ↦ (0, l, ground arith, refl, ground arith, ground (arith, first_end-cases n ls))
      | inr later ↦
          let (i, l', eq, at, m, e) = moves_from_sound (suc n) j ls (ground arith) in
          (suc i, l', omega arith, at, m, rw going e)
    ]
  ]

  module _ (lines : List String) (path : String) where
    abbrev info : ProgramInfo
    info = from_lines p lines path

    -- The mask has one entry per line, and it says which lines have a move.
    pub motion_mask-from_lines : info.motion_mask ≡ map line_is_move lines
    unfolding from_lines
    motion_mask-from_lines = mask-scan_from 1 lines empty_scan

    -- With an M2 or M30 in the file, the end line is the first line that holds one.
    pub end_line-from_lines : first_end 1 lines ≢ 0 → info.end_line ≡ first_end 1 lines
    unfolding from_lines
    end_line-from_lines h =
        ground (arith, (end_word-scan_from 1 lines empty_scan refl (omega arith)).0)

    lines_lem : (scan_from p 1 lines empty_scan).motion_lines ≡ moves_from 1 lines
    lines_lem = (end_word-scan_from 1 lines empty_scan refl (omega arith)).1

    -- Every move line before the program end lies between the first move line and the tail line.
    pub moves_between :
        (line : ℕ) {l : String}
        → line_at lines line ≡ some l
        → line_is_move l ≡ true
        → (first_end 1 lines ≡ 0) ⊎ (line < first_end 1 lines)
        → (0 < info.first_motion_line) × (info.first_motion_line ≤ line) × (line ≤ info.tail_line)
    unfolding from_lines
    moves_between zero at m before = cc (line_at-zero lines)
    moves_between (suc i) at m before =
        let listed =
          contains-moves_from 1 i (suc i) lines (omega arith) (omega arith) at m before in
        let up = moves_from-IsAscending 1 lines in
        rw lines_lem (
          le-first_or 1 (suc i) _ up listed,
          first_or-le 1 (suc i) _ up listed,
          le-last_or 1 (suc i) _ up listed,
        )

    -- The tail line, where there is one, is a move line before the program end.
    pub tail_is_last_move :
        info.tail_line ≢ 0
        → (l : String) × (line_at lines info.tail_line ≡ some l)
          × (line_is_move l ≡ true)
          × ((first_end 1 lines ≡ 0) ⊎ (info.tail_line < first_end 1 lines))
    unfolding from_lines
    tail_is_last_move h =
        let last = contains-last_or (moves_from 1 lines) (rw lines_lem at h) in
        let (i, l, eq, at, m, before) =
          moves_from_sound 1 (last_or (moves_from 1 lines)) lines last in
        let same : last_or (moves_from 1 lines) ≡ suc i = omega arith in
        rw lines_lem (l, ap (line_at lines) same ∙ at, m, before)

    -- After the scan `is_move_line` answers for every line of the file what the line is.
    pub is_move_line-from_lines :
        (line : ℕ) {l : String}
        → line_at lines line ≡ some l
        → is_move_line info line ≡ line_is_move l
    is_move_line-from_lines line at =
        is_move_line-of_mask info line_is_move lines line motion_mask-from_lines at
