-- ===== src/Tracker/Ascending.antt =====
-- Ascending lists of line numbers, and their first and last elements.

use linuxcnc_status_monitor.Common.{
  ℕ, suc, ◌≤◌, ◌≡◌, ◌≢◌, refl, true, List, [], ◌∷◌, contains, arith,
}
use linuxcnc_status_monitor.Tracker.Program.{first_or, last_or}

-- every element is larger than the one before, and the first is at least `n`
abbrev pub IsAscending : ℕ → List ℕ → Type 0
IsAscending n [] = Unit {0}
IsAscending n (x ∷ xs) = (n ≤ x) × IsAscending (suc x) xs

pub IsAscending-weaken : (m n : ℕ) (xs : List ℕ) → m ≤ n → IsAscending n xs → IsAscending m xs
IsAscending-weaken m n [] h a = tt
IsAscending-weaken m n (x ∷ xs) h a = (omega arith, a.1)

pub le_of_contains : (n i : ℕ) (xs : List ℕ) → IsAscending n xs → contains i xs ≡ true → n ≤ i
le_of_contains n i [] a h = cc
le_of_contains n i (x ∷ xs) a h = ground (arith, le_of_contains (suc x) i xs a.1)

pub le-first_or :
    (n i : ℕ) (xs : List ℕ) → IsAscending n xs → contains i xs ≡ true → n ≤ first_or xs
unfolding first_or
le-first_or n i [] a h = cc
le-first_or n i (x ∷ xs) a h = a.0

pub first_or-le :
    (n i : ℕ) (xs : List ℕ) → IsAscending n xs → contains i xs ≡ true → first_or xs ≤ i
unfolding first_or
first_or-le n i [] a h = cc
first_or-le n i (x ∷ xs) a h = ground (arith, le_of_contains (suc x) i xs a.1)

pub le-last_or : (n i : ℕ) (xs : List ℕ) → IsAscending n xs → contains i xs ≡ true → i ≤ last_or xs
unfolding last_or
le-last_or n i [] a h = cc
le-last_or n i (x ∷ []) a h = ground arith
le-last_or n i (x ∷ y ∷ xs) a h =
    ground (arith, le-last_or (suc x) i (y ∷ xs) a.1, le-last_or (suc x) y (y ∷ xs) a.1)

pub contains-last_or : (xs : List ℕ) → last_or xs ≢ 0 → contains (last_or xs) xs ≡ true
unfolding last_or
contains-last_or [] h = absurd (h refl)
contains-last_or (x ∷ []) h = ground arith
contains-last_or (x ∷ y ∷ xs) h = ground (arith, contains-last_or (y ∷ xs) h)
