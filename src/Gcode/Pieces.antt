-- ===== src/Gcode/Pieces.antt =====
-- agent_gcode.py: what `split_content` promises of its pieces.

use linuxcnc_status_monitor.Common.{
  ℕ, zero, suc, ◌+◌, ◌-◌, ◌/◌, ◌≤◌, ◌<◌, ◌≡◌, ◌⊎◌, ◌∙◌, inl, inr, refl, min, Bool, true, false,
  List, [], ◌∷◌, ◌++◌, length, take, drop, length-take, length-drop, take-append-drop, arith,
}
use linuxcnc_status_monitor.Gcode.Split.{
  search, fits, piece_size, split_from, or_blank, split_content,
}

module _ (test : ℕ → Bool) where
  search-bounds :
      (fuel lo hi : ℕ)
      → (lo ≤ search test fuel lo hi)
        × ((search test fuel lo hi ≤ hi) ⊎ (search test fuel lo hi ≡ lo))
  unfolding search
  search-bounds zero lo hi = (omega arith, inr refl)
  search-bounds (suc fuel) lo hi =
      let mid = (lo + hi + 1) / 2 in
      ground (arith, search-bounds fuel mid hi, search-bounds fuel lo (mid - 1))

  -- the search stays at its start, or it stops at a length that passes the test
  search-passes :
      (fuel lo hi : ℕ) → (search test fuel lo hi ≡ lo) ⊎ (test (search test fuel lo hi) ≡ true)
  unfolding search
  search-passes zero lo hi = inl refl
  search-passes (suc fuel) lo hi =
      let mid = (lo + hi + 1) / 2 in
      ground (arith, search-passes fuel mid hi, search-passes fuel lo (mid - 1))

  -- with fuel for the whole range and a test that only longer pieces fail, the search ends at the
  -- largest length that passes
  search-largest :
      ((i j : ℕ) → i ≤ j → test j ≡ true → test i ≡ true)
      → (fuel lo hi k : ℕ) → hi - lo ≤ fuel
      → search test fuel lo hi < k
      → k ≤ hi
      → test k ≡ false
  unfolding search
  search-largest mono zero lo hi k enough above le = absurd (omega arith)
  search-largest mono (suc fuel) lo hi k enough above le =
      let mid = (lo + hi + 1) / 2 in
      ground (
        arith,
        search-largest mono fuel mid hi k,
        search-largest mono fuel lo (mid - 1) k,
        mono mid k,
      )

-- the pieces one after the other
abbrev pub joined {ℓ} : {A : Type ℓ} → List (List A) → List A
joined [] = []
joined (p ∷ ps) = p ++ joined ps

module _ {ℓ} {A : Type ℓ} (size : List A → ℕ) (budget max_chars : ℕ) where
  piece_size-bounds :
      (c : A) (rest : List A)
      → 1 ≤ max_chars
      → (1 ≤ piece_size size budget max_chars (c ∷ rest))
        × (piece_size size budget max_chars (c ∷ rest) ≤ max_chars)
        × (piece_size size budget max_chars (c ∷ rest) ≤ length (c ∷ rest))
  unfolding piece_size
  piece_size-bounds c rest some_chars =
      let whole = min max_chars (length (c ∷ rest)) in
      ground (
        arith,
        search-bounds (λ k. fits size budget max_chars (take k (c ∷ rest))) whole 1 (whole - 1),
      )

  piece_size-passes :
      (rest : List A)
      → (piece_size size budget max_chars rest ≡ 1)
        ⊎ (fits size budget max_chars (take (piece_size size budget max_chars rest) rest) ≡ true)
  unfolding piece_size
  piece_size-passes rest =
      let whole = min max_chars (length rest) in
      ground
        (arith, search-passes (λ k. fits size budget max_chars (take k rest)) whole 1 (whole - 1))

  -- Where a longer beginning of the text is never smaller, the binary search ends at the longest
  -- piece that fits: every longer one within max_chars is over the budget.
  pub piece_size-largest :
      (rest : List A) (k : ℕ)
      → ((i j : ℕ) → i ≤ j → size (take i rest) ≤ size (take j rest))
      → piece_size size budget max_chars rest < k
      → k ≤ min max_chars (length rest)
      → fits size budget max_chars (take k rest) ≡ false
  unfolding piece_size fits
  piece_size-largest rest k mono above le =
      let whole = min max_chars (length rest) in
      let test : ℕ → Bool = λ n. fits size budget max_chars (take n rest) in
      let passes : (i j : ℕ) → i ≤ j → test j ≡ true → test i ≡ true =
        λ i j h t. ground (arith, mono i j h) in
      ground (arith, search-largest test passes whole 1 (whole - 1) k)

  joined-split_from :
      (fuel : ℕ) (content : List A)
      → 1 ≤ max_chars
      → length content ≤ fuel
      → joined (split_from size budget max_chars fuel content) ≡ content
  unfolding split_from
  joined-split_from zero [] some_chars enough = refl
  joined-split_from zero (c ∷ rest) some_chars enough = absurd (omega arith)
  joined-split_from (suc fuel) [] some_chars enough = refl
  joined-split_from (suc fuel) (c ∷ rest) some_chars enough =
      let n = piece_size size budget max_chars (c ∷ rest) in
      let b = piece_size-bounds c rest some_chars in
      let shorter : length (drop n (c ∷ rest)) ≤ fuel = omega (arith, length-drop n (c ∷ rest)) in
      rw (joined-split_from fuel (drop n (c ∷ rest)) some_chars shorter)
        (take-append-drop n (c ∷ rest))

  joined-or_blank : (ps : List (List A)) → joined (or_blank size budget max_chars ps) ≡ joined ps
  unfolding or_blank
  joined-or_blank [] = refl
  joined-or_blank (p ∷ ps) = refl

  -- With at least one character allowed per piece, the pieces of a text, one after the other, are
  -- the text.
  pub joined-split_content :
      (content : List A)
      → 1 ≤ max_chars
      → joined (split_content size budget max_chars content) ≡ content
  unfolding split_content
  joined-split_content content some_chars =
      joined-or_blank (split_from size budget max_chars (length content) content)
      ∙ joined-split_from (length content) content some_chars (omega arith)

  -- every piece is within the budget and within `max_chars`
  abbrev pub AllFit : List (List A) → Type 0
  AllFit [] = Unit {0}
  AllFit (p ∷ ps) = ((size p ≤ budget) × (length p ≤ max_chars)) × AllFit ps

  split_from-AllFit :
      (fuel : ℕ) (content : List A)
      → 1 ≤ max_chars
      → ((c : A) → size (c ∷ []) ≤ budget)
      → AllFit (split_from size budget max_chars fuel content)
  unfolding split_from
  split_from-AllFit zero content some_chars one = tt
  split_from-AllFit (suc fuel) [] some_chars one = tt
  split_from-AllFit (suc fuel) (c ∷ rest) some_chars one =
      let n = piece_size size budget max_chars (c ∷ rest) in
      let b = piece_size-bounds c rest some_chars in
      let within : size (take n (c ∷ rest)) ≤ budget = elim (piece_size-passes (c ∷ rest)) [
        | inl single ↦ rw single (one c)
        | inr passes ↦ unfold fits in ground arith
      ] in
      (
        (within, omega (arith, length-take n (c ∷ rest))),
        split_from-AllFit fuel (drop n (c ∷ rest)) some_chars one,
      )

  -- Where the empty text and every single character fit in the budget and at least one character
  -- is allowed per piece, every piece is within the budget and within max_chars.
  pub split_content-AllFit :
      (content : List A)
      → 1 ≤ max_chars
      → size [] ≤ budget
      → ((c : A) → size (c ∷ []) ≤ budget)
      → AllFit (split_content size budget max_chars content)
  unfolding split_content or_blank
  split_content-AllFit [] some_chars none_fits one = ((none_fits, omega arith), tt)
  split_content-AllFit (c ∷ rest) some_chars none_fits one =
      split_from-AllFit (length (c ∷ rest)) (c ∷ rest) some_chars one
