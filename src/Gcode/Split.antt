-- ===== src/Gcode/Split.antt =====
-- agent_gcode.py: `split_content`. A text is the list of its characters; `size` is the number of bytes
-- of a piece as JSON in UTF-8, which Python's json library computes.
use linuxcnc_status_monitor.Common.{
  ℕ, zero, suc, ◌+◌, ◌-◌, ◌/◌, min, Bool, true, false, List, [], ◌∷◌, length, take, drop, leb, ltb,
}

-- the binary search for the largest piece that fits, over the lengths `lo` to `hi`
unfoldable pub search : (ℕ → Bool) → ℕ → ℕ → ℕ → ℕ
search fits zero lo hi = lo
search fits (suc fuel) lo hi = elim (ltb lo hi) [
  | false ↦ lo
  | true ↦ elim (fits ((lo + hi + 1) / 2)) [
    | true ↦ search fits fuel ((lo + hi + 1) / 2) hi
    | false ↦ search fits fuel lo ((lo + hi + 1) / 2 - 1)
  ]
]

module _ {ℓ} {A : Type ℓ} (size : List A → ℕ) (budget max_chars : ℕ) where
  unfoldable pub fits : List A → Bool
  fits piece = leb (size piece) budget

  -- how many characters of the rest the next piece takes
  unfoldable pub piece_size : List A → ℕ
  unfolding fits search
  piece_size rest =
      let whole = min max_chars (length rest) in
      elim (fits (take whole rest)) [
        | true ↦ whole
        | false ↦ search (λ k. fits (take k rest)) whole 1 (whole - 1)
      ]

  -- the loop over the text
  unfoldable pub split_from : ℕ → List A → List (List A)
  split_from zero rest = []
  split_from (suc fuel) [] = []
  split_from (suc fuel) (c ∷ rest) =
      take (piece_size (c ∷ rest)) (c ∷ rest)
      ∷ split_from fuel (drop (piece_size (c ∷ rest)) (c ∷ rest))

  -- `pieces or [""]`
  unfoldable pub or_blank : List (List A) → List (List A)
  or_blank [] = [] ∷ []
  or_blank (p ∷ ps) = p ∷ ps

  unfoldable pub split_content : List A → List (List A)
  unfolding or_blank split_from
  split_content content = or_blank (split_from (length content) content)
