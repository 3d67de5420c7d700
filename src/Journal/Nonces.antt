-- ===== src/Journal/Nonces.antt =====
-- agent_journal.py: `_fresh_nonce` remembers a nonce until 4,096 others have come.

use text.Mathlib.TextPositions.{eq_refl}
use mathlib.Core.List.{append_assoc}
use linuxcnc_status_monitor.Common.{
  ℕ, zero, suc, ◌+◌, ◌-◌, ◌≤◌, ◌≡◌, refl, not, ◌&&◌, ◌||◌, leb, if_rule, if_cases, String, Bool,
  true, false, Option, none, some, List, [], ◌∷◌, ◌++◌, length, drop, length-append, arith, ap, ◌∙◌,
}
use linuxcnc_status_monitor.Journal.Reply.{max_nonces, known_nonce, fresh_nonce}

-- the nonce is among the last ones, with at most so many after it
abbrev pub Remembers : String → ℕ → List String → Type 0
Remembers n later seen =
    (before : List String) × ((after : List String) × (seen ≡ before ++ n ∷ after)
      × (length after ≤ later))

drop-before :
    (n : String) (k : ℕ) (before after : List String)
    → k ≤ length before
    → drop k (before ++ n ∷ after) ≡ drop k before ++ n ∷ after
drop-before n zero [] after le = refl
drop-before n zero (x ∷ before) after le = refl
drop-before n (suc k) [] after le = absurd (omega arith)
drop-before n (suc k) (x ∷ before) after le = drop-before n k before after (omega arith)

Remembers-known :
    (n : String) (before after : List String) → known_nonce n (before ++ n ∷ after) ≡ true
unfolding known_nonce
Remembers-known n [] after = ground (arith, eq_refl n)
Remembers-known n (x ∷ before) after = ground (arith, Remembers-known n before after)

-- another nonce, with the oldest forgotten
Remembers-drop :
    (n m : String) (later : ℕ) (seen : List String)
    → later + 2 ≤ max_nonces
    → Remembers n later seen
    → Remembers n (suc later) (drop (length (seen ++ m ∷ []) - max_nonces) (seen ++ m ∷ []))
Remembers-drop n m later seen room (before, (after, e, le)) =
    let all = ap (λ l. l ++ m ∷ []) e ∙ append_assoc before (n ∷ after) (m ∷ []) in
    let k = length (seen ++ m ∷ []) - max_nonces in
    let size = length-append seen (m ∷ []) in
    let size_all = ap (λ l. length l) e in
    let size_before = length-append before (n ∷ after) in
    let few : k ≤ length before = omega (arith, size, size_all, size_before) in
    (
      drop k before,
      (
        after ++ m ∷ [],
        ap (drop k) all ∙ drop-before n k before (after ++ m ∷ []) few,
        omega (arith, length-append after (m ∷ [])),
      ),
    )

pub Remembers-fresh :
    (n : String) (later : ℕ) (nonce : Option (String × ℕ)) (seen : List String)
    → later + 2 ≤ max_nonces
    → Remembers n later seen
    → Remembers n (suc later) (fresh_nonce nonce seen).1
unfolding fresh_nonce
Remembers-fresh n later none seen room (before, (after, e, le)) = (before, (after, e, omega arith))
Remembers-fresh n later (some (m, chars)) seen room (before, (after, e, le)) =
    if_rule (λ (o : Bool × List String). Remembers n (suc later) o.1)
      (not (leb 8 chars && leb chars 64) || known_nonce m seen) (before, (after, e, omega arith))
      (Remembers-drop n m later seen room (before, (after, e, le)))

-- a nonce that was taken is the last one
pub fresh_nonce-Remembers :
    (nonce : Option (String × ℕ)) (seen : List String)
    → (fresh_nonce nonce seen).0 ≡ true
    → (n : String) × ((chars : ℕ) × (nonce ≡ some (n, chars))
        × Remembers n 0 (fresh_nonce nonce seen).1)
unfolding fresh_nonce
fresh_nonce-Remembers none seen h = cc
fresh_nonce-Remembers (some (n, chars)) seen h =
    let k = length (seen ++ n ∷ []) - max_nonces in
    let few : k ≤ length seen = omega (arith, length-append seen (n ∷ [])) in
    (
      n,
      (
        chars,
        refl,
        if_cases (λ (o : Bool × List String). o.0 ≡ true → Remembers n 0 o.1)
            (not (leb 8 chars && leb chars 64) || known_nonce n seen) (λ old x. cc)
            (λ new x. (drop k seen, ([], drop-before n k seen [] few, omega arith))) h,
      ),
    )

-- a remembered nonce is not fresh
pub fresh_nonce-stale :
    (n : String) (chars later : ℕ) (seen : List String)
    → Remembers n later seen
    → (fresh_nonce (some (n, chars)) seen).0 ≡ false
unfolding fresh_nonce
fresh_nonce-stale n chars later seen (before, (after, e, le)) =
    let known = ap (known_nonce n) e ∙ Remembers-known n before after in ground (arith, known)
