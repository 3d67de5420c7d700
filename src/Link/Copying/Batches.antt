-- ===== src/Link/Copying/Batches.antt =====
-- agent_mes_link.py: the batches that `OutboxReader.step` reads, against the whole of MillWright's events.
use mathlib.Core.Path.{subst}
use mathlib.Core.List.{append-nil}
use linuxcnc_status_monitor.Common.{
  ℕ, zero, suc, ◌≤◌, ◌<◌, ◌≡◌, ◌∙◌, sym, ◌⊎◌, inl, inr, ap, refl, ◌&&◌, List, [], ◌∷◌, ◌++◌, ltb,
  leb, if◌then◌else◌, arith, Bool-cases,
}
use linuxcnc_status_monitor.Link.Outbox.{OutRow, rows_after, last_seq}

-- in the order of `seq`, above `low`
abbrev pub IsAscending : ℕ → List OutRow → Type 0
IsAscending low [] = Unit {0}
IsAscending low (r ∷ rows) = (low < r.seq) × IsAscending r.seq rows

-- the rows up to a position
abbrev pub up_to : ℕ → List OutRow → List OutRow
up_to pos [] = []
up_to pos (r ∷ rows) = if leb r.seq pos then r ∷ up_to pos rows else up_to pos rows

-- the rows above `p`, which are not yet pruned, and up to `q`, which are there already
abbrev pub between : ℕ → ℕ → List OutRow → List OutRow
between p q [] = []
between p q (r ∷ rows) =
    if ltb p r.seq && leb r.seq q then r ∷ between p q rows else between p q rows

up_to-in :
    (pos : ℕ) (r : OutRow) (rows : List OutRow)
    → r.seq ≤ pos
    → up_to pos (r ∷ rows) ≡ r ∷ up_to pos rows
up_to-in pos r rows h = ground arith

abbrev pub end_of : ℕ → List OutRow → ℕ
end_of pos [] = pos
end_of pos (r ∷ rows) = end_of r.seq rows

pub last_seq_lem : (r : OutRow) (rows : List OutRow) → last_seq r rows ≡ end_of r.seq rows
unfolding last_seq
last_seq_lem r [] = refl
last_seq_lem r (x ∷ rows) = last_seq_lem x rows

pub IsAscending-weaken :
    (low low' : ℕ) (rows : List OutRow) → low ≤ low' → IsAscending low' rows → IsAscending low rows
IsAscending-weaken low low' [] h a = tt
IsAscending-weaken low low' (r ∷ rows) h a = (omega arith, a.1)

pub up_to-none : (pos : ℕ) (rows : List OutRow) → IsAscending pos rows → up_to pos rows ≡ []
up_to-none pos [] a = refl
up_to-none pos (r ∷ rows) a =
    let rest = up_to-none pos rows (IsAscending-weaken pos r.seq rows (omega arith) a.1) in
    ground arith

-- the rows of the outbox that one query gives
abbrev pub outbox_batch : ℕ → ℕ → ℕ → ℕ → List OutRow → List OutRow
outbox_batch pos n p q events = rows_after pos n (between p q events)

-- the first event is in the batch, or it is old or not there yet
outbox_batch-cons :
    (pos n p q : ℕ) (r : OutRow) (events : List OutRow)
    → p ≤ pos
    → (outbox_batch pos (suc n) p q (r ∷ events) ≡ r ∷ outbox_batch pos n p q events)
        × (pos < r.seq)
      ⊎ (outbox_batch pos (suc n) p q (r ∷ events) ≡ outbox_batch pos (suc n) p q events)
        × ((r.seq ≤ pos) ⊎ (q < r.seq))
unfolding rows_after
outbox_batch-cons pos n p q r events h = ground arith

outbox_batch-old :
    (pos n p q : ℕ) (r : OutRow) (events : List OutRow)
    → r.seq ≤ pos
    → outbox_batch pos (suc n) p q (r ∷ events) ≡ outbox_batch pos (suc n) p q events
unfolding rows_after
outbox_batch-old pos n p q r events h = ground arith

pub outbox_batch-zero : (pos p q : ℕ) (events : List OutRow) → outbox_batch pos 0 p q events ≡ []
unfolding rows_after
outbox_batch-zero pos p q events = refl

pub outbox_batch-none :
    (pos n p q : ℕ) (low : ℕ) (events : List OutRow)
    → q ≤ low
    → IsAscending low events
    → outbox_batch pos n p q events ≡ []
unfolding rows_after
outbox_batch-none pos zero p q low events h a = refl
outbox_batch-none pos (suc n) p q low [] h a = refl
outbox_batch-none pos (suc n) p q low (r ∷ events) h a =
    let rest = outbox_batch-none pos (suc n) p q r.seq events (omega arith) a.1 in ground arith

-- a batch ends behind every position that is not behind its events
pub end_of-batch :
    (x low pos n p q : ℕ) (events : List OutRow)
    → p ≤ pos
    → IsAscending low events
    → (x ≤ pos) ⊎ (x ≤ low)
    → x ≤ end_of x (outbox_batch pos n p q events)
unfolding rows_after
end_of-batch x low pos zero p q events h a b = omega arith
end_of-batch x low pos (suc n) p q [] h a b = omega arith
end_of-batch x low pos (suc n) p q (r ∷ events) h a b =
    elim (outbox_batch-cons pos n p q r events h) [
      | inl (e, k) ↦
          let ih = end_of-batch r.seq r.seq pos n p q events h a.1 (inr (omega arith)) in
          rw e (omega arith)
      | inr (e, k) ↦
          let ih =
            end_of-batch x low pos (suc n) p q events h
              (IsAscending-weaken low r.seq events (omega arith) a.1) b in
          rw e ih
    ]

-- where every event is new, the batch is the events up to its end
outbox_batch-new :
    (low pos n p q : ℕ) (events : List OutRow)
    → p ≤ pos
    → pos ≤ low
    → IsAscending low events
    → up_to (end_of low (outbox_batch pos n p q events)) events ≡ outbox_batch pos n p q events
unfolding rows_after
outbox_batch-new low pos zero p q events h k a = up_to-none low events a
outbox_batch-new low pos (suc n) p q [] h k a = refl
outbox_batch-new low pos (suc n) p q (r ∷ events) h k a =
    elim (outbox_batch-cons pos n p q r events h) [
      | inl (e, new) ↦
          let ih = outbox_batch-new r.seq pos n p q events h (omega arith) a.1 in
          let later = end_of-batch r.seq r.seq pos n p q events h a.1 (inr (omega arith)) in
          subst (λ b. up_to (end_of low b) (r ∷ events) ≡ b) (sym e)
            (up_to-in _ r events later ∙ ap (λ b. r ∷ b) ih)
      | inr (e, inl old) ↦ absurd (omega arith)
      | inr (e, inr away) ↦
          let none_left = outbox_batch-none pos (suc n) p q r.seq events (omega arith) a.1 in
          subst (λ b. up_to (end_of low b) (r ∷ events) ≡ b) (sym (e ∙ none_left))
            (up_to-none low (r ∷ events) a)
    ]

-- A batch carries the events up to its position on to the events up to its end.
pub up_to-batch :
    (low pos n p q : ℕ) (events : List OutRow)
    → p ≤ pos
    → IsAscending low events
    → up_to pos events ++ outbox_batch pos n p q events
      ≡ up_to (end_of pos (outbox_batch pos n p q events)) events
unfolding rows_after
up_to-batch low pos zero p q events h a = append-nil (up_to pos events)
up_to-batch low pos (suc n) p q [] h a = refl
up_to-batch low pos (suc n) p q (r ∷ events) h a = elim (Bool-cases (leb r.seq pos)) [
  | inl old ↦
      let b = outbox_batch pos (suc n) p q events in
      let seen : r.seq ≤ pos = ground arith in
      let later = end_of-batch pos r.seq pos (suc n) p q events h a.1 (inl (omega arith)) in
      subst (λ b. up_to pos (r ∷ events) ++ b ≡ up_to (end_of pos b) (r ∷ events))
        (sym (outbox_batch-old pos n p q r events seen))
        (ap (λ l. l ++ b) (up_to-in pos r events seen)
          ∙ ap (λ l. r ∷ l) (up_to-batch r.seq pos (suc n) p q events h a.1)
          ∙ sym (up_to-in (end_of pos b) r events (omega arith)))
  | inr new ↦
      let above : IsAscending pos (r ∷ events) = (ground arith, a.1) in
      ap (λ l. l ++ outbox_batch pos (suc n) p q (r ∷ events)) (up_to-none pos (r ∷ events) above)
      ∙ sym (outbox_batch-new pos pos (suc n) p q (r ∷ events) h (omega arith) above)
]
