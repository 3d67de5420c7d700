-- ===== src/Journal/Between.antt =====
-- agent_journal.py: ranges of entries, and the part of one that fits in a reply.
use mathlib.Core.Path.{subst}
use linuxcnc_status_monitor.Common.{
  ℕ, zero, suc, ◌+◌, ◌≤◌, ◌<◌, ◌≡◌, ◌⊎◌, ◌∙◌, inl, inr, refl, sym, ap, Bool, true, false, ◌&&◌,
  List, [], ◌∷◌, ◌++◌, length, take, ltb, leb, if◌then◌else◌, arith, Bool-cases, if_rule, if_cases,
}
use linuxcnc_status_monitor.Journal.Reply.{Entry, last_seq_of, select_entries, fill}

-- the entries after a number, up to another
abbrev pub between : ℕ → ℕ → List Entry → List Entry
between low high [] = []
between low high (e ∷ es) =
    if ltb low e.seq && leb e.seq high then e ∷ between low high es else between low high es

-- numbers above `low`, ascending
abbrev pub Ascends : ℕ → List Entry → Type 0
Ascends low [] = Unit {0}
Ascends low (e ∷ es) = (low < e.seq) × Ascends e.seq es

abbrev pub AllReadable : List Entry → Type 0
AllReadable [] = Unit {0}
AllReadable (e ∷ es) = (e.readable ≡ true) × AllReadable es

abbrev pub AllUpTo : ℕ → List Entry → Type 0
AllUpTo high [] = Unit {0}
AllUpTo high (e ∷ es) = (e.seq ≤ high) × AllUpTo high es

pub select_entries-take :
    (low high limit : ℕ) (es : List Entry)
    → select_entries low high limit es ≡ take limit (between low high es)
unfolding select_entries
select_entries-take low high zero es = refl
select_entries-take low high (suc limit) [] = refl
select_entries-take low high (suc limit) (e ∷ es) =
    ground
      (arith, select_entries-take low high limit es, select_entries-take low high (suc limit) es)

pub Ascends-weaken :
    (low low' : ℕ) (es : List Entry) → low ≤ low' → Ascends low' es → Ascends low es
Ascends-weaken low low' [] h a = tt
Ascends-weaken low low' (e ∷ es) h a = (omega arith, a.1)

pub Ascends-between :
    (base low high : ℕ) (es : List Entry) → Ascends base es → Ascends base (between low high es)
Ascends-between base low high [] a = tt
Ascends-between base low high (e ∷ es) a =
    if_rule (Ascends base) (ltb low e.seq && leb e.seq high)
      (a.0, Ascends-between e.seq low high es a.1)
      (Ascends-weaken base e.seq _ (omega arith) (Ascends-between e.seq low high es a.1))

pub between-Ascends :
    (base low high : ℕ) (es : List Entry) → Ascends base es → Ascends low (between low high es)
between-Ascends base low high [] a = tt
between-Ascends base low high (e ∷ es) a =
    if_cases (Ascends low) (ltb low e.seq && leb e.seq high)
      (λ h. (ground arith, Ascends-between e.seq low high es a.1))
      (λ h. between-Ascends e.seq low high es a.1)

pub take_empty : (n : ℕ) (es : List Entry) → take (suc n) es ≡ [] → es ≡ []
take_empty n [] e = refl
take_empty n (x ∷ es) e = cc

pub AllUpTo-between : (low high : ℕ) (es : List Entry) → AllUpTo high (between low high es)
AllUpTo-between low high [] = tt
AllUpTo-between low high (e ∷ es) =
    if_cases (AllUpTo high) (ltb low e.seq && leb e.seq high)
      (λ h. (ground arith, AllUpTo-between low high es)) (λ h. AllUpTo-between low high es)

pub AllReadable-between :
    (low high : ℕ) (es : List Entry) → AllReadable es → AllReadable (between low high es)
AllReadable-between low high [] a = tt
AllReadable-between low high (e ∷ es) a =
    if_rule AllReadable (ltb low e.seq && leb e.seq high) (a.0, AllReadable-between low high es a.1)
      (AllReadable-between low high es a.1)

pub AllReadable-take : (n : ℕ) (es : List Entry) → AllReadable es → AllReadable (take n es)
AllReadable-take zero es a = tt
AllReadable-take (suc n) [] a = tt
AllReadable-take (suc n) (e ∷ es) a = (a.0, AllReadable-take n es a.1)

-- the reply holds the first of the rows, and at least one if there is one
pub fill-prefix :
    (max_bytes size : ℕ) (started : Bool) (es : List Entry)
    → AllReadable es
    → (rest : List Entry) × (es ≡ fill max_bytes size started es ++ rest)
      × ((started ≡ false) → (es ≡ []) ⊎ (0 < length (fill max_bytes size started es)))
unfolding fill
fill-prefix max_bytes size started [] a = ([], refl, λ h. inl refl)
fill-prefix max_bytes size started (e ∷ es) a =
    let size' = size + (e.data_bytes + 40) in
    let (rest, eq, _) = fill-prefix max_bytes size' true es a.1 in
    elim (Bool-cases (started && ltb max_bytes size')) [
      | inl full ↦ (e ∷ es, ground arith, λ h. absurd (ground arith))
      | inr fits ↦
          let taken : fill max_bytes size started (e ∷ es) ≡ e ∷ fill max_bytes size' true es =
            ground (arith, fits, a.0) in
          (
            rest,
            ap (λ l. e ∷ l) eq ∙ ap (λ l. l ++ rest) (sym taken),
            λ h. inr (subst (λ (l : List Entry). 0 < length l) (sym taken) (omega arith)),
          )
    ]

-- entries above `mid` are above `low`, too
pub between-lower :
    (low mid high : ℕ) (es : List Entry)
    → low < mid
    → Ascends mid es
    → between low high es ≡ between mid high es
between-lower low mid high [] lt up = refl
between-lower low mid high (e ∷ es) lt up =
    let same = between-lower low mid high es lt (Ascends-weaken mid e.seq es (omega arith) up.1) in
    ground (arith, same)

pub between-all :
    (low high : ℕ) (es : List Entry) → Ascends low es → AllUpTo high es → between low high es ≡ es
between-all low high [] up within = refl
between-all low high (e ∷ es) up within =
    ground
      (arith, between-all e.seq high es up.1 within.1, between-lower low e.seq high es up.0 up.1)

-- the last of a beginning is below what follows it
pub last-below :
    (low high : ℕ) (es : List Entry) (r : Entry) (rs : List Entry)
    → 0 < length es
    → Ascends low (es ++ r ∷ rs)
    → AllUpTo high (es ++ r ∷ rs)
    → (last_seq_of es < r.seq) × (r.seq ≤ high)
unfolding last_seq_of
last-below low high [] r rs some_entry up within = absurd (omega arith)
last-below low high (e ∷ []) r rs some_entry up within = (up.1.0, within.1.0)
last-below low high (e ∷ f ∷ es) r rs some_entry up within =
    last-below e.seq high (f ∷ es) r rs (omega arith) up.1 within.1

pub last-above :
    (low : ℕ) (es rest : List Entry)
    → 0 < length es
    → Ascends low (es ++ rest)
    → low < last_seq_of es
unfolding last_seq_of
last-above low [] rest some_entry up = absurd (omega arith)
last-above low (e ∷ []) rest some_entry up = up.0
last-above low (e ∷ f ∷ es) rest some_entry up =
    omega (arith, last-above e.seq (f ∷ es) rest (omega arith) up.1, up.0)

-- what comes after the last of a beginning is the rest
pub between-after :
    (low high : ℕ) (es rest : List Entry)
    → 0 < length es
    → Ascends low (es ++ rest)
    → AllUpTo high (es ++ rest)
    → between (last_seq_of es) high (es ++ rest) ≡ rest
unfolding last_seq_of
between-after low high [] rest some_entry up within = absurd (omega arith)
between-after low high (e ∷ []) rest some_entry up within =
    ground (arith, between-all e.seq high rest up.1 within.1)
between-after low high (e ∷ f ∷ es) rest some_entry up within = ground (
  arith,
  between-after e.seq high (f ∷ es) rest (omega arith) up.1 within.1,
  last-above e.seq (f ∷ es) rest (omega arith) up.1,
)

pub between-between :
    (low mid high : ℕ) (es : List Entry)
    → low ≤ mid
    → between mid high (between low high es) ≡ between mid high es
between-between low mid high [] le = refl
between-between low mid high (e ∷ es) le = ground (arith, between-between low mid high es le)
