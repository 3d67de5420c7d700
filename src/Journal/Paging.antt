-- ===== src/Journal/Paging.antt =====
-- agent_journal.py: a dashboard that asks page after page gets the whole history.
use mathlib.Core.Path.{subst}
use mathlib.Core.List.{append-nil, append_assoc}
use linuxcnc_status_monitor.Common.{
  ℕ, zero, suc, ◌≤◌, ◌<◌, ◌≡◌, ◌⊎◌, ◌∙◌, inl, inr, refl, sym, ap, true, false, Option, none, List,
  [], ◌∷◌, ◌++◌, length, take, drop, ltb, take-append-drop, length-append, arith, Bool-cases,
}
use linuxcnc_status_monitor.Journal.Reply.{
  Entry, Reply, max_rows_per_query, last_seq_of, fill, last_sent, upper_of, reply_to,
}
use linuxcnc_status_monitor.Journal.Between.{
  between, Ascends, AllReadable, AllUpTo, select_entries-take, between-Ascends, take_empty,
  AllUpTo-between, AllReadable-between, AllReadable-take, fill-prefix, last-below, last-above,
  between-after, between-between,
}

-- what a reply promises: its entries are the first of what was asked for; without "more" they are all
-- of it, and with "more" there is at least one
pub record IsPage (low high : ℕ) (table : List Entry) (r : Reply) : Type 0 where
  pub rest : List Entry
  pub split : between low high table ≡ r.entries ++ rest
  pub complete : r.more ≡ false → rest ≡ []
  pub progress : r.more ≡ true → 0 < length r.entries

complete_rest :
    (low high : ℕ) (es rest : List Entry)
    → Ascends low (es ++ rest)
    → AllUpTo high (es ++ rest)
    → (es ++ rest ≡ []) ⊎ (0 < length es)
    → ltb (last_sent high es) high ≡ false
    → rest ≡ []
unfolding last_sent
complete_rest low high es [] up within some_entry stop = refl
complete_rest low high [] (r ∷ rs) up within some_entry stop = elim some_entry [
  | inl e ↦ cc e
  | inr lt ↦ absurd (omega arith)
]
complete_rest low high (e ∷ es) (r ∷ rs) up within some_entry stop =
    absurd (ground (arith, last-below low high (e ∷ es) r rs (omega arith) up within))

progress_lem : (high : ℕ) (es : List Entry) → ltb (last_sent high es) high ≡ true → 0 < length es
unfolding last_sent
progress_lem high [] more = absurd (ground arith)
progress_lem high (e ∷ es) more = omega arith

-- With readable entries in the order of their numbers, a reply holds the first of the entries
-- asked for, all of them if it does not say more, and at least one if it does.
pub reply_to-IsPage :
    (max_bytes from_seq : ℕ) (to_seq : Option ℕ) (table : List Entry)
    → Ascends 0 table
    → AllReadable table
    → IsPage from_seq
        (upper_of to_seq (last_seq_of table))
        table
        (reply_to max_bytes from_seq to_seq table)
unfolding reply_to
reply_to-IsPage max_bytes from_seq to_seq table up readable =
    let high = upper_of to_seq (last_seq_of table) in
    let asked = between from_seq high table in
    let page = fill max_bytes 400 false (take max_rows_per_query asked) in
    let selected = select_entries-take from_seq high max_rows_per_query table in
    let (left, e, first) = fill-prefix max_bytes 400 false (take max_rows_per_query asked) (
      AllReadable-take max_rows_per_query asked
        (AllReadable-between from_seq high table readable)) in
    let whole : asked ≡ page ++ (left ++ drop max_rows_per_query asked) =
      sym (take-append-drop max_rows_per_query asked)
      ∙ ap (λ l. l ++ drop max_rows_per_query asked) e
      ∙ append_assoc page left (drop max_rows_per_query asked) in
    rw selected (record {
      rest = left ++ drop max_rows_per_query asked;
      split = whole;
      complete = λ stop.
          complete_rest from_seq high page (left ++ drop max_rows_per_query asked)
            (subst (Ascends from_seq) whole (between-Ascends 0 from_seq high table up))
            (subst (AllUpTo high) whole (AllUpTo-between from_seq high table))
            (elim (first refl) [
              | inl none_taken ↦ inl (sym whole ∙ take_empty 499 asked none_taken)
              | inr some_taken ↦ inr some_taken
            ])
            stop;
      progress = λ more. progress_lem high page more;
    })

-- a dashboard that asks for everything after a number, and again from the last entry it got while the
-- reply says that there is more
unfoldable pub fetch : ℕ → ℕ → ℕ → List Entry → List Entry
fetch max_bytes zero from_seq table = []
fetch max_bytes (suc fuel) from_seq table =
    let r = reply_to max_bytes from_seq none table in
    elim r.more [
      | false ↦ r.entries
      | true ↦ r.entries ++ fetch max_bytes fuel (last_seq_of r.entries) table
    ]

rest_shorter :
    (es rest : List Entry) (n : ℕ) → 0 < length es → length (es ++ rest) ≤ suc n → length rest ≤ n
rest_shorter es rest n some_entry le = omega (arith, length-append es rest)

-- after a page with "more", what is left is what comes after its last entry
left_after :
    (low high : ℕ) (table : List Entry) (r : Reply)
    → Ascends 0 table
    → (p : IsPage low high table r) → r.more ≡ true
    → between (last_seq_of r.entries) high table ≡ p.rest
left_after low high table r up p more =
    let last = last_seq_of r.entries in
    let some_entry = p.progress more in
    let rising = subst (Ascends low) p.split (between-Ascends 0 low high table up) in
    let above = last-above low r.entries p.rest some_entry rising in
    sym (between-between low last high table (omega arith))
    ∙ ap (between last high) p.split
    ∙ between-after low high r.entries p.rest some_entry rising
        (subst (AllUpTo high) p.split (AllUpTo-between low high table))

-- one request, when the requests after it get the rest
fetch_step :
    (max_bytes fuel from_seq : ℕ) (table : List Entry)
    → (p : IsPage from_seq (last_seq_of table) table (reply_to max_bytes from_seq none table))
    → ((reply_to max_bytes from_seq none table).more ≡ true
        → fetch max_bytes fuel (last_seq_of (reply_to max_bytes from_seq none table).entries) table
          ≡ p.rest)
    → fetch max_bytes (suc fuel) from_seq table ≡ between from_seq (last_seq_of table) table
unfolding fetch
fetch_step max_bytes fuel from_seq table p next =
    let r = reply_to max_bytes from_seq none table in
    elim (Bool-cases r.more) [
      | inl more ↦ rw (more, fetch) (ap (λ l. r.entries ++ l) (next more) ∙ sym p.split)
      | inr stop ↦
          rw (stop, fetch)
            (sym (p.split ∙ ap (λ l. r.entries ++ l) (p.complete stop) ∙ append-nil r.entries))
    ]

open_end-IsPage :
    (max_bytes from_seq : ℕ) (table : List Entry)
    → Ascends 0 table
    → AllReadable table
    → IsPage from_seq (last_seq_of table) table (reply_to max_bytes from_seq none table)
unfolding upper_of
open_end-IsPage max_bytes from_seq table = reply_to-IsPage max_bytes from_seq none table

-- With readable entries in the order of their numbers, asking page after page gets every entry
-- after the starting number, each once and in order, whatever the size of a page; as many
-- requests as there are such entries, and one, are enough.
pub fetch_all :
    (max_bytes fuel from_seq : ℕ) (table : List Entry)
    → Ascends 0 table
    → AllReadable table
    → length (between from_seq (last_seq_of table) table) ≤ fuel
    → fetch max_bytes (suc fuel) from_seq table ≡ between from_seq (last_seq_of table) table
fetch_all max_bytes zero from_seq table up readable enough =
    let p = open_end-IsPage max_bytes from_seq table up readable in
    let fewer = subst (λ (l : List Entry). length l ≤ 0) p.split enough in
    fetch_step max_bytes zero from_seq table p (λ more.
      let some_entry = p.progress more in
      absurd (omega (arith, length-append (reply_to max_bytes from_seq none table).entries p.rest)))
fetch_all max_bytes (suc fuel) from_seq table up readable enough =
    let r = reply_to max_bytes from_seq none table in
    let p = open_end-IsPage max_bytes from_seq table up readable in
    let fewer = subst (λ (l : List Entry). length l ≤ suc fuel) p.split enough in
    fetch_step max_bytes (suc fuel) from_seq table p (λ more.
      let left = left_after from_seq (last_seq_of table) table r up p more in
      let shorter = rest_shorter r.entries p.rest fuel (p.progress more) fewer in
      fetch_all max_bytes fuel (last_seq_of r.entries) table up readable
        (subst (λ (l : List Entry). length l ≤ fuel) (sym left) shorter)
      ∙ left)
