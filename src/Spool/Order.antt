-- ===== src/Spool/Order.antt =====
-- agent_mes_spool.py: the rows stand in the order of their numbers, and no number is given out twice.
use linuxcnc_status_monitor.Common.{
  ℕ, suc, ◌+◌, ◌-◌, ◌≤◌, ◌<◌, ◌≡◌, sym, refl, String, Bool, Option, List, [], ◌∷◌, ◌++◌, length,
  arith, if_rule,
}
use mathlib.Core.Path.{subst, subst₂}
use linuxcnc_status_monitor.Spool.State.{
  Row, Cursor, Db, ack_row, is_prunable, update_rows, delete_rows,
}
use linuxcnc_status_monitor.Spool.Store.{
  Spool, Item, Contract, ok, refresh, append_locked, mark_acked, prune, acked_keep_ms, drop_row,
  drop_waiting,
}
use linuxcnc_status_monitor.Spool.Inserted.{seqs_of, numbers_after}
use linuxcnc_status_monitor.Spool.Append.{append-Stored}

-- numbers in ascending order, above `low` and up to `high`
abbrev pub Ascends : ℕ → List ℕ → ℕ → Type 0
Ascends low [] high = low ≤ high
Ascends low (n ∷ ns) high = (low < n) × Ascends n ns high

-- every row's number is above those before it, and none is above the last one given out
abbrev pub IsOrdered : Db → Type 0
IsOrdered db = Ascends 0 (seqs_of db.rows) db.row_seq

Ascends-weaken :
    (low low' : ℕ) (ns : List ℕ) (high : ℕ)
    → low ≤ low'
    → Ascends low' ns high
    → Ascends low ns high
Ascends-weaken low low' [] high h a = omega arith
Ascends-weaken low low' (n ∷ ns) high h a = (omega arith, a.1)

Ascends-append :
    (low : ℕ) (ns ms : List ℕ) (middle high : ℕ)
    → Ascends low ns middle
    → Ascends middle ms high
    → Ascends low (ns ++ ms) high
Ascends-append low [] ms middle high a b = Ascends-weaken low middle ms high a b
Ascends-append low (n ∷ ns) ms middle high a b = (a.0, Ascends-append n ns ms middle high a.1 b)

Ascends-numbers_after :
    (n : ℕ) (items : List Item) → Ascends n (numbers_after n items) (n + length items)
Ascends-numbers_after n [] = omega arith
Ascends-numbers_after n (i ∷ items) =
    let e : suc n + length items ≡ n + length (i ∷ items) = omega arith in
    (
      omega arith,
      subst (Ascends (suc n) (numbers_after (suc n) items)) e (Ascends-numbers_after (suc n) items),
    )

seqs_of-append : (xs ys : List Row) → seqs_of (xs ++ ys) ≡ seqs_of xs ++ seqs_of ys
seqs_of-append [] ys = refl
seqs_of-append (x ∷ xs) ys = rw (seqs_of-append xs ys)

seqs_of-update :
    (f : Row → Row) (rows : List Row)
    → ((r : Row) → (f r).seq ≡ r.seq)
    → seqs_of (update_rows f rows) ≡ seqs_of rows
unfolding update_rows
seqs_of-update f [] h = refl
seqs_of-update f (r ∷ rows) h = rw (h r, seqs_of-update f rows h)

Ascends-delete :
    (p : Row → Bool) (low : ℕ) (rows : List Row) (high : ℕ)
    → Ascends low (seqs_of rows) high
    → Ascends low (seqs_of (delete_rows p rows)) high
unfolding delete_rows
Ascends-delete p low [] high a = a
Ascends-delete p low (r ∷ rows) high a =
    if_rule (λ rs. Ascends low (seqs_of rs) high) (p r)
      (Ascends-delete p low rows high
        (Ascends-weaken low r.seq (seqs_of rows) high (omega arith) a.1))
      (a.0, Ascends-delete p r.seq rows high a.1)

-- Acknowledging, pruning and discarding leave the rows in order.
pub mark_acked-IsOrdered :
    (now size : ℕ) (seqs : List ℕ) (s : Spool)
    → IsOrdered s.db
    → IsOrdered (mark_acked now seqs size s).db
unfolding mark_acked refresh ack_row
mark_acked-IsOrdered now size seqs s o =
    rw (seqs_of-update (ack_row now seqs) s.db.rows (λ r. ground arith)) o

pub prune-IsOrdered : (now size : ℕ) (s : Spool) → IsOrdered s.db → IsOrdered (prune now size s).db
unfolding prune refresh
prune-IsOrdered now size s o =
    Ascends-delete (is_prunable (now - acked_keep_ms)) 0 s.db.rows s.db.row_seq o

pub drop_waiting-IsOrdered :
    (site_of : String → Option String) (site_id : Option String) (why : String) (now : ℕ) (db : Db)
    → IsOrdered db
    → IsOrdered (drop_waiting site_of site_id why now db)
unfolding drop_waiting drop_row
drop_waiting-IsOrdered site_of site_id why now db o =
    rw (seqs_of-update (drop_row site_of site_id why now) db.rows (λ r. ground arith)) o

module _ (contract : Contract) where
  -- A successful append keeps the rows in the order of their numbers and gives out only numbers
  -- above every number given out before.
  pub append-IsOrdered :
      (items : List Item) (cursor : Option Cursor) (force : Bool) (size size_after : ℕ)
      (written : Bool) (s : Spool) {seqs : List ℕ}
      → IsOrdered s.db
      → (append_locked contract items cursor force size size_after written s).0 ≡ ok seqs
      → IsOrdered (append_locked contract items cursor force size size_after written s).1.db
        × Ascends s.db.row_seq seqs (s.db.row_seq + length items)
  append-IsOrdered items cursor force size size_after written s {seqs} o h =
      let (new, rows, numbered, returned, waits, last, own, cursors, are_rows) =
        append-Stored contract items cursor force size size_after written s h in
      let up = Ascends-numbers_after s.db.row_seq items in
      let given =
        subst (λ l. Ascends s.db.row_seq l (s.db.row_seq + length items)) (sym returned) up in
      (
        subst₂ (λ rs n. Ascends 0 (seqs_of rs) n) (sym rows) (sym last)
            (rw (seqs_of-append s.db.rows new, numbered)
              (Ascends-append 0 (seqs_of s.db.rows) seqs s.db.row_seq (s.db.row_seq + length items)
                o given)),
        given,
      )
