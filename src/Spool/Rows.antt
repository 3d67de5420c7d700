-- ===== src/Spool/Rows.antt =====
-- agent_mes_spool.py: acknowledging, pruning and discarding never lose a waiting event.

use linuxcnc_status_monitor.Common.{
  ℕ, zero, suc, ◌-◌, ◌≡◌, ◌∙◌, sym, refl, ap, take, String, Bool, not, ◌&&◌, Option, none, some,
  List, [], ◌∷◌, contains, if◌then◌else◌, arith, Bool-cases, inl, inr,
}
use linuxcnc_status_monitor.Spool.State.{
  Row, Db, is_pending, ack_row, is_prunable, update_rows, delete_rows, select_rows,
}
use linuxcnc_status_monitor.Spool.Store.{
  Spool, acked_keep_ms, refresh, mark_acked, prune, is_wanted, pending_rows, is_other_site,
  drop_row, drop_waiting,
}

-- the rows that wait to be sent
abbrev pub waiting : List Row → List Row
waiting [] = []
waiting (r ∷ rows) = if is_pending r then r ∷ waiting rows else waiting rows

-- the rows without those of the given numbers
abbrev pub without : List ℕ → List Row → List Row
without seqs [] = []
without seqs (r ∷ rows) = if contains r.seq seqs then without seqs rows else r ∷ without seqs rows

waiting-ack :
    (now : ℕ) (seqs : List ℕ) (rows : List Row)
    → waiting (update_rows (ack_row now seqs) rows) ≡ without seqs (waiting rows)
unfolding update_rows ack_row
waiting-ack now seqs [] = refl
waiting-ack now seqs (r ∷ rows) = ground (arith, waiting-ack now seqs rows)

waiting-delete :
    (cutoff : ℕ) (rows : List Row) → waiting (delete_rows (is_prunable cutoff) rows) ≡ waiting rows
unfolding delete_rows is_prunable
waiting-delete cutoff [] = refl
waiting-delete cutoff (r ∷ rows) = ground (arith, waiting-delete cutoff rows)

-- Acknowledging takes exactly the acknowledged rows out of the waiting ones, unchanged and in
-- order.
pub waiting-mark_acked :
    (now size : ℕ) (seqs : List ℕ) (s : Spool)
    → waiting (mark_acked now seqs size s).db.rows ≡ without seqs (waiting s.db.rows)
unfolding mark_acked refresh
waiting-mark_acked now size seqs s = waiting-ack now seqs s.db.rows

-- Pruning leaves every waiting row, whatever its age.
pub waiting-prune :
    (now size : ℕ) (s : Spool) → waiting (prune now size s).db.rows ≡ waiting s.db.rows
unfolding prune refresh
waiting-prune now size s = waiting-delete (now - acked_keep_ms) s.db.rows

-- the first `n` rows of a list that a test accepts
abbrev pub accepted : (Row → Bool) → List Row → List Row
accepted p [] = []
accepted p (r ∷ rows) = if p r then r ∷ accepted p rows else accepted p rows

select_rows-take :
    (p : Row → Bool) (limit : ℕ) (rows : List Row)
    → select_rows p limit rows ≡ take limit (accepted p rows)
unfolding select_rows
select_rows-take p zero rows = refl
select_rows-take p (suc limit) [] = refl
select_rows-take p (suc limit) (r ∷ rows) =
    ground (arith, select_rows-take p limit rows, select_rows-take p (suc limit) rows)

accepted-waiting :
    (types : Option (List String)) (rows : List Row)
    → accepted (is_wanted types) (waiting rows) ≡ accepted (is_wanted types) rows
unfolding is_wanted
accepted-waiting none [] = refl
accepted-waiting (some types) [] = refl
accepted-waiting none (r ∷ rows) = ground (arith, accepted-waiting none rows)
accepted-waiting (some types) (r ∷ rows) = ground (arith, accepted-waiting (some types) rows)

-- pending returns the oldest waiting rows of the wanted types, as many as the limit allows.
pub pending_rows_lem :
    (limit : ℕ) (types : Option (List String)) (s : Spool)
    → pending_rows limit types s ≡ take limit (accepted (is_wanted types) (waiting s.db.rows))
unfolding pending_rows
pending_rows_lem limit types s =
    select_rows-take (is_wanted types) limit s.db.rows
    ∙ ap (take limit) (sym (accepted-waiting types s.db.rows))

module _ (site_of : String → Option String) (site_id : Option String) (why : String) (now : ℕ) where
  is_pending-drop_row :
      (r : Row)
      → is_pending (drop_row site_of site_id why now r)
        ≡ is_pending r && not (is_other_site site_of site_id r)
  unfolding drop_row is_other_site is_pending
  is_pending-drop_row r = ground arith

  waiting-drop_rows :
      (rows : List Row)
      → waiting (update_rows (drop_row site_of site_id why now) rows)
        ≡ accepted (λ r. not (is_other_site site_of site_id r)) (waiting rows)
  unfolding update_rows drop_row
  waiting-drop_rows [] = refl
  waiting-drop_rows (r ∷ rows) = elim (Bool-cases (is_pending r)) [
    | inl p ↦ rw p (ground (arith, is_pending-drop_row r, waiting-drop_rows rows))
    | inr p ↦ rw p (ground (arith, is_pending-drop_row r, waiting-drop_rows rows))
  ]

  -- Discarding takes exactly the events of other sites out of the waiting ones, unchanged and in
  -- order.
  pub waiting-drop :
      (db : Db)
      → waiting (drop_waiting site_of site_id why now db).rows
        ≡ accepted (λ r. not (is_other_site site_of site_id r)) (waiting db.rows)
  unfolding drop_waiting
  waiting-drop db = waiting-drop_rows db.rows
