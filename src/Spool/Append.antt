-- ===== src/Spool/Append.antt =====
-- agent_mes_spool.py: `append` and `add` store everything or nothing.
use mathlib.Core.Path.{subst}
use linuxcnc_status_monitor.Common.{
  ℕ, ◌+◌, ◌≡◌, ◌∙◌, refl, ap, sym, Bool, not, ◌&&◌, Option, none, some, List, ◌++◌, length,
  if◌then◌else◌, arith, if_rule,
}
use linuxcnc_status_monitor.Spool.State.{Row, Cursor, Db, set_cursor}
use linuxcnc_status_monitor.Spool.Store.{
  Spool, Item, Contract, SpoolError, Outcome, ok, raised, refresh, insert_items, transact,
  rows_written, roll_back, committed, finish_append, append_locked,
}
use linuxcnc_status_monitor.Spool.Rows.{waiting}
use linuxcnc_status_monitor.Spool.Inserted.{
  numbers_after, count_own, seqs_of, bind_ok, ok_injective, AreRowsOf, insert_items-Appended,
}

module _ (contract : Contract) where
  -- what a successful append has done to the spool
  abbrev pub Stored : List Item → Option Cursor → Db → ℕ → List ℕ → Spool → Type 0
  Stored items cursor db producer_seq seqs s' =
      (new : List Row) × (s'.db.rows ≡ db.rows ++ new)
      × (seqs_of new ≡ seqs)
      × (seqs ≡ numbers_after db.row_seq items)
      × (waiting new ≡ new)
      × (s'.db.row_seq ≡ db.row_seq + length items)
      × (s'.producer_seq ≡ producer_seq + count_own items)
      × (s'.db.cursors ≡ (elim cursor [ none ↦ db.cursors | some c ↦ set_cursor c db.cursors ]))
      × AreRowsOf contract items db.row_seq producer_seq new

  committed-Stored :
      (items : List Item) (cursor : Option Cursor) (size : ℕ) (written : Bool) (db : Db)
      (producer_seq : ℕ) (s : Spool) (done : Db × ℕ × List ℕ)
      → transact contract items cursor db producer_seq ≡ ok done
      → Stored items cursor db producer_seq done.2 (committed contract size written done s).1
  unfolding transact committed refresh
  committed-Stored items cursor size written db producer_seq s done t =
      let (inserted, e₁, e₂) = bind_ok (insert_items contract items db producer_seq) _ t in
      let a = insert_items-Appended contract items db producer_seq e₁ in
      subst (λ d. Stored items cursor db producer_seq d.2 (committed contract size written d s).1)
        (ok_injective e₂)
        (
          a.new_rows,
          a.rows,
          a.numbered ∙ sym a.returned,
          a.returned,
          a.all_waiting,
          a.last_number,
          a.own_number,
          ap (λ cs. elim cursor [ none ↦ cs | some c ↦ set_cursor c cs ]) a.same_cursors,
          a.rows_of_items,
        )

  finish-Stored :
      (items : List Item) (cursor : Option Cursor) (size : ℕ) (written : Bool) (db left : Db)
      (producer_seq : ℕ) (s : Spool) (o : Outcome (Db × ℕ × List ℕ)) {seqs : List ℕ}
      → transact contract items cursor db producer_seq ≡ o
      → (finish_append contract size written left o s).0 ≡ ok seqs
      → Stored items cursor db producer_seq seqs (finish_append contract size written left o s).1
  unfolding finish_append
  finish-Stored items cursor size written db left producer_seq s (raised x) t h = cc
  finish-Stored items cursor size written db left producer_seq s (ok done) t h =
      subst (λ l. Stored items cursor db producer_seq l (committed contract size written done s).1)
        (ok_injective (unfold committed in h))
        (committed-Stored items cursor size written db producer_seq s done t)

  module _ (items : List Item) (cursor : Option Cursor) (force : Bool) (size size_after : ℕ)
      (sidecar_written : Bool) (s : Spool) where
    abbrev result : Outcome (List ℕ) × Spool
    result = append_locked contract items cursor force size size_after sidecar_written s

    start : Spool
    start = if force then s else refresh size s

    start_lem :
        (start.db ≡ s.db)
        × (start.producer_seq ≡ s.producer_seq)
        × (start.sidecar_seq ≡ s.sidecar_seq)
    unfolding start refresh
    start_lem = ground arith

    pub append-raised :
        (e : SpoolError)
        → result.0 ≡ raised e
        → (result.1.db ≡ s.db)
          × (result.1.producer_seq ≡ s.producer_seq)
          × (result.1.sidecar_seq ≡ s.sidecar_seq)
    unfolding append_locked finish_append refresh roll_back
    append-raised e h = ground arith

    finished : Outcome (List ℕ) × Spool
    finished =
        finish_append contract size_after sidecar_written
          (rows_written contract items start.db start.producer_seq)
          (transact contract items cursor start.db start.producer_seq) start

    finished-Stored :
        {seqs : List ℕ}
        → finished.0 ≡ ok seqs
        → Stored items cursor s.db s.producer_seq seqs finished.1
    unfolding finished
    finished-Stored {seqs} x =
        subst (λ d. Stored items cursor d s.producer_seq seqs finished.1) start_lem.0
          (subst (λ n. Stored items cursor start.db n seqs finished.1) start_lem.1
            (finish-Stored items cursor size_after sidecar_written start.db _ start.producer_seq
              start _ refl x))

    -- An append that returns has stored one row for each item, in order, behind the old rows,
    -- waiting and numbered on from the largest number given out: an event of the agent's own as
    -- the contract encodes it with the row's number and the next producer's number, under its id,
    -- type and time, and another's body as it came, under the id, type and time that the contract
    -- reads from it. The cursor and the producer's number have moved with them.
    pub append-Stored :
        {seqs : List ℕ} → result.0 ≡ ok seqs → Stored items cursor s.db s.producer_seq seqs result.1
    unfolding append_locked start finished
    append-Stored {seqs} h =
        if_rule
          (λ (o : Outcome (List ℕ) × Spool).
            o.0 ≡ ok seqs → Stored items cursor s.db s.producer_seq seqs o.1)
          (not force && start.full) (λ x. cc) (λ x. finished-Stored x) h
