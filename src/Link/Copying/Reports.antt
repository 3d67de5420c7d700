-- ===== src/Link/Copying/Reports.antt =====
-- agent_mes_link.py: what a step that reports stored events has done.
use mathlib.Core.Path.{subst}
use linuxcnc_status_monitor.Common.{
  ℕ, ◌<◌, ◌≡◌, sym, refl, String, Bool, true, false, not, Option, none, some, List, [], ◌∷◌, length,
  arith, if_rule,
}
use linuxcnc_status_monitor.Spool.State.{Cursor, get_cursor}
use linuxcnc_status_monitor.Spool.Store.{
  Spool, Contract, spool_full, spool_error, integrity_error, Outcome, ok, raised, append_locked,
}
use linuxcnc_status_monitor.Spool.Append.{append-Stored}
use linuxcnc_status_monitor.Link.Copying.Batches.{end_of, last_seq_lem}
use linuxcnc_status_monitor.Link.Copying.Stored.{position, position-moved}
use linuxcnc_status_monitor.Link.Copying.Run.{next_batch}
use linuxcnc_status_monitor.Link.Outbox.{
  OutRow, LoginEvent, Outbox, Reader, Disk, StepAnswer, stored, outbox_source, items_of, write_ack,
  answer_of, has_position, last_seq, after_append, store_rows, see_operators, enter_epoch, see_last,
  is_epoch, last_operator_row, read_rows, read_epoch, step, after_query_rule, uncaught,
}

stored_injective : (n m : ℕ) → stored n ≡ stored m → n ≡ m
stored_injective n m e = cc

module _ (contract : Contract) where
  -- an answer that reports stored events is about the whole batch, and the cursor is at its end
  abbrev pub Reports : String → List OutRow → ℕ → StepAnswer × Reader × Spool → Type 0
  Reports epoch rows end o =
      (n : ℕ) → o.0 ≡ stored n → 0 < n → (length rows ≡ n) × (position epoch o.2 ≡ end)

  Reports-nothing :
      (epoch : String) (rows : List OutRow) (end : ℕ) (r : Reader) (s : Spool)
      → Reports epoch rows end (stored 0, r, s)
  Reports-nothing epoch rows end r s n e h = absurd (omega (arith, stored_injective 0 n e))

  answer_of_lem : (b : Bool) (m n : ℕ) → answer_of b m ≡ stored n → m ≡ n
  unfolding answer_of
  answer_of_lem true m n e = cc
  answer_of_lem false m n e = cc

  after_append-Reports :
      (disk : Disk) (epoch : String) (rows : List OutRow) (last : ℕ) (r : Reader)
      (o : Outcome (List ℕ) × Spool)
      → ((seqs : List ℕ) → o.0 ≡ ok seqs → position epoch o.1 ≡ last)
      → Reports epoch rows last (after_append contract disk epoch last (length rows) o r)
  unfolding after_append
  after_append-Reports disk epoch rows last r (raised spool_full, s) done =
      Reports-nothing epoch rows last r s
  after_append-Reports disk epoch rows last r (raised spool_error, s) done =
      Reports-nothing epoch rows last r s
  after_append-Reports disk epoch rows last r (raised integrity_error, s) done = λ n e h. cc
  after_append-Reports disk epoch rows last r (ok seqs, s) done = λ n e h.
      (answer_of_lem (write_ack disk.ack_written epoch last r).0 (length rows) n e, done seqs refl)

  store_rows-Reports :
      (disk : Disk) (epoch : String) (rows : List OutRow) (r : Reader) (s : Spool)
      → Reports epoch rows
          (end_of (position epoch s) rows)
          (store_rows contract disk epoch (get_cursor outbox_source s.db.cursors) rows r s)
  unfolding store_rows
  store_rows-Reports disk epoch [] r s =
      if_rule (Reports epoch [] (position epoch s))
        (has_position epoch (get_cursor outbox_source s.db.cursors))
        (λ n e h. absurd (
          omega
            (arith, answer_of_lem (write_ack disk.ack_written epoch (position epoch s) r).0 0 n e)))
        (Reports-nothing epoch [] (position epoch s) r s)
  store_rows-Reports disk epoch (row ∷ rows) r s =
      let c : Cursor = record {
        source = outbox_source;
        epoch = epoch;
        position = last_seq row rows;
      } in
      let items = items_of (row ∷ rows) in
      let o =
        append_locked contract items (some c) false disk.size disk.size_after disk.sidecar_written
          s in
      subst
        (λ m.
          Reports epoch (row ∷ rows) m
            (after_append contract disk epoch (last_seq row rows) (length (row ∷ rows)) o r))
        (last_seq_lem row rows)
        (after_append-Reports disk epoch (row ∷ rows) (last_seq row rows) r o (λ seqs h.
          position-moved contract epoch (last_seq row rows) s o.1
            (append-Stored contract items (some c) false disk.size disk.size_after
              disk.sidecar_written s h).7))

  module _ (decode : String → Option LoginEvent) where
    pub step-Reports :
        (disk : Disk) (epoch : String) (ob : Outbox) (r : Reader) (s : Spool)
        → ob.epoch ≡ some epoch
        → Reports epoch
            (next_batch decode contract epoch ob.rows s)
            (end_of (position epoch s) (next_batch decode contract epoch ob.rows s))
            (step contract decode disk ob r s)
    unfolding step read_epoch read_rows
    step-Reports disk epoch ob r s e =
        let nothing = Reports-nothing epoch rows end in
        if_rule P (not ob.exists) (nothing r s) (
          if_rule P (not ob.connects) (escaped r) (
            after_query_rule P ob.epoch_query r s _ (nothing r s) (escaped r) (
              subst
                (λ (o : Option String). P (elim o [
                  | none ↦ (stored 0, r, s)
                  | some f ↦ read_epoch contract decode disk f ob r s
                ]))
                (sym e)
                (if_rule P (is_epoch epoch r.op_epoch) (read r) (
                  after_query_rule P ob.operator_query (enter_epoch epoch r) s _
                    (nothing (enter_epoch epoch r) s) (escaped (enter_epoch epoch r))
                    (read (see_last decode (last_operator_row ob.rows) (enter_epoch epoch r))))))))
      where
        rows : List OutRow
        rows = next_batch decode contract epoch ob.rows s

        end : ℕ
        end = end_of (position epoch s) rows

        P : (o : StepAnswer × Reader × Spool) → Type 0
        P o = Reports epoch rows end o

        escaped : (r₀ : Reader) → P (uncaught, r₀, s)
        escaped r₀ n e h = cc

        read : (r₀ : Reader) → P (read_rows contract decode disk epoch ob r₀ s)
        read r₀ =
            after_query_rule P ob.rows_query r₀ s _ (Reports-nothing epoch rows end r₀ s)
              (escaped r₀) (store_rows-Reports disk epoch rows (see_operators decode rows r₀) s)
