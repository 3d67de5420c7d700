-- ===== src/Link/Copying/Progress.antt =====
-- agent_mes_link.py: when a step stores its batch.
use mathlib.Core.Path.{subst}
use mathlib.Core.List.{append-nil}
use linuxcnc_status_monitor.Common.{
  ℕ, ◌<◌, ◌≡◌, sym, inr, refl, String, true, false, Option, some, List, [], ◌∷◌, ◌++◌, length,
  if_rule,
}
use linuxcnc_status_monitor.Spool.State.{Cursor, get_cursor, has_event}
use linuxcnc_status_monitor.Spool.Store.{Spool, Contract, Outcome, ok, raised, append_locked}
use linuxcnc_status_monitor.Spool.Append.{append-Stored}
use linuxcnc_status_monitor.Spool.Success.{AllStorable, append_succeeds}
use linuxcnc_status_monitor.Link.Copying.Batches.{end_of, last_seq_lem}
use linuxcnc_status_monitor.Link.Copying.Stored.{
  bodies_of, out_bodies, position, append-bodies, position-moved,
}
use linuxcnc_status_monitor.Link.Outbox.{
  OutRow, LoginEvent, Reader, Disk, StepAnswer, stored, outbox_source, batch, rows_after, items_of,
  write_ack, answer_of, has_position, last_seq, after_append, store_rows, see_operators,
  enter_epoch, see_last, is_epoch, last_operator_row, read_rows, read_epoch, step, after_query,
  goes_through,
}

module _ (contract : Contract) where
  -- a batch that the contract accepts, with new ids, goes into a spool with room
  -- as it is, behind the old events
  abbrev pub Stores : String → List OutRow → ℕ → Spool → StepAnswer × Reader × Spool → Type 0
  Stores epoch rows end s o =
      (o.0 ≡ stored (length rows))
      × (bodies_of o.2.db.rows ≡ bodies_of s.db.rows ++ out_bodies rows)
      × (position epoch o.2 ≡ end)

  after_append-Stores :
      (disk : Disk) (epoch : String) (rows : List OutRow) (last : ℕ) (r : Reader) (s : Spool)
      (o : Outcome (List ℕ) × Spool) (seqs : List ℕ)
      → disk.ack_written ≡ true
      → o.0 ≡ ok seqs
      → bodies_of o.1.db.rows ≡ bodies_of s.db.rows ++ out_bodies rows
      → position epoch o.1 ≡ last
      → Stores epoch rows last s (after_append contract disk epoch last (length rows) o r)
  unfolding after_append write_ack answer_of
  after_append-Stores disk epoch rows last r s (raised x, s') seqs w e b p = cc
  after_append-Stores disk epoch rows last r s (ok l, s') seqs w e b p = (rw w refl, b, p)

  store_rows-Stores :
      (disk : Disk) (epoch : String) (rows : List OutRow) (r : Reader) (s : Spool)
      → disk.ack_written ≡ true
      → AllStorable contract (items_of rows) (λ x. has_event x s.db.rows)
      → disk.size < s.budget
      → Stores epoch rows
          (end_of (position epoch s) rows)
          s
          (store_rows contract disk epoch (get_cursor outbox_source s.db.cursors) rows r s)
  unfolding store_rows write_ack answer_of
  store_rows-Stores disk epoch [] r s w storable room =
      let same = sym (append-nil (bodies_of s.db.rows)) in
      if_rule (Stores epoch [] (position epoch s) s)
        (has_position epoch (get_cursor outbox_source s.db.cursors)) (rw w refl, same, refl)
        (refl, same, refl)
  store_rows-Stores disk epoch (row ∷ rows) r s w storable room =
      let c : Cursor = record {
        source = outbox_source;
        epoch = epoch;
        position = last_seq row rows;
      } in
      let items = items_of (row ∷ rows) in
      let o =
        append_locked contract items (some c) false disk.size disk.size_after disk.sidecar_written
          s in
      let (seqs, done) =
        append_succeeds contract items (some c) false disk.size disk.size_after disk.sidecar_written
          s storable (inr room) in
      subst
        (λ m.
          Stores epoch (row ∷ rows) m s
            (after_append contract disk epoch (last_seq row rows) (length (row ∷ rows)) o r))
        (last_seq_lem row rows)
        (after_append-Stores disk epoch (row ∷ rows) (last_seq row rows) r s o seqs w done
          (append-bodies contract (row ∷ rows) (some c) disk.size disk.size_after
            disk.sidecar_written s done)
          (position-moved contract epoch (last_seq row rows) s o.1
            (append-Stored contract items (some c) false disk.size disk.size_after
              disk.sidecar_written s done).7))

  -- If MillWright's database can be read, the contract accepts the events of the next batch, none
  -- of their ids is taken, the spool has room and mes_ack.json can be written, then the step puts
  -- the body of every event of the batch, as it is and in order, behind the old rows of the
  -- spool, moves the cursor to the end of the batch and returns its length.
  pub step-Stores :
      (decode : String → Option LoginEvent) (disk : Disk) (epoch : String) (rows : List OutRow)
      (r : Reader) (s : Spool)
      → disk.ack_written ≡ true
      → AllStorable contract
          (items_of (rows_after (position epoch s) batch rows))
          (λ x. has_event x s.db.rows)
      → disk.size < s.budget
      → Stores epoch
          (rows_after (position epoch s) batch rows)
          (end_of (position epoch s) (rows_after (position epoch s) batch rows))
          s
          (step contract decode disk
            (record {
              exists = true;
              connects = true;
              epoch = some epoch;
              rows = rows;
              epoch_query = goes_through;
              operator_query = goes_through;
              rows_query = goes_through;
            })
            r
            s)
  unfolding step read_epoch read_rows after_query
  step-Stores decode disk epoch rows r s w storable room =
      if_rule P (is_epoch epoch r.op_epoch) (read r)
        (read (see_last decode (last_operator_row rows) (enter_epoch epoch r)))
    where
      batch_rows : List OutRow
      batch_rows = rows_after (position epoch s) batch rows

      P : (o : StepAnswer × Reader × Spool) → Type 0
      P o = Stores epoch batch_rows (end_of (position epoch s) batch_rows) s o

      read :
          (r₀ : Reader)
          → P (
              store_rows contract disk epoch
                (get_cursor outbox_source s.db.cursors)
                batch_rows
                (see_operators decode batch_rows r₀)
                s)
      read r₀ =
          store_rows-Stores disk epoch batch_rows (see_operators decode batch_rows r₀) s w storable
            room
