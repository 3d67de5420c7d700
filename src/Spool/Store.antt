-- ===== src/Spool/Store.antt =====
-- agent_mes_spool.py: the methods of `Spool` that write and read the tables.
use text.Mathlib.Text.{◌==◌ as str_eq}
use linuxcnc_status_monitor.Common.{
  ℕ, suc, ◌-◌, ◌*◌, String, Bool, true, false, not, ◌&&◌, ◌||◌, Option, none, some, List, [], ◌∷◌,
  leb, ◌==◌, if◌then◌else◌,
}
use linuxcnc_status_monitor.Spool.State.{
  Row, pending, dropped, Cursor, Db, is_pending, insert_row, set_cursor, ack_row, is_prunable,
  update_rows, delete_rows, select_rows,
}

abbrev pub acked_keep_ms : ℕ
acked_keep_ms = 7 * 86400 * 1000

-- What is to be stored: an event of the agent's own (type, payload, time, and the id that
-- `uuid.uuid4` gives it), or another producer's event as it was encoded.
pub data Item : Type 0 where
  own : String → String → ℕ → String → Item
  raw : String → Item

-- what the contract reads from an encoded event: its id, type and time
pub record Head : Type 0 where
  pub event_id : String
  pub kind : String
  pub occurred_at : ℕ

-- The contract (contracts/mes/v1/validate.py) as the spool uses it. `encode` makes, checks and encodes
-- an event of the agent's own, from its type, payload, time, id, producer seq and record number;
-- `decode` decodes and checks another's. The result is `none` when the contract rejects the event.
pub record Contract : Type 0 where
  pub encode : String → String → ℕ → String → ℕ → ℕ → Option String
  pub decode : String → Option Head

pub data SpoolError : Type 0 where
  spool_full spool_error integrity_error : SpoolError

pub data Outcome (A : Type 0) : Type 0 where
  ok : A → Outcome A
  raised : SpoolError → Outcome A

infixl 5 ◌>>=◌
abbrev pub ◌>>=◌ : {A B : Type 0} → Outcome A → (A → Outcome B) → Outcome B
ok a >>= f = f a
raised e >>= f = raised e

abbrev pub or_raise : {A : Type 0} → SpoolError → Option A → Outcome A
or_raise e none = raised e
or_raise e (some a) = ok a

-- The spool object: its database, and the producer's sequence number that it keeps in memory and in
-- the sidecar file.
pub record Spool : Type 0 where
  pub db : Db
  pub producer_seq : ℕ
  pub sidecar_seq : ℕ
  pub budget : ℕ
  pub full : Bool
  pub waiting : ℕ

unfoldable pub count_pending : List Row → ℕ
unfolding is_pending
count_pending [] = 0
count_pending (r ∷ rows) = if is_pending r then suc (count_pending rows) else count_pending rows

-- `_refresh`, for the size of the database files
unfoldable pub refresh : ℕ → Spool → Spool
refresh size s = record s { full = leb s.budget size; waiting = count_pending s.db.rows }

-- ROLLBACK: the tables are those of BEGIN again
unfoldable pub roll_back : Db → Spool → Spool
roll_back begun s = record s { db = begun }

module _ (contract : Contract) where
  -- the row of one item, with the producer's sequence number after it
  unfoldable pub make_row : Item → ℕ → ℕ → Outcome (Row × ℕ)
  make_row (own kind payload occurred id) rowseq producer_seq = do
    body ← or_raise spool_error (contract.encode kind payload occurred id (suc producer_seq) rowseq)
    ok (
      record {
        seq = rowseq;
        event_id = id;
        kind = kind;
        occurred_at = occurred;
        body = body;
        state = pending;
        acked_at = none;
        reason = none;
      },
      suc producer_seq,
    )
  make_row (raw body) rowseq producer_seq = do
    head ← or_raise spool_error (contract.decode body)
    ok (
      record {
        seq = rowseq;
        event_id = head.event_id;
        kind = head.kind;
        occurred_at = head.occurred_at;
        body = body;
        state = pending;
        acked_at = none;
        reason = none;
      },
      producer_seq,
    )

  -- the loop of `_append_locked`: the tables, the producer's number, and the numbers of the new rows
  unfoldable pub insert_items : List Item → Db → ℕ → Outcome (Db × ℕ × List ℕ)
  insert_items [] db producer_seq = ok (db, producer_seq, [])
  insert_items (item ∷ items) db producer_seq = do
    made ← make_row item (suc db.row_seq) producer_seq
    db' ← or_raise integrity_error (insert_row made.0 db)
    rest ← insert_items items db' made.1
    ok (rest.0, rest.1, suc db.row_seq ∷ rest.2)

  -- the tables inside the transaction, where the loop ends or an item raises
  unfoldable pub rows_written : List Item → Db → ℕ → Db
  unfolding make_row
  rows_written [] db producer_seq = db
  rows_written (item ∷ items) db producer_seq = elim (make_row item (suc db.row_seq) producer_seq) [
    | raised e ↦ db
    | ok made ↦ elim (insert_row made.0 db) [ none ↦ db | some db' ↦ rows_written items db' made.1 ]
  ]

  -- the transaction: what it leaves in the database when it commits
  unfoldable pub transact : List Item → Option Cursor → Db → ℕ → Outcome (Db × ℕ × List ℕ)
  transact items cursor db producer_seq = do
    done ← insert_items items db producer_seq
    ok (
      record (done.0) {
        cursors = elim cursor [ none ↦ done.0.cursors | some c ↦ set_cursor c done.0.cursors ];
        producer_seq = (if done.1 == producer_seq then done.0.producer_seq else done.1);
      },
      done.1,
      done.2,
    )

  -- after the commit: the number in memory, the sidecar if it can be written, the statistics
  unfoldable pub committed : ℕ → Bool → Db × ℕ × List ℕ → Spool → Outcome (List ℕ) × Spool
  committed size sidecar_written (db, producer_seq, seqs) s = (
    ok seqs,
    refresh size (record s {
      db = db;
      producer_seq = producer_seq;
      sidecar_seq =
          if not (producer_seq == s.producer_seq) && sidecar_written
          then producer_seq
          else s.sidecar_seq;
    }),
  )

  -- the end of the transaction, where `left` are the tables as they stand in it when it raises, and `s`
  -- has those of BEGIN; other errors of sqlite, such as a full disk, are left out
  unfoldable pub finish_append :
      ℕ → Bool → Db → Outcome (Db × ℕ × List ℕ) → Spool → Outcome (List ℕ) × Spool
  unfolding committed roll_back
  finish_append size sidecar_written left (raised e) s =
      (raised e, roll_back s.db (record s { db = left }))
  finish_append size sidecar_written left (ok done) s = committed size sidecar_written done s

  -- `_append_locked`; `size` and `size_after` are the database files' sizes before and after
  unfoldable pub append_locked :
      List Item → Option Cursor → Bool → ℕ → ℕ → Bool → Spool → Outcome (List ℕ) × Spool
  append_locked items cursor force size size_after sidecar_written s =
      let s' = (if force then s else refresh size s) in
      if not force && s'.full
      then (raised spool_full, s')
      else finish_append size_after sidecar_written (rows_written items s'.db s'.producer_seq)
          (transact items cursor s'.db s'.producer_seq) s'

-- `mark_acked`
unfoldable pub mark_acked : ℕ → List ℕ → ℕ → Spool → Spool
mark_acked now seqs size s =
    refresh size (record s { db = record s.db { rows = update_rows (ack_row now seqs) s.db.rows } })

-- `prune`
unfoldable pub prune : ℕ → ℕ → Spool → Spool
prune now size s = refresh size (record s {
  db = record s.db { rows = delete_rows (is_prunable (now - acked_keep_ms)) s.db.rows };
})

-- `type IN (...)`
unfoldable pub one_of : String → List String → Bool
one_of kind [] = false
one_of kind (t ∷ types) = str_eq kind t || one_of kind types

-- the WHERE of `pending`; an empty list of types returns early with no row, as it does here
unfoldable pub is_wanted : Option (List String) → Row → Bool
unfolding is_pending one_of
is_wanted none r = is_pending r
is_wanted (some types) r = is_pending r && one_of r.kind types

-- `pending`
unfoldable pub pending_rows : ℕ → Option (List String) → Spool → List Row
pending_rows limit types s = select_rows (is_wanted types) limit s.db.rows

-- `_other_site_rows`: `site_of` reads the site id of a body, none if there is no usable one
unfoldable pub is_other_site : (String → Option String) → Option String → Row → Bool
is_other_site site_of site_id r = is_pending r && elim (site_of r.body) [
  | none ↦ false
  | some site ↦ elim site_id [ none ↦ true | some own_site ↦ not (str_eq site own_site) ]
]

unfoldable pub drop_row : (String → Option String) → Option String → String → ℕ → Row → Row
drop_row site_of site_id why now r =
    if is_other_site site_of site_id r
    then record r { state = dropped; acked_at = some now; reason = some why }
    else r

-- `drop_waiting_for_other_site`
unfoldable pub drop_waiting : (String → Option String) → Option String → String → ℕ → Db → Db
drop_waiting site_of site_id why now db = record db {
  rows = update_rows (drop_row site_of site_id why now) db.rows;
}
