-- ===== src/Link/Outbox.antt =====
-- agent_mes_link.py: `OutboxReader`, which copies MillWright's outbox into the spool, and remembers who
-- is logged in on MillWright.
use text.Mathlib.Text.{◌==◌ as str_eq}
use linuxcnc_status_monitor.Common.{
  ℕ, zero, suc, String, Bool, true, false, not, ◌||◌, Option, none, some, List, [], ◌∷◌, length,
  ltb, leb, if◌then◌else◌,
}
use linuxcnc_status_monitor.Spool.State.{Cursor, get_cursor}
use linuxcnc_status_monitor.Spool.Store.{
  Spool, Item, raw, Contract, spool_full, spool_error, integrity_error, Outcome, ok, raised,
  append_locked,
}

-- a row of MillWright's table `mw_outbox`
pub record OutRow : Type 0 where
  pub seq : ℕ
  pub kind : String
  pub body : String

-- The operator readout: the values of the event, None where there is none.
pub record Operator : Type 0 where
  pub name : Option String
  pub role : Option String
  pub assurance : Option String
  pub operator_session_id : Option String
  pub since : Option String

-- What `json.loads` and `dict.get` say of an event: its type, and the operator it names, none if
-- payload or correlation is no object.
pub record LoginEvent : Type 0 where
  pub kind : Option String
  pub named : Option Operator

-- what `mes_ack.json` holds
pub record Ack : Type 0 where
  pub epoch : String
  pub seq : ℕ

pub record Reader : Type 0 where
  pub operator : Option Operator
  pub op_epoch : Option String
  pub op_seq : ℕ
  pub ack : Option Ack

-- a query goes through, or raises `sqlite3.OperationalError`, or raises something else
pub data Query : Type 0 where
  goes_through operational_error other_error : Query

-- MillWright's database as one step finds it: whether the file is there and `sqlite3.connect` opens it,
-- the epoch in its table `state`, the outbox in the order of `seq`, and what becomes of the query for the
-- epoch, for the last operator event and for the new rows
pub record Outbox : Type 0 where
  pub exists : Bool
  pub connects : Bool
  pub epoch : Option String
  pub rows : List OutRow
  pub epoch_query : Query
  pub operator_query : Query
  pub rows_query : Query

-- what the rest of the machine does in one step: the database files' sizes before and after the
-- append, and whether the sidecar and mes_ack.json can be written
pub record Disk : Type 0 where
  pub size : ℕ
  pub size_after : ℕ
  pub sidecar_written : Bool
  pub ack_written : Bool

-- a step returns how many events it stored, or lets an exception through
pub data StepAnswer : Type 0 where
  stored : ℕ → StepAnswer
  uncaught : StepAnswer

abbrev pub batch : ℕ
batch = 200

abbrev pub outbox_source : String
outbox_source = "millwright"

unfoldable pub is_operator_kind : String → Bool
is_operator_kind kind =
    str_eq kind "operator.session_started" || str_eq kind "operator.session_ended"

-- who is logged in after an event; none if the event says nothing of it
unfoldable pub operator_after : Option LoginEvent → Option (Option Operator)
unfolding is_operator_kind
operator_after none = none
operator_after (some ev) = elim ev.kind [
  | none ↦ none
  | some kind ↦
      if not (is_operator_kind kind)
      then none
      else if str_eq kind "operator.session_started"
      then elim ev.named [ none ↦ none | some op ↦ some (some op) ]
      else some none
]

unfoldable pub note_operator : ℕ → Option (Option Operator) → Reader → Reader
note_operator seq none r = r
note_operator seq (some op) r = record r { op_seq = seq; operator = op }

-- `SELECT ... WHERE seq > ? ORDER BY seq LIMIT ?`
unfoldable pub rows_after : ℕ → ℕ → List OutRow → List OutRow
rows_after pos zero rows = []
rows_after pos (suc limit) [] = []
rows_after pos (suc limit) (r ∷ rows) = elim (ltb pos r.seq) [
  | true ↦ r ∷ rows_after pos limit rows
  | false ↦ rows_after pos (suc limit) rows
]

-- `SELECT ... WHERE type IN (?, ?) ORDER BY seq DESC LIMIT 1`
unfoldable pub last_operator_row : List OutRow → Option OutRow
unfolding is_operator_kind
last_operator_row [] = none
last_operator_row (r ∷ rows) =
    let rest = last_operator_row rows in
    elim rest [ some last ↦ some last | none ↦ if is_operator_kind r.kind then some r else none ]

-- the `seq` of the last row of a batch
unfoldable pub last_seq : OutRow → List OutRow → ℕ
last_seq r [] = r.seq
last_seq r (x ∷ rows) = last_seq x rows

unfoldable pub position_in : String → Option Cursor → ℕ
position_in epoch none = 0
position_in epoch (some c) = if str_eq c.epoch epoch then c.position else 0

abbrev pub items_of : List OutRow → List Item
items_of [] = []
items_of (r ∷ rows) = raw r.body ∷ items_of rows

-- `write_ack`: replaces the file, or raises and leaves it
unfoldable pub write_ack : Bool → String → ℕ → Reader → Bool × Reader
write_ack true epoch seq r = (true, record r { ack = some (record { epoch = epoch; seq = seq }) })
write_ack false epoch seq r = (false, r)

unfoldable pub answer_of : Bool → ℕ → StepAnswer
answer_of true n = stored n
answer_of false n = uncaught

-- a new epoch: the login state starts with the last operator event of the outbox
unfoldable pub enter_epoch : String → Reader → Reader
enter_epoch epoch r = record r { op_epoch = some epoch; op_seq = 0; operator = none }

unfoldable pub is_epoch : String → Option String → Bool
is_epoch epoch none = false
is_epoch epoch (some e) = str_eq epoch e

-- the cursor of the outbox is of this epoch
unfoldable pub has_position : String → Option Cursor → Bool
has_position epoch none = false
has_position epoch (some c) = str_eq c.epoch epoch

module _ (decode : String → Option LoginEvent) where
  unfoldable pub see_operator : OutRow → Reader → Reader
  unfolding operator_after note_operator
  see_operator row r =
      if leb row.seq r.op_seq then r else note_operator row.seq (operator_after (decode row.body)) r

  unfoldable pub see_operators : List OutRow → Reader → Reader
  unfolding see_operator
  see_operators [] r = r
  see_operators (row ∷ rows) r = see_operators rows (see_operator row r)

  unfoldable pub see_last : Option OutRow → Reader → Reader
  unfolding see_operator
  see_last none r = r
  see_last (some row) r = see_operator row r

-- the `except` around the queries catches `sqlite3.OperationalError` only
unfoldable pub after_query :
    Query → Reader → Spool → StepAnswer × Reader × Spool → StepAnswer × Reader × Spool
after_query goes_through r s next = next
after_query operational_error r s next = (stored 0, r, s)
after_query other_error r s next = (uncaught, r, s)

-- what holds in all three cases
pub after_query_rule :
    (P : StepAnswer × Reader × Spool → Type 0) (q : Query) (r : Reader) (s : Spool)
    (next : StepAnswer × Reader × Spool)
    → P (stored 0, r, s)
    → P (uncaught, r, s)
    → P next
    → P (after_query q r s next)
unfolding after_query
after_query_rule P goes_through r s next caught escaped on = on
after_query_rule P operational_error r s next caught escaped on = caught
after_query_rule P other_error r s next caught escaped on = escaped

module _ (contract : Contract) where
  unfoldable pub after_append :
      Disk → String → ℕ → ℕ → Outcome (List ℕ) × Spool → Reader → StepAnswer × Reader × Spool
  unfolding write_ack answer_of
  after_append disk epoch last count (raised spool_full, s) r = (stored 0, r, s)
  after_append disk epoch last count (raised spool_error, s) r = (stored 0, r, s)
  after_append disk epoch last count (raised integrity_error, s) r = (uncaught, r, s)
  after_append disk epoch last count (ok seqs, s) r =
      let written = write_ack disk.ack_written epoch last r in
      (answer_of written.0 count, written.1, s)

  -- the rows are read: the acknowledgement again if there are none, or the append
  unfoldable pub store_rows :
      Disk → String → Option Cursor → List OutRow → Reader → Spool → StepAnswer × Reader × Spool
  unfolding write_ack answer_of position_in has_position after_append last_seq
  store_rows disk epoch cur [] r s =
      if has_position epoch cur
      then (let written = write_ack disk.ack_written epoch (position_in epoch cur) r in
          (answer_of written.0 0, written.1, s))
      else (stored 0, r, s)
  store_rows disk epoch cur (row ∷ rows) r s =
      let last = last_seq row rows in
      let cursor : Cursor = record { source = outbox_source; epoch = epoch; position = last } in
      after_append disk epoch last (length (row ∷ rows))
        (append_locked contract (items_of (row ∷ rows)) (some cursor) false disk.size
          disk.size_after disk.sidecar_written s)
        r

  module _ (decode : String → Option LoginEvent) where
    unfoldable pub read_rows : Disk → String → Outbox → Reader → Spool → StepAnswer × Reader × Spool
    unfolding see_operators rows_after position_in store_rows after_query
    read_rows disk epoch ob r s =
        let cur = get_cursor outbox_source s.db.cursors in
        let rows = rows_after (position_in epoch cur) batch ob.rows in
        after_query ob.rows_query r s
          (store_rows disk epoch cur rows (see_operators decode rows r) s)

    unfoldable pub read_epoch :
        Disk → String → Outbox → Reader → Spool → StepAnswer × Reader × Spool
    unfolding is_epoch enter_epoch see_last last_operator_row read_rows after_query
    read_epoch disk epoch ob r s =
        if is_epoch epoch r.op_epoch
        then read_rows disk epoch ob r s
        else after_query ob.operator_query (enter_epoch epoch r) s (
            read_rows disk epoch ob
              (see_last decode (last_operator_row ob.rows) (enter_epoch epoch r)) s)

    -- `step`
    unfoldable pub step : Disk → Outbox → Reader → Spool → StepAnswer × Reader × Spool
    unfolding read_epoch after_query
    step disk ob r s =
        if not ob.exists
        then (stored 0, r, s)
        else if not ob.connects
        then (uncaught, r, s)
        else after_query ob.epoch_query r s
            (elim ob.epoch [ none ↦ (stored 0, r, s) | some epoch ↦ read_epoch disk epoch ob r s ])
