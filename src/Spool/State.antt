-- ===== src/Spool/State.antt =====
-- agent_mes_spool.py: the tables of the SQLite database as lists, and the statements the module runs
-- on them. Times are in milliseconds.
use text.Mathlib.Text.{◌==◌ as str_eq}
use linuxcnc_status_monitor.Common.{
  ℕ, zero, suc, String, Bool, true, false, not, ◌&&◌, ◌||◌, Option, none, some, List, [], ◌∷◌, ◌++◌,
  contains, ltb, if◌then◌else◌,
}

pub data RowState : Type 0 where
  pending acked dropped : RowState

-- a row of the table `spool`
pub record Row : Type 0 where
  pub seq : ℕ
  pub event_id : String
  pub kind : String
  pub occurred_at : ℕ
  pub body : String
  pub state : RowState
  pub acked_at : Option ℕ
  pub reason : Option String

pub record Cursor : Type 0 where
  pub source : String
  pub epoch : String
  pub position : ℕ

-- The tables `spool` (in the order of `seq`) and `cursors`, the `producer_seq` of `meta`, and what
-- SQLite keeps in `sqlite_sequence` for the spool: the largest `seq` ever given out.
pub record Db : Type 0 where
  pub rows : List Row
  pub row_seq : ℕ
  pub cursors : List Cursor
  pub producer_seq : ℕ

unfoldable pub is_pending : Row → Bool
is_pending r = elim r.state [ pending ↦ true | acked ↦ false | dropped ↦ false ]

-- `INSERT INTO spool`: a second row with one event id is refused
unfoldable pub has_event : String → List Row → Bool
has_event id [] = false
has_event id (r ∷ rows) = str_eq id r.event_id || has_event id rows

unfoldable pub insert_row : Row → Db → Option Db
insert_row r db =
    if has_event r.event_id db.rows
    then none
    else some (record db { rows = db.rows ++ r ∷ []; row_seq = r.seq })

-- `INSERT INTO cursors ... ON CONFLICT(source) DO UPDATE`
unfoldable pub set_cursor : Cursor → List Cursor → List Cursor
set_cursor c [] = c ∷ []
set_cursor c (d ∷ cs) = if str_eq c.source d.source then c ∷ cs else d ∷ set_cursor c cs

-- `Spool.cursor`
unfoldable pub get_cursor : String → List Cursor → Option Cursor
get_cursor source [] = none
get_cursor source (c ∷ cs) = if str_eq source c.source then some c else get_cursor source cs

-- `UPDATE spool SET state='acked', acked_at=? WHERE seq=? AND state='pending'`, for each given seq
unfoldable pub ack_row : ℕ → List ℕ → Row → Row
unfolding is_pending
ack_row now seqs r =
    if is_pending r && contains r.seq seqs
    then record r { state = acked; acked_at = some now }
    else r

-- `acked_at < ?`, which is not true of NULL
unfoldable pub older_than : ℕ → Option ℕ → Bool
older_than cutoff none = false
older_than cutoff (some t) = ltb t cutoff

-- the rows that `prune` deletes
unfoldable pub is_prunable : ℕ → Row → Bool
unfolding is_pending older_than
is_prunable cutoff r = not (is_pending r) && older_than cutoff r.acked_at

unfoldable pub update_rows : (Row → Row) → List Row → List Row
update_rows f [] = []
update_rows f (r ∷ rows) = f r ∷ update_rows f rows

unfoldable pub delete_rows : (Row → Bool) → List Row → List Row
delete_rows p [] = []
delete_rows p (r ∷ rows) = if p r then delete_rows p rows else r ∷ delete_rows p rows

-- `SELECT ... WHERE ... ORDER BY seq LIMIT ?`
unfoldable pub select_rows : (Row → Bool) → ℕ → List Row → List Row
select_rows p zero rows = []
select_rows p (suc limit) [] = []
select_rows p (suc limit) (r ∷ rows) = elim (p r) [
  | true ↦ r ∷ select_rows p limit rows
  | false ↦ select_rows p (suc limit) rows
]
