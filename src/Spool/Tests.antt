-- ===== src/Spool/Tests.antt =====
-- agent_mes_spool.py: the theorems at concrete tables, with a contract that accepts every own event
-- and every event of another producer that is not empty.
use text.Mathlib.Text.{◌==◌ as str_eq}
use linuxcnc_status_monitor.Common.{
  ℕ, ◌+◌, ◌≡◌, refl, String, true, false, Option, none, some, List, [], ◌∷◌, if◌then◌else◌, arith,
}
use linuxcnc_status_monitor.Spool.State.{Row, pending, acked, Cursor, Db, insert_row, has_event}
use linuxcnc_status_monitor.Spool.Store.{
  Spool, Item, own, raw, Contract, ok, refresh, append_locked, finish_append, transact,
  insert_items, make_row, committed,
}
use linuxcnc_status_monitor.Spool.Epoch.{
  Meta, Sidecar, open_epoch, choose_epoch, known_producer, is_restored, IsFresh, open_epoch-IsFresh,
}
use linuxcnc_status_monitor.Spool.Append.{Stored, append-Stored}
use linuxcnc_status_monitor.Spool.Order.{Ascends, IsOrdered, append-IsOrdered}

abbrev contract : Contract
contract = record {
  encode = λ kind payload occurred id producer_seq rowseq. some payload;
  decode = λ body.
      if str_eq body ""
      then none
      else some (record { event_id = body; kind = "op"; occurred_at = 5 });
}

abbrev row_of : ℕ → String → Row
row_of seq id = record {
  seq = seq;
  event_id = id;
  kind = "cycle";
  occurred_at = 1;
  body = id;
  state = pending;
  acked_at = none;
  reason = none;
}

-- rows 3 (acknowledged long ago) and 5 (waiting); 6 was the last number given out
abbrev tables : Db
tables = record {
  rows = record (row_of 3 "e3") { state = acked; acked_at = some 10 } ∷ row_of 5 "e5" ∷ [];
  row_seq = 6;
  cursors = [];
  producer_seq = 2;
}

abbrev spool : Spool
spool = record {
  db = tables;
  producer_seq = 2;
  sidecar_seq = 2;
  budget = 1000;
  full = false;
  waiting = 1;
}

abbrev items : List Item
items = own "cycle" "p" 7 "n1" ∷ raw "n2" ∷ []

abbrev cursor : Option Cursor
cursor = some (record { source = "log"; epoch = "1"; position = 9 })

append_ok : (append_locked contract items cursor false 10 20 true spool).0 ≡ ok (7 ∷ 8 ∷ [])
unfolding append_locked finish_append transact insert_items make_row committed refresh insert_row
    has_event
append_ok = refl

append-Stored_example :
    Stored contract items cursor tables 2
      (7 ∷ 8 ∷ [])
      (append_locked contract items cursor false 10 20 true spool).1
append-Stored_example = append-Stored contract items cursor false 10 20 true spool append_ok

-- the second item has the event id of a stored row
abbrev clash : List Item
clash = own "cycle" "p" 7 "n1" ∷ raw "e5" ∷ []

append-IsOrdered_example :
    IsOrdered (append_locked contract items cursor false 10 20 true spool).1.db
    × Ascends 6 (7 ∷ 8 ∷ []) (6 + 2)
append-IsOrdered_example =
    append-IsOrdered contract items cursor false 10 20 true spool (omega arith, omega arith)
      append_ok

-- the database was restored from a copy made at number 4, after number 9 had been used
abbrev side : Sidecar
side = record { producer_id = "p1"; epoch = "e1"; seq = 9 }

abbrev restored : Meta
restored = record { producer_id = some "p1"; epoch = some "e1"; producer_seq = 4 }

open_epoch-IsFresh_example :
    IsFresh side (some "e1") 4 "e2" (open_epoch (some side) restored "p2" "e2")
unfolding open_epoch choose_epoch known_producer is_restored
open_epoch-IsFresh_example = open_epoch-IsFresh side restored "p2" "e2" refl
