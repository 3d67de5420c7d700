-- ===== src/Link/Tests.antt =====
-- agent_mes_link.py: the theorems at a small outbox and a short cycle.
use text.Mathlib.Text.{◌==◌ as str_eq}
use linuxcnc_status_monitor.Common.{
  ◌≤◌, ◌≡◌, ◌≢◌, refl, String, true, false, Option, none, some, List, [], ◌∷◌, ◌++◌, if◌then◌else◌,
  arith,
}
use linuxcnc_status_monitor.Spool.State.{Db, has_event, get_cursor}
use linuxcnc_status_monitor.Spool.Store.{Spool, Contract}
use linuxcnc_status_monitor.Link.Current.{str, null, Library}
use linuxcnc_status_monitor.Link.CycleLink.{CycleLink, Fact, unmatched, start, end_cycle}
use linuxcnc_status_monitor.Link.Recorded.{
  Recorded, IsIn, contents_of, Call, polled, changed, calls, Recorded-end_cycle,
}
use linuxcnc_status_monitor.Link.Outbox.{
  OutRow, goes_through, Operator, LoginEvent, Reader, Outbox, Disk, position_in, is_epoch,
  operator_after, is_operator_kind, step, rows_after, batch,
}
use linuxcnc_status_monitor.Link.Copying.Batches.{up_to, end_of}
use linuxcnc_status_monitor.Link.Copying.Stored.{out_bodies, position, acked_in}
use linuxcnc_status_monitor.Link.Copying.Run.{Run, begin, copy, added, run-Copied}
use linuxcnc_status_monitor.Link.Copying.Progress.{Stores, step-Stores}
use linuxcnc_status_monitor.Link.Operators.{last_login, step-operator}
use linuxcnc_status_monitor.Link.Worker.{Texts, Worker, Round, run_once}
use linuxcnc_status_monitor.Link.Drain.{run_once-ends}

abbrev contract : Contract
contract = record {
  encode = λ kind payload occurred id producer_seq rowseq. some payload;
  decode = λ body. some (record { event_id = body; kind = "op"; occurred_at = 5 });
}

abbrev somebody : Operator
somebody = record {
  name = some "Ann";
  role = none;
  assurance = none;
  operator_session_id = none;
  since = none;
}

-- "login" logs Ann in; the other events say nothing of an operator
abbrev decode : String → Option LoginEvent
decode body =
    if str_eq body "login"
    then some (record { kind = some "operator.session_started"; named = some somebody })
    else some (record { kind = some "run.started"; named = none })

abbrev events : List OutRow
events =
    record { seq = 1; kind = "run.started"; body = "a" }
    ∷ record { seq = 3; kind = "operator.session_started"; body = "login" }
    ∷ []

abbrev tables : Db
tables = record { rows = []; row_seq = 4; cursors = []; producer_seq = 2 }

abbrev spool : Spool
spool = record {
  db = tables;
  producer_seq = 2;
  sidecar_seq = 2;
  budget = 1000;
  full = false;
  waiting = 0;
}

abbrev reader : Reader
reader = record { operator = none; op_epoch = none; op_seq = 0; ack = none }

abbrev outbox : Outbox
outbox = record {
  exists = true;
  connects = true;
  epoch = some "e";
  rows = events;
  epoch_query = goes_through;
  operator_query = goes_through;
  rows_query = goes_through;
}

abbrev disk : Disk
disk = record { size = 10; size_after = 20; sidecar_written = true; ack_written = true }

no_position : position "e" spool ≡ 0
unfolding get_cursor position_in
no_position = refl

abbrev run :
    Run decode contract events "e"
      (step contract decode disk outbox reader spool).1
      (step contract decode disk outbox reader spool).2
      ([] ++ added decode contract spool (step contract decode disk outbox reader spool).2)
run = copy (begin no_position refl) disk outbox 0 9 refl refl (omega arith)

run-Copied_example :
    ([] ++ added decode contract spool (step contract decode disk outbox reader spool).2
      ≡ out_bodies (up_to (position "e" (step contract decode disk outbox reader spool).2) events))
    × (acked_in "e" (step contract decode disk outbox reader spool).1
        ≤ position "e" (step contract decode disk outbox reader spool).2)
run-Copied_example = run-Copied decode contract events "e" (omega arith, (omega arith, tt)) run

step-Stores_example :
    Stores contract "e"
      (rows_after (position "e" spool) batch events)
      (end_of (position "e" spool) (rows_after (position "e" spool) batch events))
      spool
      (step contract decode disk outbox reader spool)
unfolding get_cursor position_in rows_after has_event
step-Stores_example =
    step-Stores contract decode disk "e" events reader spool refl
      ((_, refl, refl, (_, refl, refl, tt))) (omega arith)

step-operator_example :
    (step contract decode disk outbox reader spool).1.operator ≡ last_login decode events none
unfolding is_epoch operator_after is_operator_kind
step-operator_example =
    step-operator contract decode disk "e" events reader spool refl (omega arith, (omega arith, tt))
      (refl, (refl, tt))

abbrev texts : Texts
texts = record { utc_text = λ t. "t"; render = λ p c. p.outcome }

abbrev fact : Fact
fact = record {
  started = 100;
  ended = 250;
  outcome = "completed";
  program_path = str "p.ngc";
  execution_id = str "x";
  method = unmatched;
  operator_session_id = none;
}

abbrev worker : Worker
worker = record {
  reader = some reader;
  spool = spool;
  facts = fact ∷ [];
  waiting = fact ∷ [];
  last_prune = 0;
}

abbrev round : Round
round = record {
  ids = λ i. "l";
  fact_disks = λ i. disk;
  outbox = outbox;
  disks = λ i. disk;
  clock = 5;
  clock_after = 6;
  now = 7;
  size = 20;
}

run_once-ends_example : run_once contract texts decode round worker ≢ none
run_once-ends_example =
    run_once-ends contract decode texts round worker (omega arith, (omega arith, tt))

-- a document of the run "x" that started at 1000
abbrev library : Library
library = record {
  decode = λ bytes. some (record {
    execution_id = str "x";
    operator_session_id = null;
    started_at = null;
    ended_at = null;
    program_path = str "p.ngc";
    run_file = null;
  });
  is_uuid = λ s. str_eq s "x";
  parse_timestamp = λ f. some 1000;
  normpath = λ s. s;
}

abbrev idle : CycleLink
idle = record { mw_data = true; cycle = none; dropped = 0; out = [] }

abbrev made : List Call
made = polled 1600 (some (1 ∷ [])) ∷ changed "q.ngc" none ∷ []

Recorded-end_cycle_example :
    Recorded library
      (IsIn library true (none ∷ contents_of library made))
      (str "own")
      1100
      "completed"
      9000
      idle
      (end_cycle "completed" 9000
        (calls library made (start library "p.ngc" false 1100 "own" none idle)))
Recorded-end_cycle_example =
    Recorded-end_cycle library "p.ngc" false 1100 "own" none made "completed" 9000 idle
