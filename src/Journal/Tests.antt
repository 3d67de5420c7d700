-- ===== src/Journal/Tests.antt =====
-- agent_journal.py: the theorems at a small table and a small journal; change keys are numbers.
use linuxcnc_status_monitor.Common.{
  ◌≤◌, ℕ, ◌*◌, ◌≡◌, refl, true, false, none, some, [], ◌∷◌, ◌==◌, arith, List,
}
use linuxcnc_status_monitor.Journal.Reply.{
  integer, null, build_reply, seq_arg, to_seq_arg, in_range, fresh_nonce, known_nonce, Entry,
  last_seq_of,
}
use linuxcnc_status_monitor.Journal.Between.{between, Ascends, AllReadable}
use linuxcnc_status_monitor.Journal.Paging.{fetch, fetch_all}
use linuxcnc_status_monitor.Journal.Writer.{disk_low, SameKey, Journal, Packet, new_journal}
use linuxcnc_status_monitor.Journal.Server.{
  Request, Datagram, Server, answer_datagram, answer_parsed, answer_fresh, send_reply,
  reply_to_request, is_allowed, roll_window, receive,
}
use linuxcnc_status_monitor.Journal.Replay.{Round, rounds, replayed_datagram_refused, receive-rate}

abbrev entry : ℕ → Entry
entry n = record { seq = n; ts_ms = 100 * n; data_bytes = 300; readable = true }

abbrev table : List Entry
table = entry 2 ∷ entry 3 ∷ entry 5 ∷ entry 9 ∷ []

table-Ascends : Ascends 0 table
table-Ascends = (omega arith, (omega arith, (omega arith, (omega arith, tt))))

table-AllReadable : AllReadable table
table-AllReadable = (refl, (refl, (refl, (refl, tt))))

fetch_all_example : fetch 1000 4 2 table ≡ between 2 (last_seq_of table) table
unfolding last_seq_of
fetch_all_example = fetch_all 1000 3 2 table table-Ascends table-AllReadable (omega arith)

abbrev numbers : SameKey ℕ
numbers = record { same = λ a b. a == b }

-- open, with the disk checked at 50 s and the last entry, number 7, written at 55 s
abbrev journal : Journal ℕ
journal = record (new_journal 10_000 100) {
  is_open = true;
  last_disk_check = some 50_000;
  last_key = some 1;
  last_seq = 7;
  last_write = 55_000;
}

abbrev packet : Packet ℕ
packet = record { key = 2; has_nml = false }

abbrev full_disk : Journal ℕ
full_disk = record journal { state = disk_low }

abbrev asked : Request
asked = record {
  is_request = true;
  nonce = some ("n1", 8);
  from_arg = integer 0;
  to_arg = null;
  builds = true;
}

abbrev datagram : Datagram
datagram = record { sender = none; signed = true; request = some asked; deliverable = true }

abbrev server : Server
server = record {
  max_rate = 50;
  has_key = true;
  allow = [];
  nonces = [];
  refused = 0;
  bad_requests = 0;
  window_start = 0;
  sent_in_window = 3;
}

-- a datagram that is no JSON, in between
abbrev quiet : Round
quiet = record {
  table = table;
  now = 700;
  datagram = record { sender = none; signed = true; request = none; deliverable = true };
}

replayed_datagram_refused_example :
    (receive [] 900 datagram (rounds (quiet ∷ []) (receive table 500 datagram server).1)).0 ≡ false
unfolding receive roll_window answer_datagram answer_parsed answer_fresh send_reply build_reply
    reply_to_request seq_arg to_seq_arg in_range fresh_nonce known_nonce is_allowed
replayed_datagram_refused_example =
    replayed_datagram_refused table [] 500 900 datagram (quiet ∷ []) server refl refl (omega arith)

receive-rate_example :
    let out = receive table 500 datagram server in
    (out.1.sent_in_window ≤ out.1.max_rate) × (out.1.max_rate ≡ 50)
receive-rate_example = receive-rate table 500 datagram server (omega arith)
