-- ===== src/Forward/Tests.antt =====
-- agent_mes_forward.py: the theorems at a small spool; every body has ten bytes and is its own event id.
use linuxcnc_status_monitor.Common.{ℕ, ◌+◌, ◌≤◌, String, true, false, none, some, [], ◌∷◌, arith}
use linuxcnc_status_monitor.Spool.State.{Row, pending, Db}
use linuxcnc_status_monitor.Spool.Store.{Spool}
use linuxcnc_status_monitor.Forward.Sending.{
  stored, refused, Answer, answered, Forwarder, not_enrolled, offline, set_offline, envelope_bytes,
  batch_of, send_once,
}
use linuxcnc_status_monitor.Common.{◌≡◌, refl, inr}
use linuxcnc_status_monitor.Forward.Session.{
  Session, caps_unreachable, ask_capabilities, look, switch_to, first_answering, has_text,
}
use linuxcnc_status_monitor.Forward.Loop.{
  World, forward_step, run_step, after_capabilities, look_or_wait,
}
use linuxcnc_status_monitor.Forward.Waits.{Paced}
use linuxcnc_status_monitor.Forward.Progress.{url_in_use, forward_step-Paced}
use linuxcnc_status_monitor.Forward.Delivery.{
  events_bytes, AllWithin, batch_of-fits, Delivered, send_once-Delivered,
}
use linuxcnc_status_monitor.Forward.Steady.{IsSteady, send_once-IsSteady}

abbrev bytes : String → ℕ
bytes body = 10

abbrev row_of : ℕ → String → Row
row_of seq id = record {
  seq = seq;
  event_id = id;
  kind = "cycle";
  occurred_at = 1;
  body = id;
  state = pending;
  acked_at = none;
  reason = none;
}

abbrev tables : Db
tables = record {
  rows = row_of 3 "e3" ∷ row_of 5 "e5" ∷ row_of 6 "e6" ∷ [];
  row_seq = 6;
  cursors = [];
  producer_seq = 2;
}

abbrev spool : Spool
spool = record {
  db = tables;
  producer_seq = 2;
  sidecar_seq = 2;
  budget = 1000;
  full = false;
  waiting = 3;
}

-- two events of ten bytes go in one batch of at most 40 bytes
abbrev forwarder : Forwarder
forwarder = record {
  max_events = 200;
  max_bytes = 40;
  max_event = 20;
  types = none;
  batch_cap = 200;
  backoff = 4_000;
  fails = 0;
  link = not_enrolled;
  has_transport = true;
}

-- the receipt of the second event names another one
abbrev answer : Answer
answer = answered 200 (
    some (
      record { status = stored; event_id = some "e3" }
      ∷ record { status = refused; event_id = some "e9" }
      ∷ []))

batch_of-fits_example :
    (envelope_bytes + events_bytes bytes some false (batch_of bytes some forwarder spool) ≤ 40)
    × AllWithin bytes some 20 (batch_of bytes some forwarder spool)
batch_of-fits_example = batch_of-fits bytes some forwarder spool (omega arith)

send_once-Delivered_example :
    Delivered bytes some spool
      (batch_of bytes some forwarder spool)
      answer
      (send_once bytes some 20 50 answer forwarder spool).2
send_once-Delivered_example = send_once-Delivered bytes some 20 50 answer forwarder spool

send_once-IsSteady_example :
    IsSteady bytes some (send_once bytes some 20 50 answer forwarder spool).1
send_once-IsSteady_example =
    send_once-IsSteady bytes some 20 50 answer forwarder spool
      (record { some_events = omega arith; cap_left = omega arith; delay_bounded = omega arith })

-- the service has moved to "b", which answers
abbrev session : Session
session = record {
  forwarder = record forwarder { fails = 3; link = offline };
  spool = spool;
  machine_id = "m";
  configured_url = "a";
  url = "a";
  site_id = some "s";
  ca_sha256 = some "c";
  caps_at = none;
  cert_stamp = none;
}

abbrev world : World
world = record {
  files = record { enrolment = none; found = none; ca_sha256 = none; stamp = none; usable = false };
  wall = 0;
  clock = 5;
  capabilities = caps_unreachable true;
  answer = answer;
  found = some (record { url = "b"; answers = true } ∷ []);
  rand = 500;
  now = 20;
  size = 50;
}

at_once : (forward_step bytes some world session).0 ≡ 0
unfolding forward_step run_step ask_capabilities set_offline after_capabilities look_or_wait look
    switch_to first_answering has_text
at_once = refl

forward_step-Paced_example :
    Paced bytes some world (url_in_use world session) (forward_step bytes some world session)
forward_step-Paced_example =
    forward_step-Paced bytes some world session
      (record { no_short_delay = inr (omega arith); offline_waits = λ t o k. omega arith })
