-- ===== src/Forward/Steady.antt =====
-- agent_mes_forward.py: the size of the next batch and the delay stay in their bounds.
use linuxcnc_status_monitor.Common.{ℕ, ◌≤◌, String, Option, none, some, List, [], ◌∷◌, arith}
use linuxcnc_status_monitor.Spool.State.{Row}
use linuxcnc_status_monitor.Spool.Store.{Spool}
use linuxcnc_status_monitor.Forward.Sending.{
  Answer, certificate, unreachable, answered, Forwarder, backoff_max_ms, set_ok, set_offline,
  set_refused, halve_cap, grow_cap, batch_of, take_receipts, take_status, take_answer, send_batch,
  send_once,
}

module _ (bytes : String → ℕ) (event_id_of : String → Option String) where
  -- the size of the next batch stays at least 1, and the delay at most five minutes
  pub record IsSteady (f : Forwarder) : Type 0 where
    pub some_events : 1 ≤ f.max_events
    pub cap_left : 1 ≤ f.batch_cap
    pub delay_bounded : f.backoff ≤ backoff_max_ms

  take_answer-IsSteady :
      (now size : ℕ) (batch : List Row) (answer : Answer) (f : Forwarder) (s : Spool)
      → IsSteady f
      → IsSteady (take_answer bytes event_id_of now size batch answer f s).1
  unfolding take_answer take_status take_receipts set_ok set_offline set_refused halve_cap grow_cap
  take_answer-IsSteady now size batch (certificate link) f s v = ground arith
  take_answer-IsSteady now size batch (unreachable counted) f s v = ground arith
  take_answer-IsSteady now size batch (answered status none) f s v = ground arith
  take_answer-IsSteady now size batch (answered status (some rcs)) f s v = ground arith

  send_batch-IsSteady :
      (now size : ℕ) (batch : List Row) (answer : Answer) (f : Forwarder) (s : Spool)
      → IsSteady f
      → IsSteady (send_batch bytes event_id_of now size batch answer f s).1
  unfolding send_batch
  send_batch-IsSteady now size [] answer f s v = v
  send_batch-IsSteady now size (r ∷ rows) answer f s v =
      take_answer-IsSteady now size (r ∷ rows) answer f s v

  -- If at least one event a batch is allowed, sending keeps the size of the next batch at least 1
  -- and the delay at most five minutes.
  pub send_once-IsSteady :
      (now size : ℕ) (answer : Answer) (f : Forwarder) (s : Spool)
      → IsSteady f
      → IsSteady (send_once bytes event_id_of now size answer f s).1
  unfolding send_once
  send_once-IsSteady now size answer f s v =
      send_batch-IsSteady now size (batch_of bytes event_id_of f s) answer f s v
