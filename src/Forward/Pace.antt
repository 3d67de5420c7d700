-- ===== src/Forward/Pace.antt =====
-- agent_mes_forward.py: the delay through the requests of one step.
use linuxcnc_status_monitor.Common.{
  ℕ, ◌≤◌, ◌≡◌, ◌⊎◌, refl, String, true, false, Option, none, some, List, [], ◌∷◌, is_some, arith,
}
use linuxcnc_status_monitor.Spool.State.{Row}
use linuxcnc_status_monitor.Spool.Store.{Spool}
use linuxcnc_status_monitor.Forward.Sending.{
  Answer, certificate, unreachable, answered, Forwarder, set_ok, set_offline, set_refused,
  halve_cap, grow_cap, batch_of, take_receipts, take_status, take_answer, send_batch, send_once,
}
use linuxcnc_status_monitor.Forward.Session.{
  CapsReply, caps_certificate, caps_unreachable, caps_answered, set_limits, read_capabilities,
  ask_capabilities,
}
use linuxcnc_status_monitor.Forward.Loop.{is_offline}

-- The delay is nothing or at least a second; and it is at least a second while the service is offline,
-- once the capabilities are known.
pub record IsPaced (f : Forwarder) : Type 0 where
  pub no_short_delay : (f.backoff ≡ 0) ⊎ (1000 ≤ f.backoff)
  pub offline_waits :
      f.has_transport ≡ true → is_offline f.link ≡ true → is_some f.types ≡ true → 1000 ≤ f.backoff

module _ (bytes : String → ℕ) (event_id_of : String → Option String) where
  take_answer-IsPaced :
      (now size : ℕ) (batch : List Row) (answer : Answer) (f : Forwarder) (s : Spool)
      → IsPaced f
      → IsPaced (take_answer bytes event_id_of now size batch answer f s).1
        × ((take_answer bytes event_id_of now size batch answer f s).1.types ≡ f.types)
  unfolding take_answer take_status take_receipts set_ok set_offline set_refused halve_cap grow_cap
      is_offline
  take_answer-IsPaced now size batch (certificate link) f s v = ground arith
  take_answer-IsPaced now size batch (unreachable counted) f s v = ground arith
  take_answer-IsPaced now size batch (answered status none) f s v = ground arith
  take_answer-IsPaced now size batch (answered status (some rcs)) f s v = ground arith

  send_batch-IsPaced :
      (now size : ℕ) (batch : List Row) (answer : Answer) (f : Forwarder) (s : Spool)
      → IsPaced f
      → IsPaced (send_batch bytes event_id_of now size batch answer f s).1
        × ((send_batch bytes event_id_of now size batch answer f s).1.types ≡ f.types)
  unfolding send_batch
  send_batch-IsPaced now size [] answer f s v = (v, refl)
  send_batch-IsPaced now size (r ∷ rows) answer f s v =
      take_answer-IsPaced now size (r ∷ rows) answer f s v

  pub send_once-IsPaced :
      (now size : ℕ) (answer : Answer) (f : Forwarder) (s : Spool)
      → IsPaced f
      → IsPaced (send_once bytes event_id_of now size answer f s).1
        × ((send_once bytes event_id_of now size answer f s).1.types ≡ f.types)
  unfolding send_once
  send_once-IsPaced now size answer f s v =
      send_batch-IsPaced now size (batch_of bytes event_id_of f s) answer f s v

  pub ask-IsPaced :
      (reply : CapsReply) (f : Forwarder)
      → IsPaced f
      → IsPaced (ask_capabilities reply f).1
        × ((ask_capabilities reply f).0 ≡ true → is_some (ask_capabilities reply f).1.types ≡ true)
        × ((ask_capabilities reply f).0 ≡ false
            → (ask_capabilities reply f).1.has_transport ≡ true
            → 1000 ≤ (ask_capabilities reply f).1.backoff)
  unfolding ask_capabilities read_capabilities set_ok set_offline set_refused is_offline set_limits
  ask-IsPaced (caps_certificate link) f v = ground arith
  ask-IsPaced (caps_unreachable counted) f v = ground arith
  ask-IsPaced (caps_answered status none) f v = ground arith
  ask-IsPaced (caps_answered status (some doc)) f v = ground arith
