-- ===== src/Forward/Loop.antt =====
-- agent_mes_forward.py: `Forwarder.step`, one round of the loop.

use linuxcnc_status_monitor.Common.{
  ℕ, ◌+◌, ◌*◌, ◌/◌, String, Bool, true, false, not, ◌&&◌, ◌||◌, Option, none, some, List, ltb, leb,
  ◌==◌, is_some, if◌then◌else◌,
}
use linuxcnc_status_monitor.Forward.Sending.{
  Link, link_ok, offline, not_enrolled, cert_expired, rejected, Answer, send_once,
}
use linuxcnc_status_monitor.Forward.Session.{
  CapsReply, Files, Found, Session, ask_capabilities, load_enrolled, look,
}

abbrev pub caps_every_ms : ℕ
caps_every_ms = 3_600_000

abbrev pub recheck_ms : ℕ
recheck_ms = 60_000

abbrev pub idle_poll_ms : ℕ
idle_poll_ms = 2_000

-- what the world answers in one step; `found` is none if there is no finder or it raises, and `rand` is
-- the random number, in thousandths
pub record World : Type 0 where
  pub files : Files
  pub wall : ℕ
  pub clock : ℕ
  pub capabilities : CapsReply
  pub answer : Answer
  pub found : Option (List Found)
  pub rand : ℕ
  pub now : ℕ
  pub size : ℕ

-- `_wait_s`: the delay times `0.5 + 0.5 * rand`
unfoldable pub wait_ms : ℕ → ℕ → ℕ
wait_ms rand backoff = (backoff * 500 + backoff * rand / 2) / 1000

unfoldable pub is_refused : Link → Bool
is_refused link_ok = false
is_refused offline = false
is_refused not_enrolled = false
is_refused cert_expired = true
is_refused rejected = true

unfoldable pub is_offline : Link → Bool
is_offline link_ok = false
is_offline offline = true
is_offline not_enrolled = false
is_offline cert_expired = false
is_offline rejected = false

unfoldable pub same_stamp : Option ℕ → Option ℕ → Bool
same_stamp none none = true
same_stamp none (some b) = false
same_stamp (some a) none = false
same_stamp (some a) (some b) = a == b

-- `self.clock() - (self._caps_at or 0) >= CAPS_EVERY_S`
unfoldable pub is_caps_due : ℕ → Option ℕ → Bool
is_caps_due clock none = leb caps_every_ms clock
is_caps_due clock (some t) = leb (t + caps_every_ms) clock

-- `0.0 if self._look() else self._wait_s()`
unfoldable pub look_or_wait : World → Session → ℕ × Session
unfolding look wait_ms
look_or_wait w x =
    let (switched, x') = look w.found x in
    (if switched then 0 else wait_ms w.rand x'.forwarder.backoff, x')

module _ (bytes : String → ℕ) (event_id_of : String → Option String) where
  -- after a batch
  unfoldable pub after_batch : World → ℕ → Session → ℕ × Session
  unfolding is_offline look_or_wait
  after_batch w n x =
      if not x.forwarder.has_transport
      then (recheck_ms, x)
      else if is_offline x.forwarder.link || ltb 0 x.forwarder.backoff
      then look_or_wait w x
      else (if ltb 0 n then 0 else idle_poll_ms, x)

  unfoldable pub send_step : World → Session → ℕ × Session
  unfolding send_once after_batch
  send_step w x =
      let sent = send_once bytes event_id_of w.now w.size w.answer x.forwarder x.spool in
      after_batch w sent.0 (record x { forwarder = sent.1; spool = sent.2 })

  -- with the capabilities known, or just asked for
  unfoldable pub after_capabilities : World → Bool → Session → ℕ × Session
  unfolding look_or_wait send_step
  after_capabilities w true x = send_step w (record x { caps_at = some w.clock })
  after_capabilities w false x =
      if not x.forwarder.has_transport then (recheck_ms, x) else look_or_wait w x

  unfoldable pub run_step : World → Session → ℕ × Session
  unfolding is_caps_due ask_capabilities after_capabilities send_step
  run_step w x =
      if not (is_some x.forwarder.types) || is_caps_due w.clock x.caps_at
      then (let asked = ask_capabilities w.capabilities x.forwarder in
          after_capabilities w asked.0 (record x { forwarder = asked.1 }))
      else send_step w x

  unfoldable pub after_load : World → Bool × Session → ℕ × Session
  unfolding run_step
  after_load w (true, x) = run_step w x
  after_load w (false, x) = (recheck_ms, x)

  -- `step`: how long to wait, and the session
  unfoldable pub forward_step : World → Session → ℕ × Session
  unfolding is_refused same_stamp load_enrolled after_load run_step
  forward_step w x =
      if x.forwarder.has_transport
      then run_step w x
      else if is_refused x.forwarder.link && same_stamp w.files.stamp x.cert_stamp
      then (recheck_ms, x)
      else after_load w (load_enrolled w.files w.wall x)
