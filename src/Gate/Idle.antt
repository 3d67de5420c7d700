-- ===== src/Gate/Idle.antt =====
-- agent_packets.py: while the machine is idle and nothing happens, the gate lets one packet through
-- and then only heartbeats.
use linuxcnc_status_monitor.Common.{ℕ, ◌-◌, ◌≡◌, ap, Bool, true, false, arith, ltb, not}
use linuxcnc_status_monitor.Gate.{
  Mode, idle, running, paused, blank, Gate, is_idle, same_mode, should_send, sent,
}

module _ {S : Type 0} where
  -- After an idle packet that followed an idle sample, the next idle packet with no error and no
  -- fault goes out exactly when the heartbeat interval has passed.
  pub idle_suppression :
      (t now : ℕ) (g : Gate S)
      → g.prev_state ≡ idle
      → (should_send now idle false (sent t idle g)).0 ≡ not (ltb (now - t) g.heartbeat)
  unfolding should_send sent is_idle same_mode
  idle_suppression t now g was =
      let same : same_mode idle g.prev_state ≡ true = ap (same_mode idle) was in ground arith

  -- While a cycle runs or is paused every packet is sent, and so is the first idle packet after
  -- it.
  pub active_sent :
      (now later : ℕ) (state : Mode) (errors errors' : Bool) (g : Gate S)
      → is_idle state ≡ false
      → ((should_send now state errors g).0 ≡ true)
        × ((should_send later idle errors' (should_send now state errors g).1).0 ≡ true)
  unfolding should_send is_idle same_mode
  active_sent now later blank errors errors' g h = ground arith
  active_sent now later idle errors errors' g h = (cc, cc)
  active_sent now later running errors errors' g h = ground arith
  active_sent now later paused errors errors' g h = ground arith
