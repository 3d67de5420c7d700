-- ===== src/Gate.antt =====
-- agent_packets.py: `PacketGate`, which decides sample by sample whether a status packet goes out.
-- Times are readings of a monotonic clock in whole ticks; the fault signature is any type whose
-- equality is decided, the Python tuple in the source. The proofs are in the modules below.
pub mod Edges
pub mod Idle
mod Tests
use linuxcnc_status_monitor.Common.{
  ℕ, ◌+◌, ◌-◌, Bool, true, false, not, ◌&&◌, ◌||◌, Option, none, some, ltb, if◌then◌else◌, ◌≡◌, ◌↔◌,
}

-- the cycle state of the sample; `blank` is the "" before the first one
pub data Mode : Type 0 where
  blank idle running paused : Mode

unfoldable pub same_mode : Mode → Mode → Bool
same_mode blank blank = true
same_mode idle idle = true
same_mode running running = true
same_mode paused paused = true
same_mode _ _ = false

-- comparison of fault signatures
pub record SameFault (S : Type 0) : Type 0 where
  pub same : S → S → Bool
  pub same_iff : (a b : S) → (same a b ≡ true) ↔ (a ≡ b)

pub record Gate (S : Type 0) : Type 0 where
  pub poll : ℕ
  pub heartbeat : ℕ
  pub last_sampled_state : Mode
  -- none is the -inf before the first poll
  pub last_poll : Option ℕ
  pub prev_state : Mode
  pub idle_sent : Bool
  pub last_heartbeat : ℕ
  pub last_fault : Option S
  pub fault_pending : Bool

-- `now - last_poll < poll`
unfoldable pub polled_within : ℕ → Option ℕ → ℕ → Bool
polled_within now none poll = false
polled_within now (some last) poll = ltb (now - last) poll

unfoldable pub is_idle : Mode → Bool
is_idle idle = true
is_idle _ = false

module _ {S : Type 0} where
  -- `PacketGate(poll_interval_s, idle_heartbeat_interval_s)`
  abbrev pub new_gate : ℕ → ℕ → Gate S
  new_gate poll heartbeat = record {
    poll = poll;
    heartbeat = heartbeat;
    last_sampled_state = blank;
    last_poll = none;
    prev_state = blank;
    idle_sent = false;
    last_heartbeat = 0;
    last_fault = none;
    fault_pending = false;
  }

  module _ (f : SameFault S) where
    -- `fault_sig != self._last_fault`
    unfoldable pub fault_differs : S → Option S → Bool
    fault_differs sig none = true
    fault_differs sig (some last) = not (f.same sig last)

    unfoldable is_known : Option S → Bool
    is_known none = false
    is_known (some last) = true

    -- the fault part of `tick`
    unfoldable pub note_fault : Option S → Gate S → Gate S
    unfolding fault_differs is_known
    note_fault none g = g
    note_fault (some sig) g =
        if fault_differs sig g.last_fault
        then (record g {
          fault_pending = if is_known g.last_fault then true else g.fault_pending;
          last_fault = some sig;
        })
        else g

    -- `tick`: is packet work due now?
    unfoldable pub tick : ℕ → Mode → Option S → Gate S → Bool × Gate S
    tick now state fault_sig g =
        let state_change = not (same_mode state g.last_sampled_state) in
        let g' = note_fault fault_sig (record g { last_sampled_state = state }) in
        if not (state_change || g'.fault_pending) && polled_within now g'.last_poll g'.poll
        then (false, g')
        else (true, record g' { last_poll = some now })

  -- `should_send`
  unfoldable pub should_send : ℕ → Mode → Bool → Gate S → Bool × Gate S
  unfolding is_idle
  should_send now state has_errors g =
      let changed = not (same_mode state g.prev_state) in
      let g' = record g { prev_state = state } in
      if not (is_idle state)
      then (true, record g' { idle_sent = false })
      else let g'' =
          (if changed then record g' { idle_sent = false; last_heartbeat = now } else g') in
        (
          not (
              g''.idle_sent
              && not has_errors
              && not g''.fault_pending
              && ltb (now - g''.last_heartbeat) g''.heartbeat),
          g'',
        )

  -- `sent`
  unfoldable pub sent : ℕ → Mode → Gate S → Gate S
  unfolding is_idle
  sent now state g =
      let g' = record g { fault_pending = false } in
      if is_idle state then record g' { idle_sent = true; last_heartbeat = now } else g'
