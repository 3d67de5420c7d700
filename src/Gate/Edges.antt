-- ===== src/Gate/Edges.antt =====
-- agent_packets.py: a fault edge is never lost between two packets.
use linuxcnc_status_monitor.Common.{
  ℕ, ◌≡◌, ◌≢◌, Bool, true, Option, none, some, List, [], ◌∷◌, arith,
}
use linuxcnc_status_monitor.Gate.{Mode, SameFault, Gate, note_fault, tick, should_send}

module _ {S : Type 0} (f : SameFault S) where
  -- A sample whose fault signature differs from the last one is packet work at once, whatever the
  -- cadence, and the edge is pending.
  pub edge-tick :
      (now : ℕ) (state : Mode) (sig last : S) (g : Gate S)
      → g.last_fault ≡ some last
      → sig ≢ last
      → ((tick f now state (some sig) g).0 ≡ true)
        × ((tick f now state (some sig) g).1.fault_pending ≡ true)
        × ((tick f now state (some sig) g).1.last_fault ≡ some sig)
  unfolding tick note_fault
  edge-tick now state sig last g known d = ground (arith, f.same_iff sig last)

  -- What the loop does between two packets: a sample, or the question whether to send.
  pub data Event : Type 0 where
    sampled : ℕ → Mode → Option S → Event
    asked : ℕ → Mode → Bool → Event

  unfoldable pub handle : Event → Gate S → Gate S
  handle (sampled now state sig) g = (tick f now state sig g).1
  handle (asked now state errors) g = (should_send now state errors g).1

  unfoldable pub handle_all : List Event → Gate S → Gate S
  handle_all [] g = g
  handle_all (e ∷ es) g = handle_all es (handle e g)

  handle-pending :
      (e : Event) (g : Gate S) → g.fault_pending ≡ true → (handle e g).fault_pending ≡ true
  unfolding handle tick note_fault should_send
  handle-pending (sampled now state none) g h = ground arith
  handle-pending (sampled now state (some sig)) g h = ground arith
  handle-pending (asked now state errors) g h = ground arith

  handle_all-pending :
      (es : List Event) (g : Gate S)
      → g.fault_pending ≡ true
      → (handle_all es g).fault_pending ≡ true
  unfolding handle_all
  handle_all-pending [] g h = h
  handle_all-pending (e ∷ es) g h = handle_all-pending es (handle e g) (handle-pending e g h)

  pending-tick :
      (now : ℕ) (state : Mode) (sig : Option S) (g : Gate S)
      → g.fault_pending ≡ true
      → (tick f now state sig g).0 ≡ true
  unfolding tick note_fault
  pending-tick now state none g h = ground arith
  pending-tick now state (some sig) g h = ground arith

  pending-should_send :
      (now : ℕ) (state : Mode) (errors : Bool) (g : Gate S)
      → g.fault_pending ≡ true
      → (should_send now state errors g).0 ≡ true
  unfolding should_send
  pending-should_send now state errors g h = ground arith

  -- After a fault edge, a sample whose signature differs from the known last one, whatever
  -- samples and questions follow while no packet is sent, every sample is packet work and every
  -- question is answered with send.
  pub edge_not_lost :
      (now later : ℕ) (state state' : Mode) (sig last : S) (sig' : Option S) (errors : Bool)
      (es : List Event) (g : Gate S)
      → g.last_fault ≡ some last
      → sig ≢ last
      → let g' = handle_all es (tick f now state (some sig) g).1 in
        ((tick f later state' sig' g').0 ≡ true) × ((should_send later state' errors g').0 ≡ true)
  edge_not_lost now later state state' sig last sig' errors es g known d =
      let p = handle_all-pending es _ (edge-tick now state sig last g known d).1 in
      (pending-tick later state' sig' _ p, pending-should_send later state' errors _ p)
