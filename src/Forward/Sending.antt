-- ===== src/Forward/Sending.antt =====
-- agent_mes_forward.py: `_batch`, `_call`, `send_once` and `_receipts`. Times are in milliseconds. What
-- the service answers is an argument; `bytes` is the length of a text in UTF-8 and `event_id_of` the
-- event id that the contract reads from a body, none if it cannot be decoded.
use text.Mathlib.Text.{◌==◌ as str_eq}
use linuxcnc_status_monitor.Common.{
  ℕ, suc, ◌+◌, ◌*◌, ◌/◌, min, max, String, Bool, true, false, ◌&&◌, ◌||◌, Option, none, some, List,
  [], ◌∷◌, length, ltb, ◌==◌, if◌then◌else◌,
}
use linuxcnc_status_monitor.Spool.State.{Row}
use linuxcnc_status_monitor.Spool.Store.{Spool, pending_rows, mark_acked}

abbrev pub backoff_min_ms : ℕ
backoff_min_ms = 1_000

abbrev pub backoff_max_ms : ℕ
backoff_max_ms = 300_000

-- `len(b'{"events":[]}')`
abbrev pub envelope_bytes : ℕ
envelope_bytes = 13

pub data Link : Type 0 where
  link_ok offline not_enrolled cert_expired rejected : Link

-- the status of a receipt; `unknown` is any other, and a receipt that is no object
pub data ReceiptStatus : Type 0 where
  stored duplicate quarantined refused unknown : ReceiptStatus

pub record Receipt : Type 0 where
  pub status : ReceiptStatus
  pub event_id : Option String

-- What a request comes to: a refused certificate (expired or not accepted), a failure of the network
-- (counted if the service was not reached), or an answer with its status and the list of receipts, none
-- if the body is not understood.
pub data Answer : Type 0 where
  certificate : Link → Answer
  unreachable : Bool → Answer
  answered : ℕ → Option (List Receipt) → Answer

pub record Forwarder : Type 0 where
  pub max_events : ℕ
  pub max_bytes : ℕ
  pub max_event : ℕ
  pub types : Option (List String)
  pub batch_cap : ℕ
  pub backoff : ℕ
  pub fails : ℕ
  pub link : Link
  pub has_transport : Bool

-- `_ok`
unfoldable pub set_ok : Forwarder → Forwarder
set_ok f = record f { backoff = 0; link = link_ok }

-- `_offline`
unfoldable pub set_offline : Forwarder → Forwarder
set_offline f = record f {
  backoff = if f.backoff == 0 then backoff_min_ms else min (f.backoff * 2) backoff_max_ms;
  link = offline;
}

-- `_refused`
unfoldable pub set_refused : Link → Forwarder → Forwarder
set_refused link f = record f { has_transport = false; link = link }

-- a batch half as large
unfoldable pub halve_cap : ℕ → Forwarder → Forwarder
halve_cap sent f = record f { batch_cap = max 1 (sent / 2) }

unfoldable pub is_receipt : ReceiptStatus → Bool
is_receipt unknown = false
is_receipt stored = true
is_receipt duplicate = true
is_receipt quarantined = true
is_receipt refused = true

module _ (bytes : String → ℕ) (event_id_of : String → Option String) where
  -- the loop of `_batch`, with the bytes so far
  unfoldable pub fill_batch : Forwarder → Bool → ℕ → List Row → List Row
  fill_batch f started size [] = []
  fill_batch f started size (r ∷ rows) =
      let extra = bytes r.body + (if started then 1 else 0) in
      let skipped = fill_batch f started size rows in
      let with_it = r ∷ fill_batch f true (size + extra) rows in
      if ltb f.max_event (bytes r.body) || ltb f.max_bytes (bytes r.body + envelope_bytes)
      then skipped
      else if ltb f.max_bytes (size + extra)
      then []
      else with_it

  -- `_batch`
  unfoldable pub batch_of : Forwarder → Spool → List Row
  unfolding fill_batch
  batch_of f s =
      fill_batch f false envelope_bytes (pending_rows (min f.batch_cap f.max_events) f.types s)

  unfoldable pub same_id : Option String → Option String → Bool
  same_id (some a) (some b) = str_eq a b
  same_id _ _ = false

  -- a receipt with a known status and the event's own id
  unfoldable pub confirms : Receipt → Row → Bool
  unfolding is_receipt same_id
  confirms rc r = is_receipt rc.status && same_id rc.event_id (event_id_of r.body)

  -- the loop of `_receipts` over the batch and the receipts side by side
  unfoldable pub confirmed : List Row → List Receipt → List ℕ
  confirmed [] rcs = []
  confirmed (r ∷ rows) [] = []
  confirmed (r ∷ rows) (rc ∷ rcs) =
      let rest = confirmed rows rcs in if confirms rc r then r.seq ∷ rest else rest

  -- `if acked: self.spool.mark_acked(acked)`
  unfoldable pub acknowledge : ℕ → ℕ → List ℕ → Spool → Spool
  acknowledge now size [] s = s
  acknowledge now size (n ∷ ns) s = mark_acked now (n ∷ ns) size s

  -- after the receipts: back to larger batches
  unfoldable pub grow_cap : Forwarder → Forwarder
  grow_cap f =
      if ltb f.batch_cap f.max_events
      then record f { batch_cap = min f.max_events (f.batch_cap * 2) }
      else f

  -- `_receipts`
  unfoldable pub take_receipts :
      ℕ → ℕ → List Row → Option (List Receipt) → Forwarder → Spool → ℕ × Forwarder × Spool
  unfolding set_ok set_offline grow_cap acknowledge
  take_receipts now size batch none f s = (0, set_offline f, s)
  take_receipts now size batch (some rcs) f s =
      let acked = confirmed batch rcs in
      (length acked, grow_cap (set_ok f), acknowledge now size acked s)

  -- what `send_once` does with an answer that is not 401 or 403
  unfoldable pub take_status :
      ℕ → ℕ → List Row → ℕ → Option (List Receipt) → Forwarder → Spool → ℕ × Forwarder × Spool
  unfolding take_receipts halve_cap set_offline
  take_status now size batch status receipts f s =
      if status == 200
      then take_receipts now size batch receipts f s
      else if status == 413
      then (0, halve_cap (length batch) f, s)
      else if status == 400
      then (0, record (halve_cap (length batch) f) { backoff = backoff_max_ms }, s)
      else (0, set_offline f, s)

  -- `_call` and what follows it
  unfoldable pub take_answer : ℕ → ℕ → List Row → Answer → Forwarder → Spool → ℕ × Forwarder × Spool
  unfolding take_status set_refused set_offline
  take_answer now size batch (certificate link) f s = (0, set_refused link f, s)
  take_answer now size batch (unreachable counted) f s =
      (0, set_offline (record f { fails = if counted then suc f.fails else f.fails }), s)
  take_answer now size batch (answered status receipts) f s =
      let f' = record f { fails = 0 } in
      if status == 401 || status == 403
      then (0, set_refused rejected f', s)
      else take_status now size batch status receipts f' s

  -- `send_once`: nothing is sent when the batch is empty
  unfoldable pub send_batch : ℕ → ℕ → List Row → Answer → Forwarder → Spool → ℕ × Forwarder × Spool
  unfolding take_answer
  send_batch now size [] answer f s = (0, f, s)
  send_batch now size (r ∷ rows) answer f s = take_answer now size (r ∷ rows) answer f s

  unfoldable pub send_once : ℕ → ℕ → Answer → Forwarder → Spool → ℕ × Forwarder × Spool
  unfolding send_batch batch_of
  send_once now size answer f s = send_batch now size (batch_of f s) answer f s
