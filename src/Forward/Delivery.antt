-- ===== src/Forward/Delivery.antt =====
-- agent_mes_forward.py: what a batch holds, and that only what the service confirmed leaves the waiting
-- rows.

use linuxcnc_status_monitor.Common.{
  ℕ, ◌+◌, ◌≤◌, ◌≡◌, ◌⊎◌, inl, inr, refl, sym, min, String, Bool, true, false, ◌||◌, Option, none,
  some, List, [], ◌∷◌, ltb, ◌==◌, if◌then◌else◌, if_rule, if_cases, arith,
}
use linuxcnc_status_monitor.Spool.State.{Row}
use linuxcnc_status_monitor.Spool.Store.{Spool, pending_rows}
use linuxcnc_status_monitor.Spool.Rows.{waiting, without, waiting-mark_acked}
use linuxcnc_status_monitor.Forward.Sending.{
  Receipt, Answer, certificate, unreachable, answered, Forwarder, envelope_bytes, fill_batch,
  batch_of, confirms, confirmed, acknowledge, take_receipts, take_status, take_answer, send_batch,
  send_once,
}

without_none : (rows : List Row) → without [] rows ≡ rows
without_none [] = refl
without_none (r ∷ rows) = rw (without_none rows)

module _ (bytes : String → ℕ) (event_id_of : String → Option String) where
  -- the bytes of the events of a batch, with the commas between them
  abbrev pub events_bytes : Bool → List Row → ℕ
  events_bytes started [] = 0
  events_bytes started (r ∷ rows) =
      bytes r.body + (if started then 1 else 0) + events_bytes true rows

  abbrev pub AllWithin : ℕ → List Row → Type 0
  AllWithin max_event [] = Unit {0}
  AllWithin max_event (r ∷ rows) = (bytes r.body ≤ max_event) × AllWithin max_event rows

  fill_batch-fits :
      (f : Forwarder) (started : Bool) (size : ℕ) (rows : List Row)
      → size ≤ f.max_bytes
      → (size + events_bytes started (fill_batch bytes event_id_of f started size rows)
          ≤ f.max_bytes)
        × AllWithin f.max_event (fill_batch bytes event_id_of f started size rows)
  unfolding fill_batch
  fill_batch-fits f started size [] le = (omega arith, tt)
  fill_batch-fits f started size (r ∷ rows) le =
      let extra = bytes r.body + (if started then 1 else 0) in
      let Fits : List Row → Type 0 =
        λ out. (size + events_bytes started out ≤ f.max_bytes) × AllWithin f.max_event out in
      if_cases Fits
        (ltb f.max_event (bytes r.body) || ltb f.max_bytes (bytes r.body + envelope_bytes))
        (λ over. fill_batch-fits f started size rows le)
        (λ within.
          if_cases Fits (ltb f.max_bytes (size + extra)) (λ full. (omega arith, tt))
            (λ room.
              let rest = fill_batch-fits f true (size + extra) rows (ground arith) in
              (omega arith, (ground arith, rest.1))))

  -- If the envelope alone is within the limit, a batch with its envelope and the commas is within
  -- the limit of the service, and each of its events is within the limit of an event.
  pub batch_of-fits :
      (f : Forwarder) (s : Spool)
      → envelope_bytes ≤ f.max_bytes
      → (envelope_bytes + events_bytes false (batch_of bytes event_id_of f s) ≤ f.max_bytes)
        × AllWithin f.max_event (batch_of bytes event_id_of f s)
  unfolding batch_of
  batch_of-fits f s le =
      fill_batch-fits f false envelope_bytes (pending_rows (min f.batch_cap f.max_events) f.types s)
        le

  -- the number of a row of the batch whose receipt, at the same place, confirms it
  abbrev pub IsConfirmed : ℕ → List Row → List Receipt → Type 0
  IsConfirmed n [] rcs = ⊥
  IsConfirmed n (r ∷ rows) [] = ⊥
  IsConfirmed n (r ∷ rows) (rc ∷ rcs) =
      ((r.seq ≡ n) × (confirms bytes event_id_of rc r ≡ true)) ⊎ IsConfirmed n rows rcs

  -- the receipts of an answer that was understood
  abbrev pub receipts_of : Answer → List Receipt
  receipts_of (answered status (some rcs)) = if status == 200 then rcs else []
  receipts_of _ = []

  abbrev pub AllConfirmed : List Row → List Receipt → List ℕ → Type 0
  AllConfirmed rows rcs [] = Unit {0}
  AllConfirmed rows rcs (n ∷ ns) = IsConfirmed n rows rcs × AllConfirmed rows rcs ns

  AllConfirmed-weaken :
      (r : Row) (rows : List Row) (rc : Receipt) (rcs : List Receipt) (ns : List ℕ)
      → AllConfirmed rows rcs ns
      → AllConfirmed (r ∷ rows) (rc ∷ rcs) ns
  AllConfirmed-weaken r rows rc rcs [] a = tt
  AllConfirmed-weaken r rows rc rcs (n ∷ ns) a = (inr a.0, AllConfirmed-weaken r rows rc rcs ns a.1)

  confirmed-AllConfirmed :
      (rows : List Row) (rcs : List Receipt)
      → AllConfirmed rows rcs (confirmed bytes event_id_of rows rcs)
  unfolding confirmed
  confirmed-AllConfirmed [] rcs = tt
  confirmed-AllConfirmed (r ∷ rows) [] = tt
  confirmed-AllConfirmed (r ∷ rows) (rc ∷ rcs) =
      let rest =
        AllConfirmed-weaken r rows rc rcs (confirmed bytes event_id_of rows rcs)
          (confirmed-AllConfirmed rows rcs) in
      if_cases (AllConfirmed (r ∷ rows) (rc ∷ rcs)) (confirms bytes event_id_of rc r)
        (λ yes_it_does. (inl (refl, yes_it_does), rest)) (λ no_match. rest)

  waiting-acknowledge :
      (now size : ℕ) (ns : List ℕ) (s : Spool)
      → waiting (acknowledge bytes event_id_of now size ns s).db.rows
        ≡ without ns (waiting s.db.rows)
  unfolding acknowledge
  waiting-acknowledge now size [] s = sym (without_none (waiting s.db.rows))
  waiting-acknowledge now size (n ∷ ns) s = waiting-mark_acked now size (n ∷ ns) s

  -- what is left waiting after a batch was answered
  abbrev pub Delivered : Spool → List Row → Answer → Spool → Type 0
  Delivered s batch answer s' =
      (acked : List ℕ) × (waiting s'.db.rows ≡ without acked (waiting s.db.rows))
      × AllConfirmed batch (receipts_of answer) acked

  untouched : (batch : List Row) (answer : Answer) (s : Spool) → Delivered s batch answer s
  untouched batch answer s = ([], sym (without_none (waiting s.db.rows)), tt)

  take_receipts-Delivered :
      (now size : ℕ) (batch : List Row) (status : ℕ) (receipts : Option (List Receipt))
      (f : Forwarder) (s : Spool)
      → status == 200 ≡ true
      → Delivered s batch
          (answered status receipts)
          (take_receipts bytes event_id_of now size batch receipts f s).2
  unfolding take_receipts
  take_receipts-Delivered now size batch status none f s success =
      untouched batch (answered status none) s
  take_receipts-Delivered now size batch status (some rcs) f s success =
      let acked = confirmed bytes event_id_of batch rcs in
      (acked, waiting-acknowledge now size acked s, rw success (confirmed-AllConfirmed batch rcs))

  take_status-Delivered :
      (now size : ℕ) (batch : List Row) (status : ℕ) (receipts : Option (List Receipt))
      (f : Forwarder) (s : Spool)
      → Delivered s batch
          (answered status receipts)
          (take_status bytes event_id_of now size batch status receipts f s).2
  unfolding take_status
  take_status-Delivered now size batch status receipts f s =
      let IsDelivered : ℕ × Forwarder × Spool → Type 0 =
        λ out. Delivered s batch (answered status receipts) (out.2) in
      let same = untouched batch (answered status receipts) s in
      if_cases IsDelivered (status == 200)
        (take_receipts-Delivered now size batch status receipts f s)
        (λ failed.
          if_rule IsDelivered (status == 413) same (if_rule IsDelivered (status == 400) same same))

  take_answer-Delivered :
      (now size : ℕ) (batch : List Row) (answer : Answer) (f : Forwarder) (s : Spool)
      → Delivered s batch answer (take_answer bytes event_id_of now size batch answer f s).2
  unfolding take_answer
  take_answer-Delivered now size batch (certificate link) f s = untouched batch (certificate link) s
  take_answer-Delivered now size batch (unreachable counted) f s =
      untouched batch (unreachable counted) s
  take_answer-Delivered now size batch (answered status receipts) f s =
      if_rule
        (λ (out : ℕ × Forwarder × Spool). Delivered s batch (answered status receipts) (out.2))
        (status == 401 || status == 403) (untouched batch (answered status receipts) s)
        (take_status-Delivered now size batch status receipts (record f { fails = 0 }) s)

  send_batch-Delivered :
      (now size : ℕ) (batch : List Row) (answer : Answer) (f : Forwarder) (s : Spool)
      → Delivered s batch answer (send_batch bytes event_id_of now size batch answer f s).2
  unfolding send_batch
  send_batch-Delivered now size [] answer f s = untouched [] answer s
  send_batch-Delivered now size (r ∷ rows) answer f s =
      take_answer-Delivered now size (r ∷ rows) answer f s

  -- Sending a batch takes no row out of the waiting ones but rows of the batch whose receipt, at
  -- the same place in an answer with status 200, has a known status and the event's own id; the
  -- others wait on, unchanged and in order.
  pub send_once-Delivered :
      (now size : ℕ) (answer : Answer) (f : Forwarder) (s : Spool)
      → Delivered s
          (batch_of bytes event_id_of f s)
          answer
          (send_once bytes event_id_of now size answer f s).2
  unfolding send_once
  send_once-Delivered now size answer f s =
      send_batch-Delivered now size (batch_of bytes event_id_of f s) answer f s
