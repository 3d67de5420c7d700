-- ===== src/Link/Worker.antt =====
-- agent_mes_link.py: `MesWorker`, the thread that stores the facts of ended cycles, copies the outbox
-- and prunes the spool. What the rest of the machine does in between is an argument.
use linuxcnc_status_monitor.Common.{
  ℕ, zero, suc, ◌-◌, String, Bool, true, false, Option, none, some, List, [], ◌∷◌, ◌++◌, length,
  ltb, leb, ◌==◌, if◌then◌else◌,
}
use linuxcnc_status_monitor.Spool.Store.{
  Spool, Item, own, Contract, spool_full, spool_error, integrity_error, Outcome, ok, raised,
  append_locked, prune,
}
use linuxcnc_status_monitor.Link.Current.{Field}
use linuxcnc_status_monitor.Link.CycleLink.{Method, Fact, queue_size}
use linuxcnc_status_monitor.Link.Outbox.{
  LoginEvent, Outbox, Reader, Disk, stored, uncaught, batch, step,
}

abbrev pub prune_every : ℕ
prune_every = 3600000

pub record Payload : Type 0 where
  pub started_at : String
  pub ended_at : String
  pub outcome : String
  pub program_path : Field
  pub correlation_method : Method

pub record Correlation : Type 0 where
  pub execution_id : Field
  pub operator_session_id : Option String

-- `utc_text`, and the JSON of a payload with its correlation
pub record Texts : Type 0 where
  pub utc_text : ℕ → String
  pub render : Payload → Correlation → String

unfoldable pub cycle_payload : Texts → Fact → Payload
cycle_payload t f = record {
  started_at = t.utc_text f.started;
  ended_at = t.utc_text f.ended;
  outcome = f.outcome;
  program_path = f.program_path;
  correlation_method = f.method;
}

-- the event of a fact, with the id that it gets
unfoldable pub item_of : Texts → String → Fact → Item
unfolding cycle_payload
item_of t id f =
    own "cycle.observed"
      (t.render (cycle_payload t f)
        (record { execution_id = f.execution_id; operator_session_id = f.operator_session_id }))
      f.ended id

pub record Worker : Type 0 where
  pub reader : Option Reader
  pub spool : Spool
  pub facts : List Fact
  pub waiting : List Fact
  pub last_prune : ℕ

-- one run of the loop: the ids and the disk of each fact's append, MillWright's outbox and the disk of
-- each of its steps, the clock when the prune is decided on and when it is noted, and the time and
-- the size for the prune
pub record Round : Type 0 where
  pub ids : ℕ → String
  pub fact_disks : ℕ → Disk
  pub outbox : Outbox
  pub disks : ℕ → Disk
  pub clock : ℕ
  pub clock_after : ℕ
  pub now : ℕ
  pub size : ℕ

-- what is left to wait when the spool is full
unfoldable pub keep_waiting : Fact → List Fact → List Fact
keep_waiting f fs = if ltb queue_size (length (f ∷ fs)) then fs else f ∷ fs

module _ (contract : Contract) (decode : String → Option LoginEvent) where
  -- `while self.reader.step() == BATCH`, from its `i`th step: whether it ends without an exception
  unfoldable pub drain :
      ℕ → (ℕ → Disk) → ℕ → Outbox → Reader → Spool → Option (Bool × Reader × Spool)
  drain zero disks i ob r s = none
  drain (suc fuel) disks i ob r s =
      let done = step contract decode (disks i) ob r s in
      let rest = drain fuel disks (suc i) ob done.1 done.2 in
      elim done.0 [
        | uncaught ↦ some (false, done.1, done.2)
        | stored n ↦ if n == batch then rest else some (true, done.1, done.2)
      ]

  unfoldable pub after_drain : Worker → Option (Bool × Reader × Spool) → Option (Bool × Worker)
  after_drain w none = none
  after_drain w (some done) = some (done.0, record w { reader = some done.1; spool = done.2 })

  unfoldable pub read_outbox : Round → Worker → Option (Bool × Worker)
  unfolding drain after_drain
  read_outbox round w = elim w.reader [
    | none ↦ some (true, w)
    | some r ↦
        after_drain w (drain (suc (length round.outbox.rows)) round.disks 0 round.outbox r w.spool)
  ]

unfoldable pub prune_if_due : Round → Worker → Worker
prune_if_due round w =
    if leb prune_every (round.clock - w.last_prune)
    then record w { last_prune = round.clock_after; spool = prune round.now round.size w.spool }
    else w

unfoldable pub finish_round : Round → Bool × Worker → Bool × Worker
unfolding prune_if_due
finish_round round (true, w) = (true, prune_if_due round w)
finish_round round (false, w) = (false, w)

unfoldable pub finish_read : Round → Option (Bool × Worker) → Option (Bool × Worker)
unfolding finish_round
finish_read round none = none
finish_read round (some done) = some (finish_round round done)

module _ (contract : Contract) (texts : Texts) where
  unfoldable pub add_fact : Disk → String → Fact → Spool → Outcome (List ℕ) × Spool
  unfolding item_of
  add_fact disk id f s =
      append_locked contract (item_of texts id f ∷ []) none false disk.size disk.size_after
        disk.sidecar_written s

  -- the second loop of `_store_facts`, from its `i`th fact: whether it returns, and what waits on
  unfoldable pub store_waiting :
      (ℕ → String) → (ℕ → Disk) → ℕ → List Fact → Spool → Bool × List Fact × Spool
  unfolding add_fact keep_waiting
  store_waiting ids disks i [] s = (true, [], s)
  store_waiting ids disks i (f ∷ fs) s =
      let added = add_fact (disks i) (ids i) f s in
      let rest = store_waiting ids disks (suc i) fs added.1 in
      elim added.0 [
        | ok seqs ↦ rest
        | raised e ↦ elim e [
          | spool_full ↦ (true, keep_waiting f fs, added.1)
          | spool_error ↦ rest
          | integrity_error ↦ (false, f ∷ fs, added.1)
        ]
      ]

  -- `_store_facts`
  unfoldable pub store_facts : Round → Worker → Bool × Worker
  unfolding store_waiting
  store_facts round w =
      let done = store_waiting round.ids round.fact_disks 0 (w.waiting ++ w.facts) w.spool in
      (done.0, record w { facts = []; waiting = done.1; spool = done.2 })

  module _ (decode : String → Option LoginEvent) where
    -- `run_once`: none if its loop does not end in as many steps as the outbox has rows, and one; an
    -- exception ends it where it is raised
    unfoldable pub run_once : Round → Worker → Option (Bool × Worker)
    unfolding store_facts read_outbox finish_read
    run_once round w =
        let done = store_facts round w in
        if done.0
        then finish_read round (read_outbox contract decode round done.1)
        else some (false, done.1)
