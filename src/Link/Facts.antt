-- ===== src/Link/Facts.antt =====
-- agent_mes_link.py: what becomes of the facts of the ended cycles in `_store_facts`.
use linuxcnc_status_monitor.Common.{
  ℕ, ◌+◌, ◌<◌, ◌≡◌, ◌⊎◌, String, some, List, [], ◌∷◌, ◌++◌, length,
}
use linuxcnc_status_monitor.Spool.State.{Row}
use linuxcnc_status_monitor.Spool.Store.{Spool, Contract}
use linuxcnc_status_monitor.Link.CycleLink.{Fact, queue_size}
use linuxcnc_status_monitor.Link.Worker.{Texts, Worker, cycle_payload}

module _ (contract : Contract) where
  module _ (texts : Texts) where
    -- the contract accepts the event of every fact, whatever its id and its numbers
    abbrev pub AcceptsFacts : Type 0
    AcceptsFacts =
        (f : Fact) (id : String) (n m : ℕ)
        → (body : String) × (contract.encode "cycle.observed"
              (texts.render (cycle_payload texts f) (record {
                execution_id = f.execution_id;
                operator_session_id = f.operator_session_id;
              }))
              f.ended id n m
            ≡ some body)

    -- The row is the event of the fact: a cycle.observed at the fact's end, with the body that the
    -- contract makes of the fact's payload, the row's own id, and two numbers.
    abbrev pub IsEventOf : Fact → Row → Type 0
    IsEventOf f r =
        (n : ℕ) × ((m : ℕ) × (contract.encode "cycle.observed"
              (texts.render (cycle_payload texts f) (record {
                execution_id = f.execution_id;
                operator_session_id = f.operator_session_id;
              }))
              f.ended r.event_id n m
            ≡ some r.body))
        × (r.kind ≡ "cycle.observed")
        × (r.occurred_at ≡ f.ended)

    -- a row for each fact, in order
    abbrev pub AreEventsOf : List Fact → List Row → Type 0
    AreEventsOf [] [] = Unit {0}
    AreEventsOf [] (r ∷ rows) = ⊥
    AreEventsOf (f ∷ fs) [] = ⊥
    AreEventsOf (f ∷ fs) (r ∷ rows) = IsEventOf f r × AreEventsOf fs rows

    -- the events of the first facts are behind the old rows of the spool, and the other facts are lost or
    -- wait; one is lost at most, and only where more than 256 were waiting
    abbrev pub Kept : List Fact → Spool → List Fact → Spool → Type 0
    Kept fs s waiting s' =
        (done : List Fact) × ((lost : List Fact) × (fs ≡ done ++ lost ++ waiting)
          × ((new : List Row) × (s'.db.rows ≡ s.db.rows ++ new) × AreEventsOf done new)
          × ((lost ≡ []) ⊎ (length lost ≡ 1) × (queue_size < length lost + length waiting)))
