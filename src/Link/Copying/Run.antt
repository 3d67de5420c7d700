-- ===== src/Link/Copying/Run.antt =====
-- agent_mes_link.py: `OutboxReader.step`, again and again, beside the agent's own use of the spool.
use mathlib.Core.Path.{subst}
use mathlib.Core.List.{append-nil}
use linuxcnc_status_monitor.Common.{
  ℕ, ◌≤◌, ◌≡◌, ◌∙◌, sym, inl, inr, ap, refl, String, not, Option, none, some, List, [], ◌∷◌, ◌++◌,
  length, drop, drop-length-append, arith, if_rule,
}
use linuxcnc_status_monitor.Spool.State.{get_cursor}
use linuxcnc_status_monitor.Spool.Store.{Spool, Contract}
use linuxcnc_status_monitor.Link.Copying.Batches.{
  IsAscending, up_to, between, end_of, outbox_batch, up_to-none, up_to-batch, end_of-batch,
}
use linuxcnc_status_monitor.Link.Copying.Stored.{
  bodies_of, out_bodies, out_bodies-append, position, acked_of, acked_in, Moved, unmoved,
  store_rows-Moved,
}
use linuxcnc_status_monitor.Link.Outbox.{
  OutRow, LoginEvent, Outbox, Reader, Disk, StepAnswer, stored, batch, outbox_source, position_in,
  rows_after, note_operator, see_operator, see_operators, enter_epoch, see_last, is_epoch,
  last_operator_row, store_rows, read_rows, read_epoch, step, after_query_rule,
}

-- looking for the operator leaves the acknowledgement alone
note_operator-ack : (n : ℕ) (o : _) (r : Reader) → (note_operator n o r).ack ≡ r.ack
unfolding note_operator
note_operator-ack n none r = refl
note_operator-ack n (some op) r = refl

module _ (decode : String → Option LoginEvent) where
  see_operator-ack : (row : OutRow) (r : Reader) → (see_operator decode row r).ack ≡ r.ack
  unfolding see_operator
  see_operator-ack row r =
      if_rule (λ (x : Reader). x.ack ≡ r.ack) _ refl (note_operator-ack row.seq _ r)

  pub see_operators-ack :
      (rows : List OutRow) (r : Reader) → (see_operators decode rows r).ack ≡ r.ack
  unfolding see_operators
  see_operators-ack [] r = refl
  see_operators-ack (row ∷ rows) r = see_operators-ack rows _ ∙ see_operator-ack row r

  enter-ack :
      (epoch : String) (o : Option OutRow) (r : Reader)
      → (see_last decode o (enter_epoch epoch r)).ack ≡ r.ack
  unfolding see_last enter_epoch
  enter-ack epoch none r = refl
  enter-ack epoch (some row) r = see_operator-ack row _

  module _ (contract : Contract) where
    -- the rows that one step reads
    abbrev pub next_batch : String → List OutRow → Spool → List OutRow
    next_batch epoch rows s = rows_after (position epoch s) batch rows

    abbrev pub MovedBy : String → List OutRow → Reader → Spool → Reader → Spool → Type 0
    MovedBy epoch rows r s r' s' =
        Moved contract epoch (next_batch epoch rows s)
          (end_of (position epoch s) (next_batch epoch rows s)) r s r' s'

    -- the acknowledgement alone counts of the reader that a step starts from
    same_ack :
        (epoch : String) (rows : List OutRow) (r₀ r : Reader) (s : Spool)
        (o : StepAnswer × Reader × Spool)
        → r₀.ack ≡ r.ack
        → MovedBy epoch rows r₀ s o.1 o.2
        → MovedBy epoch rows r s o.1 o.2
    same_ack epoch rows r₀ r s o e m =
        (m.0, elim m.1 [ inl k ↦ inl (k ∙ ap (acked_of epoch) e) | inr k ↦ inr k ])

    read_rows-Moved :
        (disk : Disk) (epoch : String) (ob : Outbox) (r₀ r : Reader) (s : Spool)
        → r₀.ack ≡ r.ack
        → let after = read_rows contract decode disk epoch ob r₀ s in
          MovedBy epoch ob.rows r s after.1 after.2
    unfolding read_rows
    read_rows-Moved disk epoch ob r₀ r s e =
        let rows = next_batch epoch ob.rows s in
        let seen = see_operators decode rows r₀ in
        let same = unmoved contract epoch _ _ r r₀ s s refl e in
        after_query_rule (λ (o : StepAnswer × Reader × Spool). MovedBy epoch ob.rows r s o.1 o.2)
          ob.rows_query r₀ s _ same same
          (same_ack epoch ob.rows seen r s
            (store_rows contract disk epoch (get_cursor outbox_source s.db.cursors) rows seen s)
            (see_operators-ack rows r₀ ∙ e) (store_rows-Moved contract disk epoch rows seen s))

    read_epoch-Moved :
        (disk : Disk) (epoch : String) (ob : Outbox) (r : Reader) (s : Spool)
        → let after = read_epoch contract decode disk epoch ob r s in
          MovedBy epoch ob.rows r s after.1 after.2
    unfolding read_epoch
    read_epoch-Moved disk epoch ob r s =
        let P = (λ (o : StepAnswer × Reader × Spool). MovedBy epoch ob.rows r s o.1 o.2) in
        let same =
          unmoved contract epoch _ _ r (enter_epoch epoch r) s s refl
            (unfold enter_epoch in refl) in
        if_rule P (is_epoch epoch r.op_epoch) (read_rows-Moved disk epoch ob r r s refl) (
          after_query_rule P ob.operator_query (enter_epoch epoch r) s _ same same
            (read_rows-Moved disk epoch ob _ r s (enter-ack epoch (last_operator_row ob.rows) r)))

    step-Moved :
        (disk : Disk) (epoch : String) (ob : Outbox) (r : Reader) (s : Spool)
        → ob.epoch ≡ some epoch
        → let after = step contract decode disk ob r s in MovedBy epoch ob.rows r s after.1 after.2
    unfolding step
    step-Moved disk epoch ob r s e =
        let same = unmoved contract epoch _ _ r r s s refl refl in
        if_rule P (not ob.exists) same (
          if_rule P (not ob.connects) same (
            after_query_rule P ob.epoch_query r s _ same same (
              subst
                (λ (o : Option String). P (elim o [
                  | none ↦ (stored 0, r, s)
                  | some f ↦ read_epoch contract decode disk f ob r s
                ]))
                (sym e) (read_epoch-Moved disk epoch ob r s))))
      where
        P : (o : StepAnswer × Reader × Spool) → Type 0
        P o = MovedBy epoch ob.rows r s o.1 o.2

    -- the bodies that stand in the spool behind the old rows
    abbrev pub added : Spool → Spool → List String
    added s s' = drop (length (bodies_of s.db.rows)) (bodies_of s'.db.rows)

    -- The reader and the spool through any number of steps, with the bodies that the steps have put
    -- into the spool, for MillWright's events of one epoch, past and future. In between MillWright
    -- adds events, prunes none above the number in mes_ack.json, and the agent uses the spool in
    -- every way that leaves the outbox's cursor alone.
    pub data Run (events : List OutRow) (epoch : String)
        : Reader → Spool → List String → Type 0 where
      begin :
          {r : Reader} {s : Spool}
          → position epoch s ≡ 0
          → acked_in epoch r ≡ 0
          → Run events epoch r s []
      copy :
          {r : Reader} {s : Spool} {bodies : List String}
          → Run events epoch r s bodies
          → (disk : Disk) (ob : Outbox) (p q : ℕ) → ob.epoch ≡ some epoch
          → ob.rows ≡ between p q events
          → p ≤ acked_in epoch r
          → Run events epoch
              (step contract decode disk ob r s).1
              (step contract decode disk ob r s).2
              (bodies ++ added s (step contract decode disk ob r s).2)
      meanwhile :
          {r : Reader} {s : Spool} {bodies : List String}
          → Run events epoch r s bodies
          → (s' : Spool)
          → get_cursor outbox_source s'.db.cursors ≡ get_cursor outbox_source s.db.cursors
          → Run events epoch r s' bodies

    added_lem :
        (s s' : Spool) (new : List String)
        → bodies_of s'.db.rows ≡ bodies_of s.db.rows ++ new
        → added s s' ≡ new
    added_lem s s' new e =
        ap (drop (length (bodies_of s.db.rows))) e ∙ drop-length-append (bodies_of s.db.rows) new

    -- nothing is numbered 0
    nothing_yet : (events : List OutRow) → IsAscending 0 events → out_bodies (up_to 0 events) ≡ []
    nothing_yet events asc = ap out_bodies (up_to-none 0 events asc)

    copied :
        (events : List OutRow) (epoch : String) (ob : Outbox) (p q : ℕ) (r r' : Reader)
        (s s' : Spool)
        → IsAscending 0 events
        → ob.rows ≡ between p q events
        → p ≤ position epoch s
        → MovedBy epoch ob.rows r s r' s'
        → (out_bodies (up_to (position epoch s) events) ++ added s s'
            ≡ out_bodies (up_to (position epoch s') events))
          × (position epoch s ≤ position epoch s')
    copied events epoch ob p q r r' s s' asc rows h m =
        let pos = position epoch s in
        let b = outbox_batch pos batch p q events in
        let moved = subst (λ t. MovedBy epoch t r s r' s') rows m in
        elim moved.0 [
          | inl (same, stays) ↦ (
            ap (λ l. out_bodies (up_to pos events) ++ l)
                  (added_lem s s' [] (same ∙ sym (append-nil (bodies_of s.db.rows))))
                ∙ append-nil (out_bodies (up_to pos events))
                ∙ ap (λ n. out_bodies (up_to n events)) (sym stays),
            omega arith,
          )
          | inr (new, moves) ↦
              let further = end_of-batch pos 0 pos batch p q events h asc (inl (omega arith)) in
              (
                ap (λ l. out_bodies (up_to pos events) ++ l) (added_lem s s' (out_bodies b) new)
                    ∙ sym (out_bodies-append (up_to pos events) b)
                    ∙ ap out_bodies (up_to-batch 0 pos batch p q events h asc)
                    ∙ ap (λ n. out_bodies (up_to n events)) (sym moves),
                omega arith,
              )
        ]

    -- Events in the order of their numbers, and MillWright prunes none above its acknowledgement:
    -- then the steps have copied exactly the events up to the cursor, each once and in order, and
    -- the acknowledgement is not above the cursor.
    pub run-Copied :
        (events : List OutRow) (epoch : String) {r : Reader} {s : Spool} {bodies : List String}
        → IsAscending 0 events
        → Run events epoch r s bodies
        → (bodies ≡ out_bodies (up_to (position epoch s) events))
          × (acked_in epoch r ≤ position epoch s)
    run-Copied events epoch asc (begin p a) =
        (sym (ap (λ n. out_bodies (up_to n events)) p ∙ nothing_yet events asc), omega arith)
    run-Copied events epoch asc (copy {r = r₀} {s = s₀} run disk ob p q e rows h) =
        let ih = run-Copied events epoch asc run in
        let moved = step-Moved disk epoch ob r₀ s₀ e in
        let after = step contract decode disk ob r₀ s₀ in
        let more =
          copied events epoch ob p q r₀ after.1 s₀ after.2 asc rows (omega (arith, ih.1)) moved in
        (
          ap (λ l. l ++ added s₀ after.2) ih.0 ∙ more.0,
          elim moved.1 [ inl k ↦ omega (arith, ih.1, more.1, k) | inr k ↦ omega arith ],
        )
    run-Copied events epoch asc (meanwhile run s' e) =
        let ih = run-Copied events epoch asc run in
        let k = ap (position_in epoch) e in
        (ih.0 ∙ ap (λ n. out_bodies (up_to n events)) (sym k), omega (arith, ih.1))
