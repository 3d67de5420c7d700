-- ===== src/Link/Operators.antt =====
-- agent_mes_link.py: following the outbox event by event finds the operator that the last login or
-- logout names.
use linuxcnc_status_monitor.Common.{
  ℕ, zero, suc, ◌≤◌, ◌<◌, ◌≡◌, ◌∙◌, sym, ◌⊎◌, inl, inr, ap, refl, String, Bool, true, false, Option,
  none, some, List, [], ◌∷◌, length, ltb, leb, is_some, if◌then◌else◌, arith, if_rule,
}
use linuxcnc_status_monitor.Spool.State.{Cursor, get_cursor}
use linuxcnc_status_monitor.Spool.Store.{
  Spool, Contract, spool_full, spool_error, integrity_error, Outcome, ok, raised,
}
use linuxcnc_status_monitor.Link.Copying.Batches.{IsAscending, IsAscending-weaken}
use linuxcnc_status_monitor.Link.Outbox.{
  OutRow, Operator, LoginEvent, Reader, operator_after, note_operator, see_operator, see_operators,
  rows_after, last_operator_row, is_operator_kind, see_last, enter_epoch, Disk, StepAnswer, batch,
  outbox_source, position_in, write_ack, has_position, last_seq, after_append, store_rows, is_epoch,
  read_rows, read_epoch, step, after_query, goes_through,
}

pick :
    (P : List OutRow → Type 0) (b : Bool) {xs ys : List OutRow}
    → P xs
    → P ys
    → P (elim b [ true ↦ xs | false ↦ ys ])
pick P true p q = p
pick P false p q = q

module _ (decode : String → Option LoginEvent) where
  -- what the last event that says who is logged in says, or what was known before
  abbrev pub last_login : List OutRow → Option Operator → Option Operator
  last_login [] known = known
  last_login (row ∷ rows) known =
      last_login rows (elim (operator_after (decode row.body)) [ none ↦ known | some op ↦ op ])

  see-new :
      (row : OutRow) (r : Reader)
      → r.op_seq < row.seq
      → see_operator decode row r ≡ note_operator row.seq (operator_after (decode row.body)) r
  unfolding see_operator
  see-new row r h = ground arith

  note-known :
      (n : ℕ) (o : Option (Option Operator)) (r : Reader)
      → r.op_seq < n
      → ((note_operator n o r).operator ≡ (elim o [ none ↦ r.operator | some op ↦ op ]))
        × ((note_operator n o r).op_seq ≤ n)
  unfolding note_operator
  note-known n none r h = (refl, omega arith)
  note-known n (some op) r h = (refl, omega arith)

  -- In the order of their numbers, events after the last one followed leave the operator that the
  -- last login or logout among them names, or the operator of before if there is none.
  pub operator-see_operators :
      (rows : List OutRow) (r : Reader)
      → IsAscending r.op_seq rows
      → (see_operators decode rows r).operator ≡ last_login rows r.operator
  unfolding see_operators
  operator-see_operators [] r a = refl
  operator-see_operators (row ∷ rows) r a =
      let k = note-known row.seq (operator_after (decode row.body)) r a.0 in
      let next = note_operator row.seq (operator_after (decode row.body)) r in
      ap (λ x. (see_operators decode rows x).operator) (see-new row r a.0)
      ∙ operator-see_operators rows next (IsAscending-weaken next.op_seq row.seq rows k.1 a.1)
      ∙ ap (last_login rows) k.0

  -- the column `type` of the outbox says whether an event is a login or a logout
  abbrev pub AreTyped : List OutRow → Type 0
  AreTyped [] = Unit {0}
  AreTyped (row ∷ rows) =
      (is_operator_kind row.kind ≡ is_some (operator_after (decode row.body))) × AreTyped rows

  -- nothing in the rows changes a reader that has followed the events up to a number
  abbrev Quiet : ℕ → OutRow → Type 0
  Quiet n row = (row.seq ≤ n) ⊎ (operator_after (decode row.body) ≡ none)

  abbrev AllQuiet : ℕ → List OutRow → Type 0
  AllQuiet n [] = Unit {0}
  AllQuiet n (row ∷ rows) = Quiet n row × AllQuiet n rows

  AllQuiet-rows_after :
      (n pos limit : ℕ) (rows : List OutRow)
      → AllQuiet n rows
      → AllQuiet n (rows_after pos limit rows)
  unfolding rows_after
  AllQuiet-rows_after n pos zero rows q = tt
  AllQuiet-rows_after n pos (suc limit) [] q = tt
  AllQuiet-rows_after n pos (suc limit) (row ∷ rows) q =
      pick (AllQuiet n) (ltb pos row.seq) (q.0, AllQuiet-rows_after n pos limit rows q.1)
        (AllQuiet-rows_after n pos (suc limit) rows q.1)

  see-quiet :
      (rows : List OutRow) (r : Reader) → AllQuiet r.op_seq rows → see_operators decode rows r ≡ r
  unfolding see_operators see_operator note_operator
  see-quiet [] r q = refl
  see-quiet (row ∷ rows) r q = ap (see_operators decode rows) quiet ∙ see-quiet rows r q.1
    where
      quiet : see_operator decode row r ≡ r
      quiet = elim q.0 [
        | inl old ↦ ground arith
        | inr nothing ↦
            if_rule (λ (x : Reader). x ≡ r) (leb row.seq r.op_seq) refl (rw nothing refl)
      ]

  AllQuiet-weaken : (n m : ℕ) (rows : List OutRow) → n ≤ m → AllQuiet n rows → AllQuiet m rows
  AllQuiet-weaken n m [] h q = tt
  AllQuiet-weaken n m (row ∷ rows) h q = (
    elim q.0 [ inl old ↦ inl (omega arith) | inr nothing ↦ inr nothing ],
    AllQuiet-weaken n m rows h q.1,
  )

  -- the last login or logout of the outbox
  Last : ℕ → List OutRow → Option OutRow → Type 0
  Last low rows none = AllQuiet 0 rows × ((known : Option Operator) → last_login rows known ≡ known)
  Last low rows (some last) =
      AllQuiet last.seq rows
      × (low < last.seq)
      × ((op : Option Operator) × (operator_after (decode last.body) ≡ some op)
          × ((known : Option Operator) → last_login rows known ≡ op))

  Last-cons :
      (low : ℕ) (row : OutRow) (rows : List OutRow) (o : Option OutRow)
      (said : Option (Option Operator))
      → low < row.seq
      → operator_after (decode row.body) ≡ said
      → is_operator_kind row.kind ≡ is_some said
      → Last row.seq rows o
      → Last low (row ∷ rows) (elim o [
        | some last ↦ some last
        | none ↦ if is_operator_kind row.kind then some row else none
      ])
  unfolding Last
  Last-cons low row rows none none h e k l = rw k ((inr e, l.0), λ known. rw e (l.1 known))
  Last-cons low row rows none (some op) h e k l = rw k (
    (inl (omega arith), AllQuiet-weaken 0 row.seq rows (omega arith) l.0),
    h,
    (op, e, λ known. rw e (l.1 op)),
  )
  Last-cons low row rows (some last) said h e k l =
      ((inl (omega arith), l.0), omega arith, (l.2.0, l.2.1, λ known. l.2.2 _))

  last_operator_row-Last :
      (low : ℕ) (rows : List OutRow)
      → IsAscending low rows
      → AreTyped rows
      → Last low rows (last_operator_row rows)
  unfolding Last last_operator_row
  last_operator_row-Last low [] a t = (tt, λ known. refl)
  last_operator_row-Last low (row ∷ rows) a t =
      Last-cons low row rows (last_operator_row rows) (operator_after (decode row.body)) a.0 refl
        t.0 (last_operator_row-Last row.seq rows a.1 t.1)

  see_last-known :
      (epoch : String) (rows seen : List OutRow) (o : Option OutRow) (r : Reader)
      → Last 0 rows o
      → ((n : ℕ) → AllQuiet n rows → AllQuiet n seen)
      → (see_operators decode seen (see_last decode o (enter_epoch epoch r))).operator
        ≡ last_login rows none
  unfolding Last see_last enter_epoch
  see_last-known epoch rows seen none r l sub =
      let start = enter_epoch epoch r in
      ap (λ (x : Reader). x.operator) (see-quiet seen start (sub 0 l.0)) ∙ sym (l.1 none)
  see_last-known epoch rows seen (some last) r l sub =
      let start = enter_epoch epoch r in
      let (op, e, all) = l.2 in
      let known : Reader = record start { op_seq = last.seq; operator = op } in
      let seen_it : see_operator decode last start ≡ known =
        see-new last start l.1 ∙ rw e (unfold note_operator in refl) in
      ap (λ x. (see_operators decode seen x).operator) seen_it
      ∙ ap (λ (x : Reader). x.operator) (see-quiet seen known (sub last.seq l.0))
      ∙ sym (all none)

module _ (contract : Contract) (decode : String → Option LoginEvent) where
  write_ack-operator :
      (written : Bool) (epoch : String) (n : ℕ) (r : Reader)
      → (write_ack written epoch n r).1.operator ≡ r.operator
  unfolding write_ack
  write_ack-operator true epoch n r = refl
  write_ack-operator false epoch n r = refl

  after_append-operator :
      (disk : Disk) (epoch : String) (last count : ℕ) (o : Outcome (List ℕ) × Spool) (r : Reader)
      → (after_append contract disk epoch last count o r).1.operator ≡ r.operator
  unfolding after_append
  after_append-operator disk epoch last count (raised spool_full, s) r = refl
  after_append-operator disk epoch last count (raised spool_error, s) r = refl
  after_append-operator disk epoch last count (raised integrity_error, s) r = refl
  after_append-operator disk epoch last count (ok seqs, s) r =
      write_ack-operator disk.ack_written epoch last r

  -- storing the rows leaves the operator alone
  store_rows-operator :
      (disk : Disk) (epoch : String) (cur : Option Cursor) (rows : List OutRow) (r : Reader)
      (s : Spool)
      → (store_rows contract disk epoch cur rows r s).1.operator ≡ r.operator
  unfolding store_rows
  store_rows-operator disk epoch cur [] r s =
      if_rule (λ (o : StepAnswer × Reader × Spool). o.1.operator ≡ r.operator)
        (has_position epoch cur)
        (write_ack-operator disk.ack_written epoch (position_in epoch cur) r) refl
  store_rows-operator disk epoch cur (row ∷ rows) r s =
      after_append-operator disk epoch (last_seq row rows) (length (row ∷ rows)) _ r

  -- With the outbox in the order of its numbers and its column `type` in agreement with the
  -- events, a step that finds an epoch other than the one the reader has entered, and whose three
  -- queries go through, finds the operator that following the whole outbox from its first event
  -- would find, whether or not the step stores its batch.
  pub step-operator :
      (disk : Disk) (epoch : String) (rows : List OutRow) (r : Reader) (s : Spool)
      → is_epoch epoch r.op_epoch ≡ false
      → IsAscending 0 rows
      → AreTyped decode rows
      → (step contract decode disk
          (record {
            exists = true;
            connects = true;
            epoch = some epoch;
            rows = rows;
            epoch_query = goes_through;
            operator_query = goes_through;
            rows_query = goes_through;
          })
          r
          s).1.operator
        ≡ last_login decode rows none
  unfolding step read_epoch read_rows after_query
  step-operator disk epoch rows r s new a t =
      let cur = get_cursor outbox_source s.db.cursors in
      let pos = position_in epoch cur in
      rw new (
        store_rows-operator disk epoch cur (rows_after pos batch rows) _ s
        ∙ see_last-known decode epoch rows (rows_after pos batch rows) (last_operator_row rows) r
            (last_operator_row-Last decode 0 rows a t)
            (λ n q. AllQuiet-rows_after decode n pos batch rows q))
