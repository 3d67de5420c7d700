-- ===== src/Link/Drain.antt =====
-- agent_mes_link.py: the loop over `OutboxReader.step` in `MesWorker.run_once` comes to an end.
use mathlib.Core.Path.{subst}
use linuxcnc_status_monitor.Common.{
  ℕ, zero, suc, ◌+◌, ◌≤◌, ◌<◌, ◌≡◌, ◌≢◌, sym, ◌⊎◌, inl, inr, refl, String, Bool, true, false, not,
  Option, none, some, List, [], ◌∷◌, length, ltb, ◌==◌, if◌then◌else◌, arith, if_rule, if_cases,
  Bool-cases, Option-cases,
}
use linuxcnc_status_monitor.Spool.Store.{Spool, Contract}
use linuxcnc_status_monitor.Link.Copying.Batches.{IsAscending, IsAscending-weaken, end_of}
use linuxcnc_status_monitor.Link.Copying.Stored.{position}
use linuxcnc_status_monitor.Link.Copying.Reports.{step-Reports}
use linuxcnc_status_monitor.Link.Outbox.{
  after_query_rule, OutRow, LoginEvent, Outbox, Reader, Disk, StepAnswer, stored, uncaught, batch,
  rows_after, step,
}
use linuxcnc_status_monitor.Link.Worker.{
  Texts, Worker, Round, drain, after_drain, read_outbox, finish_read, store_facts, run_once,
}

-- how many rows are above a position
abbrev pub count_after : ℕ → List OutRow → ℕ
count_after pos [] = 0
count_after pos (r ∷ rows) =
    if ltb pos r.seq then suc (count_after pos rows) else count_after pos rows

count_after-length : (pos : ℕ) (rows : List OutRow) → count_after pos rows ≤ length rows
count_after-length pos [] = omega arith
count_after-length pos (r ∷ rows) = ground (arith, count_after-length pos rows)

count_after-all :
    (pos : ℕ) (rows : List OutRow) → IsAscending pos rows → count_after pos rows ≡ length rows
count_after-all pos [] a = refl
count_after-all pos (r ∷ rows) a =
    let ih = count_after-all pos rows (IsAscending-weaken pos r.seq rows (omega arith) a.1) in
    ground arith

end_of-rows_after :
    (x low pos n : ℕ) (rows : List OutRow)
    → IsAscending low rows
    → (x ≤ pos) ⊎ (x ≤ low)
    → x ≤ end_of x (rows_after pos n rows)
unfolding rows_after
end_of-rows_after x low pos zero rows a b = omega arith
end_of-rows_after x low pos (suc n) [] a b = omega arith
end_of-rows_after x low pos (suc n) (r ∷ rows) a b =
    let taken = end_of-rows_after r.seq r.seq pos n rows a.1 (inr (omega arith)) in
    let left =
      end_of-rows_after x r.seq pos (suc n) rows a.1
        (elim b [ inl h ↦ inl h | inr h ↦ inr (omega arith) ]) in
    ground arith

-- where every row is new, the rows of a batch are above its end no more
count_after-new :
    (low pos n : ℕ) (rows : List OutRow)
    → pos ≤ low
    → IsAscending low rows
    → count_after (end_of low (rows_after pos n rows)) rows + length (rows_after pos n rows)
      ≤ length rows
unfolding rows_after
count_after-new low pos zero rows h a = omega (arith, count_after-length low rows)
count_after-new low pos (suc n) [] h a = omega arith
count_after-new low pos (suc n) (r ∷ rows) h a =
    let ih = count_after-new r.seq pos n rows (omega arith) a.1 in
    let later = end_of-rows_after r.seq r.seq pos n rows a.1 (inr (omega arith)) in ground arith

count_after-batch :
    (low pos n : ℕ) (rows : List OutRow)
    → IsAscending low rows
    → count_after (end_of pos (rows_after pos n rows)) rows + length (rows_after pos n rows)
      ≤ count_after pos rows
unfolding rows_after
count_after-batch low pos zero rows a = omega arith
count_after-batch low pos (suc n) [] a = omega arith
count_after-batch low pos (suc n) (r ∷ rows) a = elim (Bool-cases (ltb pos r.seq)) [
  | inl new ↦
      let above : IsAscending pos (r ∷ rows) = (ground arith, a.1) in
      subst
        (λ m.
          count_after (end_of pos (rows_after pos (suc n) (r ∷ rows))) (r ∷ rows)
            + length (rows_after pos (suc n) (r ∷ rows))
          ≤ m)
        (sym (count_after-all pos (r ∷ rows) above))
        (count_after-new pos pos (suc n) (r ∷ rows) (omega arith) above)
  | inr old ↦
      let ih = count_after-batch r.seq pos (suc n) rows a.1 in
      let later = end_of-rows_after pos r.seq pos (suc n) rows a.1 (inl (omega arith)) in
      ground arith
]

-- a loop of steps ends where the rest ends after a whole batch
Ends : Option (Bool × Reader × Spool) → Type 0
Ends o = (done : Bool × Reader × Spool) × (o ≡ some done)

next-Ends :
    (a : StepAnswer) (r : Reader) (s : Spool) (rest : Option (Bool × Reader × Spool))
    → ((n : ℕ) → a ≡ stored n → n ≡ batch → Ends rest)
    → Ends (elim a [
      | uncaught ↦ some (false, r, s)
      | stored n ↦ if n == batch then rest else some (true, r, s)
    ])
unfolding Ends
next-Ends uncaught r s rest h = (_, refl)
next-Ends (stored n) r s rest h =
    if_cases Ends (n == batch) (λ full. h n refl (ground arith)) (λ part. (_, refl))

module _ (contract : Contract) (decode : String → Option LoginEvent) where
  -- a whole batch leaves fewer rows to read
  fewer_left :
      (epoch : String) (disk : Disk) (ob : Outbox) (r : Reader) (s : Spool) (n : ℕ)
      → ob.epoch ≡ some epoch
      → IsAscending 0 ob.rows
      → (step contract decode disk ob r s).0 ≡ stored n
      → n ≡ batch
      → count_after (position epoch (step contract decode disk ob r s).2) ob.rows
        < count_after (position epoch s) ob.rows
  fewer_left epoch disk ob r s n e asc stores full =
      let (taken, moved) =
        step-Reports contract decode disk epoch ob r s e n stores (omega arith) in
      let fewer = count_after-batch 0 (position epoch s) batch ob.rows asc in
      subst (λ m. count_after m ob.rows < count_after (position epoch s) ob.rows) (sym moved)
        (omega arith)

  -- With the outbox in the order of its numbers, as many steps as there are rows above the cursor,
  -- and one, are enough for the loop, whatever the disk does in between.
  pub drain_ends :
      (fuel : ℕ) (disks : ℕ → Disk) (i : ℕ) (epoch : String) (ob : Outbox) (r : Reader) (s : Spool)
      → ob.epoch ≡ some epoch
      → IsAscending 0 ob.rows
      → count_after (position epoch s) ob.rows < fuel
      → (done : Bool × Reader × Spool) × (drain contract decode fuel disks i ob r s ≡ some done)
  unfolding drain Ends
  drain_ends zero disks i epoch ob r s e asc h = absurd (omega arith)
  drain_ends (suc fuel) disks i epoch ob r s e asc h =
      let o = step contract decode (disks i) ob r s in
      next-Ends o.0 o.1 o.2 (drain contract decode fuel disks (suc i) ob o.1 o.2) (λ n k full.
        let fewer = fewer_left epoch (disks i) ob r s n e asc k full in
        drain_ends fuel disks (suc i) epoch ob o.1 o.2 e asc (omega (arith, h, fewer)))

  -- an outbox without an epoch is not read
  drain_nothing :
      (fuel : ℕ) (disks : ℕ → Disk) (i : ℕ) (ob : Outbox) (r : Reader) (s : Spool)
      → ob.epoch ≡ none
      → Ends (drain contract decode (suc fuel) disks i ob r s)
  unfolding drain step Ends
  drain_nothing fuel disks i ob r s e =
      next-Ends o.0 o.1 o.2 (drain contract decode fuel disks (suc i) ob o.1 o.2)
        (λ n k full. absurd (unread e n k full))
    where
      o : StepAnswer × Reader × Spool
      o = step contract decode (disks i) ob r s

      P : StepAnswer × Reader × Spool → Type 0
      P x = (n : ℕ) → x.0 ≡ stored n → n ≡ batch → ⊥

      nothing : P (stored 0, r, s)
      nothing n k full = cc

      escaped : P (uncaught, r, s)
      escaped n k full = cc

      unread : ob.epoch ≡ none → P (step contract decode (disks i) ob r s)
      unread e = if_rule P (not ob.exists) nothing (
          if_rule P (not ob.connects) escaped
            (after_query_rule P ob.epoch_query r s _ nothing escaped (rw e nothing)))

  read_outbox-ends :
      (round : Round) (w : Worker) (o : Option Reader)
      → w.reader ≡ o
      → IsAscending 0 round.outbox.rows
      → (done : Bool × Worker) × (read_outbox contract decode round w ≡ some done)
  unfolding read_outbox after_drain Ends
  read_outbox-ends round w none e asc = ((true, w), rw e refl)
  read_outbox-ends round w (some r) e asc =
      let ob = round.outbox in
      let ended : Ends (drain contract decode (suc (length ob.rows)) round.disks 0 ob r w.spool) =
        elim (Option-cases ob.epoch) [
          | inl none_there ↦ drain_nothing (length ob.rows) round.disks 0 ob r w.spool none_there
          | inr (epoch, k) ↦
              drain_ends (suc (length ob.rows)) round.disks 0 epoch ob r w.spool k asc
                (omega (arith, count_after-length (position epoch w.spool) ob.rows))
        ] in
      let (done, k) = ended in
      ((done.0, record w { reader = some done.1; spool = done.2 }), rw (e, k) refl)

  -- With the outbox in the order of its numbers, the loop over the outbox in run_once ends,
  -- whatever the disk does in between: as many steps as the outbox has rows, and one, are enough.
  pub run_once-ends :
      (texts : Texts) (round : Round) (w : Worker)
      → IsAscending 0 round.outbox.rows
      → run_once contract texts decode round w ≢ none
  unfolding run_once finish_read
  run_once-ends texts round w asc =
      let stored_facts = store_facts contract texts round w in
      let (read, e) = read_outbox-ends round stored_facts.1 stored_facts.1.reader refl asc in
      if_rule (λ (o : Option (Bool × Worker)). o ≢ none) stored_facts.0 (rw e (λ k. cc)) (λ k. cc)
