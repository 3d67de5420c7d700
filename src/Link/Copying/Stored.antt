-- ===== src/Link/Copying/Stored.antt =====
-- agent_mes_link.py: what one step leaves in the spool and in mes_ack.json.
use mathlib.Core.Path.{subst}
use mathlib.Core.List.{append-nil, append_assoc}
use text.Mathlib.Text.{◌==◌ as str_eq}
use text.Mathlib.TextPositions.{eq_refl}
use linuxcnc_status_monitor.Common.{
  ℕ, suc, ◌≡◌, ◌∙◌, sym, ◌⊎◌, inl, inr, ap, refl, String, Bool, true, false, Option, none, some,
  List, [], ◌∷◌, ◌++◌, length, if◌then◌else◌, arith, if_rule,
}
use linuxcnc_status_monitor.Spool.State.{Row, Cursor, Db, insert_row, set_cursor, get_cursor}
use linuxcnc_status_monitor.Spool.Store.{
  Spool, raw, Contract, SpoolError, spool_full, spool_error, integrity_error, Outcome, ok, raised,
  or_raise, make_row, insert_items, transact, refresh, finish_append, committed, append_locked,
}
use linuxcnc_status_monitor.Spool.Inserted.{bind_ok, ok_injective, or_raise_ok, insert_row_lem}
use linuxcnc_status_monitor.Spool.Append.{append-Stored, append-raised}
use linuxcnc_status_monitor.Link.Copying.Batches.{end_of, last_seq_lem}
use linuxcnc_status_monitor.Link.Outbox.{
  OutRow, Reader, Ack, Disk, StepAnswer, outbox_source, position_in, items_of, write_ack,
  has_position, last_seq, after_append, store_rows,
}

abbrev pub bodies_of : List Row → List String
bodies_of [] = []
bodies_of (r ∷ rows) = r.body ∷ bodies_of rows

abbrev pub out_bodies : List OutRow → List String
out_bodies [] = []
out_bodies (r ∷ rows) = r.body ∷ out_bodies rows

pub bodies_of-append : (xs ys : List Row) → bodies_of (xs ++ ys) ≡ bodies_of xs ++ bodies_of ys
bodies_of-append [] ys = refl
bodies_of-append (x ∷ xs) ys = rw (bodies_of-append xs ys)

pub out_bodies-append :
    (xs ys : List OutRow) → out_bodies (xs ++ ys) ≡ out_bodies xs ++ out_bodies ys
out_bodies-append [] ys = refl
out_bodies-append (x ∷ xs) ys = rw (out_bodies-append xs ys)

pub get-set_cursor :
    (c : Cursor) (cs : List Cursor) → get_cursor c.source (set_cursor c cs) ≡ some c
unfolding get_cursor set_cursor
get-set_cursor c [] = ground (arith, eq_refl c.source)
get-set_cursor c (d ∷ cs) = ground (arith, eq_refl c.source, get-set_cursor c cs)

-- where the outbox's cursor stands in this epoch
abbrev pub position : String → Spool → ℕ
position epoch s = position_in epoch (get_cursor outbox_source s.db.cursors)

-- the number in mes_ack.json, as far as it is of this epoch
abbrev pub acked_of : String → Option Ack → ℕ
acked_of epoch ack = elim ack [ none ↦ 0 | some a ↦ if str_eq a.epoch epoch then a.seq else 0 ]

abbrev pub acked_in : String → Reader → ℕ
acked_in epoch r = acked_of epoch r.ack

module _ (contract : Contract) where
  make_row-body :
      (body : String) (rowseq producer_seq : ℕ) {made : Row × ℕ}
      → make_row contract (raw body) rowseq producer_seq ≡ ok made
      → made.0.body ≡ body
  unfolding make_row
  make_row-body body rowseq producer_seq e = ground arith

  insert_items-bodies :
      (rows : List OutRow) (db : Db) (producer_seq : ℕ) {done : Db × ℕ × List ℕ}
      → insert_items contract (items_of rows) db producer_seq ≡ ok done
      → bodies_of done.0.rows ≡ bodies_of db.rows ++ out_bodies rows
  unfolding insert_items
  insert_items-bodies [] db producer_seq e =
      subst (λ d. bodies_of d.0.rows ≡ bodies_of db.rows ++ []) (ok_injective e)
        (sym (append-nil (bodies_of db.rows)))
  insert_items-bodies (r ∷ rows) db producer_seq e =
      let (made, e₁, e₂) =
        bind_ok (make_row contract (raw r.body) (suc db.row_seq) producer_seq) _ e in
      let (db', e₃, e₄) = bind_ok (or_raise integrity_error (insert_row made.0 db)) _ e₂ in
      let (rest, e₅, e₆) = bind_ok (insert_items contract (items_of rows) db' made.1) _ e₄ in
      let b = make_row-body r.body (suc db.row_seq) producer_seq e₁ in
      let i = insert_row_lem made.0 db (or_raise_ok integrity_error _ e₃) in
      let ih = insert_items-bodies rows db' made.1 e₅ in
      subst (λ d. bodies_of d.0.rows ≡ bodies_of db.rows ++ r.body ∷ out_bodies rows)
        (ok_injective e₆)
        (ih
          ∙ ap (λ d. bodies_of d.rows ++ out_bodies rows) i
          ∙ ap (λ l. l ++ out_bodies rows) (bodies_of-append db.rows (made.0 ∷ []))
          ∙ append_assoc (bodies_of db.rows) (made.0.body ∷ []) (out_bodies rows)
          ∙ ap (λ x. bodies_of db.rows ++ x ∷ out_bodies rows) b)

  transact-bodies :
      (rows : List OutRow) (cursor : Option Cursor) (db : Db) (producer_seq : ℕ)
      {done : Db × ℕ × List ℕ}
      → transact contract (items_of rows) cursor db producer_seq ≡ ok done
      → bodies_of done.0.rows ≡ bodies_of db.rows ++ out_bodies rows
  unfolding transact
  transact-bodies rows cursor db producer_seq e =
      let (inserted, e₁, e₂) =
        bind_ok (insert_items contract (items_of rows) db producer_seq) _ e in
      subst (λ d. bodies_of d.0.rows ≡ bodies_of db.rows ++ out_bodies rows) (ok_injective e₂)
        (insert_items-bodies rows db producer_seq e₁)

  finish-bodies :
      (rows : List OutRow) (cursor : Option Cursor) (size : ℕ) (written : Bool) (left : Db)
      (s : Spool) (o : Outcome (Db × ℕ × List ℕ)) {seqs : List ℕ}
      → transact contract (items_of rows) cursor s.db s.producer_seq ≡ o
      → (finish_append contract size written left o s).0 ≡ ok seqs
      → bodies_of (finish_append contract size written left o s).1.db.rows
        ≡ bodies_of s.db.rows ++ out_bodies rows
  unfolding finish_append committed refresh
  finish-bodies rows cursor size written left s (raised x) t h = cc
  finish-bodies rows cursor size written left s (ok done) t h =
      transact-bodies rows cursor s.db s.producer_seq t

  pub append-bodies :
      (rows : List OutRow) (cursor : Option Cursor) (size size_after : ℕ) (written : Bool)
      (s : Spool) {seqs : List ℕ}
      → (append_locked contract (items_of rows) cursor false size size_after written s).0 ≡ ok seqs
      → bodies_of
          (append_locked contract (items_of rows) cursor false size size_after written s).1.db.rows
        ≡ bodies_of s.db.rows ++ out_bodies rows
  unfolding append_locked refresh
  append-bodies rows cursor size size_after written s {seqs} h =
      let s' = refresh size s in
      if_rule
        (λ (o : Outcome (List ℕ) × Spool).
          o.0 ≡ ok seqs → bodies_of o.1.db.rows ≡ bodies_of s.db.rows ++ out_bodies rows)
        s'.full (λ x. cc) (λ x. finish-bodies rows cursor size_after written _ s' _ refl x) h

  -- what a batch leaves behind: nothing moved, or the batch is behind the old rows and the cursor
  -- at its end; and the acknowledgement is the old one or the cursor
  abbrev pub Moved : String → List OutRow → ℕ → Reader → Spool → Reader → Spool → Type 0
  Moved epoch rows end r s r' s' =
      ((bodies_of s'.db.rows ≡ bodies_of s.db.rows) × (position epoch s' ≡ position epoch s)
        ⊎ (bodies_of s'.db.rows ≡ bodies_of s.db.rows ++ out_bodies rows)
          × (position epoch s' ≡ end))
      × ((acked_in epoch r' ≡ acked_in epoch r) ⊎ (acked_in epoch r' ≡ position epoch s'))

  pub unmoved :
      (epoch : String) (rows : List OutRow) (end : ℕ) (r r' : Reader) (s s' : Spool)
      → s'.db ≡ s.db
      → r'.ack ≡ r.ack
      → Moved epoch rows end r s r' s'
  unmoved epoch rows end r r' s s' e k = (
    inl (
      ap (λ d. bodies_of d.rows) e,
      ap (λ d. position_in epoch (get_cursor outbox_source d.cursors)) e,
    ),
    inl (ap (λ (a : Option Ack). acked_of epoch a) k),
  )

  write_ack_lem :
      (written : Bool) (epoch : String) (n : ℕ) (r : Reader)
      → (acked_in epoch (write_ack written epoch n r).1 ≡ acked_in epoch r)
        ⊎ (acked_in epoch (write_ack written epoch n r).1 ≡ n)
  unfolding write_ack
  write_ack_lem true epoch n r = inr (ground (arith, eq_refl epoch))
  write_ack_lem false epoch n r = inl refl

  after_append-Moved :
      (disk : Disk) (epoch : String) (rows : List OutRow) (last count : ℕ) (r : Reader) (s : Spool)
      (o : Outcome (List ℕ) × Spool)
      → ((e : SpoolError) → o.0 ≡ raised e → o.1.db ≡ s.db)
      → ((seqs : List ℕ)
          → o.0 ≡ ok seqs
          → (bodies_of o.1.db.rows ≡ bodies_of s.db.rows ++ out_bodies rows)
            × (position epoch o.1 ≡ last))
      → let after = after_append contract disk epoch last count o r in
        Moved epoch rows last r s after.1 after.2
  unfolding after_append
  after_append-Moved disk epoch rows last count r s (raised spool_full, s') failed done =
      unmoved epoch rows last r r s s' (failed _ refl) refl
  after_append-Moved disk epoch rows last count r s (raised spool_error, s') failed done =
      unmoved epoch rows last r r s s' (failed _ refl) refl
  after_append-Moved disk epoch rows last count r s (raised integrity_error, s') failed done =
      unmoved epoch rows last r r s s' (failed _ refl) refl
  after_append-Moved disk epoch rows last count r s (ok seqs, s') failed done =
      let (b, p) = done seqs refl in
      (
        inr (b, p),
        subst
            (λ n.
              (acked_in epoch (write_ack disk.ack_written epoch last r).1 ≡ acked_in epoch r)
              ⊎ (acked_in epoch (write_ack disk.ack_written epoch last r).1 ≡ n))
            (sym p) (write_ack_lem disk.ack_written epoch last r),
      )

  pub position-moved :
      (epoch : String) (n : ℕ) (s s' : Spool)
      → s'.db.cursors
        ≡ set_cursor (record { source = outbox_source; epoch = epoch; position = n }) s.db.cursors
      → position epoch s' ≡ n
  unfolding position_in
  position-moved epoch n s s' e =
      let c : Cursor = record { source = outbox_source; epoch = epoch; position = n } in
      ap (λ cs. position_in epoch (get_cursor outbox_source cs)) e
      ∙ ap (λ o. position_in epoch o) (get-set_cursor c s.db.cursors)
      ∙ ground (arith, eq_refl epoch)

  pub store_rows-Moved :
      (disk : Disk) (epoch : String) (rows : List OutRow) (r : Reader) (s : Spool)
      → let after =
          store_rows contract disk epoch (get_cursor outbox_source s.db.cursors) rows r s in
        Moved epoch rows (end_of (position epoch s) rows) r s after.1 after.2
  unfolding store_rows
  store_rows-Moved disk epoch [] r s =
      if_rule (λ (o : StepAnswer × Reader × Spool). Moved epoch [] (position epoch s) r s o.1 o.2)
        (has_position epoch (get_cursor outbox_source s.db.cursors))
        (inl (refl, refl), write_ack_lem disk.ack_written epoch (position epoch s) r)
        (inl (refl, refl), inl refl)
  store_rows-Moved disk epoch (row ∷ rows) r s =
      let c : Cursor = record {
        source = outbox_source;
        epoch = epoch;
        position = last_seq row rows;
      } in
      let o =
        append_locked contract (items_of (row ∷ rows)) (some c) false disk.size disk.size_after
          disk.sidecar_written s in
      subst
        (λ n.
          let after =
            after_append contract disk epoch (last_seq row rows) (length (row ∷ rows)) o r in
          Moved epoch (row ∷ rows) n r s after.1 after.2)
        (last_seq_lem row rows)
        (after_append-Moved disk epoch (row ∷ rows) (last_seq row rows) (length (row ∷ rows)) r s o
          (λ e h.
            (append-raised contract (items_of (row ∷ rows)) (some c) false disk.size disk.size_after
              disk.sidecar_written s e h).0)
          (λ seqs h. (
            append-bodies (row ∷ rows) (some c) disk.size disk.size_after disk.sidecar_written s h,
            position-moved epoch (last_seq row rows) s o.1
                (append-Stored contract (items_of (row ∷ rows)) (some c) false disk.size
                  disk.size_after disk.sidecar_written s h).7,
          )))
