-- ===== src/Spool/Success.antt =====
-- agent_mes_spool.py: when an append goes through.
use text.Mathlib.Text.{◌==◌ as str_eq}
use linuxcnc_status_monitor.Common.{
  ℕ, suc, ◌<◌, ◌≡◌, ◌⊎◌, refl, String, Bool, true, false, ◌||◌, Option, none, some, List, [], ◌∷◌,
  ◌++◌, leb, arith,
}
use linuxcnc_status_monitor.Spool.State.{Row, pending, Cursor, Db, has_event, insert_row}
use linuxcnc_status_monitor.Spool.Store.{
  Spool, Item, own, raw, Contract, ok, make_row, insert_items, transact, refresh, finish_append,
  committed, append_locked,
}

has_event-append :
    (id : String) (rows : List Row) (r : Row)
    → has_event id (rows ++ r ∷ []) ≡ has_event id rows || str_eq id r.event_id
unfolding has_event
has_event-append id [] r = ground arith
has_event-append id (x ∷ rows) r = ground (arith, has_event-append id rows r)

module _ (contract : Contract) where
  -- the contract accepts every item, whatever its numbers, and no event id is taken, neither by a row
  -- nor by an item before it
  abbrev pub AllStorable : List Item → (String → Bool) → Type 0
  AllStorable [] taken = Unit {0}
  AllStorable (own kind payload occurred id ∷ items) taken =
      ((n m : ℕ) → (body : String) × (contract.encode kind payload occurred id n m ≡ some body))
      × (taken id ≡ false)
      × AllStorable items (λ x. taken x || str_eq x id)
  AllStorable (raw body ∷ items) taken =
      (head : _) × (contract.decode body ≡ some head)
      × (taken head.event_id ≡ false)
      × AllStorable items (λ x. taken x || str_eq x head.event_id)

  -- the tables after one more row
  abbrev with_row : Row → Db → Db
  with_row r db = record db { rows = db.rows ++ r ∷ []; row_seq = r.seq }

  insert_step :
      (item : Item) (items : List Item) (db : Db) (producer_seq : ℕ) (made : Row × ℕ)
      → make_row contract item (suc db.row_seq) producer_seq ≡ ok made
      → has_event made.0.event_id db.rows ≡ false
      → (done : Db × ℕ × List ℕ) × (insert_items contract items (with_row made.0 db) made.1
          ≡ ok done)
      → (done : Db × ℕ × List ℕ) × (insert_items contract (item ∷ items) db producer_seq ≡ ok done)
  unfolding insert_items insert_row
  insert_step item items db producer_seq made m new (done, e) =
      ((done.0, done.1, suc db.row_seq ∷ done.2), rw (m, new, e) refl)

  still_free :
      (taken : String → Bool) (db : Db) (r : Row)
      → ((x : String) → taken x ≡ false → has_event x db.rows ≡ false)
      → (x : String) → taken x || str_eq x r.event_id ≡ false
      → has_event x (with_row r db).rows ≡ false
  still_free taken db r free x h = ground (arith, has_event-append x db.rows r, free x)

  insert_items_succeeds :
      (items : List Item) (taken : String → Bool) (db : Db) (producer_seq : ℕ)
      → ((x : String) → taken x ≡ false → has_event x db.rows ≡ false)
      → AllStorable items taken
      → (done : Db × ℕ × List ℕ) × (insert_items contract items db producer_seq ≡ ok done)
  unfolding insert_items make_row
  insert_items_succeeds [] taken db producer_seq free s = (_, refl)
  insert_items_succeeds (own kind payload occurred id ∷ items) taken db producer_seq free s =
      let (body, encoded) = s.0 (suc producer_seq) (suc db.row_seq) in
      let r : Row = record {
        seq = suc db.row_seq;
        event_id = id;
        kind = kind;
        occurred_at = occurred;
        body = body;
        state = pending;
        acked_at = none;
        reason = none;
      } in
      insert_step (own kind payload occurred id) items db producer_seq (r, suc producer_seq)
        (rw encoded refl) (free id s.1)
        (insert_items_succeeds items (λ x. taken x || str_eq x id) (with_row r db)
          (suc producer_seq) (still_free taken db r free) s.2)
  insert_items_succeeds (raw body ∷ items) taken db producer_seq free s =
      let (head, decoded, new, more) = s in
      let r : Row = record {
        seq = suc db.row_seq;
        event_id = head.event_id;
        kind = head.kind;
        occurred_at = head.occurred_at;
        body = body;
        state = pending;
        acked_at = none;
        reason = none;
      } in
      insert_step (raw body) items db producer_seq (r, producer_seq) (rw decoded refl)
        (free head.event_id new)
        (insert_items_succeeds items (λ x. taken x || str_eq x head.event_id) (with_row r db)
          producer_seq (still_free taken db r free) more)

  finish_succeeds :
      (items : List Item) (cursor : Option Cursor) (size : ℕ) (written : Bool) (db left : Db)
      (producer_seq : ℕ) (s : Spool) {done : Db × ℕ × List ℕ}
      → insert_items contract items db producer_seq ≡ ok done
      → (finish_append contract size written left
          (transact contract items cursor db producer_seq)
          s).0
        ≡ ok (done.2)
  unfolding transact finish_append committed
  finish_succeeds items cursor size written db left producer_seq s e = rw e refl

  pub append_succeeds :
      (items : List Item) (cursor : Option Cursor) (force : Bool) (size size_after : ℕ)
      (written : Bool) (s : Spool)
      → AllStorable items (λ x. has_event x s.db.rows)
      → (force ≡ true) ⊎ (size < s.budget)
      → (seqs : List ℕ) × ((append_locked contract items cursor force size size_after written s).0
          ≡ ok seqs)
  unfolding append_locked refresh
  append_succeeds items cursor true size size_after written s storable room =
      let (done, e) =
        insert_items_succeeds items (λ x. has_event x s.db.rows) s.db s.producer_seq (λ x h. h)
          storable in
      (done.2, finish_succeeds items cursor size_after written s.db _ s.producer_seq s e)
  append_succeeds items cursor false size size_after written s storable room =
      let (done, e) =
        insert_items_succeeds items (λ x. has_event x s.db.rows) s.db s.producer_seq (λ x h. h)
          storable in
      let room_left : leb s.budget size ≡ false = ground arith in
      (
        done.2,
        rw room_left (finish_succeeds items cursor size_after written s.db _ s.producer_seq _ e),
      )
