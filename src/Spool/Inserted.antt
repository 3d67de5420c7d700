-- ===== src/Spool/Inserted.antt =====
-- agent_mes_spool.py: the rows that the loop of `_append_locked` inserts.
use mathlib.Core.Path.{subst}
use mathlib.Core.List.{append-nil, append_assoc}
use linuxcnc_status_monitor.Common.{
  ℕ, suc, ◌+◌, ◌≡◌, ◌∙◌, refl, ap, sym, true, Option, none, some, List, [], ◌∷◌, ◌++◌, length,
  arith,
}
use linuxcnc_status_monitor.Spool.State.{Row, Db, is_pending, insert_row}
use linuxcnc_status_monitor.Spool.Store.{
  Item, own, raw, Head, Contract, SpoolError, spool_error, integrity_error, Outcome, ok, raised,
  ◌>>=◌, or_raise, make_row, insert_items,
}
use linuxcnc_status_monitor.Spool.Rows.{waiting}

-- `n + 1, n + 2, ...`, as many as there are items
abbrev pub numbers_after : ℕ → List Item → List ℕ
numbers_after n [] = []
numbers_after n (i ∷ items) = suc n ∷ numbers_after (suc n) items

-- how many of the items are the agent's own
abbrev pub count_own : List Item → ℕ
count_own [] = 0
count_own (own kind payload occurred id ∷ items) = suc (count_own items)
count_own (raw body ∷ items) = count_own items

abbrev pub seqs_of : List Row → List ℕ
seqs_of [] = []
seqs_of (r ∷ rows) = r.seq ∷ seqs_of rows

-- a successful chain is a chain of successes
pub bind_ok :
    {A B : Type 0} (m : Outcome A) (f : A → Outcome B) {b : B}
    → (m >>= f) ≡ ok b
    → (a : A) × (m ≡ ok a) × (f a ≡ ok b)
bind_ok (ok a) f e = (a, refl, e)
bind_ok (raised x) f e = cc

pub ok_injective : {A : Type 0} {a b : A} → ok a ≡ ok b → a ≡ b
ok_injective e = cc

pub or_raise_ok :
    {A : Type 0} (x : SpoolError) (o : Option A) {a : A} → or_raise x o ≡ ok a → o ≡ some a
or_raise_ok x none e = cc
or_raise_ok x (some b) e = cc

pub insert_row_lem :
    (r : Row) (db : Db) {db' : Db}
    → insert_row r db ≡ some db'
    → db' ≡ record db { rows = db.rows ++ r ∷ []; row_seq = r.seq }
unfolding insert_row
insert_row_lem r db e = ground arith

module _ (contract : Contract) where
  -- The row holds the item: an event of the agent's own as the contract encodes it with its two numbers,
  -- or another's body as it came; the id, type and time are the given ones, or those that the contract
  -- reads from the body.
  abbrev pub IsRowOf : Item → ℕ → ℕ → Row → Type 0
  IsRowOf (own kind payload occurred id) rowseq producer_seq r =
      (contract.encode kind payload occurred id (suc producer_seq) rowseq ≡ some r.body)
      × (r.event_id ≡ id)
      × (r.kind ≡ kind)
      × (r.occurred_at ≡ occurred)
  IsRowOf (raw body) rowseq producer_seq r =
      (head : Head) × (contract.decode body ≡ some head)
      × (r.body ≡ body)
      × (r.event_id ≡ head.event_id)
      × (r.kind ≡ head.kind)
      × (r.occurred_at ≡ head.occurred_at)

  -- one row for each item, in order, after a number and the producer's number
  abbrev pub AreRowsOf : List Item → ℕ → ℕ → List Row → Type 0
  AreRowsOf [] n producer_seq [] = Unit {0}
  AreRowsOf [] n producer_seq (r ∷ rows) = ⊥
  AreRowsOf (item ∷ items) n producer_seq [] = ⊥
  AreRowsOf (item ∷ items) n producer_seq (r ∷ rows) =
      IsRowOf item (suc n) producer_seq r
      × AreRowsOf items (suc n) (producer_seq + count_own (item ∷ [])) rows

  -- what the loop has done: the old rows are there, and behind them the new ones, numbered on from
  -- the last number ever given out and waiting to be sent
  pub record Appended (items : List Item) (db : Db) (producer_seq : ℕ) (done : Db × ℕ × List ℕ)
      : Type 0 where
    pub new_rows : List Row
    pub rows : done.0.rows ≡ db.rows ++ new_rows
    pub numbered : seqs_of new_rows ≡ numbers_after db.row_seq items
    pub returned : done.2 ≡ numbers_after db.row_seq items
    pub all_waiting : waiting new_rows ≡ new_rows
    pub rows_of_items : AreRowsOf items db.row_seq producer_seq new_rows
    pub last_number : done.0.row_seq ≡ db.row_seq + length items
    pub own_number : done.1 ≡ producer_seq + count_own items
    pub same_cursors : done.0.cursors ≡ db.cursors
    pub same_producer : done.0.producer_seq ≡ db.producer_seq

  make_row_lem :
      (item : Item) (rowseq producer_seq : ℕ) {r : Row} {n : ℕ}
      → make_row contract item rowseq producer_seq ≡ ok (r, n)
      → (r.seq ≡ rowseq) × (is_pending r ≡ true) × (n ≡ producer_seq + count_own (item ∷ []))
  unfolding make_row is_pending
  make_row_lem (own kind payload occurred id) rowseq producer_seq e = ground arith
  make_row_lem (raw body) rowseq producer_seq e = ground arith

  pub make_row-IsRowOf :
      (item : Item) (rowseq producer_seq : ℕ) {made : Row × ℕ}
      → make_row contract item rowseq producer_seq ≡ ok made
      → IsRowOf item rowseq producer_seq made.0
  unfolding make_row
  make_row-IsRowOf (own kind payload occurred id) rowseq producer_seq e =
      let (body, e₁, e₂) = bind_ok (or_raise spool_error _) _ e in
      subst (λ (m : Row × ℕ). IsRowOf (own kind payload occurred id) rowseq producer_seq m.0)
        (ok_injective e₂) (or_raise_ok spool_error _ e₁, refl, refl, refl)
  make_row-IsRowOf (raw body) rowseq producer_seq e =
      let (head, e₁, e₂) = bind_ok (or_raise spool_error (contract.decode body)) _ e in
      subst (λ (m : Row × ℕ). IsRowOf (raw body) rowseq producer_seq m.0) (ok_injective e₂)
        (head, or_raise_ok spool_error _ e₁, refl, refl, refl, refl)

  Appended-cons :
      (item : Item) (items : List Item) (db : Db) (producer_seq n : ℕ) (r : Row)
      (rest : Db × ℕ × List ℕ)
      → r.seq ≡ suc db.row_seq
      → is_pending r ≡ true
      → n ≡ producer_seq + count_own (item ∷ [])
      → IsRowOf item (suc db.row_seq) producer_seq r
      → Appended items (record db { rows = db.rows ++ r ∷ []; row_seq = suc db.row_seq }) n rest
      → Appended (item ∷ items) db producer_seq (rest.0, rest.1, suc db.row_seq ∷ rest.2)
  Appended-cons item items db producer_seq n r rest number waits own_seq is_row ih = record {
    new_rows = r ∷ ih.new_rows;
    rows = ih.rows ∙ append_assoc db.rows (r ∷ []) ih.new_rows;
    numbered = rw (number, ih.numbered);
    returned = rw ih.returned;
    all_waiting = rw (waits, ih.all_waiting);
    rows_of_items = (
      is_row,
      subst (λ p. AreRowsOf items (suc db.row_seq) p ih.new_rows) own_seq ih.rows_of_items,
    );
    last_number = omega (arith, ih.last_number);
    own_number = ih.own_number ∙ rw own_seq (count_own_lem item);
    same_cursors = ih.same_cursors;
    same_producer = ih.same_producer;
  }
    where
      count_own_lem :
          (i : Item)
          → producer_seq + count_own (i ∷ []) + count_own items
            ≡ producer_seq + count_own (i ∷ items)
      count_own_lem (own kind payload occurred id) = omega arith
      count_own_lem (raw body) = omega arith

  pub insert_items-Appended :
      (items : List Item) (db : Db) (producer_seq : ℕ) {done : Db × ℕ × List ℕ}
      → insert_items contract items db producer_seq ≡ ok done
      → Appended items db producer_seq done
  unfolding insert_items
  insert_items-Appended [] db producer_seq e =
      subst (Appended [] db producer_seq) (ok_injective e) (record {
        new_rows = [];
        rows = sym (append-nil db.rows);
        numbered = refl;
        returned = refl;
        all_waiting = refl;
        rows_of_items = tt;
        last_number = omega arith;
        own_number = omega arith;
        same_cursors = refl;
        same_producer = refl;
      })
  insert_items-Appended (item ∷ items) db producer_seq e =
      let (made, e₁, e₂) = bind_ok (make_row contract item (suc db.row_seq) producer_seq) _ e in
      let (db', e₃, e₄) = bind_ok (or_raise integrity_error (insert_row made.0 db)) _ e₂ in
      let (rest, e₅, e₆) = bind_ok (insert_items contract items db' made.1) _ e₄ in
      let m = make_row_lem item (suc db.row_seq) producer_seq e₁ in
      let i = insert_row_lem made.0 db (or_raise_ok integrity_error _ e₃) in
      let ih = insert_items-Appended items db' made.1 e₅ in
      subst (Appended (item ∷ items) db producer_seq) (ok_injective e₆) (
        Appended-cons item items db producer_seq made.1 made.0 rest m.0 m.1 m.2
          (make_row-IsRowOf item (suc db.row_seq) producer_seq e₁)
          (subst (λ d. Appended items d made.1 rest)
            (i ∙ ap (λ n. record db { rows = db.rows ++ made.0 ∷ []; row_seq = n }) m.0) ih))
