-- ===== src/Journal/Reply.antt =====
-- agent_journal.py: `_seq_arg`, `build_reply` and `_fresh_nonce`. The table `entries` is a list in the
-- order of `seq`.
use text.Mathlib.Text.{◌==◌ as str_eq}
use linuxcnc_status_monitor.Common.{
  ℕ, zero, suc, ◌+◌, ◌-◌, min, String, Bool, true, false, not, ◌&&◌, ◌||◌, Option, none, some, List,
  [], ◌∷◌, ◌++◌, length, drop, ltb, leb, if◌then◌else◌,
}

-- A JSON value as `_seq_arg` tells them apart: what is not a boolean, a whole number or a short string
-- of digits is `other`. A string of digits is given with the number that Python's `int` reads.
pub data Arg : Type 0 where
  null boolean other : Arg
  integer negative whole_float digits : ℕ → Arg

abbrev pub max_seq : ℕ
max_seq = 9_223_372_036_854_775_807

abbrev pub max_reply_bytes : ℕ
max_reply_bytes = 16_000

abbrev pub max_rows_per_query : ℕ
max_rows_per_query = 500

-- `0 <= n <= MAX_SEQ`
unfoldable pub in_range : ℕ → Option ℕ
in_range n = if leb n max_seq then some n else none

-- `_seq_arg`: none where it raises
unfoldable pub seq_arg : Arg → Option ℕ
unfolding in_range
seq_arg null = none
seq_arg boolean = none
seq_arg other = none
seq_arg (integer n) = in_range n
seq_arg (negative n) = none
seq_arg (whole_float n) = in_range n
seq_arg (digits n) = in_range n

pub record Entry : Type 0 where
  pub seq : ℕ
  pub ts_ms : ℕ
  pub data_bytes : ℕ
  -- does `json.loads` read the data
  pub readable : Bool

pub record Reply : Type 0 where
  pub first_seq : ℕ
  pub last_seq : ℕ
  pub from_seq : ℕ
  pub entries : List Entry
  pub more : Bool

-- `COALESCE(MIN(seq), 0)` and `COALESCE(MAX(seq), 0)`
unfoldable pub first_seq_of : List Entry → ℕ
first_seq_of [] = 0
first_seq_of (e ∷ es) = e.seq

unfoldable pub last_seq_of : List Entry → ℕ
last_seq_of [] = 0
last_seq_of (e ∷ []) = e.seq
last_seq_of (e ∷ f ∷ es) = last_seq_of (f ∷ es)

-- `WHERE seq > ? AND seq <= ? ORDER BY seq LIMIT ?`
unfoldable pub select_entries : ℕ → ℕ → ℕ → List Entry → List Entry
select_entries low high zero es = []
select_entries low high (suc limit) [] = []
select_entries low high (suc limit) (e ∷ es) =
    let with_it = e ∷ select_entries low high limit es in
    let without_it = select_entries low high (suc limit) es in
    if ltb low e.seq && leb e.seq high then with_it else without_it

-- the loop over the rows; `started` says whether an entry is already in the reply
unfoldable pub fill : ℕ → ℕ → Bool → List Entry → List Entry
fill max_bytes size started [] = []
fill max_bytes size started (e ∷ es) =
    let size' = size + (e.data_bytes + 40) in
    let with_it = e ∷ fill max_bytes size' true es in
    let skipped = fill max_bytes size started es in
    if started && ltb max_bytes size' then [] else if e.readable then with_it else skipped

-- `entries[-1][0] if entries else upper`
unfoldable pub last_sent : ℕ → List Entry → ℕ
unfolding last_seq_of
last_sent upper [] = upper
last_sent upper (e ∷ es) = last_seq_of (e ∷ es)

unfoldable pub upper_of : Option ℕ → ℕ → ℕ
upper_of none last = last
upper_of (some to_seq) last = min to_seq last

-- `build_reply`, after the arguments are checked
unfoldable pub reply_to : ℕ → ℕ → Option ℕ → List Entry → Reply
unfolding select_entries fill last_sent upper_of
reply_to max_bytes from_seq to_seq table =
    let upper = upper_of to_seq (last_seq_of table) in
    let entries =
      fill max_bytes 400 false (select_entries from_seq upper max_rows_per_query table) in
    record {
      first_seq = first_seq_of table;
      last_seq = last_seq_of table;
      from_seq = from_seq;
      entries = entries;
      more = ltb (last_sent upper entries) upper;
    }

-- `_seq_arg(to_seq) if to_seq is not None else None`
unfoldable pub to_seq_arg : Arg → Option (Option ℕ)
unfolding seq_arg
to_seq_arg null = some none
to_seq_arg a = elim (seq_arg a) [ none ↦ none | some n ↦ some (some n) ]

-- `build_reply`: none for a bad request
unfoldable pub build_reply : ℕ → Bool → Arg → Arg → List Entry → Option Reply
build_reply max_bytes is_request from_arg to_arg table =
    if not is_request then none else elim (seq_arg from_arg) [
      | none ↦ none
      | some from_seq ↦ elim (to_seq_arg to_arg) [
        | none ↦ none
        | some to_seq ↦ some (reply_to max_bytes from_seq to_seq table)
      ]
    ]

abbrev pub max_nonces : ℕ
max_nonces = 4096

unfoldable pub known_nonce : String → List String → Bool
known_nonce nonce [] = false
known_nonce nonce (n ∷ ns) = str_eq nonce n || known_nonce nonce ns

-- `_fresh_nonce`, of a text with its number of characters: the oldest nonces are forgotten
unfoldable pub fresh_nonce : Option (String × ℕ) → List String → Bool × List String
unfolding known_nonce
fresh_nonce none seen = (false, seen)
fresh_nonce (some (nonce, chars)) seen =
    if not (leb 8 chars && leb chars 64) || known_nonce nonce seen
    then (false, seen)
    else (true, drop (length (seen ++ nonce ∷ []) - max_nonces) (seen ++ nonce ∷ []))
