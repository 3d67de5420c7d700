-- ===== src/Link/CycleLink.antt =====
-- agent_mes_link.py: `CycleLink`, which the sampling loop calls. Every operation is given the time,
-- and what current_execution.json holds if it is read. A test that raises leaves the cycle as it is,
-- and its exception goes on to the caller; nothing follows the test in any operation.
use text.Mathlib.Text.{◌==◌ as str_eq}
use linuxcnc_status_monitor.Common.{
  ℕ, suc, ◌+◌, max, String, Bool, true, false, not, ◌&&◌, ◌||◌, Option, none, some, List, [], ◌∷◌,
  ◌++◌, length, ltb, leb, if◌then◌else◌,
}
use linuxcnc_status_monitor.Link.Current.{
  Field, str, null, Doc, Library, truthy, read_current, session_of, same_file, match_run,
}

abbrev pub retry_every : ℕ
retry_every = 500

abbrev pub retry_for : ℕ
retry_for = 3000

abbrev pub queue_size : ℕ
queue_size = 256

pub data Method : Type 0 where
  unmatched explicit time_window : Method

pub record Cycle : Type 0 where
  pub started : ℕ
  pub program_path : Field
  pub execution_id : Field
  pub method : Method
  pub operator_session_id : Option String
  pub next_try : ℕ
  pub uncertain : Bool

pub record Fact : Type 0 where
  pub started : ℕ
  pub ended : ℕ
  pub outcome : String
  pub program_path : Field
  pub execution_id : Field
  pub method : Method
  pub operator_session_id : Option String

-- `out` is the queue to the worker, which takes `queue_size` facts
pub record CycleLink : Type 0 where
  pub mw_data : Bool
  pub cycle : Option Cycle
  pub dropped : ℕ
  pub out : List Fact

unfoldable pub is_unmatched : Method → Bool
is_unmatched unmatched = true
is_unmatched explicit = false
is_unmatched time_window = false

unfoldable pub is_explicit : Method → Bool
is_explicit unmatched = false
is_explicit explicit = true
is_explicit time_window = false

-- `a or b`
unfoldable pub first_true : Field → Field → Field
unfolding truthy
first_true a b = if truthy a then a else b

unfoldable pub adopt : Doc → Cycle → Cycle
unfolding session_of
adopt doc c = record c {
  execution_id = doc.execution_id;
  method = explicit;
  operator_session_id = session_of doc.operator_session_id;
}

unfoldable pub adopt_by_time : Doc → Cycle → Cycle
unfolding session_of first_true
adopt_by_time doc c = record c {
  execution_id = doc.execution_id;
  method = time_window;
  operator_session_id = session_of doc.operator_session_id;
  program_path = first_true doc.run_file (first_true doc.program_path c.program_path);
}

module _ (lib : Library) where
  unfoldable pub try_by_time : Doc → Option Bool → Cycle → Cycle
  unfolding adopt_by_time
  try_by_time doc none c = c
  try_by_time doc (some true) c = adopt_by_time doc c
  try_by_time doc (some false) c = c

  unfoldable pub try_doc : Doc → Option Bool → Cycle → Cycle
  unfolding adopt try_by_time match_run
  try_doc doc none c = c
  try_doc doc (some true) c = adopt doc c
  try_doc doc (some false) c =
      if c.uncertain
      then try_by_time doc (match_run lib (some doc) c.program_path c.started true) c
      else c

  -- `_try`; without a document both tests fail
  unfoldable pub try_match : Option Doc → Cycle → Cycle
  unfolding try_doc match_run
  try_match none c = c
  try_match (some doc) c = try_doc doc (match_run lib (some doc) c.program_path c.started false) c

  -- `start`; `id` is what `uuid.uuid4` gives
  unfoldable pub start : String → Bool → ℕ → String → Option (List ℕ) → CycleLink → CycleLink
  unfolding try_match read_current
  start file uncertain now id content l =
      let c : Cycle = record {
        started = now;
        program_path = (if str_eq file "" then null else str file);
        execution_id = str id;
        method = unmatched;
        operator_session_id = none;
        next_try = now + retry_every;
        uncertain = uncertain;
      } in
      record l { cycle = some (try_match (read_current lib l.mw_data content) c) }

  unfoldable pub poll_cycle : Bool → ℕ → Option (List ℕ) → Cycle → Cycle
  unfolding try_match read_current is_unmatched
  poll_cycle mw_data now content c =
      if not (is_unmatched c.method) || not mw_data
      then c
      else if leb c.next_try now && leb now (c.started + (retry_for + retry_every))
      then try_match (read_current lib mw_data content) (record c { next_try = now + retry_every })
      else c

  unfoldable pub poll : ℕ → Option (List ℕ) → CycleLink → CycleLink
  unfolding poll_cycle
  poll now content l = elim l.cycle [
    | none ↦ l
    | some c ↦ record l { cycle = some (poll_cycle l.mw_data now content c) }
  ]

  -- the cycle with another program, and a look for its run unless it is already known by its path
  unfoldable pub change_program : Bool → String → Option (List ℕ) → Cycle → Cycle
  unfolding try_match read_current is_explicit
  change_program mw_data file content c =
      let c' = record c { program_path = str file; uncertain = false } in
      if not (is_explicit c.method) && mw_data
      then try_match (read_current lib mw_data content) c'
      else c'

  unfoldable pub set_if_other : Bool → String → Option (List ℕ) → Option Bool → Cycle → Cycle
  unfolding change_program
  set_if_other mw_data file content none c = c
  set_if_other mw_data file content (some true) c = c
  set_if_other mw_data file content (some false) c = change_program mw_data file content c

  unfoldable pub set_program : String → Option (List ℕ) → CycleLink → CycleLink
  unfolding set_if_other same_file
  set_program file content l = elim l.cycle [
    | none ↦ l
    | some c ↦ if str_eq file "" then l else record l {
      cycle =
          some (set_if_other l.mw_data file content (same_file lib (str file) c.program_path) c);
    }
  ]

-- `adopted_program`
unfoldable pub adopted_program : CycleLink → Option Field
adopted_program l = elim l.cycle [
  | none ↦ none
  | some c ↦ elim c.method [
    | unmatched ↦ none
    | explicit ↦ none
    | time_window ↦ some c.program_path
  ]
]

unfoldable pub fact_of : String → ℕ → Cycle → Fact
fact_of outcome now c = record {
  started = c.started;
  ended = max now c.started;
  outcome = outcome;
  program_path = c.program_path;
  execution_id = c.execution_id;
  method = c.method;
  operator_session_id = c.operator_session_id;
}

-- `put_nowait`, and the count of the facts that did not fit
unfoldable pub put_fact : Fact → CycleLink → CycleLink
put_fact f l =
    if ltb (length l.out) queue_size
    then record l { out = l.out ++ f ∷ [] }
    else record l { dropped = suc l.dropped }

unfoldable pub end_cycle : String → ℕ → CycleLink → CycleLink
unfolding fact_of put_fact
end_cycle outcome now l = elim l.cycle [
  | none ↦ l
  | some c ↦ put_fact (fact_of outcome now c) (record l { cycle = none })
]
