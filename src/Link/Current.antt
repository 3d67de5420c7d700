-- ===== src/Link/Current.antt =====
-- agent_mes_link.py: current_execution.json, and whether it is the run that the agent saw start.
-- Times are in milliseconds.
use text.Mathlib.Text.{◌==◌ as str_eq}
use linuxcnc_status_monitor.Common.{
  ℕ, ◌+◌, String, Bool, true, false, not, ◌&&◌, ◌||◌, Option, none, some, List, length, take, ltb,
  leb, if◌then◌else◌,
}

-- a value of a JSON object as `dict.get` gives it: a text, None (or no such key), or something else
-- that is true or false
pub data Field : Type 0 where
  str : String → Field
  null : Field
  other : Bool → Field

pub record Doc : Type 0 where
  pub execution_id : Field
  pub operator_session_id : Field
  pub started_at : Field
  pub ended_at : Field
  pub program_path : Field
  pub run_file : Field

-- What the module takes from elsewhere: `json.loads` of bytes in UTF-8 as far as the result is an
-- object, `UUID4_RE.match`, the contract's `parse_timestamp`, and `os.path.normpath`.
pub record Library : Type 0 where
  pub decode : List ℕ → Option Doc
  pub is_uuid : String → Bool
  pub parse_timestamp : Field → Option ℕ
  pub normpath : String → String

abbrev pub match_before : ℕ
match_before = 3000

abbrev pub match_after : ℕ
match_after = 1000

abbrev pub max_json_bytes : ℕ
max_json_bytes = 1024

unfoldable pub truthy : Field → Bool
truthy (str s) = not (str_eq s "")
truthy null = false
truthy (other b) = b

-- `read_current`, for what the file holds, if it can be read; `mw_data` is whether a folder is set
unfoldable pub read_current : Library → Bool → Option (List ℕ) → Option Doc
read_current lib false file = none
read_current lib true none = none
read_current lib true (some bytes) =
    let raw = take (max_json_bytes + 1) bytes in
    if ltb max_json_bytes (length raw) then none else lib.decode raw

-- the value of `operator_session_id` once it is None or a text
unfoldable pub session_of : Field → Option String
session_of (str s) = some s
session_of null = none
session_of (other b) = none

module _ (lib : Library) where
  -- the two texts are one path; none if `normpath` raises, as it does for what is no text
  unfoldable pub same_path : Field → Field → Option Bool
  same_path (str a) (str b) = some (str_eq (lib.normpath a) (lib.normpath b))
  same_path (str a) null = none
  same_path (str a) (other c) = none
  same_path null b = none
  same_path (other c) b = none

  -- `_same_file`
  unfoldable pub same_file : Field → Field → Option Bool
  unfolding truthy same_path
  same_file a b = if not (truthy a) || not (truthy b) then some false else same_path a b

  -- `isinstance(eid, str) and UUID4_RE.match(eid)`
  unfoldable pub is_id : Field → Bool
  is_id (str s) = lib.is_uuid s
  is_id null = false
  is_id (other b) = false

  unfoldable pub is_session : Field → Bool
  is_session (str s) = lib.is_uuid s
  is_session null = true
  is_session (other b) = false

  -- `-MATCH_BEFORE_S <= started - agent_start <= MATCH_AFTER_S`
  unfoldable pub in_window : ℕ → Option ℕ → Bool
  in_window agent_start none = false
  in_window agent_start (some started) =
      leb agent_start (started + match_before) && leb started (agent_start + match_after)

  -- the document's run has not ended, its ids are ids, and it started when the agent's cycle did
  unfoldable pub is_started_run : Doc → ℕ → Bool
  unfolding is_id is_session in_window truthy
  is_started_run doc agent_start =
      not (truthy doc.ended_at)
      && is_id doc.execution_id
      && is_session doc.operator_session_id
      && in_window agent_start (lib.parse_timestamp doc.started_at)

  -- `or`, where the first operand may raise
  unfoldable pub or_else : Option Bool → Option Bool → Option Bool
  or_else none b = none
  or_else (some true) b = some true
  or_else (some false) b = b

  -- `match`; none if it raises
  unfoldable pub match_run : Option Doc → Field → ℕ → Bool → Option Bool
  unfolding is_started_run same_file or_else
  match_run none file agent_start any_file = some false
  match_run (some doc) file agent_start any_file =
      if not (is_started_run doc agent_start)
      then some false
      else if any_file
      then some true
      else or_else (same_file doc.program_path file) (same_file doc.run_file file)
