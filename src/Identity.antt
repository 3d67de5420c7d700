-- ===== src/Identity.antt =====
-- agent_identity.py: the file that holds the machine's id. `create` is `load_or_create`; what the
-- operating system and other processes do is given to it.
use text.Mathlib.Text.{◌==◌ as str_eq}
use linuxcnc_status_monitor.Common.{
  ℕ, ◌≤◌, ◌≡◌, String, Bool, true, false, Option, none, some, List, take, length, is_some,
  if◌then◌else◌,
}
pub mod Again
mod Tests

-- Python's libraries as the module uses them: the text under "machine_uuid" in the JSON of some bytes
-- (none if it is no JSON object, or the value is no text), `UUID4_RE`, and the bytes of a new file
pub record Codec : Type 0 where
  pub decode : List ℕ → Option String
  pub is_uuid : String → Bool
  pub render : String → List ℕ

-- a file at the path
pub record File : Type 0 where
  pub bytes : List ℕ

-- what the operating system does in one call: whether the file at the path can be read at its
-- beginning, and another process's file later; moving a damaged file aside; writing the temporary file,
-- and how many bytes `os.write` takes; hard links, and replacing a file. `theirs` is a file that another
-- process makes at the path before this one links its own.
pub record System : Type 0 where
  pub readable : Bool
  pub theirs_readable : Bool
  pub taken : ℕ
  pub movable : Bool
  pub tmp_written : Bool
  pub links : Bool
  pub replaced : Bool
  pub theirs : Option File

-- the id that the call returns, the file then at the path, and the damaged file that was moved aside
pub record Loaded : Type 0 where
  pub machine_uuid : Option String
  pub file : Option File
  pub moved : Option File

module _ (c : Codec) where
  unfoldable pub only_uuid : Option String → Option String
  only_uuid none = none
  only_uuid (some s) = if c.is_uuid s then some s else none

  -- `_parse`
  unfoldable pub parse : List ℕ → Option String
  unfolding only_uuid
  parse bytes = only_uuid (c.decode bytes)

  -- `read`, which fails where opening or reading raises
  unfoldable pub read : Bool → Option File → Option String
  unfolding parse
  read readable none = none
  read readable (some f) = if readable then parse (take 4096 f.bytes) else none

  -- what `os.write` leaves in the file
  unfoldable pub new_file : System → String → File
  new_file os id = record { bytes = take os.taken (c.render id) }

  -- a link to the temporary file, or the file that is there already if it is sound
  unfoldable pub link_new : System → String → Option File → Option File → Loaded
  unfolding read new_file
  link_new os id none moved = record {
    machine_uuid = some id;
    file = some (new_file os id);
    moved = moved;
  }
  link_new os id (some f) moved = record {
    machine_uuid = read os.theirs_readable (some f);
    file = some f;
    moved = moved;
  }

  -- `_write_new`, and None where it raises
  unfoldable pub write_new : System → String → Option File → Option File → Loaded
  unfolding link_new new_file
  write_new os id file moved =
      if os.tmp_written
      then (if os.links
          then link_new os id file moved
          else if os.replaced
          then record { machine_uuid = some id; file = some (new_file os id); moved = moved }
          else record { machine_uuid = none; file = file; moved = moved })
      else record { machine_uuid = none; file = file; moved = moved }

  -- the file at the path once others have had their turn
  unfoldable pub with_theirs : System → Option File → Option File
  with_theirs os none = os.theirs
  with_theirs os (some f) = some f

  unfoldable pub replace_damaged : System → String → File → Option String → Loaded
  unfolding write_new with_theirs
  replace_damaged os id f (some existing) = record {
    machine_uuid = some existing;
    file = some f;
    moved = none;
  }
  replace_damaged os id f none =
      if os.movable
      then write_new os id (with_theirs os none) (some f)
      else record { machine_uuid = none; file = some f; moved = none }

  -- `load_or_create`, with the id that `uuid.uuid4` would give
  unfoldable pub load_or_create : System → String → Option File → Loaded
  unfolding write_new with_theirs replace_damaged read
  load_or_create os id none = write_new os id (with_theirs os none) none
  load_or_create os id (some f) = replace_damaged os id f (read os.readable (some f))
