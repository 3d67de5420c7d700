-- ===== src/Identity/Tests.antt =====
-- agent_identity.py: the theorem at a damaged file.
use text.Mathlib.Text.{◌==◌ as str_eq}
use linuxcnc_status_monitor.Common.{
  ◌≡◌, refl, true, some, none, [], ◌∷◌, length, leb, if◌then◌else◌, arith,
}
use linuxcnc_status_monitor.Identity.{
  Codec, File, System, parse, only_uuid, read, new_file, link_new, write_new, with_theirs,
  replace_damaged, load_or_create,
}
use linuxcnc_status_monitor.Identity.Again.{load_or_create-again}

-- every file with a byte in it holds the id "u"
abbrev codec : Codec
codec = record {
  decode = λ bytes. if leb 1 (length bytes) then some "u" else none;
  is_uuid = λ s. str_eq s "u";
  render = λ s. 1 ∷ [];
}

abbrev damaged : File
damaged = record { bytes = [] }

abbrev system : System
system = record {
  readable = true;
  theirs_readable = true;
  taken = 4;
  movable = true;
  tmp_written = true;
  links = true;
  replaced = true;
  theirs = none;
}

made : (load_or_create codec system "u" (some damaged)).machine_uuid ≡ some "u"
unfolding load_or_create parse only_uuid replace_damaged write_new link_new with_theirs read
    new_file
made = refl

load_or_create-again_example :
    load_or_create codec system "v" (load_or_create codec system "u" (some damaged)).file ≡ record {
      machine_uuid = some "u";
      file = (load_or_create codec system "u" (some damaged)).file;
      moved = none;
    }
load_or_create-again_example =
    load_or_create-again codec system system "u" "v" (some damaged) "u" (refl, refl, omega arith)
      (omega arith) refl made
