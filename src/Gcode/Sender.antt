-- ===== src/Gcode/Sender.antt =====
-- agent_gcode.py: the state of `GcodeFileSender` and what it decides. Times are in milliseconds. The
-- worker thread's steps are calls: it is started with the generation of that moment, and its end comes
-- later, after any other calls.
use text.Mathlib.Text.{◌==◌ as str_eq}
use linuxcnc_status_monitor.Common.{
  ℕ, zero, suc, ◌+◌, ◌-◌, ◌*◌, String, Bool, true, false, not, ◌&&◌, ◌||◌, Option, none, some, List,
  length, ltb, leb, ◌==◌, if◌then◌else◌,
}
use linuxcnc_status_monitor.Gcode.Split.{split_content}

-- the file name, its size and its time of change
pub record Fingerprint : Type 0 where
  pub name : String
  pub size : ℕ
  pub modified : ℕ

unfoldable pub same_print : Fingerprint → Fingerprint → Bool
same_print a b = str_eq a.name b.name && a.size == b.size && a.modified == b.modified

pub data Reason : Type 0 where
  too_large too_many_chunks : Reason

abbrev pub retry_after_ms : ℕ
retry_after_ms = 10_000

abbrev pub send_tries : ℕ
send_tries = 3

abbrev pub max_program_chars : ℕ
max_program_chars = 33_554_432

abbrev pub max_chunks : ℕ
max_chunks = 80_000

pub record Sender : Type 0 where
  pub resend_ms : ℕ
  pub worker_alive : Bool
  pub sent_fingerprint : Option Fingerprint
  pub sent_at : ℕ
  pub retry_at : ℕ
  pub generation : ℕ
  pub refused : Option (Fingerprint × Reason)

-- `reset`
unfoldable pub reset_sender : Sender → Sender
reset_sender s = record s {
  sent_fingerprint = none;
  retry_at = 0;
  refused = none;
  generation = s.generation + 1;
}

unfoldable pub is_sent : Fingerprint → Option Fingerprint → Bool
unfolding same_print
is_sent fp none = false
is_sent fp (some sent) = same_print fp sent

-- `_due`
unfoldable pub due : Fingerprint → ℕ → Sender → Bool
unfolding is_sent
due fp now s =
    if s.worker_alive
    then false
    else if ltb now s.retry_at
    then false
    else if not (is_sent fp s.sent_fingerprint)
    then true
    else ltb 0 s.resend_ms && leb s.resend_ms (now - s.sent_at)

-- `check_and_send`: the generation a new worker is started with, if there is one
unfoldable pub check_and_send : String → Fingerprint → ℕ → Sender → Option ℕ × Sender
check_and_send file_path fp now s =
    if str_eq file_path "" || str_eq fp.name ""
    then (none, s)
    else if not (due fp now s)
    then (none, s)
    else (some s.generation, record s { worker_alive = true })

-- the reason why this program was refused before
unfoldable pub known_refusal : Fingerprint → Option (Fingerprint × Reason) → Option Reason
unfolding same_print
known_refusal fp none = none
known_refusal fp (some (other, reason)) = if same_print other fp then some reason else none

-- What the worker sends: one refusal, or the pieces of the program.
pub data Packets (A : Type 0) : Type 0 where
  refusal : Reason → Packets A
  chunks : List (List A) → Packets A

module _ {A : Type 0} (size : List A → ℕ) (budget chunk_size : ℕ) where
  -- `_stream`, for the budget that `_pieces` computes from the packet's head
  unfoldable pub stream : List A → Packets A
  stream content =
      if ltb max_program_chars (length content)
      then refusal too_large
      else let pieces = split_content size budget chunk_size content in
        if ltb max_chunks (length pieces) then refusal too_many_chunks else chunks pieces

  unfoldable pub read_and_stream : Option (List A) → Option (Packets A)
  unfolding stream
  read_and_stream none = none
  read_and_stream (some content) = some (stream content)

  -- `_prepare`: `content` is what the file holds, at most `max_program_chars + 1` characters of it;
  -- none if it cannot be read
  unfoldable pub prepare : Fingerprint → Option (List A) → Sender → Option (Packets A)
  prepare fp content s = elim (known_refusal fp s.refused) [
    | some reason ↦ some (refusal reason)
    | none ↦
        if ltb (4 * max_program_chars) fp.size
        then some (refusal too_large)
        else read_and_stream content
  ]

-- `_note_refusal`
unfoldable pub note_refusal : Fingerprint → Reason → ℕ → Sender → Sender
unfolding known_refusal
note_refusal fp reason generation s =
    if not (generation == s.generation) then s else elim (known_refusal fp s.refused) [
      | some known ↦ s
      | none ↦ record s { refused = some (fp, reason) }
    ]

-- `send` of one packet, tried again up to `tries` times: `accepts i` is the answer of the i-th call of
-- `send`. Returns whether it was accepted, and the number of calls so far.
unfoldable pub send_packet : (ℕ → Bool) → ℕ → ℕ → Bool × ℕ
send_packet accepts zero call = (false, call)
send_packet accepts (suc tries) call =
    let rest = send_packet accepts tries (suc call) in
    if accepts call then (true, suc call) else rest

-- the loop over the packets: it goes on after one that was not accepted
unfoldable pub send_packets : (ℕ → Bool) → ℕ → ℕ → Bool × ℕ
unfolding send_packet
send_packets accepts zero call = (true, call)
send_packets accepts (suc packets) call =
    let first = send_packet accepts send_tries call in
    let rest = send_packets accepts packets first.1 in (first.0 && rest.0, rest.1)

-- the end of `_run`: the worker is done, and its result counts if the generation is still the same
unfoldable pub finish_send : Fingerprint → ℕ → Bool → ℕ → Sender → Sender
finish_send fp generation ok now s =
    let s' = record s { worker_alive = false } in
    if not (generation == s.generation)
    then s'
    else if ok
    then record s' { sent_fingerprint = some fp; sent_at = now; retry_at = 0 }
    else record s' { retry_at = now + retry_after_ms }

-- the end of `_run` when the file could not be read
unfoldable pub give_up : ℕ → Sender → Sender
give_up now s = record s { worker_alive = false; retry_at = now + retry_after_ms }
