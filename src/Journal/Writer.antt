-- ===== src/Journal/Writer.antt =====
-- agent_journal.py: `Journal`, the writer's side. Times are in milliseconds. What the database and the
-- disk answer is given to each call: the largest `seq` when the database opens, the `seq` of a written
-- entry, and the free bytes, each none where the call fails.
use linuxcnc_status_monitor.Common.{
  ℕ, ◌+◌, ◌-◌, ◌*◌, min, Bool, true, false, not, ◌||◌, Option, none, some, ltb, leb, if◌then◌else◌,
}

pub data State : Type 0 where
  fine failing disk_low : State

abbrev pub prune_every_ms : ℕ
prune_every_ms = 3_600_000

abbrev pub retry_first_ms : ℕ
retry_first_ms = 5_000

abbrev pub retry_max_ms : ℕ
retry_max_ms = 300_000

abbrev pub disk_check_ms : ℕ
disk_check_ms = 60_000

-- comparison of change keys (`_change_key`)
pub record SameKey (K : Type 0) : Type 0 where
  pub same : K → K → Bool

pub record Journal (K : Type 0) : Type 0 where
  pub interval_ms : ℕ
  pub min_free : ℕ
  pub last_key : Option K
  pub last_write : ℕ
  pub last_prune : ℕ
  -- none is the -1e18 before the first check
  pub last_disk_check : Option ℕ
  pub retry_at : ℕ
  pub backoff : ℕ
  pub last_seq : ℕ
  pub state : State
  pub is_open : Bool

-- one status packet, as the journal sees it: its change key, and whether it has NML messages
pub record Packet (K : Type 0) : Type 0 where
  pub key : K
  pub has_nml : Bool

unfoldable pub is_disk_low : State → Bool
is_disk_low fine = false
is_disk_low failing = false
is_disk_low disk_low = true

unfoldable pub checked_lately : ℕ → Option ℕ → Bool
checked_lately now none = false
checked_lately now (some last) = ltb (now - last) disk_check_ms

module _ {K : Type 0} where
  -- `_fail`
  unfoldable pub fail : ℕ → Journal K → Journal K
  fail now j = record j {
    is_open = false;
    state = failing;
    retry_at = now + j.backoff;
    backoff = min (j.backoff * 2) retry_max_ms;
  }

  -- `_open_db`
  unfoldable pub open_db : ℕ → Option ℕ → Journal K → Bool × Journal K
  unfolding fail
  open_db now none j = (false, fail now j)
  open_db now (some last_seq) j = (true, record j { is_open = true; last_seq = last_seq })

  -- the rest of `_disk_ok`, with the free bytes known. `free < self._min_free * 1.1` is `ltb` in tenths.
  unfoldable pub judge_disk : ℕ → Journal K → Bool × Journal K
  judge_disk free j =
      if is_disk_low j.state
      then (if ltb (10 * free) (11 * j.min_free)
          then (false, j)
          else (true, record j { state = if j.is_open then fine else failing }))
      else if ltb free j.min_free
      then (false, record j { state = disk_low })
      else (true, j)

  -- `_disk_ok`
  unfoldable pub disk_ok : ℕ → Option ℕ → Journal K → Bool × Journal K
  unfolding judge_disk
  disk_ok now free j =
      if checked_lately now j.last_disk_check
      then (not (is_disk_low j.state), j)
      else let j' = record j { last_disk_check = some now } in
        elim (if ltb 0 j.min_free then free else none) [
          | none ↦ (not (is_disk_low j.state), j')
          | some bytes ↦ judge_disk bytes j'
        ]

  -- is the database open, or opened now?
  unfoldable pub ensure_open : ℕ → Option ℕ → Journal K → Bool × Journal K
  unfolding open_db
  ensure_open now opening j =
      if j.is_open
      then (true, j)
      else if ltb now j.retry_at
      then (false, j)
      else open_db now opening j

  -- the `INSERT` and what follows it
  unfoldable pub write : ℕ → Packet K → Option ℕ → Journal K → Option ℕ × Journal K
  unfolding fail
  write now p none j = (none, fail now j)
  write now p (some seq) j = (
    some seq,
    record j {
      state = fine;
      backoff = retry_first_ms;
      last_seq = seq;
      last_key = some p.key;
      last_write = now;
      last_prune = if leb prune_every_ms (now - j.last_prune) then now else j.last_prune;
    },
  )

  module _ (k : SameKey K) where
    unfoldable pub key_changed : K → Option K → Bool
    key_changed key none = true
    key_changed key (some last) = not (k.same key last)

    unfoldable pub is_due : ℕ → Packet K → Journal K → Bool
    is_due now p j =
        key_changed p.key j.last_key || p.has_nml || leb j.interval_ms (now - j.last_write)

    -- `record`
    unfoldable pub record_packet :
        ℕ → Packet K → Option ℕ → Option ℕ → Option ℕ → Journal K → Option ℕ × Journal K
    record_packet now p free opening written j =
        let (room, j₁) = disk_ok now free j in
        let (ready, j₂) = ensure_open now opening j₁ in
        if not room
        then (none, j₁)
        else if not ready
        then (none, j₂)
        else if not (is_due now p j₂)
        then (none, j₂)
        else write now p written j₂

-- `max(1.0, float(interval_s))` and the other values of `Journal(...)`, before the database is opened
abbrev pub new_journal : {K : Type 0} → ℕ → ℕ → Journal K
new_journal interval_ms min_free = record {
  interval_ms = interval_ms;
  min_free = min_free;
  last_key = none;
  last_write = 0;
  last_prune = 0;
  last_disk_check = none;
  retry_at = 0;
  backoff = retry_first_ms;
  last_seq = 0;
  state = fine;
  is_open = false;
}
