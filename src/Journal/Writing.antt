-- ===== src/Journal/Writing.antt =====
-- agent_journal.py: which packets are written, and what a failure does.
use linuxcnc_status_monitor.Common.{
  ℕ, zero, suc, ◌+◌, ◌-◌, ◌*◌, ◌≤◌, ◌<◌, ◌≡◌, ◌∙◌, min, true, false, ◌||◌, Option, none, some, List,
  [], ◌∷◌, length, leb, if◌then◌else◌, arith,
}
use linuxcnc_status_monitor.Journal.Writer.{
  fine, failing, SameKey, Journal, Packet, retry_first_ms, retry_max_ms, is_disk_low,
  checked_lately, fail, judge_disk, disk_ok, ensure_open, write, key_changed, is_due, record_packet,
}

module _ {K : Type 0} (k : SameKey K) where
  -- A packet that is reported as written is in the database under that number; the journal is
  -- fine, remembers the packet's key and time, and its retry delay is the shortest again.
  pub record_packet-written :
      (now : ℕ) (p : Packet K) (free opening written : Option ℕ) (j : Journal K) (seq : ℕ)
      → (record_packet k now p free opening written j).0 ≡ some seq
      → let j' = (record_packet k now p free opening written j).1 in
        (written ≡ some seq)
        × (j'.state ≡ fine)
        × (j'.last_seq ≡ seq)
        × (j'.last_key ≡ some p.key)
        × (j'.last_write ≡ now)
        × (j'.backoff ≡ retry_first_ms)
  unfolding record_packet write
  record_packet-written now p free opening none j seq h = absurd (ground arith)
  record_packet-written now p free opening (some n) j seq h = ground arith

  -- With the database open and the disk checked a moment ago, a packet is written exactly when its
  -- key is new, it has messages, or the interval has passed, and the insert works.
  pub record_packet-open :
      (now : ℕ) (p : Packet K) (free opening : Option ℕ) (n : ℕ) (j : Journal K)
      → j.is_open ≡ true
      → checked_lately now j.last_disk_check ≡ true
      → is_disk_low j.state ≡ false
      → (record_packet k now p free opening (some n) j).0 ≡ (
          if key_changed k p.key j.last_key || p.has_nml || leb j.interval_ms (now - j.last_write)
          then some n
          else none)
  unfolding record_packet write disk_ok ensure_open is_due
  record_packet-open now p free opening n j opened checked room = ground arith

  -- With the database open, the disk checked a moment ago and not low, and the packet due, a
  -- failed write is not reported as written, closes the database and puts the next try off by the
  -- delay of then.
  pub record_packet-failed :
      (now : ℕ) (p : Packet K) (free opening : Option ℕ) (j : Journal K)
      → j.is_open ≡ true
      → checked_lately now j.last_disk_check ≡ true
      → is_disk_low j.state ≡ false
      → is_due k now p j ≡ true
      → let out = record_packet k now p free opening none j in
        (out.0 ≡ none)
        × (out.1.state ≡ failing)
        × (out.1.is_open ≡ false)
        × (out.1.retry_at ≡ now + j.backoff)
        × (out.1.last_key ≡ j.last_key)
  unfolding record_packet write disk_ok ensure_open fail
  record_packet-failed now p free opening j opened checked room now_due = ground arith

  -- While the disk is low and has not a tenth to spare, nothing is written.
  pub record_packet-disk_low :
      (now bytes : ℕ) (p : Packet K) (opening written : Option ℕ) (j : Journal K)
      → is_disk_low j.state ≡ true
      → 10 * bytes < 11 * j.min_free
      → ((record_packet k now p (some bytes) opening written j).0 ≡ none)
        × (is_disk_low (record_packet k now p (some bytes) opening written j).1.state ≡ true)
  unfolding record_packet disk_ok judge_disk
  record_packet-disk_low now bytes p opening written j low few = ground arith

-- a number doubled `n` times
abbrev pub doublings : ℕ → ℕ → ℕ
doublings zero b = b
doublings (suc n) b = doublings n (b * 2)

min-doublings :
    (n a b : ℕ)
    → min a retry_max_ms ≡ min b retry_max_ms
    → min (doublings n a) retry_max_ms ≡ min (doublings n b) retry_max_ms
min-doublings zero a b e = e
min-doublings (suc n) a b e = min-doublings n (a * 2) (b * 2) (omega arith)

module _ {K : Type 0} where
  -- failures one after the other, at the given times
  unfoldable pub fail_all : List ℕ → Journal K → Journal K
  fail_all [] j = j
  fail_all (now ∷ later) j = fail_all later (fail now j)

  -- From a delay of at most five minutes, after some failures in a row the delay is what it was,
  -- doubled once for each of them, at most five minutes.
  pub backoff-fail_all :
      (times : List ℕ) (j : Journal K)
      → j.backoff ≤ retry_max_ms
      → (fail_all times j).backoff ≡ min (doublings (length times) j.backoff) retry_max_ms
  unfolding fail_all fail
  backoff-fail_all [] j le = omega arith
  backoff-fail_all (now ∷ later) j le =
      backoff-fail_all later (fail now j) (omega arith)
      ∙ min-doublings (length later) (min (j.backoff * 2) retry_max_ms) (j.backoff * 2)
          (omega arith)
