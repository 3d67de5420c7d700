-- ===== src/Spool/Epoch.antt =====
-- agent_mes_spool.py: `_open_epoch`, which gives a database that was created again or restored from an
-- older copy a new epoch, and what that is for: no sequence number is used twice in an epoch.
use text.Mathlib.Text.{◌==◌ as str_eq}
use text.Mathlib.TextEquality.{eq_iff}
use linuxcnc_status_monitor.Common.{
  ℕ, ◌≤◌, ◌≡◌, ◌⊎◌, ◌∙◌, inl, refl, String, Bool, false, not, ◌&&◌, ◌||◌, Option, none, some, ltb,
  if◌then◌else◌, arith,
}

-- the rows of `meta` that are read
pub record Meta : Type 0 where
  pub producer_id : Option String
  pub epoch : Option String
  pub producer_seq : ℕ

-- mes_spool.producer.json
pub record Sidecar : Type 0 where
  pub producer_id : String
  pub epoch : String
  pub seq : ℕ

-- what the spool object and the database hold after opening
pub record Identity : Type 0 where
  pub producer_id : String
  pub epoch : String
  pub producer_seq : ℕ

-- the sidecar's producer, or a new one; an empty text counts as none
unfoldable pub sidecar_producer : Option Sidecar → String → String
sidecar_producer none new_id = new_id
sidecar_producer (some side) new_id =
    if str_eq side.producer_id "" then new_id else side.producer_id

-- the database's producer, else the sidecar's, else a new one
unfoldable pub known_producer : Option String → Option Sidecar → String → String
unfolding sidecar_producer
known_producer none side new_id = sidecar_producer side new_id
known_producer (some id) side new_id = if str_eq id "" then sidecar_producer side new_id else id

-- "spool database restored from an older copy"
unfoldable pub is_restored : Option Sidecar → String → String → ℕ → Bool
is_restored none producer epoch seq = false
is_restored (some side) producer epoch seq =
    str_eq side.producer_id producer && (not (str_eq side.epoch epoch) || ltb seq side.seq)

-- the transaction of `_open_epoch`, by the epoch in the database
unfoldable pub choose_epoch : Option Sidecar → String → Option String → ℕ → String → Identity
unfolding is_restored
choose_epoch side producer none seq new_epoch = record {
  producer_id = producer;
  epoch = new_epoch;
  producer_seq = 0;
}
choose_epoch side producer (some epoch) seq new_epoch =
    if is_restored side producer epoch seq
    then record { producer_id = producer; epoch = new_epoch; producer_seq = 0 }
    else record { producer_id = producer; epoch = epoch; producer_seq = seq }

-- `_open_epoch`, with the two ids that `uuid.uuid4` would give
unfoldable pub open_epoch : Option Sidecar → Meta → String → String → Identity
open_epoch side m new_producer new_epoch =
    choose_epoch side (known_producer m.producer_id side new_producer) m.epoch m.producer_seq
      new_epoch

-- a new epoch from 0, or the sidecar's epoch at or after the sidecar's number
abbrev pub IsFresh : Sidecar → Option String → ℕ → String → Identity → Type 0
IsFresh side epoch seq new_epoch opened =
    ((opened.epoch ≡ new_epoch) × (opened.producer_seq ≡ 0))
    ⊎ ((opened.epoch ≡ side.epoch)
        × (epoch ≡ some opened.epoch)
        × (side.seq ≤ opened.producer_seq)
        × (opened.producer_seq ≡ seq))

choose_epoch-IsFresh :
    (side : Sidecar) (producer : String) (epoch : Option String) (seq : ℕ) (new_epoch : String)
    → side.producer_id ≡ producer
    → IsFresh side epoch seq new_epoch (choose_epoch (some side) producer epoch seq new_epoch)
unfolding choose_epoch
choose_epoch-IsFresh side producer none seq new_epoch same = inl (refl, refl)
choose_epoch-IsFresh side producer (some epoch) seq new_epoch same =
    ground (arith, eq_iff side.producer_id producer, eq_iff side.epoch epoch)

choose_epoch-producer :
    (side : Option Sidecar) (producer : String) (epoch : Option String) (seq : ℕ)
    (new_epoch : String)
    → (choose_epoch side producer epoch seq new_epoch).producer_id ≡ producer
unfolding choose_epoch
choose_epoch-producer side producer none seq new_epoch = refl
choose_epoch-producer side producer (some epoch) seq new_epoch = ground arith

-- Opening with the same producer's sidecar gives a new epoch from 0, or the sidecar's epoch from
-- a number not below the sidecar's.
pub open_epoch-IsFresh :
    (side : Sidecar) (m : Meta) (new_producer new_epoch : String)
    → side.producer_id ≡ (open_epoch (some side) m new_producer new_epoch).producer_id
    → IsFresh side m.epoch m.producer_seq new_epoch
        (open_epoch (some side) m new_producer new_epoch)
unfolding open_epoch
open_epoch-IsFresh side m new_producer new_epoch same =
    choose_epoch-IsFresh side _ m.epoch m.producer_seq new_epoch
      (same ∙ choose_epoch-producer (some side) _ m.epoch m.producer_seq new_epoch)
