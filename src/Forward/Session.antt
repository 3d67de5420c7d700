-- ===== src/Forward/Session.antt =====
-- agent_mes_forward.py: `Forwarder._load`, `_look` and `_capabilities`. The clock, the files of
-- the enrolment and the answers of the network are given to each call; times are in milliseconds.
use text.Mathlib.Text.{◌==◌ as str_eq}
use linuxcnc_status_monitor.Common.{
  ℕ, suc, min, String, Bool, true, false, not, ◌&&◌, ◌||◌, Option, none, some, List, [], ◌∷◌, ltb,
  leb, ◌==◌, if◌then◌else◌,
}
use linuxcnc_status_monitor.Spool.Store.{Spool}
use linuxcnc_status_monitor.Forward.Sending.{
  Link, not_enrolled, cert_expired, rejected, Forwarder, set_ok, set_offline, set_refused,
}

abbrev pub look_after_fails : ℕ
look_after_fails = 3

-- `enrolment.json`, as far as the forwarder reads it
pub record Enrolment : Type 0 where
  pub machine_id : String
  pub site_id : String
  pub not_after : Option ℕ

-- the files of the enrolment: the document, the address that was found on the network before, the
-- fingerprint of the CA, the time stamp of the certificate, and whether a transport can be made of them
pub record Files : Type 0 where
  pub enrolment : Option Enrolment
  pub found : Option String
  pub ca_sha256 : Option String
  pub stamp : Option ℕ
  pub usable : Bool

-- the capabilities of the service: the types it takes and its limits, where they are positive numbers
pub record Capabilities : Type 0 where
  pub event_types : List String
  pub max_batch_events : Option ℕ
  pub max_batch_bytes : Option ℕ
  pub max_event_bytes : Option ℕ

-- what the request for the capabilities comes to; the document is none if it is not understood
pub data CapsReply : Type 0 where
  caps_certificate : Link → CapsReply
  caps_unreachable : Bool → CapsReply
  caps_answered : ℕ → Option Capabilities → CapsReply

-- an address that the finder names, and whether it passes TLS and answers with status 200
pub record Found : Type 0 where
  pub url : String
  pub answers : Bool

pub record Session : Type 0 where
  pub forwarder : Forwarder
  pub spool : Spool
  pub machine_id : String
  pub configured_url : String
  pub url : String
  pub site_id : Option String
  pub ca_sha256 : Option String
  pub caps_at : Option ℕ
  pub cert_stamp : Option ℕ

unfoldable pub set_state : Link → Session → Session
set_state link x = record x { forwarder = record x.forwarder { link = link } }

unfoldable pub is_expired : ℕ → Option ℕ → Bool
is_expired wall none = false
is_expired wall (some na) = leb na wall

unfoldable pub or_configured : String → Option String → String
or_configured configured none = configured
or_configured configured (some url) = url

-- a transport of the enrolment, with the capabilities to be asked for
unfoldable pub open_transport : Files → Session → Bool × Session
unfolding set_state
open_transport files x =
    if files.usable
    then (
      true,
      record x {
        forwarder = record x.forwarder { has_transport = true; types = none };
        caps_at = none;
      },
    )
    else (false, set_state not_enrolled x)

-- the enrolment is this machine's; that the site id goes to the spool, for the bodies of its own events, is
-- not part of the model
unfoldable pub take_enrolment : Files → ℕ → Enrolment → Session → Bool × Session
unfolding set_state is_expired or_configured open_transport
take_enrolment files wall doc x =
    let x' = record x {
      url = or_configured x.configured_url files.found;
      site_id = some doc.site_id;
      ca_sha256 = files.ca_sha256;
      cert_stamp = files.stamp;
    } in
    if is_expired wall doc.not_after
    then (false, set_state cert_expired x')
    else open_transport files x'

-- `_load`
unfoldable pub load_enrolled : Files → ℕ → Session → Bool × Session
unfolding set_state take_enrolment
load_enrolled files wall x =
    let x' = record x { forwarder = record x.forwarder { has_transport = false } } in
    if str_eq x.configured_url ""
    then (false, set_state not_enrolled x')
    else elim files.enrolment [
      | none ↦ (false, set_state not_enrolled x')
      | some doc ↦
          if str_eq doc.machine_id x.machine_id
          then take_enrolment files wall doc x'
          else (false, set_state not_enrolled x')
    ]

unfoldable pub positive_or : ℕ → Option ℕ → ℕ
positive_or old none = old
positive_or old (some v) = if ltb 0 v then v else old

-- `... or 1`
unfoldable pub or_one : ℕ → ℕ
or_one n = if n == 0 then 1 else n

unfoldable pub set_limits : Capabilities → Forwarder → Forwarder
unfolding positive_or or_one
set_limits c f =
    let events = positive_or f.max_events c.max_batch_events in
    record f {
      max_events = events;
      max_bytes = positive_or f.max_bytes c.max_batch_bytes;
      max_event = positive_or f.max_event c.max_event_bytes;
      batch_cap = or_one (min f.batch_cap events);
      types = some c.event_types;
    }

-- the answer of the service to the request
unfoldable pub read_capabilities : ℕ → Option Capabilities → Forwarder → Bool × Forwarder
unfolding set_limits set_ok set_offline
read_capabilities status none f = (false, set_offline f)
read_capabilities status (some c) f =
    if status == 200 then (true, set_ok (set_limits c f)) else (false, set_offline f)

-- `_capabilities`, with `_call`
unfoldable pub ask_capabilities : CapsReply → Forwarder → Bool × Forwarder
unfolding set_refused set_offline read_capabilities
ask_capabilities (caps_certificate link) f = (false, set_refused link f)
ask_capabilities (caps_unreachable counted) f =
    (false, set_offline (record f { fails = if counted then suc f.fails else f.fails }))
ask_capabilities (caps_answered status doc) f =
    let f' = record f { fails = 0 } in
    if status == 401 || status == 403
    then (false, set_refused rejected f')
    else read_capabilities status doc f'

-- the first address that is another one and answers
unfoldable pub first_answering : String → List Found → Option String
first_answering url [] = none
first_answering url (a ∷ found) =
    let rest = first_answering url found in
    if not (str_eq a.url url) && a.answers then some a.url else rest

unfoldable pub has_text : Option String → Bool
has_text none = false
has_text (some s) = not (str_eq s "")

unfoldable pub switch_to : Option String → Session → Bool × Session
switch_to none x = (false, x)
switch_to (some url) x = (
  true,
  record x {
    url = url;
    forwarder = record x.forwarder { fails = 0; backoff = 0; types = none };
    caps_at = none;
  },
)

-- `_look`
unfoldable pub look : Option (List Found) → Session → Bool × Session
unfolding first_answering has_text switch_to
look none x = (false, x)
look (some found) x =
    if ltb x.forwarder.fails look_after_fails
      || not (has_text x.site_id)
      || not (has_text x.ca_sha256)
    then (false, x)
    else switch_to (first_answering x.url found) x
