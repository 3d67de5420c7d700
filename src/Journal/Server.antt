-- ===== src/Journal/Server.antt =====
-- agent_journal.py: `JournalServer._answer` and the loop around it. A datagram comes with what Python's
-- libraries say of it: the sender, whether its signature is right, and the request, none if it is no
-- JSON.

use linuxcnc_status_monitor.Common.{
  ℕ, ◌+◌, ◌-◌, String, Bool, true, false, not, ◌&&◌, Option, none, some, List, [], ◌∷◌, leb,
  if◌then◌else◌,
}
use linuxcnc_status_monitor.Journal.Reply.{
  Arg, Entry, Reply, max_reply_bytes, build_reply, fresh_nonce, known_nonce,
}

pub record Request : Type 0 where
  -- an object whose type is "journal_request"
  pub is_request : Bool
  pub nonce : Option (String × ℕ)
  pub from_arg : Arg
  pub to_arg : Arg
  -- does building the reply go through (an error of the database raises, say)
  pub builds : Bool

pub record Datagram : Type 0 where
  pub sender : Option String
  pub signed : Bool
  pub request : Option Request
  -- does `sendto` of the reply work
  pub deliverable : Bool

pub record Server : Type 0 where
  pub max_rate : ℕ
  pub has_key : Bool
  pub allow : List String
  pub nonces : List String
  pub refused : ℕ
  pub bad_requests : ℕ
  pub window_start : ℕ
  pub sent_in_window : ℕ

-- the sender is on the list, or the list is empty
unfoldable pub is_allowed : Option String → List String → Bool
unfolding known_nonce
is_allowed sender [] = true
is_allowed none (a ∷ allow) = false
is_allowed (some host) (a ∷ allow) = known_nonce host (a ∷ allow)

unfoldable pub refuse : Server → Bool × Server
refuse s = (false, record s { refused = s.refused + 1 })

unfoldable pub bad_request : Server → Bool × Server
bad_request s = (false, record s { bad_requests = s.bad_requests + 1 })

-- the reply, if there is one, and whether it is sent
unfoldable pub send_reply : Option Reply → Bool → Server → Bool × Server
unfolding bad_request
send_reply none deliverable s = bad_request s
send_reply (some reply) deliverable s = (deliverable, s)

-- the reply; none where building it raises, which the caller counts the same way
unfoldable pub reply_to_request : List Entry → Request → Option Reply
reply_to_request table r =
    if r.builds then build_reply max_reply_bytes r.is_request r.from_arg r.to_arg table else none

-- with a key the nonce must be fresh, and it is remembered
unfoldable pub answer_fresh : List Entry → Request → Bool → Server → Bool × Server
unfolding send_reply refuse fresh_nonce reply_to_request
answer_fresh table r deliverable s =
    let (fresh, nonces) = fresh_nonce r.nonce s.nonces in
    let reply = reply_to_request table r in
    if not s.has_key
    then send_reply reply deliverable s
    else if not fresh
    then refuse s
    else send_reply reply deliverable (record s { nonces = nonces })

unfoldable pub answer_parsed : List Entry → Option Request → Bool → Server → Bool × Server
unfolding bad_request answer_fresh
answer_parsed table none deliverable s = bad_request s
answer_parsed table (some r) deliverable s = answer_fresh table r deliverable s

-- `_answer`: was a reply sent?
unfoldable pub answer_datagram : List Entry → Datagram → Server → Bool × Server
unfolding refuse answer_parsed is_allowed
answer_datagram table d s =
    if not (is_allowed d.sender s.allow)
    then refuse s
    else if s.has_key && not d.signed
    then refuse s
    else answer_parsed table d.request d.deliverable s

-- the time window of the rate limit, one second long
unfoldable pub roll_window : ℕ → Server → Server
roll_window now s =
    if leb 1_000 (now - s.window_start)
    then record s { window_start = now; sent_in_window = 0 }
    else s

-- one round of the loop, for a datagram that was received
unfoldable pub receive : List Entry → ℕ → Datagram → Server → Bool × Server
unfolding roll_window
receive table now d s =
    let s₁ = roll_window now s in
    let (replied, s₂) = answer_datagram table d s₁ in
    if leb s₁.max_rate s₁.sent_in_window
    then (false, s₁)
    else (replied, if replied then record s₂ { sent_in_window = s₂.sent_in_window + 1 } else s₂)
