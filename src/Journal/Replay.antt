-- ===== src/Journal/Replay.antt =====
-- agent_journal.py: a request is answered once, and not too many are.

use mathlib.Core.Path.{subst}
use linuxcnc_status_monitor.Common.{
  ℕ, suc, ◌+◌, ◌≤◌, ◌<◌, ◌≡◌, ◌⊎◌, refl, not, ◌&&◌, leb, if_rule, String, Bool, true, false, Option,
  none, some, List, [], ◌∷◌, length, arith, Option-cases, inl, inr, ap, sym, ◌∙◌,
}
use linuxcnc_status_monitor.Journal.Reply.{Entry, Reply, max_nonces, fresh_nonce}
use linuxcnc_status_monitor.Journal.Server.{
  Request, Datagram, Server, refuse, bad_request, send_reply, answer_fresh, answer_parsed,
  answer_datagram, roll_window, receive, reply_to_request, is_allowed,
}
use linuxcnc_status_monitor.Journal.Nonces.{
  Remembers, Remembers-fresh, fresh_nonce-Remembers, fresh_nonce-stale,
}

send_reply-nonces :
    (reply : Option Reply) (deliverable : Bool) (s : Server)
    → ((send_reply reply deliverable s).1.nonces ≡ s.nonces)
      × ((send_reply reply deliverable s).1.has_key ≡ s.has_key)
unfolding send_reply bad_request
send_reply-nonces none deliverable s = (refl, refl)
send_reply-nonces (some reply) deliverable s = (refl, refl)

-- what a reply to a fresh request leaves behind
answer_fresh-replied :
    (table : List Entry) (r : Request) (deliverable : Bool) (s : Server)
    → s.has_key ≡ true
    → (answer_fresh table r deliverable s).0 ≡ true
    → ((fresh_nonce r.nonce s.nonces).0 ≡ true)
      × ((answer_fresh table r deliverable s).1.nonces ≡ (fresh_nonce r.nonce s.nonces).1)
      × ((answer_fresh table r deliverable s).1.has_key ≡ true)
unfolding answer_fresh refuse
answer_fresh-replied table r deliverable s key h =
    let reply = reply_to_request table r in
    let s' = record s { nonces = (fresh_nonce r.nonce s.nonces).1 } in
    ground (arith, send_reply-nonces reply deliverable s')

answer_fresh-stale :
    (table : List Entry) (r : Request) (deliverable : Bool) (s : Server)
    → s.has_key ≡ true
    → (fresh_nonce r.nonce s.nonces).0 ≡ false
    → (answer_fresh table r deliverable s).0 ≡ false
unfolding answer_fresh refuse
answer_fresh-stale table r deliverable s key stale = ground arith

-- the request that was answered, and the rest of the answer
answer_datagram-replied :
    (table : List Entry) (d : Datagram) (s : Server)
    → (answer_datagram table d s).0 ≡ true
    → (r : Request) × (d.request ≡ some r)
      × (answer_datagram table d s ≡ answer_fresh table r d.deliverable s)
unfolding answer_datagram answer_parsed refuse bad_request
answer_datagram-replied table d s h = elim (Option-cases d.request) [
  | inl broken ↦ absurd (ground arith)
  | inr (r, e) ↦ (r, e, ground arith)
]

answer_datagram-stale :
    (table : List Entry) (d : Datagram) (s : Server) {r : Request}
    → d.request ≡ some r
    → (answer_fresh table r d.deliverable s).0 ≡ false
    → (answer_datagram table d s).0 ≡ false
unfolding answer_datagram answer_parsed refuse
answer_datagram-stale table d s e stale = ground arith

-- the nonces are as before, or those after a look at the request's nonce
NoncesAfter : Server → Server → Type 0
NoncesAfter s s' =
    (s'.has_key ≡ s.has_key)
    × ((s'.nonces ≡ s.nonces)
        ⊎ (nonce : Option (String × ℕ)) × (s'.nonces ≡ (fresh_nonce nonce s.nonces).1))

answer_fresh-nonces :
    (table : List Entry) (r : Request) (deliverable : Bool) (s : Server)
    → NoncesAfter s (answer_fresh table r deliverable s).1
unfolding NoncesAfter answer_fresh refuse
answer_fresh-nonces table r deliverable s =
    let reply = reply_to_request table r in
    let s' = record s { nonces = (fresh_nonce r.nonce s.nonces).1 } in
    let here = send_reply-nonces reply deliverable s in
    let there = send_reply-nonces reply deliverable s' in
    if_rule P (not s.has_key) (here.1, inl here.0)
      (if_rule P (not (fresh_nonce r.nonce s.nonces).0) (refl, inl refl)
        (there.1, inr (r.nonce, there.0)))
  where
    P : Bool × Server → Type 0
    P o = NoncesAfter s o.1

answer_datagram-nonces :
    (table : List Entry) (d : Datagram) (s : Server) → NoncesAfter s (answer_datagram table d s).1
unfolding answer_datagram refuse
answer_datagram-nonces table d s =
    if_rule P (not (is_allowed d.sender s.allow)) same
      (if_rule P (s.has_key && not d.signed) same (parsed d.request))
  where
    P : Bool × Server → Type 0
    P o = NoncesAfter s o.1

    same : NoncesAfter s (record s { refused = s.refused + 1 })
    same = unfold NoncesAfter in (refl, inl refl)

    parsed : (o : Option Request) → P (answer_parsed table o d.deliverable s)
    parsed none =
        unfold answer_parsed in unfold bad_request in unfold NoncesAfter in (refl, inl refl)
    parsed (some r) = unfold answer_parsed in answer_fresh-nonces table r d.deliverable s

roll_window-nonces :
    (now : ℕ) (s : Server)
    → ((roll_window now s).nonces ≡ s.nonces) × ((roll_window now s).has_key ≡ s.has_key)
unfolding roll_window
roll_window-nonces now s = ground arith

Keyed : String → ℕ → Server → Type 0
Keyed n later s = (s.has_key ≡ true) × Remembers n later s.nonces

Keyed-roll_window :
    (n : String) (later now : ℕ) (s : Server) → Keyed n later s → Keyed n later (roll_window now s)
unfolding Keyed
Keyed-roll_window n later now s (key, m) =
    let (nonces, keys) = roll_window-nonces now s in
    (keys ∙ key, subst (Remembers n later) (sym nonces) m)

Keyed-after :
    (n : String) (later : ℕ) (s s' : Server)
    → later + 2 ≤ max_nonces
    → NoncesAfter s s'
    → Keyed n later s
    → Keyed n (suc later) s'
unfolding Keyed NoncesAfter
Keyed-after n later s s' room (keys, inl same) (key, (before, (after, e, le))) =
    (keys ∙ key, (before, (after, same ∙ e, omega arith)))
Keyed-after n later s s' room (keys, inr (nonce, e)) (key, m) = (
  keys ∙ key,
  subst (Remembers n (suc later)) (sym e) (Remembers-fresh n later nonce s.nonces room m),
)

-- a round of the loop; a number of rounds
pub record Round : Type 0 where
  pub table : List Entry
  pub now : ℕ
  pub datagram : Datagram

abbrev pub rounds : List Round → Server → Server
rounds [] s = s
rounds (x ∷ xs) s = rounds xs (receive x.table x.now x.datagram s).1

Keyed-receive :
    (n : String) (later : ℕ) (x : Round) (s : Server)
    → later + 2 ≤ max_nonces
    → Keyed n later s
    → Keyed n (suc later) (receive x.table x.now x.datagram s).1
unfolding receive
Keyed-receive n later x s room m =
    let s₁ = roll_window x.now s in
    let rolled = Keyed-roll_window n later x.now s m in
    let answered =
      Keyed-after n later s₁ _ room (answer_datagram-nonces x.table x.datagram s₁) rolled in
    if_rule P (leb s₁.max_rate s₁.sent_in_window) (unfold Keyed in (rolled.0, more rolled.1)) (
      if_rule (Keyed n (suc later)) (answer_datagram x.table x.datagram s₁).0
        (unfold Keyed in answered) answered)
  where
    P : Bool × Server → Type 0
    P o = Keyed n (suc later) o.1

    more : {seen : List String} → Remembers n later seen → Remembers n (suc later) seen
    more (before, (after, e, le)) = (before, (after, e, omega arith))

Keyed-rounds :
    (n : String) (later : ℕ) (xs : List Round) (s : Server)
    → later + length xs < max_nonces
    → Keyed n later s
    → Keyed n (later + length xs) (rounds xs s)
Keyed-rounds n later [] s room m = subst (λ k. Keyed n k s) (omega arith) m
Keyed-rounds n later (x ∷ xs) s room m =
    let s' = (receive x.table x.now x.datagram s).1 in
    subst (λ k. Keyed n k (rounds xs s')) (omega arith)
      (Keyed-rounds n (suc later) xs s' (omega arith) (Keyed-receive n later x s (omega arith) m))

receive-replied :
    (table : List Entry) (now : ℕ) (d : Datagram) (s : Server)
    → (receive table now d s).0 ≡ true
    → let s₁ = roll_window now s in
      ((answer_datagram table d s₁).0 ≡ true)
      × ((receive table now d s).1.nonces ≡ (answer_datagram table d s₁).1.nonces)
      × ((receive table now d s).1.has_key ≡ (answer_datagram table d s₁).1.has_key)
unfolding receive
receive-replied table now d s h = ground arith

receive-refused :
    (table : List Entry) (now : ℕ) (d : Datagram) (s : Server)
    → (answer_datagram table d (roll_window now s)).0 ≡ false
    → (receive table now d s).0 ≡ false
unfolding receive
receive-refused table now d s h = ground arith

-- With a site key, a datagram that was answered is not answered again when it comes a second time
-- after fewer than 4,096 rounds of the loop, whatever these receive and whatever the table holds
-- by then.
pub replayed_datagram_refused :
    (table later : List Entry) (now then_at : ℕ) (d : Datagram) (xs : List Round) (s : Server)
    → s.has_key ≡ true
    → (receive table now d s).0 ≡ true
    → length xs < max_nonces
    → (receive later then_at d (rounds xs (receive table now d s).1)).0 ≡ false
unfolding Keyed
replayed_datagram_refused table later now then_at d xs s key h few =
    let s₁ = roll_window now s in
    let (replied, same_nonces, same_key) = receive-replied table now d s h in
    let (r, e, same) = answer_datagram-replied table d s₁ replied in
    let key₁ = (roll_window-nonces now s).1 ∙ key in
    let (fresh, nonces, keyed) =
      answer_fresh-replied table r d.deliverable s₁ key₁ (ap (λ o. o.0) (sym same) ∙ replied) in
    let (n, (chars, is_n, m)) = fresh_nonce-Remembers r.nonce s₁.nonces fresh in
    let start : Keyed n 0 (receive table now d s).1 = (
      same_key ∙ ap (λ (o : Bool × Server). o.1.has_key) same ∙ keyed,
      subst (Remembers n 0)
          (sym (same_nonces ∙ ap (λ (o : Bool × Server). o.1.nonces) same ∙ nonces)) m,
    ) in
    let s₂ = rounds xs (receive table now d s).1 in
    let (key₂, m₂) =
      Keyed-roll_window n (0 + length xs) then_at s₂
        (Keyed-rounds n 0 xs _ (omega (arith, few)) start) in
    receive-refused later then_at d s₂ (
      answer_datagram-stale later d (roll_window then_at s₂) e (
        answer_fresh-stale later r d.deliverable (roll_window then_at s₂) key₂ (
          ap (λ o. (fresh_nonce o (roll_window then_at s₂).nonces).0) is_n
          ∙ fresh_nonce-stale n chars (0 + length xs) (roll_window then_at s₂).nonces m₂)))

answer_datagram-rate :
    (table : List Entry) (d : Datagram) (s : Server)
    → ((answer_datagram table d s).1.sent_in_window ≡ s.sent_in_window)
      × ((answer_datagram table d s).1.max_rate ≡ s.max_rate)
unfolding answer_datagram answer_parsed answer_fresh send_reply refuse bad_request
answer_datagram-rate table d s = elim (Option-cases d.request) [
  | inl broken ↦ ground arith
  | inr (r, e) ↦ elim (Option-cases (reply_to_request table r)) [
    | inl bad ↦ ground arith
    | inr (reply, f) ↦ ground arith
  ]
]

-- A round of the server's loop keeps the replies of the time window at most as many as the rate
-- allows, and the rate stays.
pub receive-rate :
    (table : List Entry) (now : ℕ) (d : Datagram) (s : Server)
    → s.sent_in_window ≤ s.max_rate
    → let out = receive table now d s in
      (out.1.sent_in_window ≤ out.1.max_rate) × (out.1.max_rate ≡ s.max_rate)
unfolding receive roll_window
receive-rate table now d s le = ground (
  arith,
  answer_datagram-rate table d s,
  answer_datagram-rate table d (record s { window_start = now; sent_in_window = 0 }),
)
