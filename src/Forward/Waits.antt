-- ===== src/Forward/Waits.antt =====
-- agent_mes_forward.py: `step` asks to be called again at once only after progress.
use linuxcnc_status_monitor.Common.{
  ℕ, ◌+◌, ◌*◌, ◌/◌, ◌≤◌, ◌<◌, ◌≡◌, ◌⊎◌, inl, inr, ap, refl, sym, ◌∙◌, String, Bool, true, false,
  not, ◌&&◌, ◌||◌, Option, none, some, List, [], ◌∷◌, ltb, is_some, arith, if_rule, if_cases,
}
use mathlib.Core.Path.{subst}
use text.Mathlib.Text.{◌==◌ as str_eq}
use linuxcnc_status_monitor.Spool.Store.{Spool}
use linuxcnc_status_monitor.Forward.Sending.{Forwarder, send_once}
use linuxcnc_status_monitor.Forward.Session.{
  Found, Session, ask_capabilities, first_answering, has_text, switch_to, look, look_after_fails,
}
use linuxcnc_status_monitor.Forward.Loop.{
  World, wait_ms, is_offline, is_caps_due, look_or_wait, after_batch, send_step, after_capabilities,
  run_step,
}
use linuxcnc_status_monitor.Forward.Pace.{IsPaced, send_once-IsPaced, ask-IsPaced}

module _ (bytes : String → ℕ) (event_id_of : String → Option String) where
  -- half of a second's delay is not nothing
  wait_ms-positive : (rand backoff : ℕ) → 1000 ≤ backoff → wait_ms rand backoff ≡ 0 → ⊥
  unfolding wait_ms
  wait_ms-positive rand backoff h e = apart (backoff * rand) e
    where
      apart : (m : ℕ) → (backoff * 500 + m / 2) / 1000 ≡ 0 → ⊥
      apart m k = omega arith

  -- an address of the list that is not the old one and answered
  abbrev pub Answering : String → String → List Found → Type 0
  Answering old url [] = ⊥
  Answering old url (a ∷ found) =
      (a.url ≡ url) × (str_eq a.url old ≡ false) × (a.answers ≡ true) ⊎ Answering old url found

  first_answering-Answering :
      (old : String) (found : List Found) (url : String)
      → first_answering old found ≡ some url
      → Answering old url found
  unfolding first_answering
  first_answering-Answering old [] url e = cc
  first_answering-Answering old (a ∷ found) url e =
      if_cases (λ (o : Option String). o ≡ some url → Answering old url (a ∷ found))
        (not (str_eq a.url old) && a.answers) (λ taken k. inl (cc, ground arith, ground arith))
        (λ other k. inr (first_answering-Answering old found url k)) e

  -- what lets the loop go on at once: another address of the service, or acknowledged events
  abbrev pub Switched : World → String → Session → Type 0
  Switched w old y = (found : List Found) × (w.found ≡ some found) × Answering old y.url found

  abbrev pub Progress : World → String → Session → Type 0
  Progress w old y =
      Switched w old y
      ⊎ ((f : Forwarder) × ((s : Spool) × (0
              < (send_once bytes event_id_of w.now w.size w.answer f s).0)
            × (y.forwarder ≡ (send_once bytes event_id_of w.now w.size w.answer f s).1)
            × (y.spool ≡ (send_once bytes event_id_of w.now w.size w.answer f s).2)))

  -- with the address that was in use before
  abbrev pub Paced : World → String → ℕ × Session → Type 0
  Paced w old o = IsPaced o.1.forwarder × (o.0 ≡ 0 → Progress w old o.1)

  switch_to-Paced :
      (w : World) (found : List Found) (o : Option String) (x : Session)
      → w.found ≡ some found
      → ((url : String) → o ≡ some url → Answering x.url url found)
      → IsPaced x.forwarder
      → IsPaced (switch_to o x).1.forwarder
        × ((switch_to o x).0 ≡ true → Switched w x.url (switch_to o x).1)
        × ((switch_to o x).0 ≡ false → (switch_to o x).1 ≡ x)
  unfolding switch_to
  switch_to-Paced w found none x e h p = (p, (λ k. cc), (λ k. refl))
  switch_to-Paced w found (some url) x e h p = (
    record { no_short_delay = inl refl; offline_waits = λ a b c. cc },
    (λ k. (found, e, h url refl)),
    (λ k. cc),
  )

  look-Paced :
      (w : World) (o : Option (List Found)) (x : Session)
      → w.found ≡ o
      → IsPaced x.forwarder
      → IsPaced (look o x).1.forwarder
        × ((look o x).0 ≡ true → Switched w x.url (look o x).1)
        × ((look o x).0 ≡ false → (look o x).1 ≡ x)
  unfolding look
  look-Paced w none x e p = (p, (λ k. cc), (λ k. refl))
  look-Paced w (some found) x e p =
      if_rule P
        (ltb x.forwarder.fails look_after_fails
          || not (has_text x.site_id)
          || not (has_text x.ca_sha256))
        (p, (λ k. cc), (λ k. refl))
        (switch_to-Paced w found (first_answering x.url found) x e
          (λ url k. first_answering-Answering x.url found url k) p)
    where
      P : Bool × Session → Type 0
      P r = IsPaced r.1.forwarder × (r.0 ≡ true → Switched w x.url r.1) × (r.0 ≡ false → r.1 ≡ x)

  look_or_wait-Paced :
      (w : World) (x : Session)
      → IsPaced x.forwarder
      → 1000 ≤ x.forwarder.backoff
      → Paced w x.url (look_or_wait w x)
  unfolding look_or_wait
  look_or_wait-Paced w x p h =
      let (paced, switched, stays) = look-Paced w w.found x refl p in
      (
        paced,
        if_cases (λ (n : ℕ). n ≡ 0 → Progress w x.url (look w.found x).1) (look w.found x).0
            (λ yes_it e. inl (switched yes_it))
            (λ no_it e. absurd (
              wait_ms-positive w.rand (look w.found x).1.forwarder.backoff
                (subst (λ (y : Session). 1000 ≤ y.forwarder.backoff) (sym (stays no_it)) h) e)),
      )

  delayed :
      (f : Forwarder)
      → IsPaced f
      → is_some f.types ≡ true
      → not f.has_transport ≡ false
      → is_offline f.link || ltb 0 f.backoff ≡ true
      → 1000 ≤ f.backoff
  delayed f p known there slow =
      let transport : f.has_transport ≡ true = ground arith in
      elim p.no_short_delay [
        | inl zero_delay ↦ p.offline_waits transport (ground arith) known
        | inr long ↦ long
      ]

  after_batch-Paced :
      (w : World) (f : Forwarder) (s : Spool) (x : Session)
      → x.forwarder ≡ (send_once bytes event_id_of w.now w.size w.answer f s).1
      → x.spool ≡ (send_once bytes event_id_of w.now w.size w.answer f s).2
      → IsPaced x.forwarder
      → is_some x.forwarder.types ≡ true
      → Paced w x.url (
          after_batch bytes event_id_of w
            (send_once bytes event_id_of w.now w.size w.answer f s).0
            x)
  unfolding after_batch
  after_batch-Paced w f s x ef es p known =
      let n = (send_once bytes event_id_of w.now w.size w.answer f s).0 in
      if_cases (Paced w x.url) (not x.forwarder.has_transport)
        (λ gone. (p, (λ e. absurd (omega (arith, e)))))
        (λ there.
          if_cases (Paced w x.url) (is_offline x.forwarder.link || ltb 0 x.forwarder.backoff)
            (λ slow. look_or_wait-Paced w x p (delayed x.forwarder p known there slow))
            (λ quick. (
              p,
              if_cases (λ (m : ℕ). m ≡ 0 → Progress w x.url x) (ltb 0 n)
                  (λ some_acked e. inr (f, (s, ground arith, ef, es)))
                  (λ none_acked e. absurd (omega (arith, e))),
            )))

  send_step-Paced :
      (w : World) (x : Session)
      → IsPaced x.forwarder
      → is_some x.forwarder.types ≡ true
      → Paced w x.url (send_step bytes event_id_of w x)
  unfolding send_step
  send_step-Paced w x p known =
      let f = x.forwarder in
      let sent = send_once bytes event_id_of w.now w.size w.answer f x.spool in
      let (paced, types) = send_once-IsPaced bytes event_id_of w.now w.size w.answer f x.spool p in
      after_batch-Paced w f x.spool (record x { forwarder = sent.1; spool = sent.2 }) refl refl
        paced (ap (λ o. is_some o) types ∙ known)

  after_capabilities-Paced :
      (w : World) (asked : Bool) (x : Session)
      → IsPaced x.forwarder
      → (asked ≡ true → is_some x.forwarder.types ≡ true)
      → (asked ≡ false → x.forwarder.has_transport ≡ true → 1000 ≤ x.forwarder.backoff)
      → Paced w x.url (after_capabilities bytes event_id_of w asked x)
  unfolding after_capabilities
  after_capabilities-Paced w true x p known slow =
      send_step-Paced w (record x { caps_at = some w.clock }) p (known refl)
  after_capabilities-Paced w false x p known slow =
      if_cases (Paced w x.url) (not x.forwarder.has_transport)
        (λ gone. (p, (λ e. absurd (omega (arith, e)))))
        (λ there. look_or_wait-Paced w x p (slow refl (ground arith)))

  pub run_step-Paced :
      (w : World) (x : Session)
      → IsPaced x.forwarder
      → Paced w x.url (run_step bytes event_id_of w x)
  unfolding run_step
  run_step-Paced w x p =
      let (paced, known, slow) = ask-IsPaced bytes event_id_of w.capabilities x.forwarder p in
      let asked = ask_capabilities w.capabilities x.forwarder in
      if_cases (Paced w x.url) (not (is_some x.forwarder.types) || is_caps_due w.clock x.caps_at)
        (λ due.
          after_capabilities-Paced w asked.0 (record x { forwarder = asked.1 }) paced known slow)
        (λ not_due. send_step-Paced w x p (ground arith))
