-- ===== src/Forward/Progress.antt =====
-- agent_mes_forward.py: a step asks to be called again at once only after progress, loading included.
use linuxcnc_status_monitor.Common.{
  ℕ, ◌≤◌, ◌≡◌, ◌⊎◌, inl, inr, refl, sym, String, Bool, true, false, ◌&&◌, Option, none, some, List,
  is_some, if◌then◌else◌, arith, if_rule,
}
use mathlib.Core.Path.{subst}
use text.Mathlib.Text.{◌==◌ as str_eq}
use linuxcnc_status_monitor.Forward.Sending.{not_enrolled, Forwarder}
use linuxcnc_status_monitor.Forward.Session.{
  Session, Files, Enrolment, set_state, is_expired, open_transport, take_enrolment, load_enrolled,
}
use linuxcnc_status_monitor.Forward.Loop.{
  World, is_refused, same_stamp, recheck_ms, run_step, after_load, forward_step,
}
use linuxcnc_status_monitor.Forward.Pace.{IsPaced}
use linuxcnc_status_monitor.Forward.Waits.{Paced, run_step-Paced}

-- the address in use: the session's, or the one that loading the enrolment sets
unfoldable pub url_in_use : World → Session → String
url_in_use w x = if x.forwarder.has_transport then x.url else (load_enrolled w.files w.wall x).1.url

module _ (bytes : String → ℕ) (event_id_of : String → Option String) where
  -- without a transport, or without capabilities, only the delay matters
  still-IsPaced :
      (f g : Forwarder)
      → IsPaced f
      → g.backoff ≡ f.backoff
      → (g.has_transport ≡ false) ⊎ (g.types ≡ none)
      → IsPaced g
  still-IsPaced f g p e (inl gone) = record {
    no_short_delay = subst (λ n. (n ≡ 0) ⊎ (1000 ≤ n)) (sym e) p.no_short_delay;
    offline_waits = λ a b c. absurd (contrast gone a);
  }
    where
      contrast : {b : Bool} → b ≡ false → b ≡ true → ⊥
      contrast k l = cc
  still-IsPaced f g p e (inr unknown) = record {
    no_short_delay = subst (λ n. (n ≡ 0) ⊎ (1000 ≤ n)) (sym e) p.no_short_delay;
    offline_waits = λ a b c. absurd (contrast unknown c);
  }
    where
      contrast : {o : Option (List String)} → o ≡ none → is_some o ≡ true → ⊥
      contrast k l = cc

  take_enrolment-IsPaced :
      (files : Files) (wall : ℕ) (doc : Enrolment) (x : Session)
      → x.forwarder.has_transport ≡ false
      → IsPaced x.forwarder
      → IsPaced (take_enrolment files wall doc x).1.forwarder
  unfolding take_enrolment open_transport set_state
  take_enrolment-IsPaced files wall doc x gone p =
      if_rule P (is_expired wall doc.not_after) (still-IsPaced x.forwarder _ p refl (inl gone)) (
        if_rule P files.usable (still-IsPaced x.forwarder _ p refl (inr refl))
          (still-IsPaced x.forwarder _ p refl (inl gone)))
    where
      P : Bool × Session → Type 0
      P o = IsPaced o.1.forwarder

  load_enrolled-IsPaced :
      (files : Files) (wall : ℕ) (x : Session)
      → IsPaced x.forwarder
      → IsPaced (load_enrolled files wall x).1.forwarder
  unfolding load_enrolled set_state
  load_enrolled-IsPaced files wall x p =
      if_rule P (str_eq x.configured_url "") closed (found files.enrolment)
    where
      P : Bool × Session → Type 0
      P o = IsPaced o.1.forwarder

      x' : Session
      x' = record x { forwarder = record x.forwarder { has_transport = false } }

      closed : P (false, set_state not_enrolled x')
      closed = still-IsPaced x.forwarder _ p refl (inl refl)

      found :
          (o : Option Enrolment)
          → P (elim o [
            | none ↦ (false, set_state not_enrolled x')
            | some doc ↦
                if str_eq doc.machine_id x.machine_id
                then take_enrolment files wall doc x'
                else (false, set_state not_enrolled x')
          ])
      found none = closed
      found (some doc) =
          if_rule P (str_eq doc.machine_id x.machine_id)
            (take_enrolment-IsPaced files wall doc x' refl
              (still-IsPaced x.forwarder _ p refl (inl refl)))
            closed

  after_load-Paced :
      (w : World) (o : Bool × Session)
      → IsPaced o.1.forwarder
      → Paced bytes event_id_of w o.1.url (after_load bytes event_id_of w o)
  unfolding after_load
  after_load-Paced w (true, x) p = run_step-Paced bytes event_id_of w x p
  after_load-Paced w (false, x) p = (p, (λ e. absurd (omega (arith, e))))

  -- one test decides on the address and on the step
  either :
      (w : World) (b : Bool) (u v : String) (o o' : ℕ × Session)
      → Paced bytes event_id_of w u o
      → Paced bytes event_id_of w v o'
      → Paced bytes event_id_of w (if b then u else v) (if b then o else o')
  either w true u v o o' k l = k
  either w false u v o o' k l = l

  -- From a delay that is nothing or at least a second, and at least a second while the service is
  -- offline with a transport and the capabilities known, a step keeps it so; and it asks to be
  -- called again without a wait only if it has switched from the address in use to another one,
  -- which the finder named and which answered, or the last batch had at least one event
  -- acknowledged.
  pub forward_step-Paced :
      (w : World) (x : Session)
      → IsPaced x.forwarder
      → Paced bytes event_id_of w (url_in_use w x) (forward_step bytes event_id_of w x)
  unfolding forward_step url_in_use
  forward_step-Paced w x p =
      let loaded = load_enrolled w.files w.wall x in
      let barred = is_refused x.forwarder.link && same_stamp w.files.stamp x.cert_stamp in
      either w x.forwarder.has_transport x.url loaded.1.url (run_step bytes event_id_of w x)
        (if barred then (recheck_ms, x) else after_load bytes event_id_of w loaded)
        (run_step-Paced bytes event_id_of w x p)
        (if_rule (Paced bytes event_id_of w loaded.1.url) barred
          (p, (λ e. absurd (omega (arith, e))))
          (after_load-Paced w loaded (load_enrolled-IsPaced w.files w.wall x p)))
