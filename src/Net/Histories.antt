-- ===== src/Net/Histories.antt =====
-- agent_net.py: a sender with monitor_interface, whatever is called, in whatever order.
use mathlib.Core.Path.{subst, subst₂}
use linuxcnc_status_monitor.Common.{
  ◌+◌, ◌≡◌, ◌∙◌, sym, refl, String, Bool, true, not, ◌&&◌, Option, none, some, List, [], ◌∷◌,
  is_some, if◌then◌else◌, if_rule,
}
use linuxcnc_status_monitor.Net.Targets.{Host}
use linuxcnc_status_monitor.Net.Sender.{
  Settings, UdpSender, Sent, Tally, send_each, no_tally, has_interface, create_socket, refresh,
  blank_sender, new_sender, ensure_socket, after_send, send_to, send, close,
}
use linuxcnc_status_monitor.Net.Confined.{
  AllKept, plan_at, IsBound, IsConfined, created-IsConfined, refresh-IsConfined,
}

module _ (set : Settings) where
  -- What can have happened to a sender with monitor_interface, with the PC as the last look at it
  -- that did not fail found it.
  pub data Reached : Option Host → UdpSender → Type 0 where
    created :
        (made fails made_again : Bool) (host : Host)
        → Reached (if fails then none else some host) (new_sender set made fails host made_again)
    refreshed :
        {last : Option Host} {u : UdpSender}
        → Reached last u
        → (fails made : Bool) (host : Host)
        → Reached (if fails then last else some host) (refresh set fails host made u)
    used :
        {last : Option Host} {u : UdpSender}
        → Reached last u
        → (answer : String → Sent) (made made_again : Bool)
        → Reached last (send set answer made made_again u).2
    closed : {last : Option Host} {u : UdpSender} → Reached last u → Reached last (close u)

  start-IsConfined :
      (made fails made_again : Bool) (host : Host)
      → has_interface set ≡ true
      → IsConfined set
          (if fails then none else some host)
          (new_sender set made fails host made_again)
  unfolding new_sender
  start-IsConfined made fails made_again host h =
      refresh-IsConfined set none fails made_again host (create_socket set made blank_sender) h
        (created-IsConfined set none made blank_sender h (unfold blank_sender in (refl, refl, tt)))

  pub ensure-IsConfined :
      (last : Option Host) (made : Bool) (u : UdpSender)
      → has_interface set ≡ true
      → IsConfined set last u
      → IsConfined set last (ensure_socket set made u)
  unfolding ensure_socket
  ensure-IsConfined last made u h c =
      if_rule (IsConfined set last) _ (created-IsConfined set last made u h c) c

  -- the counter of dropped packets does not matter
  same_IsConfined :
      (last : Option Host) (u u' : UdpSender)
      → IsConfined set last u
      → u'.targets ≡ u.targets
      → u'.source ≡ u.source
      → u'.sock ≡ u.sock
      → IsConfined set last u'
  same_IsConfined none u u' (t, s, b) et es ek =
      (et ∙ t, es ∙ s, subst₂ (IsBound set) (sym ek) (sym es) b)
  same_IsConfined (some host) u u' (t, s, p, b) et es ek = (
    subst (AllKept host (plan_at set host)) (sym et) t,
    es ∙ s,
    (λ e. et ∙ p e),
    subst₂ (IsBound set) (sym ek) (sym es) b,
  )

  after_send-IsConfined :
      (last : Option Host) (made : Bool) (t : Tally) (u : UdpSender)
      → has_interface set ≡ true
      → IsConfined set last u
      → IsConfined set last (after_send set made t u).2
  unfolding after_send
  after_send-IsConfined last made t u h c =
      let u' = record u { would_block = u.would_block + t.blocked } in
      let c' = same_IsConfined last u u' c refl refl refl in
      if_rule (IsConfined set last) (not t.ok && not t.busy)
        (created-IsConfined set last made u' h c') c'

  send_to-IsConfined :
      (last : Option Host) (answer : String → Sent) (made : Bool) (ips : List String)
      (u : UdpSender)
      → has_interface set ≡ true
      → IsConfined set last u
      → IsConfined set last (send_to set answer made ips u).2
  unfolding send_to
  send_to-IsConfined last answer made [] u h c = c
  send_to-IsConfined last answer made (ip ∷ ips) u h c =
      if_rule (λ (o : Bool × Tally × UdpSender). IsConfined set last o.2) (is_some u.sock)
        (after_send-IsConfined last made (send_each answer (ip ∷ ips) no_tally) u h c) c

  send-IsConfined :
      (last : Option Host) (answer : String → Sent) (made made_again : Bool) (u : UdpSender)
      → has_interface set ≡ true
      → IsConfined set last u
      → IsConfined set last (send set answer made made_again u).2
  unfolding send
  send-IsConfined last answer made made_again u h c =
      let u' = ensure_socket set made u in
      send_to-IsConfined last answer made_again u'.targets u' h (ensure-IsConfined last made u h c)

  closed-IsConfined :
      (last : Option Host) (u : UdpSender) → IsConfined set last u → IsConfined set last (close u)
  unfolding close
  closed-IsConfined none u (t, s, b) = (t, s, tt)
  closed-IsConfined (some host) u (t, s, p, b) = (t, s, p, tt)

  pub reached-IsConfined :
      {last : Option Host} {u : UdpSender}
      → has_interface set ≡ true
      → Reached last u
      → IsConfined set last u
  reached-IsConfined h (created m fails m' host) = start-IsConfined m fails m' host h
  reached-IsConfined h (refreshed r fails m host) =
      refresh-IsConfined set _ fails m host _ h (reached-IsConfined h r)
  reached-IsConfined h (used {last = last} {u = u} r answer m m') =
      send-IsConfined last answer m m' u h (reached-IsConfined h r)
  reached-IsConfined h (closed {last = last} {u = u} r) =
      closed-IsConfined last u (reached-IsConfined h r)
