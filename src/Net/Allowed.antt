-- ===== src/Net/Allowed.antt =====
-- agent_net.py: to whom `UdpSender.send` sends with monitor_interface set.
use mathlib.Core.Path.{subst}
use linuxcnc_status_monitor.Common.{
  ◌≡◌, ◌∙◌, refl, String, Bool, true, false, some, List, [], ◌∷◌, is_some, if_rule,
}
use linuxcnc_status_monitor.Net.Targets.{Plan, Host, is_kept, has_problem}
use linuxcnc_status_monitor.Net.Sender.{
  Settings, Socket, UdpSender, Sent, accepted, would_block, failed, Tally, count_sent, send_each,
  no_tally, has_interface, ensure_socket, after_send, send_to, send,
}
use linuxcnc_status_monitor.Net.Confined.{AllKept, plan_at, IsBound}
use linuxcnc_status_monitor.Net.Histories.{Reached, ensure-IsConfined, reached-IsConfined}

module _ (set : Settings) where
  count_sent-AllKept :
      (host : Host) (plan : Plan) (ip : String) (a : Sent) (t : Tally)
      → is_kept host plan ip ≡ true
      → AllKept host plan t.tried
      → AllKept host plan (count_sent ip a t).tried
  unfolding count_sent
  count_sent-AllKept host plan ip accepted t k all = (k, all)
  count_sent-AllKept host plan ip would_block t k all = (k, all)
  count_sent-AllKept host plan ip failed t k all = (k, all)

  send_each-AllKept :
      (host : Host) (plan : Plan) (answer : String → Sent) (ips : List String) (t : Tally)
      → AllKept host plan ips
      → AllKept host plan t.tried
      → AllKept host plan (send_each answer ips t).tried
  unfolding send_each
  send_each-AllKept host plan answer [] t k all = all
  send_each-AllKept host plan answer (ip ∷ ips) t k all =
      send_each-AllKept host plan answer ips (count_sent ip (answer ip) t) k.1
        (count_sent-AllKept host plan ip (answer ip) t k.0 all)

  send_to-AllKept :
      (host : Host) (plan : Plan) (answer : String → Sent) (made : Bool) (ips : List String)
      (u : UdpSender)
      → AllKept host plan ips
      → AllKept host plan (send_to set answer made ips u).1.tried
  unfolding send_to after_send no_tally
  send_to-AllKept host plan answer made [] u k = tt
  send_to-AllKept host plan answer made (ip ∷ ips) u k =
      if_rule (λ (o : Bool × Tally × UdpSender). AllKept host plan o.1.tried) (is_some u.sock)
        (send_each-AllKept host plan answer (ip ∷ ips) no_tally k tt) tt

  nothing_sent :
      (answer : String → Sent) (made : Bool) (ips : List String) (u : UdpSender)
      → ips ≡ []
      → ((send_to set answer made ips u).0 ≡ false) × ((send_to set answer made ips u).1.tried ≡ [])
  unfolding send_to no_tally
  nothing_sent answer made [] u e = (refl, refl)
  nothing_sent answer made (ip ∷ ips) u e = cc

  -- With monitor_interface set, whatever was called before, a packet is sent to nothing but the
  -- broadcast address of the interface and addresses that the PC reached through it at the last
  -- look that did not fail, and a socket is bound to the interface's address. If that look found
  -- a problem with the interface, nothing is sent.
  pub send-AllKept :
      (host : Host) (u : UdpSender) (answer : String → Sent) (made made_again : Bool)
      → has_interface set ≡ true
      → Reached set (some host) u
      → AllKept host (plan_at set host) (send set answer made made_again u).1.tried
        × ((k : Socket)
            → (ensure_socket set made u).sock ≡ some k
            → k.bound ≡ (plan_at set host).address)
        × (has_problem (plan_at set host) ≡ true
            → ((send set answer made made_again u).0 ≡ false)
              × ((send set answer made made_again u).1.tried ≡ []))
  unfolding send
  send-AllKept host u answer made made_again h r =
      let u' = ensure_socket set made u in
      let c = ensure-IsConfined set (some host) made u h (reached-IsConfined set h r) in
      (
        send_to-AllKept host (plan_at set host) answer made_again u'.targets u' c.0,
        (λ k e. (subst (λ s. IsBound set s u'.source) e c.3).0 ∙ c.1),
        (λ p. nothing_sent answer made_again u'.targets u' (c.2 p)),
      )
