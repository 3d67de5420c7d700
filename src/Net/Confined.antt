-- ===== src/Net/Confined.antt =====
-- agent_net.py: with monitor_interface set, packets leave through that interface or not at all.
use mathlib.Core.Path.{subst}
use text.Mathlib.TextEquality.{eq_iff}
use linuxcnc_status_monitor.Common.{
  ◌≡◌, ◌∙◌, sym, ap, refl, String, Bool, true, false, not, ◌||◌, Option, none, some, List, [], ◌∷◌,
  is_some, if◌then◌else◌, arith, if_rule, if_cases,
}
use linuxcnc_status_monitor.Net.Targets.{
  Plan, Host, plan_interface, same_text, is_kept, keep_reached, has_problem, resolve_targets,
}
use linuxcnc_status_monitor.Net.Sender.{
  Settings, Socket, UdpSender, has_interface, is_unusable, create_socket, bind_to, take_plan,
  refresh,
}

abbrev pub AllKept : Host → Plan → List String → Type 0
AllKept host plan [] = Unit {0}
AllKept host plan (ip ∷ ips) = (is_kept host plan ip ≡ true) × AllKept host plan ips

keep_reached-AllKept :
    (host : Host) (plan : Plan) (ips : List String) → AllKept host plan (keep_reached host plan ips)
unfolding keep_reached
keep_reached-AllKept host plan [] = tt
keep_reached-AllKept host plan (ip ∷ ips) =
    if_cases (AllKept host plan) (is_kept host plan ip)
      (λ kept. (kept, keep_reached-AllKept host plan ips))
      (λ other. keep_reached-AllKept host plan ips)

same_text_lem : (a b : Option String) → same_text a b ≡ true → b ≡ a
unfolding same_text
same_text_lem none none e = refl
same_text_lem none (some b) e = cc
same_text_lem (some a) none e = cc
same_text_lem (some a) (some b) e = ap some (sym ((eq_iff a b).0 e))

module _ (set : Settings) where
  -- the plan for the PC as it is
  abbrev pub plan_at : Host → Plan
  plan_at host = plan_interface set.lib set.exclude host set.interface

  new_targets-AllKept :
      (host : Host)
      → AllKept host
          (plan_at host)
          (resolve_targets set.lib set.exclude host set.items (some (plan_at host)))
  unfolding resolve_targets
  new_targets-AllKept host =
      if_rule (AllKept host (plan_at host)) (has_problem (plan_at host)) tt
        (keep_reached-AllKept host (plan_at host) _)

  new_targets-problem :
      (host : Host)
      → has_problem (plan_at host) ≡ true
      → resolve_targets set.lib set.exclude host set.items (some (plan_at host)) ≡ []
  unfolding resolve_targets
  new_targets-problem host e = rw e refl

  -- a socket is bound to the sender's address
  abbrev pub IsBound : Option Socket → Option String → Type 0
  IsBound none source = Unit {0}
  IsBound (some k) source = (k.bound ≡ source) × (is_some source ≡ true)

  -- since the last look at the PC: its plan, its address, and targets that the plan allows
  abbrev pub IsConfined : Option Host → UdpSender → Type 0
  IsConfined none u = (u.targets ≡ []) × (u.source ≡ none) × IsBound u.sock u.source
  IsConfined (some host) u =
      AllKept host (plan_at host) u.targets
      × (u.source ≡ (plan_at host).address)
      × (has_problem (plan_at host) ≡ true → u.targets ≡ [])
      × IsBound u.sock u.source

  create_socket-IsBound :
      (made : Bool) (u : UdpSender)
      → has_interface set ≡ true
      → IsBound (create_socket set made u).sock (create_socket set made u).source
  unfolding create_socket is_unusable
  create_socket-IsBound made u h =
      if_cases (λ (x : UdpSender). IsBound x.sock x.source) (is_unusable set u || not made)
        (λ no_socket. tt) (λ bound. (refl, ground arith))

  create_socket_keeps :
      (made : Bool) (u : UdpSender)
      → ((create_socket set made u).source ≡ u.source)
        × ((create_socket set made u).targets ≡ u.targets)
  unfolding create_socket
  create_socket_keeps made u = ground arith

  pub created-IsConfined :
      (last : Option Host) (made : Bool) (u : UdpSender)
      → has_interface set ≡ true
      → IsConfined last u
      → IsConfined last (create_socket set made u)
  created-IsConfined none made u h (t, s, b) =
      let keeps = create_socket_keeps made u in
      (keeps.1 ∙ t, keeps.0 ∙ s, create_socket-IsBound made u h)
  created-IsConfined (some host) made u h (t, s, p, b) =
      let keeps = create_socket_keeps made u in
      (
        subst (AllKept host (plan_at host)) (sym keeps.1) t,
        keeps.0 ∙ s,
        (λ e. keeps.1 ∙ p e),
        create_socket-IsBound made u h,
      )

  bind_to-IsBound :
      (made : Bool) (address : Option String) (u : UdpSender)
      → has_interface set ≡ true
      → IsBound u.sock u.source
      → ((bind_to set made address u).source ≡ address)
        × IsBound (bind_to set made address u).sock (bind_to set made address u).source
  unfolding bind_to
  bind_to-IsBound made address u h b =
      if_cases (λ (x : UdpSender). (x.source ≡ address) × IsBound x.sock x.source)
        (same_text address u.source) (λ same. (same_text_lem address u.source same, b))
        (λ new.
          let u' = record u { source = address } in
          ((create_socket_keeps made u').0, create_socket-IsBound made u' h))

  IsBound-now : (last : Option Host) (u : UdpSender) → IsConfined last u → IsBound u.sock u.source
  IsBound-now none u c = c.2
  IsBound-now (some host) u c = c.3

  refresh_planned :
      (host : Host) (made : Bool) (u : UdpSender)
      → has_interface set ≡ true
      → refresh set false host made u
        ≡ take_plan set made
            (plan_at host)
            (resolve_targets set.lib set.exclude host set.items (some (plan_at host)))
            u
  unfolding refresh
  refresh_planned host made u h = rw h refl

  pub refresh-IsConfined :
      (last : Option Host) (fails made : Bool) (host : Host) (u : UdpSender)
      → has_interface set ≡ true
      → IsConfined last u
      → IsConfined (if fails then last else some host) (refresh set fails host made u)
  unfolding take_plan
  refresh-IsConfined last true made host u h c = unfold refresh in c
  refresh-IsConfined last false made host u h c =
      let u' = record u { plan = some (plan_at host) } in
      let bound = bind_to-IsBound made (plan_at host).address u' h (IsBound-now last u c) in
      subst (IsConfined (some host)) (sym (refresh_planned host made u h))
        (new_targets-AllKept host, bound.0, new_targets-problem host, bound.1)
