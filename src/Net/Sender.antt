-- ===== src/Net/Sender.antt =====
-- agent_net.py: `UdpSender`. The settings are fixed; what the PC answers is given to each call.
use text.Mathlib.Text.{◌==◌ as str_eq}
use linuxcnc_status_monitor.Common.{
  ℕ, suc, ◌+◌, String, Bool, true, false, not, ◌&&◌, ◌||◌, Option, none, some, List, [], ◌∷◌,
  is_some, if◌then◌else◌,
}
use linuxcnc_status_monitor.Net.Interfaces.{Library}
use linuxcnc_status_monitor.Net.Targets.{Plan, Host, same_text, plan_interface, resolve_targets}

-- what the module's libraries do with text, and the parts of the three settings: the stripped name in
-- monitor_interface, the list of exclude_interfaces, the stripped parts of monitor_pc_ip
pub record Settings : Type 0 where
  pub lib : Library
  pub interface : String
  pub exclude : List String
  pub items : List String

-- a socket is known by the address that it is bound to, if it is bound
pub record Socket : Type 0 where
  pub bound : Option String

pub record UdpSender : Type 0 where
  pub plan : Option Plan
  pub source : Option String
  pub targets : List String
  pub sock : Option Socket
  pub would_block : ℕ

-- what `sendto` does with a packet
pub data Sent : Type 0 where
  accepted would_block failed : Sent

-- what `send` has done: the addresses that it called `sendto` for, and whether one took the packet and
-- whether one had no room
pub record Tally : Type 0 where
  pub tried : List String
  pub ok : Bool
  pub busy : Bool
  pub blocked : ℕ

unfoldable pub blank_sender : UdpSender
blank_sender = record { plan = none; source = none; targets = []; sock = none; would_block = 0 }

unfoldable pub count_sent : String → Sent → Tally → Tally
count_sent ip accepted t = record t { tried = ip ∷ t.tried; ok = true }
count_sent ip would_block t = record t {
  tried = ip ∷ t.tried;
  busy = true;
  blocked = suc t.blocked;
}
count_sent ip failed t = record t { tried = ip ∷ t.tried }

-- the loop of `send`, what it tried in reverse order
unfoldable pub send_each : (String → Sent) → List String → Tally → Tally
unfolding count_sent
send_each answer [] t = t
send_each answer (ip ∷ ips) t = send_each answer ips (count_sent ip (answer ip) t)

unfoldable pub no_tally : Tally
no_tally = record { tried = []; ok = false; busy = false; blocked = 0 }

module _ (set : Settings) where
  unfoldable pub has_interface : Bool
  has_interface = not (str_eq set.interface "")

  -- monitor_interface is set, and there is no address to bind to
  unfoldable pub is_unusable : UdpSender → Bool
  unfolding has_interface
  is_unusable u = has_interface && not (is_some u.source)

  -- `_create_socket`; `made` is whether the system gives the socket, bound and set up
  unfoldable pub create_socket : Bool → UdpSender → UdpSender
  unfolding is_unusable
  create_socket made u =
      if is_unusable u || not made
      then record u { sock = none }
      else record u { sock = some (record { bound = u.source }) }

  -- the new plan's address, with a new socket if it is another one
  unfoldable pub bind_to : Bool → Option String → UdpSender → UdpSender
  unfolding same_text create_socket
  bind_to made address u =
      if same_text address u.source then u else create_socket made (record u { source = address })

  unfoldable pub take_plan : Bool → Plan → List String → UdpSender → UdpSender
  unfolding bind_to
  take_plan made plan new u = record (bind_to made plan.address (record u { plan = some plan })) {
    targets = new;
  }

  -- without monitor_interface an empty list changes nothing
  unfoldable pub keep_or_take : List String → UdpSender → UdpSender
  keep_or_take [] u = u
  keep_or_take (t ∷ ts) u = record u { targets = t ∷ ts }

  -- `refresh`; `fails` is whether looking up plan and targets raises
  unfoldable pub refresh : Bool → Host → Bool → UdpSender → UdpSender
  unfolding has_interface plan_interface resolve_targets take_plan keep_or_take
  refresh fails host made u =
      if fails
      then u
      else if has_interface
      then (let plan = plan_interface set.lib set.exclude host set.interface in
          take_plan made plan (resolve_targets set.lib set.exclude host set.items (some plan)) u)
      else keep_or_take (resolve_targets set.lib set.exclude host set.items none) u

  -- `__init__`
  unfoldable pub new_sender : Bool → Bool → Host → Bool → UdpSender
  unfolding create_socket refresh blank_sender
  new_sender made fails host made_again =
      refresh fails host made_again (create_socket made blank_sender)

  -- a socket, if there is none and one may be made
  unfoldable pub ensure_socket : Bool → UdpSender → UdpSender
  unfolding create_socket is_unusable
  ensure_socket made u =
      if not (is_some u.sock) && not (is_unusable u) then create_socket made u else u

  -- a new socket where no target took the packet and none was busy
  unfoldable pub after_send : Bool → Tally → UdpSender → Bool × Tally × UdpSender
  unfolding create_socket
  after_send made t u =
      let u' = record u { would_block = u.would_block + t.blocked } in
      (t.ok, t, if not t.ok && not t.busy then create_socket made u' else u')

  unfoldable pub send_to :
      (String → Sent) → Bool → List String → UdpSender → Bool × Tally × UdpSender
  unfolding no_tally send_each after_send
  send_to answer made [] u = (false, no_tally, u)
  send_to answer made (ip ∷ ips) u =
      if is_some u.sock
      then after_send made (send_each answer (ip ∷ ips) no_tally) u
      else (false, no_tally, u)

  -- `send`; the packet, signed by agent_auth.py, is the same for every target
  unfoldable pub send : (String → Sent) → Bool → Bool → UdpSender → Bool × Tally × UdpSender
  unfolding ensure_socket send_to
  send answer made made_again u =
      let u' = ensure_socket made u in send_to answer made_again u'.targets u'

-- `close`
unfoldable pub close : UdpSender → UdpSender
close u = record u { sock = none }
