-- ===== src/Net/Tests.antt =====
-- agent_net.py: the theorems at a PC with two interfaces, one of them with a Mesa board on it.
use text.Mathlib.Text.{◌==◌ as str_eq}
use linuxcnc_status_monitor.Common.{
  ◌≡◌, refl, String, true, false, none, some, List, [], ◌∷◌, if◌then◌else◌,
}
use linuxcnc_status_monitor.Net.Interfaces.{
  Interface, Library, mesa_interfaces, discover_broadcast_targets,
}
use linuxcnc_status_monitor.Net.Targets.{Host, has_problem}
use linuxcnc_status_monitor.Net.Sender.{
  Settings, Socket, UdpSender, Sent, accepted, would_block, has_interface, new_sender,
  ensure_socket, send,
}
use linuxcnc_status_monitor.Net.Listed.{AllMayReach, discover-AllMayReach}
use linuxcnc_status_monitor.Net.Confined.{AllKept, plan_at}
use linuxcnc_status_monitor.Net.Histories.{created}
use linuxcnc_status_monitor.Net.Allowed.{send-AllKept}

abbrev library : Library
library = record {
  ipv4 = λ s. if str_eq s "office" then none else some s;
  network_broadcast = λ s n. some "10.0.0.255";
  lower = λ s. s;
  is_mesa = λ s. str_eq s "mesa";
}

abbrev interface_of : String → String → Interface
interface_of name address = record {
  ifname = name;
  flags = "BROADCAST" ∷ "UP" ∷ [];
  addr_info =
      record { inet = true; prefixlen = some 24; local = some address; broadcast = none } ∷ [];
}

abbrev both : List Interface
both = interface_of "lan0" "10.0.0.7" ∷ interface_of "eth1" "10.10.10.1" ∷ []

-- the board is a neighbour of eth1
abbrev arp : List (List String)
arp = ("titles" ∷ []) ∷ ("10.10.10.10" ∷ "0x1" ∷ "0x6" ∷ "mesa" ∷ "*" ∷ "eth1" ∷ []) ∷ []

abbrev host : Host
host = record {
  arp = arp;
  up = some both;
  named = λ name. some both;
  routes = λ dest source. some (some "lan0" ∷ []);
  lookup = λ name. none;
}

abbrev settings : Settings
settings = record {
  lib = library;
  interface = "lan0";
  exclude = [];
  items = "auto" ∷ "10.0.0.9" ∷ [];
}

abbrev answer : String → Sent
answer ip = if str_eq ip "10.0.0.9" then would_block else accepted

abbrev sender : UdpSender
sender = new_sender settings true false host true

board_found : mesa_interfaces library arp ≡ "eth1" ∷ []
unfolding mesa_interfaces
board_found = refl

discover-AllMayReach_example :
    AllMayReach library [] arp both (discover_broadcast_targets library [] arp (some both))
discover-AllMayReach_example = discover-AllMayReach library [] arp both

both_sent : (send settings answer true true sender).0 ≡ true
unfolding send new_sender
both_sent = refl

send-AllKept_example :
    AllKept host (plan_at settings host) (send settings answer true true sender).1.tried
    × ((k : Socket)
        → (ensure_socket settings true sender).sock ≡ some k
        → k.bound ≡ (plan_at settings host).address)
    × (has_problem (plan_at settings host) ≡ true
        → ((send settings answer true true sender).0 ≡ false)
          × ((send settings answer true true sender).1.tried ≡ []))
unfolding has_interface
send-AllKept_example =
    send-AllKept settings host sender answer true true refl (created true false true host)
