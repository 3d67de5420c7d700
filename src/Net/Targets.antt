-- ===== src/Net/Targets.antt =====
-- agent_net.py: what the setting monitor_interface allows, and the targets of the setting monitor_pc_ip.
use text.Mathlib.Text.{◌==◌ as str_eq}
use linuxcnc_status_monitor.Common.{
  ℕ, String, Bool, true, false, not, ◌||◌, Option, none, some, List, [], ◌∷◌, ◌++◌, ltb, is_some,
  if◌then◌else◌,
}
use linuxcnc_status_monitor.Net.Interfaces.{
  Address, Interface, Library, member, mesa_interfaces, broadcast_of, discover_broadcast_targets,
}

-- an interface's own address, and its broadcast address if it has one
pub record OwnAddress : Type 0 where
  pub address : String
  pub broadcast : Option String

-- `InterfacePlan`; the problem is a kind of text, none if the interface is usable
pub data Problem : Type 0 where
  excluded mesa_board not_listed not_up : Problem

pub record Plan : Type 0 where
  pub interface : String
  pub address : Option String
  pub broadcast : Option String
  pub problem : Option Problem

-- The PC as it is when the targets are looked up: the words of the lines of the ARP table, the
-- interfaces that `ip` lists, all that are up or one of them, none if it cannot list them, the
-- devices of the routes to an address from another (none for what is no object or names no device),
-- and the address of a host name
pub record Host : Type 0 where
  pub arp : List (List String)
  pub up : Option (List Interface)
  pub named : String → Option (List Interface)
  pub routes : String → String → Option (List (Option String))
  pub lookup : String → Option String

-- one address for `interface_ipv4`: none if the loop goes on
unfoldable pub broadcast_if : Library → Address → String → ℕ → Option (Option String)
unfolding broadcast_of
broadcast_if lib a local prefix =
    if ltb prefix 31
    then elim (broadcast_of lib a local prefix) [ none ↦ none | some b ↦ some (some b) ]
    else some none

unfoldable pub link_at : Library → Address → String → ℕ → Option OwnAddress
unfolding broadcast_if
link_at lib a local prefix = elim (broadcast_if lib a local prefix) [
  | none ↦ none
  | some b ↦ elim (lib.ipv4 local) [
    | none ↦ none
    | some address ↦ some (record { address = address; broadcast = b })
  ]
]

unfoldable pub link_of : Library → Address → Option OwnAddress
unfolding link_at
link_of lib a = elim a.local [
  | none ↦ none
  | some local ↦
      if not a.inet
      then none
      else elim a.prefixlen [ none ↦ none | some prefix ↦ link_at lib a local prefix ]
]

unfoldable pub first_link : Library → List Address → Option OwnAddress
unfolding link_of
first_link lib [] = none
first_link lib (a ∷ addresses) =
    let rest = first_link lib addresses in elim (link_of lib a) [ some l ↦ some l | none ↦ rest ]

-- `interface_ipv4`
unfoldable pub interface_ipv4 : Library → String → List Interface → Option OwnAddress
unfolding first_link member
interface_ipv4 lib name [] = none
interface_ipv4 lib name (i ∷ interfaces) =
    let rest = interface_ipv4 lib name interfaces in
    if not (str_eq i.ifname name) || not (member "UP" i.flags)
    then rest
    else elim (first_link lib i.addr_info) [ some l ↦ some l | none ↦ rest ]

-- `route_device`
unfoldable pub route_device : Host → String → Option String → Option String
route_device host dest none = none
route_device host dest (some source) = elim (host.routes dest source) [
  | none ↦ none
  | some routes ↦ elim routes [ [] ↦ none | dev ∷ more ↦ dev ]
]

unfoldable pub refused : String → Problem → Plan
refused interface problem = record {
  interface = interface;
  address = none;
  broadcast = none;
  problem = some problem;
}

unfoldable pub plan_of : String → Option OwnAddress → Plan
unfolding refused
plan_of interface none = refused interface not_up
plan_of interface (some l) = record {
  interface = interface;
  address = some l.address;
  broadcast = l.broadcast;
  problem = none;
}

-- `plan_interface`
unfoldable pub plan_interface : Library → List String → Host → String → Plan
unfolding member mesa_interfaces refused plan_of interface_ipv4
plan_interface lib exclude host interface =
    if member interface exclude
    then refused interface excluded
    else if member interface (mesa_interfaces lib host.arp)
    then refused interface mesa_board
    else elim (host.named interface) [
      | none ↦ refused interface not_listed
      | some interfaces ↦ plan_of interface (interface_ipv4 lib interface interfaces)
    ]

unfoldable pub not_empty : List String → List String
not_empty [] = []
not_empty (s ∷ items) = let rest = not_empty items in if str_eq s "" then rest else s ∷ rest

unfoldable pub or_auto : List String → List String
or_auto [] = "auto" ∷ []
or_auto (s ∷ items) = s ∷ items

-- `parse_targets`, of the stripped parts of the setting
unfoldable pub parse_targets : List String → List String
unfolding not_empty or_auto
parse_targets items = or_auto (not_empty items)

unfoldable pub is_auto : String → Bool
is_auto s = str_eq s "" || str_eq s "auto" || str_eq s "broadcast"

unfoldable pub auto_targets : Library → List String → Host → Option Plan → List String
unfolding discover_broadcast_targets
auto_targets lib exclude host none = discover_broadcast_targets lib exclude host.arp host.up
auto_targets lib exclude host (some plan) = elim plan.broadcast [ none ↦ [] | some b ↦ b ∷ [] ]

-- a fixed address, or the address of a host name if it has one
unfoldable pub named_targets : Library → Host → String → List String
named_targets lib host item = elim (lib.ipv4 item) [
  | some ip ↦ ip ∷ []
  | none ↦ elim (host.lookup item) [ none ↦ [] | some ip ↦ ip ∷ [] ]
]

unfoldable pub all_targets : Library → List String → Host → Option Plan → List String → List String
unfolding is_auto auto_targets named_targets
all_targets lib exclude host plan [] = []
all_targets lib exclude host plan (item ∷ items) =
    (if is_auto (lib.lower item)
      then auto_targets lib exclude host plan
      else named_targets lib host item)
    ++ all_targets lib exclude host plan items

-- `list(dict.fromkeys(out))`: the keys in the order in which they were first set
unfoldable pub set_keys : List String → List String → List String
unfolding member
set_keys keys [] = keys
set_keys keys (x ∷ xs) = set_keys (if member x keys then keys else keys ++ x ∷ []) xs

unfoldable pub same_text : Option String → Option String → Bool
same_text none none = true
same_text none (some b) = false
same_text (some a) none = false
same_text (some a) (some b) = str_eq a b

-- the plan's broadcast address, or an address that is reached through the interface
unfoldable pub is_kept : Host → Plan → String → Bool
unfolding same_text route_device
is_kept host plan ip =
    same_text (some ip) plan.broadcast
    || same_text (route_device host ip plan.address) (some plan.interface)

unfoldable pub keep_reached : Host → Plan → List String → List String
unfolding is_kept
keep_reached host plan [] = []
keep_reached host plan (ip ∷ ips) =
    let rest = keep_reached host plan ips in if is_kept host plan ip then ip ∷ rest else rest

unfoldable pub has_problem : Plan → Bool
has_problem plan = is_some plan.problem

-- `resolve_targets`, of the stripped parts of the setting
unfoldable pub resolve_targets :
    Library → List String → Host → List String → Option Plan → List String
unfolding parse_targets all_targets set_keys keep_reached has_problem
resolve_targets lib exclude host items none =
    set_keys [] (all_targets lib exclude host none (parse_targets items))
resolve_targets lib exclude host items (some plan) =
    if has_problem plan
    then []
    else keep_reached host plan
        (set_keys [] (all_targets lib exclude host (some plan) (parse_targets items)))
