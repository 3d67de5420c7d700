-- ===== src/Net/Interfaces.antt =====
-- agent_net.py: the interfaces of the PC, as `ip -j addr` and the ARP table list them.
use text.Mathlib.Text.{◌==◌ as str_eq}
use linuxcnc_status_monitor.Common.{
  ℕ, zero, suc, String, Bool, false, not, ◌||◌, Option, none, some, List, [], ◌∷◌, ◌++◌, leb,
  if◌then◌else◌,
}

-- an entry of `addr_info`: the family is inet, `int` of the prefix length (32 if there is none; none if
-- it raises), and the addresses, none where there is none or an empty one
pub record Address : Type 0 where
  pub inet : Bool
  pub prefixlen : Option ℕ
  pub local : Option String
  pub broadcast : Option String

pub record Interface : Type 0 where
  pub ifname : String
  pub flags : List String
  pub addr_info : List Address

-- interface, own address, broadcast address
pub record Source : Type 0 where
  pub name : String
  pub local : String
  pub broadcast : String

-- Python's libraries: `str(ipaddress.IPv4Address(text))`, none for what is no address; the broadcast
-- address of `ipaddress.IPv4Network`, none if it raises; `str.lower`, and whether a MAC address in
-- lower case starts with Mesa's prefix
pub record Library : Type 0 where
  pub ipv4 : String → Option String
  pub network_broadcast : String → ℕ → Option String
  pub lower : String → String
  pub is_mesa : String → Bool

-- `x in xs`
unfoldable pub member : String → List String → Bool
member x [] = false
member x (y ∷ ys) = str_eq x y || member x ys

-- `parts[n]`, and nothing if the line is too short
unfoldable pub field_at : ℕ → List String → Option String
field_at n [] = none
field_at zero (x ∷ xs) = some x
field_at (suc n) (x ∷ xs) = field_at n xs

-- the interface of one line of /proc/net/arp, if a Mesa board is its neighbour
unfoldable pub mesa_of : Library → List String → Option String
unfolding field_at
mesa_of lib parts = elim (field_at 3 parts) [
  | none ↦ none
  | some mac ↦ if lib.is_mesa (lib.lower mac) then field_at 5 parts else none
]

-- `mesa_interfaces`, after the line of titles; every line is given by its words
unfoldable pub mesa_lines : Library → List (List String) → List String
unfolding mesa_of
mesa_lines lib [] = []
mesa_lines lib (parts ∷ lines) =
    let rest = mesa_lines lib lines in
    elim (mesa_of lib parts) [ none ↦ rest | some name ↦ name ∷ rest ]

unfoldable pub mesa_interfaces : Library → List (List String) → List String
unfolding mesa_lines
mesa_interfaces lib [] = []
mesa_interfaces lib (titles ∷ lines) = mesa_lines lib lines

-- up, able to broadcast, not the loopback, and not to be skipped
unfoldable pub is_usable : List String → Interface → Bool
unfolding member
is_usable skip i = not (
    str_eq i.ifname ""
    || str_eq i.ifname "lo"
    || member i.ifname skip
    || member "LOOPBACK" i.flags
    || not (member "BROADCAST" i.flags)
    || not (member "UP" i.flags))

-- `a.get("broadcast") or ...`
unfoldable pub broadcast_of : Library → Address → String → ℕ → Option String
broadcast_of lib a local prefix = elim a.broadcast [
  | some b ↦ some b
  | none ↦ lib.network_broadcast local prefix
]

unfoldable pub source_at : Library → String → Address → ℕ → Option Source
unfolding broadcast_of
source_at lib name a prefix = elim a.local [
  | none ↦ none
  | some text_of ↦ elim (lib.ipv4 text_of) [
    | none ↦ none
    | some local ↦ elim (broadcast_of lib a local prefix) [
      | none ↦ none
      | some b ↦ some (record { name = name; local = local; broadcast = b })
    ]
  ]
]

-- one address of a usable interface
unfoldable pub source_of : Library → String → Address → Option Source
unfolding source_at
source_of lib name a = if not a.inet then none else elim a.prefixlen [
  | none ↦ none
  | some prefix ↦ if leb 31 prefix then none else source_at lib name a prefix
]

unfoldable pub sources_of : Library → String → List Address → List Source
unfolding source_of
sources_of lib name [] = []
sources_of lib name (a ∷ addresses) =
    let rest = sources_of lib name addresses in
    elim (source_of lib name a) [ none ↦ rest | some s ↦ s ∷ rest ]

unfoldable pub broadcast_sources : Library → List String → List Interface → List Source
unfolding is_usable sources_of
broadcast_sources lib skip [] = []
broadcast_sources lib skip (i ∷ interfaces) =
    let rest = broadcast_sources lib skip interfaces in
    if is_usable skip i then sources_of lib i.ifname i.addr_info ++ rest else rest

-- the loop of `broadcast_addresses`, with the addresses seen so far
unfoldable pub unseen_sources : List String → List Source → List Source
unfolding member
unseen_sources seen [] = []
unseen_sources seen (s ∷ sources) =
    let known = member s.broadcast seen in
    let rest = unseen_sources (if known then seen else s.broadcast ∷ seen) sources in
    if known then rest else s ∷ rest

abbrev pub broadcasts : List Source → List String
broadcasts [] = []
broadcasts (s ∷ sources) = s.broadcast ∷ broadcasts sources

-- `broadcast_addresses`, the addresses without the names
unfoldable pub broadcast_addresses : Library → List String → List Interface → List String
unfolding unseen_sources broadcast_sources
broadcast_addresses lib skip interfaces =
    broadcasts (unseen_sources [] (broadcast_sources lib skip interfaces))

-- `list_broadcast_sources`, for the ARP table and the interfaces, if they can be listed
unfoldable pub list_broadcast_sources :
    Library → List String → List (List String) → Option (List Interface) → List Source
unfolding mesa_interfaces broadcast_sources
list_broadcast_sources lib exclude arp none = []
list_broadcast_sources lib exclude arp (some interfaces) =
    broadcast_sources lib (exclude ++ mesa_interfaces lib arp) interfaces

abbrev pub limited_broadcast : String
limited_broadcast = "255.255.255.255"

unfoldable pub or_limited : List String → List String
or_limited [] = limited_broadcast ∷ []
or_limited (t ∷ ts) = t ∷ ts

unfoldable pub discover_broadcast_targets :
    Library → List String → List (List String) → Option (List Interface) → List String
unfolding mesa_interfaces broadcast_addresses or_limited
discover_broadcast_targets lib exclude arp none = limited_broadcast ∷ []
discover_broadcast_targets lib exclude arp (some interfaces) =
    or_limited (broadcast_addresses lib (exclude ++ mesa_interfaces lib arp) interfaces)
