-- ===== src/Net/Listed.antt =====
-- agent_net.py: the broadcast targets are those of the interfaces that may be used.
use mathlib.Core.Path.{subst}
use linuxcnc_status_monitor.Common.{
  ◌≡◌, ◌⊎◌, inl, inr, refl, String, true, false, ◌||◌, some, List, [], ◌∷◌, ◌++◌, if◌then◌else◌,
  arith, if_rule,
}
use linuxcnc_status_monitor.Net.Interfaces.{
  Interface, Source, Library, member, is_usable, broadcast_sources, unseen_sources, broadcasts,
  mesa_interfaces, broadcast_addresses, limited_broadcast, or_limited, discover_broadcast_targets,
}
use linuxcnc_status_monitor.Net.Sources.{IsOf, AllOf, broadcast_sources-AllOf}

unseen_sources-AllOf :
    (lib : Library) (skip : List String) (interfaces : List Interface) (sources : List Source)
    (seen : List String)
    → AllOf lib skip interfaces sources
    → AllOf lib skip interfaces (unseen_sources seen sources)
unfolding unseen_sources
unseen_sources-AllOf lib skip interfaces [] seen a = tt
unseen_sources-AllOf lib skip interfaces (s ∷ sources) seen a =
    let known = member s.broadcast seen in
    let rest =
      unseen_sources-AllOf lib skip interfaces sources (if known then seen else s.broadcast ∷ seen)
        a.1 in
    if_rule (AllOf lib skip interfaces) (member s.broadcast seen) rest (a.0, rest)

usable_lem :
    (skip : List String) (i : Interface) → is_usable skip i ≡ true → member i.ifname skip ≡ false
unfolding is_usable
usable_lem skip i u = ground arith

IsOf-usable :
    (lib : Library) (skip : List String) (interfaces : List Interface) (s : Source)
    → IsOf lib skip interfaces s
    → member s.name skip ≡ false
IsOf-usable lib skip [] s o = absurd o
IsOf-usable lib skip (i ∷ interfaces) s (inl (e, u, k)) =
    subst (λ n. member n skip ≡ false) e (usable_lem skip i u)
IsOf-usable lib skip (i ∷ interfaces) s (inr o) = IsOf-usable lib skip interfaces s o

member-append :
    (x : String) (xs ys : List String) → member x (xs ++ ys) ≡ member x xs || member x ys
unfolding member
member-append x [] ys = refl
member-append x (y ∷ xs) ys = ground (arith, member-append x xs ys)

-- a broadcast target is the limited broadcast, or the address of an interface that is listed as up,
-- may be used, is not excluded and has no Mesa board on it
abbrev pub MayReach : Library → List String → List (List String) → List Interface → String → Type 0
MayReach lib exclude arp interfaces t =
    (t ≡ limited_broadcast)
    ⊎ (s : Source) × (t ≡ s.broadcast)
      × IsOf lib (exclude ++ mesa_interfaces lib arp) interfaces s
      × (member s.name exclude ≡ false)
      × (member s.name (mesa_interfaces lib arp) ≡ false)

abbrev pub AllMayReach :
    Library → List String → List (List String) → List Interface → List String → Type 0
AllMayReach lib exclude arp interfaces [] = Unit {0}
AllMayReach lib exclude arp interfaces (t ∷ ts) =
    MayReach lib exclude arp interfaces t × AllMayReach lib exclude arp interfaces ts

broadcasts-AllMayReach :
    (lib : Library) (exclude : List String) (arp : List (List String)) (interfaces : List Interface)
    (sources : List Source)
    → AllOf lib (exclude ++ mesa_interfaces lib arp) interfaces sources
    → AllMayReach lib exclude arp interfaces (broadcasts sources)
broadcasts-AllMayReach lib exclude arp interfaces [] a = tt
broadcasts-AllMayReach lib exclude arp interfaces (s ∷ sources) a =
    let skip = exclude ++ mesa_interfaces lib arp in
    let free = IsOf-usable lib skip interfaces s a.0 in
    let both = member-append s.name exclude (mesa_interfaces lib arp) in
    (
      inr (s, refl, a.0, ground arith, ground arith),
      broadcasts-AllMayReach lib exclude arp interfaces sources a.1,
    )

or_limited-AllMayReach :
    (lib : Library) (exclude : List String) (arp : List (List String)) (interfaces : List Interface)
    (ts : List String)
    → AllMayReach lib exclude arp interfaces ts
    → AllMayReach lib exclude arp interfaces (or_limited ts)
unfolding or_limited
or_limited-AllMayReach lib exclude arp interfaces [] a = (inl refl, tt)
or_limited-AllMayReach lib exclude arp interfaces (t ∷ ts) a = a

-- With the interfaces listed, every broadcast target is 255.255.255.255, or it belongs to an IPv4
-- address, with a prefix shorter than 31, of an interface that is up, can broadcast, is not the
-- loopback, is not in exclude_interfaces and has no Mesa board on it: it is the broadcast address
-- listed with that address, or, where none is listed, the one of its network.
pub discover-AllMayReach :
    (lib : Library) (exclude : List String) (arp : List (List String)) (interfaces : List Interface)
    → AllMayReach lib exclude arp interfaces
        (discover_broadcast_targets lib exclude arp (some interfaces))
unfolding discover_broadcast_targets broadcast_addresses
discover-AllMayReach lib exclude arp interfaces =
    let skip = exclude ++ mesa_interfaces lib arp in
    or_limited-AllMayReach lib exclude arp interfaces _ (
      broadcasts-AllMayReach lib exclude arp interfaces _ (
        unseen_sources-AllOf lib skip interfaces (broadcast_sources lib skip interfaces) []
          (broadcast_sources-AllOf lib skip interfaces)))
