-- ===== src/Net/Sources.antt =====
-- agent_net.py: every broadcast source is of an address of an interface that may be used.

use linuxcnc_status_monitor.Common.{
  ℕ, ◌<◌, Option-cases, ◌≡◌, ◌⊎◌, inl, inr, refl, String, true, Option, none, some, List, [], ◌∷◌,
  ◌++◌, arith, if_cases,
}
use linuxcnc_status_monitor.Net.Interfaces.{
  Address, Interface, Source, Library, is_usable, source_of, source_at, broadcast_of, sources_of,
  broadcast_sources,
}

-- The address is an IPv4 address with a prefix shorter than 31, its text is one that Python reads as the
-- source's own address, and the source's broadcast address is the one that comes with it, or, without
-- one, that of its network.
abbrev pub IsAddressOf : Library → Address → Source → Type 0
IsAddressOf lib a s =
    (a.inet ≡ true)
    × ((prefix : ℕ) × ((text_of : String) × (a.prefixlen ≡ some prefix)
          × (prefix < 31)
          × (a.local ≡ some text_of)
          × (lib.ipv4 text_of ≡ some s.local)
          × ((a.broadcast ≡ some s.broadcast)
              ⊎ (a.broadcast ≡ none) × (lib.network_broadcast s.local prefix ≡ some s.broadcast))))

-- one of the addresses is the source's
abbrev pub IsAmong : Library → List Address → Source → Type 0
IsAmong lib [] s = ⊥
IsAmong lib (a ∷ addresses) s = IsAddressOf lib a s ⊎ IsAmong lib addresses s

-- every source is of an address of an interface in the list that is usable and not to be skipped
abbrev pub IsOf : Library → List String → List Interface → Source → Type 0
IsOf lib skip [] s = ⊥
IsOf lib skip (i ∷ interfaces) s =
    (i.ifname ≡ s.name) × (is_usable skip i ≡ true) × IsAmong lib i.addr_info s
    ⊎ IsOf lib skip interfaces s

abbrev pub AllOf : Library → List String → List Interface → List Source → Type 0
AllOf lib skip interfaces [] = Unit {0}
AllOf lib skip interfaces (s ∷ sources) =
    IsOf lib skip interfaces s × AllOf lib skip interfaces sources

AllOf-append :
    (lib : Library) (skip : List String) (interfaces : List Interface) (xs ys : List Source)
    → AllOf lib skip interfaces xs
    → AllOf lib skip interfaces ys
    → AllOf lib skip interfaces (xs ++ ys)
AllOf-append lib skip interfaces [] ys a b = b
AllOf-append lib skip interfaces (x ∷ xs) ys a b =
    (a.0, AllOf-append lib skip interfaces xs ys a.1 b)

AllOf-more :
    (lib : Library) (skip : List String) (i : Interface) (interfaces : List Interface)
    (xs : List Source)
    → AllOf lib skip interfaces xs
    → AllOf lib skip (i ∷ interfaces) xs
AllOf-more lib skip i interfaces [] a = tt
AllOf-more lib skip i interfaces (x ∷ xs) a = (inr a.0, AllOf-more lib skip i interfaces xs a.1)

source_of-name :
    (lib : Library) (name : String) (a : Address) {s : Source}
    → source_of lib name a ≡ some s
    → name ≡ s.name
unfolding source_of source_at
source_of-name lib name a e = ground arith

source_of-IsAddressOf :
    (lib : Library) (name : String) (a : Address) {s : Source}
    → source_of lib name a ≡ some s
    → IsAddressOf lib a s
unfolding source_of source_at broadcast_of
source_of-IsAddressOf lib name a {s} e = elim (Option-cases a.prefixlen) [
  | inl none_p ↦ absurd (ground arith)
  | inr (prefix, p) ↦ elim (Option-cases a.local) [
    | inl none_l ↦ absurd (ground arith)
    | inr (text_of, t) ↦ (
      ground arith,
      (prefix, (text_of, p, ground arith, t, ground arith, by_broadcast prefix text_of p t)),
    )
  ]
]
  where
    by_broadcast :
        (prefix : ℕ) (text_of : String)
        → a.prefixlen ≡ some prefix
        → a.local ≡ some text_of
        → (a.broadcast ≡ some s.broadcast)
          ⊎ (a.broadcast ≡ none) × (lib.network_broadcast s.local prefix ≡ some s.broadcast)
    by_broadcast prefix text_of p t = elim (Option-cases a.broadcast) [
      | inl nothing ↦ inr (nothing, ground arith)
      | inr (b, k) ↦ inl (ground arith)
    ]

AllOf-cons :
    (lib : Library) (skip : List String) (interfaces : List Interface) (o : Option Source)
    (rest : List Source)
    → ((s : Source) → o ≡ some s → IsOf lib skip interfaces s)
    → AllOf lib skip interfaces rest
    → AllOf lib skip interfaces (elim o [ none ↦ rest | some s ↦ s ∷ rest ])
AllOf-cons lib skip interfaces none rest h a = a
AllOf-cons lib skip interfaces (some s) rest h a = (h s refl, a)

-- the sources of some of an interface's addresses
sources_of-AllOf :
    (lib : Library) (skip : List String) (i : Interface) (interfaces : List Interface)
    (addresses : List Address)
    → is_usable skip i ≡ true
    → ((s : Source) → IsAmong lib addresses s → IsAmong lib i.addr_info s)
    → AllOf lib skip (i ∷ interfaces) (sources_of lib i.ifname addresses)
unfolding sources_of
sources_of-AllOf lib skip i interfaces [] u among = tt
sources_of-AllOf lib skip i interfaces (a ∷ addresses) u among =
    AllOf-cons lib skip (i ∷ interfaces) (source_of lib i.ifname a)
      (sources_of lib i.ifname addresses)
      (λ s e. inl (
        source_of-name lib i.ifname a e,
        u,
        among s (inl (source_of-IsAddressOf lib i.ifname a e)),
      ))
      (sources_of-AllOf lib skip i interfaces addresses u (λ s k. among s (inr k)))

-- Every broadcast source is of an interface that is up, can broadcast, is not the loopback and is not
-- to be skipped.
pub broadcast_sources-AllOf :
    (lib : Library) (skip : List String) (interfaces : List Interface)
    → AllOf lib skip interfaces (broadcast_sources lib skip interfaces)
unfolding broadcast_sources
broadcast_sources-AllOf lib skip [] = tt
broadcast_sources-AllOf lib skip (i ∷ interfaces) =
    let rest = AllOf-more lib skip i interfaces _ (broadcast_sources-AllOf lib skip interfaces) in
    if_cases (AllOf lib skip (i ∷ interfaces)) (is_usable skip i)
      (λ u.
        AllOf-append lib skip (i ∷ interfaces) _ _
          (sources_of-AllOf lib skip i interfaces i.addr_info u (λ s k. k)) rest)
      (λ other. rest)
