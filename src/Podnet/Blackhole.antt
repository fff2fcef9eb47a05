-- ===== src/Podnet/Blackhole.antt =====
-- BlackholeRoutes (pkg/podnet/blackhole.go): the host route that keeps a departed pod's address on
-- lo0. The kernel is a parameter: ifconfig on lo0, a write to the routing socket and the exchange of
-- an RTM_GET for its reply. A request's sequence number, which only pairs a reply with its request,
-- is left out, and the flag bits are a record of Booleans.
pub mod Macos
pub mod Requests
use darwin_net.Prelude.{
  ℕ, zero, suc, ◌+◌, ◌%◌, Bool, true, false, not, ◌&&◌, ◌||◌, if◌then◌else◌, Option, none, some,
  Result, ok, err, ◌==◌, nat_eq, ltb, leb, nat_beq, List, [], ◌∷◌,
}
use darwin_net.Netip.{
  Addr, v4, Prefix, is4, unmap, value, prefix_valid, bits, masked, contains, addr_eq,
}
use darwin_net.Podnet.Cidr.{node_cidr_bits}

unfoldable pub is_pod_address : Prefix → Addr → Bool
is_pod_address c a =
    if not (prefix_valid c) || not (is4 c.addr) || not (nat_beq (bits c) node_cidr_bits)
    then false
    else if not (is4 (unmap a)) || not (contains (masked c) (unmap a))
    then false
    else leb 2 (value (unmap a) % 256) && leb (value (unmap a) % 256) 254

pub data Errno : Type 0 where
  eexist esrch : Errno
  other : ℕ → Errno

pub data RequestType : Type 0 where
  rtm_add rtm_delete rtm_get : RequestType

pub record Flags : Type 0 where
  pub up : Bool
  pub static_route : Bool
  pub host : Bool
  pub gateway : Bool
  pub blackhole : Bool
  pub was_cloned : Bool

pub record RouteMessage : Type 0 where
  pub typ : RequestType
  pub flags : Flags
  pub dst : Addr
  pub via : Option Addr

-- What the source reads of a reply: its error, its flags, and its destination if that is an IPv4
-- address.
pub record Reply : Type 0 where
  pub failure : Option Errno
  pub flags : Flags
  pub dst : Option Addr

pub data IfconfigVerb : Type 0 where
  plumb unplumb : IfconfigVerb

pub record Kernel : Type 1 where
  pub K : Type 0
  pub ifconfig : K → IfconfigVerb → Addr → K × Bool
  pub write : K → RouteMessage → K × Option Errno
  pub exchange : K → RouteMessage → Result Errno Reply

pub data BlackholeError : Type 0 where
  not_ipv4 another_route : BlackholeError
  refused unreadable undeletable : Errno → BlackholeError

abbrev pub blackhole_flags : Flags
blackhole_flags = record {
  up = true;
  static_route = true;
  host = true;
  gateway = true;
  blackhole = true;
  was_cloned = false;
}

abbrev pub request_flags : Flags
request_flags = record {
  up = true;
  static_route = false;
  host = true;
  gateway = false;
  blackhole = false;
  was_cloned = false;
}

-- 127.0.0.1
abbrev pub loopback_gateway : Addr
loopback_gateway = v4 2130706433

abbrev pub blackhole_message : RequestType → Addr → RouteMessage
blackhole_message rtm_add ip = record {
  typ = rtm_add;
  flags = blackhole_flags;
  dst = ip;
  via = some loopback_gateway;
}
blackhole_message t ip = record { typ = t; flags = request_flags; dst = ip; via = none }

abbrev pub host_route_flags : Reply → Addr → Result Errno (Option Flags)
host_route_flags r ip = elim r.failure [
  | some esrch ↦ ok none
  | some e ↦ err e
  | none ↦ if not r.flags.host then ok none else elim r.dst [
    | none ↦ ok none
    | some dst ↦ if not (dst == ip) then ok none else ok (some r.flags)
  ]
]

module _ (kern : Kernel) where
  open kern use {K, write, exchange}

  unfoldable pub delete_host_route : K → Addr → K × Option Errno
  delete_host_route k ip =
      let (k', e) = write k (blackhole_message rtm_delete ip) in
      (k', elim e [ some esrch ↦ none | e' ↦ e' ])

  unfoldable pub lookup_host_route : K → Addr → Result Errno (Option Flags)
  lookup_host_route k ip = elim (exchange k (blackhole_message rtm_get ip)) [
    | err esrch ↦ ok none
    | err e ↦ err e
    | ok r ↦ host_route_flags r ip
  ]

  -- The loop of Install on fuel, from an attempt on; none when the fuel runs out.
  unfoldable pub install_loop : ℕ → ℕ → K → Addr → K × Option (Result BlackholeError (Unit {0}))
  install_loop zero attempt k ip = (k, none)
  install_loop (suc fuel) attempt k ip =
      let (k1, added) = write k (blackhole_message rtm_add ip) in
      let (k2, deleted) = delete_host_route k1 ip in
      elim added [
        | none ↦ (k1, some (ok tt))
        | some eexist ↦ elim (lookup_host_route k1 ip) [
          | err e ↦ (k1, some (err (unreadable e)))
          | ok none ↦ (k1, some (err another_route))
          | ok (some f) ↦ elim f.blackhole [
            | true ↦ (k1, some (ok tt))
            | false ↦ elim (f.was_cloned && nat_beq attempt 0) [
              | false ↦ (k1, some (err another_route))
              | true ↦ elim deleted [
                | some e ↦ (k2, some (err (undeletable e)))
                | none ↦ install_loop fuel (attempt + 1) k2 ip
              ]
            ]
          ]
        ]
        | some e ↦ (k1, some (err (refused e)))
      ]

  -- Install: two rounds of the loop are enough
  unfoldable pub install : K → Addr → K × Option (Result BlackholeError (Unit {0}))
  install k ip =
      if not (is4 (unmap ip)) then (k, some (err not_ipv4)) else install_loop 2 0 k (unmap ip)

  unfoldable pub clear : K → Addr → K × Result BlackholeError (Unit {0})
  clear k ip =
      let (k', deleted) = delete_host_route k (unmap ip) in
      if not (is4 (unmap ip)) then (k, err not_ipv4) else elim (lookup_host_route k (unmap ip)) [
        | err e ↦ (k, err (unreadable e))
        | ok none ↦ (k, ok tt)
        | ok (some f) ↦ elim f.blackhole [
          | false ↦ (k, ok tt)
          | true ↦ elim deleted [ none ↦ (k', ok tt) | some e ↦ (k', err (undeletable e)) ]
        ]
      ]

-- A row of a routing table dump, as far as blackholesIn reads it: none for a message of another kind
pub record DumpRow : Type 0 where
  pub flags : Flags
  pub dst : Option Addr

unfoldable pub blackholes_in : List (Option DumpRow) → Prefix → List Addr
blackholes_in [] c = []
blackholes_in (none ∷ rows) c = blackholes_in rows c
blackholes_in (some r ∷ rows) c =
    let rest = blackholes_in rows c in
    if not r.flags.host || not r.flags.blackhole
    then rest
    else elim r.dst [ none ↦ rest | some ip ↦ if is_pod_address c ip then ip ∷ rest else rest ]
