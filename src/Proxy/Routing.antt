-- ===== src/Proxy/Routing.antt =====
-- The data of RoutingTable (routing.go, affinity.go). The snapshot behind the atomic pointer is part
-- of the record: each method is one step here. Times are nanoseconds; `int` counters and the caps are
-- natural numbers, read as the source reads them (`max(1, cap)`).
pub mod Generations
pub mod Install
pub mod Bounded
pub mod BoundedPick
pub mod Installed
pub mod Pick
pub mod Picked
pub mod Sweep
pub mod Sequences
pub mod Sticky
use Prim.Native.String.{String}
use text.Mathlib.TextEquality.{eq_iff}
use darwin_net.Prelude.{
  ℕ, zero, suc, ◌+◌, ◌-◌, ◌*◌, ◌%◌, ◌^◌, ◌≡◌, ◌↔◌, arith, refl, Bool, true, false, not, ◌&&◌, ◌||◌,
  if◌then◌else◌, List, [], ◌∷◌, Option, none, some, Eq, ◌==◌, nat_eq, nat_beq, string_eq, elem,
  length,
}
use darwin_net.Netip.{Addr, Prefix, addr_eq, addr_beq, addr_beq_iff, zero_prefix, zero_addr}

pub record AddrPort : Type 0 where
  pub ip : Addr
  pub port : ℕ

abbrev pub addr_port_beq : AddrPort → AddrPort → Bool
addr_port_beq a b = addr_beq a.ip b.ip && nat_beq a.port b.port

pub addr_port_beq_iff : (a b : AddrPort) → (addr_port_beq a b ≡ true) ↔ (a ≡ b)
addr_port_beq_iff a b = ground (arith, addr_beq_iff a.ip b.ip)

instance abbrev pub addr_port_eq : Eq AddrPort
addr_port_eq = record { beq = addr_port_beq; beq_iff = addr_port_beq_iff }

-- Protocol is a string type of k3sm.io/apis; it is only compared.
pub record PortKey : Type 0 where
  pub cluster_ip : String
  pub port : ℕ
  pub protocol : String

abbrev pub port_key_beq : PortKey → PortKey → Bool
port_key_beq a b = a.cluster_ip == b.cluster_ip && nat_beq a.port b.port && a.protocol == b.protocol

pub port_key_beq_iff : (a b : PortKey) → (port_key_beq a b ≡ true) ↔ (a ≡ b)
port_key_beq_iff a b =
    ground (arith, eq_iff a.cluster_ip b.cluster_ip, eq_iff a.protocol b.protocol)

instance abbrev pub port_key_eq : Eq PortKey
port_key_eq = record { beq = port_key_beq; beq_iff = port_key_beq_iff }

pub data Locality : Type 0 where
  unknown local remote node node_routed : Locality

abbrev pub node_local : Locality → Bool
node_local local = true
node_local node = true
node_local _ = false

pub data TrafficPolicy : Type 0 where
  traffic_cluster traffic_local : TrafficPolicy

abbrev pub is_local_policy : TrafficPolicy → Bool
is_local_policy traffic_local = true
is_local_policy traffic_cluster = false

pub data AffinityMode : Type 0 where
  affinity_none affinity_client_ip : AffinityMode

abbrev pub is_client_ip : AffinityMode → Bool
is_client_ip affinity_client_ip = true
is_client_ip affinity_none = false

pub record AffinityConfig : Type 0 where
  pub mode : AffinityMode
  pub timeout : ℕ

pub record Backend : Type 0 where
  pub addr : AddrPort
  pub locality : Locality

abbrev pub addrs : List Backend → List AddrPort
addrs [] = []
addrs (b ∷ bs) = b.addr ∷ addrs bs

-- allSet and localSet are the addresses of all and locals. `serial` is the pointer's identity: each
-- installed state has its own.
pub record PortState : Type 0 where
  pub serial : ℕ
  pub all : List Backend
  pub locals : List Backend
  pub policy : TrafficPolicy
  pub affinity_mode : AffinityMode
  pub affinity_timeout : ℕ
  pub gen : ℕ
  -- uint64
  pub cursor : ℕ
  pub warned : Bool

pub record KeyMeta : Type 0 where
  pub namespace : String
  pub name : String
  pub gen : ℕ
  pub policy : TrafficPolicy
  pub drop_warned : ℕ
  pub last_drop_warn : ℕ

pub record AffinityBinding : Type 0 where
  pub backend : Backend
  pub last_seen : ℕ

abbrev pub Bindings : Type 0
Bindings = List (Addr × AffinityBinding)

pub record RoutingTable : Type 0 where
  pub pod_cidr : Prefix
  pub node_addr : Addr
  pub cluster_cidr : Prefix
  pub states : List (PortKey × PortState)
  pub meta : List (PortKey × KeyMeta)
  pub affinity : List (PortKey × Bindings)
  pub affinity_count : ℕ
  pub max_affinity_per_port : ℕ
  pub max_affinity_total : ℕ
  pub affinity_warned : Bool
  -- the serial of the next state that is installed
  pub next_serial : ℕ

pub data PickError : Type 0 where
  no_backends no_local_backends : PickError

abbrev pub max_affinity_bindings_per_port : ℕ
max_affinity_bindings_per_port = 8192

abbrev pub max_affinity_bindings_total : ℕ
max_affinity_bindings_total = 8 * max_affinity_bindings_per_port

-- three hours
abbrev pub affinity_default_timeout : ℕ
affinity_default_timeout = 3 * 3600 * 1000000000

unfoldable pub new_routing_table : Prefix → RoutingTable
new_routing_table pod_cidr = record {
  pod_cidr = pod_cidr;
  node_addr = zero_addr;
  cluster_cidr = zero_prefix;
  states = [];
  meta = [];
  affinity = [];
  affinity_count = 0;
  max_affinity_per_port = max_affinity_bindings_per_port;
  max_affinity_total = max_affinity_bindings_total;
  affinity_warned = false;
  next_serial = 0;
}
