-- ===== src/Proxy/Routing/Install.antt =====
-- The writers of RoutingTable (routing.go): installEndpoints, Delete and the functions that they call.
-- netv1.Endpoint.Validate and netip.ParseAddr are parameters.
use Prim.Native.String.{String}
use darwin_net.Prelude.{
  ℕ, ◌+◌, ◌-◌, ◌%◌, ◌^◌, Bool, true, false, not, ◌&&◌, ◌||◌, if◌then◌else◌, List, [], ◌∷◌, Option,
  none, some, ◌==◌, ltb, nat_beq, string_eq, elem, length, filter_by, is_nil,
}
use darwin_net.Prelude.Maps.{lookup, insert, delete}
use darwin_net.Netip.{Addr, addr_eq, less, unmap, is_valid, is_loopback, prefix_valid, contains}
use darwin_net.Proxy.Routing.{
  AddrPort, addr_port_eq, PortKey, port_key_eq, Locality, unknown, local, remote, node, node_routed,
  node_local, TrafficPolicy, is_local_policy, AffinityConfig, is_client_ip, Backend, addrs,
  PortState, KeyMeta, Bindings, RoutingTable, affinity_default_timeout,
}

pub record Endpoint : Type 0 where
  pub ip : String
  pub port : ℕ
  pub ready : Bool

pub record ServiceRef : Type 0 where
  pub namespace : String
  pub name : String

-- The calls into k3sm.io/apis and net/netip.
pub record EndpointRules : Type 0 where
  pub validate : Endpoint → Bool
  pub parse_addr : String → Option Addr

unfoldable pub admit_endpoint : EndpointRules → Endpoint → Option AddrPort
admit_endpoint rules ep =
    if not ep.ready
    then none
    else if not (rules.validate ep)
    then none
    else elim (rules.parse_addr ep.ip) [
      | none ↦ none
      | some a ↦ some (record { ip = a; port = ep.port % 2 ^ 16 })
    ]

unfoldable pub classify : RoutingTable → Addr → Locality
classify t addr =
    let a = unmap addr in
    if not (prefix_valid t.pod_cidr)
    then unknown
    else if contains t.pod_cidr a
    then local
    else if is_valid t.node_addr && (a == unmap t.node_addr)
    then node
    else if prefix_valid t.cluster_cidr
        && is_valid a
        && not (contains t.cluster_cidr a)
        && not (is_loopback a)
    then node_routed
    else remote

unfoldable pub admitted : EndpointRules → RoutingTable → List Endpoint → List Backend
admitted rules t [] = []
admitted rules t (ep ∷ eps) = elim (admit_endpoint rules ep) [
  | none ↦ admitted rules t eps
  | some ap ↦ record { addr = ap; locality = classify t ap.ip } ∷ admitted rules t eps
]

-- the order of sort.Slice: by IP, then by port
abbrev pub backend_less : Backend → Backend → Bool
backend_less a b =
    if not (a.addr.ip == b.addr.ip) then less a.addr.ip b.addr.ip else ltb a.addr.port b.addr.port

unfoldable pub insert_sorted : Backend → List Backend → List Backend
insert_sorted b [] = b ∷ []
insert_sorted b (c ∷ cs) =
    let rest = insert_sorted b cs in if backend_less c b then c ∷ rest else b ∷ c ∷ cs

unfoldable pub sort_backends : List Backend → List Backend
unfolding insert_sorted
sort_backends [] = []
sort_backends (b ∷ bs) = insert_sorted b (sort_backends bs)

unfoldable pub ready_backends : EndpointRules → RoutingTable → List Endpoint → List Backend
ready_backends rules t eps = sort_backends (admitted rules t eps)

abbrev pub locals_of : List Backend → List Backend
locals_of bs = filter_by (λ b. node_local b.locality) bs

-- the distinct addresses of a list, as the keys of the `seen` map
abbrev pub addr_set : List Backend → List AddrPort
addr_set [] = []
addr_set (b ∷ bs) = let rest = addr_set bs in if elem b.addr rest then rest else b.addr ∷ rest

abbrev pub all_in : List AddrPort → List Backend → Bool
all_in set [] = true
all_in set (b ∷ bs) = let rest = all_in set bs in if not (elem b.addr set) then false else rest

-- `set` is the membership set of the backends in `prev`
unfoldable pub same_addr_set : List Backend → List Backend → Bool
same_addr_set prev bs =
    if not (all_in (addrs prev) bs)
    then false
    else nat_beq (length (addr_set bs)) (length (addr_set prev))

abbrev pub policy_beq : TrafficPolicy → TrafficPolicy → Bool
policy_beq p q = elim (is_local_policy p) [
  | true ↦ is_local_policy q
  | false ↦ not (is_local_policy q)
]

unfoldable pub same_install :
    Option PortState → TrafficPolicy → List Backend → List Backend → TrafficPolicy → Bool
same_install prev prev_policy ready locals policy =
    if not (policy_beq policy prev_policy) then false else elim prev [
      | none ↦ is_nil ready
      | some st ↦ same_addr_set st.all ready && same_addr_set st.locals locals
    ]

-- a new Service name starts a fresh keyMeta, which keeps the generation's count and the last warning
abbrev pub fresh_meta : ServiceRef → TrafficPolicy → Option KeyMeta → KeyMeta
fresh_meta svc policy m = record {
  namespace = svc.namespace;
  name = svc.name;
  gen = elim m [ none ↦ 1 | some old ↦ old.gen + 1 ];
  policy = policy;
  drop_warned = 0;
  last_drop_warn = elim m [ none ↦ 0 | some old ↦ old.last_drop_warn ];
}

unfoldable pub next_meta :
    RoutingTable → PortKey → ServiceRef → List Backend → List Backend → TrafficPolicy → KeyMeta
next_meta t key svc ready locals policy = elim (lookup key t.meta) [
  | none ↦ fresh_meta svc policy none
  | some m ↦
      if not (m.namespace == svc.namespace) || not (m.name == svc.name)
      then fresh_meta svc policy (some m)
      else record m {
        policy = policy;
        gen =
            if same_install (lookup key t.states) m.policy ready locals policy
            then m.gen
            else m.gen + 1;
      }
]

unfoldable pub advance_meta :
    RoutingTable → PortKey → ServiceRef → List Backend → List Backend → TrafficPolicy → RoutingTable
unfolding next_meta
advance_meta t key svc ready locals policy = record t {
  meta = insert key (next_meta t key svc ready locals policy) t.meta;
}

-- withState and store
unfoldable pub with_state : RoutingTable → PortKey → Option PortState → RoutingTable
with_state t key none = record t { states = delete key t.states }
with_state t key (some st) = record t {
  states = insert key st t.states;
  next_serial = t.next_serial + 1;
}

abbrev pub bindings_of : RoutingTable → PortKey → Bindings
bindings_of t key = elim (lookup key t.affinity) [ none ↦ [] | some binds ↦ binds ]

-- dropAffinity, and purgeAffinity around it
unfoldable pub drop_affinity : RoutingTable → PortKey → RoutingTable
drop_affinity t key = record t {
  affinity_count = t.affinity_count - length (bindings_of t key);
  affinity = delete key t.affinity;
}

abbrev pub clamp_affinity : AffinityConfig → AffinityConfig
clamp_affinity aff =
    if is_client_ip aff.mode && nat_beq aff.timeout 0
    then record aff { timeout = affinity_default_timeout }
    else aff

abbrev pub state_of : ℕ → List Backend → TrafficPolicy → AffinityConfig → KeyMeta → PortState
state_of serial ready policy aff m = record {
  serial = serial;
  all = ready;
  locals = locals_of ready;
  policy = policy;
  affinity_mode = aff.mode;
  affinity_timeout = aff.timeout;
  gen = m.gen;
  cursor = 0;
  warned = false;
}

-- installEndpoints from the lock on, for the sorted Ready backends
unfoldable pub install_ready :
    RoutingTable
    → PortKey
    → ServiceRef
    → List Backend
    → TrafficPolicy
    → AffinityConfig
    → RoutingTable × ℕ
unfolding advance_meta with_state drop_affinity
install_ready t key svc ready policy aff =
    let m = next_meta t key svc ready (locals_of ready) policy in
    let t1 = advance_meta t key svc ready (locals_of ready) policy in
    let st = state_of t.next_serial ready policy aff m in
    if is_nil ready
    then (drop_affinity (with_state t1 key none) key, 0)
    else if not (is_client_ip aff.mode)
    then (drop_affinity (with_state t1 key (some st)) key, length ready)
    else (with_state t1 key (some st), length ready)

unfoldable pub install_endpoints :
    EndpointRules
    → RoutingTable
    → PortKey
    → ServiceRef
    → List Endpoint
    → TrafficPolicy
    → AffinityConfig
    → RoutingTable × ℕ
unfolding install_ready
install_endpoints rules t key svc eps policy aff =
    install_ready t key svc (ready_backends rules t eps) policy (clamp_affinity aff)

unfoldable pub delete_key : RoutingTable → PortKey → RoutingTable
unfolding with_state drop_affinity
delete_key t key =
    let t' = drop_affinity (with_state t key none) key in record t' { meta = delete key t'.meta }
