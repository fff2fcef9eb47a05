-- ===== src/Proxy/Tests.antt =====
-- Concrete runs of the routing table and of the policy table.

use darwin_net.Prelude.{
  nat_eq, ◌≡◌, ◌↔◌, arith, refl, true, false, if◌then◌else◌, List, [], ◌∷◌, none, some, ok, err,
  Any, ◌==◌, string_eq,
}
use darwin_net.Prelude.Maps.{lookup}
use darwin_net.Netip.{Addr, v4, Prefix, addr_eq, zero_prefix, zero_addr, contains}
use darwin_net.Proxy.Routing.{
  addr_port_eq, PortKey, port_key_eq, local, remote, node_local, traffic_cluster, traffic_local,
  affinity_client_ip, AffinityConfig, Backend, PortState, RoutingTable, new_routing_table,
}
use darwin_net.Proxy.Routing.Install.{
  Endpoint, ServiceRef, EndpointRules, admit_endpoint, classify, admitted, insert_sorted,
  sort_backends, ready_backends, next_meta, advance_meta, with_state, bindings_of, drop_affinity,
  install_ready, install_endpoints,
}
use darwin_net.Proxy.Routing.Pick.{
  Scoped, active_pool, scoped, round_robin, advance, evict, record_binding, rebind, pick_bound,
  pick_sticky,
}
use darwin_net.Proxy.Routing.Picked.{nth_pick, nth_pick-rotates}
use darwin_net.Proxy.Routing.Sticky.{answer, pick_sticky-holds}
use darwin_net.Proxy.Routing.Installed.{install_endpoints-admitted, install_endpoints-local}
use darwin_net.Proxy.Routing.Bounded.{Affinity}
use darwin_net.Proxy.Routing.Sequences.{op_install, op_pick, op_sweep, run, run-Affinity}
use darwin_net.Proxy.Policy.{PolicyRule, PolicyTable, allow}
use darwin_net.Proxy.Policy.Verdict.{Reason, allow_iff}
use darwin_net.Proxy.Transport.{VmPodTransport, EgressScope}

-- every endpoint is valid, and an address parses by its name
abbrev rules : EndpointRules
rules = record {
  validate = λ ep. true;
  parse_addr = λ s. if s == "a" then some (v4 2) else if s == "b" then some (v4 512) else none;
}

-- 0.0.0.0/24
abbrev pod_cidr : Prefix
pod_cidr = record { addr = v4 0; bits_plus_one = 25 }

abbrev table : RoutingTable
table = record {
  pod_cidr = pod_cidr;
  node_addr = zero_addr;
  cluster_cidr = zero_prefix;
  states = [];
  meta = [];
  affinity = [];
  affinity_count = 0;
  max_affinity_per_port = 8192;
  max_affinity_total = 65536;
  affinity_warned = false;
  next_serial = 0;
}

abbrev key : PortKey
key = record { cluster_ip = "10.0.0.1"; port = 80; protocol = "TCP" }

abbrev svc : ServiceRef
svc = record { namespace = "default"; name = "web" }

abbrev eps : List Endpoint
eps =
    record { ip = "b"; port = 8080; ready = true }
    ∷ record { ip = "a"; port = 8080; ready = true }
    ∷ record { ip = "a"; port = 9090; ready = false }
    ∷ []

abbrev sticky : AffinityConfig
sticky = record { mode = affinity_client_ip; timeout = 100 }

abbrev here : Backend
here = record { addr = record { ip = v4 2; port = 8080 }; locality = local }

abbrev there : Backend
there = record { addr = record { ip = v4 512; port = 8080 }; locality = remote }

abbrev installed : RoutingTable
installed = (install_endpoints rules table key svc eps traffic_cluster sticky).0

abbrev client : Addr
client = v4 7

abbrev after_pick : RoutingTable
after_pick = elim (pick_sticky installed key client 5 false) [ ok r ↦ r.0 | err e ↦ installed ]

pick_finds : pick_sticky installed key client 5 false ≡ ok (after_pick, here)
unfolding install_endpoints install_ready ready_backends sort_backends insert_sorted admitted
    admit_endpoint classify contains advance_meta next_meta with_state drop_affinity pick_sticky
    scoped active_pool pick_bound rebind evict record_binding advance round_robin
pick_finds = refl

install_endpoints-admitted_example : Any (λ ep. admit_endpoint rules ep ≡ some here.addr) eps
install_endpoints-admitted_example =
    install_endpoints-admitted rules table after_pick key svc eps traffic_cluster sticky client 5
      false here pick_finds

abbrev installed_local : RoutingTable
installed_local = (install_endpoints rules table key svc eps traffic_local sticky).0

abbrev after_local : RoutingTable
after_local = elim (pick_sticky installed_local key client 5 false) [
  | ok r ↦ r.0
  | err e ↦ installed_local
]

pick_local_finds : pick_sticky installed_local key client 5 false ≡ ok (after_local, here)
unfolding install_endpoints install_ready ready_backends sort_backends insert_sorted admitted
    admit_endpoint classify contains advance_meta next_meta with_state drop_affinity pick_sticky
    scoped active_pool pick_bound rebind evict record_binding advance round_robin
pick_local_finds = refl

install_endpoints-local_example : node_local (classify table (v4 2)) ≡ true
install_endpoints-local_example =
    install_endpoints-local rules table after_local key svc eps sticky client 5 here refl
      pick_local_finds

-- the state that the first install leaves
abbrev state : PortState
state = record {
  serial = 0;
  all = here ∷ there ∷ [];
  locals = here ∷ [];
  policy = traffic_cluster;
  affinity_mode = affinity_client_ip;
  affinity_timeout = 100;
  gen = 1;
  cursor = 0;
  warned = false;
}

abbrev scope : Scoped
scope = record { st = state; pool = here ∷ there ∷ [] }

scope_found : scoped installed key false ≡ ok scope
unfolding install_endpoints install_ready ready_backends sort_backends insert_sorted admitted
    admit_endpoint classify contains advance_meta next_meta with_state drop_affinity scoped
    active_pool
scope_found = refl

-- the fourth pick is the second backend
nth_pick-rotates_example : nth_pick 3 installed key ≡ ok there
nth_pick-rotates_example = nth_pick-rotates installed key scope 3 scope_found (omega arith)

bound : lookup client (bindings_of after_pick key) ≡ some (record { backend = here; last_seen = 5 })
unfolding install_endpoints install_ready ready_backends sort_backends insert_sorted admitted
    admit_endpoint classify contains advance_meta next_meta with_state drop_affinity pick_sticky
    scoped active_pool pick_bound rebind evict record_binding advance round_robin
bound = refl

pick_sticky-holds_example : answer (pick_sticky after_pick key client 60 false) ≡ ok here
pick_sticky-holds_example =
    pick_sticky-holds installed after_pick key client 5 60 false here scope
      (record { backend = here; last_seen = 5 }) scope_found refl pick_finds bound (omega arith)

run-Affinity_example : Affinity (
    run rules
      (op_install key svc eps traffic_cluster sticky
        ∷ op_pick key client 5 false
        ∷ op_sweep 500
        ∷ [])
      (new_routing_table pod_cidr))
run-Affinity_example =
    run-Affinity rules
      (op_install key svc eps traffic_cluster sticky
        ∷ op_pick key client 5 false
        ∷ op_sweep 500
        ∷ [])
      pod_cidr

-- the backend v4 2 is selected, and its one rule admits v4 9 on port 80
abbrev rule : PolicyRule
rule = record { sources = some (v4 9 ∷ []); ports = some (80 ∷ []) }

abbrev policy : PolicyTable
policy = record {
  always_allow = [];
  vmnet = zero_prefix;
  selected = (v4 2, rule ∷ []) ∷ [];
  known = v4 9 ∷ v4 10 ∷ [];
  last_unknown_warn = none;
  last_vm_unknown_log = none;
  eval_count = 0;
}

allow_iff_example :
    ((allow (some policy) (v4 9) (v4 2) 80 0).1 ≡ true) ↔ Reason policy (v4 9) (v4 2) 80
allow_iff_example = allow_iff policy (v4 9) (v4 2) 80 0

-- 0.0.0.7 is published, 1.0.0.7 is live
abbrev guest : VmPodTransport
guest = record { live = v4 16777223; ports = 80 ∷ 0 ∷ 80 ∷ [] }

-- the table's node is 0.0.0.0/24 of the aggregate 0.0.0.0/8
abbrev egress : EgressScope
egress = record { src = v4 1; cluster_cidr = record { addr = v4 0; bits_plus_one = 9 } }
