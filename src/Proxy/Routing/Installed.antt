-- ===== src/Proxy/Routing/Installed.antt =====
-- What an install leaves (routing.go): the port's state against the endpoints, the bindings that it
-- purges, and what a pick answers after it.
use darwin_net.Prelude.{
  ℕ, ◌≡◌, arith, refl, ap, Bool, true, false, not, ◌&&◌, ◌||◌, if◌then◌else◌, List, [], ◌∷◌, none,
  some, ◌==◌, ==_refl, elem, is_nil, ok, Option-cases, Bool-cases, inl, inr, All, Any, string_eq,
  nat_eq,
}
use darwin_net.Prelude.Maps.{lookup, lookup-insert, lookup-delete}
use darwin_net.Netip.{Addr, addr_eq, prefix_valid}
use darwin_net.Proxy.Routing.{
  AddrPort, addr_port_eq, PortKey, port_key_eq, node_local, TrafficPolicy, traffic_local,
  is_local_policy, AffinityConfig, is_client_ip, Backend, addrs, RoutingTable,
}
use darwin_net.Proxy.Routing.Install.{
  Endpoint, ServiceRef, EndpointRules, admit_endpoint, classify, admitted, insert_sorted,
  sort_backends, ready_backends, locals_of, next_meta, advance_meta, with_state, bindings_of,
  drop_affinity, clamp_affinity, state_of, install_ready, install_endpoints,
}
use darwin_net.Proxy.Routing.Pick.{pick_sticky}
use darwin_net.Proxy.Routing.Picked.{pick_sticky-pool}

elem-insert_sorted :
    (a : AddrPort) (b : Backend) (bs : List Backend)
    → elem a (addrs (insert_sorted b bs)) ≡ elem a (b.addr ∷ addrs bs)
unfolding insert_sorted
elem-insert_sorted a b [] = refl
elem-insert_sorted a b (c ∷ cs) = ground (arith, elem-insert_sorted a b cs)

elem-sort_backends :
    (a : AddrPort) (bs : List Backend) → elem a (addrs (sort_backends bs)) ≡ elem a (addrs bs)
unfolding sort_backends
elem-sort_backends a [] = refl
elem-sort_backends a (b ∷ bs) =
    ground (arith, elem-insert_sorted a b (sort_backends bs), elem-sort_backends a bs)

elem-admitted :
    (rules : EndpointRules) (t : RoutingTable) (a : AddrPort) (eps : List Endpoint)
    → elem a (addrs (admitted rules t eps)) ≡ true
    → Any (λ ep. admit_endpoint rules ep ≡ some a) eps
unfolding admitted
elem-admitted rules t a [] h = ground arith
elem-admitted rules t a (ep ∷ eps) h = elim (Option-cases (admit_endpoint rules ep)) [
  | inl e ↦ inr (elem-admitted rules t a eps (ground (arith, e, h)))
  | inr (ap, e) ↦ elim (Bool-cases (ap == a)) [
    | inl f ↦ inl (ground (arith, e, f, addr_port_eq.beq_iff ap a))
    | inr f ↦ inr (elem-admitted rules t a eps (ground (arith, e, f, h)))
  ]
]

-- the backends carry the locality of their address
abbrev Classified : RoutingTable → List Backend → Type 0
Classified t = All (λ b. b.locality ≡ classify t b.addr.ip)

admitted-Classified :
    (rules : EndpointRules) (t : RoutingTable) (eps : List Endpoint)
    → Classified t (admitted rules t eps)
unfolding admitted
admitted-Classified rules t [] = tt
admitted-Classified rules t (ep ∷ eps) = elim (Option-cases (admit_endpoint rules ep)) [
  | inl e ↦ ground (arith, e, admitted-Classified rules t eps)
  | inr (ap, e) ↦ ground (arith, e, admitted-Classified rules t eps)
]

insert_sorted-Classified :
    (t : RoutingTable) (b : Backend) (bs : List Backend)
    → b.locality ≡ classify t b.addr.ip
    → Classified t bs
    → Classified t (insert_sorted b bs)
unfolding insert_sorted
insert_sorted-Classified t b [] h c = (h, tt)
insert_sorted-Classified t b (x ∷ xs) h c =
    ground (arith, h, c.0, c.1, insert_sorted-Classified t b xs h c.1)

sort_backends-Classified :
    (t : RoutingTable) (bs : List Backend) → Classified t bs → Classified t (sort_backends bs)
unfolding sort_backends
sort_backends-Classified t [] c = tt
sort_backends-Classified t (b ∷ bs) c =
    insert_sorted-Classified t b (sort_backends bs) c.0 (sort_backends-Classified t bs c.1)

elem-locals_of :
    (t : RoutingTable) (a : AddrPort) (bs : List Backend)
    → Classified t bs
    → elem a (addrs (locals_of bs)) ≡ true
    → (elem a (addrs bs) ≡ true) × (node_local (classify t a.ip) ≡ true)
elem-locals_of t a [] c h = ground (arith, h)
elem-locals_of t a (b ∷ bs) c h =
    ground (arith, h, c.0, elem-locals_of t a bs c.1, addr_port_eq.beq_iff b.addr a)

-- The state of the port after an install: absent when no endpoint is Ready.
pub install_ready-state :
    (t : RoutingTable) (key : PortKey) (svc : ServiceRef) (ready : List Backend)
    (policy : TrafficPolicy) (aff : AffinityConfig)
    → lookup key (install_ready t key svc ready policy aff).0.states ≡ (
        if is_nil ready
        then none
        else some (
            state_of t.next_serial ready policy aff
              (next_meta t key svc ready (locals_of ready) policy)))
unfolding install_ready with_state drop_affinity advance_meta
install_ready-state t key svc ready policy aff = ground (
  arith,
  lookup-delete key key t.states,
  lookup-insert key key
      (state_of t.next_serial ready policy aff (next_meta t key svc ready (locals_of ready) policy))
      t.states,
  ==_refl key,
)

install_ready-pod_cidr :
    (t : RoutingTable) (key : PortKey) (svc : ServiceRef) (ready : List Backend)
    (policy : TrafficPolicy) (aff : AffinityConfig)
    → (install_ready t key svc ready policy aff).0.pod_cidr ≡ t.pod_cidr
unfolding install_ready with_state drop_affinity advance_meta
install_ready-pod_cidr t key svc ready policy aff = ground arith

-- a pick after an install answers from the installed backends
pick-installed :
    (t t2 : RoutingTable) (key : PortKey) (svc : ServiceRef) (ready : List Backend)
    (policy : TrafficPolicy) (aff : AffinityConfig) (client : Addr) (now : ℕ) (external : Bool)
    (be : Backend)
    → pick_sticky (install_ready t key svc ready policy aff).0 key client now external ≡ ok (t2, be)
    → elem be.addr (
        addrs (
          if not external && is_local_policy policy && prefix_valid t.pod_cidr
          then locals_of ready
          else ready))
      ≡ true
pick-installed t t2 key svc ready policy aff client now external be p =
    let t1 = (install_ready t key svc ready policy aff).0 in
    let (st, e, i) = pick_sticky-pool t1 t2 key client now external be p in
    let installed = install_ready-state t key svc ready policy aff in
    ground (arith, e, installed, i, install_ready-pod_cidr t key svc ready policy aff)

-- After an install, every backend that a pick answers for the port is the address of an endpoint of
-- that install which is Ready, valid and parses; whatever bindings stood before.
pub install_endpoints-admitted :
    (rules : EndpointRules) (t t2 : RoutingTable) (key : PortKey) (svc : ServiceRef)
    (eps : List Endpoint) (policy : TrafficPolicy) (aff : AffinityConfig) (client : Addr) (now : ℕ)
    (external : Bool) (be : Backend)
    → pick_sticky (install_endpoints rules t key svc eps policy aff).0 key client now external
      ≡ ok (t2, be)
    → Any (λ ep. admit_endpoint rules ep ≡ some be.addr) eps
unfolding install_endpoints ready_backends
install_endpoints-admitted rules t t2 key svc eps policy aff client now external be p =
    let bs = admitted rules t eps in
    let ready = ready_backends rules t eps in
    let inside =
      pick-installed t t2 key svc ready policy (clamp_affinity aff) client now external be p in
    let classified = sort_backends-Classified t bs (admitted-Classified rules t eps) in
    let within = elem-locals_of t be.addr ready classified in
    let in_ready : elem be.addr (addrs ready) ≡ true = ground (arith, inside, within) in
    elem-admitted rules t be.addr eps (ground (arith, in_ready, elem-sort_backends be.addr bs))

-- After an install with traffic policy Local on a node that knows its podCIDR, every backend that an
-- internal pick answers for the port is on this node.
pub install_endpoints-local :
    (rules : EndpointRules) (t t2 : RoutingTable) (key : PortKey) (svc : ServiceRef)
    (eps : List Endpoint) (aff : AffinityConfig) (client : Addr) (now : ℕ) (be : Backend)
    → prefix_valid t.pod_cidr ≡ true
    → pick_sticky (install_endpoints rules t key svc eps traffic_local aff).0 key client now false
      ≡ ok (t2, be)
    → node_local (classify t be.addr.ip) ≡ true
unfolding install_endpoints ready_backends
install_endpoints-local rules t t2 key svc eps aff client now be v p =
    let bs = admitted rules t eps in
    let ready = ready_backends rules t eps in
    let inside =
      pick-installed t t2 key svc ready traffic_local (clamp_affinity aff) client now false be p in
    let classified = sort_backends-Classified t bs (admitted-Classified rules t eps) in
    (elem-locals_of t be.addr ready classified (ground (arith, inside, v))).1

-- An install touches the bindings of its own port only, and drops these unless the port has Ready
-- backends and ClientIP affinity.
pub install_ready-bindings :
    (t : RoutingTable) (key j : PortKey) (svc : ServiceRef) (ready : List Backend)
    (policy : TrafficPolicy) (aff : AffinityConfig)
    → bindings_of (install_ready t key svc ready policy aff).0 j
      ≡ (if key == j && (is_nil ready || not (is_client_ip aff.mode)) then [] else bindings_of t j)
unfolding install_ready with_state drop_affinity advance_meta
install_ready-bindings t key j svc ready policy aff = ground (arith, lookup-delete key j t.affinity)
