-- ===== src/Proxy/Routing/Sequences.antt =====
-- The account of bindings over any sequence of the table's operations: installEndpoints, Delete, the
-- sticky picks and SweepExpired, each one step under affMu.
use darwin_net.Prelude.{
  ℕ, ◌≡◌, arith, refl, Bool, List, [], ◌∷◌, Option, none, some, is_nil, Result, ok, err,
  Result-cases, Bool-cases, inl, inr,
}
use darwin_net.Netip.{Addr, Prefix, addr_eq}
use darwin_net.Proxy.Routing.{
  PortKey, port_key_eq, TrafficPolicy, AffinityConfig, is_client_ip, Backend, PortState,
  RoutingTable, new_routing_table, PickError,
}
use darwin_net.Proxy.Routing.Install.{
  ServiceRef, EndpointRules, Endpoint, ready_backends, clamp_affinity, install_endpoints, next_meta,
  locals_of, state_of, install_ready, delete_key, with_state, advance_meta,
}
use darwin_net.Proxy.Routing.Pick.{pick_sticky}
use darwin_net.Proxy.Routing.Sweep.{sweep_expired, drop_affinity-Affinity, sweep_expired-Affinity}
use darwin_net.Proxy.Routing.Bounded.{Affinity}
use darwin_net.Proxy.Routing.BoundedPick.{same-Affinity, pick_sticky-Affinity}

with_state-Affinity :
    (t : RoutingTable) (key : PortKey) (st : Option PortState)
    → Affinity t
    → Affinity (with_state t key st)
unfolding with_state
with_state-Affinity t key none a = a
with_state-Affinity t key (some st) a = a

-- An install keeps the account right, and both caps.
pub install_ready-Affinity :
    (t : RoutingTable) (key : PortKey) (svc : ServiceRef) (ready : List Backend)
    (policy : TrafficPolicy) (aff : AffinityConfig)
    → Affinity t
    → Affinity (install_ready t key svc ready policy aff).0
unfolding install_ready advance_meta
install_ready-Affinity t key svc ready policy aff a =
    let m = next_meta t key svc ready (locals_of ready) policy in
    let st = state_of t.next_serial ready policy aff m in
    let t1 = advance_meta t key svc ready (locals_of ready) policy in
    let a1 = same-Affinity t t1 (refl, refl, refl, refl) a in
    let some' = with_state-Affinity t1 key (some st) a1 in
    let none' = with_state-Affinity t1 key none a1 in
    let dropped = drop_affinity-Affinity (with_state t1 key none) key none' in
    let dropped' = drop_affinity-Affinity (with_state t1 key (some st)) key some' in
    elim (Bool-cases (is_nil ready)) [
      | inl e ↦ ground (arith, e, dropped)
      | inr e ↦ elim (Bool-cases (is_client_ip aff.mode)) [
        | inl f ↦ ground (arith, e, f, some')
        | inr f ↦ ground (arith, e, f, dropped')
      ]
    ]

delete_key-Affinity : (t : RoutingTable) (key : PortKey) → Affinity t → Affinity (delete_key t key)
unfolding delete_key
delete_key-Affinity t key a =
    let dropped =
      drop_affinity-Affinity (with_state t key none) key (with_state-Affinity t key none a) in
    dropped

-- one operation of the table under affMu
pub data Op : Type 0 where
  op_install : PortKey → ServiceRef → List Endpoint → TrafficPolicy → AffinityConfig → Op
  op_delete : PortKey → Op
  op_pick : PortKey → Addr → ℕ → Bool → Op
  op_sweep : ℕ → Op

-- a pick that fails leaves the bindings as they were
abbrev pub picked_or : RoutingTable → Result PickError (RoutingTable × Backend) → RoutingTable
picked_or t (ok r) = r.0
picked_or t (err e) = t

abbrev pub apply : EndpointRules → Op → RoutingTable → RoutingTable
apply rules (op_install key svc eps policy aff) t =
    (install_endpoints rules t key svc eps policy aff).0
apply rules (op_delete key) t = delete_key t key
apply rules (op_pick key client now external) t =
    picked_or t (pick_sticky t key client now external)
apply rules (op_sweep now) t = sweep_expired t now

abbrev pub run : EndpointRules → List Op → RoutingTable → RoutingTable
run rules [] t = t
run rules (op ∷ ops) t = run rules ops (apply rules op t)

apply-Affinity :
    (rules : EndpointRules) (op : Op) (t : RoutingTable) → Affinity t → Affinity (apply rules op t)
unfolding install_endpoints
apply-Affinity rules (op_install key svc eps policy aff) t a =
    install_ready-Affinity t key svc (ready_backends rules t eps) policy (clamp_affinity aff) a
apply-Affinity rules (op_delete key) t a = delete_key-Affinity t key a
apply-Affinity rules (op_sweep now) t a = sweep_expired-Affinity t now a
apply-Affinity rules (op_pick key client now external) t a =
    elim (Result-cases (pick_sticky t key client now external)) [
      | inl ((t', be), e) ↦
          let next = pick_sticky-Affinity t t' key client now external be a e in
          let eq : apply rules (op_pick key client now external) t ≡ t' = ground (arith, e) in
          rw eq next
      | inr (e, f) ↦
          let eq : apply rules (op_pick key client now external) t ≡ t = ground (arith, f) in
          rw eq a
    ]

run-kept :
    (rules : EndpointRules) (ops : List Op) (t : RoutingTable)
    → Affinity t
    → Affinity (run rules ops t)
run-kept rules [] t a = a
run-kept rules (op ∷ ops) t a = run-kept rules ops (apply rules op t) (apply-Affinity rules op t a)

-- After any sequence of installs, deletes, sticky picks and idle sweeps on a new table, affinityCount is
-- the number of the bindings, no client has two bindings on a port, no port has more bindings than its
-- cap, and the count is within the table's cap.
pub run-Affinity :
    (rules : EndpointRules) (ops : List Op) (pod_cidr : Prefix)
    → Affinity (run rules ops (new_routing_table pod_cidr))
unfolding new_routing_table
run-Affinity rules ops pod_cidr =
    run-kept rules ops (new_routing_table pod_cidr) (tt, tt, omega arith, omega arith)
