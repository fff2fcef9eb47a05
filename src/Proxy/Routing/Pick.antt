-- ===== src/Proxy/Routing/Pick.antt =====
-- The pick path of RoutingTable (routing.go, affinity.go). A pick returns the next table and a backend
-- or an error; on an error nothing has changed.
use darwin_net.Prelude.{
  ℕ, ◌+◌, ◌-◌, ◌%◌, ◌^◌, Bool, true, false, not, ◌&&◌, if◌then◌else◌, List, [], ◌∷◌, none, some,
  nat_beq, ltb, leb, elem, length, is_nil, get_or, Result, ok, err, max,
}
use darwin_net.Prelude.Maps.{lookup, insert, delete}
use darwin_net.Netip.{Addr, addr_eq, zero_addr, prefix_valid}
use darwin_net.Proxy.Routing.{
  addr_port_eq, PortKey, port_key_eq, unknown, is_local_policy, is_client_ip, Backend, addrs,
  PortState, AffinityBinding, Bindings, RoutingTable, PickError, no_backends, no_local_backends,
}
use darwin_net.Proxy.Routing.Install.{bindings_of}

-- what a scoped lookup hands on: the port's state and the pool (its membership set is its addresses)
pub record Scoped : Type 0 where
  pub st : PortState
  pub pool : List Backend

-- activePool; under an unknown podCIDR a Local port fails open
unfoldable pub active_pool : RoutingTable → PortState → Bool → Result PickError (List Backend)
active_pool t st external =
    if external
    then ok st.all
    else if is_local_policy st.policy
    then (if prefix_valid t.pod_cidr
        then (if is_nil st.locals then err no_local_backends else ok st.locals)
        else ok st.all)
    else ok st.all

-- the warn-once that activePool claims on the way
abbrev pub warned_by : RoutingTable → PortState → Bool → PortState
warned_by t st external =
    if not external && is_local_policy st.policy && not (prefix_valid t.pod_cidr)
    then record st { warned = true }
    else st

abbrev pub scoped_state : RoutingTable → PortState → Bool → Result PickError Scoped
scoped_state t st external =
    if is_nil st.all then err no_backends else elim (active_pool t st external) [
      | err e ↦ err e
      | ok pool ↦
          if is_nil pool
          then err no_backends
          else ok (record { st = warned_by t st external; pool = pool })
    ]

unfoldable pub scoped : RoutingTable → PortKey → Bool → Result PickError Scoped
scoped t key external = elim (lookup key t.states) [
  | none ↦ err no_backends
  | some st ↦ scoped_state t st external
]

abbrev pub no_backend : Backend
no_backend = record { addr = record { ip = zero_addr; port = 0 }; locality = unknown }

-- roundRobin: the backend, and the port's state with its cursor moved (a uint64)
unfoldable pub round_robin : PortState → List Backend → Backend
round_robin st pool = get_or pool (st.cursor % length pool) no_backend

unfoldable pub advance : RoutingTable → PortKey → PortState → RoutingTable
advance t key st = record t {
  states = insert key (record st { cursor = (st.cursor + 1) % 2 ^ 64 }) t.states;
}

unfoldable pub pick : RoutingTable → PortKey → Result PickError (RoutingTable × Backend)
unfolding round_robin advance
pick t key = elim (scoped t key false) [
  | err e ↦ err e
  | ok s ↦ ok (advance t key s.st, round_robin s.st s.pool)
]

unfoldable pub pick_at : RoutingTable → PortKey → ℕ → Result PickError Backend
pick_at t key i = elim (lookup key t.states) [
  | none ↦ err no_backends
  | some st ↦
      if is_nil st.all then err no_backends else ok (get_or st.all (i % length st.all) no_backend)
]

abbrev pub put_bindings : RoutingTable → PortKey → Bindings → RoutingTable
put_bindings t key binds = record t { affinity = insert key binds t.affinity }

-- dropBinding
unfoldable pub drop_binding : RoutingTable → PortKey → Addr → RoutingTable
drop_binding t key client =
    let t' = put_bindings t key (delete client (bindings_of t key)) in
    record t' { affinity_count = t.affinity_count - 1 }

-- the first binding that the range visits goes, at the port's cap: Go's map may visit any first, the
-- list its head
unfoldable pub evict : RoutingTable → PortKey → RoutingTable
unfolding drop_binding
evict t key =
    if leb (max 1 t.max_affinity_per_port) (length (bindings_of t key))
    then elim (bindings_of t key) [ [] ↦ t | (k, b) ∷ rest ↦ drop_binding t key k ]
    else t

-- the binding of a client is recorded
unfoldable pub record_binding : RoutingTable → PortKey → Addr → Backend → ℕ → RoutingTable
record_binding t key client be now =
    let t' =
      put_bindings t key
        (insert client (record { backend = be; last_seen = now }) (bindings_of t key)) in
    record t' { affinity_count = t.affinity_count + 1 }

-- whether key still maps to the state that the pick came from
abbrev pub same_state : RoutingTable → PortKey → PortState → Bool
same_state t key st = elim (lookup key t.states) [
  | none ↦ false
  | some now ↦ nat_beq now.serial st.serial
]

-- the pick of a fresh backend for a client without a usable binding
unfoldable pub rebind : RoutingTable → PortKey → Addr → ℕ → Scoped → RoutingTable × Backend
unfolding evict record_binding advance round_robin
rebind t key client now s =
    let be = round_robin s.st s.pool in
    let t1 = evict (advance t key s.st) key in
    if leb (max 1 t.max_affinity_total) t1.affinity_count
    then (record t1 { affinity_warned = true }, be)
    else (let t2 = record t1 { affinity_warned = false } in
        if same_state t2 key s.st then (record_binding t2 key client be now, be) else (t2, be))

abbrev pub usable : Scoped → ℕ → AffinityBinding → Bool
usable s now b = elem b.backend.addr (addrs s.pool) && ltb now (b.last_seen + s.st.affinity_timeout)

-- a hit: the binding is seen now; the warn-once that the lookup claimed is kept
abbrev pub refresh : RoutingTable → PortKey → PortState → Addr → AffinityBinding → ℕ → RoutingTable
refresh t key st client b now =
    put_bindings (record t { states = insert key st t.states }) key
      (insert client (record b { last_seen = now }) (bindings_of t key))

-- under affMu, with ClientIP affinity on
unfoldable pub pick_bound : RoutingTable → PortKey → Addr → ℕ → Scoped → RoutingTable × Backend
unfolding rebind drop_binding
pick_bound t key client now s = elim (lookup client (bindings_of t key)) [
  | none ↦ rebind t key client now s
  | some b ↦
      if usable s now b
      then (refresh t key s.st client b now, b.backend)
      else rebind (drop_binding t key client) key client now s
]

-- pickStickyScoped: PickSticky is the internal scope and PickStickyCluster the external one
unfoldable pub pick_sticky :
    RoutingTable → PortKey → Addr → ℕ → Bool → Result PickError (RoutingTable × Backend)
unfolding scoped pick_bound advance round_robin
pick_sticky t key client now external = elim (scoped t key external) [
  | err e ↦ err e
  | ok s ↦
      if not (is_client_ip s.st.affinity_mode)
      then ok (advance t key s.st, round_robin s.st s.pool)
      else ok (pick_bound t key client now s)
]
