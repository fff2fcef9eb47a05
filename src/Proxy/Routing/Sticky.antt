-- ===== src/Proxy/Routing/Sticky.antt =====
-- The hold of a ClientIP binding (affinity.go): what a pick leaves behind for the client's next one.
use darwin_net.Prelude.{
  ℕ, ◌+◌, ◌%◌, ◌^◌, ◌<◌, ◌≡◌, arith, refl, Bool, true, false, [], ◌∷◌, none, some, ==_refl, leb,
  length, Result, ok, ◌>>=◌, Option-cases, Bool-cases, inl, inr, max, ◌⊎◌,
}
use darwin_net.Prelude.Maps.{lookup, insert, delete, lookup-insert, lookup-delete}
use darwin_net.Netip.{Addr, addr_eq}
use darwin_net.Proxy.Routing.{
  addr_port_eq, PortKey, port_key_eq, is_client_ip, Backend, AffinityBinding, Bindings,
  RoutingTable, PickError,
}
use darwin_net.Proxy.Routing.Install.{bindings_of}
use darwin_net.Proxy.Routing.Pick.{
  Scoped, active_pool, scoped, round_robin, advance, put_bindings, drop_binding, evict,
  record_binding, rebind, usable, pick_bound, pick_sticky,
}
use darwin_net.Proxy.Routing.Picked.{scoped-pool, scoped-advance, rebind-backend, pick_bound-elem}

pub bindings_of-put :
    (t : RoutingTable) (key : PortKey) (bs : Bindings)
    → bindings_of (put_bindings t key bs) key ≡ bs
bindings_of-put t key bs = ground (arith, lookup-insert key key bs t.affinity, ==_refl key)

pub bindings_of-drop_binding :
    (t : RoutingTable) (key : PortKey) (client : Addr)
    → bindings_of (drop_binding t key client) key ≡ delete client (bindings_of t key)
unfolding drop_binding
bindings_of-drop_binding t key client = bindings_of-put t key (delete client (bindings_of t key))

pub evict-lookup :
    (t : RoutingTable) (key : PortKey) (client : Addr)
    → lookup client (bindings_of t key) ≡ none
    → lookup client (bindings_of (evict t key) key) ≡ none
unfolding evict
evict-lookup t key client h =
    elim (Bool-cases (leb (max 1 t.max_affinity_per_port) (length (bindings_of t key)))) [
      | inr e ↦ ground (arith, e, h)
      | inl e ↦ first (bindings_of t key) refl e
    ]
  where
    first :
        (bs : Bindings)
        → bindings_of t key ≡ bs
        → leb (max 1 t.max_affinity_per_port) (length (bindings_of t key)) ≡ true
        → lookup client (bindings_of (evict t key) key) ≡ none
    first [] q e = ground (arith, q, e, h)
    first ((k, b) ∷ rest) q e = ground (
      arith,
      q,
      e,
      h,
      bindings_of-drop_binding t key k,
      lookup-delete k client (bindings_of t key),
    )

rebind-lookup :
    (t : RoutingTable) (key : PortKey) (client : Addr) (now : ℕ) (s : Scoped) (b : AffinityBinding)
    → lookup client (bindings_of t key) ≡ none
    → lookup client (bindings_of (rebind t key client now s).0 key) ≡ some b
    → b ≡ record { backend = round_robin s.st s.pool; last_seen = now }
unfolding rebind record_binding advance
rebind-lookup t key client now s b n h =
    let t1 = evict (advance t key s.st) key in
    let m = evict-lookup (advance t key s.st) key client n in
    let new : AffinityBinding = record { backend = round_robin s.st s.pool; last_seen = now } in
    ground (
      arith,
      m,
      h,
      bindings_of-put (record t1 { affinity_warned = false }) key
          (insert client new (bindings_of t1 key)),
      lookup-insert client client new (bindings_of t1 key),
      ==_refl client,
    )

-- A binding that a pick leaves behind is the backend it answered, seen now.
pub pick_bound-binding :
    (t : RoutingTable) (key : PortKey) (client : Addr) (now : ℕ) (s : Scoped) (b : AffinityBinding)
    → lookup client (bindings_of (pick_bound t key client now s).0 key) ≡ some b
    → b ≡ record { backend = (pick_bound t key client now s).1; last_seen = now }
unfolding pick_bound
pick_bound-binding t key client now s b h =
    elim (Option-cases (lookup client (bindings_of t key))) [
      | inl e ↦
          ground
            (arith, e, h, rebind-lookup t key client now s b e, rebind-backend t key client now s)
      | inr (o, e) ↦
          let gone : lookup client (bindings_of (drop_binding t key client) key) ≡ none = ground (
            arith,
            bindings_of-drop_binding t key client,
            lookup-delete client client (bindings_of t key),
            ==_refl client,
          ) in
          let u = drop_binding t key client in
          ground (
            arith,
            e,
            h,
            rebind-lookup u key client now s b gone,
            rebind-backend u key client now s,
            bindings_of-put t key
                (insert client (record o { last_seen = now }) (bindings_of t key)),
            lookup-insert client client (record o { last_seen = now }) (bindings_of t key),
            ==_refl client,
          )
    ]

-- a scoped lookup reads the states and the podCIDR only
scoped-congruent :
    (t u : RoutingTable) (key : PortKey) (external : Bool)
    → u.states ≡ t.states
    → u.pod_cidr ≡ t.pod_cidr
    → scoped u key external ≡ scoped t key external
unfolding scoped active_pool
scoped-congruent t u key external e f = ground (arith, e, f)

pub evict-keeps :
    (t : RoutingTable) (key : PortKey)
    → ((evict t key).states ≡ t.states) × ((evict t key).pod_cidr ≡ t.pod_cidr)
unfolding evict drop_binding
evict-keeps t key = ground arith

rebind-keeps :
    (t : RoutingTable) (key : PortKey) (client : Addr) (now : ℕ) (s : Scoped)
    → ((rebind t key client now s).0.states ≡ (advance t key s.st).states)
      × ((rebind t key client now s).0.pod_cidr ≡ t.pod_cidr)
unfolding rebind record_binding advance
rebind-keeps t key client now s = ground (arith, evict-keeps (advance t key s.st) key)

-- the state that a hit stores is the one that the lookup gave
scoped-claimed :
    (t : RoutingTable) (key : PortKey) (external : Bool) (s : Scoped)
    → scoped t key external ≡ ok s
    → scoped (record t { states = insert key s.st t.states }) key external ≡ ok s
unfolding scoped active_pool
scoped-claimed t key external s h = elim (Option-cases (lookup key t.states)) [
  | inl e ↦ ground (arith, e, h)
  | inr (st, e) ↦ ground (arith, e, h, lookup-insert key key s.st t.states, ==_refl key)
]

pick_bound-states :
    (t : RoutingTable) (key : PortKey) (client : Addr) (now : ℕ) (s : Scoped)
    → (((pick_bound t key client now s).0.states ≡ insert key s.st t.states)
        ⊎ ((pick_bound t key client now s).0.states ≡ (advance t key s.st).states))
      × ((pick_bound t key client now s).0.pod_cidr ≡ t.pod_cidr)
unfolding pick_bound drop_binding advance
pick_bound-states t key client now s = ground (
  arith,
  rebind-keeps t key client now s,
  rebind-keeps (drop_binding t key client) key client now s,
)

-- the scope of the same port after the pick: the pool and the affinity are as before
pick_bound-scoped :
    (t : RoutingTable) (key : PortKey) (client : Addr) (now : ℕ) (external : Bool) (s : Scoped)
    → scoped t key external ≡ ok s
    → (s' : Scoped) × (scoped (pick_bound t key client now s).0 key external ≡ ok s')
      × (s'.pool ≡ s.pool)
      × (s'.st.affinity_timeout ≡ s.st.affinity_timeout)
      × (s'.st.affinity_mode ≡ s.st.affinity_mode)
unfolding advance
pick_bound-scoped t key client now external s h =
    let u = (pick_bound t key client now s).0 in
    let (states, cidr) = pick_bound-states t key client now s in
    elim states [
      | inl e ↦
          let claimed : RoutingTable = record t { states = insert key s.st t.states } in
          let again = scoped-claimed t key external s h in
          (
            s,
            ground (arith, scoped-congruent claimed u key external e cidr, again),
            refl,
            refl,
            refl,
          )
      | inr e ↦ (
        record { st = record s.st { cursor = (s.st.cursor + 1) % 2 ^ 64 }; pool = s.pool },
        ground (
          arith,
          scoped-congruent (advance t key s.st) u key external e cidr,
          scoped-advance t key external s h,
        ),
        refl,
        refl,
        refl,
      )
    ]

-- the backend that a pick answers
abbrev pub answer : Result PickError (RoutingTable × Backend) → Result PickError Backend
answer r = r >>= (λ p. ok p.1)

pick_bound-usable :
    (t : RoutingTable) (key : PortKey) (client : Addr) (now : ℕ) (s : Scoped) (b : AffinityBinding)
    → lookup client (bindings_of t key) ≡ some b
    → usable s now b ≡ true
    → (pick_bound t key client now s).1 ≡ b.backend
unfolding pick_bound
pick_bound-usable t key client now s b l h = ground (arith, l, h)

-- When a pick under ClientIP affinity leaves a binding for the client behind, the next pick of the
-- same client and scope within the idle timeout answers the same backend.
pub pick_sticky-holds :
    (t t' : RoutingTable) (key : PortKey) (client : Addr) (now now' : ℕ) (external : Bool)
    (be : Backend) (s : Scoped) (b : AffinityBinding)
    → scoped t key external ≡ ok s
    → is_client_ip s.st.affinity_mode ≡ true
    → pick_sticky t key client now external ≡ ok (t', be)
    → lookup client (bindings_of t' key) ≡ some b
    → now' < now + s.st.affinity_timeout
    → answer (pick_sticky t' key client now' external) ≡ ok be
unfolding pick_sticky
pick_sticky-holds t t' key client now now' external be s b h m p l c =
    let eq : pick_bound t key client now s ≡ (t', be) = ground (arith, h, m, p) in
    let u = (pick_bound t key client now s).0 in
    let (s', sh, pool, timeout, mode) = pick_bound-scoped t key client now external s h in
    let (st, e, g, n) = scoped-pool t key external s h in
    let l' : lookup client (bindings_of u key) ≡ some b = ground (arith, eq, l) in
    let bound = pick_bound-binding t key client now s b l' in
    let inside = pick_bound-elem t key client now s (ground (arith, g, n)) in
    let use' : usable s' now' b ≡ true = ground (arith, bound, inside, pool, timeout, c) in
    let next = pick_bound-usable u key client now' s' b l' use' in
    ground (arith, eq, sh, mode, m, next, bound)
