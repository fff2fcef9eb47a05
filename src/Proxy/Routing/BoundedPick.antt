-- ===== src/Proxy/Routing/BoundedPick.antt =====
-- The account of bindings through the steps of a pick (affinity.go): dropBinding, the eviction at the
-- port's cap, the refresh and the record of a binding.
use darwin_net.Prelude.{
  ℕ, ◌+◌, ◌<◌, ◌≡◌, arith, refl, Bool, true, false, [], ◌∷◌, none, ==_refl, leb, elem, length, ok,
  Result-cases, Option-cases, Bool-cases, inl, inr, max,
}
use darwin_net.Prelude.Maps.{
  lookup, insert, keys, lookup-delete, Distinct-insert, elem-keys-lookup, length-delete,
  length-insert,
}
use darwin_net.Netip.{Addr, addr_eq}
use darwin_net.Proxy.Routing.{
  PortState, PortKey, port_key_eq, is_client_ip, Backend, AffinityBinding, Bindings, RoutingTable,
}
use darwin_net.Proxy.Routing.Install.{bindings_of}
use darwin_net.Proxy.Routing.Pick.{
  Scoped, scoped, round_robin, advance, drop_binding, evict, record_binding, same_state, rebind,
  usable, refresh, pick_bound, pick_sticky,
}
use darwin_net.Proxy.Routing.Sticky.{bindings_of-drop_binding, evict-lookup}
use darwin_net.Proxy.Routing.Bounded.{
  Affinity, bindings-Affinity, put-Affinity, drop_binding-Affinity,
}

-- the account does not look at the states
abbrev pub SameAccount : RoutingTable → RoutingTable → Type 0
SameAccount t u =
    (u.affinity ≡ t.affinity)
    × (u.affinity_count ≡ t.affinity_count)
    × (u.max_affinity_per_port ≡ t.max_affinity_per_port)
    × (u.max_affinity_total ≡ t.max_affinity_total)

evicted-room :
    (t : RoutingTable) (key : PortKey) (client : Addr)
    → length (bindings_of (drop_binding t key client) key) < max 1 t.max_affinity_per_port
    → length (bindings_of (drop_binding t key client) key)
      < max 1 (drop_binding t key client).max_affinity_per_port
unfolding drop_binding
evicted-room t key client h = h

evict-Affinity :
    (t : RoutingTable) (key : PortKey)
    → Affinity t
    → Affinity (evict t key)
      × (length (bindings_of (evict t key) key) < max 1 (evict t key).max_affinity_per_port)
unfolding evict
evict-Affinity t key a = first (bindings_of t key) refl
  where
    first :
        (bs : Bindings)
        → bindings_of t key ≡ bs
        → Affinity (evict t key)
          × (length (bindings_of (evict t key) key) < max 1 (evict t key).max_affinity_per_port)
    first [] q = ground (arith, q, a)
    first ((k, b) ∷ rest) q =
        elim (Bool-cases (leb (max 1 t.max_affinity_per_port) (length (bindings_of t key)))) [
          | inr e ↦ ground (arith, e, q, a)
          | inl e ↦
              let u = drop_binding t key k in
              let at_head : elem k (keys (bindings_of t key)) ≡ true =
                ground (arith, q, ==_refl k) in
              let (d, l) = bindings-Affinity t key a in
              let shorter = length-delete k (bindings_of t key) d in
              let kept = drop_binding-Affinity t key k a at_head in
              let room : length (bindings_of u key) < max 1 t.max_affinity_per_port =
                ground (arith, bindings_of-drop_binding t key k, shorter, at_head, l) in
              let eq : evict t key ≡ u = ground (arith, e, q) in
              rw eq (kept, evicted-room t key k room)
        ]

record_binding-Affinity :
    (t : RoutingTable) (key : PortKey) (client : Addr) (be : Backend) (now : ℕ)
    → Affinity t
    → lookup client (bindings_of t key) ≡ none
    → length (bindings_of t key) < max 1 t.max_affinity_per_port
    → t.affinity_count < max 1 t.max_affinity_total
    → Affinity (record_binding t key client be now)
unfolding record_binding
record_binding-Affinity t key client be now a h l c =
    let b : AffinityBinding = record { backend = be; last_seen = now } in
    let longer = length-insert client b (bindings_of t key) in
    let absent = elem-keys-lookup client (bindings_of t key) in
    let size : length (insert client b (bindings_of t key)) ≡ length (bindings_of t key) + 1 =
      ground (arith, longer, absent, h) in
    put-Affinity t key (insert client b (bindings_of t key)) (t.affinity_count + 1) a
      (Distinct-insert client b (bindings_of t key) (bindings-Affinity t key a).0)
      (omega (arith, size, l)) (omega (arith, size)) (omega (arith, c))

refresh-Affinity :
    (t : RoutingTable) (key : PortKey) (st : PortState) (client : Addr) (b : AffinityBinding)
    (now : ℕ)
    → Affinity t
    → elem client (keys (bindings_of t key)) ≡ true
    → Affinity (refresh t key st client b now)
refresh-Affinity t key st client b now a h =
    let (d, l) = bindings-Affinity t key a in
    let same = length-insert client (record b { last_seen = now }) (bindings_of t key) in
    put-Affinity t key (insert client (record b { last_seen = now }) (bindings_of t key))
      t.affinity_count a
      (Distinct-insert client (record b { last_seen = now }) (bindings_of t key) d)
      (ground (arith, same, h, l)) (ground (arith, same, h)) a.3

pub same-Affinity : (t u : RoutingTable) → SameAccount t u → Affinity t → Affinity u
same-Affinity t u e a = ground (arith, e, a)

evict-total :
    (t : RoutingTable) (key : PortKey) → (evict t key).max_affinity_total ≡ t.max_affinity_total
unfolding evict drop_binding
evict-total t key = ground arith

rebind-Affinity :
    (t : RoutingTable) (key : PortKey) (client : Addr) (now : ℕ) (s : Scoped)
    → Affinity t
    → lookup client (bindings_of t key) ≡ none
    → Affinity (rebind t key client now s).0
unfolding rebind advance
rebind-Affinity t key client now s a h =
    let t0 = advance t key s.st in
    let t1 = evict t0 key in
    let (kept, room) = evict-Affinity t0 key (same-Affinity t t0 (refl, refl, refl, refl) a) in
    let absent = evict-lookup t0 key client h in
    let t2 : RoutingTable = record t1 { affinity_warned = false } in
    elim (Bool-cases (leb (max 1 t.max_affinity_total) t1.affinity_count)) [
      | inl e ↦
          let eq : (rebind t key client now s).0 ≡ record t1 { affinity_warned = true } =
            ground (arith, e) in
          rw eq
            (same-Affinity t1 (record t1 { affinity_warned = true }) (refl, refl, refl, refl) kept)
      | inr e ↦ elim (Bool-cases (same_state t2 key s.st)) [
        | inr f ↦
            let eq : (rebind t key client now s).0 ≡ t2 = ground (arith, e, f) in
            rw eq (same-Affinity t1 t2 (refl, refl, refl, refl) kept)
        | inl f ↦
            let be = round_robin s.st s.pool in
            let eq : (rebind t key client now s).0 ≡ record_binding t2 key client be now =
              ground (arith, e, f) in
            let under : t1.affinity_count < max 1 t1.max_affinity_total =
              ground (arith, e, evict-total t0 key) in
            let kept2 = same-Affinity t1 t2 (refl, refl, refl, refl) kept in
            rw eq (record_binding-Affinity t2 key client be now kept2 absent room under)
      ]
    ]

pick_bound-Affinity :
    (t : RoutingTable) (key : PortKey) (client : Addr) (now : ℕ) (s : Scoped)
    → Affinity t
    → Affinity (pick_bound t key client now s).0
unfolding pick_bound
pick_bound-Affinity t key client now s a = elim (Option-cases (lookup client (bindings_of t key))) [
  | inl e ↦
      let eq : pick_bound t key client now s ≡ rebind t key client now s = ground (arith, e) in
      rw eq (rebind-Affinity t key client now s a e)
  | inr (b, e) ↦
      let present : elem client (keys (bindings_of t key)) ≡ true =
        ground (arith, elem-keys-lookup client (bindings_of t key), e) in
      let u = drop_binding t key client in
      let gone : lookup client (bindings_of u key) ≡ none = ground (
        arith,
        bindings_of-drop_binding t key client,
        lookup-delete client client (bindings_of t key),
        ==_refl client,
      ) in
      elim (Bool-cases (usable s now b)) [
        | inl f ↦
            let eq : pick_bound t key client now s ≡ (refresh t key s.st client b now, b.backend) =
              ground (arith, e, f) in
            rw eq (refresh-Affinity t key s.st client b now a present)
        | inr f ↦
            let eq : pick_bound t key client now s ≡ rebind u key client now s =
              ground (arith, e, f) in
            rw eq (
              rebind-Affinity u key client now s (drop_binding-Affinity t key client a present)
                gone)
      ]
]

-- A pick keeps the account right, and both caps.
pub pick_sticky-Affinity :
    (t t' : RoutingTable) (key : PortKey) (client : Addr) (now : ℕ) (external : Bool) (be : Backend)
    → Affinity t
    → pick_sticky t key client now external ≡ ok (t', be)
    → Affinity t'
unfolding pick_sticky advance
pick_sticky-Affinity t t' key client now external be a h =
    elim (Result-cases (scoped t key external)) [
      | inr (e, f) ↦ ground (arith, f, h)
      | inl (s, f) ↦ elim (Bool-cases (is_client_ip s.st.affinity_mode)) [
        | inl g ↦
            let eq : pick_bound t key client now s ≡ (t', be) = ground (arith, f, g, h) in
            let bound = pick_bound-Affinity t key client now s a in
            let bound' = rw eq at bound in bound'
        | inr g ↦
            let eq : advance t key s.st ≡ t' = ground (arith, f, g, h) in
            rw (← eq) (same-Affinity t (advance t key s.st) (refl, refl, refl, refl) a)
      ]
    ]
