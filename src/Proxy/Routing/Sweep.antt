-- ===== src/Proxy/Routing/Sweep.antt =====
-- SweepExpired (affinity.go): the idle sweep, whose removals are dropBinding and dropAffinity.
use darwin_net.Prelude.{
  ℕ, ◌+◌, ◌≡◌, arith, true, if◌then◌else◌, List, [], ◌∷◌, none, some, ==_refl, elem, Distinct,
  is_nil, leb, max, Option-cases, Bool-cases, inl, inr,
}
use darwin_net.Prelude.Maps.{lookup, keys, Distinct-delete, elem-keys-delete}
use darwin_net.Netip.{Addr, addr_eq}
use darwin_net.Proxy.Routing.{PortKey, port_key_eq, Bindings, RoutingTable}
use darwin_net.Proxy.Routing.Install.{bindings_of, drop_affinity}
use darwin_net.Proxy.Routing.Pick.{drop_binding}
use darwin_net.Proxy.Routing.Sticky.{bindings_of-drop_binding}
use darwin_net.Proxy.Routing.Bounded.{
  Affinity, bindings-Affinity, drop_binding-Affinity, delete-PortsBounded, total-delete,
}

-- the loop over the bindings of one port, as they stood before it
unfoldable pub sweep_clients : ℕ → ℕ → PortKey → Bindings → RoutingTable → RoutingTable
unfolding drop_binding
sweep_clients now timeout key [] t = t
sweep_clients now timeout key ((client, b) ∷ binds) t =
    let next = if leb (b.last_seen + timeout) now then drop_binding t key client else t in
    sweep_clients now timeout key binds next

-- one port of the affinity map: without a state its bindings go wholesale
unfoldable pub sweep_port : ℕ → RoutingTable → PortKey → RoutingTable
unfolding sweep_clients drop_affinity
sweep_port now t key = elim (lookup key t.states) [
  | none ↦ drop_affinity t key
  | some st ↦
      let swept = sweep_clients now st.affinity_timeout key (bindings_of t key) t in
      if is_nil (bindings_of swept key) then drop_affinity swept key else swept
]

unfoldable pub sweep_keys : ℕ → List PortKey → RoutingTable → RoutingTable
unfolding sweep_port
sweep_keys now [] t = t
sweep_keys now (key ∷ ks) t = sweep_keys now ks (sweep_port now t key)

unfoldable pub sweep_expired : RoutingTable → ℕ → RoutingTable
unfolding sweep_keys
sweep_expired t now = sweep_keys now (keys t.affinity) t

pub drop_affinity-Affinity :
    (t : RoutingTable) (key : PortKey) → Affinity t → Affinity (drop_affinity t key)
unfolding drop_affinity
drop_affinity-Affinity t key a = (
  Distinct-delete key t.affinity a.0,
  delete-PortsBounded (max 1 t.max_affinity_per_port) key t.affinity a.1,
  omega (arith, a.2, total-delete key t.affinity a.0),
  omega (arith, a.3),
)

-- each client that is still to be visited has its binding
sweep_clients-Affinity :
    (now timeout : ℕ) (key : PortKey) (binds : Bindings) (t : RoutingTable)
    → Affinity t
    → Distinct (keys binds)
    → ((c : Addr) → elem c (keys binds) ≡ true → elem c (keys (bindings_of t key)) ≡ true)
    → Affinity (sweep_clients now timeout key binds t)
unfolding sweep_clients
sweep_clients-Affinity now timeout key [] t a d h = a
sweep_clients-Affinity now timeout key ((client, b) ∷ binds) t a d h =
    let here : elem client (keys (bindings_of t key)) ≡ true =
      h client (ground (arith, ==_refl client)) in
    let u = drop_binding t key client in
    let dropped =
      sweep_clients-Affinity now timeout key binds u (drop_binding-Affinity t key client a here) d.1
        (λ c e. ground (
          arith,
          h c,
          e,
          d.0,
          addr_eq.beq_iff client c,
          bindings_of-drop_binding t key client,
          elem-keys-delete client c (bindings_of t key),
        )) in
    let kept =
      sweep_clients-Affinity now timeout key binds t a d.1 (λ c e. ground (arith, h c, e)) in
    elim (Bool-cases (leb (b.last_seen + timeout) now)) [
      | inl idle ↦ rw (idle, sweep_clients) dropped
      | inr fresh ↦ rw (fresh, sweep_clients) kept
    ]

sweep_port-Affinity :
    (now : ℕ) (t : RoutingTable) (key : PortKey) → Affinity t → Affinity (sweep_port now t key)
unfolding sweep_port
sweep_port-Affinity now t key a = elim (Option-cases (lookup key t.states)) [
  | inl e ↦
      let eq : sweep_port now t key ≡ drop_affinity t key = ground (arith, e) in
      rw eq (drop_affinity-Affinity t key a)
  | inr (st, e) ↦
      let swept = sweep_clients now st.affinity_timeout key (bindings_of t key) t in
      let b =
        sweep_clients-Affinity now st.affinity_timeout key (bindings_of t key) t a
          (bindings-Affinity t key a).0 (λ c h. h) in
      elim (Bool-cases (is_nil (bindings_of swept key))) [
        | inl empty ↦
            let eq : sweep_port now t key ≡ drop_affinity swept key = ground (arith, e, empty) in
            rw eq (drop_affinity-Affinity swept key b)
        | inr some' ↦ let eq : sweep_port now t key ≡ swept = ground (arith, e, some') in rw eq b
      ]
]

sweep_keys-Affinity :
    (now : ℕ) (ks : List PortKey) (t : RoutingTable) → Affinity t → Affinity (sweep_keys now ks t)
unfolding sweep_keys
sweep_keys-Affinity now [] t a = a
sweep_keys-Affinity now (key ∷ ks) t a =
    sweep_keys-Affinity now ks (sweep_port now t key) (sweep_port-Affinity now t key a)

-- The idle sweep keeps the account right, and both caps.
pub sweep_expired-Affinity :
    (t : RoutingTable) (now : ℕ) → Affinity t → Affinity (sweep_expired t now)
unfolding sweep_expired
sweep_expired-Affinity t now a = sweep_keys-Affinity now (keys t.affinity) t a
