-- ===== src/Proxy/Routing/Generations.antt =====
-- The generation of a port's metadata (routing.go: advanceMeta and sameInstall).
use darwin_net.Prelude.{
  ℕ, ◌≡◌, arith, refl, true, List, [], ◌∷◌, none, some, ==_refl, Option-cases, inl, inr, string_eq,
  nat_eq,
}
use text.Mathlib.TextEquality.{eq_iff}
use darwin_net.Prelude.Maps.{lookup, lookup-insert}
use darwin_net.Netip.{addr_eq}
use darwin_net.Proxy.Routing.{
  AddrPort, addr_port_eq, PortKey, port_key_eq, TrafficPolicy, traffic_local, traffic_cluster,
  AffinityConfig, Backend, addrs, KeyMeta, RoutingTable,
}
use darwin_net.Proxy.Routing.Install.{
  ServiceRef, locals_of, all_in, same_addr_set, policy_beq, same_install, next_meta, advance_meta,
  with_state, drop_affinity, install_ready,
}
use darwin_net.Proxy.Routing.Installed.{install_ready-state}

all_in_cons :
    (set : List AddrPort) (a : AddrPort) (bs : List Backend)
    → all_in set bs ≡ true
    → all_in (a ∷ set) bs ≡ true
all_in_cons set a [] h = refl
all_in_cons set a (b ∷ bs) h = ground (arith, h, all_in_cons set a bs)

all_in_self : (bs : List Backend) → all_in (addrs bs) bs ≡ true
all_in_self [] = refl
all_in_self (b ∷ bs) =
    ground (arith, ==_refl b.addr, all_in_cons (addrs bs) b.addr bs (all_in_self bs))

same_addr_set_self : (bs : List Backend) → same_addr_set bs bs ≡ true
unfolding same_addr_set
same_addr_set_self bs = ground (arith, all_in_self bs)

-- the generation that a key's metadata holds
abbrev pub generation : RoutingTable → PortKey → ℕ
generation t key = elim (lookup key t.meta) [ none ↦ 0 | some m ↦ m.gen ]

install_ready-meta :
    (t : RoutingTable) (key : PortKey) (svc : ServiceRef) (ready : List Backend)
    (policy : TrafficPolicy) (aff : AffinityConfig)
    → lookup key (install_ready t key svc ready policy aff).0.meta
      ≡ some (next_meta t key svc ready (locals_of ready) policy)
unfolding install_ready with_state drop_affinity advance_meta
install_ready-meta t key svc ready policy aff = ground (
  arith,
  lookup-insert key key (next_meta t key svc ready (locals_of ready) policy) t.meta,
  ==_refl key,
)

next_meta-names :
    (t : RoutingTable) (key : PortKey) (svc : ServiceRef) (ready locals : List Backend)
    (policy : TrafficPolicy)
    → ((next_meta t key svc ready locals policy).namespace ≡ svc.namespace)
      × ((next_meta t key svc ready locals policy).name ≡ svc.name)
      × ((next_meta t key svc ready locals policy).policy ≡ policy)
unfolding next_meta
next_meta-names t key svc ready locals policy = elim (Option-cases (lookup key t.meta)) [
  | inl e ↦ ground (arith, e)
  | inr (m, e) ↦ ground (arith, e, eq_iff m.namespace svc.namespace, eq_iff m.name svc.name)
]

next_meta-same :
    (t : RoutingTable) (key : PortKey) (svc : ServiceRef) (ready locals : List Backend)
    (policy : TrafficPolicy) (m : KeyMeta)
    → lookup key t.meta ≡ some m
    → m.namespace ≡ svc.namespace
    → m.name ≡ svc.name
    → same_install (lookup key t.states) m.policy ready locals policy ≡ true
    → (next_meta t key svc ready locals policy).gen ≡ m.gen
unfolding next_meta
next_meta-same t key svc ready locals policy m e n n' h =
    ground (arith, e, h, eq_iff m.namespace svc.namespace, eq_iff m.name svc.name, n, n')

policy_beq_self : (p : TrafficPolicy) → policy_beq p p ≡ true
policy_beq_self traffic_local = refl
policy_beq_self traffic_cluster = refl

-- the state that an install leaves is the one that the same install would leave
installed-same :
    (t : RoutingTable) (key : PortKey) (svc : ServiceRef) (ready : List Backend)
    (policy p : TrafficPolicy) (aff : AffinityConfig)
    → p ≡ policy
    → same_install
        (lookup key (install_ready t key svc ready policy aff).0.states)
        p
        ready
        (locals_of ready)
        policy
      ≡ true
unfolding same_install
installed-same t key svc ready policy p aff e = ground (
  arith,
  e,
  policy_beq_self policy,
  install_ready-state t key svc ready policy aff,
  same_addr_set_self ready,
  same_addr_set_self (locals_of ready),
)

-- Installing the same Ready set of the same Service with the same policy again does not advance the
-- port's generation.
pub install_ready-generation :
    (t : RoutingTable) (key : PortKey) (svc : ServiceRef) (ready : List Backend)
    (policy : TrafficPolicy) (aff aff' : AffinityConfig)
    → generation
        (install_ready (install_ready t key svc ready policy aff).0 key svc ready policy aff').0
        key
      ≡ generation (install_ready t key svc ready policy aff).0 key
install_ready-generation t key svc ready policy aff aff' =
    let t1 = (install_ready t key svc ready policy aff).0 in
    let m = next_meta t key svc ready (locals_of ready) policy in
    let (n, n', p) = next_meta-names t key svc ready (locals_of ready) policy in
    let first = install_ready-meta t key svc ready policy aff in
    let second = install_ready-meta t1 key svc ready policy aff' in
    let same = installed-same t key svc ready policy m.policy aff p in
    ground (
      arith,
      first,
      second,
      next_meta-same t1 key svc ready (locals_of ready) policy m first n n' same,
    )
