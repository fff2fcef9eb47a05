-- ===== src/Proxy/Transport.antt =====
-- The two addresses of a vm pod (proxy/routing.go: the transport overrides of a snapshot) and the source
-- that a dial binds (proxy/meshegress.go). The overrides are a map of the snapshot, kept apart here.
use darwin_net.Prelude.{
  ℕ, ◌≤◌, ◌<◌, ◌≡◌, arith, refl, Bool, true, false, not, ◌&&◌, ◌||◌, if◌then◌else◌, List, [], ◌∷◌,
  none, some, ◌==◌, nat_eq, ltb, ltb→lt, elem, Distinct, All, filter_by, Bool-cases, inl, inr,
  ==_refl,
}
use darwin_net.Prelude.Maps.{lookup, insert, lookup-insert}
use darwin_net.Netip.{Addr, addr_eq, zero_addr, Prefix, is_valid, unmap, prefix_valid, contains}
use darwin_net.Proxy.Routing.{AddrPort, RoutingTable, Locality, remote}
use darwin_net.Proxy.Routing.Install.{classify}

pub record VmPodTransport : Type 0 where
  pub live : Addr
  pub ports : List ℕ

abbrev pub Transport : Type 0
Transport = List (Addr × VmPodTransport)

unfoldable pub insert_port : ℕ → List ℕ → List ℕ
insert_port p [] = p ∷ []
insert_port p (q ∷ qs) = let rest = insert_port p qs in if ltb q p then q ∷ rest else p ∷ q ∷ qs

unfoldable pub sort_ports : List ℕ → List ℕ
unfolding insert_port
sort_ports [] = []
sort_ports (p ∷ ps) = insert_port p (sort_ports ps)

-- slices.Compact: of equal neighbours one is kept
unfoldable pub compact : List ℕ → List ℕ
compact [] = []
compact (p ∷ []) = p ∷ []
compact (p ∷ q ∷ ps) = let rest = compact (q ∷ ps) in if p == q then rest else p ∷ rest

unfoldable pub normalize_ports : List ℕ → List ℕ
unfolding sort_ports compact
normalize_ports ports = compact (sort_ports (filter_by (λ p. not (p == 0)) ports))

-- the loop of SetTransportOverrides, over the overrides in the order of the visit
unfoldable pub collect_overrides : Transport → Transport → Transport
unfolding normalize_ports
collect_overrides [] next = next
collect_overrides ((published, tr) ∷ overrides) next =
    if not (is_valid published) || not (is_valid tr.live)
    then collect_overrides overrides next
    else collect_overrides overrides (
        insert (unmap published) (record { live = unmap tr.live; ports = normalize_ports tr.ports })
          next)

unfoldable pub set_transport_overrides : Transport → Transport
unfolding collect_overrides
set_transport_overrides overrides = collect_overrides overrides []

unfoldable pub transport_addr : Transport → AddrPort → AddrPort
transport_addr transport published = elim (lookup (unmap published.ip) transport) [
  | none ↦ published
  | some tr ↦ record { ip = tr.live; port = published.port }
]

pub record EgressScope : Type 0 where
  pub src : Addr
  pub cluster_cidr : Prefix

abbrev pub is_remote : Locality → Bool
is_remote remote = true
is_remote _ = false

unfoldable pub source_for : EgressScope → Locality → Addr → Addr
source_for s loc dst =
    if not (is_valid s.src) || not (prefix_valid s.cluster_cidr)
    then zero_addr
    else if not (is_remote loc)
    then zero_addr
    else if not (contains s.cluster_cidr (unmap dst))
    then zero_addr
    else s.src

-- A dial whose locality is that of its address binds a source only for an address of the pod aggregate
-- outside the node's own podCIDR, and then binds the scope's source.
pub source_for-off_node :
    (t : RoutingTable) (s : EgressScope) (dst : Addr)
    → is_valid (source_for s (classify t dst) dst) ≡ true
    → (source_for s (classify t dst) dst ≡ s.src)
      × (contains s.cluster_cidr (unmap dst) ≡ true)
      × (contains t.pod_cidr (unmap dst) ≡ false)
unfolding source_for classify
source_for-off_node t s dst h = ground (arith, h)

elem-insert_port : (p q : ℕ) (qs : List ℕ) → elem p (insert_port q qs) ≡ ((q == p) || elem p qs)
unfolding insert_port
elem-insert_port p q [] = refl
elem-insert_port p q (r ∷ qs) = ground (arith, elem-insert_port p q qs)

elem-sort_ports : (p : ℕ) (ps : List ℕ) → elem p (sort_ports ps) ≡ elem p ps
unfolding sort_ports
elem-sort_ports p [] = refl
elem-sort_ports p (q ∷ ps) =
    ground (arith, elem-insert_port p q (sort_ports ps), elem-sort_ports p ps)

elem-compact : (p : ℕ) (ps : List ℕ) → elem p (compact ps) ≡ elem p ps
unfolding compact
elem-compact p [] = refl
elem-compact p (q ∷ []) = refl
elem-compact p (q ∷ r ∷ ps) = ground (arith, elem-compact p (r ∷ ps))

-- no neighbour is smaller
abbrev pub Ascending : List ℕ → Type 0
Ascending [] = Unit
Ascending (p ∷ ps) = All (λ q. p ≤ q) ps × Ascending ps

All-le_trans : (p q : ℕ) (ps : List ℕ) → p ≤ q → All (λ r. q ≤ r) ps → All (λ r. p ≤ r) ps
All-le_trans p q [] h a = tt
All-le_trans p q (r ∷ ps) h a = (omega (arith, a.0), All-le_trans p q ps h a.1)

insert_port-All :
    (p q : ℕ) (qs : List ℕ) → p ≤ q → All (λ r. p ≤ r) qs → All (λ r. p ≤ r) (insert_port q qs)
unfolding insert_port
insert_port-All p q [] h a = (h, tt)
insert_port-All p q (r ∷ qs) h a = ground (arith, h, a.0, a.1, insert_port-All p q qs h a.1)

insert_port-Ascending : (p : ℕ) (ps : List ℕ) → Ascending ps → Ascending (insert_port p ps)
unfolding insert_port
insert_port-Ascending p [] a = (tt, tt)
insert_port-Ascending p (q ∷ qs) a = elim (Bool-cases (ltb q p)) [
  | inl e ↦ ground (
    arith,
    e,
    insert_port-All q p qs (omega (arith, ltb→lt q p e)) a.0,
    insert_port-Ascending p qs a.1,
  )
  | inr e ↦ let h : p ≤ q = ground (arith, e) in ground (arith, e, h, a, All-le_trans p q qs h a.0)
]

sort_ports-Ascending : (ps : List ℕ) → Ascending (sort_ports ps)
unfolding sort_ports
sort_ports-Ascending [] = tt
sort_ports-Ascending (p ∷ ps) = insert_port-Ascending p (sort_ports ps) (sort_ports-Ascending ps)

not_below : (p : ℕ) (ps : List ℕ) → All (λ q. p < q) ps → elem p ps ≡ false
not_below p [] a = refl
not_below p (q ∷ ps) a = ground (arith, a.0, not_below p ps a.1)

All-lt_le : (p q : ℕ) (ps : List ℕ) → p < q → All (λ r. q ≤ r) ps → All (λ r. p < r) ps
All-lt_le p q [] h a = tt
All-lt_le p q (r ∷ ps) h a = (omega (arith, h, a.0), All-lt_le p q ps h a.1)

compact-Distinct : (ps : List ℕ) → Ascending ps → Distinct (compact ps)
unfolding compact
compact-Distinct [] a = tt
compact-Distinct (p ∷ []) a = (refl, tt)
compact-Distinct (p ∷ q ∷ ps) a = elim (Bool-cases (p == q)) [
  | inl e ↦ ground (arith, e, compact-Distinct (q ∷ ps) a.1)
  | inr e ↦
      let h : p < q = ground (arith, e, a.0.0) in
      let above : All (λ r. p < r) (q ∷ ps) = (h, All-lt_le p q ps h a.1.0) in
      ground (
        arith,
        e,
        compact-Distinct (q ∷ ps) a.1,
        elem-compact p (q ∷ ps),
        not_below p (q ∷ ps) above,
      )
]

elem-nonzero :
    (p : ℕ) (ps : List ℕ) → elem p (filter_by (λ q. not (q == 0)) ps) ≡ (elem p ps && not (p == 0))
elem-nonzero p [] = refl
elem-nonzero p (q ∷ ps) = ground (arith, elem-nonzero p ps)

-- The normalized ports are the ports but 0, each once.
pub normalize_ports-exact :
    (ports : List ℕ) (p : ℕ)
    → Distinct (normalize_ports ports)
      × (elem p (normalize_ports ports) ≡ (elem p ports && not (p == 0)))
unfolding normalize_ports
normalize_ports-exact ports p =
    let kept = filter_by (λ q. not (q == 0)) ports in
    (
      compact-Distinct (sort_ports kept) (sort_ports-Ascending kept),
      ground
          (arith, elem-compact p (sort_ports kept), elem-sort_ports p kept, elem-nonzero p ports),
    )

abbrev pub published_of : Transport → List Addr
published_of [] = []
published_of ((published, tr) ∷ overrides) = unmap published ∷ published_of overrides

collect_overrides-other :
    (overrides next : Transport) (a : Addr)
    → elem a (published_of overrides) ≡ false
    → lookup a (collect_overrides overrides next) ≡ lookup a next
unfolding collect_overrides
collect_overrides-other [] next a h = refl
collect_overrides-other ((published, tr) ∷ overrides) next a h =
    let entry : VmPodTransport = record {
      live = unmap tr.live;
      ports = normalize_ports tr.ports;
    } in
    ground (
      arith,
      h,
      collect_overrides-other overrides next a,
      collect_overrides-other overrides (insert (unmap published) entry next) a,
      lookup-insert (unmap published) a entry next,
    )

-- With a valid override whose published address no other one shares, a dial to that address goes to
-- the live address on the same port; a dial to an address without an override is left alone.
pub transport_addr-exact :
    (overrides : Transport) (published : Addr) (tr : VmPodTransport) (a b : Addr) (port : ℕ)
    → is_valid published ≡ true
    → is_valid tr.live ≡ true
    → elem (unmap published) (published_of overrides) ≡ false
    → unmap a ≡ unmap published
    → elem (unmap b) (unmap published ∷ published_of overrides) ≡ false
    → let t = set_transport_overrides ((published, tr) ∷ overrides) in
      (transport_addr t (record { ip = a; port = port })
        ≡ record { ip = unmap tr.live; port = port })
      × (transport_addr t (record { ip = b; port = port }) ≡ record { ip = b; port = port })
unfolding set_transport_overrides collect_overrides transport_addr
transport_addr-exact overrides published tr a b port v w alone same other =
    let entry : VmPodTransport = record {
      live = unmap tr.live;
      ports = normalize_ports tr.ports;
    } in
    let next : Transport = insert (unmap published) entry [] in
    let at_own = collect_overrides-other overrides next (unmap published) alone in
    let at_other = collect_overrides-other overrides next (unmap b) (ground (arith, other)) in
    (
      ground (arith, v, w, same, at_own, ==_refl (unmap published)),
      ground (arith, v, w, other, at_other),
    )
