-- ===== src/Proxy/NodePort/Reachable.antt =====
-- Open and close of a node port, and every state that the operations reach.
use darwin_net.Prelude.{
  ℕ, ◌≡◌, arith, refl, true, false, not, ◌&&◌, List, [], ◌∷◌, none, some, ◌==◌, elem, Option-cases,
  Bool-cases, inl, inr, ==_refl, All, nat_eq, nat_beq_iff, Distinct,
}
use darwin_net.Prelude.Maps.{keys, lookup, delete, delete_absent, Distinct-delete}
use darwin_net.Netip.{Addr}
use darwin_net.Proxy.NodePort.{
  Sockets, BindAddr, bind_addr_eq, bind_addr_beq_iff, wildcard, specific, port_of, NodePortGroup,
  NodePortSet, NodePortSwap, new_node_port_set, bind_all, bind_addrs, set_node_port_addresses,
  prepare_node_port_addresses, open_port, close_port, finish,
}
use darwin_net.Proxy.NodePort.Binding.{SocketLaws, close_listeners_lem, bind_all_lem, BindsAll}
use darwin_net.Proxy.NodePort.Swap.{Groups, ports, Exact, covers, elem-bind_addrs}
use darwin_net.Proxy.NodePort.Refines.{
  Represents, set_node_port_addresses-Represents, prepare_failed, abort_restores,
}

-- every node port has an address to bind
first_bind :
    (addrs : List Addr) (p : ℕ)
    → (b : BindAddr) × (elem b (bind_addrs addrs p) ≡ true) × (port_of b ≡ p)
unfolding bind_addrs
first_bind [] p = (wildcard p, ground (arith, bind_addr_beq_iff (wildcard p) (wildcard p)), refl)
first_bind (a ∷ addrs) p =
    (specific a p, ground (arith, bind_addr_beq_iff (specific a p) (specific a p)), refl)

elem-ports_lookup :
    (i : ℕ) (g : NodePortGroup) (groups : Groups)
    → lookup i groups ≡ some g
    → elem g.port (ports groups) ≡ true
elem-ports_lookup i g [] h = absurd (ground (arith, h))
elem-ports_lookup i g ((j, f) ∷ groups) h =
    ground (arith, h, elem-ports_lookup i g groups, ==_refl g.port)

elem-ports_absent :
    (i p : ℕ) (groups : Groups)
    → elem p (ports groups) ≡ false
    → elem p (ports (delete i groups)) ≡ false
elem-ports_absent i p [] h = refl
elem-ports_absent i p ((j, f) ∷ groups) h = ground (arith, h, elem-ports_absent i p groups)

-- the ports that are left when a group is dropped
elem-ports_delete :
    (i p : ℕ) (g : NodePortGroup) (groups : Groups)
    → Distinct (ports groups)
    → Distinct (keys groups)
    → lookup i groups ≡ some g
    → elem p (ports (delete i groups)) ≡ (elem p (ports groups) && not (g.port == p))
elem-ports_delete i p g [] d k h = absurd (ground (arith, h))
elem-ports_delete i p g ((j, f) ∷ groups) d k h = ground (
  arith,
  h,
  d,
  k,
  nat_beq_iff j i,
  nat_beq_iff f.port p,
  nat_beq_iff g.port p,
  delete_absent i groups,
  elem-ports_delete i p g groups d.1 k.1,
  elem-ports_lookup i g groups,
)

Distinct-ports_delete :
    (i : ℕ) (groups : Groups) → Distinct (ports groups) → Distinct (ports (delete i groups))
Distinct-ports_delete i [] d = tt
Distinct-ports_delete i ((j, f) ∷ groups) d =
    ground (arith, d, Distinct-ports_delete i groups d.1, elem-ports_absent i f.port groups)

Exact-delete :
    (addrs : List Addr) (i : ℕ) (groups : Groups)
    → All (Exact addrs) groups
    → All (Exact addrs) (delete i groups)
Exact-delete addrs i [] h = tt
Exact-delete addrs i ((j, f) ∷ groups) h = elim (Bool-cases (j == i)) [
  | inl same ↦ rw same (Exact-delete addrs i groups h.1)
  | inr other ↦ rw other (h.0, Exact-delete addrs i groups h.1)
]

Exact-lookup :
    (addrs : List Addr) (i : ℕ) (g : NodePortGroup) (groups : Groups)
    → All (Exact addrs) groups
    → lookup i groups ≡ some g
    → Exact addrs (i, g)
Exact-lookup addrs i g [] all h = absurd (ground (arith, h))
Exact-lookup addrs i g ((j, f) ∷ groups) all h = elim (Bool-cases (j == i)) [
  | inl same ↦ let e : f ≡ g = ground (arith, h, same) in rw (← e) all.0
  | inr other ↦ Exact-lookup addrs i g groups all.1 (ground (arith, h, other))
]

module _ (net : Sockets) (laws : SocketLaws net) where
  open laws use {bound}

  pub open-Represents :
      (s : net.S) (np np' : NodePortSet) (i p : ℕ)
      → Represents net laws s np
      → elem i (keys np.groups) ≡ false
      → (open_port net s np i p).1 ≡ some np'
      → Represents net laws (open_port net s np i p).0 np'
  unfolding open_port
  open-Represents s np np' i p v fresh h =
      let want = bind_addrs np.addrs p in
      elim (Option-cases (bind_all net s want []).1) [
        | inl e ↦ let h' = rw (e, open_port) at h in absurd (ground (arith, h'))
        | inr (lns, e) ↦
            let h' = rw (e, open_port) at h in
            let made : record np { groups = (i, record { port = p; lns = lns }) ∷ np.groups }
                ≡ np' =
              ground (arith, h') in
            let binds : (b : BindAddr)
                → BindsAll net laws s want [] ((bind_all net s want []).0, some lns) b =
              λ b. let all = bind_all_lem net laws s want b in rw e at all in
            let (b0, in_want, at_p) = first_bind np.addrs p in
            let new_port : elem (port_of b0) (ports np.groups) ≡ false =
              ground (arith, binds b0, in_want, at_p, v.view b0, elem-bind_addrs np.addrs p b0) in
            rw (← made) (record {
              pointers = (fresh, v.pointers);
              distinct_ports = (rw at_p at new_port, v.distinct_ports);
              exact = (λ b. ground (arith, binds b), v.exact);
              view = λ b. ground (arith, binds b, v.view b, elem-bind_addrs np.addrs p b);
            })
      ]

  pub open_failed :
      (s : net.S) (np : NodePortSet) (i p : ℕ) (b : BindAddr)
      → (open_port net s np i p).1 ≡ none
      → bound (open_port net s np i p).0 b ≡ bound s b
  unfolding open_port
  open_failed s np i p b h = elim (Option-cases (bind_all net s (bind_addrs np.addrs p) []).1) [
    | inr (lns, e) ↦ let h' = rw (e, open_port) at h in absurd (ground (arith, h'))
    | inl e ↦
        let all = bind_all_lem net laws s (bind_addrs np.addrs p) b in
        let failed = rw e at all in ground (arith, failed)
  ]

  pub close-Represents :
      (s : net.S) (np : NodePortSet) (i : ℕ)
      → Represents net laws s np
      → Represents net laws (close_port net s np i).0 (close_port net s np i).1
  unfolding close_port
  close-Represents s np i v = elim (Option-cases (lookup i np.groups)) [
    | inl e ↦ rw (e, close_port) v
    | inr (g, e) ↦
        rw (e, close_port)
          (record {
            pointers = Distinct-delete i np.groups v.pointers;
            distinct_ports = Distinct-ports_delete i np.groups v.distinct_ports;
            exact = Exact-delete np.addrs i np.groups v.exact;
            view = λ b. ground (
              arith,
              v.view b,
              close_listeners_lem net laws s g.lns b,
              Exact-lookup np.addrs i g np.groups v.exact e b,
              elem-bind_addrs np.addrs g.port b,
              elem-ports_delete i (port_of b) g np.groups v.distinct_ports v.pointers e,
            );
          })
  ]

  -- One operation, run to its end; a swap holds the lock, so it is prepared and finished in one step.
  -- An open takes a pointer that no group has.
  pub data Step : net.S → NodePortSet → net.S → NodePortSet → Type 0 where
    opens :
        {s : net.S} {np np' : NodePortSet} (i p : ℕ)
        → elem i (keys np.groups) ≡ false
        → (open_port net s np i p).1 ≡ some np'
        → Step s np (open_port net s np i p).0 np'
    open_fails :
        {s : net.S} {np : NodePortSet} (i p : ℕ)
        → (open_port net s np i p).1 ≡ none
        → Step s np (open_port net s np i p).0 np
    closes :
        {s : net.S} {np : NodePortSet} (i : ℕ)
        → Step s np (close_port net s np i).0 (close_port net s np i).1
    sets :
        {s : net.S} {np : NodePortSet} (addrs : List Addr)
        → Step s np
            (set_node_port_addresses net s np addrs).0
            (set_node_port_addresses net s np addrs).1
    prepare_fails :
        {s : net.S} {np : NodePortSet} (addrs : List Addr)
        → (prepare_node_port_addresses net s np addrs).1 ≡ none
        → Step s np (prepare_node_port_addresses net s np addrs).0 np
    aborts :
        {s : net.S} {np : NodePortSet} {sw : NodePortSwap} (addrs : List Addr)
        → (prepare_node_port_addresses net s np addrs).1 ≡ some sw
        → Step s np (finish net (prepare_node_port_addresses net s np addrs).0 np sw false).0 np

  pub data Reach (start : net.S) (addrs : List Addr) : net.S → NodePortSet → Type 0 where
    begin : Reach start addrs start (new_node_port_set addrs)
    later :
        {s s' : net.S} {np np' : NodePortSet}
        → Reach start addrs s np
        → Step s np s' np'
        → Reach start addrs s' np'

  -- what is bound matters alone
  same_bound :
      (s s' : net.S) (np : NodePortSet)
      → Represents net laws s np
      → ((b : BindAddr) → bound s' b ≡ bound s b)
      → Represents net laws s' np
  same_bound s s' np v same = record {
    pointers = v.pointers;
    distinct_ports = v.distinct_ports;
    exact = v.exact;
    view = λ b. ground (arith, same b, v.view b);
  }

  Step-Represents :
      {s : net.S} {np : NodePortSet} {s' : net.S} {np' : NodePortSet}
      → Represents net laws s np
      → Step s np s' np'
      → Represents net laws s' np'
  Step-Represents {s} {np} {np'} v (opens i p fresh done) =
      open-Represents s np np' i p v fresh done
  Step-Represents {s} {np} v (open_fails i p failed) =
      same_bound s _ np v (λ b. open_failed s np i p b failed)
  Step-Represents {s} {np} v (closes i) = close-Represents s np i v
  Step-Represents {s} {np} v (sets addrs) =
      (set_node_port_addresses-Represents net laws s np addrs v).0
  Step-Represents {s} {np} v (prepare_fails addrs failed) =
      same_bound s _ np v (λ b. prepare_failed net laws s np addrs b v failed)
  Step-Represents {s} {np} v (aborts {sw} addrs done) =
      same_bound s _ np v (λ b. abort_restores net laws s np sw addrs b v done)

  pub Reach-Represents :
      {start : net.S} {addrs : List Addr} {s : net.S} {np : NodePortSet}
      → ((b : BindAddr) → bound start b ≡ false)
      → Reach start addrs s np
      → Represents net laws s np
  Reach-Represents idle begin = record {
    pointers = tt;
    distinct_ports = tt;
    exact = tt;
    view = λ b. ground (arith, idle b);
  }
  Reach-Represents idle (later r step) = Step-Represents (Reach-Represents idle r) step

-- In every state that opens, closes and swaps reach, the process listens at exactly the addresses
-- that the address set in force makes with the ports of the open node ports.
pub Reach-covers :
    (net : Sockets) (laws : SocketLaws net) (start s : net.S) (addrs : List Addr) (np : NodePortSet)
    (b : BindAddr)
    → ((c : BindAddr) → laws.bound start c ≡ false)
    → Reach net laws start addrs s np
    → laws.bound s b ≡ covers np.addrs (ports np.groups) b
Reach-covers net laws start s addrs np b idle r = (Reach-Represents net laws idle r).view b
