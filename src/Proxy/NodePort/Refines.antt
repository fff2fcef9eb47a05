-- ===== src/Proxy/NodePort/Refines.antt =====
-- The abstract node-port set is an address set and the open ports; a state of the process represents
-- it when it listens at exactly the addresses that the two make.
use darwin_net.Prelude.{
  ℕ, ◌≡◌, arith, refl, false, List, [], none, some, if◌then◌else◌, Option-cases, inl, inr, All,
  nat_eq, Distinct,
}
use darwin_net.Prelude.Maps.{keys}
use darwin_net.Netip.{Addr}
use darwin_net.Proxy.NodePort.{
  Sockets, BindAddr, bind_addr_eq, NodePortSet, NodePortSwap, prepare_groups,
  prepare_node_port_addresses, set_node_port_addresses, finish, valid_unmapped, commit_groups,
}
use darwin_net.Proxy.NodePort.Binding.{SocketLaws}
use darwin_net.Proxy.NodePort.Swap.{
  ports, Exact, covers, Prepares, prepare_groups_lem, close_added_lem,
}
use darwin_net.Proxy.NodePort.Commit.{
  prepare_groups-Added, commit_groups_bound, commit_groups-Exact,
}

module _ (net : Sockets) (laws : SocketLaws net) where
  open laws use {bound}

  pub record Represents (s : net.S) (np : NodePortSet) : Type 0 where
    pub pointers : Distinct (keys np.groups)
    pub distinct_ports : Distinct (ports np.groups)
    pub exact : All (Exact np.addrs) np.groups
    pub view : (b : BindAddr) → bound s b ≡ covers np.addrs (ports np.groups) b

  -- Prepare, from a state that represents its set
  prepare_lem :
      (s : net.S) (np : NodePortSet) (want : List Addr) (b : BindAddr)
      → Represents s np
      → Prepares net laws s np.addrs want np.groups [] (prepare_groups net s want np.groups []) b
  prepare_lem s np want b v = prepare_groups_lem net laws s np.addrs want np.groups [] b v.exact

  -- A Prepare that fails, from a state that represents its set, leaves every address as it was.
  pub prepare_failed :
      (s : net.S) (np : NodePortSet) (addrs : List Addr) (b : BindAddr)
      → Represents s np
      → (prepare_node_port_addresses net s np addrs).1 ≡ none
      → bound (prepare_node_port_addresses net s np addrs).0 b ≡ bound s b
  unfolding prepare_node_port_addresses
  prepare_failed s np addrs b v h =
      elim (Option-cases (prepare_groups net s (valid_unmapped addrs) np.groups []).1) [
        | inr (added, e) ↦
            let h' = rw (e, prepare_node_port_addresses) at h in absurd (ground (arith, h'))
        | inl e ↦
            let all = prepare_lem s np (valid_unmapped addrs) b v in
            let failed = rw e at all in ground (arith, failed)
      ]

  -- so does a Prepare that is aborted
  pub abort_restores :
      (s : net.S) (np : NodePortSet) (sw : NodePortSwap) (addrs : List Addr) (b : BindAddr)
      → Represents s np
      → (prepare_node_port_addresses net s np addrs).1 ≡ some sw
      → bound (finish net (prepare_node_port_addresses net s np addrs).0 np sw false).0 b
        ≡ bound s b
  unfolding prepare_node_port_addresses finish
  abort_restores s np sw addrs b v h =
      elim (Option-cases (prepare_groups net s (valid_unmapped addrs) np.groups []).1) [
        | inl e ↦ let h' = rw (e, prepare_node_port_addresses) at h in absurd (ground (arith, h'))
        | inr (added, e) ↦
            let h' = rw (e, prepare_node_port_addresses) at h in
            let s1 : net.S = (prepare_groups net s (valid_unmapped addrs) np.groups []).0 in
            let all = prepare_lem s np (valid_unmapped addrs) b v in
            let opened = rw e at all in
            let same_added : sw.added ≡ added = ground (arith, h') in
            let unfinished : sw.finished ≡ false = ground (arith, h') in
            rw (unfinished, same_added, finish)
              (ground (arith, opened, close_added_lem net laws s1 added b))
      ]

  -- the state after a Prepare that succeeded and its Commit
  commit-Represents :
      (s : net.S) (np : NodePortSet) (want : List Addr) (added : List (ℕ × List BindAddr))
      → Represents s np
      → (prepare_groups net s want np.groups []).1 ≡ some added
      → let q =
          commit_groups net
            (prepare_groups net s want np.groups []).0
            (record { addrs = want; added = added; finished = false })
            np.groups in
        Represents q.0 (record { addrs = want; groups = q.1 }) × (ports q.1 ≡ ports np.groups)
  commit-Represents s np want added v e =
      let s1 : net.S = (prepare_groups net s want np.groups []).0 in
      let sw : NodePortSwap = record { addrs = want; added = added; finished = false } in
      let held = prepare_groups-Added net laws want s np.groups [] added v.pointers e in
      let (exact, same_ports, same_keys) =
        commit_groups-Exact net laws s1 np.addrs sw np.groups v.exact held in
      (
        record {
          pointers = rw same_keys v.pointers;
          distinct_ports = rw same_ports v.distinct_ports;
          exact = exact;
          view = λ b.
              let all = prepare_lem s np want b v in
              let opened = rw e at all in
              rw same_ports (
                ground (
                  arith,
                  opened,
                  v.view b,
                  commit_groups_bound net laws s1 np.addrs sw np.groups b v.exact,
                ));
        },
        same_ports,
      )

  -- SetNodePortAddresses takes a state that represents its set to one that does: with the valid
  -- addresses it was given when it succeeds, with the old ones when it fails, and with the same ports
  -- either way.
  pub set_node_port_addresses-Represents :
      (s : net.S) (np : NodePortSet) (addrs : List Addr)
      → Represents s np
      → let q = set_node_port_addresses net s np addrs in
        Represents q.0 q.1
        × (ports q.1.groups ≡ ports np.groups)
        × (q.1.addrs ≡ (if q.2 then valid_unmapped addrs else np.addrs))
  unfolding set_node_port_addresses prepare_node_port_addresses finish
  set_node_port_addresses-Represents s np addrs v =
      elim (Option-cases (prepare_groups net s (valid_unmapped addrs) np.groups []).1) [
        | inl e ↦
            rw (e, set_node_port_addresses)
              (
                record {
                  pointers = v.pointers;
                  distinct_ports = v.distinct_ports;
                  exact = v.exact;
                  view = λ b.
                      let all = prepare_lem s np (valid_unmapped addrs) b v in
                      let failed = rw e at all in ground (arith, failed, v.view b);
                },
                refl,
                refl,
              )
        | inr (added, e) ↦
            let (v', same) = commit-Represents s np (valid_unmapped addrs) added v e in
            rw (e, set_node_port_addresses, prepare_node_port_addresses, finish) (v', same, refl)
      ]
