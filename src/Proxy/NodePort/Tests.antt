-- ===== src/Proxy/NodePort/Tests.antt =====
-- Concrete runs of the node-port set, over a process that keeps the list of its bound addresses and
-- cannot bind 10.0.0.9.
use darwin_net.Prelude.{
  ◌≡◌, refl, Bool, true, false, ◌||◌, List, [], ◌∷◌, Option, if◌then◌else◌, arith, ◌==◌, elem,
  elem-remove, remove,
}
use darwin_net.Netip.{Addr, v4}
use darwin_net.Proxy.NodePort.{
  Sockets, BindAddr, bind_addr_eq, bind_addr_beq_iff, specific, NetworkName, NodePortSet,
  new_node_port_set, open_port, set_node_port_addresses, prepare_node_port_addresses,
  prepare_groups, finish, bind_all, bind_addrs, missing, close_listeners, commit_groups,
  commit_group,
}
use darwin_net.Proxy.NodePort.Binding.{SocketLaws}
use darwin_net.Proxy.NodePort.Swap.{covers, ports}
use darwin_net.Proxy.NodePort.Refines.{Represents, set_node_port_addresses-Represents}
use darwin_net.Proxy.NodePort.Reachable.{
  opens, sets, Reach, begin, later, Reach-covers, Reach-Represents,
}

-- 10.0.0.9 and two addresses that can be bound
abbrev blocked : Addr
blocked = v4 167772169

abbrev first : Addr
first = v4 167772161

abbrev second : Addr
second = v4 167772162

abbrev refuses : BindAddr → Bool
refuses b = b == specific blocked 30080

abbrev toy_listen : List BindAddr → NetworkName → BindAddr → List BindAddr × Bool
toy_listen s n b = if elem b s || refuses b then (s, false) else (b ∷ s, true)

abbrev toy : Sockets
toy = record { S = List BindAddr; listen = toy_listen; close = λ s b. remove b s }

abbrev toy_laws : SocketLaws toy
toy_laws = record {
  bound = λ s b. elem b s;
  was_free = λ s n b h. ground arith;
  listened = λ s n b c h. ground arith;
  refused = λ s n b c h. ground arith;
  closed = λ s b c. ground (arith, elem-remove b c s, bind_addr_beq_iff b c);
}

abbrev idle : List BindAddr
idle = []

abbrev configured : NodePortSet
configured = new_node_port_set (first ∷ [])

-- one node port, then a swap of the addresses
abbrev after_open : List BindAddr × Option NodePortSet
after_open = open_port toy idle configured 0 30080

abbrev serving : NodePortSet
serving = record {
  addrs = first ∷ [];
  groups = (0, record { port = 30080; lns = specific first 30080 ∷ [] }) ∷ [];
}

abbrev listening : List BindAddr
listening = specific first 30080 ∷ []

opened : Reach toy toy_laws idle (first ∷ []) listening serving
unfolding open_port bind_all bind_addrs
opened = later begin (opens 0 30080 refl refl)

abbrev swapped : List BindAddr × NodePortSet × Bool
swapped = set_node_port_addresses toy listening serving (second ∷ [])

Reach-covers_example :
    elem (specific second 30080) swapped.0
    ≡ covers swapped.1.addrs (ports swapped.1.groups) (specific second 30080)
Reach-covers_example =
    Reach-covers toy toy_laws idle swapped.0 (first ∷ []) swapped.1 (specific second 30080)
      (λ c. refl) (later opened (sets (second ∷ [])))

-- the swap took place
swapped_lem : (swapped.0 ≡ specific second 30080 ∷ []) × (swapped.2 ≡ true)
unfolding set_node_port_addresses prepare_node_port_addresses prepare_groups bind_all missing
    bind_addrs finish commit_groups commit_group close_listeners
swapped_lem = (refl, refl)

serving-Represents : Represents toy toy_laws listening serving
serving-Represents = Reach-Represents toy toy_laws (λ b. refl) opened

set_node_port_addresses-Represents_example :
    Represents toy toy_laws swapped.0 swapped.1
    × (ports swapped.1.groups ≡ 30080 ∷ [])
    × (swapped.1.addrs ≡ (if swapped.2 then second ∷ [] else first ∷ []))
set_node_port_addresses-Represents_example =
    set_node_port_addresses-Represents toy toy_laws listening serving (second ∷ [])
      serving-Represents
