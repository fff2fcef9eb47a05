-- ===== src/Proxy/NodePort/Binding.antt =====
-- What bindAll and the closing of listeners do to the addresses that the process listens on.
use darwin_net.Prelude.{
  ℕ, ◌≡◌, arith, Bool, true, false, not, ◌&&◌, ◌||◌, List, [], ◌∷◌, Option, none, some, ◌==◌, elem,
  Bool-cases, inl, inr, map, nat_eq,
}
use darwin_net.Netip.{Addr}
use darwin_net.Proxy.NodePort.{
  Sockets, NetworkName, BindAddr, bind_addr_eq, bind_addr_beq_iff, close_listeners, bind_all, put,
  node_port_network, bind_addrs, port_of, wildcard, specific,
}

-- What the node-port set relies on of listen(2) and close(2): an address is taken by one listener of
-- the process at a time, a refused listen changes nothing, and a close frees its address alone.
pub record SocketLaws (net : Sockets) : Type 0 where
  pub bound : net.S → BindAddr → Bool
  pub was_free :
      (s : net.S) (n : NetworkName) (b : BindAddr) → (net.listen s n b).1 ≡ true → bound s b ≡ false
  pub listened :
      (s : net.S) (n : NetworkName) (b c : BindAddr)
      → (net.listen s n b).1 ≡ true
      → bound (net.listen s n b).0 c ≡ (bound s c || b == c)
  pub refused :
      (s : net.S) (n : NetworkName) (b c : BindAddr)
      → (net.listen s n b).1 ≡ false
      → bound (net.listen s n b).0 c ≡ bound s c
  pub closed : (s : net.S) (b c : BindAddr) → bound (net.close s b) c ≡ (bound s c && not (b == c))

elem-bind_addrs_map :
    (addrs : List Addr) (p : ℕ) (b : BindAddr)
    → elem b (map (λ a. specific a p) addrs) ≡ true
    → port_of b ≡ p
elem-bind_addrs_map [] p b h = absurd (ground arith)
elem-bind_addrs_map (a ∷ addrs) p b h =
    ground (arith, elem-bind_addrs_map addrs p b, bind_addr_beq_iff (specific a p) b)

-- every bind address of a node port has its port
pub elem-bind_addrs_port :
    (addrs : List Addr) (p : ℕ) (b : BindAddr) → elem b (bind_addrs addrs p) ≡ true → port_of b ≡ p
unfolding bind_addrs
elem-bind_addrs_port [] p b h = ground (arith, bind_addr_beq_iff (wildcard p) b)
elem-bind_addrs_port (a ∷ addrs) p b h = elem-bind_addrs_map (a ∷ addrs) p b h

module _ (net : Sockets) (laws : SocketLaws net) where
  open laws use {bound}

  pub close_listeners_lem :
      (s : net.S) (bs : List BindAddr) (c : BindAddr)
      → bound (close_listeners net s bs) c ≡ (bound s c && not (elem c bs))
  unfolding close_listeners
  close_listeners_lem s [] c = ground arith
  close_listeners_lem s (b ∷ bs) c =
      ground (arith, close_listeners_lem (net.close s b) bs c, laws.closed s b c)

  -- the addresses bound after a run of bindAll's loop, and the listeners it returns
  abbrev pub BindsAll :
      net.S → List BindAddr → List BindAddr → net.S × Option (List BindAddr) → BindAddr → Type 0
  BindsAll s want out (s', none) c = bound s' c ≡ (bound s c && not (elem c out))
  BindsAll s want out (s', some lns) c =
      (bound s' c ≡ (bound s c || elem c want))
      × ((bound s c && elem c want) ≡ false)
      × (elem c lns ≡ (elem c out || elem c want))

  elem-put : (b c : BindAddr) (out : List BindAddr) → elem c (put b out) ≡ (elem c out || b == c)
  elem-put b c out = ground (arith, bind_addr_beq_iff b c)

  BindsAll-step :
      (s s1 : net.S) (b : BindAddr) (want out : List BindAddr) (q : net.S × Option (List BindAddr))
      (c : BindAddr)
      → bound s b ≡ false
      → bound s1 c ≡ (bound s c || b == c)
      → BindsAll s1 want (put b out) q c
      → BindsAll s (b ∷ want) out q c
  BindsAll-step s s1 b want out (s', none) c free now rest =
      ground (arith, free, now, rest, elem-put b c out, bind_addr_beq_iff b c)
  BindsAll-step s s1 b want out (s', some lns) c free now rest =
      ground (arith, free, now, rest, elem-put b c out, bind_addr_beq_iff b c)

  bind_all_loop :
      (s : net.S) (want out : List BindAddr) (c : BindAddr)
      → BindsAll s want out (bind_all net s want out) c
  unfolding bind_all
  bind_all_loop s [] out c = ground arith
  bind_all_loop s (b ∷ want) out c =
      let n = node_port_network b in
      let s1 : net.S = (net.listen s n b).0 in
      elim (Bool-cases (net.listen s n b).1) [
        | inl done ↦
            rw (done, bind_all)
              (BindsAll-step s s1 b want out (bind_all net s1 want (put b out)) c
                (laws.was_free s n b done) (laws.listened s n b c done)
                (bind_all_loop s1 want (put b out) c))
        | inr failed ↦
            rw (failed, bind_all)
              (ground (arith, close_listeners_lem s1 out c, laws.refused s n b c failed))
      ]

  -- bindAll: all or nothing, and what it binds was free
  pub bind_all_lem :
      (s : net.S) (want : List BindAddr) (c : BindAddr)
      → BindsAll s want [] (bind_all net s want []) c
  bind_all_lem s want c = bind_all_loop s want [] c
