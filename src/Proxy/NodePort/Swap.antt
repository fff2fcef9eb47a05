-- ===== src/Proxy/NodePort/Swap.antt =====
-- A swap of the address set: what Prepare binds, and what Commit and Abort leave bound.
use darwin_net.Prelude.{
  ℕ, ◌≡◌, arith, refl, Bool, false, not, ◌&&◌, ◌||◌, List, [], ◌∷◌, Option, none, some, ◌==◌, elem,
  Bool-cases, Option-cases, inl, inr, ==_refl, All, nat_eq, elem-filter_by, nat_beq_iff,
}
use darwin_net.Netip.{Addr}
use darwin_net.Proxy.NodePort.{
  Sockets, BindAddr, bind_addr_eq, NodePortGroup, close_listeners, bind_all, bind_addrs, port_of,
  missing, prepare_groups, close_added,
}
use darwin_net.Proxy.NodePort.Binding.{
  SocketLaws, elem-bind_addrs_port, close_listeners_lem, bind_all_lem, BindsAll,
}

abbrev pub Groups : Type 0
Groups = List (ℕ × NodePortGroup)

abbrev pub ports : Groups → List ℕ
ports [] = []
ports ((i, g) ∷ groups) = g.port ∷ ports groups

-- a group listens exactly on the set's addresses at its port
abbrev pub Exact : List Addr → ℕ × NodePortGroup → Type 0
Exact addrs (i, g) = (b : BindAddr) → elem b g.lns ≡ elem b (bind_addrs addrs g.port)

-- the addresses at which a set of node ports listens
abbrev pub covers : List Addr → List ℕ → BindAddr → Bool
covers addrs ps b = elem (port_of b) ps && elem b (bind_addrs addrs (port_of b))

-- whether the added listeners include one at b
abbrev pub in_added : List (ℕ × List BindAddr) → BindAddr → Bool
in_added [] b = false
in_added ((i, lns) ∷ added) b = elem b lns || in_added added b

pub elem-bind_addrs :
    (addrs : List Addr) (p : ℕ) (b : BindAddr)
    → elem b (bind_addrs addrs p) ≡ ((p == port_of b) && elem b (bind_addrs addrs (port_of b)))
elem-bind_addrs addrs p b = elim (Bool-cases (p == port_of b)) [
  | inl same ↦
      let e : p ≡ port_of b = (nat_beq_iff p (port_of b)).0 same in rw (e, ==_refl (port_of b)) refl
  | inr differ ↦ ground (arith, elem-bind_addrs_port addrs p b)
]

pub elem-missing :
    (want : List Addr) (g : NodePortGroup) (b : BindAddr)
    → elem b (missing want g) ≡ (elem b (bind_addrs want g.port) && not (elem b g.lns))
unfolding missing
elem-missing want g b = elem-filter_by (λ c. not (elem c g.lns)) b (bind_addrs want g.port)

module _ (net : Sockets) (laws : SocketLaws net) where
  open laws use {bound}

  pub close_added_lem :
      (s : net.S) (added : List (ℕ × List BindAddr)) (b : BindAddr)
      → bound (close_added net s added) b ≡ (bound s b && not (in_added added b))
  unfolding close_added
  close_added_lem s [] b = ground arith
  close_added_lem s ((i, lns) ∷ added) b = ground (
    arith,
    close_added_lem (close_listeners net s lns) added b,
    close_listeners_lem net laws s lns b,
  )

  -- what Prepare leaves at an address: on a failure what it found, less the listeners it had opened
  abbrev pub Prepares :
      net.S
      → List Addr
      → List Addr
      → Groups
      → List (ℕ × List BindAddr)
      → net.S × Option (List (ℕ × List BindAddr))
      → BindAddr
      → Type 0
  Prepares s old want groups added (s', none) b = bound s' b ≡ (bound s b && not (in_added added b))
  Prepares s old want groups added (s', some added') b =
      let fresh = covers want (ports groups) b && not (covers old (ports groups) b) in
      (bound s' b ≡ (bound s b || fresh))
      × ((bound s b && fresh) ≡ false)
      × (in_added added' b ≡ (in_added added b || fresh))

  Prepares-step :
      (s s1 : net.S) (old want : List Addr) (i : ℕ) (g : NodePortGroup) (groups : Groups)
      (added : List (ℕ × List BindAddr)) (lns : List BindAddr)
      (q : net.S × Option (List (ℕ × List BindAddr))) (b : BindAddr)
      → Exact old (i, g)
      → BindsAll net laws s (missing want g) [] (s1, some lns) b
      → Prepares s1 old want groups ((i, lns) ∷ added) q b
      → Prepares s old want ((i, g) ∷ groups) added q b
  Prepares-step s s1 old want i g groups added lns (s', none) b exact first rest =
      ground (arith, first, rest)
  Prepares-step s s1 old want i g groups added lns (s', some added') b exact first rest = ground (
    arith,
    first,
    rest,
    exact b,
    elem-missing want g b,
    elem-bind_addrs want g.port b,
    elem-bind_addrs old g.port b,
  )

  pub prepare_groups_lem :
      (s : net.S) (old want : List Addr) (groups : Groups) (added : List (ℕ × List BindAddr))
      (b : BindAddr)
      → All (Exact old) groups
      → Prepares s old want groups added (prepare_groups net s want groups added) b
  unfolding prepare_groups
  prepare_groups_lem s old want [] added b exact = ground arith
  prepare_groups_lem s old want ((i, g) ∷ groups) added b exact =
      elim (Option-cases (bind_all net s (missing want g) []).1) [
        | inl failed ↦
            let all = bind_all_lem net laws s (missing want g) b in
            let s1 : net.S = (bind_all net s (missing want g) []).0 in
            let same = rw failed at all in
            rw (failed, prepare_groups) (ground (arith, same, close_added_lem s1 added b))
        | inr (lns, opened) ↦
            let all = bind_all_lem net laws s (missing want g) b in
            let s1 : net.S = (bind_all net s (missing want g) []).0 in
            let first : BindsAll net laws s (missing want g) [] (s1, some lns) b =
              rw opened at all in
            rw (opened, prepare_groups)
              (Prepares-step s s1 old want i g groups added lns _ b exact.0 first
                (prepare_groups_lem s1 old want groups ((i, lns) ∷ added) b exact.1))
      ]
