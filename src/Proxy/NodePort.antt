-- ===== src/Proxy/NodePort.antt =====
-- The node-port set (pkg/proxy/nodeportset.go): every NodePort listens on one address set, which is
-- swapped for all of them at once. A listener is known by the address that it is bound to; the network
-- stack is a parameter. A prepared swap holds the set's lock until it is finished, so no other
-- operation comes between. Serving a listener is not modelled.
pub mod Binding
pub mod Swap
pub mod Commit
pub mod Refines
pub mod Reachable
mod Tests
use darwin_net.Prelude.{
  ℕ, ◌≡◌, ◌↔◌, arith, Bool, true, false, not, ◌&&◌, if◌then◌else◌, List, [], ◌∷◌, ◌++◌, Option,
  none, some, Result, ok, err, Eq, ◌==◌, nat_eq, nat_beq, elem, map, is_nil, filter_by,
}
use darwin_net.Prelude.Maps.{lookup, insert, delete, keys}
use darwin_net.Netip.{Addr, v4, is4, is6, is_valid, unmap, addr_eq, addr_beq, addr_beq_iff}

-- ":port", or "addr:port"
pub data BindAddr : Type 0 where
  wildcard : ℕ → BindAddr
  specific : Addr → ℕ → BindAddr

abbrev pub bind_addr_beq : BindAddr → BindAddr → Bool
bind_addr_beq (wildcard p) (wildcard q) = nat_beq p q
bind_addr_beq (specific a p) (specific b q) = addr_beq a b && nat_beq p q
bind_addr_beq _ _ = false

pub bind_addr_beq_iff : (a b : BindAddr) → (bind_addr_beq a b ≡ true) ↔ (a ≡ b)
bind_addr_beq_iff (wildcard p) (wildcard q) = ground arith
bind_addr_beq_iff (wildcard p) (specific b q) = ground arith
bind_addr_beq_iff (specific a p) (wildcard q) = ground arith
bind_addr_beq_iff (specific a p) (specific b q) = ground (arith, addr_beq_iff a b)

instance abbrev pub bind_addr_eq : Eq BindAddr
bind_addr_eq = record { beq = bind_addr_beq; beq_iff = bind_addr_beq_iff }

abbrev pub port_of : BindAddr → ℕ
port_of (wildcard p) = p
port_of (specific a p) = p

pub data NetworkName : Type 0 where
  tcp4 tcp : NetworkName

-- the network stack of the process: listen, and the close of the listener at an address
pub record Sockets : Type 1 where
  pub S : Type 0
  pub listen : S → NetworkName → BindAddr → S × Bool
  pub close : S → BindAddr → S

pub record NodePortGroup : Type 0 where
  pub port : ℕ
  pub lns : List BindAddr

-- groups is keyed by a number that stands for the group's pointer
pub record NodePortSet : Type 0 where
  pub addrs : List Addr
  pub groups : List (ℕ × NodePortGroup)

pub record NodePortSwap : Type 0 where
  pub addrs : List Addr
  pub added : List (ℕ × List BindAddr)
  pub finished : Bool

abbrev pub new_node_port_set : List Addr → NodePortSet
new_node_port_set addrs = record { addrs = addrs; groups = [] }

unfoldable pub bind_addrs : List Addr → ℕ → List BindAddr
bind_addrs addrs p = if is_nil addrs then wildcard p ∷ [] else map (λ a. specific a p) addrs

-- netbind.Family "tcp" of the wildcard 0.0.0.0 or of the address
abbrev pub node_port_network : BindAddr → NetworkName
node_port_network (wildcard p) = tcp4
node_port_network (specific a p) = if is6 a && not (is4 (unmap a)) then tcp else tcp4

-- out[addr] = listener
abbrev pub put : BindAddr → List BindAddr → List BindAddr
put a out = if elem a out then out else a ∷ out

abbrev pub valid_unmapped : List Addr → List Addr
valid_unmapped [] = []
valid_unmapped (a ∷ addrs) =
    let rest = valid_unmapped addrs in if is_valid a then unmap a ∷ rest else rest

-- the addresses of a group's port that it does not listen on yet
unfoldable pub missing : List Addr → NodePortGroup → List BindAddr
missing want g = filter_by (λ b. not (elem b g.lns)) (bind_addrs want g.port)

-- what Commit does to one group: the listeners outside want are closed, the added ones join
abbrev pub outside : List Addr → NodePortGroup → List BindAddr
outside want g = filter_by (λ b. not (elem b (bind_addrs want g.port))) g.lns

abbrev pub added_of : ℕ → List (ℕ × List BindAddr) → List BindAddr
added_of i added = elim (lookup i added) [ none ↦ [] | some lns ↦ lns ]

unfoldable pub commit_group : NodePortSwap → ℕ → NodePortGroup → NodePortGroup
commit_group sw i g = record g {
  lns = filter_by (λ b. elem b (bind_addrs sw.addrs g.port)) g.lns ++ added_of i sw.added;
}

module _ (net : Sockets) where
  open net use {S, listen, close}

  unfoldable pub close_listeners : S → List BindAddr → S
  close_listeners s [] = s
  close_listeners s (b ∷ bs) = close_listeners (close s b) bs

  -- the loop of bindAll, with the listeners opened so far
  unfoldable pub bind_all : S → List BindAddr → List BindAddr → S × Option (List BindAddr)
  bind_all s [] out = (s, some out)
  bind_all s (b ∷ want) out =
      let (s1, done) = listen s (node_port_network b) b in
      let rest = bind_all s1 want (put b out) in
      if done then rest else (close_listeners s1 out, none)

  -- open, with the new group's pointer
  unfoldable pub open_port : S → NodePortSet → ℕ → ℕ → S × Option NodePortSet
  open_port s np i p =
      let (s1, r) = bind_all s (bind_addrs np.addrs p) [] in
      (
        s1,
        elim r [
          | none ↦ none
          | some lns ↦ some (record np { groups = (i, record { port = p; lns = lns }) ∷ np.groups })
        ],
      )

  -- close of a group; a group that has been closed has no listeners left
  unfoldable pub close_port : S → NodePortSet → ℕ → S × NodePortSet
  close_port s np i = elim (lookup i np.groups) [
    | none ↦ (s, np)
    | some g ↦ (close_listeners s g.lns, record np { groups = delete i np.groups })
  ]

  unfoldable pub close_added : S → List (ℕ × List BindAddr) → S
  close_added s [] = s
  close_added s ((i, lns) ∷ added) = close_added (close_listeners s lns) added

  -- the loop of PrepareNodePortAddresses over the groups
  unfoldable pub prepare_groups :
      S
      → List Addr
      → List (ℕ × NodePortGroup)
      → List (ℕ × List BindAddr)
      → S × Option (List (ℕ × List BindAddr))
  prepare_groups s want [] added = (s, some added)
  prepare_groups s want ((i, g) ∷ groups) added =
      let (s1, r) = bind_all s (missing want g) [] in
      elim r [
        | none ↦ (close_added s1 added, none)
        | some lns ↦ prepare_groups s1 want groups ((i, lns) ∷ added)
      ]

  unfoldable pub prepare_node_port_addresses : S → NodePortSet → List Addr → S × Option NodePortSwap
  prepare_node_port_addresses s np addrs =
      let want = valid_unmapped addrs in
      let (s1, r) = prepare_groups s want np.groups [] in
      (
        s1,
        elim r [
          | none ↦ none
          | some added ↦ some (record { addrs = want; added = added; finished = false })
        ],
      )

  unfoldable pub commit_groups :
      S → NodePortSwap → List (ℕ × NodePortGroup) → S × List (ℕ × NodePortGroup)
  commit_groups s sw [] = (s, [])
  commit_groups s sw ((i, g) ∷ groups) =
      let (s1, rest) = commit_groups (close_listeners s (outside sw.addrs g)) sw groups in
      (s1, (i, commit_group sw i g) ∷ rest)

  -- finish: Commit (keep) or Abort, at most once; false for ErrNodePortSwapDone
  unfoldable pub finish :
      S → NodePortSet → NodePortSwap → Bool → S × NodePortSet × NodePortSwap × Bool
  finish s np sw keep =
      let sw' : NodePortSwap = record sw { finished = true } in
      let (s1, groups) = commit_groups s sw np.groups in
      if sw.finished
      then (s, np, sw, false)
      else if not keep
      then (close_added s sw.added, np, sw', true)
      else (s1, record { addrs = sw.addrs; groups = groups }, sw', true)

  unfoldable pub set_node_port_addresses : S → NodePortSet → List Addr → S × NodePortSet × Bool
  set_node_port_addresses s np addrs =
      let (s1, r) = prepare_node_port_addresses s np addrs in
      elim r [
        | none ↦ (s1, np, false)
        | some sw ↦ let (s2, np', sw', done) = finish s1 np sw true in (s2, np', done)
      ]
