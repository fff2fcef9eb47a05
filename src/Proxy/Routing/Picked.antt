-- ===== src/Proxy/Routing/Picked.antt =====
-- What a pick returns (routing.go, affinity.go): the pool that a backend comes from, and the rotation
-- of the round robin.
use darwin_net.Prelude.{
  ℕ, zero, suc, ◌+◌, ◌%◌, ◌^◌, ◌<◌, ◌≡◌, arith, refl, Bool, true, false, not, ◌&&◌, if◌then◌else◌,
  List, [], ◌∷◌, some, ==_refl, elem, length, is_nil, get_or, Result, ok, Result-cases, ◌>>=◌,
  Option-cases, inl, inr,
}
use darwin_net.Prelude.Maps.{lookup, lookup-insert}
use darwin_net.Netip.{Addr, addr_eq, prefix_valid}
use darwin_net.Proxy.Routing.{
  addr_port_eq, PortKey, port_key_eq, is_local_policy, Backend, addrs, PortState, RoutingTable,
  PickError,
}
use darwin_net.Proxy.Routing.Install.{bindings_of}
use darwin_net.Proxy.Routing.Pick.{
  Scoped, active_pool, warned_by, scoped, no_backend, round_robin, advance, pick, drop_binding,
  rebind, pick_bound, pick_sticky,
}

get_or-elem :
    (bs : List Backend) (i : ℕ) (d : Backend)
    → i < length bs
    → elem (get_or bs i d).addr (addrs bs) ≡ true
get_or-elem [] i d h = ground arith
get_or-elem (b ∷ bs) zero d h = ground (arith, ==_refl b.addr)
get_or-elem (b ∷ bs) (suc i) d h = ground (arith, get_or-elem bs i d)

-- the address of the round robin's backend is in the pool
pub round_robin-elem :
    (st : PortState) (pool : List Backend)
    → is_nil pool ≡ false
    → elem (round_robin st pool).addr (addrs pool) ≡ true
unfolding round_robin
round_robin-elem st [] h = ground arith
round_robin-elem st (b ∷ bs) h =
    get_or-elem (b ∷ bs) (st.cursor % length (b ∷ bs)) no_backend (omega arith)

-- the pool that a scope is served from
abbrev pub pool_of : RoutingTable → PortState → Bool → List Backend
pool_of t st external =
    if not external && is_local_policy st.policy && prefix_valid t.pod_cidr
    then st.locals
    else st.all

-- a scoped lookup that succeeds names the port's state and a pool with a backend in it
pub scoped-pool :
    (t : RoutingTable) (key : PortKey) (external : Bool) (s : Scoped)
    → scoped t key external ≡ ok s
    → (st : PortState) × (lookup key t.states ≡ some st)
      × (s ≡ record { st = warned_by t st external; pool = pool_of t st external })
      × (is_nil (pool_of t st external) ≡ false)
unfolding scoped active_pool
scoped-pool t key external s h = elim (Option-cases (lookup key t.states)) [
  | inl e ↦ ground (arith, e)
  | inr (st, e) ↦ (st, e, ground (arith, e), ground (arith, e))
]

-- the state of another port is not touched, and a successful lookup succeeds again
pub scoped-advance :
    (t : RoutingTable) (key : PortKey) (external : Bool) (s : Scoped)
    → scoped t key external ≡ ok s
    → scoped (advance t key s.st) key external
      ≡ ok (record { st = record s.st { cursor = (s.st.cursor + 1) % 2 ^ 64 }; pool = s.pool })
unfolding scoped active_pool advance
scoped-advance t key external s h = elim (Option-cases (lookup key t.states)) [
  | inl e ↦ ground (arith, e)
  | inr (st, e) ↦ ground (
    arith,
    e,
    lookup-insert key key (record s.st { cursor = (s.st.cursor + 1) % 2 ^ 64 }) t.states,
    ==_refl key,
  )
]

-- the k-th of a sequence of picks, from 0
abbrev pub nth_pick : ℕ → RoutingTable → PortKey → Result PickError Backend
nth_pick zero t key = pick t key >>= (λ r. ok r.1)
nth_pick (suc k) t key = pick t key >>= (λ r. nth_pick k r.0 key)

pick_lem :
    (t : RoutingTable) (key : PortKey) (s : Scoped)
    → scoped t key false ≡ ok s
    → pick t key ≡ ok (advance t key s.st, get_or s.pool (s.st.cursor % length s.pool) no_backend)
unfolding pick round_robin
pick_lem t key s h = ground (arith, h)

-- Successive picks of one port walk its pool in order, from the cursor on and round again, as long as
-- the uint64 cursor does not wrap.
pub nth_pick-rotates :
    (t : RoutingTable) (key : PortKey) (s : Scoped) (k : ℕ)
    → scoped t key false ≡ ok s
    → s.st.cursor + k < 2 ^ 64
    → nth_pick k t key ≡ ok (get_or s.pool ((s.st.cursor + k) % length s.pool) no_backend)
nth_pick-rotates t key s zero h c =
    let start : s.st.cursor + 0 ≡ s.st.cursor = omega arith in
    rw (pick_lem t key s h, start, nth_pick) refl
nth_pick-rotates t key s (suc k) h c =
    let moved : Scoped = record {
      st = record s.st { cursor = (s.st.cursor + 1) % 2 ^ 64 };
      pool = s.pool;
    } in
    let below : (s.st.cursor + 1) % 2 ^ 64 ≡ s.st.cursor + 1 = omega (arith, c) in
    let sum : (s.st.cursor + 1) % 2 ^ 64 + k ≡ s.st.cursor + suc k = omega (arith, below) in
    let rest =
      nth_pick-rotates (advance t key s.st) key moved k (scoped-advance t key false s h)
        (omega (arith, c, sum)) in
    let rest' = rw sum at rest in rw (pick_lem t key s h, nth_pick) rest'

pub rebind-backend :
    (t : RoutingTable) (key : PortKey) (client : Addr) (now : ℕ) (s : Scoped)
    → (rebind t key client now s).1 ≡ round_robin s.st s.pool
unfolding rebind
rebind-backend t key client now s = ground arith

pub pick_bound-elem :
    (t : RoutingTable) (key : PortKey) (client : Addr) (now : ℕ) (s : Scoped)
    → is_nil s.pool ≡ false
    → elem (pick_bound t key client now s).1.addr (addrs s.pool) ≡ true
unfolding pick_bound
pick_bound-elem t key client now s n = elim (Option-cases (lookup client (bindings_of t key))) [
  | inl e ↦ ground (arith, e, rebind-backend t key client now s, round_robin-elem s.st s.pool n)
  | inr (b, e) ↦ ground (
    arith,
    e,
    rebind-backend (drop_binding t key client) key client now s,
    round_robin-elem s.st s.pool n,
  )
]

-- The backend of a pick, with or without affinity, has the address of a backend of the scope's pool:
-- the node-local backends for an internal pick of a Local port whose node knows its podCIDR, and all
-- the Ready backends otherwise.
pub pick_sticky-pool :
    (t t' : RoutingTable) (key : PortKey) (client : Addr) (now : ℕ) (external : Bool) (be : Backend)
    → pick_sticky t key client now external ≡ ok (t', be)
    → (st : PortState) × (lookup key t.states ≡ some st)
      × (elem be.addr (addrs (pool_of t st external)) ≡ true)
unfolding pick_sticky
pick_sticky-pool t t' key client now external be h = elim (Result-cases (scoped t key external)) [
  | inr (e, f) ↦ ground (arith, f)
  | inl (s, f) ↦
      let (st, e, g, n) = scoped-pool t key external s f in
      let r = round_robin-elem s.st (pool_of t st external) n in
      (st, e, ground (arith, h, f, g, r, pick_bound-elem t key client now s))
]
