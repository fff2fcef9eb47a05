-- ===== src/Podnet/Network.antt =====
-- Network (podnet.go, guest.go, reconcile.go): the pod network binds a pod to an address of the
-- allocator and keeps an lo0 alias for it. The alias manager is an interface (aliasManager in
-- alias.go): an operation gives the manager's next state and whether it succeeded. A method runs
-- under the mutex, so it is one step; it returns the next state and a result.
pub mod Invariant
pub mod Steps
pub mod Histories
pub mod Sweep
use Prim.Native.String.{String}
use darwin_net.Prelude.{
  ℕ, Bool, true, false, not, ◌&&◌, ◌||◌, if◌then◌else◌, List, [], ◌∷◌, Option, none, some, Result,
  ok, err, ◌==◌, string_eq, elem, length, map, ◌++◌, zero, suc, Eq, ◌≡◌, ◌↔◌, arith,
}
use darwin_net.Prelude.Maps.{lookup, insert, delete, keys}
use darwin_net.Netip.{Addr, Prefix, addr_eq, next, less, zero_addr, zero_prefix}
use darwin_net.Podnet.Errors.{
  PodnetError, empty_pod_id, backend_mismatch, ip_in_use, alias_failed, rebind_refused,
  not_allocated,
}
use darwin_net.Podnet.Allocator.{Allocator, new_allocator, allocate, allocate_specific, release}

pub data Backend : Type 0 where
  host_process vm : Backend

abbrev pub backend_beq : Backend → Backend → Bool
backend_beq host_process host_process = true
backend_beq vm vm = true
backend_beq _ _ = false

pub record PodEntry : Type 0 where
  pub ip : Addr
  pub backend : Backend

-- The alias manager: the state of lo0 as the manager sees it, and its two operations.
pub record AliasManager : Type 1 where
  pub Lo0 : Type 0
  pub ensure : Lo0 → Addr → Lo0 × Bool
  pub remove : Lo0 → Addr → Lo0 × Bool

pub record VmNetworkConfig : Type 0 where
  pub nat_subnet : Prefix
  pub gateway : Addr
  pub dns_vip : Addr

pub record GuestNetwork : Type 0 where
  pub pod_ip : Addr
  pub gateway : Addr
  pub nat_subnet : Prefix
  pub dns_vip : Addr

pub record Network (L : Type 0) : Type 0 where
  pub alloc : Allocator
  pub lo0 : L
  pub vm_config : VmNetworkConfig
  pub by_pod : List (String × PodEntry)
  pub inverse : List (Addr × String)

-- New, with the options' choice of VMNetworkConfig and the manager's first state
unfoldable pub new : {L : Type 0} → Prefix → VmNetworkConfig → L → Result PodnetError (Network L)
new c config lo0 = elim (new_allocator c) [
  | err e ↦ err e
  | ok a ↦ ok (record { alloc = a; lo0 = lo0; vm_config = config; by_pod = []; inverse = [] })
]

-- the allocator after a rollback: `_ = n.alloc.Release(ip)`
abbrev pub released : Allocator → Addr → Allocator
released a ip = elim (release a ip) [ ok a' ↦ a' | err _ ↦ a ]

module _ (m : AliasManager) where
  open m use {Lo0, ensure, remove as remove_alias}

  -- the alias of a bound pod is ensured once more
  unfoldable pub re_ensure : Network Lo0 → Addr → Network Lo0 × Result PodnetError Addr
  re_ensure n ip =
      let (lo0, done) = ensure n.lo0 ip in
      (record n { lo0 = lo0 }, if done then ok ip else err alias_failed)

  -- the alias and the bindings of a freshly reserved address, or the rollback
  unfoldable pub bind :
      Network Lo0 → String → Addr → Backend → Network Lo0 × Result PodnetError Addr
  bind n pod ip backend =
      let (lo0, done) = ensure n.lo0 ip in
      if done
      then (
        record n {
          lo0 = lo0;
          by_pod = insert pod (record { ip = ip; backend = backend }) n.by_pod;
          inverse = insert ip pod n.inverse;
        },
        ok ip,
      )
      else (record n { lo0 = lo0; alloc = released n.alloc ip }, err alias_failed)

  unfoldable pub setup_bound :
      Network Lo0 → PodEntry → Backend → Network Lo0 × Result PodnetError Addr
  setup_bound n e backend =
      if not (backend_beq e.backend backend) then (n, err backend_mismatch) else re_ensure n e.ip

  unfoldable pub setup_fresh :
      Network Lo0 → String → Backend → Network Lo0 × Result PodnetError Addr
  setup_fresh n pod backend = elim (allocate n.alloc) [
    | err e ↦ (n, err e)
    | ok (ip, a) ↦ bind (record n { alloc = a }) pod ip backend
  ]

  unfoldable pub setup : Network Lo0 → String → Backend → Network Lo0 × Result PodnetError Addr
  setup n pod backend = if pod == "" then (n, err empty_pod_id) else elim (lookup pod n.by_pod) [
    | some e ↦ setup_bound n e backend
    | none ↦ setup_fresh n pod backend
  ]

  -- Setup and SetupGuest
  abbrev pub setup_pod : Network Lo0 → String → Network Lo0 × Result PodnetError Addr
  setup_pod n pod = setup n pod host_process

  unfoldable pub setup_guest : Network Lo0 → String → Network Lo0 × Result PodnetError GuestNetwork
  setup_guest n pod =
      let (n', r) = setup n pod vm in
      (
        n',
        elim r [
          | err e ↦ err e
          | ok ip ↦ ok (record {
            pod_ip = ip;
            gateway = n.vm_config.gateway;
            nat_subnet = n.vm_config.nat_subnet;
            dns_vip = n.vm_config.dns_vip;
          })
        ],
      )

  unfoldable pub unbind :
      Network Lo0 → String → PodEntry → Network Lo0 × Result PodnetError (Unit {0})
  unbind n pod e =
      let (lo0, done) = remove_alias n.lo0 e.ip in
      if done
      then (
        record n {
          lo0 = lo0;
          alloc = released n.alloc e.ip;
          by_pod = delete pod n.by_pod;
          inverse = delete e.ip n.inverse;
        },
        ok tt,
      )
      else (record n { lo0 = lo0 }, err alias_failed)

  -- Release can fail with ErrNotAllocated alone, which Teardown tolerates.
  unfoldable pub teardown : Network Lo0 → String → Network Lo0 × Result PodnetError (Unit {0})
  teardown n pod =
      if pod == ""
      then (n, err empty_pod_id)
      else elim (lookup pod n.by_pod) [ none ↦ (n, ok tt) | some e ↦ unbind n pod e ]

  unfoldable pub reattach_bound :
      Network Lo0 → PodEntry → Addr → Backend → Network Lo0 × Result PodnetError Addr
  reattach_bound n e ip backend =
      if backend_beq backend vm && not (backend_beq e.backend vm)
      then (n, err backend_mismatch)
      else if not (e.ip == ip)
      then (n, err rebind_refused)
      else re_ensure n ip

  unfoldable pub reattach_fresh :
      Network Lo0 → String → Addr → Backend → Network Lo0 × Result PodnetError Addr
  reattach_fresh n pod ip backend = elim (allocate_specific n.alloc ip) [
    | err e ↦ (n, err e)
    | ok (held, a) ↦
        if held then (n, err ip_in_use) else bind (record n { alloc = a }) pod ip backend
  ]

  -- reattach returns no address; the result's address is the argument
  unfoldable pub reattach :
      Network Lo0 → String → Addr → Backend → Network Lo0 × Result PodnetError Addr
  reattach n pod ip backend =
      if pod == "" then (n, err empty_pod_id) else elim (lookup pod n.by_pod) [
        | some e ↦ reattach_bound n e ip backend
        | none ↦ elim (lookup ip n.inverse) [
          | some owner ↦ (n, err ip_in_use)
          | none ↦ reattach_fresh n pod ip backend
        ]
      ]

  -- The walk of SweepStale over the addresses from ip on, on fuel: the state of lo0 after it and the
  -- addresses whose removal failed.
  unfoldable pub sweep : ℕ → List Addr → Addr → Addr → Lo0 → Lo0 × List Addr
  sweep zero keep last ip lo0 = (lo0, [])
  sweep (suc fuel) keep last ip lo0 =
      let stop : Lo0 × List Addr = (lo0, []) in
      let kept = sweep fuel keep last (next ip) lo0 in
      let gone = sweep fuel keep last (next ip) (remove_alias lo0 ip).0 in
      if less last ip
      then stop
      else if elem ip keep
      then kept
      else if (remove_alias lo0 ip).1
      then gone
      else (gone.0, ip ∷ gone.1)

  abbrev pub keep_set : Network Lo0 → List (String × Addr) → List Addr
  keep_set n known = map (λ k. k.1) known ++ keys n.inverse

  -- 256 rounds: first and last lie in one /24
  unfoldable pub sweep_stale : Network Lo0 → List (String × Addr) → Network Lo0 × List Addr
  sweep_stale n known =
      let (lo0, failed) = sweep 256 (keep_set n known) n.alloc.last n.alloc.first n.lo0 in
      (record n { lo0 = lo0 }, failed)

abbrev pub ip_of : {L : Type 0} → Network L → String → Option Addr
ip_of n pod = elim (lookup pod n.by_pod) [ none ↦ none | some e ↦ some e.ip ]

abbrev pub pods : {L : Type 0} → Network L → ℕ
pods n = length n.by_pod
