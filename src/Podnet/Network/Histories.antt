-- ===== src/Podnet/Network/Histories.antt =====
-- Teardown, and histories of calls on the pod network (podnet.go, guest.go, reconcile.go).
use Prim.Native.String.{String}
use text.Mathlib.TextEquality.{eq_iff}
use darwin_net.Prelude.{
  ℕ, ◌≡◌, ◌≢◌, refl, ◌*◌, ◌/◌, ◌^◌, ◌<◌, false, arith, List, [], ◌∷◌, none, some, elem, remove,
  elem-remove, ◌==◌, ==_refl, Result, ok, err, Bool-cases, Option-cases, inl, inr, string_eq,
}
use darwin_net.Prelude.Maps.{lookup, lookup-delete, elem-keys-lookup}
use darwin_net.Netip.{Addr, addr_eq}
use darwin_net.Podnet.Cidr.Carve.{cidr4}
use darwin_net.Podnet.Errors.{PodnetError}
use darwin_net.Podnet.Allocator.Invariant.{IsAllocator}
use darwin_net.Podnet.Network.{
  Network, PodEntry, Backend, AliasManager, VmNetworkConfig, released, new, setup, teardown,
  reattach, sweep_stale, ip_of, unbind,
}
use darwin_net.Podnet.Network.Invariant.{Inv, lo0-Inv, unbound-Inv, released_lem, new-Inv}
use darwin_net.Podnet.Network.Steps.{SameBindings, Binds, setup-Binds, reattach-Binds}

-- A call that frees: on success the pod has no binding, the address that it had is free, and no
-- other pod's binding has changed; on an error nothing has changed.
abbrev pub Frees :
    {L : Type 0} → ℕ → Network L → String → Network L → Result PodnetError (Unit {0}) → Type 0
Frees b n pod n' (ok _) =
    Inv b n'
    × (lookup pod n'.by_pod ≡ none)
    × ((ip : Addr) → ip_of n pod ≡ some ip → elem ip n'.alloc.allocated ≡ false)
    × ((p : String) → p ≢ pod → lookup p n'.by_pod ≡ lookup p n.by_pod)
Frees b n pod n' (err e) = Inv b n' × SameBindings n n'

module _ (m : AliasManager) (b : ℕ) (n : Network m.Lo0) (v : Inv b n) where
  unbind-Frees :
      (pod : String) (e : PodEntry)
      → lookup pod n.by_pod ≡ some e
      → let q = unbind m n pod e in Frees b n pod q.0 q.1
  unfolding unbind
  unbind-Frees pod e found = elim (Bool-cases (m.remove n.lo0 e.ip).1) [
    | inr failed ↦ rw failed (lo0-Inv b n v _, (refl, refl, refl))
    | inl done ↦ rw done (
      unbound-Inv b n v _ (released n.alloc e.ip) pod e found back.1 back.0,
      ground (arith, eq_iff pod pod, lookup-delete pod pod n.by_pod),
      λ ip at_pod. rw back.1 (freed ip at_pod),
      λ p other. ground (arith, eq_iff pod p, lookup-delete pod p n.by_pod),
    )
  ]
    where
      back :
          IsAllocator b (released n.alloc e.ip)
          × ((released n.alloc e.ip).allocated ≡ remove e.ip n.alloc.allocated)
      back =
          released_lem b n.alloc e.ip v.alloc_ok
            (ground (arith, v.held e.ip, v.forward pod e found, elem-keys-lookup e.ip n.inverse))

      freed : (ip : Addr) → ip_of n pod ≡ some ip → elem ip (remove e.ip n.alloc.allocated) ≡ false
      freed ip at_pod = ground (arith, elem-remove e.ip ip n.alloc.allocated, ==_refl ip, found)

  -- Teardown frees the pod's address, or changes no binding.
  pub teardown-Frees : (pod : String) → let q = teardown m n pod in Frees b n pod q.0 q.1
  unfolding teardown
  teardown-Frees pod = elim (Bool-cases (pod == "")) [
    | inl empty ↦ rw empty (v, (refl, refl, refl))
    | inr named ↦ elim (Option-cases (lookup pod n.by_pod)) [
      | inr (e, found) ↦ rw (named, found, teardown) (unbind-Frees pod e found)
      | inl unbound ↦
          rw (named, unbound, teardown)
            (v, unbound, λ ip at_pod. absurd (nowhere unbound ip at_pod), λ p other. refl)
    ]
  ]
    where
      nowhere : lookup pod n.by_pod ≡ none → (ip : Addr) → ip_of n pod ≡ some ip → ⊥
      nowhere e ip at_pod = ground arith

  sweep_stale-Inv : (known : List (String × Addr)) → Inv b (sweep_stale m n known).0
  unfolding sweep_stale
  sweep_stale-Inv known = lo0-Inv b n v _

-- The calls that the runtime makes on a pod network.
pub data Call : Type 0 where
  setups : String → Backend → Call
  teardowns : String → Call
  reattaches : String → Addr → Backend → Call
  sweeps : List (String × Addr) → Call

unfoldable pub step : (m : AliasManager) → Network m.Lo0 → Call → Network m.Lo0
step m n (setups pod backend) = (setup m n pod backend).0
step m n (teardowns pod) = (teardown m n pod).0
step m n (reattaches pod ip backend) = (reattach m n pod ip backend).0
step m n (sweeps known) = (sweep_stale m n known).0

unfoldable pub run : (m : AliasManager) → Network m.Lo0 → List Call → Network m.Lo0
run m n [] = n
run m n (c ∷ cs) = run m (step m n c) cs

module _ (m : AliasManager) (b : ℕ) where
  Binds-Inv :
      (n n' : Network m.Lo0) (pod : String) (r : Result PodnetError Addr)
      → Binds b n pod n' r
      → Inv b n'
  Binds-Inv n n' pod (ok ip) h = h.0
  Binds-Inv n n' pod (err e) h = h.0

  Frees-Inv :
      (n n' : Network m.Lo0) (pod : String) (r : Result PodnetError (Unit {0}))
      → Frees b n pod n' r
      → Inv b n'
  Frees-Inv n n' pod (ok ip) h = h.0
  Frees-Inv n n' pod (err e) h = h.0

  pub step-Inv : (n : Network m.Lo0) (c : Call) → Inv b n → Inv b (step m n c)
  unfolding step
  step-Inv n (setups pod backend) v = Binds-Inv n _ pod _ (setup-Binds m b n v pod backend)
  step-Inv n (teardowns pod) v = Frees-Inv n _ pod _ (teardown-Frees m b n v pod)
  step-Inv n (reattaches pod ip backend) v =
      Binds-Inv n _ pod _ (reattach-Binds m b n v pod ip backend)
  step-Inv n (sweeps known) v = sweep_stale-Inv m b n v known

  run-Inv : (n : Network m.Lo0) (cs : List Call) → Inv b n → Inv b (run m n cs)
  unfolding run
  run-Inv n [] v = v
  run-Inv n (c ∷ cs) v = run-Inv (step m n c) cs (step-Inv n c v)

inverse_of :
    {L : Type 0} (b : ℕ) (n : Network L) (p : String) (ip : Addr)
    → Inv b n
    → ip_of n p ≡ some ip
    → lookup ip n.inverse ≡ some p
inverse_of b n p ip v at_p = elim (Option-cases (lookup p n.by_pod)) [
  | inl unbound ↦ ground arith
  | inr (e, found) ↦ ground (arith, v.forward p e found)
]

-- After any history of calls on a new network over a /24, two pods with the same address are the
-- same pod.
pub run-unique_ip :
    (m : AliasManager) (x : ℕ) (config : VmNetworkConfig) (lo0 : m.Lo0) (n : Network m.Lo0)
    (cs : List Call) (p q : String) (ip : Addr)
    → x < 2 ^ 32
    → new (cidr4 x 24) config lo0 ≡ ok n
    → ip_of (run m n cs) p ≡ some ip
    → ip_of (run m n cs) q ≡ some ip
    → p ≡ q
run-unique_ip m x config lo0 n cs p q ip h made at_p at_q =
    let v = run-Inv m (x / 256 * 256) n cs (new-Inv x config lo0 n h made) in
    cc (
      inverse_of (x / 256 * 256) (run m n cs) p ip v at_p,
      inverse_of (x / 256 * 256) (run m n cs) q ip v at_q,
    )
