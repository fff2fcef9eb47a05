-- ===== src/Podnet/Network/Steps.antt =====
-- What each method of the pod network does, on every branch, and histories of calls.
use Prim.Native.String.{String}
use text.Mathlib.TextEquality.{eq_iff}
use darwin_net.Prelude.{
  ℕ, ◌≡◌, ◌≢◌, refl, ap, true, false, arith, ◌∷◌, none, some, elem, ◌==◌, ==_iff, not, ◌&&◌, Result,
  ok, err, Result-cases, Bool-cases, Option-cases, inl, inr, string_eq,
}
use darwin_net.Prelude.Maps.{lookup, lookup-insert, elem-keys-lookup}
use darwin_net.Netip.{Addr, addr_eq}
use darwin_net.Podnet.Errors.{PodnetError}
use darwin_net.Podnet.Allocator.{Allocator, allocate, allocate_specific}
use darwin_net.Podnet.Allocator.Invariant.{IsAllocator, allocate-ok, allocate_specific-IsAllocator}
use darwin_net.Podnet.Network.{
  Network, PodEntry, Backend, backend_beq, vm, AliasManager, bind, re_ensure, setup, reattach,
  ip_of, setup_fresh, reattach_fresh, setup_bound, reattach_bound,
}
use darwin_net.Podnet.Network.Invariant.{Inv, lo0-Inv, bound-Inv, rollback-Inv}

-- no pod's binding and no held address has changed
abbrev pub SameBindings : {L : Type 0} → Network L → Network L → Type 0
SameBindings n n' =
    (n'.by_pod ≡ n.by_pod) × (n'.inverse ≡ n.inverse) × (n'.alloc.allocated ≡ n.alloc.allocated)

-- A call that binds: on success the pod has the returned address and no other pod's binding has
-- changed; on an error nothing has leaked. The invariant holds either way.
abbrev pub Binds :
    {L : Type 0} → ℕ → Network L → String → Network L → Result PodnetError Addr → Type 0
Binds b n pod n' (ok ip) =
    Inv b n'
    × (ip_of n' pod ≡ some ip)
    × ((p : String) → p ≢ pod → lookup p n'.by_pod ≡ lookup p n.by_pod)
Binds b n pod n' (err e) = Inv b n' × SameBindings n n'

module _ (m : AliasManager) (b : ℕ) (n : Network m.Lo0) (v : Inv b n) where
  re_ensure-Binds :
      (pod : String) (ip : Addr)
      → ip_of n pod ≡ some ip
      → Binds b n pod (re_ensure m n ip).0 (re_ensure m n ip).1
  unfolding re_ensure
  re_ensure-Binds pod ip at_pod = elim (Bool-cases (m.ensure n.lo0 ip).1) [
    | inl done ↦ rw done (lo0-Inv b n v _, at_pod, λ p other. refl)
    | inr failed ↦ rw failed (lo0-Inv b n v _, (refl, refl, refl))
  ]

  bind-Binds :
      (a : Allocator) (pod : String) (ip : Addr) (backend : Backend)
      → lookup pod n.by_pod ≡ none
      → elem ip n.alloc.allocated ≡ false
      → a.allocated ≡ ip ∷ n.alloc.allocated
      → IsAllocator b a
      → let q = bind m (record n { alloc = a }) pod ip backend in Binds b n pod q.0 q.1
  unfolding bind
  bind-Binds a pod ip backend fresh free grown ok_a = elim (Bool-cases (m.ensure n.lo0 ip).1) [
    | inl done ↦ rw done (
      bound-Inv b n v _ a pod ip backend fresh free grown ok_a,
      ground (
        arith,
        eq_iff pod pod,
        lookup-insert pod pod (record { ip = ip; backend = backend }) n.by_pod,
      ),
      λ p other. ground (
        arith,
        eq_iff pod p,
        lookup-insert pod p (record { ip = ip; backend = backend }) n.by_pod,
      ),
    )
    | inr failed ↦
        let (inv, same) = rollback-Inv b n v (m.ensure n.lo0 ip).0 a ip free grown ok_a in
        rw failed (inv, (refl, refl, same))
  ]

  setup_fresh-Binds :
      (pod : String) (backend : Backend)
      → lookup pod n.by_pod ≡ none
      → let q = setup_fresh m n pod backend in Binds b n pod q.0 q.1
  unfolding setup_fresh
  setup_fresh-Binds pod backend fresh = elim (Result-cases (allocate n.alloc)) [
    | inr (e, failed) ↦ rw (failed, setup_fresh) (v, (refl, refl, refl))
    | inl ((ip, a), got) ↦
        let (within, free, grown, ok_a) = allocate-ok b n.alloc a ip v.alloc_ok got in
        rw (got, setup_fresh) (bind-Binds a pod ip backend fresh free grown ok_a)
  ]

  setup_bound-Binds :
      (pod : String) (e : PodEntry) (backend : Backend)
      → lookup pod n.by_pod ≡ some e
      → let q = setup_bound m n e backend in Binds b n pod q.0 q.1
  unfolding setup_bound
  setup_bound-Binds pod e backend found = elim (Bool-cases (backend_beq e.backend backend)) [
    | inl same ↦ rw same (re_ensure-Binds pod e.ip (rw (found, ip_of)))
    | inr differ ↦ rw differ (v, (refl, refl, refl))
  ]

  reattach_fresh-Binds :
      (pod : String) (ip : Addr) (backend : Backend)
      → lookup pod n.by_pod ≡ none
      → let q = reattach_fresh m n pod ip backend in Binds b n pod q.0 q.1
  unfolding reattach_fresh
  reattach_fresh-Binds pod ip backend fresh = elim (Result-cases (allocate_specific n.alloc ip)) [
    | inr (e, failed) ↦ rw (failed, reattach_fresh) (v, (refl, refl, refl))
    | inl ((true, a), got) ↦ rw (got, reattach_fresh) (v, (refl, refl, refl))
    | inl ((false, a), got) ↦
        let (within, free, grown, ok_a) =
          allocate_specific-IsAllocator b n.alloc a ip false v.alloc_ok got in
        rw (got, reattach_fresh) (bind-Binds a pod ip backend fresh free grown ok_a)
  ]

  reattach_bound-Binds :
      (pod : String) (e : PodEntry) (ip : Addr) (backend : Backend)
      → lookup pod n.by_pod ≡ some e
      → let q = reattach_bound m n e ip backend in Binds b n pod q.0 q.1
  unfolding reattach_bound
  reattach_bound-Binds pod e ip backend found =
      elim (Bool-cases (backend_beq backend vm && not (backend_beq e.backend vm))) [
        | inl differ ↦ rw differ (v, (refl, refl, refl))
        | inr fits ↦ elim (Bool-cases (e.ip == ip)) [
          | inr other ↦ rw (fits, other) (v, (refl, refl, refl))
          | inl same ↦
              rw (fits, same)
                (re_ensure-Binds pod ip (rw (found, ip_of) (ap some ((==_iff e.ip ip).0 same))))
        ]
      ]

  -- Setup and SetupGuest bind the pod, or leak nothing.
  pub setup-Binds :
      (pod : String) (backend : Backend) → let q = setup m n pod backend in Binds b n pod q.0 q.1
  unfolding setup
  setup-Binds pod backend = elim (Bool-cases (pod == "")) [
    | inl empty ↦ rw empty (v, (refl, refl, refl))
    | inr named ↦ elim (Option-cases (lookup pod n.by_pod)) [
      | inl fresh ↦ rw (named, fresh, setup) (setup_fresh-Binds pod backend fresh)
      | inr (e, found) ↦ rw (named, found, setup) (setup_bound-Binds pod e backend found)
    ]
  ]

  -- ReattachPod and ReattachGuest bind the pod, or leak nothing.
  pub reattach-Binds :
      (pod : String) (ip : Addr) (backend : Backend)
      → let q = reattach m n pod ip backend in Binds b n pod q.0 q.1
  unfolding reattach
  reattach-Binds pod ip backend = elim (Bool-cases (pod == "")) [
    | inl empty ↦ rw empty (v, (refl, refl, refl))
    | inr named ↦ elim (Option-cases (lookup pod n.by_pod)) [
      | inr (e, found) ↦ rw (named, found, reattach) (reattach_bound-Binds pod e ip backend found)
      | inl fresh ↦ elim (Option-cases (lookup ip n.inverse)) [
        | inr (owner, taken) ↦ rw (named, fresh, taken, reattach) (v, (refl, refl, refl))
        | inl free ↦ rw (named, fresh, free, reattach) (reattach_fresh-Binds pod ip backend fresh)
      ]
    ]
  ]

  -- The branch of reattach for an address that is held but unbound is never taken.
  pub reattach-never_held_unbound :
      (ip : Addr) (a : Allocator)
      → lookup ip n.inverse ≡ none
      → allocate_specific n.alloc ip ≢ ok (true, a)
  reattach-never_held_unbound ip a free got =
      let (within, taken, grown, ok_a) =
        allocate_specific-IsAllocator b n.alloc a ip true v.alloc_ok got in
      ground (arith, v.held ip, elem-keys-lookup ip n.inverse)
