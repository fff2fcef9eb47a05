-- ===== src/Podnet/Alias/Managed.antt =====
-- Sequences of calls on the lo0 manager, and the manager as the aliasManager of the pod network.
use Prim.Native.String.{String}
use darwin_net.Prelude.{
  ℕ, ◌+◌, ◌≡◌, ◌≢◌, ◌⊎◌, inl, inr, refl, Bool, true, false, not, ◌&&◌, List, [], ◌∷◌, Result-cases,
  none, Result, ok, err, arith, elem, leb,
}
use darwin_net.Prelude.Maps.{lookup}
use darwin_net.Netip.{Addr, v4, Prefix, is4, addr_eq}
use darwin_net.Podnet.Blackhole.{Kernel, is_pod_address, unplumb}
use darwin_net.Podnet.Blackhole.Macos.{KernelLaws, discards}
use darwin_net.Podnet.Alias.{Lo0AliasManager, ensure, remove, new_lo0_alias_manager}
use darwin_net.Podnet.Alias.Apart.{Consistent, Spares-Consistent, ensure-Leaves}
use darwin_net.Podnet.Alias.Removal.{remove-Leaves}
use darwin_net.Podnet.Network.{AliasManager, Network, sweep_stale, keep_set}
use darwin_net.Podnet.Network.Invariant.{Inv}
use darwin_net.Podnet.Network.Sweep.{RemoveLaws, sweep_stale-exact}

pub data AliasCall : Type 0 where
  ensures removes : Addr → AliasCall

abbrev pub after_calls :
    (kern : Kernel) → Lo0AliasManager kern.K → List AliasCall → Lo0AliasManager kern.K
after_calls kern m [] = m
after_calls kern m (ensures a ∷ calls) = after_calls kern (ensure kern m a).0 calls
after_calls kern m (removes a ∷ calls) = after_calls kern (remove kern m a).0 calls

-- what ifconfig(8) promises of a removal that fails: there was no such alias
abbrev pub FailsAbsent : (kern : Kernel) → KernelLaws kern → Type 0
FailsAbsent kern laws =
    (k : kern.K) (a : Addr) → (kern.ifconfig k unplumb a).1 ≡ false → laws.live k a ≡ false

abbrev succeeded : {E : Type 0} {A : Type 0} → Result E A → Bool
succeeded (ok a) = true
succeeded (err e) = false

module _ (kern : Kernel) (laws : KernelLaws kern) where
  open laws use {live, route}

  pub ensure-Consistent :
      (m : Lo0AliasManager kern.K) (a : Addr)
      → Consistent kern laws m
      → Consistent kern laws (ensure kern m a).0
  ensure-Consistent m a v =
      let (spares, here, done) = ensure-Leaves kern laws m a (v a) in
      Spares-Consistent kern laws a m (ensure kern m a).0 v spares here

  pub remove-Consistent :
      (m : Lo0AliasManager kern.K) (a : Addr)
      → Consistent kern laws m
      → Consistent kern laws (remove kern m a).0
  remove-Consistent m a v =
      let (spares, here, done) = remove-Leaves kern laws m a (v a) in
      Spares-Consistent kern laws a m (remove kern m a).0 v spares here

  after_calls-Consistent :
      (m : Lo0AliasManager kern.K) (calls : List AliasCall)
      → Consistent kern laws m
      → Consistent kern laws (after_calls kern m calls)
        × ((after_calls kern m calls).node_cidr ≡ m.node_cidr)
  after_calls-Consistent m [] v = (v, refl)
  after_calls-Consistent m (ensures a ∷ calls) v =
      let (w, same) = after_calls-Consistent (ensure kern m a).0 calls (ensure-Consistent m a v) in
      (w, ground (arith, same, (ensure-Leaves kern laws m a (v a)).0.0))
  after_calls-Consistent m (removes a ∷ calls) v =
      let (w, same) = after_calls-Consistent (remove kern m a).0 calls (remove-Consistent m a v) in
      (w, ground (arith, same, (remove-Leaves kern laws m a (v a)).0.0))

  -- the manager with its proof that it agrees with the kernel
  abbrev pub Managed : Type 0
  Managed = (m : Lo0AliasManager kern.K) × Consistent kern laws m

  abbrev pub lo0_manager : AliasManager
  lo0_manager = record {
    Lo0 = Managed;
    ensure = λ s a.
        (((ensure kern s.0 a).0, ensure-Consistent s.0 a s.1), succeeded (ensure kern s.0 a).1);
    remove = λ s a.
        (((remove kern s.0 a).0, remove-Consistent s.0 a s.1), succeeded (remove kern s.0 a).1);
  }

  pub remove-aliased :
      FailsAbsent kern laws
      → (m : Lo0AliasManager kern.K) (a : Addr) → Consistent kern laws m
      → succeeded (remove kern m a).1 ≡ true
      → live (remove kern m a).0.kernel a ≡ false
  remove-aliased fails m a v done = elim (Result-cases (remove kern m a).1) [
    | inr (e, failed) ↦ absurd (ground arith)
    | inl (tt, fine) ↦ elim ((remove-Leaves kern laws m a (v a)).2 fine).1 [
      | inl gone ↦ gone.0
      | inr (untracked, failed, same) ↦ ground (arith, same, fails m.kernel a failed)
    ]
  ]

  abbrev pub lo0_laws : FailsAbsent kern laws → RemoveLaws lo0_manager
  lo0_laws fails = record {
    aliased = λ s a. live s.0.kernel a;
    removed = λ s a done. remove-aliased fails s.0 a s.1 done;
    untouched = λ s a c differ. ((remove-Leaves kern laws s.0 a (s.1 a)).0.1 c differ).0;
  }

-- After any calls of Ensure and Remove on a new lo0 manager no pod address has both an alias and a
-- blackhole, when none had at the start.
pub after_calls-never_both :
    (kern : Kernel) (laws : KernelLaws kern) (c : Prefix) (k : kern.K) (calls : List AliasCall)
    (a : Addr)
    → ((x : Addr)
        → is_pod_address c x && is4 x ≡ true
        → (laws.live k x ≡ false) ⊎ (discards (laws.route k x) ≡ false))
    → is_pod_address c a && is4 a ≡ true
    → let m = after_calls kern (new_lo0_alias_manager c k) calls in
      (laws.live m.kernel a ≡ false) ⊎ (discards (laws.route m.kernel a) ≡ false)
after_calls-never_both kern laws c k calls a start pod =
    let first : Consistent kern laws (new_lo0_alias_manager c k) = λ x.
      (λ h. absurd (h refl), λ h. absurd (ground arith), λ h. absurd (ground arith), start x) in
    let (v, same) = after_calls-Consistent kern laws (new_lo0_alias_manager c k) calls first in
    (v a).3 (rw same pod)

-- A successful Ensure leaves the address aliased, without a blackhole if it is a pod address, and
-- changes no other address's alias.
pub ensure-Serves :
    (kern : Kernel) (laws : KernelLaws kern) (m : Lo0AliasManager kern.K) (a c : Addr)
    → Consistent kern laws m
    → (ensure kern m a).1 ≡ ok tt
    → a ≢ c
    → let m' = (ensure kern m a).0 in
      (laws.live m'.kernel a ≡ true)
      × ((is_pod_address m.node_cidr a ≡ false) ⊎ (discards (laws.route m'.kernel a) ≡ false))
      × (laws.live m'.kernel c ≡ laws.live m.kernel c)
ensure-Serves kern laws m a c v done differ =
    let (spares, here, serving) = ensure-Leaves kern laws m a (v a) in
    let (inet, alive, owed, apart) = here in
    (
      alive (serving done),
      ground (arith, alive, serving done, inet, apart, spares.0),
      (spares.1 c differ).0,
    )

-- A successful Remove of a tracked address leaves it without an alias, blackholed if it is a pod
-- address, and no longer tracked; it changes no other address's alias.
pub remove-Departs :
    (kern : Kernel) (laws : KernelLaws kern) (m : Lo0AliasManager kern.K) (a c : Addr)
    → Consistent kern laws m
    → lookup a m.aliased ≢ none
    → (remove kern m a).1 ≡ ok tt
    → a ≢ c
    → let m' = (remove kern m a).0 in
      (laws.live m'.kernel a ≡ false)
      × ((is_pod_address m.node_cidr a ≡ false) ⊎ (discards (laws.route m'.kernel a) ≡ true))
      × (lookup a m'.aliased ≡ none)
      × (laws.live m'.kernel c ≡ laws.live m.kernel c)
remove-Departs kern laws m a c v tracked done differ =
    let (spares, here, removed) = remove-Leaves kern laws m a (v a) in
    let (forgotten, how) = removed done in
    elim how [
      | inr (untracked, _, _) ↦ absurd (tracked untracked)
      | inl (gone, held) ↦ (gone, ground (arith, held, spares.0), forgotten, (spares.1 c differ).0)
    ]

-- SweepStale over the lo0 manager takes the alias of every stale address of the usable range off lo0,
-- or reports the address, and changes no other alias.
pub sweep_stale-lo0 :
    (kern : Kernel) (laws : KernelLaws kern) (fails : FailsAbsent kern laws) (b : ℕ)
    (n : Network (Managed kern laws)) (known : List (String × Addr)) (x : ℕ)
    → Inv b n
    → let q = sweep_stale (lo0_manager kern laws) n known in
      let stale =
        leb (b + 2) x
        && leb x (b + 254)
        && not (elem (v4 x) (keep_set (lo0_manager kern laws) n known)) in
      ((stale ≡ false) ⊎ ((laws.live q.0.lo0.0.kernel (v4 x) ≡ false) ⊎ (elem (v4 x) q.1 ≡ true)))
      × ((stale ≡ true) ⊎ (laws.live q.0.lo0.0.kernel (v4 x) ≡ laws.live n.lo0.0.kernel (v4 x)))
sweep_stale-lo0 kern laws fails b n known x v =
    sweep_stale-exact (lo0_manager kern laws) (lo0_laws kern laws fails) b n known x v
