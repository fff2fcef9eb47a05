-- ===== src/Podnet/Alias/Removal.antt =====
-- What Remove leaves, and sequences of calls on the lo0 manager.
use darwin_net.Prelude.{
  ◌≡◌, ◌≢◌, ◌⊎◌, inl, inr, refl, Bool, true, false, not, ◌&&◌, ◌||◌, none, Result, ok, err, arith,
  Option-cases, Bool-cases,
}
use darwin_net.Prelude.Maps.{lookup, insert, delete, lookup-delete}
use darwin_net.Netip.{Addr, is4, addr_eq, addr_beq_iff}
use darwin_net.Podnet.Blackhole.{Kernel, is_pod_address, install, unplumb}
use darwin_net.Podnet.Blackhole.Macos.{KernelLaws, discards}
use darwin_net.Podnet.Blackhole.Requests.{install_lem}
use darwin_net.Podnet.Alias.{
  Lo0AliasManager, AliasError, ifconfig_failed, install_failed, alias_live, alias_blackhole_pending,
  settle, remove,
}
use darwin_net.Podnet.Alias.Apart.{
  Agrees, Spares, Leaves, Leaves-after, ifconfig-Spares, tracked-Spares, lookup-insert_other,
  lookup-insert_own,
}

module _ (kern : Kernel) (laws : KernelLaws kern) where
  open laws use {live, route}

  -- the address has no alias, and a pod address has its blackhole
  abbrev pub Departed : Addr → Lo0AliasManager kern.K → Type 0
  Departed ip m =
      (live m.kernel ip ≡ false)
      × (is_pod_address m.node_cidr ip ≡ true → discards (route m.kernel ip) ≡ true)

  abbrev pub Forgotten : Addr → Lo0AliasManager kern.K → Type 0
  Forgotten ip m = lookup ip m.aliased ≡ none

  abbrev pub Gone : Addr → Lo0AliasManager kern.K → Type 0
  Gone ip m = Forgotten ip m × Departed ip m

  -- nothing happened to the address
  abbrev pub Idle : Addr → Lo0AliasManager kern.K → Lo0AliasManager kern.K → Type 0
  Idle ip m m' = Forgotten ip m' × (live m'.kernel ip ≡ live m.kernel ip)

  lookup-delete_other :
      (ip c : Addr) (m : Lo0AliasManager kern.K)
      → ip ≢ c
      → lookup c (delete ip m.aliased) ≡ lookup c m.aliased
  lookup-delete_other ip c m differ =
      ground (arith, lookup-delete ip c m.aliased, addr_beq_iff ip c, differ)

  lookup-delete_own :
      (ip : Addr) (m : Lo0AliasManager kern.K) → lookup ip (delete ip m.aliased) ≡ none
  lookup-delete_own ip m = ground (arith, lookup-delete ip ip m.aliased, addr_beq_iff ip ip)

  install-Spares :
      (m : Lo0AliasManager kern.K) (ip : Addr)
      → is4 ip ≡ true
      → Spares kern laws ip m (record m { kernel = (install kern m.kernel ip).0 })
  install-Spares m ip h =
      let (held, aliases, others) = install_lem kern laws m.kernel ip h in
      (refl, λ c differ. (aliases c, λ g. ground (arith, g, others c differ), refl))

  pending_Leaves :
      (m : Lo0AliasManager kern.K) (ip : Addr)
      → is4 ip ≡ true
      → live m.kernel ip ≡ false
      → Leaves kern laws (Gone ip) ip m (
        record m {
          kernel = (install kern m.kernel ip).0;
          aliased = insert ip alias_blackhole_pending m.aliased;
        },
        err install_failed,
      )
  pending_Leaves m ip inet gone =
      let (held, aliases, others) = install_lem kern laws m.kernel ip inet in
      Leaves-after kern laws (Gone ip) ip m _ _ (install-Spares m ip inet) (
        tracked-Spares kern laws _ ip _
            (λ c. lookup-insert_other kern laws ip c alias_blackhole_pending m.aliased),
        ground (
          arith,
          lookup-insert_own kern laws ip alias_blackhole_pending m.aliased,
          inet,
          aliases ip,
          gone,
        ),
        λ h. absurd (ground arith),
      )

  -- the blackhole that is owed for an address whose alias has gone
  settle_owed :
      (m : Lo0AliasManager kern.K) (ip : Addr) (tracked removed : Bool)
      → tracked || removed ≡ true
      → is4 ip ≡ true
      → live m.kernel ip ≡ false
      → Leaves kern laws (Gone ip) ip m (settle kern m ip tracked removed)
  unfolding settle
  settle_owed m ip tracked removed owed inet gone =
      let (held, aliases, others) = install_lem kern laws m.kernel ip inet in
      let nt : (not tracked && not removed) ≡ false = ground arith in
      let absent = lookup-delete_own ip m in
      elim (Bool-cases (is_pod_address m.node_cidr ip)) [
        | inr other ↦
            rw (other, settle)
              (
                tracked-Spares kern laws m ip _ (λ c. lookup-delete_other ip c m),
                ground (arith, absent, other),
                λ h. (absent, (gone, λ p. absurd (ground (arith, p, other)))),
              )
        | inl pod ↦ elim (Option-cases (install kern m.kernel ip).1) [
          | inr (ok tt, done) ↦
              rw (pod, nt, done, settle)
                (Leaves-after kern laws (Gone ip) ip m _ _ (install-Spares m ip inet) (
                  tracked-Spares kern laws _ ip _ (λ c. lookup-delete_other ip c m),
                  ground (arith, absent, aliases ip, gone),
                  λ h. (absent, (ground (arith, aliases ip, gone), λ p. held done)),
                ))
          | inr (err e, failed) ↦ rw (pod, nt, failed, settle) (pending_Leaves m ip inet gone)
          | inl exhausted ↦ rw (pod, nt, exhausted, settle) (pending_Leaves m ip inet gone)
        ]
      ]

  settle-Idle :
      (m : Lo0AliasManager kern.K) (ip : Addr)
      → Agrees kern laws m ip
      → lookup ip m.aliased ≡ none
      → Leaves kern laws (Idle ip m) ip m (settle kern m ip false false)
  unfolding settle
  settle-Idle m ip here idle = elim (Bool-cases (is_pod_address m.node_cidr ip)) [
    | inl pod ↦ rw (pod, settle) ((refl, λ c d. (refl, λ h. h, refl)), here, λ h. (idle, refl))
    | inr other ↦
        rw (other, settle)
          (
            tracked-Spares kern laws m ip _ (λ c. lookup-delete_other ip c m),
            ground (arith, here, lookup-delete_own ip m, other),
            λ h. (lookup-delete_own ip m, refl),
          )
  ]

  Leaves-map :
      (P Q : Lo0AliasManager kern.K → Type 0) (ip : Addr) (m : Lo0AliasManager kern.K)
      (q : Lo0AliasManager kern.K × Result AliasError (Unit {0}))
      → ((m' : Lo0AliasManager kern.K) → P m' → Q m')
      → Leaves kern laws P ip m q
      → Leaves kern laws Q ip m q
  Leaves-map P Q ip m q f (spares, here, done) = (spares, here, λ h. f q.0 (done h))

  -- Remove forgets the address it succeeds for, and then the address has departed, unless it was
  -- untracked and the alias command failed, which changes neither its alias nor its route
  abbrev pub Removed : Addr → Lo0AliasManager kern.K → Lo0AliasManager kern.K → Type 0
  Removed ip m m' =
      Forgotten ip m'
      × (Departed ip m'
          ⊎ ((lookup ip m.aliased ≡ none)
              × ((kern.ifconfig m.kernel unplumb ip).1 ≡ false)
              × (live m'.kernel ip ≡ live m.kernel ip)))

  pub remove-Leaves :
      (m : Lo0AliasManager kern.K) (ip : Addr)
      → Agrees kern laws m ip
      → Leaves kern laws (Removed ip m) ip m (remove kern m ip)
  remove-Leaves m ip here =
      let spares = ifconfig-Spares kern laws m unplumb ip in
      let k : kern.K = (kern.ifconfig m.kernel unplumb ip).0 in
      let routes = laws.ifconfig_routes m.kernel unplumb ip ip in
      elim (Option-cases (lookup ip m.aliased)) [
        | inr (alias_blackhole_pending, at_ip) ↦
            let e : remove kern m ip ≡ settle kern m ip true false =
              unfold remove in rw (at_ip, remove) refl in
            rw e (
              Leaves-map (Gone ip) (Removed ip m) ip m _ (λ m' (f, d). (f, inl d))
                (settle_owed m ip true false refl (ground (arith, here, at_ip)) (here.2 at_ip)))
        | inr (alias_live, at_ip) ↦ elim (Bool-cases (kern.ifconfig m.kernel unplumb ip).1) [
          | inl done ↦
              let e : remove kern m ip ≡ settle kern (record m { kernel = k }) ip true true =
                unfold remove in rw (at_ip, done, remove) refl in
              rw e (
                Leaves-after kern laws (Removed ip m) ip m _ _ spares (
                  Leaves-map (Gone ip) (Removed ip m) ip _ _ (λ m' (f, d). (f, inl d))
                    (settle_owed _ ip true true refl (ground (arith, here, at_ip))
                      (laws.unplumbed m.kernel ip done))))
          | inr failed ↦
              let e : remove kern m ip ≡ (record m { kernel = k }, err ifconfig_failed) =
                unfold remove in rw (at_ip, failed, remove) refl in
              rw e (
                spares,
                ground
                    (arith, here, at_ip, laws.ifconfig_failed m.kernel unplumb ip failed, routes),
                λ h. absurd (ground arith),
              )
        ]
        | inl at_ip ↦ elim (Bool-cases (kern.ifconfig m.kernel unplumb ip).1) [
          | inl done ↦
              let e : remove kern m ip ≡ settle kern (record m { kernel = k }) ip false true =
                unfold remove in rw (at_ip, done, remove) refl in
              rw e (
                Leaves-after kern laws (Removed ip m) ip m _ _ spares (
                  Leaves-map (Gone ip) (Removed ip m) ip _ _ (λ m' (f, d). (f, inl d))
                    (settle_owed _ ip false true refl
                      (ground (arith, laws.ifconfig_inet m.kernel unplumb ip, done))
                      (laws.unplumbed m.kernel ip done))))
          | inr failed ↦
              let same = laws.ifconfig_failed m.kernel unplumb ip failed in
              let e : remove kern m ip ≡ settle kern (record m { kernel = k }) ip false false =
                unfold remove in rw (at_ip, failed, remove) refl in
              rw e (
                Leaves-after kern laws (Removed ip m) ip m _ _ spares (
                  Leaves-map (Idle ip (record m { kernel = k })) (Removed ip m) ip _ _
                    (λ m' (f, d). (f, inr (at_ip, failed, ground (arith, d, same))))
                    (settle-Idle _ ip (ground (arith, here, at_ip, same, routes)) at_ip)))
        ]
      ]
