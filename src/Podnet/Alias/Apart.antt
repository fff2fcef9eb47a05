-- ===== src/Podnet/Alias/Apart.antt =====
-- The invariant between the lo0 manager and the kernel, and what Ensure leaves (alias.go).
use darwin_net.Prelude.{
  ◌≡◌, ◌≢◌, ◌⊎◌, inl, inr, refl, true, false, ◌&&◌, List, none, some, Result, ok, arith,
  Option-cases, Bool-cases, Result-cases,
}
use darwin_net.Prelude.Maps.{lookup, insert, lookup-insert}
use darwin_net.Netip.{Addr, v4, v6, zero_addr, is4, unmap, addr_eq, addr_beq_iff}
use darwin_net.Podnet.Blackhole.{Kernel, is_pod_address, clear, plumb, IfconfigVerb}
use darwin_net.Podnet.Blackhole.Macos.{KernelLaws, discards}
use darwin_net.Podnet.Blackhole.Requests.{clear_lem}
use darwin_net.Podnet.Alias.{
  Lo0AliasManager, AliasError, AliasState, alias_live, alias_blackhole_pending, plumb_alias,
  ensure_absent, ensure,
}

module _ (kern : Kernel) (laws : KernelLaws kern) where
  open laws use {live, route}

  -- the manager and the kernel agree on an address
  abbrev pub Agrees : Lo0AliasManager kern.K → Addr → Type 0
  Agrees m a =
      (lookup a m.aliased ≢ none → is4 a ≡ true)
      × (lookup a m.aliased ≡ some alias_live → live m.kernel a ≡ true)
      × (lookup a m.aliased ≡ some alias_blackhole_pending → live m.kernel a ≡ false)
      × (is_pod_address m.node_cidr a && is4 a ≡ true
          → (live m.kernel a ≡ false) ⊎ (discards (route m.kernel a) ≡ false))

  abbrev pub Consistent : Lo0AliasManager kern.K → Type 0
  Consistent m = (a : Addr) → Agrees m a

  -- a call on one address leaves the others alone
  abbrev pub Spares : Addr → Lo0AliasManager kern.K → Lo0AliasManager kern.K → Type 0
  Spares ip m m' =
      (m'.node_cidr ≡ m.node_cidr)
      × ((c : Addr)
          → ip ≢ c
          → (live m'.kernel c ≡ live m.kernel c)
            × (discards (route m.kernel c) ≡ false → discards (route m'.kernel c) ≡ false)
            × (lookup c m'.aliased ≡ lookup c m.aliased))

  pub Spares-Consistent :
      (ip : Addr) (m m' : Lo0AliasManager kern.K)
      → Consistent m
      → Spares ip m m'
      → Agrees m' ip
      → Consistent m'
  Spares-Consistent ip m m' v spares here a = elim (Bool-cases (addr_eq.beq ip a)) [
    | inl same ↦ let e : ip ≡ a = (addr_beq_iff ip a).0 same in rw (← e) here
    | inr differ ↦ ground (arith, v a, spares.1 a, spares.0, addr_beq_iff ip a)
  ]

  -- what a call on an address leaves; Done is what its success means
  abbrev pub Leaves :
      (Lo0AliasManager kern.K → Type 0)
      → Addr
      → Lo0AliasManager kern.K
      → Lo0AliasManager kern.K × Result AliasError (Unit {0})
      → Type 0
  Leaves Done ip m q = Spares ip m q.0 × Agrees q.0 ip × (q.1 ≡ ok tt → Done q.0)

  abbrev pub Serving : Addr → Lo0AliasManager kern.K → Type 0
  Serving ip m = lookup ip m.aliased ≡ some alias_live

  -- the kernel's part of an alias change
  pub ifconfig-Spares :
      (m : Lo0AliasManager kern.K) (v : IfconfigVerb) (ip : Addr)
      → Spares ip m (record m { kernel = (kern.ifconfig m.kernel v ip).0 })
  ifconfig-Spares m v ip = (
    refl,
    λ c differ. (
      laws.ifconfig_elsewhere m.kernel v ip c differ,
      λ h. ground (arith, h, laws.ifconfig_routes m.kernel v ip c),
      refl,
    ),
  )

  pub Leaves-after :
      (Done : Lo0AliasManager kern.K → Type 0) (ip : Addr) (m m1 : Lo0AliasManager kern.K)
      (q : Lo0AliasManager kern.K × Result AliasError (Unit {0}))
      → Spares ip m m1
      → Leaves Done ip m1 q
      → Leaves Done ip m q
  Leaves-after Done ip m m1 q first (rest, here, done) = (
    (
      ground (arith, first.0, rest.0),
      λ c differ. (
        ground (arith, (first.1 c differ).0, (rest.1 c differ).0),
        λ h. (rest.1 c differ).1 ((first.1 c differ).1 h),
        ground (arith, (first.1 c differ).2, (rest.1 c differ).2),
      ),
    ),
    here,
    done,
  )

  -- only the tracked set changes, at ip
  pub tracked-Spares :
      (m : Lo0AliasManager kern.K) (ip : Addr) (t : List (Addr × AliasState))
      → ((c : Addr) → ip ≢ c → lookup c t ≡ lookup c m.aliased)
      → Spares ip m (record m { aliased = t })
  tracked-Spares m ip t h = (refl, λ c differ. (refl, λ g. g, h c differ))

  pub lookup-insert_other :
      (ip c : Addr) (st : AliasState) (t : List (Addr × AliasState))
      → ip ≢ c
      → lookup c (insert ip st t) ≡ lookup c t
  lookup-insert_other ip c st t differ =
      ground (arith, lookup-insert ip c st t, addr_beq_iff ip c, differ)

  pub lookup-insert_own :
      (ip : Addr) (st : AliasState) (t : List (Addr × AliasState))
      → lookup ip (insert ip st t) ≡ some st
  lookup-insert_own ip st t = ground (arith, lookup-insert ip ip st t, addr_beq_iff ip ip)

  plumb_alias_lem :
      (m : Lo0AliasManager kern.K) (ip : Addr)
      → Agrees m ip
      → (is_pod_address m.node_cidr ip && is4 ip ≡ true → discards (route m.kernel ip) ≡ false)
      → Leaves (Serving ip) ip m (plumb_alias kern m ip)
  unfolding plumb_alias
  plumb_alias_lem m ip here free = elim (Bool-cases (kern.ifconfig m.kernel plumb ip).1) [
    | inl done ↦ rw done (
        Leaves-after (Serving ip) ip m _ _ (ifconfig-Spares m plumb ip) (
          tracked-Spares _ ip _ (λ c. lookup-insert_other ip c alias_live m.aliased),
          ground (
            arith,
            laws.plumbed m.kernel ip done,
            laws.ifconfig_inet m.kernel plumb ip,
            laws.ifconfig_routes m.kernel plumb ip ip,
            lookup-insert_own ip alias_live m.aliased,
            free,
          ),
          λ h. lookup-insert_own ip alias_live m.aliased,
        ))
    | inr failed ↦ rw failed (
      ifconfig-Spares m plumb ip,
      ground (
        arith,
        here,
        laws.ifconfig_failed m.kernel plumb ip failed,
        laws.ifconfig_routes m.kernel plumb ip ip,
      ),
      λ h. absurd (ground arith),
    )
  ]

  unmap-is4 : (a : Addr) → is4 a ≡ true → unmap a ≡ a
  unmap-is4 (v4 x) h = refl
  unmap-is4 (v6 x) h = absurd (ground arith)
  unmap-is4 zero_addr h = absurd (ground arith)

  clear-Spares :
      (m : Lo0AliasManager kern.K) (ip : Addr)
      → Spares ip m (record m { kernel = (clear kern m.kernel ip).0 })
  clear-Spares m ip =
      let (gone, aliases, kept) = clear_lem kern laws m.kernel ip in
      (refl, λ c differ. (aliases c, kept c, refl))

  ensure_absent_lem :
      (m : Lo0AliasManager kern.K) (ip : Addr)
      → Agrees m ip
      → Leaves (Serving ip) ip m (ensure_absent kern m ip)
  unfolding ensure_absent
  ensure_absent_lem m ip here =
      let (gone, aliases, kept) = clear_lem kern laws m.kernel ip in
      let after : Agrees (record m { kernel = (clear kern m.kernel ip).0 }) ip =
        ground (arith, here, aliases ip, kept ip) in
      elim (Bool-cases (is_pod_address m.node_cidr ip)) [
        | inr other ↦ rw other (plumb_alias_lem m ip here (λ h. absurd (ground arith)))
        | inl pod ↦ elim (Result-cases (clear kern m.kernel ip).1) [
          | inr (e, failed) ↦
              rw (pod, failed) (clear-Spares m ip, after, λ h. absurd (ground arith))
          | inl (tt, cleared) ↦
              rw (pod, cleared)
                (Leaves-after (Serving ip) ip m _ _ (clear-Spares m ip) (
                  plumb_alias_lem _ ip after (λ h.
                    let e = unmap-is4 ip (ground arith) in let g = rw e at gone in g cleared)))
        ]
      ]

  -- Ensure
  pub ensure-Leaves :
      (m : Lo0AliasManager kern.K) (ip : Addr)
      → Agrees m ip
      → Leaves (Serving ip) ip m (ensure kern m ip)
  unfolding ensure
  ensure-Leaves m ip here = elim (Option-cases (lookup ip m.aliased)) [
    | inr (alias_live, at_ip) ↦
        rw (at_ip, ensure) ((refl, λ c d. (refl, λ h. h, refl)), here, λ h. at_ip)
    | inr (alias_blackhole_pending, at_ip) ↦ rw (at_ip, ensure) (ensure_absent_lem m ip here)
    | inl at_ip ↦ rw (at_ip, ensure) (ensure_absent_lem m ip here)
  ]
