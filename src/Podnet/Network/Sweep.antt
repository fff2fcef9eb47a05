-- ===== src/Podnet/Network/Sweep.antt =====
-- What SweepStale (reconcile.go) leaves of the aliases. What the alias manager promises is stated by
-- laws over an observation of lo0.
use Prim.Native.String.{String}
use native.Mathlib.Decide.{dec_le}
use darwin_net.Prelude.{
  ℕ, zero, suc, ◌+◌, ◌≤◌, ◌<◌, ◌≡◌, ◌≢◌, refl, Bool, true, false, arith, if◌then◌else◌, List, [],
  ◌∷◌, elem, Bool-cases, inl, inr, ◌⊎◌, ◌^◌, ltb, leb, not, ◌&&◌,
}
use darwin_net.Netip.{Addr, v4, addr_eq, next_v4, addr_beq_iff}
use darwin_net.Podnet.Network.{Network, AliasManager, sweep, sweep_stale, keep_set}
use darwin_net.Podnet.Network.Invariant.{Inv}

-- What aliasManager's Remove promises (alias.go): a removal that succeeds leaves the address without
-- an alias, and no removal touches another address.
pub record RemoveLaws (m : AliasManager) : Type 0 where
  pub aliased : m.Lo0 → Addr → Bool
  pub removed :
      (l : m.Lo0) (a : Addr) → (m.remove l a).1 ≡ true → aliased (m.remove l a).0 a ≡ false
  pub untouched : (l : m.Lo0) (a c : Addr) → a ≢ c → aliased (m.remove l a).0 c ≡ aliased l c

module _ (m : AliasManager) (laws : RemoveLaws m) (keep : List Addr) (last : ℕ)
    (room : last + 1 < 2 ^ 32) where
  open laws use {aliased, removed, untouched}

  -- one round of the walk
  sweep-suc :
      (fuel ip : ℕ) (lo0 : m.Lo0)
      → ip ≤ last
      → sweep m (suc fuel) keep (v4 last) (v4 ip) lo0 ≡ (
          if elem (v4 ip) keep
          then sweep m fuel keep (v4 last) (v4 (ip + 1)) lo0
          else if (m.remove lo0 (v4 ip)).1
          then sweep m fuel keep (v4 last) (v4 (ip + 1)) (m.remove lo0 (v4 ip)).0
          else (
            (sweep m fuel keep (v4 last) (v4 (ip + 1)) (m.remove lo0 (v4 ip)).0).0,
            v4 ip ∷ (sweep m fuel keep (v4 last) (v4 (ip + 1)) (m.remove lo0 (v4 ip)).0).1,
          ))
  unfolding sweep
  sweep-suc fuel ip lo0 h =
      let e : ltb last ip ≡ false = ground arith in rw (next_v4 ip (omega arith), e)

  sweep-over :
      (fuel ip : ℕ) (lo0 : m.Lo0) → last < ip → sweep m fuel keep (v4 last) (v4 ip) lo0 ≡ (lo0, [])
  unfolding sweep
  sweep-over zero ip lo0 h = refl
  sweep-over (suc fuel) ip lo0 h = let e : ltb last ip ≡ true = ground arith in rw e

  -- an address outside the walk, or one to keep, is left alone
  sweep-keeps :
      (fuel ip x : ℕ) (lo0 : m.Lo0)
      → (x < ip) ⊎ ((last < x) ⊎ (elem (v4 x) keep ≡ true))
      → aliased (sweep m fuel keep (v4 last) (v4 ip) lo0).0 (v4 x) ≡ aliased lo0 (v4 x)
  sweep-keeps zero ip x lo0 h = unfold sweep in refl
  sweep-keeps (suc fuel) ip x lo0 h = elim (dec_le ip last) [
    | no over ↦ rw (sweep-over (suc fuel) ip lo0 (omega arith))
    | yes inside ↦ rw (sweep-suc fuel ip lo0 inside) (
        ground (
          arith,
          sweep-keeps fuel (ip + 1) x lo0,
          sweep-keeps fuel (ip + 1) x (m.remove lo0 (v4 ip)).0,
          untouched lo0 (v4 ip) (v4 x),
        ))
  ]

  -- an address of the walk that nobody owns loses its alias, or is reported
  sweep-removes :
      (fuel ip x : ℕ) (lo0 : m.Lo0)
      → ip ≤ x
      → x ≤ last
      → last < ip + fuel
      → elem (v4 x) keep ≡ false
      → let q = sweep m fuel keep (v4 last) (v4 ip) lo0 in
        (aliased q.0 (v4 x) ≡ false) ⊎ (elem (v4 x) q.1 ≡ true)
  sweep-removes zero ip x lo0 low high enough stale = absurd (omega arith)
  sweep-removes (suc fuel) ip x lo0 low high enough stale =
      rw (sweep-suc fuel ip lo0 (omega arith)) (
        ground (
          arith,
          sweep-removes fuel (ip + 1) x lo0,
          sweep-removes fuel (ip + 1) x (m.remove lo0 (v4 ip)).0,
          sweep-keeps fuel (ip + 1) x (m.remove lo0 (v4 ip)).0,
          removed lo0 (v4 ip),
          addr_beq_iff (v4 ip) (v4 x),
        ))

sweep_stale-each :
    (m : AliasManager) (laws : RemoveLaws m) (b : ℕ) (n : Network m.Lo0)
    (known : List (String × Addr)) (x : ℕ)
    → Inv b n
    → let q = sweep_stale m n known in
      let stale = leb (b + 2) x && leb x (b + 254) && not (elem (v4 x) (keep_set m n known)) in
      (stale ≡ true → (laws.aliased q.0.lo0 (v4 x) ≡ false) ⊎ (elem (v4 x) q.1 ≡ true))
      × (stale ≡ false → laws.aliased q.0.lo0 (v4 x) ≡ laws.aliased n.lo0 (v4 x))
unfolding sweep_stale
sweep_stale-each m laws b n known x v =
    rw (v.alloc_ok.last_eq, v.alloc_ok.first_eq)
      (
        λ stale.
            sweep-removes m laws (keep_set m n known) (b + 254) (omega (arith, v.alloc_ok.room)) 256
              (b + 2) x n.lo0 (ground arith) (ground arith) (omega arith) (ground arith),
        λ other.
            sweep-keeps m laws (keep_set m n known) (b + 254) (omega (arith, v.alloc_ok.room)) 256
              (b + 2) x n.lo0 (ground arith),
      )

-- SweepStale leaves no alias in the usable range that is neither known nor bound, unless it reports
-- the address; and it touches no other address.
pub sweep_stale-exact :
    (m : AliasManager) (laws : RemoveLaws m) (b : ℕ) (n : Network m.Lo0)
    (known : List (String × Addr)) (x : ℕ)
    → Inv b n
    → let q = sweep_stale m n known in
      let stale = leb (b + 2) x && leb x (b + 254) && not (elem (v4 x) (keep_set m n known)) in
      ((stale ≡ false) ⊎ ((laws.aliased q.0.lo0 (v4 x) ≡ false) ⊎ (elem (v4 x) q.1 ≡ true)))
      × ((stale ≡ true) ⊎ (laws.aliased q.0.lo0 (v4 x) ≡ laws.aliased n.lo0 (v4 x)))
sweep_stale-exact m laws b n known x v =
    let (gone, kept) = sweep_stale-each m laws b n known x v in
    elim (Bool-cases (leb (b + 2) x && leb x (b + 254) && not (elem (v4 x) (keep_set m n known)))) [
      | inl e ↦ (inr (gone e), inl e)
      | inr e ↦ (inl e, inr (kept e))
    ]
