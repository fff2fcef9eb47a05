-- ===== src/Podnet/Network/Invariant.antt =====
-- The invariant of the pod network: its two maps against each other and against the allocator.
use Prim.Native.String.{String}
use text.Mathlib.TextEquality.{eq_iff}
use darwin_net.Prelude.{
  ℕ, ◌≡◌, refl, sym, ap, ◌∙◌, ◌<◌, ◌/◌, ◌*◌, ◌^◌, true, false, arith, [], ◌∷◌, none, some, elem,
  remove, remove_absent, elem-remove, Distinct, ok, err, Result-cases, inl, inr, string_eq, ==_refl,
}
use darwin_net.Prelude.Maps.{
  lookup, insert, delete, keys, lookup-insert, lookup-delete, elem-keys-lookup, elem-keys-insert,
  elem-keys-delete, Distinct-insert, Distinct-delete,
}
use darwin_net.Netip.{Addr, addr_eq, addr_beq_iff}
use darwin_net.Podnet.Cidr.Carve.{cidr4}
use darwin_net.Podnet.Errors.{PodnetError}
use darwin_net.Podnet.Allocator.{Allocator, new_allocator, release}
use darwin_net.Podnet.Allocator.Invariant.{
  IsAllocator, new_allocator-IsAllocator, release-IsAllocator,
}
use darwin_net.Podnet.Network.{Network, PodEntry, Backend, VmNetworkConfig, new, released, ip_of}

none≢some {ℓ} : {A : Type ℓ} {a : A} → none ≡ some a → ⊥
none≢some h = cc

pub record Inv {L : Type 0} (b : ℕ) (n : Network L) : Type 0 where
  pub alloc_ok : IsAllocator b n.alloc
  pub pods_distinct : Distinct (keys n.by_pod)
  pub ips_distinct : Distinct (keys n.inverse)
  pub forward :
      (p : String) (e : PodEntry) → lookup p n.by_pod ≡ some e → lookup e.ip n.inverse ≡ some p
  pub backward : (ip : Addr) (p : String) → lookup ip n.inverse ≡ some p → ip_of n p ≡ some ip
  pub held : (ip : Addr) → elem ip n.alloc.allocated ≡ elem ip (keys n.inverse)

-- a release of a held address succeeds
pub released_lem :
    (b : ℕ) (a : Allocator) (ip : Addr)
    → IsAllocator b a
    → elem ip a.allocated ≡ true
    → IsAllocator b (released a ip) × ((released a ip).allocated ≡ remove ip a.allocated)
released_lem b a ip v h =
    let e : release a ip ≡ ok (record a { allocated = remove ip a.allocated }) =
      unfold release in rw h in
    let (_, _, v') = release-IsAllocator b a _ ip v e in rw (e, released) (v', refl)

module _ {L : Type 0} (b : ℕ) (n : Network L) (v : Inv b n) where
  -- only lo0 has changed
  pub lo0-Inv : (lo0 : L) → Inv b (record n { lo0 = lo0 })
  lo0-Inv lo0 = record {
    alloc_ok = v.alloc_ok;
    pods_distinct = v.pods_distinct;
    ips_distinct = v.ips_distinct;
    forward = v.forward;
    backward = v.backward;
    held = v.held;
  }

  -- the state after an address that nobody held is reserved and bound to a pod without one
  pub bound-Inv :
      (lo0 : L) (a : Allocator) (pod : String) (ip : Addr) (backend : Backend)
      → lookup pod n.by_pod ≡ none
      → elem ip n.alloc.allocated ≡ false
      → a.allocated ≡ ip ∷ n.alloc.allocated
      → IsAllocator b a
      → Inv b (record n {
        alloc = a;
        lo0 = lo0;
        by_pod = insert pod (record { ip = ip; backend = backend }) n.by_pod;
        inverse = insert ip pod n.inverse;
      })
  bound-Inv lo0 a pod ip backend fresh free grown ok_a = record {
    alloc_ok = ok_a;
    pods_distinct = Distinct-insert pod _ n.by_pod v.pods_distinct;
    ips_distinct = Distinct-insert ip pod n.inverse v.ips_distinct;
    forward = λ p e found. ground (
      arith,
      lookup-insert pod p (record { ip = ip; backend = backend }) n.by_pod,
      lookup-insert ip e.ip pod n.inverse,
      v.forward p e,
      eq_iff pod p,
      addr_beq_iff ip e.ip,
      v.held ip,
      elem-keys-lookup ip n.inverse,
    );
    backward = λ j p found. ground (
      arith,
      lookup-insert pod p (record { ip = ip; backend = backend }) n.by_pod,
      lookup-insert ip j pod n.inverse,
      v.backward j p,
      eq_iff pod p,
      addr_beq_iff ip j,
      elem-keys-lookup pod n.by_pod,
    );
    held = λ j. ground (arith, elem-keys-insert ip j pod n.inverse, v.held j);
  }

  pub unbound-Inv :
      (lo0 : L) (a : Allocator) (pod : String) (e : PodEntry)
      → lookup pod n.by_pod ≡ some e
      → a.allocated ≡ remove e.ip n.alloc.allocated
      → IsAllocator b a
      → Inv b (record n {
        alloc = a;
        lo0 = lo0;
        by_pod = delete pod n.by_pod;
        inverse = delete e.ip n.inverse;
      })
  unbound-Inv lo0 a pod e found shrunk ok_a = record {
    alloc_ok = ok_a;
    pods_distinct = Distinct-delete pod n.by_pod v.pods_distinct;
    ips_distinct = Distinct-delete e.ip n.inverse v.ips_distinct;
    forward = λ p f at_p. ground (
      arith,
      lookup-delete pod p n.by_pod,
      lookup-delete e.ip f.ip n.inverse,
      v.forward p f,
      v.forward pod e found,
      eq_iff pod p,
      addr_beq_iff e.ip f.ip,
    );
    backward = λ j p at_j. ground (
      arith,
      lookup-delete pod p n.by_pod,
      lookup-delete e.ip j n.inverse,
      v.backward j p,
      eq_iff pod p,
      addr_beq_iff e.ip j,
    );
    held = λ j.
        ground (
          arith,
          elem-keys-delete e.ip j n.inverse,
          v.held j,
          elem-remove e.ip j n.alloc.allocated,
        );
  }

  -- the state after a reservation is rolled back
  pub rollback-Inv :
      (lo0 : L) (a : Allocator) (ip : Addr)
      → elem ip n.alloc.allocated ≡ false
      → a.allocated ≡ ip ∷ n.alloc.allocated
      → IsAllocator b a
      → Inv b (record n { lo0 = lo0; alloc = released a ip })
        × ((released a ip).allocated ≡ n.alloc.allocated)
  rollback-Inv lo0 a ip free grown ok_a = (
    record {
      alloc_ok = back.0;
      pods_distinct = v.pods_distinct;
      ips_distinct = v.ips_distinct;
      forward = v.forward;
      backward = v.backward;
      held = λ j. ap (elem j) same ∙ v.held j;
    },
    same,
  )
    where
      back : IsAllocator b (released a ip) × ((released a ip).allocated ≡ remove ip a.allocated)
      back = released_lem b a ip ok_a (rw grown (ground (arith, ==_refl ip)))

      same : (released a ip).allocated ≡ n.alloc.allocated
      same =
          back.1 ∙ (rw grown (ground (arith, ==_refl ip, remove_absent ip n.alloc.allocated free)))

pub new-Inv :
    {L : Type 0} (x : ℕ) (config : VmNetworkConfig) (lo0 : L) (n : Network L)
    → x < 2 ^ 32
    → new (cidr4 x 24) config lo0 ≡ ok n
    → Inv (x / 256 * 256) n
unfolding new
new-Inv x config lo0 n h e = elim (Result-cases (new_allocator (cidr4 x 24))) [
  | inr (x', f) ↦ absurd (refused x' f)
  | inl (a, f) ↦
      let (ok_a, none_held) = new_allocator-IsAllocator x a h f in
      rw (sym (made a f)) (record {
        alloc_ok = ok_a;
        pods_distinct = tt;
        ips_distinct = tt;
        forward = λ p en found. absurd (none≢some found);
        backward = λ ip p found. absurd (none≢some found);
        held = λ ip. rw none_held;
      })
]
  where
    refused : (x' : PodnetError) → new_allocator (cidr4 x 24) ≡ err x' → ⊥
    refused x' f = let e' = rw (f, new) at e in cc e'

    made :
        (a : Allocator)
        → new_allocator (cidr4 x 24) ≡ ok a
        → record { alloc = a; lo0 = lo0; vm_config = config; by_pod = []; inverse = [] } ≡ n
    made a f = let e' = rw (f, new) at e in cc e'
