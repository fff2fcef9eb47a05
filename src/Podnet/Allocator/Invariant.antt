-- ===== src/Podnet/Allocator/Invariant.antt =====
-- What holds of an allocator between calls.
use darwin_net.Prelude.{
  ℕ, zero, suc, ◌+◌, ◌*◌, ◌/◌, ◌^◌, ◌≤◌, ◌<◌, ◌≡◌, refl, Bool, true, false, arith, [], ◌∷◌, elem,
  leb, if◌then◌else◌, Bool-cases, inl, inr, remove, All-remove, Distinct, Distinct-remove, All, ok,
}
use darwin_net.Netip.{Addr, zero_addr, v4, v6, addr_eq, next, next_v4, masked}
use darwin_net.Podnet.Cidr.Carve.{cidr4}
use darwin_net.Podnet.Allocator.{
  Allocator, new_allocator, usable_count, scan, wrap, allocate, allocate_specific, release,
}

-- a v4 address from lo to hi
abbrev pub Within : ℕ → ℕ → Addr → Type 0
Within lo hi zero_addr = ⊥
Within lo hi (v4 a) = (lo ≤ a) × (a ≤ hi)
Within lo hi (v6 a) = ⊥

-- `b` is the network address of the /24.
pub record IsAllocator (b : ℕ) (a : Allocator) : Type 0 where
  pub room : b + 255 < 2 ^ 32
  pub aligned : b / 256 * 256 ≡ b
  pub cidr_eq : a.cidr ≡ cidr4 b 24
  pub mesh_egress_eq : a.mesh_egress ≡ v4 (b + 1)
  pub first_eq : a.first ≡ v4 (b + 2)
  pub last_eq : a.last ≡ v4 (b + 254)
  pub cursor_within : Within (b + 2) (b + 255) a.cursor
  pub usable : All (Within (b + 2) (b + 254)) a.allocated
  pub distinct : Distinct a.allocated

-- A new allocator over a /24 is well formed and empty.
pub new_allocator-IsAllocator :
    (x : ℕ) (a : Allocator)
    → x < 2 ^ 32
    → new_allocator (cidr4 x 24) ≡ ok a
    → IsAllocator (x / 256 * 256) a × (a.allocated ≡ [])
unfolding new_allocator next masked
new_allocator-IsAllocator x a h e = ground arith

pub usable_count_lem : (b : ℕ) (a : Allocator) → IsAllocator b a → usable_count a ≡ 253
unfolding usable_count
usable_count_lem b a v = ground arith

-- where a round looks, from a candidate inside the range or just behind it
abbrev pub wrap_pos : ℕ → ℕ → ℕ
wrap_pos b c = if leb c (b + 254) then c else b + 2

wrap_lem : (b c : ℕ) (a : Allocator) → IsAllocator b a → wrap a (v4 c) ≡ v4 (wrap_pos b c)
unfolding wrap
wrap_lem b c a v = ground arith

-- one round of the scan
pub scan-suc :
    (b n c : ℕ) (a : Allocator)
    → IsAllocator b a
    → b + 2 ≤ c
    → c ≤ b + 255
    → scan (suc n) (v4 c) a ≡ (
        if elem (v4 (wrap_pos b c)) a.allocated
        then scan n (v4 (wrap_pos b c + 1)) a
        else ok (
          v4 (wrap_pos b c),
          record a { cursor = v4 (wrap_pos b c + 1); allocated = v4 (wrap_pos b c) ∷ a.allocated },
        ))
unfolding scan
scan-suc b n c a v low high = rw (wrap_lem b c a v, next_v4 (wrap_pos b c) (ground arith))

-- what a successful scan has found
scan-ok :
    (b n c : ℕ) (a a' : Allocator) (ip : Addr)
    → IsAllocator b a
    → b + 2 ≤ c
    → c ≤ b + 255
    → scan n (v4 c) a ≡ ok (ip, a')
    → (x : ℕ) × (ip ≡ v4 x)
      × (b + 2 ≤ x)
      × (x ≤ b + 254)
      × (elem (v4 x) a.allocated ≡ false)
      × (a' ≡ record a { cursor = v4 (x + 1); allocated = v4 x ∷ a.allocated })
scan-ok b zero c a a' ip v low high e = unfold scan in ground arith
scan-ok b (suc n) c a a' ip v low high e =
    let e' = rw (scan-suc b n c a v low high) at e in
    elim (Bool-cases (elem (v4 (wrap_pos b c)) a.allocated)) [
      | inl taken ↦
          scan-ok b n (wrap_pos b c + 1) a a' ip v (ground arith) (ground arith) (ground arith)
      | inr free ↦ (wrap_pos b c, ground arith, ground arith, ground arith, free, ground arith)
    ]

take-IsAllocator :
    (b x : ℕ) (a : Allocator)
    → IsAllocator b a
    → b + 2 ≤ x
    → x ≤ b + 254
    → elem (v4 x) a.allocated ≡ false
    → IsAllocator b (record a { cursor = v4 (x + 1); allocated = v4 x ∷ a.allocated })
take-IsAllocator b x a v low high free = record {
  room = v.room;
  aligned = v.aligned;
  cidr_eq = v.cidr_eq;
  mesh_egress_eq = v.mesh_egress_eq;
  first_eq = v.first_eq;
  last_eq = v.last_eq;
  cursor_within = omega arith;
  usable = ((low, high), v.usable);
  distinct = (free, v.distinct);
}

-- Allocate hands out a usable address that nobody holds, records it and keeps the invariant.
pub allocate-ok :
    (b : ℕ) (a a' : Allocator) (ip : Addr)
    → IsAllocator b a
    → allocate a ≡ ok (ip, a')
    → Within (b + 2) (b + 254) ip
      × (elem ip a.allocated ≡ false)
      × (a'.allocated ≡ ip ∷ a.allocated)
      × IsAllocator b a'
unfolding allocate
allocate-ok b a a' ip v e = from a.cursor v.cursor_within (rw (usable_count_lem b a v) at e)
  where
    from :
        (c : Addr)
        → Within (b + 2) (b + 255) c
        → scan 253 c a ≡ ok (ip, a')
        → Within (b + 2) (b + 254) ip
          × (elem ip a.allocated ≡ false)
          × (a'.allocated ≡ ip ∷ a.allocated)
          × IsAllocator b a'
    from zero_addr w f = elim w [ ]
    from (v6 c) w f = elim w [ ]
    from (v4 c) w f =
        let (x, is_x, low, high, free, after) = scan-ok b 253 c a a' ip v w.0 w.1 f in
        rw (is_x, after) ((low, high), free, refl, take-IsAllocator b x a v low high free)

-- AllocateSpecific takes a usable address, or finds it held and changes nothing; it keeps the invariant.
pub allocate_specific-IsAllocator :
    (b : ℕ) (a a' : Allocator) (ip : Addr) (held : Bool)
    → IsAllocator b a
    → allocate_specific a ip ≡ ok (held, a')
    → Within (b + 2) (b + 254) ip
      × (elem ip a.allocated ≡ held)
      × (a'.allocated ≡ (if held then a.allocated else ip ∷ a.allocated))
      × IsAllocator b a'
unfolding allocate_specific
allocate_specific-IsAllocator b a a' ip held v e = ground arith

-- Release frees an address that was held, and keeps the invariant.
pub release-IsAllocator :
    (b : ℕ) (a a' : Allocator) (ip : Addr)
    → IsAllocator b a
    → release a ip ≡ ok a'
    → (elem ip a.allocated ≡ true) × (a'.allocated ≡ remove ip a.allocated) × IsAllocator b a'
unfolding release
release-IsAllocator b a a' ip v e =
    ground
      (arith, Distinct-remove ip a.allocated, All-remove (Within (b + 2) (b + 254)) ip a.allocated)
