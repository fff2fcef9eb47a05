-- ===== src/Podnet/Allocator/Exhaustion.antt =====
-- When Allocate fails (allocator.go), and how many addresses an allocator holds.
use darwin_net.Prelude.{
  ℕ, zero, suc, ◌+◌, ◌≤◌, ◌<◌, ◌≡◌, ◌↔◌, ◌⊎◌, refl, true, false, arith, List, [], ◌∷◌, elem, length,
  leb, if◌then◌else◌, err, Distinct, length_le_of_Subset, All,
}
use darwin_net.Netip.{Addr, zero_addr, v4, v6, addr_eq, addr_beq_iff}
use darwin_net.Podnet.Errors.{PodnetError, pool_exhausted}
use darwin_net.Podnet.Allocator.{Allocator, scan, allocate, in_use, capacity}
use darwin_net.Podnet.Allocator.Invariant.{
  IsAllocator, Within, wrap_pos, scan-suc, usable_count_lem,
}

-- The scan fails with one error only, and then each address that it passed is held.
scan-err :
    (b n c x : ℕ) (a : Allocator) (e : PodnetError)
    → IsAllocator b a
    → b + 2 ≤ c
    → c ≤ b + 255
    → b + 2 ≤ x
    → x ≤ b + 254
    → ((c ≤ x) × (x < c + n)) ⊎ ((x < c) × (x + 253 < c + n))
    → scan n (v4 c) a ≡ err e
    → (elem (v4 x) a.allocated ≡ true)
scan-err b zero c x a e v lc hc lx hx reach h = absurd (omega arith)
scan-err b (suc n) c x a e v lc hc lx hx reach h =
    let h' = rw (scan-suc b n c a v lc hc) at h in
    ground (arith, scan-err b n (wrap_pos b c + 1) x a e v)

scan-all_held :
    (b n c : ℕ) (a : Allocator)
    → IsAllocator b a
    → b + 2 ≤ c
    → c ≤ b + 255
    → ((x : ℕ) → b + 2 ≤ x → x ≤ b + 254 → elem (v4 x) a.allocated ≡ true)
    → scan n (v4 c) a ≡ err pool_exhausted
scan-all_held b zero c a v lc hc held = unfold scan in refl
scan-all_held b (suc n) c a v lc hc held =
    rw (scan-suc b n c a v lc hc)
      (ground (arith, held (wrap_pos b c), scan-all_held b n (wrap_pos b c + 1) a v))

-- Allocate fails exactly when every usable address is held.
pub allocate-exhausted :
    (b : ℕ) (a : Allocator)
    → IsAllocator b a
    → (allocate a ≡ err pool_exhausted)
      ↔ ((x : ℕ) → b + 2 ≤ x → x ≤ b + 254 → elem (v4 x) a.allocated ≡ true)
unfolding allocate
allocate-exhausted b a v = rw (usable_count_lem b a v) (from a.cursor v.cursor_within)
  where
    from :
        (c : Addr)
        → Within (b + 2) (b + 255) c
        → (scan 253 c a ≡ err pool_exhausted)
          ↔ ((x : ℕ) → b + 2 ≤ x → x ≤ b + 254 → elem (v4 x) a.allocated ≡ true)
    from zero_addr w = elim w [ ]
    from (v6 c) w = elim w [ ]
    from (v4 c) w = (
      λ h x lx hx. scan-err b 253 c x a pool_exhausted v w.0 w.1 lx hx (omega arith) h,
      scan-all_held b 253 c a v w.0 w.1,
    )

-- the usable addresses from lo on
addr_range : ℕ → ℕ → List Addr
addr_range lo zero = []
addr_range lo (suc n) = v4 lo ∷ addr_range (lo + 1) n

length-addr_range : (n lo : ℕ) → length (addr_range lo n) ≡ n
unfolding addr_range
length-addr_range zero lo = refl
length-addr_range (suc n) lo = omega (arith, length-addr_range n (lo + 1))

elem-addr_range :
    (n lo x : ℕ)
    → elem (v4 x) (addr_range lo n)
      ≡ (if leb lo x then (if leb (lo + n) x then false else true) else false)
unfolding addr_range
elem-addr_range zero lo x = ground arith
elem-addr_range (suc n) lo x = ground (arith, elem-addr_range n (lo + 1) x)

Distinct-addr_range : (n lo : ℕ) → Distinct (addr_range lo n)
unfolding addr_range
Distinct-addr_range zero lo = tt
Distinct-addr_range (suc n) lo =
    ground (arith, Distinct-addr_range n (lo + 1), elem-addr_range n (lo + 1) lo)

Within-elem :
    (b : ℕ) (ip : Addr) (xs : List Addr)
    → All (Within (b + 2) (b + 254)) xs
    → elem ip xs ≡ true
    → elem ip (addr_range (b + 2) 253) ≡ true
Within-elem b ip [] h e = cc
Within-elem b ip (zero_addr ∷ xs) h e = absurd h.0
Within-elem b ip (v6 x ∷ xs) h e = absurd h.0
Within-elem b ip (v4 x ∷ xs) h e =
    ground (arith, elem-addr_range 253 (b + 2) x, addr_beq_iff (v4 x) ip, Within-elem b ip xs h.1)

-- No allocator holds more addresses than its capacity, which is 253.
pub in_use-le-capacity :
    (b : ℕ) (a : Allocator) → IsAllocator b a → (in_use a ≤ capacity a) × (capacity a ≡ 253)
unfolding capacity
in_use-le-capacity b a v =
    let fits : length a.allocated ≤ length (addr_range (b + 2) 253) =
      length_le_of_Subset a.allocated (addr_range (b + 2) 253) v.distinct
        (Distinct-addr_range 253 (b + 2)) (λ ip e. Within-elem b ip a.allocated v.usable e) in
    (
      omega (arith, fits, usable_count_lem b a v, length-addr_range 253 (b + 2)),
      usable_count_lem b a v,
    )
