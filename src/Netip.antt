-- ===== src/Netip.antt =====
-- What the source uses of Go's net/netip: addresses and prefixes without zones. A v4 address is its
-- 32-bit value, a v6 address its 128-bit value; the zero Addr and the zero Prefix are invalid.
pub mod Blocks
use darwin_net.Prelude.{
  ℕ, zero, suc, ◌+◌, ◌-◌, ◌*◌, ◌/◌, ◌%◌, ◌^◌, ◌≤◌, ◌<◌, ◌≡◌, refl, ◌↔◌, Bool, true, false, not,
  ◌&&◌, ◌||◌, arith, ltb, leb, nat_beq, nat_beq_iff, if◌then◌else◌, Eq, ◌==◌, min,
}

pub data Addr : Type 0 where
  zero_addr : Addr
  v4 v6 : ℕ → Addr

abbrev pub addr_beq : Addr → Addr → Bool
addr_beq zero_addr zero_addr = true
addr_beq (v4 a) (v4 b) = nat_beq a b
addr_beq (v6 a) (v6 b) = nat_beq a b
addr_beq _ _ = false

pub addr_beq_iff : (a b : Addr) → (addr_beq a b ≡ true) ↔ (a ≡ b)
addr_beq_iff zero_addr zero_addr = ground arith
addr_beq_iff zero_addr (v4 b) = ground arith
addr_beq_iff zero_addr (v6 b) = ground arith
addr_beq_iff (v4 a) zero_addr = ground arith
addr_beq_iff (v4 a) (v4 b) = ground arith
addr_beq_iff (v4 a) (v6 b) = ground arith
addr_beq_iff (v6 a) zero_addr = ground arith
addr_beq_iff (v6 a) (v4 b) = ground arith
addr_beq_iff (v6 a) (v6 b) = ground arith

instance abbrev pub addr_eq : Eq Addr
addr_eq = record { beq = addr_beq; beq_iff = addr_beq_iff }

abbrev pub is_valid : Addr → Bool
is_valid zero_addr = false
is_valid _ = true

abbrev pub is4 : Addr → Bool
is4 (v4 a) = true
is4 _ = false

-- Is6 includes the v4-mapped v6 addresses.
abbrev pub is6 : Addr → Bool
is6 (v6 a) = true
is6 _ = false

abbrev pub bit_len : Addr → ℕ
bit_len zero_addr = 0
bit_len (v4 a) = 32
bit_len (v6 a) = 128

-- the numeric value; 0 for the zero Addr
abbrev pub value : Addr → ℕ
value zero_addr = 0
value (v4 a) = a
value (v6 a) = a

-- Unmap turns ::ffff:a.b.c.d into a.b.c.d.
abbrev pub unmap : Addr → Addr
unmap (v6 a) = if nat_beq (a / 2 ^ 32) 0xffff then v4 (a % 2 ^ 32) else v6 a
unmap a = a

-- 127.0.0.0/8 and ::1, a v4-mapped address taken as v4
abbrev pub is_loopback : Addr → Bool
is_loopback zero_addr = false
is_loopback (v4 a) = nat_beq (a / 2 ^ 24) 127
is_loopback (v6 a) =
    if nat_beq (a / 2 ^ 32) 0xffff then nat_beq (a % 2 ^ 32 / 2 ^ 24) 127 else nat_beq a 1

-- Next is the zero Addr past the last address.
unfoldable pub next : Addr → Addr
next zero_addr = zero_addr
next (v4 a) = if ltb (a + 1) (2 ^ 32) then v4 (a + 1) else zero_addr
next (v6 a) = if ltb (a + 1) (2 ^ 128) then v6 (a + 1) else zero_addr

-- Less: Compare orders by bit length, then by value.
abbrev pub less : Addr → Addr → Bool
less zero_addr zero_addr = false
less zero_addr _ = true
less (v4 a) zero_addr = false
less (v4 a) (v4 b) = ltb a b
less (v4 a) (v6 b) = true
less (v6 a) zero_addr = false
less (v6 a) (v4 b) = false
less (v6 a) (v6 b) = ltb a b

-- A Prefix as Go stores it: bits_plus_one is 0 for an invalid prefix.
pub record Prefix : Type 0 where
  pub addr : Addr
  pub bits_plus_one : ℕ

abbrev pub zero_prefix : Prefix
zero_prefix = record { addr = zero_addr; bits_plus_one = 0 }

abbrev pub prefix_valid : Prefix → Bool
prefix_valid p = ltb 0 p.bits_plus_one

-- Bits of a valid prefix
abbrev pub bits : Prefix → ℕ
bits p = p.bits_plus_one - 1

abbrev pub prefix_from : Addr → ℕ → Prefix
prefix_from a n = record {
  addr = a;
  bits_plus_one = if is_valid a && leb n (bit_len a) then n + 1 else 0;
}

-- the size of a block of n bits out of len
abbrev pub block : ℕ → ℕ → ℕ
block len n = 2 ^ (len - n)

abbrev pub mask_addr : Addr → ℕ → Addr
mask_addr zero_addr n = zero_addr
mask_addr (v4 a) n = v4 (a / block 32 n * block 32 n)
mask_addr (v6 a) n = v6 (a / block 128 n * block 128 n)

unfoldable pub masked : Prefix → Prefix
masked p = if prefix_valid p then prefix_from (mask_addr p.addr (bits p)) (bits p) else zero_prefix

-- same family, and equal above the host bits
abbrev pub same_block : Addr → Addr → ℕ → Bool
same_block (v4 a) (v4 b) n = nat_beq (a / block 32 n) (b / block 32 n)
same_block (v6 a) (v6 b) n = nat_beq (a / block 128 n) (b / block 128 n)
same_block _ _ n = false

unfoldable pub contains : Prefix → Addr → Bool
contains p a = prefix_valid p && same_block p.addr a (bits p)

unfoldable pub overlaps : Prefix → Prefix → Bool
overlaps p q = prefix_valid p && prefix_valid q && same_block p.addr q.addr (min (bits p) (bits q))

abbrev pub prefix_beq : Prefix → Prefix → Bool
prefix_beq p q = addr_beq p.addr q.addr && nat_beq p.bits_plus_one q.bits_plus_one

pub prefix_beq_iff : (p q : Prefix) → (prefix_beq p q ≡ true) ↔ (p ≡ q)
prefix_beq_iff p q = ground (arith, addr_beq_iff p.addr q.addr)

instance abbrev pub prefix_eq : Eq Prefix
prefix_eq = record { beq = prefix_beq; beq_iff = prefix_beq_iff }

-- What parsing and construction give: a value in its width, and bits within the width.
abbrev pub InWidth : Addr → Type 0
InWidth zero_addr = Unit
InWidth (v4 a) = a < 2 ^ 32
InWidth (v6 a) = a < 2 ^ 128

pub next_v4 : (a : ℕ) → a + 1 < 2 ^ 32 → next (v4 a) ≡ v4 (a + 1)
unfolding next
next_v4 a h = ground arith
