-- ===== src/Netip/Blocks.antt =====
-- Arithmetic of address blocks: a block of 256 * d addresses holds d blocks of 256.
use darwin_net.Prelude.{ℕ, zero, suc, ◌+◌, ◌-◌, ◌*◌, ◌/◌, ◌^◌, ◌≤◌, ◌<◌, ◌≡◌, sym, ap, ◌∙◌, arith}
use native.Mathlib.Nat.{pow-suc, div-eq_of_lt-le, div-lt_iff_lt-mul, mul_assoc}

pub two_pow-add : (m k : ℕ) → 2 ^ (k + m) ≡ 2 ^ k * 2 ^ m
two_pow-add zero k = let e : k + zero ≡ k = omega arith in rw e (omega arith)
two_pow-add (suc m) k =
    let e : k + suc m ≡ suc (k + m) = omega arith in
    rw e (
      pow-suc 2 (k + m)
      ∙ ap (λ t. t * 2) (two_pow-add m k)
      ∙ mul_assoc (2 ^ k) (2 ^ m) 2
      ∙ ap (λ t. 2 ^ k * t) (sym (pow-suc 2 m)))

pub two_pow-pos : (m : ℕ) → 0 < 2 ^ m
two_pow-pos zero = omega arith
two_pow-pos (suc m) = omega (arith, pow-suc 2 m, two_pow-pos m)

-- a block of a prefix of n ≤ 24 bits holds 2 ^ (24 - n) blocks of 256 addresses
pub block-slash24 : (n : ℕ) → n ≤ 24 → 2 ^ (32 - n) ≡ 256 * 2 ^ (24 - n)
block-slash24 n h = let e : 32 - n ≡ 8 + (24 - n) = omega arith in rw e (two_pow-add (24 - n) 8)

pub block-total : (n : ℕ) → n ≤ 32 → 2 ^ n * 2 ^ (32 - n) ≡ 2 ^ 32
block-total n h = let e : n + (32 - n) ≡ 32 = omega arith in sym (two_pow-add (32 - n) n) ∙ (rw e)

-- The i-th block of 256 in the block of 256 * d addresses that holds `a` neither leaves the
-- address space of m such blocks nor the block, and starts at a multiple of 256.
module _ (a d m i : ℕ) (inside : a < m * (256 * d)) (small : i < d) where
  abbrev base : ℕ
  base = a / (256 * d) * (256 * d)

  -- the quotient, and the block's size
  base-lt : base + 256 * i < base + 256 * d
  base-lt = omega arith

  pub carve-lt : base + 256 * i < m * (256 * d)
  carve-lt =
      let pos : 0 < 256 * d = omega arith in
      let q : suc (a / (256 * d)) ≤ m = (div-lt_iff_lt-mul pos).1 inside in
      omega (arith, base-lt, le_mul q)
    where
      le_mul : suc (a / (256 * d)) ≤ m → suc (a / (256 * d)) * (256 * d) ≤ m * (256 * d)
      le_mul h = grind arith

  pub carve-block : (base + 256 * i) / (256 * d) ≡ a / (256 * d)
  carve-block = div-eq_of_lt-le (256 * d) (omega arith) (omega (arith, base-lt))

  pub carve-aligned : (base + 256 * i) / 256 * 256 ≡ base + 256 * i
  carve-aligned = omega arith
