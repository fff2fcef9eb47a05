-- ===== src/Podnet/Cidr/Carve.antt =====
-- The carve of the cluster CIDR into /24s and the way back (allocator.go: NodeCIDR, NodeIndex).
use darwin_net.Prelude.{
  ℕ, suc, ◌+◌, ◌-◌, ◌*◌, ◌/◌, ◌%◌, ◌^◌, ◌≤◌, ◌<◌, ◌≡◌, ◌≢◌, sym, ap, ◌∙◌, min, arith, Bool-cases,
  inl, inr, true, false, ok, pos,
}
use darwin_net.Netip.{v4, Prefix, masked, overlaps, contains}
use darwin_net.Netip.Blocks.{
  block-slash24, block-total, carve-lt, carve-block, carve-aligned, two_pow-pos,
}
use mathlib.Core.Path.{subst}
use native.Mathlib.Nat.{mul-div_cancel, div-mul-le_self, lt-div-mul-add}
use darwin_net.Podnet.Cidr.{node_cidr, node_index}

-- an IPv4 prefix of n bits, as the parser gives it
abbrev pub cidr4 : ℕ → ℕ → Prefix
cidr4 a n = record { addr = v4 a; bits_plus_one = suc n }

-- the network address of n bits
abbrev pub network : ℕ → ℕ → ℕ
network a n = a / 2 ^ (32 - n) * 2 ^ (32 - n)

sub_one : (n : ℕ) → suc n - 1 ≡ n
sub_one n = omega arith

pub masked-cidr4 : (a n : ℕ) → n ≤ 32 → masked (cidr4 a n) ≡ cidr4 (network a n) n
unfolding masked
masked-cidr4 a n h = rw sub_one (ground arith)

pub contains-cidr4 :
    (a n b : ℕ) → a / 2 ^ (32 - n) ≡ b / 2 ^ (32 - n) → contains (cidr4 a n) (v4 b) ≡ true
unfolding contains
contains-cidr4 a n b h = rw sub_one (ground arith)

module _ (a n i : ℕ) (inside : a < 2 ^ 32) (wide : n ≤ 24) (small : i < 2 ^ (24 - n)) where
  inside' : a < 2 ^ n * (256 * 2 ^ (24 - n))
  inside' = rw (← block-slash24 n wide, block-total n (omega arith)) inside

  node_base-lt : network a n + 256 * i < 2 ^ 32
  node_base-lt =
      rw (← block-total n (omega arith), block-slash24 n wide)
        (carve-lt a (2 ^ (24 - n)) (2 ^ n) i inside' small)

  node_base-block : (network a n + 256 * i) / 2 ^ (32 - n) ≡ a / 2 ^ (32 - n)
  node_base-block = rw (block-slash24 n wide) (carve-block a (2 ^ (24 - n)) (2 ^ n) i inside' small)

  node_base-aligned : network (network a n + 256 * i) 24 ≡ network a n + 256 * i
  node_base-aligned =
      rw (block-slash24 n wide) (carve-aligned a (2 ^ (24 - n)) (2 ^ n) i inside' small)

  node_cidr_lem : node_cidr (cidr4 a n) (pos i) ≡ ok (cidr4 (network a n + 256 * i) 24)
  unfolding node_cidr
  node_cidr_lem = rw (masked-cidr4 a n (omega arith), sub_one) (ground (arith, node_base-lt))

  node_index_lem : node_index (cidr4 a n) (cidr4 (network a n + 256 * i) 24) ≡ ok i
  unfolding node_index
  node_index_lem =
      rw
        (
          masked-cidr4 a n (omega arith),
          masked-cidr4 (network a n + 256 * i) 24 (omega arith),
          node_base-aligned,
          contains-cidr4 (network a n) n (network a n + 256 * i) same,
          sub_one,
        )
        (ground (arith, node_base-lt))
    where
      same : network a n / 2 ^ (32 - n) ≡ (network a n + 256 * i) / 2 ^ (32 - n)
      same = rw (node_base-block) (mul-div_cancel (a / 2 ^ (32 - n)) (two_pow-pos (32 - n)))

-- An index is accepted exactly when it is below the number of /24s in the cluster CIDR.
node_cidr_accepts :
    (a n i : ℕ) {p : Prefix}
    → n ≤ 32
    → node_cidr (cidr4 a n) (pos i) ≡ ok p
    → (n ≤ 24) × (i < 2 ^ (24 - n))
unfolding node_cidr
node_cidr_accepts a n i w h = let h' = rw (masked-cidr4 a n w, sub_one) at h in ground arith

-- Whatever /24 the carve hands out for an index, NodeIndex gives that index back.
pub node_index-node_cidr :
    (a n i : ℕ) (p : Prefix)
    → a < 2 ^ 32
    → n ≤ 32
    → node_cidr (cidr4 a n) (pos i) ≡ ok p
    → node_index (cidr4 a n) p ≡ ok i
node_index-node_cidr a n i p inside width h =
    let (wide, small) = node_cidr_accepts a n i width h in
    cc (h, node_cidr_lem a n i inside wide small, node_index_lem a n i inside wide small)

contains-block :
    (a n b : ℕ) → contains (cidr4 a n) (v4 b) ≡ true → a / 2 ^ (32 - n) ≡ b / 2 ^ (32 - n)
unfolding contains
contains-block a n b h = let h' = rw sub_one at h in ground arith

-- What NodeIndex has checked when it returns, and what it returns.
node_index_accepts :
    (a n b m i : ℕ)
    → n ≤ 32
    → m ≤ 32
    → node_index (cidr4 a n) (cidr4 b m) ≡ ok i
    → (n ≤ 24)
      × (m ≡ 24)
      × (contains (cidr4 (network a n) n) (v4 (network b m)) ≡ true)
      × (i ≡ (network b m + 2 ^ 32 - network a n) % 2 ^ 32 / 256)
unfolding node_index
node_index_accepts a n b m i hn hm h =
    let h' = rw (masked-cidr4 a n hn, masked-cidr4 b m hm, sub_one) at h in ground arith

-- The index of a /24 of the block is below the number of /24s, and leads back to it.
recover :
    (q d b : ℕ)
    → q * (256 * d) ≤ b / 256 * 256
    → b / 256 * 256 < q * (256 * d) + 256 * d
    → b < 2 ^ 32
    → let i = (b / 256 * 256 + 2 ^ 32 - q * (256 * d)) % 2 ^ 32 / 256 in
      (i < d) × (q * (256 * d) + 256 * i ≡ b / 256 * 256)
recover q d b low high fits = omega arith

module _ (a n b i : ℕ) (ha : a < 2 ^ 32) (hn : n ≤ 32) (hb : b < 2 ^ 32) where
  recovered :
      node_index (cidr4 a n) (cidr4 b 24) ≡ ok i
      → (n ≤ 24) × (i < 2 ^ (24 - n)) × (network a n + 256 * i ≡ network b 24)
  recovered h = (
    wide,
    rw (← index') found.0,
    ap (λ t. a / 2 ^ (32 - n) * t + 256 * i) block ∙ (rw index' at found.1),
  )
    where
      checked :
          (n ≤ 24)
          × ◌≡◌ {A = ℕ} 24 24
          × (contains (cidr4 (network a n) n) (v4 (network b 24)) ≡ true)
          × (i ≡ (network b 24 + 2 ^ 32 - network a n) % 2 ^ 32 / 256)
      checked = node_index_accepts a n b 24 i hn (omega arith) h

      wide : n ≤ 24
      wide = checked.0

      block : 2 ^ (32 - n) ≡ 256 * 2 ^ (24 - n)
      block = block-slash24 n wide

      index' : (network b 24 + 2 ^ 32 - a / 2 ^ (32 - n) * (256 * 2 ^ (24 - n))) % 2 ^ 32 / 256 ≡ i
      index' = rw (← block) (sym checked.3)

      q : ℕ
      q = a / 2 ^ (32 - n)

      same : network b 24 / (256 * 2 ^ (24 - n)) ≡ q
      same = rw (← block) (
          sym (contains-block (network a n) n (network b 24) checked.2)
          ∙ mul-div_cancel q (two_pow-pos (32 - n)))

      found :
          let j = (network b 24 + 2 ^ 32 - q * (256 * 2 ^ (24 - n))) % 2 ^ 32 / 256 in
          (j < 2 ^ (24 - n)) × (q * (256 * 2 ^ (24 - n)) + 256 * j ≡ network b 24)
      found =
          recover q (2 ^ (24 - n)) b
            (rw same at (div-mul-le_self (network b 24) (256 * 2 ^ (24 - n))))
            (rw same at (
              lt-div-mul-add {a = network b 24} {b = 256 * 2 ^ (24 - n)}
                (omega (arith, two_pow-pos (24 - n)))))
            hb

  slash24 :
      node_index (cidr4 a n) (cidr4 b 24) ≡ ok i
      → node_cidr (cidr4 a n) (pos i) ≡ ok (masked (cidr4 b 24))
  slash24 h =
      let (wide, small, base) = recovered h in
      rw (node_cidr_lem a n i ha wide small, masked-cidr4 b 24 (omega arith), base)

-- The inverse: the /24 that NodeIndex accepts is the one that the carve hands out for its index.
pub node_cidr-node_index :
    (a n b m i : ℕ)
    → a < 2 ^ 32
    → n ≤ 32
    → b < 2 ^ 32
    → m ≤ 32
    → node_index (cidr4 a n) (cidr4 b m) ≡ ok i
    → node_cidr (cidr4 a n) (pos i) ≡ ok (masked (cidr4 b m))
node_cidr-node_index a n b m i ha hn hb hm h =
    let slash = (node_index_accepts a n b m i hn hm h).1 in
    subst
      (λ k.
        node_index (cidr4 a n) (cidr4 b k) ≡ ok i
        → node_cidr (cidr4 a n) (pos i) ≡ ok (masked (cidr4 b k)))
      (sym slash) (slash24 a n b i ha hn hb) h

overlaps-cidr4 :
    (a b n : ℕ) → overlaps (cidr4 a n) (cidr4 b n) ≡ true → a / 2 ^ (32 - n) ≡ b / 2 ^ (32 - n)
unfolding overlaps
overlaps-cidr4 a b n h =
    let e : min (suc n - 1) (suc n - 1) ≡ n = omega arith in let h' = rw e at h in ground arith

-- Two nodes with different indices never share an address: their /24s do not overlap.
pub node_cidr_disjoint :
    (a n i j : ℕ) (p q : Prefix)
    → a < 2 ^ 32
    → n ≤ 32
    → node_cidr (cidr4 a n) (pos i) ≡ ok p
    → node_cidr (cidr4 a n) (pos j) ≡ ok q
    → i ≢ j
    → overlaps p q ≡ false
node_cidr_disjoint a n i j p q ha hn hp hq ne = elim (Bool-cases (overlaps p q)) [
  | inr e ↦ e
  | inl e ↦
      let (wide, small_i) = node_cidr_accepts a n i hn hp in
      let (_, small_j) = node_cidr_accepts a n j hn hq in
      let p_is : p ≡ cidr4 (network a n + 256 * i) 24 =
        cc (hp, node_cidr_lem a n i ha wide small_i) in
      let q_is : q ≡ cidr4 (network a n + 256 * j) 24 =
        cc (hq, node_cidr_lem a n j ha wide small_j) in
      let meet =
        overlaps-cidr4 (network a n + 256 * i) (network a n + 256 * j) 24 (rw (p_is, q_is) at e) in
      absurd (
        ne (
          omega (
            arith,
            meet,
            node_base-aligned a n i ha wide small_i,
            node_base-aligned a n j ha wide small_j,
          )))
]
