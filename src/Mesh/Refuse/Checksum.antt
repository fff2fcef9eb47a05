-- ===== src/Mesh/Refuse/Checksum.antt =====
-- Arithmetic of the Internet checksum (refuse.go: onesSum, inetChecksum).
use darwin_net.Prelude.{
  ℕ, zero, suc, ◌+◌, ◌-◌, ◌*◌, ◌/◌, ◌%◌, ◌^◌, ◌<◌, ◌≡◌, arith, refl, if◌then◌else◌, List, [], ◌∷◌,
  nat_beq, length, All,
}
use darwin_net.Mesh.Refuse.{ones_sum, fold_carries}

-- the sum without the wrap
unfoldable pub words : List ℕ → ℕ
words [] = 0
words (a ∷ []) = a * 256
words (a ∷ b ∷ bs) = a * 256 + b + words bs

abbrev pub IsByte : ℕ → Type 0
IsByte b = b < 256

pub ones_sum_exact :
    (bs : List ℕ) (acc : ℕ)
    → All IsByte bs
    → acc + 65536 * length bs < 2 ^ 32
    → ones_sum bs acc ≡ acc + words bs
unfolding ones_sum words
ones_sum_exact [] acc h room = omega arith
ones_sum_exact (a ∷ []) acc h room = omega (arith, h.0)
ones_sum_exact (a ∷ b ∷ bs) acc h room =
    let small : (acc + (a * 256 + b)) % 2 ^ 32 ≡ acc + (a * 256 + b) =
      omega (arith, h.0, h.1.0, room) in
    rw small (
      omega
        (arith, ones_sum_exact bs (acc + (a * 256 + b)) h.1.1 (omega (arith, h.0, h.1.0, room))))

fold_small : (fuel x : ℕ) → x < 2 ^ 16 → fold_carries fuel x ≡ x
unfolding fold_carries
fold_small zero x h = refl
fold_small (suc fuel) x h = ground (arith, h)

-- two rounds fold a uint32 to its residue below 2 ^ 16
pub fold_carries_lem :
    (fuel acc : ℕ)
    → acc < 2 ^ 32
    → fold_carries (suc (suc fuel)) acc ≡ (if nat_beq acc 0 then 0 else (acc + 65534) % 65535 + 1)
unfolding fold_carries
fold_carries_lem fuel acc h = ground (
  arith,
  h,
  fold_small fuel ((acc % 65536 + acc / 65536) % 65536 + (acc % 65536 + acc / 65536) / 65536),
)

-- a sum, with its complement added, folds to ones
pub fold_carries_complement :
    (s : ℕ) → s + 65535 < 2 ^ 32 → fold_carries 2 (s + (65535 - fold_carries 2 s)) ≡ 65535
fold_carries_complement s h =
    let f = fold_carries 2 s in
    ground (
      arith,
      h,
      fold_carries_lem 0 s (omega arith),
      fold_carries_lem 0 (s + (65535 - f)) (omega arith),
    )
