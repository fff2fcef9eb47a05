-- ===== src/Mesh/Refuse/Tests.antt =====
-- A SYN from 100.64.1.9 to 100.64.0.7, an address of the node 100.64.0.0/24 that no pod holds.
use darwin_net.Prelude.{ℕ, ◌≡◌, refl, Bool, true, false, List, [], ◌∷◌, ◌++◌, some, arith}
use darwin_net.Netip.{Addr, Prefix, contains}
use darwin_net.Podnet.Cidr.Carve.{cidr4}
use darwin_net.Mesh.Refuse.{
  refuse_syn, tcp_reset, ones_sum, fold_carries, inet_checksum, reset_header, reset_segment,
  pseudo_header,
}
use darwin_net.Mesh.Refuse.Reset.{tcp_reset_checksums, refuse_syn_reset}

abbrev syn : List ℕ
syn =
    0x45 ∷ 0 ∷ 0 ∷ 40 ∷ 0 ∷ 0 ∷ 0 ∷ 0 ∷ 64 ∷ 6 ∷ 0 ∷ 0 ∷ 100 ∷ 64 ∷ 1 ∷ 9 ∷ 100 ∷ 64 ∷ 0 ∷ 7 ∷ 3
    ∷ 232 ∷ 0 ∷ 80 ∷ 0 ∷ 0 ∷ 0 ∷ 1 ∷ 0 ∷ 0 ∷ 0 ∷ 0 ∷ 0x50 ∷ 2 ∷ 255 ∷ 255 ∷ 0 ∷ 0 ∷ 0 ∷ 0 ∷ []

abbrev node : Prefix
node = cidr4 1681915904 24

abbrev no_pods : Addr → Bool
no_pods a = false

abbrev header_check : ℕ
header_check = inet_checksum (reset_header syn 0) 0

abbrev pseudo : ℕ
pseudo = ones_sum (pseudo_header syn) 0

abbrev segment_check : ℕ
segment_check = inet_checksum (reset_segment syn 0) pseudo

tcp_reset_checksums_example :
    (tcp_reset syn ≡ reset_header syn header_check ++ reset_segment syn segment_check)
    × (fold_carries 2 (ones_sum (reset_header syn header_check) 0) ≡ 65535)
    × (fold_carries 2 (ones_sum (reset_segment syn segment_check) pseudo) ≡ 65535)
tcp_reset_checksums_example = tcp_reset_checksums syn (ground arith)

refuse_syn_reset_example : refuse_syn (tcp_reset syn) node (some no_pods) ≡ false
refuse_syn_reset_example = refuse_syn_reset syn node (some no_pods)

-- the SYN itself is refused
syn_refused : refuse_syn syn node (some no_pods) ≡ true
unfolding refuse_syn contains
syn_refused = refl

-- the checksum of the reset's header
reset_checks : header_check ≡ 28992
unfolding inet_checksum ones_sum fold_carries
reset_checks = refl
