-- ===== src/Podnet/Cidr.antt =====
-- NodeCIDR and NodeIndex (allocator.go), MeshEgressIP and MeshLinkIP (meshegress.go).
pub mod Carve
use darwin_net.Prelude.{
  ℕ, ◌+◌, ◌-◌, ◌*◌, ◌/◌, ◌%◌, ◌^◌, Bool, true, false, not, ◌&&◌, ◌||◌, ltb, leb, nat_beq,
  if◌then◌else◌, Result, ok, err, ℤ, pos, negsuc,
}
use darwin_net.Netip.{
  Addr, v4, Prefix, is4, is6, value, next, prefix_valid, bits, prefix_from, masked, contains,
}
use darwin_net.Podnet.Errors.{PodnetError, out_of_range}

abbrev pub node_cidr_bits : ℕ
node_cidr_bits = 24

-- the checks and the sum that follow the mask, on the masked cluster CIDR
carve : Prefix → ℤ → Result PodnetError Prefix
carve c (negsuc i) = err out_of_range
carve c (pos i) =
    if leb (2 ^ (24 - bits c)) i
    then err out_of_range
    else ok (prefix_from (v4 ((value c.addr + (i % 2 ^ 32 * 2 ^ 8) % 2 ^ 32) % 2 ^ 32)) 24)

unfoldable pub node_cidr : Prefix → ℤ → Result PodnetError Prefix
unfolding carve
node_cidr cluster index =
    if not (prefix_valid cluster)
    then err out_of_range
    else if is6 (masked cluster).addr
    then err out_of_range
    else if ltb 24 (bits (masked cluster))
    then err out_of_range
    else carve (masked cluster) index

-- the uint32 difference, in blocks of 256
block_index : Prefix → Prefix → ℕ
block_index c n = (value n.addr + 2 ^ 32 - value c.addr) % 2 ^ 32 / 2 ^ 8

unfoldable pub node_index : Prefix → Prefix → Result PodnetError ℕ
unfolding block_index
node_index cluster node =
    if not (prefix_valid cluster) || not (prefix_valid node)
    then err out_of_range
    else if not (is4 (masked cluster).addr) || not (is4 (masked node).addr)
    then err out_of_range
    else if not (nat_beq (bits (masked node)) 24)
    then err out_of_range
    else if ltb 24 (bits (masked cluster)) || not (contains (masked cluster) (masked node).addr)
    then err out_of_range
    else ok (block_index (masked cluster) (masked node))

-- the .254 and .255 addresses of the /24 of an IPv4 network address
abbrev pub last_host_in_slash24 : Addr → Addr
last_host_in_slash24 a = v4 (value a / 256 * 256 + 254)

abbrev pub broadcast_in_slash24 : Addr → Addr
broadcast_in_slash24 a = v4 (value a / 256 * 256 + 255)

unfoldable pub mesh_egress_ip : Prefix → Result PodnetError Addr
mesh_egress_ip c =
    if not (prefix_valid c)
    then err out_of_range
    else if not (is4 c.addr)
    then err out_of_range
    else if not (nat_beq (bits c) 24)
    then err out_of_range
    else ok (next (masked c).addr)

unfoldable pub mesh_link_ip : Prefix → Result PodnetError Addr
mesh_link_ip c =
    if not (prefix_valid c)
    then err out_of_range
    else if not (is4 c.addr)
    then err out_of_range
    else if not (nat_beq (bits c) 24)
    then err out_of_range
    else ok (broadcast_in_slash24 (masked c).addr)
