-- ===== src/Mesh/Refuse.antt =====
-- The refusal of connections to addresses that no pod holds (pkg/mesh/refuse.go). A packet is the list
-- of its bytes; the device below and the wake of a blocked Read are not modelled beyond the packets
-- that reach the device.
pub mod Checksum
pub mod Reset
mod Tests
use darwin_net.Prelude.{
  ℕ, zero, suc, ◌+◌, ◌-◌, ◌*◌, ◌/◌, ◌%◌, ◌^◌, Bool, true, false, not, ◌&&◌, ◌||◌, if◌then◌else◌,
  List, [], ◌∷◌, ◌++◌, Option, none, some, ltb, leb, nat_beq, length, get_or,
}
use darwin_net.Netip.{Addr, v4, Prefix, is4, prefix_valid, bits, contains}

abbrev pub refuse_queue : ℕ
refuse_queue = 64

abbrev pub byte_at : List ℕ → ℕ → ℕ
byte_at pkt i = get_or pkt i 0

-- binary.BigEndian.Uint16 and Uint32
abbrev pub uint16_at : List ℕ → ℕ → ℕ
uint16_at pkt i = byte_at pkt i * 256 + byte_at pkt (i + 1)

abbrev pub uint32_at : List ℕ → ℕ → ℕ
uint32_at pkt i = uint16_at pkt i * 65536 + uint16_at pkt (i + 2)

-- the bit of weight 2 ^ n
abbrev pub flag : ℕ → ℕ → Bool
flag n f = nat_beq (f / 2 ^ n % 2) 1

-- of SYN, ACK, RST and FIN, SYN alone is set
abbrev pub only_syn : ℕ → Bool
only_syn f = flag 1 f && not (flag 4 f) && not (flag 2 f) && not (flag 0 f)

abbrev pub header_length : List ℕ → ℕ
header_length pkt = byte_at pkt 0 % 16 * 4

abbrev pub total_length : List ℕ → ℕ
total_length pkt = uint16_at pkt 2

abbrev pub data_offset : List ℕ → ℕ
data_offset pkt = byte_at pkt (header_length pkt + 12) / 16 * 4

-- refuseSYN; allocated is none for a nil function
unfoldable pub refuse_syn : List ℕ → Prefix → Option (Addr → Bool) → Bool
refuse_syn pkt node none = false
refuse_syn pkt node (some allocated) =
    let ihl = header_length pkt in
    let total = total_length pkt in
    let doff = data_offset pkt in
    let src = v4 (uint32_at pkt 12) in
    let dst = v4 (uint32_at pkt 16) in
    if not (prefix_valid node) || not (is4 node.addr) || not (nat_beq (bits node) 24)
    then false
    else if ltb (length pkt) 20
        || not (nat_beq (byte_at pkt 0 / 16) 4)
        || not (nat_beq (byte_at pkt 9) 6)
    then false
    else if ltb ihl 20 || ltb (length pkt) total || ltb total (ihl + 20)
    then false
    else if not (nat_beq (uint16_at pkt 6 % 2 ^ 14) 0)
    then false
    else if ltb doff 20 || ltb (total - ihl) doff || not (only_syn (byte_at pkt (ihl + 13)))
    then false
    else if contains node src || not (contains node dst)
    then false
    else if ltb (byte_at pkt 19) 2 || ltb 254 (byte_at pkt 19)
    then false
    else not (allocated dst)

-- onesSum, a uint32 that wraps
unfoldable pub ones_sum : List ℕ → ℕ → ℕ
ones_sum [] acc = acc
ones_sum (a ∷ []) acc = (acc + a * 256) % 2 ^ 32
ones_sum (a ∷ b ∷ bs) acc = ones_sum bs ((acc + (a * 256 + b)) % 2 ^ 32)

-- The loop of inetChecksum, on fuel: a uint32 needs two rounds.
unfoldable pub fold_carries : ℕ → ℕ → ℕ
fold_carries zero acc = acc
fold_carries (suc fuel) acc =
    let rest = fold_carries fuel (acc % 2 ^ 16 + acc / 2 ^ 16) in
    if nat_beq (acc / 2 ^ 16) 0 then acc else rest

unfoldable pub inet_checksum : List ℕ → ℕ → ℕ
inet_checksum b acc = 2 ^ 16 - 1 - fold_carries 2 (ones_sum b acc) % 2 ^ 16

abbrev pub high : ℕ → ℕ
high w = w / 256

abbrev pub low : ℕ → ℕ
low w = w % 256

-- four bytes of a packet, copied
abbrev pub four : List ℕ → ℕ → List ℕ → List ℕ
four pkt i rest =
    byte_at pkt i ∷ byte_at pkt (i + 1) ∷ byte_at pkt (i + 2) ∷ byte_at pkt (i + 3) ∷ rest

-- the IPv4 header of the reset, with a checksum
abbrev pub reset_header : List ℕ → ℕ → List ℕ
reset_header syn check =
    0x45
    ∷ 0
    ∷ 0
    ∷ 40
    ∷ 0
    ∷ 0
    ∷ 0x40
    ∷ 0
    ∷ 64
    ∷ 6
    ∷ high check
    ∷ low check
    ∷ four syn 16 (four syn 12 [])

-- the acknowledgement: the SYN's number, its data and the SYN itself, as a uint32
abbrev pub reset_ack : List ℕ → ℕ
reset_ack syn =
    (uint32_at syn (header_length syn + 4)
      + ((total_length syn - header_length syn - data_offset syn) + 1))
    % 2 ^ 32

-- the TCP header of the reset, with a checksum
abbrev pub reset_segment : List ℕ → ℕ → List ℕ
reset_segment syn check =
    let ihl = header_length syn in
    let ack = reset_ack syn in
    byte_at syn (ihl + 2)
    ∷ byte_at syn (ihl + 3)
    ∷ byte_at syn ihl
    ∷ byte_at syn (ihl + 1)
    ∷ 0
    ∷ 0
    ∷ 0
    ∷ 0
    ∷ ack / 2 ^ 24
    ∷ ack / 2 ^ 16 % 256
    ∷ ack / 2 ^ 8 % 256
    ∷ ack % 256
    ∷ 80
    ∷ 20
    ∷ 0
    ∷ 0
    ∷ high check
    ∷ low check
    ∷ 0
    ∷ 0
    ∷ []

abbrev pub pseudo_header : List ℕ → List ℕ
pseudo_header syn = four syn 16 (four syn 12 (0 ∷ 6 ∷ 0 ∷ 20 ∷ []))

unfoldable pub tcp_reset : List ℕ → List ℕ
tcp_reset syn =
    reset_header syn (inet_checksum (reset_header syn 0) 0)
    ++ reset_segment syn (inet_checksum (reset_segment syn 0) (ones_sum (pseudo_header syn) 0))

-- The packets that go down to the device and the resets that wait, the oldest first.
pub record Refuser : Type 0 where
  pub queue : List (List ℕ)

-- inject: a reset that finds the queue full is dropped
unfoldable pub inject : Refuser → List ℕ → Refuser
inject r pkt =
    if ltb (length r.queue) refuse_queue then record { queue = r.queue ++ pkt ∷ [] } else r

-- the loop of Write: the packets kept
unfoldable pub write_loop : (List ℕ → Bool) → Refuser → List (List ℕ) → Refuser × List (List ℕ)
write_loop refuse r [] = (r, [])
write_loop refuse r (b ∷ bufs) =
    let kept = write_loop refuse r bufs in
    let refused = write_loop refuse (inject r (tcp_reset b)) bufs in
    if not (refuse b) then (kept.0, b ∷ kept.1) else refused

-- the reset that a Read takes first, if one waits
unfoldable pub read_queue : Refuser → Option (List ℕ) × Refuser
read_queue r = elim r.queue [ [] ↦ (none, r) | p ∷ ps ↦ (some p, record { queue = ps }) ]
