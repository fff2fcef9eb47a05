-- ===== src/Mesh/Refuse/Reset.antt =====
-- The reset that answers a SYN, and what refuseSYN and Write accept (refuse.go).
use darwin_net.Prelude.{
  ℕ, zero, suc, ◌+◌, ◌-◌, ◌*◌, ◌^◌, ◌≤◌, ◌<◌, ◌≡◌, arith, refl, Bool, true, false, not, List, [],
  ◌∷◌, ◌++◌, Option, none, some, length, All, Bool-cases, inl, inr, filter_by, length-append,
}
use darwin_net.Netip.{Addr, v4, Prefix, contains}
use darwin_net.Mesh.Refuse.{
  byte_at, uint16_at, uint32_at, only_syn, header_length, total_length, data_offset, refuse_syn,
  ones_sum, fold_carries, inet_checksum, reset_header, reset_ack, reset_segment, pseudo_header,
  tcp_reset, Refuser, inject, write_loop, refuse_queue,
}
use darwin_net.Mesh.Refuse.Checksum.{
  IsByte, words, ones_sum_exact, fold_carries_lem, fold_carries_complement,
}

byte_at-IsByte : (pkt : List ℕ) (i : ℕ) → All IsByte pkt → byte_at pkt i < 256
byte_at-IsByte [] i h = omega arith
byte_at-IsByte (b ∷ bs) zero h = h.0
byte_at-IsByte (b ∷ bs) (suc i) h = byte_at-IsByte bs i h.1

inet_checksum_lem :
    (bs : List ℕ) (acc s : ℕ)
    → ones_sum bs acc ≡ s
    → s < 2 ^ 32
    → inet_checksum bs acc ≡ 65535 - fold_carries 2 s
unfolding inet_checksum
inet_checksum_lem bs acc s e h = rw e (ground (arith, h, fold_carries_lem 0 s h))

-- a list of bytes sums to at most this
words_le : (bs : List ℕ) → All IsByte bs → words bs ≤ 65536 * length bs
unfolding words
words_le [] h = omega arith
words_le (a ∷ []) h = omega (arith, h.0)
words_le (a ∷ b ∷ bs) h = omega (arith, h.0, h.1.0, words_le bs h.1.1)

-- what is sent with its checksum verifies
checksum_verifies :
    (make : ℕ → List ℕ) (acc : ℕ)
    → ((c : ℕ) → c < 65536 → All IsByte (make c))
    → ((c : ℕ) → c < 65536 → words (make c) ≡ words (make 0) + c)
    → ((c : ℕ) → length (make c) ≡ 20)
    → acc ≤ 65536 * 12
    → fold_carries 2 (ones_sum (make (inet_checksum (make 0) acc)) acc) ≡ 65535
checksum_verifies make acc bytes linear size room =
    let s = acc + words (make 0) in
    let bound = words_le (make 0) (bytes 0 (omega arith)) in
    let first : ones_sum (make 0) acc ≡ s =
      ones_sum_exact (make 0) acc (bytes 0 (omega arith)) (omega (arith, size 0, room)) in
    let c = inet_checksum (make 0) acc in
    let at : c ≡ 65535 - fold_carries 2 s =
      inet_checksum_lem (make 0) acc s first (omega (arith, size 0, room, bound)) in
    let small : c < 65536 = omega (arith, at) in
    let whole : ones_sum (make c) acc ≡ s + (65535 - fold_carries 2 s) = omega (
      arith,
      ones_sum_exact (make c) acc (bytes c small) (omega (arith, size c, room)),
      linear c small,
      at,
    ) in
    rw whole (fold_carries_complement s (omega (arith, size 0, room, bound)))

module _ (syn : List ℕ) (bytes : All IsByte syn) where
  header_bytes : (c : ℕ) → c < 65536 → All IsByte (reset_header syn c)
  header_bytes c h = ground (
    arith,
    h,
    byte_at-IsByte syn 12 bytes,
    byte_at-IsByte syn 13 bytes,
    byte_at-IsByte syn 14 bytes,
    byte_at-IsByte syn 15 bytes,
    byte_at-IsByte syn 16 bytes,
    byte_at-IsByte syn 17 bytes,
    byte_at-IsByte syn 18 bytes,
    byte_at-IsByte syn 19 bytes,
  )

  words-reset_header :
      (c : ℕ) → c < 65536 → words (reset_header syn c) ≡ words (reset_header syn 0) + c
  unfolding words
  words-reset_header c h = omega (arith, h)

  words-reset_segment :
      (c : ℕ) → c < 65536 → words (reset_segment syn c) ≡ words (reset_segment syn 0) + c
  unfolding words
  words-reset_segment c h = omega (arith, h)

  segment_bytes : (c : ℕ) → c < 65536 → All IsByte (reset_segment syn c)
  segment_bytes c h = ground (
    arith,
    h,
    byte_at-IsByte syn (header_length syn) bytes,
    byte_at-IsByte syn (header_length syn + 1) bytes,
    byte_at-IsByte syn (header_length syn + 2) bytes,
    byte_at-IsByte syn (header_length syn + 3) bytes,
  )

  pseudo_bytes : All IsByte (pseudo_header syn)
  pseudo_bytes = ground (
    arith,
    byte_at-IsByte syn 12 bytes,
    byte_at-IsByte syn 13 bytes,
    byte_at-IsByte syn 14 bytes,
    byte_at-IsByte syn 15 bytes,
    byte_at-IsByte syn 16 bytes,
    byte_at-IsByte syn 17 bytes,
    byte_at-IsByte syn 18 bytes,
    byte_at-IsByte syn 19 bytes,
  )

-- Both checksums of the reset verify, for whatever packet of bytes it answers: the header, and the
-- segment with its pseudo header, each fold to ones.
pub tcp_reset_checksums :
    (syn : List ℕ)
    → All IsByte syn
    → let header_check = inet_checksum (reset_header syn 0) 0 in
      let pseudo = ones_sum (pseudo_header syn) 0 in
      let segment_check = inet_checksum (reset_segment syn 0) pseudo in
      (tcp_reset syn ≡ reset_header syn header_check ++ reset_segment syn segment_check)
      × (fold_carries 2 (ones_sum (reset_header syn header_check) 0) ≡ 65535)
      × (fold_carries 2 (ones_sum (reset_segment syn segment_check) pseudo) ≡ 65535)
tcp_reset_checksums syn bytes = (
  (unfold tcp_reset in refl),
  checksum_verifies (reset_header syn) 0 (header_bytes syn bytes) (words-reset_header syn bytes)
      (λ c. refl) (omega arith),
  checksum_verifies (reset_segment syn) (ones_sum (pseudo_header syn) 0) (segment_bytes syn bytes)
      (words-reset_segment syn bytes) (λ c. refl)
      (omega (
        arith,
        ones_sum_exact (pseudo_header syn) 0 (pseudo_bytes syn bytes) (omega arith),
        words_le (pseudo_header syn) (pseudo_bytes syn bytes),
      )),
)

-- The reset goes from the SYN's destination to its source with the ports swapped, acknowledges
-- reset_ack, carries RST and ACK alone, and is 40 bytes long.
pub tcp_reset_addressed :
    (syn : List ℕ)
    → let r = tcp_reset syn in
      let ihl = header_length syn in
      (uint32_at r 12 ≡ uint32_at syn 16)
      × (uint32_at r 16 ≡ uint32_at syn 12)
      × (uint16_at r 20 ≡ uint16_at syn (ihl + 2))
      × (uint16_at r 22 ≡ uint16_at syn ihl)
      × (uint32_at r 28 ≡ reset_ack syn)
      × (byte_at r 33 ≡ 20)
      × (length r ≡ 40)
unfolding tcp_reset
tcp_reset_addressed syn =
    let third : header_length syn + 2 + 1 ≡ header_length syn + 3 = omega arith in
    (refl, refl, rw third refl, refl, omega arith, refl, refl)

-- A reset is never refused itself.
pub refuse_syn_reset :
    (syn : List ℕ) (node : Prefix) (allocated : Option (Addr → Bool))
    → refuse_syn (tcp_reset syn) node allocated ≡ false
unfolding refuse_syn tcp_reset
refuse_syn_reset syn node none = refl
refuse_syn_reset syn node (some allocated) = ground arith

-- What refuseSYN accepts is a SYN alone, from outside the node's /24 to an address of it with a last
-- byte from 2 to 254 that no pod holds; the bytes that the reset reads lie within the packet.
pub refuse_syn_accepts :
    (pkt : List ℕ) (node : Prefix) (allocated : Addr → Bool)
    → refuse_syn pkt node (some allocated) ≡ true
    → (only_syn (byte_at pkt (header_length pkt + 13)) ≡ true)
      × (contains node (v4 (uint32_at pkt 12)) ≡ false)
      × (contains node (v4 (uint32_at pkt 16)) ≡ true)
      × (2 ≤ byte_at pkt 19)
      × (byte_at pkt 19 ≤ 254)
      × (allocated (v4 (uint32_at pkt 16)) ≡ false)
      × (20 ≤ header_length pkt)
      × (header_length pkt + 20 ≤ total_length pkt)
      × (total_length pkt ≤ length pkt)
      × (header_length pkt + data_offset pkt ≤ total_length pkt)
unfolding refuse_syn
refuse_syn_accepts pkt node allocated h = ground (arith, h)

inject_bound :
    (r : Refuser) (pkt : List ℕ)
    → length r.queue ≤ refuse_queue
    → length (inject r pkt).queue ≤ refuse_queue
unfolding inject
inject_bound r pkt room = ground (arith, room, length-append r.queue (pkt ∷ []))

-- Write lets exactly the packets through that are not refused, in order, and the queue of resets
-- grows to its bound at most.
pub write_loop_keeps :
    (refuse : List ℕ → Bool) (r : Refuser) (bufs : List (List ℕ))
    → length r.queue ≤ refuse_queue
    → let q = write_loop refuse r bufs in
      (q.1 ≡ filter_by (λ b. not (refuse b)) bufs) × (length q.0.queue ≤ refuse_queue)
unfolding write_loop
write_loop_keeps refuse r [] room = (refl, room)
write_loop_keeps refuse r (b ∷ bufs) room = elim (Bool-cases (refuse b)) [
  | inr kept ↦
      let (same, bound) = write_loop_keeps refuse r bufs room in
      rw (kept, write_loop) (ground (arith, same), bound)
  | inl refused ↦
      rw (refused, write_loop)
        (write_loop_keeps refuse (inject r (tcp_reset b)) bufs (inject_bound r (tcp_reset b) room))
]
