-- ===== src/Podnet/Allocator.antt =====
-- Allocator (allocator.go): the IPAM core of one node's /24. A method returns the new state; on an
-- error the Go method has written nothing, so the caller keeps the old state. The mutex makes each
-- method one step.
pub mod Invariant
pub mod Exhaustion
use darwin_net.Prelude.{
  ℕ, zero, suc, ◌+◌, ◌-◌, ◌%◌, ◌^◌, Bool, true, false, not, ◌&&◌, ◌||◌, nat_beq, if◌then◌else◌,
  List, [], ◌∷◌, length, elem, remove, Result, ok, err,
}
use darwin_net.Netip.{
  Addr, Prefix, addr_eq, is_valid, is4, is6, value, next, less, prefix_valid, bits, masked,
  contains,
}
use darwin_net.Podnet.Errors.{PodnetError, out_of_range, pool_exhausted, not_allocated}
use darwin_net.Podnet.Cidr.{last_host_in_slash24}

pub record Allocator : Type 0 where
  pub cidr : Prefix
  pub mesh_egress : Addr
  pub first : Addr
  pub last : Addr
  -- the cursor that Allocate scans from
  pub cursor : Addr
  pub allocated : List Addr

unfoldable pub new_allocator : Prefix → Result PodnetError Allocator
new_allocator c =
    if not (prefix_valid c)
    then err out_of_range
    else if is6 c.addr
    then err out_of_range
    else if not (nat_beq (bits c) 24)
    then err out_of_range
    else ok (record {
      cidr = masked c;
      mesh_egress = next network;
      first = next (next network);
      last = last_host_in_slash24 network;
      cursor = next (next network);
      allocated = [];
    })
  where
    network : Addr
    network = (masked c).addr

-- the uint32 difference, plus one
unfoldable pub usable_count : Allocator → ℕ
usable_count a = (value a.last + 2 ^ 32 - value a.first) % 2 ^ 32 + 1

unfoldable pub capacity : Allocator → ℕ
unfolding usable_count
capacity a = usable_count a

-- the address that a round of the scan looks at
unfoldable pub wrap : Allocator → Addr → Addr
wrap a c = if not (is_valid c) || less a.last c then a.first else c

-- `for i := 0; i < a.usableCount(); i++`, over the rounds left and the candidate
unfoldable pub scan : ℕ → Addr → Allocator → Result PodnetError (Addr × Allocator)
scan zero c a = err pool_exhausted
scan (suc n) c a =
    let ip = wrap a c in
    let rest = scan n (next ip) a in
    if elem ip a.allocated
    then rest
    else ok (ip, record a { cursor = next ip; allocated = ip ∷ a.allocated })

unfoldable pub allocate : Allocator → Result PodnetError (Addr × Allocator)
unfolding scan usable_count
allocate a = scan (usable_count a) a.cursor a

abbrev pub in_host_range : Allocator → Addr → Bool
in_host_range a ip =
    if not (is4 ip) || not (contains a.cidr ip)
    then false
    else not (less ip a.first) && not (less a.last ip)

-- the Bool is alreadyHeld
unfoldable pub allocate_specific : Allocator → Addr → Result PodnetError (Bool × Allocator)
allocate_specific a ip =
    if not (in_host_range a ip)
    then err out_of_range
    else if elem ip a.allocated
    then ok (true, a)
    else ok (false, record a { allocated = ip ∷ a.allocated })

unfoldable pub release : Allocator → Addr → Result PodnetError Allocator
release a ip =
    if elem ip a.allocated
    then ok (record a { allocated = remove ip a.allocated })
    else err not_allocated

abbrev pub is_allocated : Allocator → Addr → Bool
is_allocated a ip = elem ip a.allocated

abbrev pub in_use : Allocator → ℕ
in_use a = length a.allocated
