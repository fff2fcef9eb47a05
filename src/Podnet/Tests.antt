-- ===== src/Podnet/Tests.antt =====
-- Concrete runs of the pod network, on the node 100.64.0.0/24 of the cluster 100.64.0.0/10.
use Prim.Native.String.{String}
use darwin_net.Prelude.{
  ℕ, ◌+◌, ◌*◌, ◌≤◌, ◌≡◌, ◌↔◌, ◌⊎◌, arith, refl, true, false, List, [], ◌∷◌, ok, err, elem,
  elem-remove, ==_refl, remove,
}
use darwin_net.Netip.{Addr, v4, addr_eq, zero_prefix, zero_addr, masked, contains, overlaps, next}
use darwin_net.Podnet.Errors.{pool_exhausted}
use darwin_net.Podnet.Cidr.{node_cidr, node_index}
use darwin_net.Podnet.Cidr.Carve.{cidr4, node_index-node_cidr, node_cidr_disjoint}
use darwin_net.Podnet.Allocator.{
  Allocator, new_allocator, allocate, allocate_specific, release, scan, wrap, usable_count,
}
use darwin_net.Podnet.Allocator.Invariant.{
  Within, IsAllocator, new_allocator-IsAllocator, allocate-ok,
}
use darwin_net.Podnet.Allocator.Exhaustion.{allocate-exhausted}
use darwin_net.Podnet.Network.{
  host_process, vm, AliasManager, VmNetworkConfig, Network, new, setup, teardown, reattach,
  sweep_stale, bind, setup_fresh, reattach_fresh, unbind,
}
use darwin_net.Podnet.Network.Invariant.{Inv, new-Inv}
use darwin_net.Podnet.Network.Steps.{Binds, setup-Binds, reattach-Binds}
use darwin_net.Podnet.Network.Histories.{
  Frees, Call, setups, teardowns, reattaches, step, run, teardown-Frees, run-unique_ip,
}
use darwin_net.Podnet.Network.Sweep.{RemoveLaws, sweep_stale-exact}

-- 100.64.0.0
abbrev base : ℕ
base = 1681915904

node_index-node_cidr_example : node_index (cidr4 base 10) (cidr4 (base + 3 * 256) 24) ≡ ok 3
unfolding node_cidr masked
node_index-node_cidr_example =
    node_index-node_cidr base 10 3 (cidr4 (base + 3 * 256) 24) (omega arith) (omega arith) refl

node_cidr_disjoint_example : overlaps (cidr4 base 24) (cidr4 (base + 256) 24) ≡ false
unfolding node_cidr masked
node_cidr_disjoint_example =
    node_cidr_disjoint base 10 0 1 (cidr4 base 24) (cidr4 (base + 256) 24) (omega arith)
      (omega arith) refl refl (λ e. omega (arith, e))

abbrev fresh : Allocator
fresh = record {
  cidr = cidr4 base 24;
  mesh_egress = v4 (base + 1);
  first = v4 (base + 2);
  last = v4 (base + 254);
  cursor = v4 (base + 2);
  allocated = [];
}

abbrev one_held : Allocator
one_held = record fresh { cursor = v4 (base + 3); allocated = v4 (base + 2) ∷ [] }

fresh-IsAllocator : IsAllocator base fresh
unfolding new_allocator masked next
fresh-IsAllocator = (new_allocator-IsAllocator base fresh (omega arith) refl).0

one_held-IsAllocator : IsAllocator base one_held
unfolding allocate scan wrap usable_count next
one_held-IsAllocator = (allocate-ok base fresh one_held (v4 (base + 2)) fresh-IsAllocator refl).3

allocate-ok_example :
    Within (base + 2) (base + 254) (v4 (base + 2))
    × (elem (v4 (base + 2)) [] ≡ false)
    × (one_held.allocated ≡ v4 (base + 2) ∷ [])
    × IsAllocator base one_held
unfolding allocate scan wrap usable_count next
allocate-ok_example = allocate-ok base fresh one_held (v4 (base + 2)) fresh-IsAllocator refl

allocate-exhausted_example :
    (allocate one_held ≡ err pool_exhausted)
    ↔ ((x : ℕ) → base + 2 ≤ x → x ≤ base + 254 → elem (v4 x) one_held.allocated ≡ true)
allocate-exhausted_example = allocate-exhausted base one_held one_held-IsAllocator

-- an lo0 that is the list of its addresses
abbrev lo0_manager : AliasManager
lo0_manager = record {
  Lo0 = List Addr;
  ensure = λ l a. (a ∷ l, true);
  remove = λ l a. (remove a l, true);
}

abbrev no_vms : VmNetworkConfig
no_vms = record { nat_subnet = zero_prefix; gateway = zero_addr; dns_vip = zero_addr }

abbrev no_aliases : List Addr
no_aliases = []

abbrev empty : Network (List Addr)
empty = record { alloc = fresh; lo0 = []; vm_config = no_vms; by_pod = []; inverse = [] }

empty-Inv : Inv base empty
unfolding new new_allocator masked next
empty-Inv = new-Inv base no_vms no_aliases empty (omega arith) refl

setup-Binds_example :
    Binds base empty "web"
      (setup lo0_manager empty "web" host_process).0
      (setup lo0_manager empty "web" host_process).1
setup-Binds_example = setup-Binds lo0_manager base empty empty-Inv "web" host_process

abbrev web : Network (List Addr)
web = record empty {
  alloc = one_held;
  lo0 = v4 (base + 2) ∷ [];
  by_pod = ("web", record { ip = v4 (base + 2); backend = host_process }) ∷ [];
  inverse = (v4 (base + 2), "web") ∷ [];
}

web-Inv : Inv base web
unfolding setup setup_fresh bind allocate scan wrap usable_count next
web-Inv = (setup-Binds lo0_manager base empty empty-Inv "web" host_process).0

reattach-Binds_example :
    Binds base web "db"
      (reattach lo0_manager web "db" (v4 (base + 9)) vm).0
      (reattach lo0_manager web "db" (v4 (base + 9)) vm).1
reattach-Binds_example = reattach-Binds lo0_manager base web web-Inv "db" (v4 (base + 9)) vm

teardown-Frees_example :
    Frees base web "web" (teardown lo0_manager web "web").0 (teardown lo0_manager web "web").1
teardown-Frees_example = teardown-Frees lo0_manager base web web-Inv "web"

abbrev calls : List Call
calls =
    setups "web" host_process
    ∷ reattaches "db" (v4 (base + 9)) vm
    ∷ teardowns "web"
    ∷ setups "api" vm
    ∷ []

abbrev api : String
api = "api"

run-unique_ip_example : api ≡ api
unfolding new new_allocator masked next run step setup setup_fresh bind reattach reattach_fresh
    teardown unbind allocate allocate_specific scan wrap usable_count contains release
run-unique_ip_example =
    run-unique_ip lo0_manager base no_vms no_aliases empty calls api api (v4 (base + 3))
      (omega arith) refl refl refl

-- the laws of that lo0
abbrev lo0_laws : RemoveLaws lo0_manager
lo0_laws = record {
  aliased = λ l a. elem a l;
  removed = λ l a h. ground (arith, elem-remove a a l, ==_refl a);
  untouched = λ l a c h. ground (arith, elem-remove a c l, addr_eq.beq_iff a c, h);
}

-- an alias that a crash left behind
abbrev leftover : List Addr
leftover = v4 (base + 7) ∷ []

abbrev stray : Network (List Addr)
stray = record empty { lo0 = leftover }

stray-Inv : Inv base stray
unfolding new new_allocator masked next
stray-Inv = new-Inv base no_vms leftover stray (omega arith) refl

sweep_stale-exact_example :
    ((true ≡ false)
      ⊎ ((elem (v4 (base + 7)) (sweep_stale lo0_manager stray []).0.lo0 ≡ false)
          ⊎ (elem (v4 (base + 7)) (sweep_stale lo0_manager stray []).1 ≡ true)))
    × ((true ≡ true)
        ⊎ (elem (v4 (base + 7)) (sweep_stale lo0_manager stray []).0.lo0
            ≡ elem (v4 (base + 7)) stray.lo0))
sweep_stale-exact_example =
    sweep_stale-exact lo0_manager lo0_laws base stray [] (base + 7) stray-Inv
