-- ===== src/Proxy/Routing/Bounded.antt =====
-- The account of affinity bindings (affinity.go): affinityCount against the maps that it counts, and
-- the two caps.
use darwin_net.Prelude.{
  ℕ, ◌+◌, ◌-◌, ◌≤◌, ◌≡◌, arith, true, List, [], ◌∷◌, none, some, elem, Distinct, length, max,
}
use darwin_net.Prelude.Maps.{
  lookup, insert, delete, keys, Distinct-insert, Distinct-delete, delete_absent, length-delete,
}
use darwin_net.Netip.{Addr, addr_eq}
use darwin_net.Proxy.Routing.{PortKey, port_key_eq, Bindings, RoutingTable}
use darwin_net.Proxy.Routing.Install.{bindings_of}
use darwin_net.Proxy.Routing.Pick.{put_bindings, drop_binding}

-- how many bindings the map holds
abbrev pub total_bindings : List (PortKey × Bindings) → ℕ
total_bindings [] = 0
total_bindings ((key, binds) ∷ m) = length binds + total_bindings m

-- each port's bindings: no client twice, and no more than the cap allows
abbrev pub PortsBounded : ℕ → List (PortKey × Bindings) → Type 0
PortsBounded cap [] = Unit
PortsBounded cap ((key, binds) ∷ m) =
    (Distinct (keys binds) × (length binds ≤ cap)) × PortsBounded cap m

-- The account is right: no port twice, the count is the number of bindings, and both caps hold.
abbrev pub Affinity : RoutingTable → Type 0
Affinity t =
    Distinct (keys t.affinity)
    × PortsBounded (max 1 t.max_affinity_per_port) t.affinity
    × (t.affinity_count ≡ total_bindings t.affinity)
    × (t.affinity_count ≤ max 1 t.max_affinity_total)

abbrev found : PortKey → List (PortKey × Bindings) → Bindings
found key m = elim (lookup key m) [ none ↦ [] | some binds ↦ binds ]

found-PortsBounded :
    (cap : ℕ) (key : PortKey) (m : List (PortKey × Bindings))
    → PortsBounded cap m
    → Distinct (keys (found key m)) × (length (found key m) ≤ cap)
found-PortsBounded cap key [] h = (tt, omega arith)
found-PortsBounded cap key ((j, binds) ∷ m) h =
    ground (arith, h.0, found-PortsBounded cap key m h.1)

pub insert-PortsBounded :
    (cap : ℕ) (key : PortKey) (binds : Bindings) (m : List (PortKey × Bindings))
    → PortsBounded cap m
    → Distinct (keys binds)
    → length binds ≤ cap
    → PortsBounded cap (insert key binds m)
insert-PortsBounded cap key binds [] h d l = ((d, l), tt)
insert-PortsBounded cap key binds ((j, bs) ∷ m) h d l =
    ground (arith, h.0, h.1, d, l, insert-PortsBounded cap key binds m h.1 d l)

pub delete-PortsBounded :
    (cap : ℕ) (key : PortKey) (m : List (PortKey × Bindings))
    → PortsBounded cap m
    → PortsBounded cap (delete key m)
delete-PortsBounded cap key [] h = tt
delete-PortsBounded cap key ((j, bs) ∷ m) h =
    ground (arith, h.0, h.1, delete-PortsBounded cap key m h.1)

pub total-insert :
    (key : PortKey) (binds : Bindings) (m : List (PortKey × Bindings))
    → total_bindings (insert key binds m) + length (found key m) ≡ total_bindings m + length binds
total-insert key binds [] = ground arith
total-insert key binds ((j, bs) ∷ m) = ground (arith, total-insert key binds m)

pub total-delete :
    (key : PortKey) (m : List (PortKey × Bindings))
    → Distinct (keys m)
    → total_bindings (delete key m) + length (found key m) ≡ total_bindings m
total-delete key [] d = ground arith
total-delete key ((j, bs) ∷ m) d =
    ground (arith, d, port_key_eq.beq_iff j key, total-delete key m d.1, delete_absent key m)

-- A port's bindings are replaced by ones that fit its cap; the count follows.
pub put-Affinity :
    (t : RoutingTable) (key : PortKey) (binds : Bindings) (n : ℕ)
    → Affinity t
    → Distinct (keys binds)
    → length binds ≤ max 1 t.max_affinity_per_port
    → n + length (bindings_of t key) ≡ t.affinity_count + length binds
    → n ≤ max 1 t.max_affinity_total
    → Affinity (record (put_bindings t key binds) { affinity_count = n })
put-Affinity t key binds n (d, b, c, l) db lb e ln = (
  Distinct-insert key binds t.affinity d,
  insert-PortsBounded (max 1 t.max_affinity_per_port) key binds t.affinity b db lb,
  omega (arith, e, c, total-insert key binds t.affinity),
  ln,
)

pub bindings-Affinity :
    (t : RoutingTable) (key : PortKey)
    → Affinity t
    → Distinct (keys (bindings_of t key))
      × (length (bindings_of t key) ≤ max 1 t.max_affinity_per_port)
bindings-Affinity t key a = found-PortsBounded (max 1 t.max_affinity_per_port) key t.affinity a.1

-- A client's binding is dropped, and it is there.
pub drop_binding-Affinity :
    (t : RoutingTable) (key : PortKey) (client : Addr)
    → Affinity t
    → elem client (keys (bindings_of t key)) ≡ true
    → Affinity (drop_binding t key client)
unfolding drop_binding
drop_binding-Affinity t key client a h =
    let (d, l) = bindings-Affinity t key a in
    let shorter = length-delete client (bindings_of t key) d in
    let total = total-insert key (delete client (bindings_of t key)) t.affinity in
    put-Affinity t key (delete client (bindings_of t key)) (t.affinity_count - 1) a
      (Distinct-delete client (bindings_of t key) d) (ground (arith, l, shorter))
      (ground (arith, h, shorter, total, a)) (omega (arith, a))
