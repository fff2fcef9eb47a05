-- ===== src/Podnet/Alias/Tests.antt =====
-- Concrete runs of the lo0 manager, over a kernel that keeps a list of aliases and one of blackholes.
use darwin_net.Prelude.{
  ℕ, ◌+◌, ◌≡◌, ◌≢◌, ◌⊎◌, inr, refl, Bool, true, false, ◌&&◌, List, [], ◌∷◌, Option, none, some,
  Result, ok, err, arith, elem, elem-remove, remove, if◌then◌else◌, ==_refl,
}
use darwin_net.Prelude.Maps.{lookup}
use darwin_net.Netip.{Addr, v4, is4, addr_eq, addr_beq_iff, masked, contains}
use darwin_net.Podnet.Cidr.Carve.{cidr4}
use darwin_net.Podnet.Blackhole.{
  Kernel, is_pod_address, plumb, unplumb, IfconfigVerb, RouteMessage, RequestType, rtm_add,
  rtm_delete, rtm_get, Errno, eexist, esrch, Reply, blackhole_flags, Flags, install_loop, install,
  clear, lookup_host_route, delete_host_route, blackhole_message,
}
use darwin_net.Podnet.Blackhole.Macos.{KernelLaws, discards}
use darwin_net.Podnet.Blackhole.Requests.{install_loop-ends}
use darwin_net.Podnet.Alias.{
  Lo0AliasManager, ensure, remove as remove_alias, new_lo0_alias_manager, plumb_alias,
  ensure_absent, settle,
}
use darwin_net.Podnet.Alias.Apart.{Consistent}
use darwin_net.Podnet.Alias.Managed.{
  ensures, removes, AliasCall, after_calls, FailsAbsent, after_calls-never_both, ensure-Serves,
  remove-Departs, ensure-Consistent,
}

abbrev Lists : Type 0
Lists = List Addr × List Addr

abbrev toy_ifconfig : Lists → IfconfigVerb → Addr → Lists × Bool
toy_ifconfig (l, b) plumb a = if is4 a then ((a ∷ l, b), true) else ((l, b), false)
toy_ifconfig (l, b) unplumb a =
    if is4 a && elem a l then ((remove a l, b), true) else ((l, b), false)

abbrev toy_change : Lists → RequestType → Addr → Lists × Option Errno
toy_change (l, b) rtm_add a = if elem a b then ((l, b), some eexist) else ((l, a ∷ b), none)
toy_change (l, b) rtm_delete a = if elem a b then ((l, remove a b), none) else ((l, b), some esrch)
toy_change k rtm_get a = (k, none)

abbrev toy_exchange : Lists → RouteMessage → Result Errno Reply
toy_exchange (l, b) m =
    if elem m.dst b
    then ok (record { failure = none; flags = blackhole_flags; dst = some m.dst })
    else err esrch

abbrev toy : Kernel
toy = record {
  K = Lists;
  ifconfig = toy_ifconfig;
  write = λ k m. toy_change k m.typ m.dst;
  exchange = toy_exchange;
}

abbrev toy_route : Lists → Addr → Option Flags
toy_route (l, b) a = if elem a b then some blackhole_flags else none

abbrev toy_live : Lists → Addr → Bool
toy_live (l, b) a = is4 a && elem a l

toy_write_live :
    (k : Lists) (t : RequestType) (a c : Addr) → toy_live (toy_change k t a).0 c ≡ toy_live k c
toy_write_live (l, b) rtm_add a c = ground arith
toy_write_live (l, b) rtm_delete a c = ground arith
toy_write_live (l, b) rtm_get a c = refl

toy_failed :
    (k : Lists) (v : IfconfigVerb) (a : Addr)
    → (toy_ifconfig k v a).1 ≡ false
    → toy_live (toy_ifconfig k v a).0 a ≡ toy_live k a
toy_failed (l, b) plumb a h = ground arith
toy_failed (l, b) unplumb a h = ground arith

toy_elsewhere :
    (k : Lists) (v : IfconfigVerb) (a c : Addr)
    → a ≢ c
    → toy_live (toy_ifconfig k v a).0 c ≡ toy_live k c
toy_elsewhere (l, b) plumb a c h = ground (arith, addr_beq_iff a c)
toy_elsewhere (l, b) unplumb a c h = ground (arith, elem-remove a c l, addr_beq_iff a c)

toy_inet :
    (k : Lists) (v : IfconfigVerb) (a : Addr) → is4 a ≡ false → (toy_ifconfig k v a).1 ≡ false
toy_inet (l, b) plumb a h = ground arith
toy_inet (l, b) unplumb a h = ground arith

toy_routes :
    (k : Lists) (v : IfconfigVerb) (a c : Addr)
    → discards (toy_route (toy_ifconfig k v a).0 c) ≡ discards (toy_route k c)
toy_routes (l, b) plumb a c = ground arith
toy_routes (l, b) unplumb a c = ground arith

toy_write_elsewhere :
    (k : Lists) (t : RequestType) (a c : Addr)
    → a ≢ c
    → toy_route (toy_change k t a).0 c ≡ toy_route k c
toy_write_elsewhere (l, b) rtm_add a c h = ground (arith, addr_beq_iff a c)
toy_write_elsewhere (l, b) rtm_delete a c h = ground (arith, elem-remove a c b, addr_beq_iff a c)
toy_write_elsewhere (l, b) rtm_get a c h = refl

toy_write_failed :
    (k : Lists) (t : RequestType) (a : Addr) (e : Errno)
    → (toy_change k t a).1 ≡ some e
    → toy_route (toy_change k t a).0 a ≡ toy_route k a
toy_write_failed (l, b) rtm_add a e h = ground arith
toy_write_failed (l, b) rtm_delete a e h = ground arith
toy_write_failed (l, b) rtm_get a e h = refl

toy_write :
    (k : Lists) (t : RequestType) (a : Addr)
    → toy.write k (blackhole_message t a) ≡ toy_change k t a
toy_write k rtm_add a = refl
toy_write k rtm_delete a = refl
toy_write k rtm_get a = refl

abbrev toy_laws : KernelLaws toy
toy_laws = record {
  live = toy_live;
  route = toy_route;
  plumbed = λ (l, b) a h. ground (arith, ==_refl a);
  unplumbed = λ (l, b) a h. ground (arith, elem-remove a a l, ==_refl a);
  ifconfig_failed = toy_failed;
  ifconfig_elsewhere = toy_elsewhere;
  ifconfig_inet = toy_inet;
  ifconfig_routes = toy_routes;
  write_live = λ k t a c. rw (toy_write k t a) (toy_write_live k t a c);
  write_elsewhere = λ k t a c h. rw (toy_write k t a) (toy_write_elsewhere k t a c h);
  write_failed = λ k t a e h.
      let h' = rw (toy_write k t a) at h in rw (toy_write k t a) (toy_write_failed k t a e h');
  added = λ (l, b) a h. ground (arith, ==_refl a);
  deleted = λ (l, b) a h. ground (arith, elem-remove a a b, ==_refl a);
  absent = λ (l, b) a h. ground arith;
  get_own = λ (l, b) a f r h g. ground arith;
  get_missing = λ (l, b) a h. ground arith;
  get_other = λ (l, b) a r h g. ground arith;
}

toy_fails : FailsAbsent toy toy_laws
toy_fails (l, b) a h = ground arith

-- 100.64.0.0
abbrev base : ℕ
base = 1681915904

abbrev pod : Addr
pod = v4 (base + 7)

abbrev nothing : Lists
nothing = ([], [])

abbrev fresh : Lo0AliasManager Lists
fresh = new_lo0_alias_manager (cidr4 base 24) nothing

abbrev web : Lo0AliasManager Lists
web = (ensure toy fresh pod).0

nothing-Apart :
    (x : Addr)
    → is_pod_address (cidr4 base 24) x && is4 x ≡ true
    → (toy_live nothing x ≡ false) ⊎ (discards (toy_route nothing x) ≡ false)
nothing-Apart x h = inr refl

abbrev calls : List AliasCall
calls = ensures pod ∷ removes pod ∷ ensures pod ∷ removes pod ∷ []

after_calls-never_both_example :
    let m = after_calls toy fresh calls in
    (toy_live m.kernel pod ≡ false) ⊎ (discards (toy_route m.kernel pod) ≡ false)
unfolding is_pod_address masked contains
after_calls-never_both_example =
    after_calls-never_both toy toy_laws (cidr4 base 24) nothing calls pod nothing-Apart refl

-- the run ends with the blackhole
calls_blackhole : discards (toy_route (after_calls toy fresh calls).kernel pod) ≡ true
unfolding is_pod_address masked contains ensure ensure_absent plumb_alias remove_alias settle clear
    install install_loop lookup_host_route delete_host_route
calls_blackhole = refl

fresh-Consistent : Consistent toy toy_laws fresh
fresh-Consistent x =
    (λ h. absurd (h refl), λ h. absurd (ground arith), λ h. absurd (ground arith), λ h. inr refl)

ensure-Serves_example :
    (toy_live web.kernel pod ≡ true)
    × ((is_pod_address (cidr4 base 24) pod ≡ false) ⊎ (discards (toy_route web.kernel pod) ≡ false))
    × (toy_live web.kernel (v4 (base + 8)) ≡ false)
unfolding is_pod_address masked contains ensure ensure_absent plumb_alias clear lookup_host_route
ensure-Serves_example =
    ensure-Serves toy toy_laws fresh pod (v4 (base + 8)) fresh-Consistent refl
      (λ e. ground (arith, addr_beq_iff pod (v4 (base + 8))))

remove-Departs_example :
    let m = (remove_alias toy web pod).0 in
    (toy_live m.kernel pod ≡ false)
    × ((is_pod_address (cidr4 base 24) pod ≡ false) ⊎ (discards (toy_route m.kernel pod) ≡ true))
    × (lookup pod m.aliased ≡ none)
    × (toy_live m.kernel (v4 (base + 8)) ≡ toy_live web.kernel (v4 (base + 8)))
unfolding is_pod_address masked contains ensure ensure_absent plumb_alias clear lookup_host_route
    remove_alias settle install install_loop
remove-Departs_example =
    remove-Departs toy toy_laws web pod (v4 (base + 8))
      (ensure-Consistent toy toy_laws fresh pod fresh-Consistent) (λ h. ground (arith, h)) refl
      (λ e. ground (arith, addr_beq_iff pod (v4 (base + 8))))

install_loop-ends_example :
    (install_loop toy 7 0 nothing pod ≡ install_loop toy 2 0 nothing pod)
    × ((install_loop toy 2 0 nothing pod).1 ≢ none)
install_loop-ends_example = install_loop-ends toy 5 nothing pod
