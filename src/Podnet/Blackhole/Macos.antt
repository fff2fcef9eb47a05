-- ===== src/Podnet/Blackhole/Macos.antt =====
-- What blackhole.go and alias.go rely on of macOS: ifconfig(8) on lo0 and the routing socket,
-- route(4), stated over an observation of lo0's aliases and of the host routes.
use darwin_net.Prelude.{◌≡◌, ◌≢◌, ◌⊎◌, Bool, true, false, Option, none, some, ok, err}
use darwin_net.Netip.{Addr, is4}
use darwin_net.Podnet.Blackhole.{
  Kernel, Flags, Reply, plumb, unplumb, IfconfigVerb, RequestType, rtm_add, rtm_delete, rtm_get,
  blackhole_message, blackhole_flags, esrch, Errno,
}

abbrev pub discards : Option Flags → Bool
discards none = false
discards (some f) = f.blackhole

pub record KernelLaws (kern : Kernel) : Type 0 where
  -- whether lo0 has the alias, and the address's own host route
  pub live : kern.K → Addr → Bool
  pub route : kern.K → Addr → Option Flags
  -- ifconfig lo0 alias and -alias: what a success does, that a failure does nothing, that another
  -- address is left alone, and that a text of another family is refused without the word inet6
  pub plumbed :
      (k : kern.K) (a : Addr)
      → (kern.ifconfig k plumb a).1 ≡ true
      → live (kern.ifconfig k plumb a).0 a ≡ true
  pub unplumbed :
      (k : kern.K) (a : Addr)
      → (kern.ifconfig k unplumb a).1 ≡ true
      → live (kern.ifconfig k unplumb a).0 a ≡ false
  pub ifconfig_failed :
      (k : kern.K) (v : IfconfigVerb) (a : Addr)
      → (kern.ifconfig k v a).1 ≡ false
      → live (kern.ifconfig k v a).0 a ≡ live k a
  pub ifconfig_elsewhere :
      (k : kern.K) (v : IfconfigVerb) (a c : Addr)
      → a ≢ c
      → live (kern.ifconfig k v a).0 c ≡ live k c
  pub ifconfig_inet :
      (k : kern.K) (v : IfconfigVerb) (a : Addr) → is4 a ≡ false → (kern.ifconfig k v a).1 ≡ false
  -- no alias change makes or removes a blackhole
  pub ifconfig_routes :
      (k : kern.K) (v : IfconfigVerb) (a c : Addr)
      → discards (route (kern.ifconfig k v a).0 c) ≡ discards (route k c)
  -- RTM_ADD and RTM_DELETE: no alias changes, an error changes no route, nor does another address's
  pub write_live :
      (k : kern.K) (t : RequestType) (a c : Addr)
      → live (kern.write k (blackhole_message t a)).0 c ≡ live k c
  pub write_elsewhere :
      (k : kern.K) (t : RequestType) (a c : Addr)
      → a ≢ c
      → route (kern.write k (blackhole_message t a)).0 c ≡ route k c
  pub write_failed :
      (k : kern.K) (t : RequestType) (a : Addr) (e : Errno)
      → (kern.write k (blackhole_message t a)).1 ≡ some e
      → route (kern.write k (blackhole_message t a)).0 a ≡ route k a
  pub added :
      (k : kern.K) (a : Addr)
      → (kern.write k (blackhole_message rtm_add a)).1 ≡ none
      → route (kern.write k (blackhole_message rtm_add a)).0 a ≡ some blackhole_flags
  pub deleted :
      (k : kern.K) (a : Addr)
      → (kern.write k (blackhole_message rtm_delete a)).1 ≡ none
      → route (kern.write k (blackhole_message rtm_delete a)).0 a ≡ none
  pub absent :
      (k : kern.K) (a : Addr)
      → (kern.write k (blackhole_message rtm_delete a)).1 ≡ some esrch
      → route k a ≡ none
  -- RTM_GET answers the longest match, which is the host route if there is one
  pub get_own :
      (k : kern.K) (a : Addr) (f : Flags) (r : Reply)
      → route k a ≡ some f
      → kern.exchange k (blackhole_message rtm_get a) ≡ ok r
      → (r.failure ≢ some esrch) × (r.flags ≡ f) × (f.host ≡ true) × (r.dst ≡ some a)
  pub get_missing :
      (k : kern.K) (a : Addr)
      → kern.exchange k (blackhole_message rtm_get a) ≡ err esrch
      → route k a ≡ none
  pub get_other :
      (k : kern.K) (a : Addr) (r : Reply)
      → route k a ≡ none
      → kern.exchange k (blackhole_message rtm_get a) ≡ ok r
      → (r.flags.host ≡ false) ⊎ (r.dst ≢ some a)
