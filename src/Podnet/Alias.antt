-- ===== src/Podnet/Alias.antt =====
-- lo0AliasManager (pkg/podnet/alias.go): the manager that aliases pod addresses on lo0 and
-- blackholes them when their alias goes. A method holds the mutex, so it is one step on the kernel
-- and on the addresses tracked.
pub mod Apart
pub mod Removal
pub mod Managed
mod Tests
use darwin_net.Prelude.{
  Bool, true, false, not, ◌&&◌, if◌then◌else◌, List, [], Option, none, some, Result, ok, err, ◌==◌,
}
use darwin_net.Prelude.Maps.{lookup, insert, delete}
use darwin_net.Netip.{Addr, Prefix, addr_eq}
use darwin_net.Podnet.Blackhole.{
  Kernel, BlackholeError, is_pod_address, install, clear, plumb, unplumb,
}

pub data AliasState : Type 0 where
  alias_live alias_blackhole_pending : AliasState

pub data AliasError : Type 0 where
  clear_failed : BlackholeError → AliasError
  ifconfig_failed install_failed : AliasError

pub record Lo0AliasManager (K : Type 0) : Type 0 where
  pub node_cidr : Prefix
  pub kernel : K
  pub aliased : List (Addr × AliasState)

abbrev pub new_lo0_alias_manager : {K : Type 0} → Prefix → K → Lo0AliasManager K
new_lo0_alias_manager c k = record { node_cidr = c; kernel = k; aliased = [] }

module _ (kern : Kernel) where
  open kern use {K, ifconfig}

  -- Ensure from the alias command on
  unfoldable pub plumb_alias :
      Lo0AliasManager K → Addr → Lo0AliasManager K × Result AliasError (Unit {0})
  plumb_alias m ip =
      let (k, done) = ifconfig m.kernel plumb ip in
      if done
      then (record m { kernel = k; aliased = insert ip alias_live m.aliased }, ok tt)
      else (record m { kernel = k }, err ifconfig_failed)

  unfoldable pub ensure_absent :
      Lo0AliasManager K → Addr → Lo0AliasManager K × Result AliasError (Unit {0})
  ensure_absent m ip =
      let (k, cleared) = clear kern m.kernel ip in
      if not (is_pod_address m.node_cidr ip) then plumb_alias m ip else elim cleared [
        | err e ↦ (record m { kernel = k }, err (clear_failed e))
        | ok _ ↦ plumb_alias (record m { kernel = k }) ip
      ]

  unfoldable pub ensure :
      Lo0AliasManager K → Addr → Lo0AliasManager K × Result AliasError (Unit {0})
  ensure m ip = elim (lookup ip m.aliased) [ some alias_live ↦ (m, ok tt) | _ ↦ ensure_absent m ip ]

  -- Remove from the test of the pod address on: the blackhole that is owed
  unfoldable pub settle :
      Lo0AliasManager K → Addr → Bool → Bool → Lo0AliasManager K × Result AliasError (Unit {0})
  settle m ip tracked removed =
      let (k, installed) = install kern m.kernel ip in
      if not (is_pod_address m.node_cidr ip)
      then (record m { aliased = delete ip m.aliased }, ok tt)
      else if not tracked && not removed
      then (m, ok tt)
      else elim installed [
        | some (ok _) ↦ (record m { kernel = k; aliased = delete ip m.aliased }, ok tt)
        | _ ↦ (
          record m { kernel = k; aliased = insert ip alias_blackhole_pending m.aliased },
          err install_failed,
        )
      ]

  unfoldable pub remove :
      Lo0AliasManager K → Addr → Lo0AliasManager K × Result AliasError (Unit {0})
  remove m ip =
      let (k, removed) = ifconfig m.kernel unplumb ip in
      elim (lookup ip m.aliased) [
        | some alias_blackhole_pending ↦ settle m ip true false
        | some alias_live ↦
            if not removed
            then (record m { kernel = k }, err ifconfig_failed)
            else settle (record m { kernel = k }) ip true true
        | none ↦ settle (record m { kernel = k }) ip false removed
      ]
