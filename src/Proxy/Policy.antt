-- ===== src/Proxy/Policy.antt =====
-- PolicyTable (proxy/policy.go): the NetworkPolicy verdict. A map used as a set is a list of its
-- members, and a nil map of a rule is `none`. Times are nanoseconds; a time that was never set is `none`.
pub mod Verdict
use darwin_net.Prelude.{
  ℕ, zero, suc, ◌+◌, ◌*◌, ◌≡◌, ◌↔◌, arith, refl, Bool, true, false, not, ◌&&◌, ◌||◌, if◌then◌else◌,
  List, [], ◌∷◌, Option, none, some, Eq, ◌==◌, ltb, nat_eq, elem,
}
use darwin_net.Prelude.Maps.{lookup}
use darwin_net.Netip.{
  Addr, Prefix, addr_eq, is_valid, unmap, is_loopback, prefix_valid, contains, zero_prefix,
}

-- ten seconds
abbrev pub policy_log_throttle : ℕ
policy_log_throttle = 10 * 1000000000

pub record PolicyRule : Type 0 where
  pub sources : Option (List Addr)
  pub ports : Option (List ℕ)

pub record PolicyTable : Type 0 where
  pub always_allow : List Addr
  pub vmnet : Prefix
  pub selected : List (Addr × List PolicyRule)
  pub known : List Addr
  pub last_unknown_warn : Option ℕ
  pub last_vm_unknown_log : Option ℕ
  pub eval_count : ℕ

abbrev pub seeds : List Addr → List Addr
seeds [] = []
seeds (a ∷ rs) = let rest = seeds rs in if is_valid a then unmap a ∷ rest else rest

unfoldable pub new_policy_table_vmnet : Prefix → List Addr → PolicyTable
new_policy_table_vmnet vmnet always_allow = record {
  always_allow = seeds always_allow;
  vmnet = vmnet;
  selected = [];
  known = [];
  last_unknown_warn = none;
  last_vm_unknown_log = none;
  eval_count = 0;
}

unfoldable pub new_policy_table : List Addr → PolicyTable
unfolding new_policy_table_vmnet
new_policy_table always_allow = new_policy_table_vmnet zero_prefix always_allow

-- nil maps install the empty state
unfoldable pub update_policy :
    PolicyTable → Option (List (Addr × List PolicyRule)) → Option (List Addr) → PolicyTable
update_policy t selected known = record t {
  selected = elim selected [ none ↦ [] | some m ↦ m ];
  known = elim known [ none ↦ [] | some m ↦ m ];
}

abbrev pub throttled : Option ℕ → ℕ → Bool
throttled none now = false
throttled (some last) now = ltb now (last + policy_log_throttle)

unfoldable pub warn_unknown_source : PolicyTable → ℕ → PolicyTable
warn_unknown_source t now =
    if throttled t.last_unknown_warn now then t else record t { last_unknown_warn = some now }

unfoldable pub warn_unknown_vm_source : PolicyTable → ℕ → PolicyTable
warn_unknown_vm_source t now =
    if throttled t.last_vm_unknown_log now then t else record t { last_vm_unknown_log = some now }

-- a non-nil set without the value
abbrev pub misses {ℓ} : {A : Type ℓ} ⦃e : Eq A⦄ → Option (List A) → A → Bool
misses none a = false
misses (some set) a = not (elem a set)

-- one turn of the loop over the rules: whether the rule is passed over
abbrev pub skips : PolicyRule → Addr → ℕ → Bool
skips r src port = misses r.sources src || misses r.ports port

abbrev pub any_rule : List PolicyRule → Addr → ℕ → Bool
any_rule [] src port = false
any_rule (r ∷ rs) src port =
    let rest = any_rule rs src port in if skips r src port then rest else true

-- Allow after the count, for an unmapped source
unfoldable pub verdict : PolicyTable → Addr → Addr → ℕ → ℕ → PolicyTable × Bool
verdict t src backend port now =
    if is_loopback src
    then (t, true)
    else if elem src t.always_allow
    then (t, true)
    else elim (lookup (unmap backend) t.selected) [
      | none ↦ (t, true)
      | some rules ↦
          if any_rule rules src port
          then (t, true)
          else if not (elem src t.known)
          then (if prefix_valid t.vmnet && contains t.vmnet src
              then (warn_unknown_vm_source t now, false)
              else (warn_unknown_source t now, true))
          else (t, false)
    ]

-- Allow; a nil table allows everything
unfoldable pub allow : Option PolicyTable → Addr → Addr → ℕ → ℕ → Option PolicyTable × Bool
unfolding verdict
allow none src backend port now = (none, true)
allow (some t) src backend port now =
    let r = verdict (record t { eval_count = t.eval_count + 1 }) (unmap src) backend port now in
    (some r.0, r.1)
