-- ===== src/Dns/Env/Agreement.antt =====
-- The environment of the shim (env.go) beside the resolv.conf fields of a guest (resolvconf.go).
use darwin_net.Prelude.{
  ◌≡◌, refl, Bool, true, false, Bool-cases, inl, inr, Option, none, some, List, [], ◌∷◌, ◌++◌,
  string_eq, is_nil, pos, leb_ℤ, Result, ok, err,
}
use darwin_net.Prelude.Texts.{Text, codes, join_spaces}
use darwin_net.Prelude.Maps.{lookup}
use darwin_net.Dns.Merge.{DnsConfig}
use darwin_net.Dns.Env.{
  DnsApis, Env, EnvError, ResolvConfFields, env_dns_server, env_dns_servers, env_dns_search,
  env_dns_ndots, default_positive, ipv4_servers, config_to_env_checked, guest_resolv_conf_fields,
  is_no_policy,
}

-- WithDefaults fills the ndots in and leaves the rest
pub record FillsNdots (apis : DnsApis) : Type 0 where
  pub policy : (cfg : DnsConfig) → (apis.with_defaults cfg).policy ≡ cfg.policy
  pub cluster_dns_ip :
      (cfg : DnsConfig) → (apis.with_defaults cfg).cluster_dns_ip ≡ cfg.cluster_dns_ip
  pub search_domains :
      (cfg : DnsConfig) → (apis.with_defaults cfg).search_domains ≡ cfg.search_domains
  pub servers : (cfg : DnsConfig) → apis.servers (apis.with_defaults cfg) ≡ apis.servers cfg
  pub ndots :
      (cfg : DnsConfig)
      → leb_ℤ (pos 0) cfg.ndots ≡ true
      → (apis.with_defaults cfg).ndots ≡ default_positive cfg.ndots

-- the servers that the environment names are those of the guest
abbrev SameServers : Bool → Env → List Text → Type 0
SameServers true env servers =
    (lookup env_dns_servers env ≡ some (join_spaces servers)) × (lookup env_dns_server env ≡ none)
SameServers false env servers =
    (s : Text) × (servers ≡ s ∷ [])
    × (lookup env_dns_server env ≡ some s)
    × (lookup env_dns_servers env ≡ none)

-- the two encodings fail alike, or carry the same servers, search list and ndots
abbrev pub Agrees : Bool → Result EnvError ResolvConfFields → Option Env × Option EnvError → Type 0
Agrees exclusive (err e) r = r ≡ (none, some e)
Agrees exclusive (ok fields) r =
    (env : Env) × (r.0 ≡ some env)
    × SameServers exclusive env fields.nameservers
    × (lookup env_dns_search env ≡ some (join_spaces fields.search))
    × (nd : Text) × (rest : List Text) × (fields.options ≡ (codes "ndots:" ++ nd) ∷ rest)
    × (lookup env_dns_ndots env ≡ some nd)

-- If WithDefaults changes nothing but the ndots, which it sets to 5 where they are zero, then for
-- every configuration whose ndots is not negative the environment and the guest's fields are refused
-- with the same error, or both exist and carry the same nameservers (a list for the None policy, the
-- one cluster server otherwise), the same search list and the same ndots.
pub config_to_env-Agrees :
    (apis : DnsApis) (fills : FillsNdots apis) (cfg : DnsConfig)
    → leb_ℤ (pos 0) cfg.ndots ≡ true
    → Agrees
        (is_no_policy cfg.policy)
        (guest_resolv_conf_fields apis cfg)
        (config_to_env_checked apis cfg)
unfolding guest_resolv_conf_fields config_to_env_checked
config_to_env-Agrees apis fills cfg h =
    rw
      (
        fills.servers cfg,
        fills.policy cfg,
        fills.cluster_dns_ip cfg,
        fills.search_domains cfg,
        fills.ndots cfg h,
      )
      (elim (Bool-cases (apis.validates cfg)) [
        | inr e ↦ rw e refl
        | inl e ↦ elim (Bool-cases (is_no_policy cfg.policy)) [
          | inr p ↦ rw (e, p) (_, refl, (_, refl, refl, refl), refl, _, _, refl, refl)
          | inl p ↦ elim (Bool-cases (is_nil (ipv4_servers apis (apis.servers cfg)).0)) [
            | inl k ↦ rw (e, p, k) refl
            | inr k ↦ elim (Bool-cases (is_nil (ipv4_servers apis (apis.servers cfg)).1)) [
              | inl d ↦ elim (Bool-cases (is_nil cfg.cluster_domain)) [
                | inl n ↦ rw (e, p, k, d, n) (_, refl, (refl, refl), refl, _, _, refl, refl)
                | inr n ↦ rw (e, p, k, d, n) (_, refl, (refl, refl), refl, _, _, refl, refl)
              ]
              | inr d ↦ elim (Bool-cases (is_nil cfg.cluster_domain)) [
                | inl n ↦ rw (e, p, k, d, n) (_, refl, (refl, refl), refl, _, _, refl, refl)
                | inr n ↦ rw (e, p, k, d, n) (_, refl, (refl, refl), refl, _, _, refl, refl)
              ]
            ]
          ]
        ]
      ])
