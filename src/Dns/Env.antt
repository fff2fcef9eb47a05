-- ===== src/Dns/Env.antt =====
-- env.go and resolvconf.go: the cluster DNS of a pod as the environment that the getaddrinfo shim reads
-- and as the resolv.conf fields of a Linux guest. Addresses and the methods of the configuration record
-- are a parameter.
pub mod Agreement
pub mod Wire
use Prim.Native.String.{String}
use darwin_net.Prelude.{
  ℕ, suc, Bool, true, false, not, ◌||◌, if◌then◌else◌, Option, none, some, List, [], ◌∷◌, ◌++◌,
  string_eq, is_nil, ℤ, pos, negsuc, leb_ℤ, Result, ok, err,
}
use darwin_net.Prelude.Texts.{Text, codes, join_spaces, itoa}
use darwin_net.Prelude.Maps.{insert}
use darwin_net.Dns.Search.{normalize_search}
use darwin_net.Dns.Merge.{
  DnsPolicy, DnsOption, DnsConfig, cluster_first, no_policy, other, is_cluster_first,
}

-- net/netip, and the methods of netv1.DNSConfig
pub record DnsApis : Type 1 where
  pub Addr : Type 0
  pub parse_addr : Text → Option Addr
  pub unmap : Addr → Addr
  pub is4 : Addr → Bool
  pub to_text : Addr → Text
  pub validates : DnsConfig → Bool
  pub servers : DnsConfig → List Text
  pub with_defaults : DnsConfig → DnsConfig

abbrev pub env_dns_server : String
env_dns_server = "K3SM_DNS_SERVER"

abbrev pub env_dns_domain : String
env_dns_domain = "K3SM_DNS_DOMAIN"

abbrev pub env_dns_search : String
env_dns_search = "K3SM_DNS_SEARCH"

abbrev pub env_dns_ndots : String
env_dns_ndots = "K3SM_DNS_NDOTS"

abbrev pub env_dns_servers : String
env_dns_servers = "K3SM_DNS_SERVERS"

abbrev pub env_dns_exclusive : String
env_dns_exclusive = "K3SM_DNS_EXCLUSIVE"

-- netv1.DefaultNDots, which env.go gives as 5
abbrev default_ndots : ℕ
default_ndots = 5

abbrev max_ndots : ℕ
max_ndots = 15

abbrev pub Env : Type 0
Env = List (String × Text)

pub data EnvError : Type 0 where
  invalid_config : EnvError
  no_usable_nameserver nameservers_dropped : List Text → EnvError

-- %d of an int32
abbrev pub decimal : ℤ → Text
decimal (pos n) = itoa n
decimal (negsuc n) = b'-' ∷ itoa (suc n)

abbrev pub is_no_policy : DnsPolicy → Bool
is_no_policy cluster_first = false
is_no_policy no_policy = true
is_no_policy (other p) = false

abbrev pub default_positive : ℤ → ℤ
default_positive n = if leb_ℤ n (pos 0) then pos default_ndots else n

abbrev pub clamp_ndots : ℤ → ℤ
clamp_ndots n = if leb_ℤ n (pos max_ndots) then n else pos max_ndots

pub record ResolvConfFields : Type 0 where
  pub nameservers : List Text
  pub search : List Text
  pub options : List Text

module _ (apis : DnsApis) where
  -- ipv4Servers over cfg.Servers()
  unfoldable pub ipv4_servers : List Text → List Text × List Text
  ipv4_servers [] = ([], [])
  ipv4_servers (s ∷ rest) =
      let (kept, dropped) = ipv4_servers rest in
      elim (apis.parse_addr s) [
        | none ↦ (kept, s ∷ dropped)
        | some addr ↦
            if not (apis.is4 (apis.unmap addr))
            then (kept, s ∷ dropped)
            else (apis.to_text (apis.unmap addr) ∷ kept, dropped)
      ]

  -- the map, and the error that may stand beside it
  unfoldable pub config_to_env_checked : DnsConfig → Option Env × Option EnvError
  unfolding ipv4_servers
  config_to_env_checked cfg =
      let ndots = decimal (clamp_ndots (default_positive cfg.ndots)) in
      let search = join_spaces (normalize_search cfg.search_domains) in
      let (kept, dropped) = ipv4_servers (apis.servers cfg) in
      let base =
        (env_dns_servers, join_spaces kept)
        ∷ (env_dns_exclusive, codes "1")
        ∷ (env_dns_search, search)
        ∷ (env_dns_ndots, ndots)
        ∷ [] in
      let env =
        if not (is_nil cfg.cluster_domain)
        then insert env_dns_domain cfg.cluster_domain base
        else base in
      if not (apis.validates cfg)
      then (none, some invalid_config)
      else if not (is_no_policy cfg.policy)
      then (
        some (
            (env_dns_server, cfg.cluster_dns_ip)
            ∷ (env_dns_domain, cfg.cluster_domain)
            ∷ (env_dns_search, search)
            ∷ (env_dns_ndots, ndots)
            ∷ []),
        none,
      )
      else if is_nil kept
      then (none, some (no_usable_nameserver dropped))
      else if not (is_nil dropped)
      then (some env, some (nameservers_dropped dropped))
      else (some env, none)

  unfoldable pub config_to_env : DnsConfig → Option Env
  unfolding config_to_env_checked
  config_to_env cfg =
      let (env, e) = config_to_env_checked cfg in
      if not (is_cluster_first cfg.policy) then none else elim e [ none ↦ env | some _ ↦ none ]

  abbrev option_texts : List DnsOption → List Text
  option_texts [] = []
  option_texts (o ∷ rest) =
      (if is_nil o.value then o.name else o.name ++ b':' ∷ o.value) ∷ option_texts rest

  unfoldable pub guest_resolv_conf_fields : DnsConfig → Result EnvError ResolvConfFields
  unfolding ipv4_servers
  guest_resolv_conf_fields config =
      let cfg = apis.with_defaults config in
      let search = normalize_search cfg.search_domains in
      let ndots = codes "ndots:" ++ decimal (clamp_ndots cfg.ndots) in
      let (kept, dropped) = ipv4_servers (apis.servers cfg) in
      if not (apis.validates config)
      then err invalid_config
      else if is_no_policy cfg.policy
      then if is_nil kept
        then err (no_usable_nameserver dropped)
        else ok record {
          nameservers = kept;
          search = search;
          options = ndots ∷ option_texts cfg.options;
        }
      else ok
          record { nameservers = cfg.cluster_dns_ip ∷ []; search = search; options = ndots ∷ [] }
