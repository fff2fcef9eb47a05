-- ===== src/Dns/Tests.antt =====
-- Concrete search lists and queries.
use darwin_net.Prelude.{
  take, filter_by, map, not, ◌&&◌, ◌||◌, is_nil, leb_ℤ, ◌⊎◌, ◌+◌, ◌≤◌, ◌≡◌, Bool, true, false, some,
  none, arith, refl, List, [], ◌∷◌, ◌++◌, length, All, nat_eq, list_eq, string_eq, pos,
  if◌then◌else◌, ◌==◌, ap,
}
use darwin_net.Prelude.Texts.{
  Text, codes, join_spaces, itoa, digits, atoi_from, trim_space, trim_left, has_dot_suffix,
  trim_dot_suffix,
}
use darwin_net.Prelude.Maps.{lookup}
use darwin_net.Dns.Search.{
  IsClean, has_only_rfc1123_chars, sanitize_search, cap_search, normalize_search,
  normalize_search-fixed, dedupe,
}
use darwin_net.Dns.Merge.{
  DnsConfig, cluster_first, no_policy, merge_dns_config, merge_keeps_cluster,
}
use darwin_net.Dns.Partial.{
  svc_label, split_dots, is_dns_label, normalize_domain, complete_partial_name, classify_name,
  has_suffix, label_rest,
}
use darwin_net.Dns.Partial.Shape.{Asks, complete_partial_name-Shape}
use darwin_net.Dns.Env.{
  DnsApis, Env, env_dns_search, env_dns_ndots, default_positive, clamp_ndots, is_no_policy,
  ipv4_servers, config_to_env_checked, guest_resolv_conf_fields,
}
use darwin_net.Dns.Env.Agreement.{FillsNdots, Agrees, config_to_env-Agrees}
use darwin_net.Dns.Env.Wire.{tokens, config_to_env-reads_back}

abbrev cluster_search : List Text
cluster_search = codes "svc.local" ∷ codes "local" ∷ []

abbrev raw_search : List Text
raw_search = codes "corp.io" ∷ codes "b_d" ∷ []

abbrev config : DnsConfig
config = record {
  policy = cluster_first;
  cluster_dns_ip = codes "10.0.0.10";
  cluster_domain = codes "local";
  search_domains = cluster_search;
  ndots = pos 5;
  nameservers = [];
  options = [];
}

normalize_search-fixed_example :
    (normalize_search raw_search
      ≡ take 8
          (filter_by (λ t. not (is_nil t) && has_only_rfc1123_chars t) (map trim_space raw_search)))
    × (length (normalize_search raw_search) ≤ 8)
    × All IsClean (normalize_search raw_search)
    × (normalize_search (normalize_search raw_search) ≡ normalize_search raw_search)
normalize_search-fixed_example = normalize_search-fixed raw_search

merge_keeps_cluster_example :
    let (out, dropped) = merge_dns_config config raw_search (pos 2) in
    ((rest : List Text) × (out.search_domains ≡ cluster_search ++ rest))
    × (length out.search_domains ≤ 8)
    × (length out.search_domains + dropped
        ≡ length (sanitize_search (dedupe (cluster_search ++ raw_search))))
    × (out.cluster_dns_ip ≡ config.cluster_dns_ip)
    × (out.cluster_domain ≡ config.cluster_domain)
    × (out.policy ≡ cluster_first)
    × (out.nameservers ≡ config.nameservers)
    × (out.options ≡ config.options)
    × (((leb_ℤ (pos 2) (pos 0) ≡ false) × (out.ndots ≡ pos 2))
        ⊎ ((leb_ℤ (pos 2) (pos 0) ≡ true) × (out.ndots ≡ config.ndots)))
unfolding has_only_rfc1123_chars
merge_keeps_cluster_example =
    merge_keeps_cluster config raw_search (pos 2) refl (refl, (refl, tt))
      ((refl, refl), ((refl, refl), tt)) (omega arith)

-- lower-case names, and no top-level domains
abbrev as_is : Text → Text
as_is s = s

abbrev no_tlds : Text → Bool
no_tlds s = false

abbrev cluster_domain : Text
cluster_domain = codes "cluster.local"

complete_partial_name-Shape_example :
    (d : Text) × (normalize_domain as_is no_tlds cluster_domain ≡ some d)
    × ((codes "web.ns.svc" == d || has_suffix (codes "web.ns.svc") (b'.' ∷ d)) ≡ false)
    × (a : Text) × (ns : Text) × Asks as_is no_tlds (codes "web.ns.svc") none a ns
    × (split_dots (codes "web.ns.svc.cluster.local") ≡ a ∷ ns ∷ svc_label ∷ split_dots d)
    × (is_dns_label a ≡ true)
    × (is_dns_label ns ≡ true)
unfolding complete_partial_name normalize_domain classify_name has_suffix split_dots is_dns_label
    label_rest has_dot_suffix trim_dot_suffix
complete_partial_name-Shape_example =
    complete_partial_name-Shape as_is no_tlds (codes "web.ns.svc") cluster_domain
      (codes "web.ns.svc.cluster.local") none refl

-- an address is its text, and one with a colon is IPv6
abbrev no_colon : Text → Bool
no_colon [] = true
no_colon (c ∷ s) = if c == b':' then false else no_colon s

abbrev text_apis : DnsApis
text_apis = record {
  Addr = Text;
  parse_addr = some;
  unmap = as_is;
  is4 = no_colon;
  to_text = as_is;
  validates = λ cfg. true;
  servers = λ cfg. cfg.nameservers;
  with_defaults = λ cfg. record cfg { ndots = default_positive cfg.ndots };
}

abbrev own_config : DnsConfig
own_config = record config {
  policy = no_policy;
  nameservers = codes "::1" ∷ codes "1.1.1.1" ∷ codes "9.9.9.9" ∷ [];
  ndots = pos 40;
}

text_apis-FillsNdots : FillsNdots text_apis
text_apis-FillsNdots = record {
  policy = λ cfg. refl;
  cluster_dns_ip = λ cfg. refl;
  search_domains = λ cfg. refl;
  servers = λ cfg. refl;
  ndots = λ cfg h. refl;
}

config_to_env-Agrees_example :
    Agrees
      (is_no_policy own_config.policy)
      (guest_resolv_conf_fields text_apis own_config)
      (config_to_env_checked text_apis own_config)
config_to_env-Agrees_example = config_to_env-Agrees text_apis text_apis-FillsNdots own_config refl

abbrev cluster_env : Env
cluster_env =
    ("K3SM_DNS_SERVER", codes "10.0.0.10")
    ∷ ("K3SM_DNS_DOMAIN", codes "local")
    ∷ ("K3SM_DNS_SEARCH", codes "svc.local local")
    ∷ ("K3SM_DNS_NDOTS", codes "5")
    ∷ []

cluster_env_sent : config_to_env_checked text_apis config ≡ (some cluster_env, none)
unfolding config_to_env_checked ipv4_servers normalize_search sanitize_search has_only_rfc1123_chars
    cap_search trim_space trim_left join_spaces itoa digits
cluster_env_sent = refl

config_to_env-reads_back_example :
    (search : Text) × (nd : Text) × (lookup env_dns_search cluster_env ≡ some search)
    × (tokens search ≡ normalize_search cluster_search)
    × (lookup env_dns_ndots cluster_env ≡ some nd)
    × (pos (atoi_from 0 nd) ≡ clamp_ndots (default_positive (pos 5)))
    × (1 ≤ atoi_from 0 nd)
    × (atoi_from 0 nd ≤ 15)
config_to_env-reads_back_example =
    config_to_env-reads_back text_apis config cluster_env (ap (λ r. r.0) cluster_env_sent)
