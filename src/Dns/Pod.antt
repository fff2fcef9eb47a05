-- ===== src/Dns/Pod.antt =====
-- PodDNSConfig (pkg/dns/dnsconfig.go): the configuration that a pod starts from.
use darwin_net.Prelude.{
  ◌≡◌, ◌≢◌, refl, ap, true, false, if◌then◌else◌, List, [], ◌∷◌, ◌++◌, Distinct, nat_eq, list_eq,
  list_beq_iff, is_nil, length, length-append, All, pos, arith, Bool-cases, inl, inr, ◌==◌,
}
use darwin_net.Prelude.Texts.{Text, codes}
use darwin_net.Dns.Search.{IsClean, has_only_rfc1123_chars}
use darwin_net.Dns.Merge.{DnsConfig, cluster_first}

abbrev default_cluster_domain : Text
default_cluster_domain = codes "cluster.local"

abbrev searches : Text → Text → List Text
searches namespace domain =
    (namespace ++ (codes ".svc." ++ domain)) ∷ (codes "svc." ++ domain) ∷ domain ∷ []

-- the Policy that PodDNSConfig leaves out is ClusterFirst, the zero value
pod_dns_config : Text → Text → Text → DnsConfig
pod_dns_config vip domain namespace =
    let cluster_domain = if is_nil domain then default_cluster_domain else domain in
    record {
      policy = cluster_first;
      cluster_dns_ip = vip;
      cluster_domain = cluster_domain;
      search_domains = searches namespace cluster_domain;
      ndots = pos 5;
      nameservers = [];
      options = [];
    }

charset-append :
    (s t : Text)
    → has_only_rfc1123_chars s ≡ true
    → has_only_rfc1123_chars t ≡ true
    → has_only_rfc1123_chars (s ++ t) ≡ true
unfolding has_only_rfc1123_chars
charset-append [] t h k = k
charset-append (c ∷ s) t h k = ground (arith, charset-append s t (ground (arith, h)) k)

-- texts of different lengths differ
longer : (s t : Text) → length s ≢ length t → (s == t) ≡ false
longer s t h = elim (Bool-cases (s == t)) [
  | inl e ↦ absurd (h (ap length ((list_beq_iff s t).0 e)))
  | inr e ↦ e
]

is_nil-append : (s t : Text) → is_nil t ≡ false → is_nil (s ++ t) ≡ false
is_nil-append [] t h = h
is_nil-append (c ∷ s) t h = refl

searches-Distinct : (ns d : Text) → Distinct (searches ns d)
searches-Distinct ns d =
    let under =
      longer (codes "svc." ++ d) (ns ++ (codes ".svc." ++ d))
        (λ e. omega (arith, e, length-append ns (codes ".svc." ++ d))) in
    let whole =
      longer d (ns ++ (codes ".svc." ++ d))
        (λ e. omega (arith, e, length-append ns (codes ".svc." ++ d))) in
    let top = longer d (codes "svc." ++ d) (λ e. omega (arith, e)) in
    (rw (under, whole) refl, (rw top refl, (refl, tt)))

searches-All :
    (ns d : Text)
    → is_nil d ≡ false
    → has_only_rfc1123_chars d ≡ true
    → has_only_rfc1123_chars ns ≡ true
    → All IsClean (searches ns d)
unfolding has_only_rfc1123_chars
searches-All ns d n hd hn = (
  (is_nil-append ns (codes ".svc." ++ d) refl, charset-append ns (codes ".svc." ++ d) hn hd),
  ((refl, hd), ((n, hd), tt)),
)

default_clean : has_only_rfc1123_chars default_cluster_domain ≡ true
unfolding has_only_rfc1123_chars
default_clean = refl

-- A pod's own configuration meets what a merge asks of it, if the namespace and the domain are within
-- the charset: three clean search domains, no two of them the same.
pod_dns_config_mergeable :
    (vip domain namespace : Text)
    → has_only_rfc1123_chars domain ≡ true
    → has_only_rfc1123_chars namespace ≡ true
    → let cfg = pod_dns_config vip domain namespace in
      (Distinct cfg.search_domains) × (All IsClean cfg.search_domains)
unfolding pod_dns_config
pod_dns_config_mergeable vip domain namespace hd hn = elim (Bool-cases (is_nil domain)) [
  | inl n ↦ rw n (
    searches-Distinct namespace default_cluster_domain,
    searches-All namespace default_cluster_domain refl default_clean hn,
  )
  | inr n ↦ rw n (searches-Distinct namespace domain, searches-All namespace domain n hd hn)
]
