-- ===== src/Dns/Merge.antt =====
-- merge.go: the merge of a pod's own search list and ndots into its cluster configuration. The
-- configuration record is that of k3sm.io/apis, with the fields that the source reads.
use darwin_net.Prelude.{
  ℕ, zero, suc, ◌+◌, ◌-◌, ◌≤◌, ◌≡◌, refl, ap, arith, Bool, true, false, if◌then◌else◌, List, [],
  ◌∷◌, ◌++◌, Distinct, nat_eq, list_eq, length, length-take, take, All, ℤ, pos, leb_ℤ, ◌⊎◌, inl,
  inr, Bool-cases,
}
use darwin_net.Prelude.Texts.{Text}
use darwin_net.Dns.Search.{
  IsClean, sanitize_search, cap_search, dedupe, max_search_domains, dedupe-append,
  sanitize_search-append, sanitize_search_clean,
}

-- `other` is any further policy.
pub data DnsPolicy : Type 0 where
  cluster_first no_policy : DnsPolicy
  other : Text → DnsPolicy

-- dnsConfig.options
pub record DnsOption : Type 0 where
  pub name : Text
  pub value : Text

pub record DnsConfig : Type 0 where
  pub policy : DnsPolicy
  pub cluster_dns_ip : Text
  pub cluster_domain : Text
  pub search_domains : List Text
  -- int32
  pub ndots : ℤ
  pub nameservers : List Text
  pub options : List DnsOption

abbrev pub is_cluster_first : DnsPolicy → Bool
is_cluster_first cluster_first = true
is_cluster_first no_policy = false
is_cluster_first (other p) = false

unfoldable pub merge_dns_config : DnsConfig → List Text → ℤ → DnsConfig × ℕ
merge_dns_config base searches ndots =
    let sanitized = sanitize_search (dedupe (base.search_domains ++ searches)) in
    if is_cluster_first base.policy
    then (
      record base {
        search_domains = cap_search sanitized;
        ndots = if leb_ℤ ndots (pos 0) then base.ndots else ndots;
      },
      length sanitized - max_search_domains,
    )
    else (base, 0)

take-append :
    (n : ℕ) (xs ys : List Text) → length xs ≤ n → take n (xs ++ ys) ≡ xs ++ take (n - length xs) ys
take-append zero [] ys h = refl
take-append zero (x ∷ xs) ys h = absurd (omega arith)
take-append (suc n) [] ys h = let e : suc n - 0 ≡ suc n = omega arith in rw e
take-append (suc n) (x ∷ xs) ys h =
    let e : suc n - suc (length xs) ≡ n - length xs = omega arith in
    rw e (ap (λ (t : List Text). x ∷ t) (take-append n xs ys (omega arith)))

-- Merging into a ClusterFirst configuration whose own search list is clean, without repetition and
-- within the cap keeps that list whole and in front, adds at most up to the cap, and counts exactly the
-- clean domains that the cap cut. The merged ndots is the given one where that is positive and the
-- configuration's own otherwise; the server, the domain, the policy, the nameservers and the options
-- stay.
pub merge_keeps_cluster :
    (base : DnsConfig) (searches : List Text) (ndots : ℤ)
    → base.policy ≡ cluster_first
    → Distinct base.search_domains
    → All IsClean base.search_domains
    → length base.search_domains ≤ 8
    → let (out, dropped) = merge_dns_config base searches ndots in
      ((rest : List Text) × (out.search_domains ≡ base.search_domains ++ rest))
      × (length out.search_domains ≤ 8)
      × (length out.search_domains + dropped
          ≡ length (sanitize_search (dedupe (base.search_domains ++ searches))))
      × (out.cluster_dns_ip ≡ base.cluster_dns_ip)
      × (out.cluster_domain ≡ base.cluster_domain)
      × (out.policy ≡ cluster_first)
      × (out.nameservers ≡ base.nameservers)
      × (out.options ≡ base.options)
      × (((leb_ℤ ndots (pos 0) ≡ false) × (out.ndots ≡ ndots))
          ⊎ ((leb_ℤ ndots (pos 0) ≡ true) × (out.ndots ≡ base.ndots)))
unfolding merge_dns_config cap_search
merge_keeps_cluster base searches ndots policy distinct clean fits = rw policy (
  front,
  omega (arith, length-take 8 (sanitize_search (dedupe (base.search_domains ++ searches)))),
  omega (arith, length-take 8 (sanitize_search (dedupe (base.search_domains ++ searches)))),
  refl,
  refl,
  refl,
  refl,
  refl,
  elim (Bool-cases (leb_ℤ ndots (pos 0))) [
    | inl own ↦ inr (own, rw own refl)
    | inr given ↦ inl (given, rw given refl)
  ],
)
  where
    front :
        (rest : List Text) × (take 8 (sanitize_search (dedupe (base.search_domains ++ searches)))
          ≡ base.search_domains ++ rest)
    front =
        let (rest, e) = dedupe-append base.search_domains searches distinct in
        (
          take (8 - length base.search_domains) (sanitize_search rest),
          rw
              (
                e,
                sanitize_search-append base.search_domains rest,
                sanitize_search_clean base.search_domains clean,
              )
              (take-append 8 base.search_domains (sanitize_search rest) fits),
        )
