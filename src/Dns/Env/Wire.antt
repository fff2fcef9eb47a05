-- ===== src/Dns/Env/Wire.antt =====
-- The values of the environment that env.go writes, read back: the words between blanks, and the number
-- of the ndots.
use mathlib.Core.Option.{none-ne-some, some-injective}
use mathlib.Core.Path.{subst}
use darwin_net.Prelude.{
  ℕ, ◌≤◌, ◌≡◌, refl, sym, ap, ◌∙◌, false, ◌||◌, if◌then◌else◌, Bool-cases, inl, inr, some, List, [],
  ◌∷◌, ◌++◌, ◌==◌, nat_eq, string_eq, leb, is_nil, All, ℤ, pos, negsuc, arith,
}
use darwin_net.Prelude.Texts.{Text, is_space, join_spaces, itoa, atoi_from, atoi_from-itoa}
use darwin_net.Prelude.Maps.{lookup}
use darwin_net.Dns.Search.{IsClean, charset-no_space, normalize_search, normalize_search-fixed}
use darwin_net.Dns.Merge.{DnsConfig}
use darwin_net.Dns.Env.{
  DnsApis, Env, env_dns_search, env_dns_ndots, decimal, default_positive, clamp_ndots, ipv4_servers,
  config_to_env_checked, is_no_policy,
}

-- the words of a text between spaces and tabs, the word so far in `word`
unfoldable tokens_from : Text → Text → List Text
tokens_from word [] = if is_nil word then [] else word ∷ []
tokens_from word (c ∷ s) =
    let rest = tokens_from [] s in
    let longer = tokens_from (word ++ c ∷ []) s in
    if c == 0x20 || c == 0x9 then (if is_nil word then rest else word ∷ rest) else longer

unfoldable pub tokens : Text → List Text
unfolding tokens_from
tokens s = tokens_from [] s

append-cons : (w : Text) (c : ℕ) (s : Text) → (w ++ c ∷ []) ++ s ≡ w ++ c ∷ s
append-cons [] c s = refl
append-cons (d ∷ w) c s = ap (λ (t : Text). d ∷ t) (append-cons w c s)

append-nil : (w : Text) → w ++ [] ≡ w
append-nil [] = refl
append-nil (d ∷ w) = ap (λ (t : Text). d ∷ t) (append-nil w)

tokens_from-append :
    (s word rest : Text)
    → All (λ c. is_space c ≡ false) s
    → tokens_from word (s ++ rest) ≡ tokens_from (word ++ s) rest
unfolding tokens_from
tokens_from-append [] word rest h = rw (append-nil word) refl
tokens_from-append (c ∷ s) word rest h =
    let e : (c == 0x20 || c == 0x9) ≡ false = not_blank c h.0 in
    rw e (
      tokens_from-append s (word ++ c ∷ []) rest h.1
      ∙ ap (λ t. tokens_from t rest) (append-cons word c s))
  where
    not_blank : (c : ℕ) → is_space c ≡ false → (c == 0x20 || c == 0x9) ≡ false
    not_blank c h = ground arith

-- a clean domain is read to its end
tokens-clean : (s rest : Text) → IsClean s → tokens (s ++ rest) ≡ tokens_from s rest
unfolding tokens
tokens-clean s rest h = tokens_from-append s [] rest (charset-no_space s h.1)

tokens-join_spaces : (xs : List Text) → All IsClean xs → tokens (join_spaces xs) ≡ xs
unfolding tokens tokens_from join_spaces
tokens-join_spaces [] h = refl
tokens-join_spaces (s ∷ []) h =
    ap tokens (sym (append-nil s)) ∙ tokens-clean s [] h.0 ∙ rw h.0.0 refl
tokens-join_spaces (s ∷ t ∷ xs) h =
    tokens-clean s (b' ' ∷ join_spaces (t ∷ xs)) h.0
    ∙ rw h.0.0 (ap (λ (ts : List Text). s ∷ ts) (tokens-join_spaces (t ∷ xs) h.1))

-- the ndots on the wire
clamped : (n : ℤ) → (k : ℕ) × (clamp_ndots (default_positive n) ≡ pos k) × (1 ≤ k) × (k ≤ 15)
clamped (negsuc m) = (5, refl, omega arith, omega arith)
clamped (pos m) = elim (Bool-cases (leb m 0)) [
  | inl z ↦ (5, rw z refl, omega arith, omega arith)
  | inr z ↦ elim (Bool-cases (leb m 15)) [
    | inl small ↦ (m, rw (z, small) refl, ground (arith, z), ground (arith, small))
    | inr big ↦ (15, rw (z, big) refl, omega arith, omega arith)
  ]
]

abbrev Carries : DnsConfig → Env → Type 0
Carries cfg env =
    (lookup env_dns_search env ≡ some (join_spaces (normalize_search cfg.search_domains)))
    × (lookup env_dns_ndots env ≡ some (decimal (clamp_ndots (default_positive cfg.ndots))))

carried_by : (cfg : DnsConfig) (e env : Env) → Carries cfg e → some e ≡ some env → Carries cfg env
carried_by cfg e env c h = subst (Carries cfg) (some-injective e env h) c

carried :
    (apis : DnsApis) (cfg : DnsConfig) (env : Env)
    → (config_to_env_checked apis cfg).0 ≡ some env
    → Carries cfg env
unfolding config_to_env_checked
carried apis cfg env = elim (Bool-cases (apis.validates cfg)) [
  | inr e ↦ rw e (λ h. absurd (none-ne-some env h))
  | inl e ↦ elim (Bool-cases (is_no_policy cfg.policy)) [
    | inr p ↦ rw (e, p) (carried_by cfg _ env (refl, refl))
    | inl p ↦ elim (Bool-cases (is_nil (ipv4_servers apis (apis.servers cfg)).0)) [
      | inl k ↦ rw (e, p, k) (λ h. absurd (none-ne-some env h))
      | inr k ↦ elim (Bool-cases (is_nil (ipv4_servers apis (apis.servers cfg)).1)) [
        | inl d ↦ elim (Bool-cases (is_nil cfg.cluster_domain)) [
          | inl n ↦ rw (e, p, k, d, n) (carried_by cfg _ env (refl, refl))
          | inr n ↦ rw (e, p, k, d, n) (carried_by cfg _ env (refl, refl))
        ]
        | inr d ↦ elim (Bool-cases (is_nil cfg.cluster_domain)) [
          | inl n ↦ rw (e, p, k, d, n) (carried_by cfg _ env (refl, refl))
          | inr n ↦ rw (e, p, k, d, n) (carried_by cfg _ env (refl, refl))
        ]
      ]
    ]
  ]
]

-- Whenever ConfigToEnvChecked gives an environment, the search list that it carries splits on spaces and
-- tabs into exactly the normalized search domains, and the digits of its ndots are those of a number
-- from 1 to 15, which is the configured one after the default and the clamp.
pub config_to_env-reads_back :
    (apis : DnsApis) (cfg : DnsConfig) (env : Env)
    → (config_to_env_checked apis cfg).0 ≡ some env
    → (search : Text) × (nd : Text) × (lookup env_dns_search env ≡ some search)
      × (tokens search ≡ normalize_search cfg.search_domains)
      × (lookup env_dns_ndots env ≡ some nd)
      × (pos (atoi_from 0 nd) ≡ clamp_ndots (default_positive cfg.ndots))
      × (1 ≤ atoi_from 0 nd)
      × (atoi_from 0 nd ≤ 15)
config_to_env-reads_back apis cfg env h =
    let (k, e, low, high) = clamped cfg.ndots in
    let (search, ndots) = carried apis cfg env h in
    (
      join_spaces (normalize_search cfg.search_domains),
      itoa k,
      search,
      tokens-join_spaces (normalize_search cfg.search_domains)
          (normalize_search-fixed cfg.search_domains).2,
      ndots ∙ ap (λ (n : ℤ). some (decimal n)) e,
      ap pos (atoi_from-itoa k) ∙ sym e,
      omega (arith, low, atoi_from-itoa k),
      omega (arith, high, atoi_from-itoa k),
    )
