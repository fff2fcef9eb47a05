-- ===== src/Dns/Expand.antt =====
-- candidateNames (expand.go): the names that a resolver tries for a query, in order.
use mathlib.Core.Path.{ap₂}
use darwin_net.Prelude.{
  ℕ, ◌-◌, ◌%◌, ◌^◌, ◌≡◌, ◌≢◌, refl, ap, arith, true, false, if◌then◌else◌, List, [], ◌∷◌, ◌++◌,
  ◌==◌, nat_eq, list_eq, list_beq_iff, elem, Distinct, length, length-append, is_nil, ltb, ℤ, pos,
  negsuc, leb_ℤ, Bool-cases, inl, inr,
}
use darwin_net.Prelude.Texts.{Text, trim_space, has_dot_suffix, trim_dot_suffix, count_dots}
use darwin_net.Dns.Search.{normalize_search, dedupe, dedupe_from, Distinct-dedupe}
use darwin_net.Dns.Merge.{DnsConfig}

-- int32(n)
abbrev pub to_int32 : ℕ → ℤ
to_int32 n =
    if ltb (n % 2 ^ 32) (2 ^ 31) then pos (n % 2 ^ 32) else negsuc (2 ^ 32 - n % 2 ^ 32 - 1)

-- name + "." + d for each search domain that is not empty without its trailing dot
unfoldable pub searched : Text → List Text → List Text
searched name [] = []
searched name (d ∷ search) =
    let rest = searched name search in
    let d' = trim_dot_suffix d in if is_nil d' then rest else (name ++ b'.' ∷ d') ∷ rest

-- the names for a query that is neither empty nor absolute
unfoldable pub relative_names : DnsConfig → Text → List Text
relative_names cfg name =
    let found = searched name (normalize_search cfg.search_domains) in
    dedupe
      (if leb_ℤ cfg.ndots (to_int32 (count_dots name)) then name ∷ found else found ++ name ∷ [])

-- `with_defaults` is DNSConfig.WithDefaults of k3sm.io/apis.
unfoldable pub candidate_names : (DnsConfig → DnsConfig) → DnsConfig → Text → List Text
unfolding relative_names
candidate_names with_defaults cfg query =
    let name = trim_space query in
    if is_nil name
    then []
    else if has_dot_suffix name
    then trim_dot_suffix name ∷ []
    else relative_names (with_defaults cfg) name

length-ne : (s t : Text) → length s ≢ length t → (s == t) ≡ false
length-ne s t h = elim (Bool-cases (s == t)) [
  | inr e ↦ e
  | inl e ↦ absurd (h (ap length ((list_beq_iff s t).0 e)))
]

-- the name itself is none of its expansions
not_searched : (name : Text) (search : List Text) → elem name (searched name search) ≡ false
unfolding searched
not_searched name [] = refl
not_searched name (d ∷ search) = ground (
  arith,
  not_searched name search,
  length-ne (name ++ b'.' ∷ trim_dot_suffix d) name
      (omega (arith, length-append name (b'.' ∷ trim_dot_suffix d))),
)

-- only what is seen matters, not its order
dedupe_from-cong :
    (xs seen seen' : List Text)
    → ((t : Text) → elem t xs ≡ true → elem t seen ≡ elem t seen')
    → dedupe_from seen xs ≡ dedupe_from seen' xs
unfolding dedupe_from
dedupe_from-cong [] seen seen' h = refl
dedupe_from-cong (x ∷ xs) seen seen' h = rw (h x (ground (arith, list_beq_iff x x))) (
    ap₂ (λ (s k : List Text). if elem x seen' then s else x ∷ k)
      (dedupe_from-cong xs seen seen' (λ t e. h t (ground arith)))
      (dedupe_from-cong xs (x ∷ seen) (x ∷ seen') (λ t e. ground (arith, h t))))

dedupe_from-last :
    (xs seen : List Text) (s : Text)
    → elem s xs ≡ false
    → elem s seen ≡ false
    → dedupe_from seen (xs ++ s ∷ []) ≡ dedupe_from seen xs ++ s ∷ []
unfolding dedupe_from
dedupe_from-last [] seen s h k = rw k
dedupe_from-last (x ∷ xs) seen s h k =
    ground (arith, dedupe_from-last xs seen s, dedupe_from-last xs (x ∷ seen) s)

dedupe-first : (xs : List Text) (s : Text) → elem s xs ≡ false → dedupe (s ∷ xs) ≡ s ∷ dedupe xs
unfolding dedupe dedupe_from
dedupe-first xs s h =
    ap (λ (t : List Text). s ∷ t)
      (dedupe_from-cong xs (s ∷ []) [] (λ t e. ground (arith, list_beq_iff s t)))

-- With at least ndots dots the name is tried first and its expansions after it; with fewer dots the
-- expansions come first and the name last. No name is tried twice.
pub relative_names_order :
    (cfg : DnsConfig) (name : Text)
    → let found = searched name (normalize_search cfg.search_domains) in
      let enough = leb_ℤ cfg.ndots (to_int32 (count_dots name)) in
      (relative_names cfg name
        ≡ (if enough then name ∷ dedupe found else dedupe found ++ name ∷ []))
      × Distinct (relative_names cfg name)
unfolding relative_names
relative_names_order cfg name = (
  elim (Bool-cases (leb_ℤ cfg.ndots (to_int32 (count_dots name)))) [
    | inl enough ↦ rw enough (dedupe-first found name fresh)
    | inr few ↦ rw few (unfold dedupe in dedupe_from-last found [] name fresh refl)
  ],
  Distinct-dedupe _,
)
  where
    found : List Text
    found = searched name (normalize_search cfg.search_domains)

    fresh : elem name found ≡ false
    fresh = not_searched name (normalize_search cfg.search_domains)
