-- ===== src/Dns/Search.antt =====
-- normalize.go, and dedupe of expand.go: the one normalization of a search list.
use darwin_net.Prelude.{
  ℕ, zero, suc, ◌≤◌, ◌≡◌, refl, ap, ◌∙◌, arith, Bool, true, false, not, ◌&&◌, ◌||◌, if◌then◌else◌,
  List, [], ◌∷◌, ◌++◌, ◌==◌, nat_eq, list_eq, list_beq_iff, elem, Distinct, leb, take, length,
  length-take, is_nil, All, map, filter_by,
}
use darwin_net.Prelude.Texts.{Text, is_space, trim_space, trim_space_clean}

abbrev pub max_search_domains : ℕ
max_search_domains = 8

abbrev pub rfc1123_char : ℕ → Bool
rfc1123_char c =
    (leb b'a' c && leb c b'z')
    || (leb b'A' c && leb c b'Z')
    || (leb b'0' c && leb c b'9')
    || (c == b'.' || c == b'-')

unfoldable pub has_only_rfc1123_chars : Text → Bool
has_only_rfc1123_chars [] = true
has_only_rfc1123_chars (c ∷ s) =
    let rest = has_only_rfc1123_chars s in if rfc1123_char c then rest else false

unfoldable pub sanitize_search : List Text → List Text
sanitize_search [] = []
sanitize_search (s ∷ searches) =
    let t = trim_space s in
    let rest = sanitize_search searches in
    if is_nil t then rest else if not (has_only_rfc1123_chars t) then rest else t ∷ rest

unfoldable pub cap_search : List Text → List Text
cap_search searches = take max_search_domains searches

unfoldable pub normalize_search : List Text → List Text
unfolding cap_search
normalize_search searches = cap_search (sanitize_search searches)

-- dedupe, over the values seen
unfoldable pub dedupe_from : List Text → List Text → List Text
dedupe_from seen [] = []
dedupe_from seen (s ∷ xs) =
    let skipped = dedupe_from seen xs in
    let kept = s ∷ dedupe_from (s ∷ seen) xs in if elem s seen then skipped else kept

unfoldable pub dedupe : List Text → List Text
unfolding dedupe_from
dedupe xs = dedupe_from [] xs

-- a search domain as the shim, the guest and the resolver may get it
abbrev pub IsClean : Text → Type 0
IsClean s = (is_nil s ≡ false) × (has_only_rfc1123_chars s ≡ true)

pub charset-no_space :
    (s : Text) → has_only_rfc1123_chars s ≡ true → All (λ c. is_space c ≡ false) s
unfolding has_only_rfc1123_chars
charset-no_space [] h = tt
charset-no_space (c ∷ s) h = (no_space c (ground arith), charset-no_space s (ground arith))
  where
    no_space : (c : ℕ) → rfc1123_char c ≡ true → is_space c ≡ false
    no_space c h = ground arith

pub sanitize_search-All : (searches : List Text) → All IsClean (sanitize_search searches)
unfolding sanitize_search
sanitize_search-All [] = tt
sanitize_search-All (s ∷ searches) = ground (arith, sanitize_search-All searches)

-- a list of clean domains is left alone
pub sanitize_search_clean : (xs : List Text) → All IsClean xs → sanitize_search xs ≡ xs
unfolding sanitize_search
sanitize_search_clean [] h = refl
sanitize_search_clean (s ∷ xs) h =
    rw (trim_space_clean s (charset-no_space s h.0.1), h.0.0, h.0.1)
      (ap (λ (t : List Text). s ∷ t) (sanitize_search_clean xs h.1))

All-take {κ} : (P : Text → Type κ) (n : ℕ) (xs : List Text) → All P xs → All P (take n xs)
All-take P zero xs h = tt
All-take P (suc n) [] h = tt
All-take P (suc n) (x ∷ xs) h = (h.0, All-take P n xs h.1)

take-take : (n : ℕ) (xs : List Text) → take n (take n xs) ≡ take n xs
take-take zero xs = refl
take-take (suc n) [] = refl
take-take (suc n) (x ∷ xs) = ap (λ (t : List Text). x ∷ t) (take-take n xs)

-- what sanitizing is, entry by entry
sanitize_search-filter :
    (xs : List Text)
    → sanitize_search xs
      ≡ filter_by (λ t. not (is_nil t) && has_only_rfc1123_chars t) (map trim_space xs)
unfolding sanitize_search
sanitize_search-filter [] = refl
sanitize_search-filter (s ∷ xs) = ground (arith, sanitize_search-filter xs)

-- A normalized search list is the first eight of the trimmed entries that are not empty and within the
-- charset, in their order. It holds at most eight entries, each of them not empty and within the
-- charset, and to normalize it again changes nothing.
pub normalize_search-fixed :
    (xs : List Text)
    → (normalize_search xs
        ≡ take 8 (filter_by (λ t. not (is_nil t) && has_only_rfc1123_chars t) (map trim_space xs)))
      × (length (normalize_search xs) ≤ 8)
      × All IsClean (normalize_search xs)
      × (normalize_search (normalize_search xs) ≡ normalize_search xs)
unfolding normalize_search
normalize_search-fixed xs = (
  ap (take 8) (sanitize_search-filter xs),
  omega (arith, length-take 8 (sanitize_search xs)),
  clean,
  ap (take 8) (sanitize_search_clean (take 8 (sanitize_search xs)) clean)
      ∙ take-take 8 (sanitize_search xs),
)
  where
    clean : All IsClean (take 8 (sanitize_search xs))
    clean = All-take IsClean 8 (sanitize_search xs) (sanitize_search-All xs)

elem-dedupe_from :
    (xs seen : List Text) (t : Text)
    → elem t (dedupe_from seen xs) ≡ (elem t xs && not (elem t seen))
unfolding dedupe_from
elem-dedupe_from [] seen t = refl
elem-dedupe_from (s ∷ xs) seen t =
    ground (arith, elem-dedupe_from xs seen t, elem-dedupe_from xs (s ∷ seen) t, list_beq_iff s t)

Distinct-dedupe_from : (xs seen : List Text) → Distinct (dedupe_from seen xs)
unfolding dedupe_from
Distinct-dedupe_from [] seen = tt
Distinct-dedupe_from (s ∷ xs) seen = ground (
  arith,
  Distinct-dedupe_from xs seen,
  Distinct-dedupe_from xs (s ∷ seen),
  elem-dedupe_from xs (s ∷ seen) s,
  list_beq_iff s s,
)

pub elem-dedupe : (xs : List Text) (t : Text) → elem t (dedupe xs) ≡ elem t xs
unfolding dedupe
elem-dedupe xs t = ground (arith, elem-dedupe_from xs [] t)

pub Distinct-dedupe : (xs : List Text) → Distinct (dedupe xs)
unfolding dedupe
Distinct-dedupe xs = Distinct-dedupe_from xs []

-- a list with no repetition keeps its place at the front
dedupe_from-append :
    (xs ys seen : List Text)
    → Distinct xs
    → All (λ s. elem s seen ≡ false) xs
    → (rest : List Text) × (dedupe_from seen (xs ++ ys) ≡ xs ++ rest)
unfolding dedupe_from
dedupe_from-append [] ys seen d h = (dedupe_from seen ys, refl)
dedupe_from-append (s ∷ xs) ys seen d h =
    let (rest, e) = dedupe_from-append xs ys (s ∷ seen) d.1 (unseen xs d.0 h.1) in
    (rest, rw (h.0, e))
  where
    unseen :
        (xs : List Text)
        → elem s xs ≡ false
        → All (λ t. elem t seen ≡ false) xs
        → All (λ t. elem t (s ∷ seen) ≡ false) xs
    unseen [] f g = tt
    unseen (x ∷ xs) f g =
        (ground (arith, list_beq_iff x s, list_beq_iff s x), unseen xs (ground arith) g.1)

pub dedupe-append :
    (xs ys : List Text) → Distinct xs → (rest : List Text) × (dedupe (xs ++ ys) ≡ xs ++ rest)
unfolding dedupe
dedupe-append xs ys d = dedupe_from-append xs ys [] d (unseen xs)
  where
    unseen : (xs : List Text) → All (λ t. elem {A = Text} t [] ≡ false) xs
    unseen [] = tt
    unseen (x ∷ xs) = (refl, unseen xs)

pub sanitize_search-append :
    (xs ys : List Text) → sanitize_search (xs ++ ys) ≡ sanitize_search xs ++ sanitize_search ys
unfolding sanitize_search
sanitize_search-append [] ys = refl
sanitize_search-append (s ∷ xs) ys = ground (arith, sanitize_search-append xs ys)
