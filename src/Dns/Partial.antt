-- ===== src/Dns/Partial.antt =====
-- partial.go, and isDNSLabel and normalizeDomain of synth.go: the completion of partial Service names.
-- strings.ToLower and the table of top-level domains (tlds_iana.go, generated) are parameters.
pub mod Shape
use darwin_net.Prelude.{
  ℕ, zero, suc, ◌+◌, ◌≡◌, ◌≢◌, ◌⊎◌, inl, inr, refl, ap, sym, ◌∙◌, arith, Bool, true, false, not,
  ◌&&◌, ◌||◌, if◌then◌else◌, List, [], ◌∷◌, ◌++◌, Option, none, some, ◌==◌, nat_eq, list_eq,
  list_beq_iff, elem, leb, ltb, length, nat_beq, is_nil, Bool-cases, Option-cases,
}
use darwin_net.Prelude.Texts.{Text, codes, has_dot_suffix, trim_dot_suffix}

pub data Verdict : Type 0 where
  passthrough completed refused forward : Verdict

abbrev pub svc_label : Text
svc_label = codes "svc"

abbrev pub cons_label : ℕ → List Text → List Text
cons_label c [] = (c ∷ []) ∷ []
cons_label c (w ∷ ws) = (c ∷ w) ∷ ws

-- strings.Split(s, ".")
unfoldable pub split_dots : Text → List Text
split_dots [] = [] ∷ []
split_dots (c ∷ s) = let rest = split_dots s in if c == b'.' then [] ∷ rest else cons_label c rest

-- the loop of isDNSLabel after the first character: a hyphen is not the last one
unfoldable pub label_rest : Text → Bool
label_rest [] = true
label_rest (c ∷ s) =
    let rest = label_rest s in
    if (leb b'a' c && leb c b'z') || (leb b'0' c && leb c b'9')
    then rest
    else if c == b'-'
    then not (is_nil s) && rest
    else false

unfoldable pub is_dns_label : Text → Bool
is_dns_label [] = false
is_dns_label (c ∷ s) =
    if ltb 63 (length (c ∷ s)) then false else if c == b'-' then false else label_rest (c ∷ s)

abbrev pub all_labels : List Text → Bool
all_labels [] = true
all_labels (l ∷ ls) = is_dns_label l && all_labels ls

abbrev pub last_label : List Text → Text
last_label [] = []
last_label (l ∷ []) = l
last_label (l ∷ m ∷ ls) = last_label (m ∷ ls)

-- strings.HasSuffix
unfoldable pub has_suffix : Text → Text → Bool
has_suffix [] suffix = is_nil suffix
has_suffix (c ∷ s) suffix = let rest = has_suffix s suffix in (c ∷ s) == suffix || rest

abbrev pub special_use_suffixes : List Text
special_use_suffixes =
    codes "alt"
    ∷ codes "arpa"
    ∷ codes "corp"
    ∷ codes "example"
    ∷ codes "home"
    ∷ codes "internal"
    ∷ codes "intranet"
    ∷ codes "invalid"
    ∷ codes "lan"
    ∷ codes "local"
    ∷ codes "localdomain"
    ∷ codes "localhost"
    ∷ codes "onion"
    ∷ codes "private"
    ∷ codes "test"
    ∷ []

-- the second label, which names the namespace
abbrev pub namespace_of : List Text → Text
namespace_of [] = []
namespace_of (a ∷ []) = []
namespace_of (a ∷ ns ∷ ls) = ns

module _ (lower : Text → Text) (iana_tlds : Text → Bool) where
  unfoldable pub normalize_domain : Text → Option Text
  normalize_domain cluster_domain =
      let d = lower (trim_dot_suffix cluster_domain) in
      if is_nil d then none else if all_labels (split_dots d) then some d else none

  unfoldable pub is_reserved_suffix : Text → Bool
  is_reserved_suffix label =
      let l = lower (trim_dot_suffix label) in
      if elem l special_use_suffixes then true else iana_tlds l

  -- the completion of a name under a namespace that has opted in; none for a nil optedIn
  abbrev pub opted : Option (Text → Bool) → Text → Bool
  opted none ns = false
  opted (some opted_in) ns = not (is_reserved_suffix ns) && opted_in ns

  -- the rules on the lower-cased name, with the normalized domain
  unfoldable pub classify_name : Text → Text → Text → Option (Text → Bool) → Text × Verdict
  classify_name qname name domain opted_in =
      let labels = split_dots name in
      let valid = all_labels labels in
      if name == domain || has_suffix name (b'.' ∷ domain)
      then (qname, passthrough)
      else if last_label labels == svc_label
      then (if valid && nat_beq (length labels) 3
          then (name ++ b'.' ∷ domain, completed)
          else (qname, refused))
      else if valid && nat_beq (length labels) 2 && opted opted_in (namespace_of labels)
      then (name ++ b'.' ∷ (svc_label ++ b'.' ∷ domain), completed)
      else (qname, forward)

  unfoldable pub complete_partial_name : Text → Text → Option (Text → Bool) → Text × Verdict
  complete_partial_name qname cluster_domain opted_in =
      if has_dot_suffix qname
      then (qname, passthrough)
      else elim (normalize_domain cluster_domain) [
        | none ↦ (qname, passthrough)
        | some domain ↦ classify_name qname (lower qname) domain opted_in
      ]
