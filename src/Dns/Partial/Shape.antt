-- ===== src/Dns/Partial/Shape.antt =====
-- The result of CompletePartialName (partial.go) against the labels of the query.
use darwin_net.Prelude.{
  ℕ, ◌≡◌, ◌≢◌, ◌⊎◌, none, inl, inr, refl, ap, ◌∙◌, arith, Bool, true, false, ◌&&◌, ◌||◌, List, [],
  ◌∷◌, ◌++◌, Option, some, ◌==◌, nat_eq, list_eq, list_beq_iff, length, nat_beq, is_nil, Bool-cases,
  Option-cases,
}
use darwin_net.Prelude.Texts.{Text, has_dot_suffix}
use darwin_net.Dns.Partial.{
  completed, forward, svc_label, cons_label, split_dots, is_dns_label, all_labels, last_label,
  has_suffix, normalize_domain, namespace_of, is_reserved_suffix, opted, classify_name,
  complete_partial_name,
}

cons_label_append :
    (c : ℕ) (ws vs : List Text)
    → is_nil ws ≡ false
    → cons_label c (ws ++ vs) ≡ cons_label c ws ++ vs
cons_label_append c [] vs h = absurd (ground (arith, h))
cons_label_append c (w ∷ ws) vs h = refl

cons_label_some : (c : ℕ) (ws : List Text) → is_nil (cons_label c ws) ≡ false
cons_label_some c [] = refl
cons_label_some c (w ∷ ws) = refl

split_dots_some : (s : Text) → is_nil (split_dots s) ≡ false
unfolding split_dots
split_dots_some [] = refl
split_dots_some (c ∷ s) = elim (Bool-cases (is_nil (split_dots s))) [
  | inl empty ↦ absurd (ground (arith, empty, split_dots_some s))
  | inr some_labels ↦ ground (arith, cons_label_some c (split_dots s))
]

-- the labels of two names joined by a dot
split_dots_join : (s t : Text) → split_dots (s ++ b'.' ∷ t) ≡ split_dots s ++ split_dots t
unfolding split_dots
split_dots_join [] t = refl
split_dots_join (c ∷ s) t = ground (
  arith,
  split_dots_join s t,
  cons_label_append c (split_dots s) (split_dots t) (split_dots_some s),
)

-- the labels that the two completions ask for
two_labels :
    (ls : List Text)
    → all_labels ls ≡ true
    → length ls ≡ 2
    → (a : Text) × (ns : Text) × (ls ≡ a ∷ ns ∷ [])
      × (is_dns_label a ≡ true)
      × (is_dns_label ns ≡ true)
two_labels [] v h = absurd (omega (arith, h))
two_labels (a ∷ []) v h = absurd (omega (arith, h))
two_labels (a ∷ ns ∷ []) v h = (a, ns, refl, ground (arith, v), ground (arith, v))
two_labels (a ∷ ns ∷ b ∷ ls) v h = absurd (omega (arith, h))

three_labels :
    (ls : List Text)
    → all_labels ls ≡ true
    → length ls ≡ 3
    → last_label ls ≡ svc_label
    → (a : Text) × (ns : Text) × (ls ≡ a ∷ ns ∷ svc_label ∷ [])
      × (is_dns_label a ≡ true)
      × (is_dns_label ns ≡ true)
three_labels [] v h last = absurd (omega (arith, h))
three_labels (a ∷ []) v h last = absurd (omega (arith, h))
three_labels (a ∷ ns ∷ []) v h last = absurd (omega (arith, h))
three_labels (a ∷ ns ∷ b ∷ []) v h last =
    (a, ns, ap (λ x. a ∷ ns ∷ x ∷ []) last, ground (arith, v), ground (arith, v))
three_labels (a ∷ ns ∷ b ∷ c ∷ ls) v h last = absurd (omega (arith, h))

svc_labels : split_dots svc_label ≡ svc_label ∷ []
unfolding split_dots
svc_labels = refl

module _ (lower : Text → Text) (iana_tlds : Text → Bool) where
  -- what a query asks for: <a>.<ns>.svc, or <a>.<ns> under a namespace that has opted in
  abbrev pub Asks : Text → Option (Text → Bool) → Text → Text → Type 0
  Asks name opted_in a ns =
      (split_dots name ≡ a ∷ ns ∷ svc_label ∷ [])
      ⊎ ((split_dots name ≡ a ∷ ns ∷ [])
          × ((ns == svc_label) ≡ false)
          × (is_reserved_suffix lower iana_tlds ns ≡ false)
          × (f : Text → Bool) × (opted_in ≡ some f)
          × (f ns ≡ true))

  -- the form of a completed name, after the labels of the query
  abbrev Shape : Text → Option (Text → Bool) → Text → Text → Type 0
  Shape name opted_in fqdn d =
      (a : Text) × (ns : Text) × Asks name opted_in a ns
      × (split_dots fqdn ≡ a ∷ ns ∷ svc_label ∷ split_dots d)
      × (is_dns_label a ≡ true)
      × (is_dns_label ns ≡ true)

  full-Shape :
      (name d : Text) (opted_in : Option (Text → Bool))
      → all_labels (split_dots name) ≡ true
      → length (split_dots name) ≡ 3
      → last_label (split_dots name) ≡ svc_label
      → Shape name opted_in (name ++ b'.' ∷ d) d
  full-Shape name d opted_in valid three last =
      let (a, ns, labels, va, vns) = three_labels (split_dots name) valid three last in
      (a, ns, inl labels, split_dots_join name d ∙ ap (λ ls. ls ++ split_dots d) labels, va, vns)

  opted-some :
      (opted_in : Option (Text → Bool)) (ns : Text)
      → opted lower iana_tlds opted_in ns ≡ true
      → (is_reserved_suffix lower iana_tlds ns ≡ false)
        × (f : Text → Bool) × (opted_in ≡ some f)
        × (f ns ≡ true)
  opted-some none ns h = absurd (ground (arith, h))
  opted-some (some f) ns h = (ground (arith, h), f, refl, ground (arith, h))

  short-Shape :
      (name d : Text) (opted_in : Option (Text → Bool))
      → all_labels (split_dots name) ≡ true
      → length (split_dots name) ≡ 2
      → (last_label (split_dots name) == svc_label) ≡ false
      → opted lower iana_tlds opted_in (namespace_of (split_dots name)) ≡ true
      → Shape name opted_in (name ++ b'.' ∷ (svc_label ++ b'.' ∷ d)) d
  short-Shape name d opted_in valid two other open' =
      let (a, ns, labels, va, vns) = two_labels (split_dots name) valid two in
      let other' = rw labels at other in
      let (free, f, set, opts) = opted-some opted_in ns (rw labels at open') in
      (
        a,
        ns,
        inr (labels, other', free, f, set, opts),
        split_dots_join name (svc_label ++ b'.' ∷ d)
            ∙ ap (λ ls. ls ++ split_dots (svc_label ++ b'.' ∷ d)) labels
            ∙ ap (λ ls. a ∷ ns ∷ ls)
                (split_dots_join svc_label d ∙ ap (λ ls. ls ++ split_dots d) svc_labels),
        va,
        vns,
      )

  classify_name-Shape :
      (qname name d fqdn : Text) (opted_in : Option (Text → Bool))
      → classify_name lower iana_tlds qname name d opted_in ≡ (fqdn, completed)
      → ((name == d || has_suffix name (b'.' ∷ d)) ≡ false) × Shape name opted_in fqdn d
  unfolding classify_name
  classify_name-Shape qname name d fqdn opted_in h =
      let ls = split_dots name in
      elim (Bool-cases (name == d || has_suffix name (b'.' ∷ d))) [
        | inl under ↦ let h' = rw (under, classify_name) at h in absurd (ground (arith, h'))
        | inr outside ↦ elim (Bool-cases (last_label ls == svc_label)) [
          | inl svc ↦ elim (Bool-cases (all_labels ls && nat_beq (length ls) 3)) [
            | inr bad ↦
                let h' = rw (outside, svc, bad, classify_name) at h in absurd (ground (arith, h'))
            | inl good ↦
                let h' = rw (outside, svc, good, classify_name) at h in
                let e : name ++ b'.' ∷ d ≡ fqdn = ground (arith, h') in
                let shape =
                  full-Shape name d opted_in (ground (arith, good)) (ground (arith, good))
                    ((list_beq_iff (last_label ls) svc_label).0 svc) in
                (outside, rw (← e) shape)
          ]
          | inr other ↦
              elim (Bool-cases (
                all_labels ls
                && nat_beq (length ls) 2
                && opted lower iana_tlds opted_in (namespace_of ls))) [
                  | inr bad ↦
                      let h' = rw (outside, other, bad, classify_name) at h in
                      absurd (ground (arith, h'))
                  | inl good ↦
                      let h' = rw (outside, other, good, classify_name) at h in
                      let e : name ++ b'.' ∷ (svc_label ++ b'.' ∷ d) ≡ fqdn = ground (arith, h') in
                      let shape =
                        short-Shape name d opted_in (ground (arith, good)) (ground (arith, good))
                          other (ground (arith, good)) in
                      (outside, rw (← e) shape)
                ]
        ]
      ]

-- A query that is completed is outside the normalized cluster domain, and its labels, in lower case, are
-- <a>.<ns>.svc, or <a>.<ns> with ns neither svc nor a reserved suffix and opted in. The completed
-- name is <a>.<ns>.svc.<domain>, label by label, with those two labels, which are valid.
pub complete_partial_name-Shape :
    (lower : Text → Text) (iana_tlds : Text → Bool) (qname cluster_domain fqdn : Text)
    (opted_in : Option (Text → Bool))
    → complete_partial_name lower iana_tlds qname cluster_domain opted_in ≡ (fqdn, completed)
    → (d : Text) × (normalize_domain lower iana_tlds cluster_domain ≡ some d)
      × ((lower qname == d || has_suffix (lower qname) (b'.' ∷ d)) ≡ false)
      × (a : Text) × (ns : Text) × Asks lower iana_tlds (lower qname) opted_in a ns
      × (split_dots fqdn ≡ a ∷ ns ∷ svc_label ∷ split_dots d)
      × (is_dns_label a ≡ true)
      × (is_dns_label ns ≡ true)
unfolding complete_partial_name
complete_partial_name-Shape lower iana_tlds qname cluster_domain fqdn opted_in h =
    elim (Bool-cases (has_dot_suffix qname)) [
      | inl absolute ↦
          let h' = rw (absolute, complete_partial_name) at h in absurd (ground (arith, h'))
      | inr relative ↦ elim (Option-cases (normalize_domain lower iana_tlds cluster_domain)) [
        | inl bad ↦
            let h' = rw (relative, bad, complete_partial_name) at h in absurd (ground (arith, h'))
        | inr (d, nd) ↦
            let h' = rw (relative, nd, complete_partial_name) at h in
            let (outside, shape) =
              classify_name-Shape lower iana_tlds qname (lower qname) d fqdn opted_in h' in
            let (a, ns, asks, labels, va, vns) = shape in
            (d, nd, outside, a, ns, asks, labels, va, vns)
      ]
    ]

-- A name whose last label is svc is never forwarded upstream, whatever the cluster domain.
pub complete_partial_name_keeps_svc :
    (lower : Text → Text) (iana_tlds : Text → Bool) (qname cluster_domain : Text)
    (opted_in : Option (Text → Bool))
    → last_label (split_dots (lower qname)) ≡ svc_label
    → (complete_partial_name lower iana_tlds qname cluster_domain opted_in).1 ≢ forward
unfolding complete_partial_name classify_name
complete_partial_name_keeps_svc lower iana_tlds qname cluster_domain opted_in last f =
    elim (Option-cases (normalize_domain lower iana_tlds cluster_domain)) [
      | inl bad ↦ ground (arith, f, bad)
      | inr (d, nd) ↦
          ground
            (arith, f, nd, last, list_beq_iff (last_label (split_dots (lower qname))) svc_label)
    ]
