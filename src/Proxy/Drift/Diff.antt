-- ===== src/Proxy/Drift/Diff.antt =====
-- DiffBackendSets (vipstate.go) against the two views as sets.
use darwin_net.Prelude.{
  ◌≡◌, ◌↔◌, ap, sym, ◌∙◌, arith, refl, true, false, not, ◌&&◌, List, [], ◌∷◌, ◌++◌, Option, ◌==◌,
  nat_eq, list_eq, list_beq_iff, elem, elem-append, elem-filter_by, filter_by, is_nil, Bool-cases,
  inl, inr, All, All-append,
}
use darwin_net.Prelude.Maps.{keys, elem-keys-lookup}
use darwin_net.Prelude.Texts.{Text}
use darwin_net.Prelude.Sorting.{text_order, elem-sorted_set, sorted_set_unique}
use darwin_net.Netip.{Addr}
use darwin_net.Proxy.Routing.{PortKey, port_key_eq}
use darwin_net.Proxy.Drift.{
  BackendSets, Divergence, normalize_set, set_minus, set_at, visit, visit_all, visited,
  insert_divergence, sort_divergences, diff_backend_sets, compare_port_key,
}

append_nil {ℓ} : {A : Type ℓ} (xs ys : List A) → xs ++ ys ≡ [] → (xs ≡ []) × (ys ≡ [])
append_nil [] ys h = (refl, h)
append_nil (x ∷ xs) ys h = absurd (ground (arith, h))

module _ (want have : BackendSets) where
  -- the two views have the same backends for a key
  abbrev pub SameSets : PortKey → Type 0
  SameSets key = (a : Text) → elem a (set_at key want) ≡ elem a (set_at key have)

  -- what a divergence says: both views' sets, and their differences, one of which is not empty
  abbrev pub Faithful : Divergence → Type 0
  Faithful d =
      ((a : Text)
        → (elem a d.want ≡ elem a (set_at d.key want))
          × (elem a d.have ≡ elem a (set_at d.key have))
          × (elem a d.missing ≡ (elem a (set_at d.key want) && not (elem a (set_at d.key have))))
          × (elem a d.extra ≡ (elem a (set_at d.key have) && not (elem a (set_at d.key want)))))
      × (SameSets d.key → ⊥)

  visit_same : (key : PortKey) → SameSets key → visit want have key ≡ []
  unfolding visit
  visit_same key same = ground (
    arith,
    sorted_set_unique text_order (set_at key want) (set_at key have) same,
    list_beq_iff (normalize_set (set_at key want)) (normalize_set (set_at key have)),
  )

  visit_nil : (key : PortKey) → visit want have key ≡ [] → SameSets key
  unfolding visit
  visit_nil key h a =
      let e : normalize_set (set_at key want) ≡ normalize_set (set_at key have) = ground (
        arith,
        h,
        list_beq_iff (normalize_set (set_at key want)) (normalize_set (set_at key have)),
      ) in
      sym (elem-sorted_set text_order a (set_at key want))
      ∙ ap (elem a) e
      ∙ elem-sorted_set text_order a (set_at key have)

  visit-Faithful : (key : PortKey) → All Faithful (visit want have key)
  visit-Faithful key =
      let w = normalize_set (set_at key want) in
      let h = normalize_set (set_at key have) in
      elim (Bool-cases (w == h)) [
        | inl same ↦
            let none_here : visit want have key ≡ [] = unfold visit in rw same refl in
            rw none_here tt
        | inr differ ↦
            let d : Divergence = record {
              key = key;
              want = w;
              have = h;
              missing = set_minus w h;
              extra = set_minus h w;
            } in
            let one : visit want have key ≡ d ∷ [] = unfold visit in rw differ refl in
            let differs : SameSets key → ⊥ =
              λ same. let e = visit_same key same in ground (arith, e, one) in
            rw one (
              (
                λ a. ground (
                  arith,
                  elem-sorted_set text_order a (set_at key want),
                  elem-sorted_set text_order a (set_at key have),
                  elem-filter_by (λ x. not (elem x h)) a w,
                  elem-filter_by (λ x. not (elem x w)) a h,
                ),
                differs,
              ),
              tt,
            )
      ]

  visit_all-Faithful : (ks : List PortKey) → All Faithful (visit_all want have ks)
  unfolding visit_all
  visit_all-Faithful [] = tt
  visit_all-Faithful (k ∷ ks) =
      All-append Faithful (visit want have k) (visit_all want have ks) (visit-Faithful k)
        (visit_all-Faithful ks)

  visit_all_nil :
      (ks : List PortKey) (key : PortKey)
      → visit_all want have ks ≡ []
      → elem key ks ≡ true
      → visit want have key ≡ []
  unfolding visit_all
  visit_all_nil [] key h e = absurd (ground (arith, e))
  visit_all_nil (k ∷ ks) key h e = ground (
    arith,
    h,
    e,
    port_key_eq.beq_iff k key,
    append_nil (visit want have k) (visit_all want have ks),
    visit_all_nil ks key,
  )

  visit_all_same :
      (ks : List PortKey) → ((key : PortKey) → SameSets key) → visit_all want have ks ≡ []
  unfolding visit_all
  visit_all_same [] same = refl
  visit_all_same (k ∷ ks) same = rw (visit_same k (same k)) (visit_all_same ks same)

  not_visited : (key : PortKey) → elem key (visited want have) ≡ false → SameSets key
  not_visited key h a = ground (
    arith,
    h,
    elem-append key (keys want) (filter_by (λ k. not (elem k (keys want))) (keys have)),
    elem-filter_by (λ k. not (elem k (keys want))) key (keys have),
    elem-keys-lookup key want,
    elem-keys-lookup key have,
  )

  insert_divergence-All :
      (parse : Text → Option Addr) (d : Divergence) (ds : List Divergence)
      → Faithful d
      → All Faithful ds
      → All Faithful (insert_divergence parse d ds)
  unfolding insert_divergence
  insert_divergence-All parse d [] f fs = (f, tt)
  insert_divergence-All parse d (c ∷ ds) f fs =
      elim (Bool-cases (compare_port_key parse c.key d.key)) [
        | inl before ↦ rw before (fs.0, insert_divergence-All parse d ds f fs.1)
        | inr after ↦ rw after (f, fs)
      ]

  sort_divergences-All :
      (parse : Text → Option Addr) (ds : List Divergence)
      → All Faithful ds
      → All Faithful (sort_divergences parse ds)
  unfolding sort_divergences
  sort_divergences-All parse [] fs = tt
  sort_divergences-All parse (d ∷ ds) fs =
      insert_divergence-All parse d (sort_divergences parse ds) fs.0
        (sort_divergences-All parse ds fs.1)

insert_divergence_cons :
    (parse : Text → Option Addr) (d : Divergence) (ds : List Divergence)
    → is_nil (insert_divergence parse d ds) ≡ false
unfolding insert_divergence
insert_divergence_cons parse d [] = refl
insert_divergence_cons parse d (c ∷ ds) = ground arith

sort_divergences_nil :
    (parse : Text → Option Addr) (ds : List Divergence)
    → is_nil (sort_divergences parse ds) ≡ is_nil ds
unfolding sort_divergences
sort_divergences_nil parse [] = refl
sort_divergences_nil parse (d ∷ ds) = insert_divergence_cons parse d (sort_divergences parse ds)

-- Every divergence that DiffBackendSets reports carries both views' sets for its key, the backends
-- missing from and extra in the second view, and a key whose sets do differ.
pub diff_backend_sets-Faithful :
    (parse : Text → Option Addr) (want have : BackendSets)
    → All (Faithful want have) (diff_backend_sets parse want have)
unfolding diff_backend_sets
diff_backend_sets-Faithful parse want have =
    sort_divergences-All want have parse (visit_all want have (visited want have))
      (visit_all-Faithful want have (visited want have))

-- DiffBackendSets reports nothing exactly when every key has the same backends in both views, in
-- whatever order and however often; a key that is absent counts as one with no backends.
pub diff_backend_sets_nil_iff :
    (parse : Text → Option Addr) (want have : BackendSets)
    → (is_nil (diff_backend_sets parse want have) ≡ true)
      ↔ ((key : PortKey) (a : Text) → elem a (set_at key want) ≡ elem a (set_at key have))
unfolding diff_backend_sets
diff_backend_sets_nil_iff parse want have = (
  λ none_found key.
      let all_nil : visit_all want have (visited want have) ≡ [] =
        ground (
          arith,
          none_found,
          sort_divergences_nil parse (visit_all want have (visited want have)),
        ) in
      elim (Bool-cases (elem key (visited want have))) [
        | inl seen ↦
            visit_nil want have key (visit_all_nil want have (visited want have) key all_nil seen)
        | inr unseen ↦ not_visited want have key unseen
      ],
  λ same. ground (
    arith,
    sort_divergences_nil parse (visit_all want have (visited want have)),
    visit_all_same want have (visited want have) same,
  ),
)
