-- ===== src/Ingress/Route/Winner.antt =====
-- The rule that Match answers with (route.go: bestMatch), among the applicable rules.
use darwin_net.Prelude.{
  ◌<◌, ◌≡◌, ◌⊎◌, inl, inr, refl, arith, true, false, List, [], ◌∷◌, Option, none, some, All, Any,
  Bool-cases, Option-cases, nat_eq, list_eq,
}
use darwin_net.Prelude.Texts.{Text}
use darwin_net.Ingress.Route.{
  Rule, RouteState, Backend, Best, best_of, best_loop, best_match, applies, improves, is_exact,
  match_route,
}

-- a longer path, or one as long that is exact where the other is
abbrev pub AtLeast : Best → Best → Type 0
AtLeast b c =
    (c.best_len < b.best_len)
    ⊎ ((c.best_len ≡ b.best_len) × (is_exact c.best_type ≡ true → is_exact b.best_type ≡ true))

AtLeast-trans : (a b c : Best) → AtLeast a b → AtLeast b c → AtLeast a c
AtLeast-trans a b c h k = ground arith

some≢none {ℓ} : {A : Type ℓ} {a : A} → some a ≡ none → ⊥
some≢none h = cc

none≢some {ℓ} : {A : Type ℓ} {a : A} → none ≡ some a → ⊥
none≢some h = cc

module _ (host path : Text) where
  -- the best of the applicable rules and of the best so far, if there is any of these
  abbrev IsWinner : List Rule → Option Best → Option Best → Type 0
  IsWinner rules acc none = All (λ r. applies host path r ≡ false) rules × (acc ≡ none)
  IsWinner rules acc (some b) =
      ((acc ≡ some b) ⊎ Any (λ r. (applies host path r ≡ true) × (best_of r ≡ b)) rules)
      × All (λ r. applies host path r ≡ true → AtLeast b (best_of r)) rules
      × ((c : Best) → acc ≡ some c → AtLeast b c)

  skip :
      (r : Rule) (rules : List Rule) (acc o : Option Best)
      → applies host path r ≡ false
      → IsWinner rules acc o
      → IsWinner (r ∷ rules) acc o
  skip r rules acc none no_r w = ((no_r, w.0), w.1)
  skip r rules acc (some b) no_r (from, all, old) = (grow from, (λ yes_r. cc, all), old)
    where
      grow :
          (acc ≡ some b) ⊎ Any (λ r. (applies host path r ≡ true) × (best_of r ≡ b)) rules
          → (acc ≡ some b) ⊎ Any (λ r. (applies host path r ≡ true) × (best_of r ≡ b)) (r ∷ rules)
      grow (inl e) = inl e
      grow (inr e) = inr (inr e)

  keep :
      (r : Rule) (rules : List Rule) (acc o : Option Best)
      → applies host path r ≡ true
      → improves r acc ≡ false
      → IsWinner rules acc o
      → IsWinner (r ∷ rules) acc o
  keep r rules none o yes_r worse w = cc
  keep r rules (some a) none yes_r worse w = absurd (some≢none w.1)
  keep r rules (some a) (some b) yes_r worse (from, all, old) =
      (grow from, (λ _. AtLeast-trans b a (best_of r) (old a refl) (ground arith), all), old)
    where
      grow :
          (some a ≡ some b) ⊎ Any (λ r. (applies host path r ≡ true) × (best_of r ≡ b)) rules
          → (some a ≡ some b)
            ⊎ Any (λ r. (applies host path r ≡ true) × (best_of r ≡ b)) (r ∷ rules)
      grow (inl e) = inl e
      grow (inr e) = inr (inr e)

  take :
      (r : Rule) (rules : List Rule) (acc o : Option Best)
      → applies host path r ≡ true
      → improves r acc ≡ true
      → IsWinner rules (some (best_of r)) o
      → IsWinner (r ∷ rules) acc o
  take r rules acc none yes_r better w = absurd (some≢none w.1)
  take r rules acc (some b) yes_r better (from, all, old) = (
    inr (grow from),
    (λ _. old (best_of r) refl, all),
    λ c e. AtLeast-trans b (best_of r) c (old (best_of r) refl) (above c e),
  )
    where
      grow :
          (some (best_of r) ≡ some b)
            ⊎ Any (λ r. (applies host path r ≡ true) × (best_of r ≡ b)) rules
          → Any (λ r. (applies host path r ≡ true) × (best_of r ≡ b)) (r ∷ rules)
      grow (inl e) = inl (yes_r, cc)
      grow (inr e) = inr e

      above : (c : Best) → acc ≡ some c → AtLeast (best_of r) c
      above c e = let better' = rw e at better in ground arith

  best_loop-IsWinner :
      (rules : List Rule) (acc : Option Best) → IsWinner rules acc (best_loop host path rules acc)
  unfolding best_loop
  best_loop-IsWinner [] none = (tt, refl)
  best_loop-IsWinner [] (some b) = (inl refl, tt, λ c e. ground arith)
  best_loop-IsWinner (r ∷ rules) acc = elim (Bool-cases (applies host path r)) [
    | inr no_r ↦ rw no_r (skip r rules acc _ no_r (best_loop-IsWinner rules acc))
    | inl yes_r ↦ elim (Bool-cases (improves r acc)) [
      | inl better ↦
          rw (yes_r, better)
            (take r rules acc _ yes_r better (best_loop-IsWinner rules (some (best_of r))))
      | inr worse ↦
          rw (yes_r, worse) (keep r rules acc _ yes_r worse (best_loop-IsWinner rules acc))
    ]
  ]

  -- What bestMatch answers with: the backend of an applicable rule that no applicable rule beats by
  -- a longer path or, at the same length, by being exact; nothing only if no rule applies.
  abbrev pub IsBestMatch : List Rule → Option Backend → Type 0
  IsBestMatch rules none = All (λ r. applies host path r ≡ false) rules
  IsBestMatch rules (some be) =
      (b : Best) × (b.best ≡ be)
      × Any (λ r. (applies host path r ≡ true) × (best_of r ≡ b)) rules
      × All (λ r. applies host path r ≡ true → AtLeast b (best_of r)) rules

  best_match-IsBestMatch : (rules : List Rule) → IsBestMatch rules (best_match rules host path)
  unfolding best_match
  best_match-IsBestMatch rules =
      of_winner (best_loop host path rules none) (best_loop-IsWinner rules none)
    where
      of_winner :
          (o : Option Best)
          → IsWinner rules none o
          → IsBestMatch rules (elim o [ none ↦ none | some b ↦ some b.best ])
      of_winner none w = w.0
      of_winner (some b) (inl e, all, old) = absurd (none≢some e)
      of_winner (some b) (inr e, all, old) = (b, refl, e, all)

-- Match answers with the best rule for the host, else with the best rule without a host, else with
-- the default backend.
pub match_route_tiers :
    (st : RouteState) (host path : Text)
    → ((be : Backend) × (match_route st host path ≡ some be)
        × IsBestMatch host path st.rules (some be))
      ⊎ ((IsBestMatch host path st.rules none
            × (be : Backend) × (match_route st host path ≡ some be)
            × IsBestMatch [] path st.rules (some be))
          ⊎ (IsBestMatch host path st.rules none
              × IsBestMatch [] path st.rules none
              × (match_route st host path ≡ st.default_backend)))
unfolding match_route
match_route_tiers st host path = elim (Option-cases (best_match st.rules host path)) [
  | inr (be, e) ↦ inl (be, rw (e, match_route), rw e at (best_match-IsBestMatch host path st.rules))
  | inl e ↦ elim (Option-cases (best_match st.rules [] path)) [
    | inr (be, f) ↦ inr (
        inl (
          rw e at (best_match-IsBestMatch host path st.rules),
          be,
          rw (e, f, match_route),
          rw f at (best_match-IsBestMatch [] path st.rules),
        ))
    | inl f ↦ inr (
        inr (
          rw e at (best_match-IsBestMatch host path st.rules),
          rw f at (best_match-IsBestMatch [] path st.rules),
          rw (e, f, match_route),
        ))
  ]
]
