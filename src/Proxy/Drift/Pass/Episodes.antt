-- ===== src/Proxy/Drift/Pass/Episodes.antt =====
-- The relists of an episode, their backoff, and the circuit breaker (antientropy.go).
use Prim.Native.String.{String}
use darwin_net.Prelude.{
  ℕ, ◌+◌, ◌≤◌, ◌≡◌, ◌⊎◌, arith, refl, Bool, true, false, not, ◌&&◌, if◌then◌else◌, List, [], ◌∷◌,
  ◌++◌, Option, none, some, elem, is_nil, Bool-cases, Option-cases, inl, inr, All, string_eq,
}
use darwin_net.Prelude.Maps.{keys}
use darwin_net.Prelude.Texts.{Text}
use darwin_net.Netip.{Addr}
use darwin_net.Proxy.Routing.{PortKey, port_key_eq}
use darwin_net.Proxy.Drift.{BackendSets, Divergence, View, Divergences, divergences, backend_sets}
use darwin_net.Proxy.Drift.Pass.{
  Watcher, Findings, Action, warn, delete_port, redeliver, apply_service, relist, redeliveries,
  settle_repaired, end_key_episodes, report_keys, report_divergences, breaker_tripped, unserved,
  repair_services, before, maybe_relist, end_episode, act, anti_entropy_pass,
  relist_backoff_initial, relist_backoff_max, diverging_keys,
}

-- how many relists, and how many repairs, some actions hold
abbrev pub relists : List Action → ℕ
relists [] = 0
relists (relist ∷ actions) = relists actions + 1
relists (_ ∷ actions) = relists actions

abbrev pub repairs : List Action → ℕ
repairs [] = 0
repairs (apply_service k ∷ actions) = repairs actions + 1
repairs (delete_port k ∷ actions) = repairs actions + 1
repairs (_ ∷ actions) = repairs actions

relists-append : (xs ys : List Action) → relists (xs ++ ys) ≡ relists xs + relists ys
relists-append [] ys = omega arith
relists-append (warn k ∷ xs) ys = relists-append xs ys
relists-append (delete_port k ∷ xs) ys = relists-append xs ys
relists-append (redeliver k ∷ xs) ys = relists-append xs ys
relists-append (apply_service k ∷ xs) ys = relists-append xs ys
relists-append (relist ∷ xs) ys = omega (arith, relists-append xs ys)

redeliveries_quiet :
    (store : View) (divs : Divergences) (ks : List String)
    → (relists (redeliveries store divs ks) ≡ 0) × (repairs (redeliveries store divs ks) ≡ 0)
redeliveries_quiet store divs [] = (refl, refl)
redeliveries_quiet store divs (k ∷ ks) = ground (arith, redeliveries_quiet store divs ks)

report_keys_quiet :
    (warned ks : List PortKey)
    → (relists (report_keys warned ks).1 ≡ 0) × (repairs (report_keys warned ks).1 ≡ 0)
unfolding report_keys
report_keys_quiet warned [] = (refl, refl)
report_keys_quiet warned (k ∷ ks) =
    ground (arith, report_keys_quiet warned ks, report_keys_quiet (k ∷ warned) ks)

relists-unserved : (sets : BackendSets) (ds : List Divergence) → relists (unserved sets ds) ≡ 0
relists-unserved sets [] = refl
relists-unserved sets (d ∷ ds) = ground (arith, relists-unserved sets ds)

relists-repair_services :
    (live : View) (newer : List String) (divs : Divergences) (repaired : List String)
    → relists (repair_services live newer divs repaired).1 ≡ 0
unfolding repair_services
relists-repair_services live newer [] repaired = refl
relists-repair_services live newer ((k, ds) ∷ divs) repaired =
    let after = if elem k repaired then repaired else k ∷ repaired in
    let head = if elem k (keys live) then apply_service k ∷ [] else [] in
    let rest = (repair_services live newer divs after).1 in
    ground (
      arith,
      relists-repair_services live newer divs repaired,
      relists-repair_services live newer divs after,
      relists-append head (unserved (backend_sets k live) ds ++ rest),
      relists-append (unserved (backend_sets k live) ds) rest,
      relists-unserved (backend_sets k live) ds,
    )

abbrev pub used : Watcher → ℕ
used w = if w.episode_relisted then 1 else 0

-- A relist is one that the episode had left and that is due; a watcher keeps its backoff in bounds.
abbrev pub Bounded : Watcher → Type 0
Bounded w = (relist_backoff_initial ≤ w.relist_backoff) × (w.relist_backoff ≤ relist_backoff_max)

abbrev Relisted : Watcher → Findings → Watcher × List Action → Type 0
Relisted w f q =
    (relists q.1 + used w ≡ used q.0)
    × ((relists q.1 ≡ 0) ⊎ (before f.now w.next_relist ≡ false))
    × (Bounded w → Bounded q.0)

maybe_relist-Relisted : (w : Watcher) (f : Findings) → Relisted w f (maybe_relist w f)
unfolding maybe_relist
maybe_relist-Relisted w f = (ground arith, ground arith, λ b. ground (arith, b))

Relisted-after :
    (w : Watcher) (f : Findings) (pre : List Action) (q : Watcher × List Action)
    → relists pre ≡ 0
    → Relisted w f q
    → Relisted w f (q.0, pre ++ q.1)
Relisted-after w f pre (w', actions) quiet r = ground (arith, quiet, r, relists-append pre actions)

act_diverging :
    (w : Watcher) (f : Findings) (live store : View) (divs : Divergences)
    → is_nil divs ≡ false
    → Relisted w f (act w f live store divs)
unfolding act settle_repaired end_key_episodes report_divergences
act_diverging w f live store divs h =
    let redelivered = redeliveries store divs w.repaired_from_live in
    let w2 = end_key_episodes (settle_repaired w store divs).0 divs in
    let warned = report_divergences w2 divs in
    let fixed = repair_services live f.newer divs warned.0.repaired_from_live in
    let quiet = (redeliveries_quiet store divs w.repaired_from_live).0 in
    let reported = (report_keys_quiet w2.div_warned (diverging_keys divs)).0 in
    elim (Bool-cases (breaker_tripped live store divs)) [
      | inl tripped ↦
          let q = maybe_relist (record warned.0 { breaker_warned = true }) f in
          rw (h, tripped, act)
            (Relisted-after w f (redelivered ++ warned.1) q
              (ground (arith, relists-append redelivered warned.1, quiet, reported))
              (maybe_relist-Relisted _ f))
      | inr holds ↦
          let q = maybe_relist (record warned.0 { repaired_from_live = fixed.0 }) f in
          rw (h, holds, act)
            (Relisted-after w f (redelivered ++ warned.1 ++ fixed.1) q
              (ground (
                arith,
                relists-append redelivered warned.1,
                relists-append (redelivered ++ warned.1) fixed.1,
                quiet,
                reported,
                relists-repair_services live f.newer divs warned.0.repaired_from_live,
              ))
              (maybe_relist-Relisted _ f))
    ]

act_clean :
    (w : Watcher) (f : Findings) (live store : View) (divs : Divergences)
    → is_nil divs ≡ true
    → let q = act w f live store divs in
      (relists q.1 ≡ 0) × (used q.0 ≡ 0) × (Bounded w → Bounded q.0)
unfolding act settle_repaired end_key_episodes end_episode
act_clean w f live store divs h =
    let quiet = (redeliveries_quiet store divs w.repaired_from_live).0 in
    rw (h, act) (quiet, refl, λ b. ground (arith, b))

-- a pass that lists and finds no divergence, which ends the episode
unfoldable pub ends_episode : (Text → Option Addr) → Findings → Bool
ends_episode parse f = elim f.listed [
  | none ↦ false
  | some (live, store) ↦
      if not (is_nil (divergences parse live store)) && f.confirming
      then elim f.confirmed [
        | none ↦ false
        | some (live', store') ↦ is_nil (divergences parse live' store')
      ]
      else is_nil (divergences parse live store)
]

abbrev Passed : (Text → Option Addr) → Watcher → Findings → Watcher × List Action → Type 0
Passed parse w f q =
    (ends_episode parse f ≡ false → Relisted w f q)
    × (ends_episode parse f ≡ true → relists q.1 ≡ 0)
    × (Bounded w → Bounded q.0)

act_acted :
    (w : Watcher) (f : Findings) (live store : View) (divs : Divergences)
    → let q = act w f live store divs in
      (is_nil divs ≡ false → Relisted w f q)
      × (is_nil divs ≡ true → relists q.1 ≡ 0)
      × (Bounded w → Bounded q.0)
act_acted w f live store divs = elim (Bool-cases (is_nil divs)) [
  | inl clean ↦
      let (quiet, ended, bounded) = act_clean w f live store divs clean in
      (λ h. absurd (ground (arith, h, clean)), λ h. quiet, bounded)
  | inr found ↦
      let (spent, due, bounded) = act_diverging w f live store divs found in
      (λ h. (spent, due, bounded), λ h. absurd (ground (arith, h, found)), bounded)
]

pass-Passed :
    (parse : Text → Option Addr) (w : Watcher) (f : Findings)
    → Passed parse w f (anti_entropy_pass parse w f)
unfolding anti_entropy_pass ends_episode
pass-Passed parse w f = elim (Option-cases f.listed) [
  | inl failed ↦
      rw (failed, anti_entropy_pass, ends_episode)
        (λ h. (omega arith, inl refl, λ b. b), λ h. refl, λ b. b)
  | inr ((live, store), got) ↦
      elim (Bool-cases (not (is_nil (divergences parse live store)) && f.confirming)) [
        | inr at_once ↦
            rw (got, at_once, anti_entropy_pass, ends_episode)
              (act_acted w f live store (divergences parse live store))
        | inl again ↦ elim (Option-cases f.confirmed) [
          | inl failed ↦
              rw (got, again, failed, anti_entropy_pass, ends_episode)
                (λ h. (omega arith, inl refl, λ b. b), λ h. refl, λ b. b)
          | inr ((live', store'), got') ↦
              rw (got, again, got', anti_entropy_pass, ends_episode)
                (act_acted w f live' store' (divergences parse live' store'))
        ]
      ]
]

unfoldable pub passes : (Text → Option Addr) → Watcher → List Findings → Watcher × List Action
passes parse w [] = (w, [])
passes parse w (f ∷ fs) =
    let (w1, actions) = anti_entropy_pass parse w f in
    let (w2, more) = passes parse w1 fs in (w2, actions ++ more)

passes-used :
    (parse : Text → Option Addr) (w : Watcher) (fs : List Findings)
    → All (λ f. ends_episode parse f ≡ false) fs
    → relists (passes parse w fs).1 + used w ≡ used (passes parse w fs).0
unfolding passes
passes-used parse w [] h = omega arith
passes-used parse w (f ∷ fs) h =
    let (w1, actions) = anti_entropy_pass parse w f in
    ground (
      arith,
      (pass-Passed parse w f).0 h.0,
      passes-used parse w1 fs h.1,
      relists-append actions (passes parse w1 fs).1,
    )

-- Over any passes of which none ends the divergence episode, at most one relist is made, and none
-- when the episode had its relist before.
pub passes-one_relist :
    (parse : Text → Option Addr) (w : Watcher) (fs : List Findings)
    → All (λ f. ends_episode parse f ≡ false) fs
    → relists (passes parse w fs).1 + used w ≤ 1
passes-one_relist parse w fs h = ground (arith, passes-used parse w fs h)

-- The backoff between relists stays between a minute and fifteen minutes over any passes.
pub passes-Bounded :
    (parse : Text → Option Addr) (w : Watcher) (fs : List Findings)
    → Bounded w
    → Bounded (passes parse w fs).0
unfolding passes
passes-Bounded parse w [] b = b
passes-Bounded parse w (f ∷ fs) b =
    passes-Bounded parse (anti_entropy_pass parse w f).0 fs ((pass-Passed parse w f).2 b)
