-- ===== src/Proxy/Drift/Pass.antt =====
-- The anti-entropy pass (pkg/proxy/antientropy.go) as a function of the watcher's bookkeeping: the
-- episodes, the circuit breaker, the repairs and the relist with its backoff. What a pass does to the
-- routing table and the informers is a list of actions. Times are nanoseconds.
pub mod Episodes
pub mod Redelivered
use Prim.Native.String.{String}
use darwin_net.Prelude.{
  ℕ, ◌+◌, ◌*◌, Bool, true, false, not, ◌&&◌, ◌||◌, if◌then◌else◌, List, [], ◌∷◌, ◌++◌, Option, none,
  some, ◌==◌, nat_eq, string_eq, elem, length, map, is_nil, ltb, leb, filter_by, min,
}
use darwin_net.Prelude.Maps.{lookup, keys}
use darwin_net.Prelude.Texts.{Text}
use darwin_net.Netip.{Addr}
use darwin_net.Proxy.Routing.{PortKey, port_key_eq}
use darwin_net.Proxy.Drift.{BackendSets, Divergence, View, Divergences, backend_sets, divergences}

-- a minute and fifteen minutes
abbrev pub relist_backoff_initial : ℕ
relist_backoff_initial = 60000000000

abbrev pub relist_backoff_max : ℕ
relist_backoff_max = 900000000000

-- next_relist is none for the zero time
pub record Watcher : Type 0 where
  pub div_warned : List PortKey
  pub breaker_warned : Bool
  pub episode_relisted : Bool
  pub next_relist : Option ℕ
  pub relist_backoff : ℕ
  pub repaired_from_live : List String

-- What a pass does: a Warn, a delivery from the store, a repair from the live list, the deletion of a
-- port, and the replacement of the informers.
pub data Action : Type 0 where
  warn delete_port : PortKey → Action
  redeliver apply_service : String → Action
  relist : Action

-- What a pass finds: the two views when a list succeeds, the views of the confirming list, the time
-- before and after a relist, whether a relist succeeds, and the Services of which the store holds a
-- newer object than the live list.
pub record Findings : Type 0 where
  pub listed : Option (View × View)
  pub confirming : Bool
  pub confirmed : Option (View × View)
  pub now : ℕ
  pub after_relist : ℕ
  pub relist_works : Bool
  pub newer : List String

abbrev pub divergence_keys : List Divergence → List PortKey
divergence_keys [] = []
divergence_keys (d ∷ ds) = d.key ∷ divergence_keys ds

abbrev pub diverging_keys : Divergences → List PortKey
diverging_keys [] = []
diverging_keys ((k, ds) ∷ divs) = divergence_keys ds ++ diverging_keys divs

abbrev pub redeliveries : View → Divergences → List String → List Action
redeliveries store divs [] = []
redeliveries store divs (k ∷ ks) =
    let rest = redeliveries store divs ks in
    if elem k (keys divs) then rest else if elem k (keys store) then redeliver k ∷ rest else rest

unfoldable pub settle_repaired : Watcher → View → Divergences → Watcher × List Action
settle_repaired w store divs = (
  record w { repaired_from_live = filter_by (λ k. elem k (keys divs)) w.repaired_from_live },
  redeliveries store divs w.repaired_from_live,
)

unfoldable pub end_key_episodes : Watcher → Divergences → Watcher
end_key_episodes w divs = record w {
  div_warned = filter_by (λ k. elem k (diverging_keys divs)) w.div_warned;
}

unfoldable pub report_keys : List PortKey → List PortKey → List PortKey × List Action
report_keys warned [] = (warned, [])
report_keys warned (k ∷ ks) =
    let known = report_keys warned ks in
    let fresh = report_keys (k ∷ warned) ks in
    if elem k warned then known else (fresh.0, warn k ∷ fresh.1)

unfoldable pub report_divergences : Watcher → Divergences → Watcher × List Action
report_divergences w divs =
    let (warned, actions) = report_keys w.div_warned (diverging_keys divs) in
    (record w { div_warned = warned }, actions)

abbrev pub any_backend : BackendSets → Bool
any_backend [] = false
any_backend ((k, s) ∷ sets) = not (is_nil s) || any_backend sets

abbrev pub any_extra : List Divergence → Bool
any_extra [] = false
any_extra (d ∷ ds) = not (is_nil d.extra) || any_extra ds

abbrev pub divergences_at : String → Divergences → List Divergence
divergences_at key divs = elim (lookup key divs) [ none ↦ [] | some ds ↦ ds ]

-- the Services of the store with a backend, and those of them that would lose one
abbrev pub ready_keys : View → List String → List String
ready_keys store ks = filter_by (λ k. any_backend (backend_sets k store)) ks

abbrev pub losing_keys : View → Divergences → List String → List String
losing_keys store divs ks = filter_by (λ k. any_extra (divergences_at k divs)) (ready_keys store ks)

unfoldable pub breaker_tripped : View → View → Divergences → Bool
breaker_tripped live store divs =
    if is_nil live && not (is_nil store)
    then true
    else let with_ready = length (ready_keys store (keys store)) in
      ltb 0 with_ready && ltb with_ready (2 * length (losing_keys store divs (keys store)))

abbrev pub unserved : BackendSets → List Divergence → List Action
unserved sets [] = []
unserved sets (d ∷ ds) =
    let rest = unserved sets ds in if elem d.key (keys sets) then rest else delete_port d.key ∷ rest

-- repairService for each diverging Service, with the Services repaired so far
unfoldable pub repair_services :
    View → List String → Divergences → List String → List String × List Action
repair_services live newer [] repaired = (repaired, [])
repair_services live newer ((k, ds) ∷ divs) repaired =
    let skipped = repair_services live newer divs repaired in
    let done =
      repair_services live newer divs (if elem k repaired then repaired else k ∷ repaired) in
    if elem k newer then skipped else (
      done.0,
      (if elem k (keys live) then apply_service k ∷ [] else [])
          ++ unserved (backend_sets k live) ds
          ++ done.1,
    )

abbrev pub before : ℕ → Option ℕ → Bool
before now none = false
before now (some t) = ltb now t

unfoldable pub maybe_relist : Watcher → Findings → Watcher × List Action
maybe_relist w f = if w.episode_relisted || before f.now w.next_relist then (w, []) else (
  if f.relist_works
      then record w {
        episode_relisted = true;
        next_relist = some (f.after_relist + w.relist_backoff);
        relist_backoff = min (2 * w.relist_backoff) relist_backoff_max;
      }
      else record w { episode_relisted = true },
  relist ∷ [],
)

unfoldable pub end_episode : Watcher → ℕ → Watcher
end_episode w now = record w {
  episode_relisted = false;
  breaker_warned = false;
  relist_backoff = elim w.next_relist [
    | none ↦ w.relist_backoff
    | some t ↦ if ltb now t then w.relist_backoff else relist_backoff_initial
  ];
}

-- the pass from the divergences on that it acts on
unfoldable pub act : Watcher → Findings → View → View → Divergences → Watcher × List Action
act w f live store divs =
    let (w1, redelivered) = settle_repaired w store divs in
    let w2 = end_key_episodes w1 divs in
    let (w3, warned) = report_divergences w2 divs in
    let (repaired, repairs) = repair_services live f.newer divs w3.repaired_from_live in
    let (w4, held) = maybe_relist (record w3 { breaker_warned = true }) f in
    let (w5, relisted) = maybe_relist (record w3 { repaired_from_live = repaired }) f in
    if is_nil divs
    then (end_episode w2 f.now, redelivered)
    else if breaker_tripped live store divs
    then (w4, redelivered ++ warned ++ held)
    else (w5, redelivered ++ warned ++ repairs ++ relisted)

unfoldable pub anti_entropy_pass : (Text → Option Addr) → Watcher → Findings → Watcher × List Action
anti_entropy_pass parse w f = elim f.listed [
  | none ↦ (w, [])
  | some (live, store) ↦
      let divs = divergences parse live store in
      if not (is_nil divs) && f.confirming
      then elim f.confirmed [
        | none ↦ (w, [])
        | some (live', store') ↦ act w f live' store' (divergences parse live' store')
      ]
      else act w f live store divs
]
