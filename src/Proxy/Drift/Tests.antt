-- ===== src/Proxy/Drift/Tests.antt =====
-- Concrete runs of the comparison and of the anti-entropy pass: one Service, whose backend 10.0.0.2
-- the store has lost and whose backend 10.0.0.1 both views have.

use darwin_net.Prelude.{
  ◌+◌, ◌≤◌, ◌≡◌, ◌↔◌, refl, true, false, List, [], ◌∷◌, Option, none, some, All, arith, is_nil,
  elem, list_eq, nat_eq,
}
use darwin_net.Prelude.Texts.{Text, codes}
use darwin_net.Netip.{Addr}
use darwin_net.Proxy.Routing.{PortKey}
use darwin_net.Proxy.Drift.{
  Divergences, BackendSets, View, set_at, diff_backend_sets, divergences, divergences_of, visit,
  visit_all, sort_divergences, insert_divergence,
}
use darwin_net.Prelude.Sorting.{sort_by, insert_by, compact_run}
use darwin_net.Proxy.Drift.Diff.{Faithful, diff_backend_sets-Faithful, diff_backend_sets_nil_iff}
use darwin_net.Proxy.Drift.Pass.{Watcher, Findings}
use darwin_net.Proxy.Drift.Pass.Episodes.{
  relists, Bounded, passes, passes-one_relist, passes-Bounded, ends_episode,
}

abbrev parse : Text → Option Addr
parse s = none

abbrev web_port : PortKey
web_port = record { cluster_ip = "10.43.0.10"; port = 80; protocol = "TCP" }

abbrev first : Text
first = codes "10.0.0.1:80"

abbrev second : Text
second = codes "10.0.0.2:80"

abbrev live_sets : BackendSets
live_sets = (web_port, second ∷ first ∷ []) ∷ []

abbrev store_sets : BackendSets
store_sets = (web_port, first ∷ []) ∷ []

abbrev live : View
live = ("default/web", live_sets) ∷ []

abbrev store : View
store = ("default/web", store_sets) ∷ []

diff_backend_sets-Faithful_example :
    All (Faithful live_sets store_sets) (diff_backend_sets parse live_sets store_sets)
diff_backend_sets-Faithful_example = diff_backend_sets-Faithful parse live_sets store_sets

diff_backend_sets_nil_iff_example :
    (is_nil (diff_backend_sets parse live_sets store_sets) ≡ true)
    ↔ ((key : PortKey) (a : Text) → elem a (set_at key live_sets) ≡ elem a (set_at key store_sets))
diff_backend_sets_nil_iff_example = diff_backend_sets_nil_iff parse live_sets store_sets

-- the second backend is the one divergence
web_diverges :
    diff_backend_sets parse live_sets store_sets
    ≡ record {
      key = web_port;
      want = first ∷ second ∷ [];
      have = first ∷ [];
      missing = second ∷ [];
      extra = [];
    }
      ∷ []
unfolding diff_backend_sets visit visit_all sort_divergences insert_divergence sort_by insert_by
    compact_run
web_diverges = refl

abbrev watcher : Watcher
watcher = record {
  div_warned = [];
  breaker_warned = false;
  episode_relisted = false;
  next_relist = none;
  relist_backoff = 60000000000;
  repaired_from_live = [];
}

abbrev found : Findings
found = record {
  listed = some (live, store);
  confirming = false;
  confirmed = none;
  now = 5;
  after_relist = 6;
  relist_works = true;
  newer = [];
}

abbrev found_twice : List Findings
found_twice = found ∷ found ∷ []

passes-one_relist_example : relists (passes parse watcher found_twice).1 + 0 ≤ 1
unfolding ends_episode divergences divergences_of diff_backend_sets visit visit_all sort_divergences
    insert_divergence sort_by insert_by compact_run
passes-one_relist_example = passes-one_relist parse watcher found_twice (refl, (refl, tt))

passes-Bounded_example : Bounded (passes parse watcher found_twice).0
passes-Bounded_example = passes-Bounded parse watcher found_twice (omega arith, omega arith)

-- a Service that was repaired and agrees again, beside one that diverges
abbrev repaired : Watcher
repaired = record watcher { repaired_from_live = "default/web" ∷ [] }

abbrev db_diverges : Divergences
db_diverges =
    (
      "default/db",
      record { key = web_port; want = first ∷ []; have = []; missing = first ∷ []; extra = [] }
          ∷ [],
    )
    ∷ []
