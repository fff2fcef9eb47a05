-- ===== src/Proxy/Drift.antt =====
-- The comparison of two views of the Ready backends (pkg/proxy/vipstate.go) and the anti-entropy pass
-- over it (pkg/proxy/antientropy.go). A backend address is its text. A view gives each Service its
-- backend set per port; the lists and informers that it comes from are not modelled.
pub mod Diff
pub mod Pass
mod Tests
use Prim.Native.String.{String}
use darwin_net.Prelude.{
  ℕ, ◌+◌, ◌*◌, ◌≡◌, ◌↔◌, arith, Bool, true, false, not, ◌&&◌, ◌||◌, if◌then◌else◌, List, [], ◌∷◌,
  ◌++◌, Option, none, some, ◌==◌, nat_eq, list_eq, string_eq, elem, length, map, is_nil, ltb, leb,
  nat_beq, filter_by, min,
}
use darwin_net.Prelude.Maps.{lookup, insert, delete, keys}
use darwin_net.Prelude.Texts.{Text, codes, text_less}
use darwin_net.Prelude.Sorting.{sorted_set, text_order, sort_by, insert_by}
use darwin_net.Netip.{Addr, addr_eq, less}
use darwin_net.Proxy.Routing.{PortKey, port_key_eq}

abbrev pub BackendSet : Type 0
BackendSet = List Text

abbrev pub BackendSets : Type 0
BackendSets = List (PortKey × BackendSet)

pub record Divergence : Type 0 where
  pub key : PortKey
  pub want : List Text
  pub have : List Text
  pub missing : List Text
  pub extra : List Text

abbrev pub normalize_set : BackendSet → List Text
normalize_set s = sorted_set text_order s

-- the binary search of a sorted list, as membership
abbrev pub set_minus : List Text → List Text → List Text
set_minus a b = filter_by (λ x. not (elem x b)) a

-- want[key], empty when absent
abbrev pub set_at : PortKey → BackendSets → BackendSet
set_at key sets = elim (lookup key sets) [ none ↦ [] | some s ↦ s ]

-- netip.ParseAddr is a parameter
abbrev pub compare_port_key : (Text → Option Addr) → PortKey → PortKey → Bool
compare_port_key parse a b =
    let by_text = text_less (codes a.cluster_ip) (codes b.cluster_ip) in
    if not (a.cluster_ip == b.cluster_ip)
    then elim (parse (codes a.cluster_ip)) [
      | none ↦ by_text
      | some x ↦ elim (parse (codes b.cluster_ip)) [
        | none ↦ by_text
        | some y ↦ if x == y then by_text else less x y
      ]
    ]
    else if not (nat_beq a.port b.port)
    then ltb a.port b.port
    else text_less (codes a.protocol) (codes b.protocol)

-- the visit of one key in DiffBackendSets
unfoldable pub visit : BackendSets → BackendSets → PortKey → List Divergence
visit want have key =
    let w = normalize_set (set_at key want) in
    let h = normalize_set (set_at key have) in
    if w == h
    then []
    else record { key = key; want = w; have = h; missing = set_minus w h; extra = set_minus h w }
      ∷ []

unfoldable pub visit_all : BackendSets → BackendSets → List PortKey → List Divergence
visit_all want have [] = []
visit_all want have (key ∷ ks) = visit want have key ++ visit_all want have ks

-- the keys visited: those of want, and then those of have alone
abbrev pub visited : BackendSets → BackendSets → List PortKey
visited want have = keys want ++ filter_by (λ k. not (elem k (keys want))) (keys have)

-- slices.SortFunc by comparePortKey
unfoldable pub insert_divergence :
    (Text → Option Addr) → Divergence → List Divergence → List Divergence
insert_divergence parse d [] = d ∷ []
insert_divergence parse d (c ∷ ds) =
    let rest = insert_divergence parse d ds in
    if compare_port_key parse c.key d.key then c ∷ rest else d ∷ c ∷ ds

unfoldable pub sort_divergences : (Text → Option Addr) → List Divergence → List Divergence
sort_divergences parse [] = []
sort_divergences parse (d ∷ ds) = insert_divergence parse d (sort_divergences parse ds)

unfoldable pub diff_backend_sets :
    (Text → Option Addr) → BackendSets → BackendSets → List Divergence
diff_backend_sets parse want have = sort_divergences parse (visit_all want have (visited want have))

-- a Service's view: the backend sets of its ports
abbrev pub View : Type 0
View = List (String × BackendSets)

abbrev pub Divergences : Type 0
Divergences = List (String × List Divergence)

-- backendSets: nothing for a Service that the view does not have
abbrev pub backend_sets : String → View → BackendSets
backend_sets key v = elim (lookup key v) [ none ↦ [] | some s ↦ s ]

unfoldable pub divergences_of : (Text → Option Addr) → View → View → List String → Divergences
divergences_of parse live store [] = []
divergences_of parse live store (k ∷ ks) =
    let rest = divergences_of parse live store ks in
    let d = diff_backend_sets parse (backend_sets k live) (backend_sets k store) in
    if is_nil d then rest else (k, d) ∷ rest

unfoldable pub divergences : (Text → Option Addr) → View → View → Divergences
divergences parse live store =
    divergences_of parse live store
      (keys live ++ filter_by (λ k. not (elem k (keys live))) (keys store))
