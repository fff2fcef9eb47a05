-- ===== src/Ingress/Route.antt =====
-- RouteTable (route.go): rules in, a backend out. A path or host is the list of its bytes. The table's state is one
-- snapshot behind an atomic pointer, so an Update and a Match are one step each.
pub mod Segments
pub mod Winner
use darwin_net.Prelude.{
  ℕ, Bool, true, false, not, ◌&&◌, ◌||◌, if◌then◌else◌, List, [], ◌∷◌, map, Option, none, some,
  ◌==◌, nat_eq, list_eq, length, filter_by, is_nil, ltb, nat_beq,
}
use darwin_net.Prelude.Texts.{Text}
use darwin_net.Netip.{Addr}

-- `other` is any string that is neither of the two path types.
pub data PathType : Type 0 where
  exact prefix other : PathType

abbrev pub is_exact : PathType → Bool
is_exact exact = true
is_exact _ = false

pub record Backend : Type 0 where
  pub vip : Addr
  pub port : ℕ

pub record Rule : Type 0 where
  pub host : Text
  pub path : Text
  pub path_type : PathType
  pub backend : Backend

pub record RouteState : Type 0 where
  pub rules : List Rule
  pub default_backend : Option Backend

unfoldable pub new_route_table : RouteState
new_route_table = record { rules = []; default_backend = none }

-- `lower` is strings.ToLower.
unfoldable pub update : (Text → Text) → List Rule → Option Backend → RouteState
update lower rules default_backend = record {
  rules = map (λ (r : Rule). record r { host = lower r.host }) rules;
  default_backend = default_backend;
}

-- strings.Split(p, "/")
abbrev pub cons_head : ℕ → List Text → List Text
cons_head c [] = (c ∷ []) ∷ []
cons_head c (s ∷ segs) = (c ∷ s) ∷ segs

unfoldable pub split : Text → List Text
split [] = [] ∷ []
split (c ∷ p) = let rest = split p in if c == b'/' then [] ∷ rest else cons_head c rest

unfoldable pub path_segments : Text → List Text
path_segments p = filter_by (λ s. not (is_nil s)) (split p)

-- `for i := range rs`; an index past the end of ps does not occur, by the length test before it
unfoldable pub segments_equal : List Text → List Text → Bool
segments_equal [] ps = true
segments_equal (r ∷ rs) [] = false
segments_equal (r ∷ rs) (p ∷ ps) =
    let rest = segments_equal rs ps in if not (r == p) then false else rest

unfoldable pub segment_prefix_match : Text → Text → Bool
unfolding segments_equal
segment_prefix_match rule_path req_path =
    let rs = path_segments rule_path in
    let ps = path_segments req_path in
    if ltb (length ps) (length rs) then false else segments_equal rs ps

unfoldable pub rule_matches : Rule → Text → Bool
rule_matches r path = elim r.path_type [
  | exact ↦ path == r.path
  | prefix ↦ segment_prefix_match r.path path
  | other ↦ false
]

-- the loop's variables once a rule is found: best, bestLen and bestType
pub record Best : Type 0 where
  pub best : Backend
  pub best_len : ℕ
  pub best_type : PathType

abbrev pub best_of : Rule → Best
best_of r = record { best = r.backend; best_len = length r.path; best_type = r.path_type }

-- bestLen is -1 until a rule is found
abbrev pub improves : Rule → Option Best → Bool
improves r none = true
improves r (some b) =
    ltb b.best_len (length r.path)
    || (nat_beq (length r.path) b.best_len && is_exact r.path_type && not (is_exact b.best_type))

abbrev pub applies : Text → Text → Rule → Bool
applies host path r = (r.host == host) && rule_matches r path

unfoldable pub best_loop : Text → Text → List Rule → Option Best → Option Best
best_loop host path [] acc = acc
best_loop host path (r ∷ rules) acc =
    best_loop host path rules
      (if not (applies host path r) then acc else if improves r acc then some (best_of r) else acc)

unfoldable pub best_match : List Rule → Text → Text → Option Backend
unfolding best_loop
best_match rules host path = elim (best_loop host path rules none) [
  | none ↦ none
  | some b ↦ some b.best
]

unfoldable pub match_route : RouteState → Text → Text → Option Backend
match_route st host path = elim (best_match st.rules host path) [
  | some be ↦ some be
  | none ↦ elim (best_match st.rules [] path) [ some be ↦ some be | none ↦ st.default_backend ]
]
