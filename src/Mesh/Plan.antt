-- ===== src/Mesh/Plan.antt =====
-- RouteSet, BuildPlan and ValidatePlan (mesh/plan.go). The schema package's WithDefaults,
-- Validate and constants, netip.ParsePrefix and the key encodings are parameters. An error is the case
-- that it reports.
pub mod Blackhole
pub mod Routes
use Prim.Native.String.{String}
use darwin_net.Prelude.{
  ℕ, zero, suc, ◌+◌, ◌-◌, ◌≡◌, Bool, true, false, not, ◌&&◌, ◌||◌, if◌then◌else◌, List, [], ◌∷◌,
  ◌++◌, Option, none, some, ◌==◌, Eq, nat_beq, ltb, string_eq, elem, length, is_nil, Result, ok,
  err, ◌>>=◌,
}
use darwin_net.Prelude.Texts.{Text, codes}
use darwin_net.Prelude.Maps.{lookup, insert, keys}
use darwin_net.Netip.{Addr, Prefix, is4, less, bits, masked, overlaps, prefix_eq, prefix_valid}

abbrev pub node_cidr_bits : ℕ
node_cidr_bits = 24

abbrev pub wg_key_bytes : ℕ
wg_key_bytes = 32

pub record EndpointCandidate : Type 0 where
  pub link : String
  pub address : String

pub record MeshPeerSpec : Type 0 where
  pub node_name : String
  pub pod_cidr : String
  pub public_key : String
  pub endpoint : String
  pub endpoints : List EndpointCandidate
  pub allowed_ips : List String
  pub persistent_keepalive_seconds : ℕ
  pub schema_version : ℕ

-- The calls into k3sm.io/apis, net/netip and encoding.
pub record MeshRules : Type 0 where
  pub parse_prefix : String → Option Prefix
  pub with_defaults : MeshPeerSpec → MeshPeerSpec
  pub validate : MeshPeerSpec → Bool
  pub mesh_peer_schema_version : ℕ
  pub link_underlay : String
  pub link_direct : String
  pub decode_base64 : String → Option (List ℕ)
  pub encode_hex : List ℕ → String
  -- DefaultPersistentKeepaliveSeconds
  pub default_keepalive : ℕ

pub data PlanError : Type 0 where
  self_cidr peer_config : PlanError

pub record PeerConfig : Type 0 where
  pub node_name : String
  pub public_key_hex : String
  pub endpoint : String
  pub allowed_ips : List Prefix
  pub keepalive_seconds : ℕ

pub data SkipReason : Type 0 where
  invalid unsupported_schema malformed_cidr unequal_allowed_ips bad_key : SkipReason

pub record PeerSkip : Type 0 where
  pub node_name : String
  pub pod_cidr : String
  pub reason : SkipReason

pub record Plan : Type 0 where
  pub peers : List PeerConfig
  pub routes : List Prefix
  pub skipped : List PeerSkip

abbrev pub equal_cidr : Prefix → Prefix → Bool
equal_cidr a b = masked a == masked b

-- an IPv4 /24
abbrev pub is_node_cidr : Prefix → Bool
is_node_cidr p = is4 p.addr && prefix_valid p && nat_beq (bits p) node_cidr_bits

-- the route of one peer, if it has one
unfoldable pub route_of : MeshRules → Prefix → MeshPeerSpec → Option Prefix
route_of rules self p = elim (rules.parse_prefix p.pod_cidr) [
  | none ↦ none
  | some c ↦
      if not (is_node_cidr (masked c))
      then none
      else if overlaps (masked c) self
      then none
      else some (masked c)
]

-- the loop of RouteSet, with the prefixes seen so far
unfoldable pub routes_from : MeshRules → Prefix → List Prefix → List MeshPeerSpec → List Prefix
unfolding route_of
routes_from rules self seen [] = []
routes_from rules self seen (p ∷ ps) = elim (route_of rules self p) [
  | none ↦ routes_from rules self seen ps
  | some c ↦
      if elem c seen
      then routes_from rules self seen ps
      else c ∷ routes_from rules self (c ∷ seen) ps
]

unfoldable pub insert_route : Prefix → List Prefix → List Prefix
insert_route p [] = p ∷ []
insert_route p (q ∷ qs) =
    let rest = insert_route p qs in if less q.addr p.addr then q ∷ rest else p ∷ q ∷ qs

unfoldable pub sort_routes : List Prefix → List Prefix
unfolding insert_route
sort_routes [] = []
sort_routes (p ∷ ps) = insert_route p (sort_routes ps)

unfoldable pub route_set : MeshRules → Prefix → List MeshPeerSpec → Result PlanError (List Prefix)
unfolding routes_from sort_routes
route_set rules self peers =
    if not (is_node_cidr (masked self))
    then err self_cidr
    else ok (sort_routes (routes_from rules (masked self) [] peers))

-- every entry parses to the masked podCIDR
abbrev pub all_equal : MeshRules → Prefix → List String → Bool
all_equal rules pc [] = true
all_equal rules pc (s ∷ ss) =
    let rest = all_equal rules pc ss in
    elim (rules.parse_prefix s) [
      | none ↦ false
      | some a ↦ if not (masked a == pc) then false else rest
    ]

unfoldable pub allowed_ips_match_cidr : MeshRules → MeshPeerSpec → Bool
allowed_ips_match_cidr rules spec = elim (rules.parse_prefix spec.pod_cidr) [
  | none ↦ false
  | some pc ↦
      if is_nil spec.allowed_ips then false else all_equal rules (masked pc) spec.allowed_ips
]

abbrev pub known_links : MeshRules → List EndpointCandidate → List EndpointCandidate
known_links rules [] = []
known_links rules (c ∷ cs) =
    let rest = known_links rules cs in
    if c.link == rules.link_underlay || c.link == rules.link_direct then c ∷ rest else rest

abbrev pub known_candidates : MeshRules → MeshPeerSpec → MeshPeerSpec
known_candidates rules spec = record spec { endpoints = known_links rules spec.endpoints }

abbrev pub first_underlay : MeshRules → List EndpointCandidate → String → String
first_underlay rules [] d = d
first_underlay rules (c ∷ cs) d =
    let rest = first_underlay rules cs d in
    if c.link == rules.link_underlay then c.address else rest

abbrev pub select_endpoint : MeshRules → MeshPeerSpec → String
select_endpoint rules spec = first_underlay rules spec.endpoints spec.endpoint

unfoldable pub wg_key_hex : MeshRules → String → Option String
wg_key_hex rules b64 = elim (rules.decode_base64 b64) [
  | none ↦ none
  | some raw ↦ if not (nat_beq (length raw) wg_key_bytes) then none else some (rules.encode_hex raw)
]

unfoldable pub parse_allowed : MeshRules → List String → Option (List Prefix)
parse_allowed rules [] = some []
parse_allowed rules (s ∷ ss) = elim (rules.parse_prefix s) [
  | none ↦ none
  | some a ↦ elim (parse_allowed rules ss) [ none ↦ none | some as' ↦ some (masked a ∷ as') ]
]

unfoldable pub peer_config_from_spec : MeshRules → MeshPeerSpec → Option PeerConfig
unfolding wg_key_hex parse_allowed
peer_config_from_spec rules spec = elim (wg_key_hex rules spec.public_key) [
  | none ↦ none
  | some key ↦ elim (parse_allowed rules spec.allowed_ips) [
    | none ↦ none
    | some allowed ↦ some (record {
      node_name = spec.node_name;
      public_key_hex = key;
      endpoint = spec.endpoint;
      allowed_ips = allowed;
      keepalive_seconds =
          if nat_beq spec.persistent_keepalive_seconds 0
          then rules.default_keepalive
          else spec.persistent_keepalive_seconds;
    })
  ]
]

-- what the loop of BuildPlan makes of one peer
pub data Outcome : Type 0 where
  programmed : PeerConfig → Outcome
  passed_over : Outcome
  skipped_for : SkipReason → Outcome

unfoldable pub outcome : MeshRules → Prefix → MeshPeerSpec → Outcome
unfolding allowed_ips_match_cidr peer_config_from_spec
outcome rules self spec =
    if not (rules.validate spec)
    then skipped_for invalid
    else if not (nat_beq spec.schema_version rules.mesh_peer_schema_version)
    then skipped_for unsupported_schema
    else elim (rules.parse_prefix spec.pod_cidr) [
      | none ↦ skipped_for malformed_cidr
      | some c ↦
          if equal_cidr (masked c) self
          then passed_over
          else if not (allowed_ips_match_cidr rules spec)
          then skipped_for unequal_allowed_ips
          else elim (peer_config_from_spec rules spec) [
            | none ↦ skipped_for bad_key
            | some pc ↦ programmed (record pc { endpoint = select_endpoint rules spec })
          ]
    ]

abbrev pub resolved : MeshRules → MeshPeerSpec → MeshPeerSpec
resolved rules raw = known_candidates rules (rules.with_defaults raw)

-- the loop of BuildPlan: the peers and skips of the plan, and the specs that are included
unfoldable pub plan_from : MeshRules → Prefix → List MeshPeerSpec → Plan × List MeshPeerSpec
unfolding outcome
plan_from rules self [] = (record { peers = []; routes = []; skipped = [] }, [])
plan_from rules self (raw ∷ raws) =
    let spec = resolved rules raw in
    let rest = plan_from rules self raws in
    elim (outcome rules self spec) [
      | programmed pc ↦ (record rest.0 { peers = pc ∷ rest.0.peers }, spec ∷ rest.1)
      | passed_over ↦ rest
      | skipped_for why ↦ (
        record rest.0 {
          skipped =
              record { node_name = spec.node_name; pod_cidr = spec.pod_cidr; reason = why }
              ∷ rest.0.skipped;
        },
        rest.1,
      )
    ]

unfoldable pub build_plan : MeshRules → Prefix → List MeshPeerSpec → Result PlanError Plan
unfolding plan_from route_set
build_plan rules self peers =
    if not (is_node_cidr (masked self))
    then err self_cidr
    else (let r = plan_from rules (masked self) peers in
        route_set rules (masked self) r.1 >>= (λ routes. ok (record r.0 { routes = routes })))

abbrev pub all_node_cidrs : List Prefix → Bool
all_node_cidrs [] = true
all_node_cidrs (a ∷ rest) = is_node_cidr a && all_node_cidrs rest

abbrev pub all_per_node : List PeerConfig → Bool
all_per_node [] = true
all_per_node (pc ∷ pcs) = all_node_cidrs pc.allowed_ips && all_per_node pcs

unfoldable pub validate_plan : MeshRules → Prefix → List MeshPeerSpec → Result PlanError Plan
unfolding build_plan
validate_plan rules self peers = build_plan rules self peers >>= (λ plan.
    if not (is_nil plan.skipped)
    then err peer_config
    else if all_per_node plan.peers
    then ok plan
    else err peer_config)
