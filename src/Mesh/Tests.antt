-- ===== src/Mesh/Tests.antt =====
-- Concrete plans, for the node 0.0.0.0/24 and one peer, whose podCIDR is 0.0.1.0/24.

use darwin_net.Prelude.{
  ℕ, ◌≡◌, ◌↔◌, refl, true, List, [], ◌∷◌, none, some, All, Any, elem, Distinct, if◌then◌else◌, ◌==◌,
  string_eq,
}
use darwin_net.Netip.{v4, Prefix, prefix_eq, masked, overlaps}
use darwin_net.Mesh.Plan.{
  MeshRules, MeshPeerSpec, Plan, route_of, routes_from, insert_route, sort_routes, route_set,
  allowed_ips_match_cidr, wg_key_hex, parse_allowed, peer_config_from_spec, outcome, plan_from,
  build_plan, validate_plan,
}
use darwin_net.Mesh.Plan.Routes.{IsRouteOf, route_set_iff}
use darwin_net.Mesh.Plan.Blackhole.{Routed, validate_plan-Routed}
use darwin_net.Mesh.Uapi.{AppliedEndpoints, Undisturbed, uapi_update, uapi_update-steady}

abbrev own : Prefix
own = record { addr = v4 0; bits_plus_one = 25 }

abbrev peer_cidr : Prefix
peer_cidr = record { addr = v4 256; bits_plus_one = 25 }

abbrev key : List ℕ
key =
    1 ∷ 2 ∷ 3 ∷ 4 ∷ 5 ∷ 6 ∷ 7 ∷ 8 ∷ 1 ∷ 2 ∷ 3 ∷ 4 ∷ 5 ∷ 6 ∷ 7 ∷ 8 ∷ 1 ∷ 2 ∷ 3 ∷ 4 ∷ 5 ∷ 6 ∷ 7 ∷ 8
    ∷ 1 ∷ 2 ∷ 3 ∷ 4 ∷ 5 ∷ 6 ∷ 7 ∷ 8 ∷ []

abbrev mesh_rules : MeshRules
mesh_rules = record {
  parse_prefix = λ s. if s == "0.0.1.0/24" then some peer_cidr else none;
  with_defaults = λ p. p;
  validate = λ p. true;
  mesh_peer_schema_version = 1;
  link_underlay = "underlay";
  link_direct = "direct";
  decode_base64 = λ s. some key;
  encode_hex = λ bytes. "0102";
  default_keepalive = 25;
}

abbrev peer : MeshPeerSpec
peer = record {
  node_name = "b";
  pod_cidr = "0.0.1.0/24";
  public_key = "AQI=";
  endpoint = "192.0.2.1:51820";
  endpoints = [];
  allowed_ips = "0.0.1.0/24" ∷ [];
  persistent_keepalive_seconds = 0;
  schema_version = 1;
}

abbrev plan : Plan
plan = record {
  peers =
      record {
        node_name = "b";
        public_key_hex = "0102";
        endpoint = "192.0.2.1:51820";
        allowed_ips = peer_cidr ∷ [];
        keepalive_seconds = 25;
      }
      ∷ [];
  routes = peer_cidr ∷ [];
  skipped = [];
}

validate_plan-Routed_example : All (Routed plan.routes) plan.peers
unfolding validate_plan build_plan plan_from outcome allowed_ips_match_cidr peer_config_from_spec
    wg_key_hex parse_allowed route_set routes_from route_of sort_routes insert_route masked overlaps
validate_plan-Routed_example = validate_plan-Routed mesh_rules own (peer ∷ []) plan refl

route_set_iff_example :
    Distinct (peer_cidr ∷ [])
    × ((elem peer_cidr (peer_cidr ∷ []) ≡ true)
        ↔ Any (IsRouteOf mesh_rules (masked own) peer_cidr) (peer ∷ []))
unfolding route_set routes_from route_of sort_routes insert_route masked overlaps
route_set_iff_example = route_set_iff mesh_rules own (peer ∷ []) (peer_cidr ∷ []) peer_cidr refl

-- the device has one peer, which left the plan
abbrev before : AppliedEndpoints
before = ("0304", "192.0.2.9:51820") ∷ []

uapi_update-steady_example : Undisturbed (uapi_update plan (uapi_update plan []).1).0
uapi_update-steady_example = uapi_update-steady plan [] (refl, tt) refl
