-- ===== src/Ingress/Tests.antt =====
-- Concrete routes.
use darwin_net.Prelude.{◌≡◌, ◌↔◌, ◌⊎◌, true, List, [], ◌∷◌, ◌++◌, none, some}
use darwin_net.Prelude.Texts.{Text, codes}
use darwin_net.Netip.{v4}
use darwin_net.Ingress.Route.{
  exact, prefix, Backend, RouteState, path_segments, segment_prefix_match, match_route,
}
use darwin_net.Ingress.Route.Segments.{segment_prefix_match_iff}
use darwin_net.Ingress.Route.Winner.{IsBestMatch, match_route_tiers}

abbrev route : RouteState
route = record {
  rules =
      record {
        host = codes "a.io";
        path = codes "/x";
        path_type = prefix;
        backend = record { vip = v4 1; port = 80 };
      }
      ∷ record {
        host = codes "a.io";
        path = codes "/x";
        path_type = exact;
        backend = record { vip = v4 2; port = 80 };
      }
      ∷ [];
  default_backend = none;
}

segment_prefix_match_iff_example :
    (segment_prefix_match (codes "/a/") (codes "/a/b") ≡ true)
    ↔ ((rest : List Text) × (path_segments (codes "/a/b") ≡ path_segments (codes "/a/") ++ rest))
segment_prefix_match_iff_example = segment_prefix_match_iff (codes "/a/") (codes "/a/b")

match_route_tiers_example :
    ((be : Backend) × (match_route route (codes "a.io") (codes "/x") ≡ some be)
      × IsBestMatch (codes "a.io") (codes "/x") route.rules (some be))
    ⊎ ((IsBestMatch (codes "a.io") (codes "/x") route.rules none
          × (be : Backend) × (match_route route (codes "a.io") (codes "/x") ≡ some be)
          × IsBestMatch [] (codes "/x") route.rules (some be))
        ⊎ (IsBestMatch (codes "a.io") (codes "/x") route.rules none
            × IsBestMatch [] (codes "/x") route.rules none
            × (match_route route (codes "a.io") (codes "/x") ≡ route.default_backend)))
match_route_tiers_example = match_route_tiers route (codes "a.io") (codes "/x")
