-- ===== src/Mesh/Plan/Routes.antt =====
-- The kernel routes of a mesh (mesh/plan.go: RouteSet) against the peers' podCIDRs.

use darwin_net.Prelude.{
  ◌≡◌, ◌↔◌, inl, inr, arith, refl, ◌∙◌, true, false, ◌||◌, List, [], ◌∷◌, some, ◌==◌, ==_refl, elem,
  Distinct, Any, Option-cases, ok,
}
use darwin_net.Netip.{Prefix, prefix_eq, masked, overlaps}
use darwin_net.Mesh.Plan.{
  MeshRules, MeshPeerSpec, is_node_cidr, route_of, routes_from, insert_route, sort_routes,
  route_set,
}

elem-insert_route :
    (p q : Prefix) (qs : List Prefix) → elem p (insert_route q qs) ≡ ((q == p) || elem p qs)
unfolding insert_route
elem-insert_route p q [] = refl
elem-insert_route p q (r ∷ qs) = ground (arith, elem-insert_route p q qs)

elem-sort_routes : (p : Prefix) (ps : List Prefix) → elem p (sort_routes ps) ≡ elem p ps
unfolding sort_routes
elem-sort_routes p [] = refl
elem-sort_routes p (q ∷ ps) =
    ground (arith, elem-insert_route p q (sort_routes ps), elem-sort_routes p ps)

insert_route-Distinct :
    (q : Prefix) (qs : List Prefix) → elem q qs ≡ false → Distinct qs → Distinct (insert_route q qs)
unfolding insert_route
insert_route-Distinct q [] h d = (refl, tt)
insert_route-Distinct q (r ∷ qs) h d = ground (
  arith,
  h,
  d.0,
  d.1,
  insert_route-Distinct q qs,
  elem-insert_route r q qs,
  prefix_eq.beq_iff q r,
  prefix_eq.beq_iff r q,
)

sort_routes-Distinct : (ps : List Prefix) → Distinct ps → Distinct (sort_routes ps)
unfolding sort_routes
sort_routes-Distinct [] d = tt
sort_routes-Distinct (p ∷ ps) d =
    insert_route-Distinct p (sort_routes ps) (elem-sort_routes p ps ∙ d.0)
      (sort_routes-Distinct ps d.1)

-- some peer has the route c
abbrev pub Wanted : MeshRules → Prefix → Prefix → List MeshPeerSpec → Type 0
Wanted rules self c = Any (λ p. route_of rules self p ≡ some c)

elem-routes_from :
    (rules : MeshRules) (self c : Prefix) (seen : List Prefix) (ps : List MeshPeerSpec)
    → (elem c (routes_from rules self seen ps) ≡ true)
      ↔ ((elem c seen ≡ false) × Wanted rules self c ps)
unfolding routes_from
elem-routes_from rules self c seen [] = ground arith
elem-routes_from rules self c seen (p ∷ ps) = elim (Option-cases (route_of rules self p)) [
  | inl e ↦ ground (arith, e, elem-routes_from rules self c seen ps)
  | inr (q, e) ↦ ground (
    arith,
    e,
    elem-routes_from rules self c seen ps,
    elem-routes_from rules self c (q ∷ seen) ps,
    prefix_eq.beq_iff q c,
  )
]

routes_from-Distinct :
    (rules : MeshRules) (self : Prefix) (seen : List Prefix) (ps : List MeshPeerSpec)
    → Distinct (routes_from rules self seen ps)
unfolding routes_from
routes_from-Distinct rules self seen [] = tt
routes_from-Distinct rules self seen (p ∷ ps) = elim (Option-cases (route_of rules self p)) [
  | inl e ↦ ground (arith, e, routes_from-Distinct rules self seen ps)
  | inr (q, e) ↦ ground (
    arith,
    e,
    routes_from-Distinct rules self seen ps,
    routes_from-Distinct rules self (q ∷ seen) ps,
    elem-routes_from rules self q (q ∷ seen) ps,
    ==_refl q,
  )
]

-- A route of a peer: its masked podCIDR, an IPv4 /24 apart from the node's own.
abbrev pub IsRouteOf : MeshRules → Prefix → Prefix → MeshPeerSpec → Type 0
IsRouteOf rules self c p =
    ((parsed : Prefix) × (rules.parse_prefix p.pod_cidr ≡ some parsed) × (masked parsed ≡ c))
    × (is_node_cidr c ≡ true)
    × (overlaps c self ≡ false)

route_of-forward :
    (rules : MeshRules) (self c : Prefix) (p : MeshPeerSpec)
    → route_of rules self p ≡ some c
    → IsRouteOf rules self c p
unfolding route_of
route_of-forward rules self c p h = elim (Option-cases (rules.parse_prefix p.pod_cidr)) [
  | inl e ↦ ground (arith, e, h)
  | inr (q, e) ↦
      let same : masked q ≡ c = ground (arith, e, h) in
      ((q, e, same), ground (arith, e, h), ground (arith, e, h))
]

route_of-back :
    (rules : MeshRules) (self c : Prefix) (p : MeshPeerSpec)
    → IsRouteOf rules self c p
    → route_of rules self p ≡ some c
unfolding route_of
route_of-back rules self c p ((q, e, same), node, apart) = ground (arith, e, same, node, apart)

Any-iff {ℓ} :
    {A : Type ℓ} {P Q : A → Type 0} → ((a : A) → P a ↔ Q a) → (xs : List A) → Any P xs ↔ Any Q xs
Any-iff f [] = ground arith
Any-iff f (x ∷ xs) = ground (arith, f x, Any-iff f xs)

-- RouteSet answers each route once, and exactly the routes of its peers: their masked podCIDRs that
-- are IPv4 /24s and do not overlap the node's own.
pub route_set_iff :
    (rules : MeshRules) (self : Prefix) (peers : List MeshPeerSpec) (routes : List Prefix)
    (c : Prefix)
    → route_set rules self peers ≡ ok routes
    → Distinct routes × ((elem c routes ≡ true) ↔ Any (IsRouteOf rules (masked self) c) peers)
unfolding route_set
route_set_iff rules self peers routes c h =
    let found = routes_from rules (masked self) [] peers in
    let eq : sort_routes found ≡ routes = ground (arith, h) in
    let each =
      Any-iff
        (λ p. (route_of-forward rules (masked self) c p, route_of-back rules (masked self) c p))
        peers in
    let members = elem-routes_from rules (masked self) c [] peers in
    let sorted = elem-sort_routes c found in
    let once = sort_routes-Distinct found (routes_from-Distinct rules (masked self) [] peers) in
    rw (← eq) (once, ground (arith, sorted, members, each))
