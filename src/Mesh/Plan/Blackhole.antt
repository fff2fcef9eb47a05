-- ===== src/Mesh/Plan/Blackhole.antt =====
-- What a strict plan programs (mesh/plan.go: ValidatePlan): a wireguard peer whose AllowedIPs have a
-- kernel route.
use Prim.Native.String.{String}
use darwin_net.Prelude.{
  ℕ, ◌*◌, ◌/◌, ◌≡◌, inl, inr, arith, refl, true, false, List, [], ◌∷◌, some, elem, All, Any, is_nil,
  Bool-cases, Option-cases, ok, Result-cases,
}
use darwin_net.Netip.{Addr, zero_addr, v4, v6, Prefix, prefix_eq, masked, overlaps}
use darwin_net.Mesh.Plan.{
  MeshRules, MeshPeerSpec, PeerConfig, Plan, Outcome, programmed, passed_over, skipped_for,
  equal_cidr, is_node_cidr, all_equal, allowed_ips_match_cidr, parse_allowed, peer_config_from_spec,
  outcome, resolved, plan_from, route_set, build_plan, all_node_cidrs, all_per_node, validate_plan,
}
use darwin_net.Mesh.Plan.Routes.{IsRouteOf, route_set_iff}

abbrev slash24 : ℕ → Prefix
slash24 a = record { addr = v4 a; bits_plus_one = 25 }

blocks_apart :
    (a b : ℕ)
    → equal_cidr (masked (slash24 a)) (masked (slash24 b)) ≡ false
    → overlaps (masked (slash24 a)) (masked (slash24 b)) ≡ false
unfolding masked overlaps
blocks_apart a b h =
    let ea : a / 256 * 256 / 256 ≡ a / 256 = omega arith in
    let eb : b / 256 * 256 / 256 ≡ b / 256 = omega arith in ground (arith, h, ea, eb)

-- Two masked /24s that are not equal do not overlap.
apart_of_unequal :
    (a b : Addr) (m n : ℕ)
    → is_node_cidr (masked (record { addr = a; bits_plus_one = m })) ≡ true
    → is_node_cidr (masked (record { addr = b; bits_plus_one = n })) ≡ true
    → equal_cidr
        (masked (record { addr = a; bits_plus_one = m }))
        (masked (record { addr = b; bits_plus_one = n }))
      ≡ false
    → overlaps
        (masked (record { addr = a; bits_plus_one = m }))
        (masked (record { addr = b; bits_plus_one = n }))
      ≡ false
unfolding masked overlaps
apart_of_unequal (v4 a) (v4 b) m n hp hq h =
    let em : m ≡ 25 = ground (arith, hp) in
    let en : n ≡ 25 = ground (arith, hq) in
    let h' = rw em at h in let h2 = rw en at h' in rw (em, en) (blocks_apart a b h2)
apart_of_unequal zero_addr b m n hp hq h = ground (arith, hp)
apart_of_unequal (v6 a) b m n hp hq h = ground (arith, hp)
apart_of_unequal (v4 a) zero_addr m n hp hq h = ground (arith, hq)
apart_of_unequal (v4 a) (v6 b) m n hp hq h = ground (arith, hq)

all_equal-All :
    (rules : MeshRules) (pc : Prefix) (ss : List String) (ps : List Prefix)
    → all_equal rules pc ss ≡ true
    → parse_allowed rules ss ≡ some ps
    → All (λ a. a ≡ pc) ps
unfolding parse_allowed
all_equal-All rules pc [] ps h e = let q : ps ≡ [] = ground (arith, e) in rw q tt
all_equal-All rules pc (s ∷ ss) ps h e = elim (Option-cases (rules.parse_prefix s)) [
  | inl f ↦ ground (arith, f, h)
  | inr (a, f) ↦ elim (Option-cases (parse_allowed rules ss)) [
    | inl g ↦ ground (arith, f, g, e)
    | inr (rest, g) ↦
        let q : ps ≡ masked a ∷ rest = ground (arith, f, g, e) in
        let same : masked a ≡ pc = ground (arith, f, h, prefix_eq.beq_iff (masked a) pc) in
        rw q (same, all_equal-All rules pc ss rest (ground (arith, f, h)) g)
  ]
]

parse_allowed-nil :
    (rules : MeshRules) (ss : List String) (ps : List Prefix)
    → parse_allowed rules ss ≡ some ps
    → is_nil ps ≡ is_nil ss
unfolding parse_allowed
parse_allowed-nil rules [] ps e = let q : ps ≡ [] = ground (arith, e) in rw q refl
parse_allowed-nil rules (s ∷ ss) [] e = ground (arith, e)
parse_allowed-nil rules (s ∷ ss) (p ∷ ps) e = refl

-- a peer of the plan is one of the included specs: its AllowedIPs, at least one, are all that spec's
-- masked podCIDR, which is not the node's own
abbrev pub Stems : MeshRules → Prefix → PeerConfig → MeshPeerSpec → Type 0
Stems rules self pc spec =
    (parsed : Prefix) × (rules.parse_prefix spec.pod_cidr ≡ some parsed)
    × (equal_cidr (masked parsed) self ≡ false)
    × (is_nil pc.allowed_ips ≡ false)
    × All (λ a. a ≡ masked parsed) pc.allowed_ips

outcome-Stems :
    (rules : MeshRules) (self : Prefix) (spec : MeshPeerSpec) (pc : PeerConfig)
    → outcome rules self spec ≡ programmed pc
    → Stems rules self pc spec
unfolding outcome allowed_ips_match_cidr peer_config_from_spec
outcome-Stems rules self spec pc h = elim (Option-cases (rules.parse_prefix spec.pod_cidr)) [
  | inl e ↦ ground (arith, e, h)
  | inr (c, e) ↦ elim (Option-cases (parse_allowed rules spec.allowed_ips)) [
    | inl f ↦ ground (arith, e, f, h)
    | inr (allowed, f) ↦
        let q : pc.allowed_ips ≡ allowed = ground (arith, e, f, h) in
        let equal : all_equal rules (masked c) spec.allowed_ips ≡ true = ground (arith, e, f, h) in
        let filled : is_nil spec.allowed_ips ≡ false = ground (arith, e, f, h) in
        let all = all_equal-All rules (masked c) spec.allowed_ips allowed equal f in
        let other : equal_cidr (masked c) self ≡ false = ground (arith, e, f, h) in
        (
          c,
          e,
          other,
          ground (arith, q, parse_allowed-nil rules spec.allowed_ips allowed f, filled),
          rw q all,
        )
  ]
]

All-grow :
    (rules : MeshRules) (self : Prefix) (s : MeshPeerSpec) (included : List MeshPeerSpec)
    (pcs : List PeerConfig)
    → All (λ pc. Any (Stems rules self pc) included) pcs
    → All (λ pc. Any (Stems rules self pc) (s ∷ included)) pcs
All-grow rules self s included [] h = tt
All-grow rules self s included (pc ∷ pcs) h = (inr h.0, All-grow rules self s included pcs h.1)

plan_from-Stems :
    (rules : MeshRules) (self : Prefix) (raws : List MeshPeerSpec)
    → All
        (λ pc. Any (Stems rules self pc) (plan_from rules self raws).1)
        (plan_from rules self raws).0.peers
unfolding plan_from
plan_from-Stems rules self [] = tt
plan_from-Stems rules self (raw ∷ raws) =
    split (outcome rules self (resolved rules raw)) refl (plan_from-Stems rules self raws)
  where
    split :
        (o : Outcome)
        → outcome rules self (resolved rules raw) ≡ o
        → All
            (λ pc. Any (Stems rules self pc) (plan_from rules self raws).1)
            (plan_from rules self raws).0.peers
        → All
            (λ pc. Any (Stems rules self pc) (plan_from rules self (raw ∷ raws)).1)
            (plan_from rules self (raw ∷ raws)).0.peers
    split (programmed pc) e rest =
        let first = outcome-Stems rules self (resolved rules raw) pc e in
        let others =
          All-grow rules self (resolved rules raw) (plan_from rules self raws).1
            (plan_from rules self raws).0.peers rest in
        let r = plan_from rules self raws in
        let eq : plan_from rules self (raw ∷ raws)
            ≡ (record r.0 { peers = pc ∷ r.0.peers }, resolved rules raw ∷ r.1) =
          ground (arith, e) in
        rw eq (inl first, others)
    split passed_over e rest =
        let eq : plan_from rules self (raw ∷ raws) ≡ plan_from rules self raws =
          ground (arith, e) in
        rw eq rest
    split (skipped_for why) e rest =
        let r = plan_from rules self raws in
        let peers : (plan_from rules self (raw ∷ raws)).0.peers ≡ r.0.peers = ground (arith, e) in
        let included : (plan_from rules self (raw ∷ raws)).1 ≡ r.1 = ground (arith, e) in
        rw (peers, included) rest

-- every prefix of the list is one of the routes
abbrev pub AllRouted : List Prefix → List Prefix → Type 0
AllRouted routes = All (λ a. elem a routes ≡ true)

-- A peer of a strict plan carries AllowedIPs, and each is routed.
abbrev pub Routed : List Prefix → PeerConfig → Type 0
Routed routes pc = (is_nil pc.allowed_ips ≡ false) × AllRouted routes pc.allowed_ips

masked_again :
    (a : Addr) (m : ℕ)
    → is_node_cidr (masked (record { addr = a; bits_plus_one = m })) ≡ true
    → masked (masked (record { addr = a; bits_plus_one = m }))
      ≡ masked (record { addr = a; bits_plus_one = m })
unfolding masked
masked_again (v4 a) m h = let em : m ≡ 25 = ground (arith, h) in rw em (twice a)
  where
    twice : (a : ℕ) → masked (masked (slash24 a)) ≡ masked (slash24 a)
    twice a = let e : a / 256 * 256 / 256 ≡ a / 256 = omega arith in ground (arith, e)
masked_again zero_addr m h = ground (arith, h)
masked_again (v6 a) m h = ground (arith, h)

module _ (rules : MeshRules) (self : Prefix) (node : is_node_cidr (masked self) ≡ true) where
  peer_route :
      (pc : PeerConfig) (included : List MeshPeerSpec)
      → Any (Stems rules (masked self) pc) included
      → (c : Prefix) × (is_nil pc.allowed_ips ≡ false)
        × All (λ a. a ≡ c) pc.allowed_ips
        × (is_node_cidr c ≡ true → Any (IsRouteOf rules (masked self) c) included)
  peer_route pc [] h = ground (arith, h)
  peer_route pc (s ∷ included) (inl (parsed, e, other, filled, all)) = (
    masked parsed,
    filled,
    all,
    λ n. inl (
      (parsed, e, refl),
      n,
      apart_of_unequal parsed.addr self.addr parsed.bits_plus_one self.bits_plus_one n node other,
    ),
  )
  peer_route pc (s ∷ included) (inr h) =
      let (c, filled, all, routed) = peer_route pc included h in
      (c, filled, all, λ n. inr (routed n))

  all-AllRouted :
      (routes : List Prefix) (c : Prefix) (ps : List Prefix)
      → (is_node_cidr c ≡ true → elem c routes ≡ true)
      → all_node_cidrs ps ≡ true
      → All (λ a. a ≡ c) ps
      → AllRouted routes ps
  all-AllRouted routes c [] f h all = tt
  all-AllRouted routes c (p ∷ ps) f h all =
      ground (arith, h, all.0, f, all-AllRouted routes c ps f (ground (arith, h)) all.1)

  peers-Routed :
      (routes : List Prefix) (included : List MeshPeerSpec) (pcs : List PeerConfig)
      → ((c : Prefix) → Any (IsRouteOf rules (masked self) c) included → elem c routes ≡ true)
      → all_per_node pcs ≡ true
      → All (λ pc. Any (Stems rules (masked self) pc) included) pcs
      → All (Routed routes) pcs
  peers-Routed routes included [] f h all = tt
  peers-Routed routes included (pc ∷ pcs) f h all =
      let (c, filled, same, routed) = peer_route pc included all.0 in
      (
        (
          filled,
          all-AllRouted routes c pc.allowed_ips (λ n. f c (routed n)) (ground (arith, h)) same,
        ),
        peers-Routed routes included pcs f (ground (arith, h)) all.1,
      )

-- Every peer of a plan that ValidatePlan accepts has AllowedIPs, and each of these is one of the plan's
-- kernel routes.
pub validate_plan-Routed :
    (rules : MeshRules) (self : Prefix) (peers : List MeshPeerSpec) (plan : Plan)
    → validate_plan rules self peers ≡ ok plan
    → All (Routed plan.routes) plan.peers
unfolding validate_plan build_plan
validate_plan-Routed rules self peers plan h =
    let r = plan_from rules (masked self) peers in
    elim (Bool-cases (is_node_cidr (masked self))) [
      | inr n ↦ ground (arith, n, h)
      | inl n ↦ elim (Result-cases (route_set rules (masked self) r.1)) [
        | inr (e, f) ↦ ground (arith, n, f, h)
        | inl (routes, f) ↦
            let eq_peers : r.0.peers ≡ plan.peers = ground (arith, n, f, h) in
            let eq_routes : routes ≡ plan.routes = ground (arith, n, f, h) in
            let per_node : all_per_node r.0.peers ≡ true = ground (arith, n, f, h) in
            let again = masked_again self.addr self.bits_plus_one n in
            let complete : (c : Prefix)
                → Any (IsRouteOf rules (masked self) c) r.1
                → elem c routes ≡ true =
              λ c a. (route_set_iff rules (masked self) r.1 routes c f).1.1 (rw again a) in
            rw (← eq_peers, ← eq_routes)
              (peers-Routed rules self n routes r.1 r.0.peers complete per_node
                (plan_from-Stems rules (masked self) peers))
      ]
    ]
