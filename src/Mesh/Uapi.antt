-- ===== src/Mesh/Uapi.antt =====
-- UAPIUpdate (mesh/plan.go): the wireguard configuration that moves a device from one plan to the next.
-- The text is the list of its lines.
use Prim.Native.String.{String}
use darwin_net.Prelude.{
  ℕ, ◌≡◌, arith, refl, Bool, true, false, not, ◌&&◌, ◌||◌, if◌then◌else◌, List, [], ◌∷◌, ◌++◌, none,
  some, ◌==◌, ==_refl, string_eq, elem, Distinct, is_nil, All, All-append,
}
use darwin_net.Prelude.Texts.{codes, text_less}
use darwin_net.Prelude.Maps.{lookup, insert, keys, lookup-insert, elem-keys-insert}
use darwin_net.Netip.{Prefix}
use darwin_net.Mesh.Plan.{PeerConfig, Plan}

-- one line of the UAPI text
pub data Line : Type 0 where
  replace_peers remove replace_allowed_ips : Line
  public_key endpoint : String → Line
  keepalive : ℕ → Line
  allowed_ip : Prefix → Line

abbrev pub AppliedEndpoints : Type 0
AppliedEndpoints = List (String × String)

unfoldable pub insert_key : String → List String → List String
insert_key k [] = k ∷ []
insert_key k (j ∷ js) =
    let rest = insert_key k js in if text_less (codes j) (codes k) then j ∷ rest else k ∷ j ∷ js

abbrev pub peer_keys : List PeerConfig → List String
peer_keys [] = []
peer_keys (pc ∷ pcs) = pc.public_key_hex ∷ peer_keys pcs

-- the sorted keys of prev that the plan no longer carries
unfoldable pub gone_keys : List String → AppliedEndpoints → List String
unfolding insert_key
gone_keys keep [] = []
gone_keys keep ((k, e) ∷ prev) =
    let rest = gone_keys keep prev in if elem k keep then rest else insert_key k rest

abbrev pub remove_lines : List String → List Line
remove_lines [] = []
remove_lines (k ∷ ks) = public_key k ∷ remove ∷ remove_lines ks

abbrev pub allowed_lines : List Prefix → List Line
allowed_lines [] = []
allowed_lines (a ∷ rest) = allowed_ip a ∷ allowed_lines rest

abbrev pub programs_endpoint : AppliedEndpoints → PeerConfig → Bool
programs_endpoint prev pc =
    not (pc.endpoint == "")
    && elim (lookup pc.public_key_hex prev) [ none ↦ true | some last ↦ not (last == pc.endpoint) ]

abbrev pub peer_lines : AppliedEndpoints → PeerConfig → List Line
peer_lines prev pc =
    public_key pc.public_key_hex
    ∷ ((if programs_endpoint prev pc then endpoint pc.endpoint ∷ [] else [])
        ++ keepalive pc.keepalive_seconds ∷ replace_allowed_ips ∷ allowed_lines pc.allowed_ips)

abbrev pub all_peer_lines : AppliedEndpoints → List PeerConfig → List Line
all_peer_lines prev [] = []
all_peer_lines prev (pc ∷ pcs) = peer_lines prev pc ++ all_peer_lines prev pcs

abbrev pub remember : List PeerConfig → AppliedEndpoints → AppliedEndpoints
remember [] next = next
remember (pc ∷ pcs) next = remember pcs (insert pc.public_key_hex pc.endpoint next)

unfoldable pub uapi_update : Plan → AppliedEndpoints → List Line × AppliedEndpoints
unfolding gone_keys
uapi_update plan prev = (
  (if is_nil prev then replace_peers ∷ [] else remove_lines (gone_keys (peer_keys plan.peers) prev))
      ++ all_peer_lines prev plan.peers,
  remember plan.peers [],
)

remember-lookup :
    (pcs : List PeerConfig) (next : AppliedEndpoints) (k : String)
    → elem k (peer_keys pcs) ≡ false
    → lookup k (remember pcs next) ≡ lookup k next
remember-lookup [] next k h = refl
remember-lookup (pc ∷ pcs) next k h = ground (
  arith,
  h,
  remember-lookup pcs (insert pc.public_key_hex pc.endpoint next) k,
  lookup-insert pc.public_key_hex k pc.endpoint next,
)

-- every peer's endpoint is the one that is remembered
remembers-all :
    (pcs : List PeerConfig) (next : AppliedEndpoints)
    → Distinct (peer_keys pcs)
    → All (λ pc. lookup pc.public_key_hex (remember pcs next) ≡ some pc.endpoint) pcs
remembers-all [] next d = tt
remembers-all (pc ∷ pcs) next d = (
  ground (
    arith,
    d,
    remember-lookup pcs (insert pc.public_key_hex pc.endpoint next) pc.public_key_hex,
    lookup-insert pc.public_key_hex pc.public_key_hex pc.endpoint next,
    ==_refl pc.public_key_hex,
  ),
  remembers-all pcs (insert pc.public_key_hex pc.endpoint next) d.1,
)

remember-keys :
    (pcs : List PeerConfig) (next : AppliedEndpoints) (k : String)
    → elem k (keys (remember pcs next)) ≡ (elem k (peer_keys pcs) || elem k (keys next))
remember-keys [] next k = refl
remember-keys (pc ∷ pcs) next k = ground (
  arith,
  remember-keys pcs (insert pc.public_key_hex pc.endpoint next) k,
  elem-keys-insert pc.public_key_hex k pc.endpoint next,
)

-- a line that only a new, moved or departed peer has
abbrev pub disturbs : Line → Bool
disturbs replace_peers = true
disturbs remove = true
disturbs (endpoint e) = true
disturbs _ = false

abbrev pub Undisturbed : List Line → Type 0
Undisturbed = All (λ l. disturbs l ≡ false)

elem-insert_key :
    (k j : String) (js : List String) → elem k (insert_key j js) ≡ ((j == k) || elem k js)
unfolding insert_key
elem-insert_key k j [] = refl
elem-insert_key k j (i ∷ js) = ground (arith, elem-insert_key k j js)

-- The keys that an update removes are those that it had programmed and the plan no longer carries.
elem-gone_keys :
    (keep : List String) (prev : AppliedEndpoints) (k : String)
    → elem k (gone_keys keep prev) ≡ (elem k (keys prev) && not (elem k keep))
unfolding gone_keys
elem-gone_keys keep [] k = refl
elem-gone_keys keep ((j, e) ∷ prev) k = ground (
  arith,
  elem-gone_keys keep prev k,
  elem-insert_key k j (gone_keys keep prev),
  string_eq.beq_iff j k,
)

allowed_lines-Undisturbed : (ps : List Prefix) → Undisturbed (allowed_lines ps)
allowed_lines-Undisturbed [] = tt
allowed_lines-Undisturbed (p ∷ ps) = (refl, allowed_lines-Undisturbed ps)

peer_lines-Undisturbed :
    (prev : AppliedEndpoints) (pc : PeerConfig)
    → lookup pc.public_key_hex prev ≡ some pc.endpoint
    → Undisturbed (peer_lines prev pc)
peer_lines-Undisturbed prev pc h =
    let quiet : programs_endpoint prev pc ≡ false = ground (arith, h, ==_refl pc.endpoint) in
    ground (arith, quiet, allowed_lines-Undisturbed pc.allowed_ips)

all_peer_lines-Undisturbed :
    (prev : AppliedEndpoints) (pcs : List PeerConfig)
    → All (λ pc. lookup pc.public_key_hex prev ≡ some pc.endpoint) pcs
    → Undisturbed (all_peer_lines prev pcs)
all_peer_lines-Undisturbed prev [] h = tt
all_peer_lines-Undisturbed prev (pc ∷ pcs) h =
    All-append (λ l. disturbs l ≡ false) (peer_lines prev pc) (all_peer_lines prev pcs)
      (peer_lines-Undisturbed prev pc h.0) (all_peer_lines-Undisturbed prev pcs h.1)

no_keys : (ks : List String) → ((k : String) → elem k ks ≡ false) → ks ≡ []
no_keys [] h = refl
no_keys (k ∷ ks) h = ground (arith, h k, ==_refl k)

not_nil_of_elem : (k : String) (m : AppliedEndpoints) → elem k (keys m) ≡ true → is_nil m ≡ false
not_nil_of_elem k [] h = ground (arith, h)
not_nil_of_elem k ((j, e) ∷ m) h = refl

-- The memory that an update leaves holds the keys of the plan's peers, whatever it held before.
pub uapi_update-memory :
    (plan : Plan) (prev : AppliedEndpoints) (k : String)
    → elem k (keys (uapi_update plan prev).1) ≡ elem k (peer_keys plan.peers)
unfolding uapi_update
uapi_update-memory plan prev k = ground (arith, remember-keys plan.peers [] k)

-- The keys that an incremental update removes are those that it had programmed and the plan no longer
-- carries.
pub uapi_update-removes :
    (plan : Plan) (prev : AppliedEndpoints)
    → is_nil prev ≡ false
    → (gone : List String) × ((uapi_update plan prev).0
        ≡ remove_lines gone ++ all_peer_lines prev plan.peers)
      × ((k : String) → elem k gone ≡ (elem k (keys prev) && not (elem k (peer_keys plan.peers))))
unfolding uapi_update
uapi_update-removes plan prev h = (
  gone_keys (peer_keys plan.peers) prev,
  ground (arith, h),
  elem-gone_keys (peer_keys plan.peers) prev,
)

-- When a plan with at least one peer, whose peers have different keys, is applied again, the update
-- replaces and removes no peer and writes no endpoint.
pub uapi_update-steady :
    (plan : Plan) (prev : AppliedEndpoints)
    → Distinct (peer_keys plan.peers)
    → is_nil plan.peers ≡ false
    → Undisturbed (uapi_update plan (uapi_update plan prev).1).0
unfolding uapi_update
uapi_update-steady plan prev d n =
    let m = remember plan.peers [] in
    let gone : gone_keys (peer_keys plan.peers) m ≡ [] =
      no_keys (gone_keys (peer_keys plan.peers) m) (λ k.
        ground (arith, elem-gone_keys (peer_keys plan.peers) m k, remember-keys plan.peers [] k)) in
    let kept = all_peer_lines-Undisturbed m plan.peers (remembers-all plan.peers [] d) in
    let some' : is_nil m ≡ false = at_least_one plan.peers n in ground (arith, gone, kept, some')
  where
    at_least_one : (pcs : List PeerConfig) → is_nil pcs ≡ false → is_nil (remember pcs []) ≡ false
    at_least_one [] h = ground (arith, h)
    at_least_one (pc ∷ pcs) h =
        not_nil_of_elem pc.public_key_hex (remember (pc ∷ pcs) [])
          (ground (arith, remember-keys (pc ∷ pcs) [] pc.public_key_hex, ==_refl pc.public_key_hex))
