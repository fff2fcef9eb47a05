-- ===== src/Proxy/Policy/Verdict.antt =====
-- The verdict of PolicyTable.Allow against the policy's own terms.
use darwin_net.Prelude.{
  ℕ, ◌+◌, ◌≡◌, ◌↔◌, inl, inr, arith, true, false, ◌&&◌, ◌||◌, List, [], ◌∷◌, Option, none, some, Eq,
  nat_eq, elem, Any, Option-cases, Bool-cases,
}
use darwin_net.Prelude.Maps.{lookup, insert, lookup-insert}
use darwin_net.Netip.{Addr, addr_eq, unmap, is_loopback, prefix_valid, contains}
use darwin_net.Proxy.Policy.{PolicyRule, PolicyTable, misses, any_rule, verdict, allow}

-- a nil set holds everything
abbrev pub Holds {ℓ} : {A : Type ℓ} ⦃e : Eq A⦄ → Option (List A) → A → Type 0
Holds none a = Unit
Holds (some set) a = elem a set ≡ true

-- a rule admits a source on a port
abbrev pub Admits : Addr → ℕ → PolicyRule → Type 0
Admits src port r = Holds r.sources src × Holds r.ports port

-- The reasons for which a table lets a source through to a backend's port.
pub data Reason (t : PolicyTable) (src : Addr) (backend : Addr) (port : ℕ) : Type 0 where
  loopback : is_loopback src ≡ true → Reason t src backend port
  always : elem src t.always_allow ≡ true → Reason t src backend port
  unselected : lookup (unmap backend) t.selected ≡ none → Reason t src backend port
  admitted :
      (rules : List PolicyRule)
      → lookup (unmap backend) t.selected ≡ some rules
      → Any (Admits src port) rules
      → Reason t src backend port
  unknown :
      elem src t.known ≡ false
      → (prefix_valid t.vmnet && contains t.vmnet src) ≡ false
      → Reason t src backend port

misses_iff {ℓ} :
    {A : Type ℓ} ⦃e : Eq A⦄ (o : Option (List A)) (a : A) → (misses o a ≡ false) ↔ Holds o a
misses_iff none a = ground arith
misses_iff (some set) a = ground arith

any_rule_iff :
    (rules : List PolicyRule) (src : Addr) (port : ℕ)
    → (any_rule rules src port ≡ true) ↔ Any (Admits src port) rules
any_rule_iff [] src port = ground arith
any_rule_iff (r ∷ rs) src port =
    ground (arith, any_rule_iff rs src port, misses_iff r.sources src, misses_iff r.ports port)

verdict-Reason :
    (t : PolicyTable) (src backend : Addr) (port now : ℕ)
    → (verdict t src backend port now).1 ≡ true
    → Reason t src backend port
unfolding verdict
verdict-Reason t src backend port now h = elim (Bool-cases (is_loopback src)) [
  | inl e ↦ loopback e
  | inr e ↦ elim (Bool-cases (elem src t.always_allow)) [
    | inl f ↦ always f
    | inr f ↦ elim (Option-cases (lookup (unmap backend) t.selected)) [
      | inl g ↦ unselected g
      | inr (rules, g) ↦ elim (Bool-cases (any_rule rules src port)) [
        | inl r ↦ admitted rules g ((any_rule_iff rules src port).0 r)
        | inr r ↦ unknown (ground (arith, h, e, f, g, r)) (ground (arith, h, e, f, g, r))
      ]
    ]
  ]
]

Reason-verdict :
    (t : PolicyTable) (src backend : Addr) (port now : ℕ)
    → Reason t src backend port
    → (verdict t src backend port now).1 ≡ true
unfolding verdict
Reason-verdict t src backend port now (loopback h) = ground (arith, h)
Reason-verdict t src backend port now (always h) = ground (arith, h)
Reason-verdict t src backend port now (unselected h) = ground (arith, h)
Reason-verdict t src backend port now (admitted rules h a) =
    ground (arith, h, (any_rule_iff rules src port).1 a)
Reason-verdict t src backend port now (unknown h k) = ground (arith, h, k)

verdict-counted :
    (t : PolicyTable) (src backend : Addr) (port now : ℕ)
    → (verdict (record t { eval_count = t.eval_count + 1 }) src backend port now).1
      ≡ (verdict t src backend port now).1
unfolding verdict
verdict-counted t src backend port now = ground arith

-- A table lets a flow through exactly for one of these reasons: the unmapped source is loopback or
-- always allowed, the backend is not selected, one of its rules admits the source and the port, or
-- the source is no known pod and not of the vmnet segment.
pub allow_iff :
    (t : PolicyTable) (src backend : Addr) (port now : ℕ)
    → ((allow (some t) src backend port now).1 ≡ true) ↔ Reason t (unmap src) backend port
unfolding allow
allow_iff t src backend port now =
    let counted = verdict-counted t (unmap src) backend port now in
    (
      λ h. verdict-Reason t (unmap src) backend port now (ground (arith, counted, h)),
      λ r. ground (arith, counted, Reason-verdict t (unmap src) backend port now r),
    )

-- A denied flow goes to a selected backend, and the source is a known pod or of the vmnet segment: on
-- a node without one, an unknown source is never denied.
pub allow-denied :
    (t : PolicyTable) (src backend : Addr) (port now : ℕ)
    → (allow (some t) src backend port now).1 ≡ false
    → ((rules : List PolicyRule) × (lookup (unmap backend) t.selected ≡ some rules))
      × ((elem (unmap src) t.known || (prefix_valid t.vmnet && contains t.vmnet (unmap src)))
          ≡ true)
unfolding allow verdict
allow-denied t src backend port now h = elim (Option-cases (lookup (unmap backend) t.selected)) [
  | inl e ↦ ground (arith, e, h)
  | inr (rules, e) ↦ ((rules, e), ground (arith, e, h))
]

-- One more rule for a selected backend turns no allowed flow into a denied one.
pub allow-rule_added :
    (t : PolicyTable) (src backend selected : Addr) (port now : ℕ) (r : PolicyRule)
    (rules : List PolicyRule)
    → lookup selected t.selected ≡ some rules
    → (allow (some t) src backend port now).1 ≡ true
    → (allow
        (some (record t { selected = insert selected (r ∷ rules) t.selected }))
        src
        backend
        port
        now).1
      ≡ true
unfolding allow verdict
allow-rule_added t src backend selected port now r rules e h = ground (
  arith,
  e,
  h,
  lookup-insert selected (unmap backend) (r ∷ rules) t.selected,
  addr_eq.beq_iff selected (unmap backend),
)
