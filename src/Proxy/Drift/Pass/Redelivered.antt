-- ===== src/Proxy/Drift/Pass/Redelivered.antt =====
-- Which Services a pass delivers again from the store (antientropy.go: settleRepaired).
use Prim.Native.String.{String}
use darwin_net.Prelude.{
  ◌≡◌, arith, true, false, if◌then◌else◌, List, [], ◌∷◌, ◌++◌, elem, is_nil, Bool-cases, inl, inr,
  All, All-append, string_eq, ==_refl,
}
use darwin_net.Prelude.Maps.{keys}
use darwin_net.Proxy.Routing.{PortKey, port_key_eq}
use darwin_net.Proxy.Drift.{BackendSets, Divergence, View, Divergences, backend_sets}
use darwin_net.Proxy.Drift.Pass.{
  Watcher, Findings, Action, redeliver, redeliveries, settle_repaired, end_key_episodes,
  report_keys, report_divergences, breaker_tripped, unserved, repair_services, maybe_relist, act,
  diverging_keys,
}

-- a redelivery is of a Service that was repaired before, no longer diverges and is in the store
abbrev pub Redelivers : List String → View → Divergences → Action → Type 0
Redelivers repaired store divs (redeliver k) =
    (elem k repaired ≡ true) × (elem k (keys divs) ≡ false) × (elem k (keys store) ≡ true)
Redelivers repaired store divs _ = Unit

module _ (repaired : List String) (store : View) (divs : Divergences) where
  abbrev AllRedeliver : List Action → Type 0
  AllRedeliver = All (Redelivers repaired store divs)

  redeliveries-All :
      (ks : List String)
      → ((k : String) → elem k ks ≡ true → elem k repaired ≡ true)
      → AllRedeliver (redeliveries store divs ks)
  redeliveries-All [] h = tt
  redeliveries-All (k ∷ ks) h =
      let rest = redeliveries-All ks (λ j e. h j (ground (arith, e))) in
      let here = h k (ground (arith, ==_refl k)) in
      elim (Bool-cases (elem k (keys divs))) [
        | inl d ↦ rw d rest
        | inr d ↦ elim (Bool-cases (elem k (keys store))) [
          | inl e ↦ rw (d, e) ((here, d, e), rest)
          | inr e ↦ rw (d, e) rest
        ]
      ]

  report_keys-All : (warned ks : List PortKey) → AllRedeliver (report_keys warned ks).1
  unfolding report_keys
  report_keys-All warned [] = tt
  report_keys-All warned (k ∷ ks) =
      ground (arith, report_keys-All warned ks, report_keys-All (k ∷ warned) ks)

  unserved-All : (sets : BackendSets) (ds : List Divergence) → AllRedeliver (unserved sets ds)
  unserved-All sets [] = tt
  unserved-All sets (d ∷ ds) = ground (arith, unserved-All sets ds)

  repair_services-All :
      (live : View) (newer : List String) (ds : Divergences) (done : List String)
      → AllRedeliver (repair_services live newer ds done).1
  unfolding repair_services
  repair_services-All live newer [] done = tt
  repair_services-All live newer ((k, d) ∷ ds) done =
      let after = if elem k done then done else k ∷ done in
      let rest = repair_services-All live newer ds after in
      let gone = unserved-All (backend_sets k live) d in
      let tail =
        All-append (Redelivers repaired store divs) (unserved (backend_sets k live) d)
          (repair_services live newer ds after).1 gone rest in
      elim (Bool-cases (elem k newer)) [
        | inl e ↦ rw e (repair_services-All live newer ds done)
        | inr e ↦ elim (Bool-cases (elem k (keys live))) [
          | inl l ↦ rw (e, l) (tt, tail)
          | inr l ↦ rw (e, l) tail
        ]
      ]

  maybe_relist-All : (w : Watcher) (f : Findings) → AllRedeliver (maybe_relist w f).1
  unfolding maybe_relist
  maybe_relist-All w f = ground arith

-- Whatever the circuit breaker says, a pass delivers from the store only Services that it had repaired
-- from the live list before, that no longer diverge and that the store holds.
pub act-Redelivers :
    (w : Watcher) (f : Findings) (live store : View) (divs : Divergences)
    → All (Redelivers w.repaired_from_live store divs) (act w f live store divs).1
unfolding act settle_repaired report_divergences
act-Redelivers w f live store divs =
    let P = Redelivers w.repaired_from_live store divs in
    let sent = redeliveries-All w.repaired_from_live store divs w.repaired_from_live (λ k e. e) in
    let redelivered = redeliveries store divs w.repaired_from_live in
    let w2 = end_key_episodes (settle_repaired w store divs).0 divs in
    let reported = report_divergences w2 divs in
    let warns =
      report_keys-All w.repaired_from_live store divs w2.div_warned (diverging_keys divs) in
    let quiet = All-append P redelivered reported.1 sent warns in
    let fixed = repair_services live f.newer divs reported.0.repaired_from_live in
    let fixes =
      repair_services-All w.repaired_from_live store divs live f.newer divs
        reported.0.repaired_from_live in
    let held : Watcher = record reported.0 { breaker_warned = true } in
    let after : Watcher = record reported.0 { repaired_from_live = fixed.0 } in
    let relists = maybe_relist-All w.repaired_from_live store divs in
    elim (Bool-cases (is_nil divs)) [
      | inl clean ↦ rw (clean, act) sent
      | inr found ↦ elim (Bool-cases (breaker_tripped live store divs)) [
        | inl tripped ↦
            rw (found, tripped, act)
              (All-append P (redelivered ++ reported.1) (maybe_relist held f).1 quiet
                (relists held f))
        | inr holds ↦
            rw (found, holds, act)
              (All-append P (redelivered ++ reported.1 ++ fixed.1) (maybe_relist after f).1
                (All-append P (redelivered ++ reported.1) fixed.1 quiet fixes) (relists after f))
      ]
    ]
