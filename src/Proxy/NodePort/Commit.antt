-- ===== src/Proxy/NodePort/Commit.antt =====
-- Commit: what each group listens on after it, and what stays bound.
use darwin_net.Prelude.{
  ℕ, ◌≡◌, arith, refl, false, not, ◌&&◌, List, [], ◌∷◌, some, elem, Option-cases, inl, inr, ==_refl,
  All, nat_eq, nat_beq_iff, Distinct, elem-filter_by, elem-append, filter_by,
}
use darwin_net.Prelude.Maps.{keys}
use darwin_net.Netip.{Addr}
use darwin_net.Proxy.NodePort.{
  Sockets, BindAddr, bind_addr_eq, NodePortGroup, NodePortSwap, close_listeners, bind_all,
  bind_addrs, missing, outside, added_of, commit_group, commit_groups, prepare_groups,
}
use darwin_net.Proxy.NodePort.Binding.{SocketLaws, close_listeners_lem, bind_all_lem, BindsAll}
use darwin_net.Proxy.NodePort.Swap.{Groups, ports, Exact, covers, elem-bind_addrs, elem-missing}

-- the swap holds the listeners that a group lacks
abbrev pub Added : List Addr → List (ℕ × List BindAddr) → ℕ × NodePortGroup → Type 0
Added want added (i, g) = (b : BindAddr) → elem b (added_of i added) ≡ elem b (missing want g)

module _ (net : Sockets) (laws : SocketLaws net) (want : List Addr) where
  open laws use {bound}

  added_of_kept :
      (s : net.S) (groups : Groups) (added added' : List (ℕ × List BindAddr)) (i : ℕ)
      → elem i (keys groups) ≡ false
      → (prepare_groups net s want groups added).1 ≡ some added'
      → added_of i added' ≡ added_of i added
  unfolding prepare_groups
  added_of_kept s [] added added' i absent h = ground arith
  added_of_kept s ((j, g) ∷ groups) added added' i absent h =
      elim (Option-cases (bind_all net s (missing want g) []).1) [
        | inl failed ↦ let h' = rw (failed, prepare_groups) at h in absurd (ground (arith, h'))
        | inr (lns, opened) ↦
            let h' = rw (opened, prepare_groups) at h in
            ground (
              arith,
              absent,
              nat_beq_iff j i,
              added_of_kept (bind_all net s (missing want g) []).0 groups ((j, lns) ∷ added) added'
                  i (ground (arith, absent)) h',
            )
      ]

  pub prepare_groups-Added :
      (s : net.S) (groups : Groups) (added added' : List (ℕ × List BindAddr))
      → Distinct (keys groups)
      → (prepare_groups net s want groups added).1 ≡ some added'
      → All (Added want added') groups
  unfolding prepare_groups
  prepare_groups-Added s [] added added' distinct h = tt
  prepare_groups-Added s ((i, g) ∷ groups) added added' distinct h =
      elim (Option-cases (bind_all net s (missing want g) []).1) [
        | inl failed ↦ let h' = rw (failed, prepare_groups) at h in absurd (ground (arith, h'))
        | inr (lns, opened) ↦
            let h' = rw (opened, prepare_groups) at h in
            let s1 : net.S = (bind_all net s (missing want g) []).0 in
            let kept = added_of_kept s1 groups ((i, lns) ∷ added) added' i distinct.0 h' in
            (
              λ b.
                  let all = bind_all_lem net laws s (missing want g) b in
                  let first : BindsAll net laws s (missing want g) [] (s1, some lns) b =
                    rw opened at all in
                  rw kept (ground (arith, first, ==_refl i)),
              prepare_groups-Added s1 groups ((i, lns) ∷ added) added' distinct.1 h',
            )
      ]

module _ (net : Sockets) (laws : SocketLaws net) where
  open laws use {bound}

  pub commit_groups_bound :
      (s : net.S) (old : List Addr) (sw : NodePortSwap) (groups : Groups) (b : BindAddr)
      → All (Exact old) groups
      → bound (commit_groups net s sw groups).0 b
        ≡ (bound s b && not (covers old (ports groups) b && not (covers sw.addrs (ports groups) b)))
  unfolding commit_groups
  commit_groups_bound s old sw [] b exact = ground arith
  commit_groups_bound s old sw ((i, g) ∷ groups) b exact =
      let s1 : net.S = close_listeners net s (outside sw.addrs g) in
      ground (
        arith,
        exact.0 b,
        commit_groups_bound s1 old sw groups b exact.1,
        close_listeners_lem net laws s (outside sw.addrs g) b,
        elem-filter_by (λ c. not (elem c (bind_addrs sw.addrs g.port))) b g.lns,
        elem-bind_addrs sw.addrs g.port b,
        elem-bind_addrs old g.port b,
      )

  pub commit_groups-Exact :
      (s : net.S) (old : List Addr) (sw : NodePortSwap) (groups : Groups)
      → All (Exact old) groups
      → All (Added sw.addrs sw.added) groups
      → let groups' = (commit_groups net s sw groups).1 in
        All (Exact sw.addrs) groups' × (ports groups' ≡ ports groups) × (keys groups' ≡ keys groups)
  unfolding commit_groups commit_group
  commit_groups-Exact s old sw [] exact added = (tt, refl, refl)
  commit_groups-Exact s old sw ((i, g) ∷ groups) exact added =
      let s1 : net.S = close_listeners net s (outside sw.addrs g) in
      let (all, same_ports, same_keys) = commit_groups-Exact s1 old sw groups exact.1 added.1 in
      (
        (
          λ b. ground (
            arith,
            exact.0 b,
            added.0 b,
            elem-missing sw.addrs g b,
            elem-append b (filter_by (λ c. elem c (bind_addrs sw.addrs g.port)) g.lns)
                (added_of i sw.added),
            elem-filter_by (λ c. elem c (bind_addrs sw.addrs g.port)) b g.lns,
          ),
          all,
        ),
        ground (arith, same_ports),
        ground (arith, same_keys),
      )
