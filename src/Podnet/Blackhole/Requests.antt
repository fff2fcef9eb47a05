-- ===== src/Podnet/Blackhole/Requests.antt =====
-- What Install and Clear do to the host routes and to lo0's aliases, and Install's loop
-- (blackhole.go).
use darwin_net.Prelude.{
  ℕ, zero, suc, ◌+◌, ◌≡◌, ◌≢◌, inl, inr, refl, true, false, ◌&&◌, Option, none, some, Result, ok,
  err, arith, Option-cases, Result-cases, Bool-cases, nat_beq, ◌==◌,
}
use darwin_net.Netip.{Addr, v4, v6, zero_addr, is4, unmap, addr_eq, addr_beq_iff}
use darwin_net.Podnet.Blackhole.{
  Kernel, Flags, BlackholeError, delete_host_route, lookup_host_route, install_loop, install, clear,
  blackhole_message, rtm_add, rtm_delete, rtm_get, eexist, esrch, other,
}
use darwin_net.Podnet.Blackhole.Macos.{KernelLaws, discards}

module _ (kern : Kernel) (laws : KernelLaws kern) where
  open laws use {live, route}

  -- what a read of the host route gives is the host route
  pub lookup_host_route_lem :
      (k : kern.K) (a : Addr) (o : Option Flags) → lookup_host_route kern k a ≡ ok o → o ≡ route k a
  unfolding lookup_host_route
  lookup_host_route_lem k a o h =
      elim (Result-cases (kern.exchange k (blackhole_message rtm_get a))) [
        | inl (r, got) ↦ elim (Option-cases (route k a)) [
          | inl missing ↦ elim (Option-cases r.dst) [
            | inl nowhere ↦ ground arith
            | inr (dst, at_dst) ↦
                ground (arith, laws.get_other k a r missing got, addr_beq_iff dst a)
          ]
          | inr (f, own) ↦ ground (arith, laws.get_own k a f r own got, addr_beq_iff a a)
        ]
        | inr (e, failed) ↦ ground (arith, laws.get_missing k a)
      ]

  delete_host_route_lem :
      (k : kern.K) (a : Addr)
      → let q = delete_host_route kern k a in
        (q.1 ≡ none → route q.0 a ≡ none)
        × ((c : Addr) → live q.0 c ≡ live k c)
        × ((c : Addr) → a ≢ c → route q.0 c ≡ route k c)
        × ((c : Addr) → discards (route k c) ≡ false → discards (route q.0 c) ≡ false)
  unfolding delete_host_route
  delete_host_route_lem k a = (
    λ done.
        ground (arith, laws.deleted k a, laws.absent k a, laws.write_failed k rtm_delete a esrch),
    λ c. laws.write_live k rtm_delete a c,
    λ c differ. laws.write_elsewhere k rtm_delete a c differ,
    λ c h. elim (Bool-cases (a == c)) [
      | inr differ ↦ ground (arith, addr_beq_iff a c, laws.write_elsewhere k rtm_delete a c)
      | inl same ↦ elim (Option-cases (kern.write k (blackhole_message rtm_delete a)).1) [
        | inl done ↦ ground (arith, addr_beq_iff a c, laws.deleted k a done)
        | inr (e, failed) ↦
            ground (arith, addr_beq_iff a c, laws.write_failed k rtm_delete a e failed)
      ]
    ],
  )

  -- what a run of Install's loop leaves: lo0's aliases, every other address's route, and on a
  -- success the blackhole
  abbrev pub Installs : kern.K → Addr → kern.K × Option (Result BlackholeError (Unit {0})) → Type 0
  Installs k a q =
      (q.1 ≡ some (ok tt) → discards (route q.0 a) ≡ true)
      × ((c : Addr) → live q.0 c ≡ live k c)
      × ((c : Addr) → a ≢ c → route q.0 c ≡ route k c)

  -- the first write of a round, whatever follows it
  after_add :
      (k : kern.K) (a : Addr) (r : Option (Result BlackholeError (Unit {0})))
      → ((r ≡ some (ok tt))
          → discards (route (kern.write k (blackhole_message rtm_add a)).0 a) ≡ true)
      → Installs k a ((kern.write k (blackhole_message rtm_add a)).0, r)
  after_add k a r h =
      (h, λ c. laws.write_live k rtm_add a c, λ c d. laws.write_elsewhere k rtm_add a c d)

  after_add_err :
      (k : kern.K) (a : Addr) (x : BlackholeError)
      → Installs k a ((kern.write k (blackhole_message rtm_add a)).0, some (err x))
  after_add_err k a x = after_add k a (some (err x)) (λ h. absurd (ground arith))

  -- the delete of a cloned route after that, and what a later round makes of it
  after_delete :
      (k : kern.K) (a : Addr) (q : kern.K × Option (Result BlackholeError (Unit {0})))
      → Installs (delete_host_route kern (kern.write k (blackhole_message rtm_add a)).0 a).0 a q
      → Installs k a q
  after_delete k a q h =
      let k1 = (kern.write k (blackhole_message rtm_add a)).0 in
      (
        h.0,
        λ c. ground (arith, h.1 c, (delete_host_route_lem k1 a).1 c, laws.write_live k rtm_add a c),
        λ c d. ground (
          arith,
          h.2 c d,
          (delete_host_route_lem k1 a).2 c d,
          laws.write_elsewhere k rtm_add a c d,
        ),
      )

  install_loop_lem :
      (fuel attempt : ℕ) (k : kern.K) (a : Addr) → Installs k a (install_loop kern fuel attempt k a)
  unfolding install_loop
  install_loop_lem zero attempt k a = (λ h. absurd (ground arith), λ c. refl, λ c h. refl)
  install_loop_lem (suc fuel) attempt k a =
      let k1 = (kern.write k (blackhole_message rtm_add a)).0 in
      elim (Option-cases (kern.write k (blackhole_message rtm_add a)).1) [
        | inl done ↦
            rw (done, install_loop) (after_add k a _ (λ h. ground (arith, laws.added k a done)))
        | inr (esrch, e) ↦ rw (e, install_loop) (after_add_err k a _)
        | inr (other n, e) ↦ rw (e, install_loop) (after_add_err k a _)
        | inr (eexist, e) ↦ elim (Result-cases (lookup_host_route kern k1 a)) [
          | inr (x, f) ↦ rw (e, f, install_loop) (after_add_err k a _)
          | inl (none, f) ↦ rw (e, f, install_loop) (after_add_err k a _)
          | inl (some flags, f) ↦ elim (Bool-cases flags.blackhole) [
            | inl held ↦
                rw (e, f, held, install_loop)
                  (after_add k a _ (λ h. ground (arith, lookup_host_route_lem k1 a (some flags) f)))
            | inr free ↦ elim (Bool-cases (flags.was_cloned && nat_beq attempt 0)) [
              | inr kept ↦ rw (e, f, free, kept, install_loop) (after_add_err k a _)
              | inl cloned ↦ elim (Option-cases (delete_host_route kern k1 a).1) [
                | inl gone ↦
                    rw (e, f, free, cloned, gone, install_loop)
                      (after_delete k a _ (install_loop_lem fuel (attempt + 1) _ a))
                | inr (x, stuck) ↦
                    rw (e, f, free, cloned, stuck, install_loop)
                      (after_delete k a _ (λ h. absurd (ground arith), λ c. refl, λ c d. refl))
              ]
            ]
          ]
        ]
      ]

  -- Install on an IPv4 address
  pub install_lem : (k : kern.K) (a : Addr) → is4 a ≡ true → Installs k a (install kern k a)
  unfolding install
  install_lem k (v4 x) h = install_loop_lem 2 0 k (v4 x)
  install_lem k (v6 x) h = absurd (ground arith)
  install_lem k zero_addr h = absurd (ground arith)

  pub clear_lem :
      (k : kern.K) (a : Addr)
      → let q = clear kern k a in
        (q.1 ≡ ok tt → discards (route q.0 (unmap a)) ≡ false)
        × ((c : Addr) → live q.0 c ≡ live k c)
        × ((c : Addr) → discards (route k c) ≡ false → discards (route q.0 c) ≡ false)
  unfolding clear
  clear_lem k a =
      let (gone, aliases, elsewhere, kept) = delete_host_route_lem k (unmap a) in
      elim (Result-cases (lookup_host_route kern k (unmap a))) [
        | inr (e, failed) ↦ (ground arith, λ c. ground arith, λ c h. ground arith)
        | inl (o, got) ↦ (
          ground (arith, lookup_host_route_lem k (unmap a) o got),
          λ c. ground (arith, aliases c),
          λ c h. ground (arith, kept c h),
        )
      ]

-- a later attempt deletes nothing, so it ends whatever fuel is left
later_round :
    (kern : Kernel) (fuel : ℕ) (k : kern.K) (a : Addr)
    → (install_loop kern (suc fuel) 1 k a ≡ install_loop kern 1 1 k a)
      × ((install_loop kern 1 1 k a).1 ≢ none)
unfolding install_loop
later_round kern fuel k a = ground arith

-- Install makes at most two rounds, whatever the kernel answers: with more fuel nothing changes, and
-- the fuel does not run out.
pub install_loop-ends :
    (kern : Kernel) (fuel : ℕ) (k : kern.K) (a : Addr)
    → (install_loop kern (suc (suc fuel)) 0 k a ≡ install_loop kern 2 0 k a)
      × ((install_loop kern 2 0 k a).1 ≢ none)
unfolding install_loop
install_loop-ends kern fuel k a = ground (arith, later_round kern fuel)
