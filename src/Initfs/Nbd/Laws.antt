-- ===== src/Initfs/Nbd/Laws.antt =====
-- The wait for the block device comes to an end.
use void_init.Base.{
  ℕ, zero, suc, ◌+◌, ◌*◌, ◌<◌, ◌≤◌, ◌≡◌, ◌⊎◌, refl, ap, Bool, true, false, Option, some, Error,
  Result, ok, err, arith, ltb, Bool-cases, inl, inr,
}
use void_init.Os.{Os}
use void_init.Initfs.Nbd.{Clock, ClockLaws, settled, poll, or_stuck, wait_for_nbd_size}

module _ (O : Os) (C : Clock O) (L : ClockLaws O C) (ready : ℕ → Bool) where
  -- What a loop with enough rounds gives: it saw what it waited for, or the deadline is over.
  abbrev Ended : ℕ → Option (Result (Unit {0})) × O.State → Type 0
  Ended deadline (r, t) =
      ((r ≡ some (ok tt)) × (settled O C ready t ≡ true))
      ⊎ ((e : Error) × (r ≡ some (err e)) × (settled O C ready t ≡ false) × (deadline < C.now t))

  poll-step :
      (fuel deadline : ℕ) (s : O.State)
      → (C.now s ≤ deadline → Ended deadline (poll O C fuel ready deadline (C.sleep 100 s)))
      → Ended deadline (poll O C (suc fuel) ready deadline s)
  unfolding poll
  poll-step fuel deadline s later = elim (Bool-cases (settled O C ready s)) [
    | inl e ↦ rw e (inl (refl, e))
    | inr e ↦ (elim (Bool-cases (ltb deadline (C.now s))) [
      | inl late ↦ rw (e, late) (inr (_, refl, e, ground arith))
      | inr early ↦ rw (e, early) (later (ground arith))
    ])
  ]

  poll-Ended :
      (fuel deadline : ℕ) (s : O.State)
      → deadline < C.now s + fuel * 100
      → Ended deadline (poll O C (suc fuel) ready deadline s)
  poll-Ended zero deadline s h =
      poll-step zero deadline s (λ early. absurd (omega (arith, h, early)))
  poll-Ended (suc fuel) deadline s h =
      poll-step (suc fuel) deadline s
        (λ early. poll-Ended fuel deadline (C.sleep 100 s) (omega (arith, h, L.now-sleep 100 s)))

  -- If a sleep takes at least its time, the wait ends within its rounds: it succeeds in a state where
  -- the size is the one waited for, or it fails where the size is not and more than 5000 ms have
  -- passed.
  pub wait_for_nbd_size-ends :
      (s : O.State)
      → ((wait_for_nbd_size O C ready s).0 ≡ ok tt)
          × (settled O C ready (wait_for_nbd_size O C ready s).1 ≡ true)
        ⊎ ((e : Error) × ((wait_for_nbd_size O C ready s).0 ≡ err e)
            × (settled O C ready (wait_for_nbd_size O C ready s).1 ≡ false)
            × (C.now s + 5000 < C.now (wait_for_nbd_size O C ready s).1))
  unfolding wait_for_nbd_size
  wait_for_nbd_size-ends s = elim (poll-Ended 51 (C.now s + 5000) s (omega arith)) [
    | inl (e, t) ↦ inl (ap or_stuck e, t)
    | inr (x, e, t, d) ↦ inr (x, ap or_stuck e, t, d)
  ]
