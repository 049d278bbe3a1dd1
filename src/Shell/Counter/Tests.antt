-- ===== src/Shell/Counter/Tests.antt =====
-- One thread that counts to one.
use operating_systems_and_sy.Prelude.{
  ℕ, zero, suc, ◌+◌, ◌<◌, ◌≤◌, ◌≡◌, refl, [], ◌∷◌, some, get_elem?, arith,
}
use operating_systems_and_sy.Shell.Counter.{
  finished, TWork, unlocked, Counter, work, go, below, reached, lock, increment, unlock, Reach,
  here, step,
}
use operating_systems_and_sy.Shell.Counter.Limit.{sum_of, finished_counts}

abbrev last : Counter
last = record { count_lock = unlocked; global_count = 1; threads = work finished 1 ∷ [] }

last-Reach : Reach 1 1 last
last-Reach =
    step
      (step
        (step
          (step (step (step here (go refl)) (below 0 0 refl (omega arith))) (lock 0 0 refl refl))
          (increment 0 0 refl))
        (unlock 0 1 refl))
      (reached 0 1 refl (omega arith))

last_finished : (i : ℕ) (t : TWork) → get_elem? last.threads i ≡ some t → t.place ≡ finished
last_finished zero t h = let e : work finished 1 ≡ t = cc h in rw (← e) refl
last_finished (suc i) t h = absurd (cc h)

finished_counts_example :
    (1 ≤ last.global_count)
    × (last.global_count < 1 + 1)
    × (sum_of (λ t. t.count) last.threads ≡ last.global_count)
finished_counts_example = finished_counts (omega arith) (omega arith) last-Reach last_finished
