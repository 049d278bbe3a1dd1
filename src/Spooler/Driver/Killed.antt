-- ===== src/Spooler/Driver/Killed.antt =====
-- main_killed.c: `run_threads` returns when the producers have been joined, and with it `main`, so the
-- process ends whatever its consumers are at.
use operating_systems_and_sy.Prelude.{ℕ, ◌≤◌, ◌≡◌, refl, false, List, ◌++◌, length, arith}
use operating_systems_and_sy.Spooler.Ring.{spool_init_shared}
use operating_systems_and_sy.Spooler.Threads.Thread.{Variant, Pc, absent}
use operating_systems_and_sy.Spooler.Threads.System.{joining, inserting, System, Reach, start}
use operating_systems_and_sy.Spooler.Threads.Safety.{Setup, fifo_order}
use operating_systems_and_sy.Spooler.Threads.Progress.{total, total_zero}
use operating_systems_and_sy.Spooler.Threads.Strings.{
  weigh, weigh-length, to_insert, done-to_insert, Counts, Reach-Counts,
}

-- The state in which the process ends.
pub record Killed {A : Type 0} (v : Variant) (s₀ s : System A) : Type 0 where
  pub reached : Reach v s₀ s
  pub still_joining : s.main ≡ joining
  pub all_done : (i : ℕ) → inserting (s.pc i) ≡ false

module _ {A : Type 0} {v : Variant} {storage : List A} {size : ℕ} {pc : ℕ → Pc A} where
  -- When main_killed.c ends, with finitely many threads, the producers have inserted as many strings as
  -- they had in all, and the consumers have removed those in the order of insertion, all but the last
  -- ones, at most as many as the buffer has slots, which are lost.
  pub Killed-lost :
      (setup : Setup storage size pc) (n : ℕ)
      → ((i : ℕ) → n ≤ i → pc i ≡ absent)
      → {s : System A} → Killed v (start storage size pc) s
      → (q : List A) × (s.mem.inserted ≡ s.mem.removed ++ q)
        × (length q ≤ size)
        × (length s.mem.inserted ≡ total (to_insert (λ a. 1)) n pc)
  unfolding spool_init_shared weigh
  Killed-lost setup n outside {s} k =
      let (q, ring, order) = fifo_order setup k.reached in
      let first : Counts (λ a. 1) n (total (to_insert (λ a. 1)) n pc) size
          (start storage size pc).mem pc =
        record { outside = outside; sum = omega arith; size = refl } in
      let c = Reach-Counts (λ a. 1) v k.reached first in
      (
        q,
        order,
        omega (arith, ring.count, c.size),
        omega (
          arith,
          c.sum,
          weigh-length s.mem.inserted,
          total_zero (to_insert (λ a. 1)) n s.pc
              (λ i. done-to_insert (λ a. 1) (s.pc i) (k.all_done i)),
        ),
      )
