-- ===== src/Spooler/Threads/Safety.antt =====
-- What the three thread-safe variants of the spooler promise in every reachable state.
use operating_systems_and_sy.Prelude.{
  ℕ, ◌≤◌, ◌<◌, ◌^◌, ◌≡◌, ◌∙◌, ap, true, false, Option, none, List, [], ◌++◌, Bool-cases, inl, inr,
  length, append-nil,
}
use operating_systems_and_sy.Spooler.Ring.{Spool, spool_full, spool_insert_unchecked}
use operating_systems_and_sy.Spooler.Ring.Fifo.{Represents, insert_room}
use operating_systems_and_sy.Spooler.Threads.Thread.{Variant, safe, Pc}
use operating_systems_and_sy.Spooler.Threads.System.{inserting, System, Reach, start, IsInitial}
use operating_systems_and_sy.Spooler.Threads.Invariant.{holds, got_null, Inv, Reach-Inv, start-Inv}

-- What the main thread passes to the threads: storage for `size` strings, and threads at the
-- beginning of their loops.
pub record Setup {A : Type 0} (storage : List A) (size : ℕ) (pc : ℕ → Pc A) : Type 0 where
  pub some_room : 0 < size
  pub small : size < 2 ^ 63
  pub fits : size ≤ length storage
  pub threads : (i : ℕ) → IsInitial (pc i)

module _ {A : Type 0} {v : Variant} {storage : List A} {size : ℕ} {pc : ℕ → Pc A}
    (setup : Setup storage size pc) {s : System A} (r : Reach v (start storage size pc) s) where
  reached : (q : List A) × Inv v s q
  reached =
      Reach-Inv r
        ([], start-Inv v storage size pc setup.some_room setup.small setup.fits setup.threads)

  -- In every state that is reached from a setup of the threads, two threads are never both between pthread_mutex_lock and
  -- pthread_mutex_unlock of `buf_lock`, in any of the three variants.
  pub mutual_exclusion : (i j : ℕ) → holds (s.pc i) ≡ true → holds (s.pc j) ≡ true → i ≡ j
  mutual_exclusion i j in_i in_j = cc (reached.1.owns i in_i, reached.1.owns j in_j)

  -- In every state that is reached from a setup of the threads, the strings that were inserted are, in order, those that were removed
  -- followed by those that the ring represents, which are as many as its used slots.
  pub fifo_order : (q : List A) × Represents s.mem.spool q × (s.mem.inserted ≡ s.mem.removed ++ q)
  fifo_order = let (q, inv) = reached in (q, inv.log.ring, inv.log.balance)

  -- In every state that is reached from a setup of the threads and has a free slot, an insertion frees
  -- no string.
  pub insert_frees_none :
      (a : A) → spool_full s.mem.spool ≡ false → (spool_insert_unchecked s.mem.spool a).1 ≡ none
  insert_frees_none a room =
      ap (λ (p : Spool A × Option A). p.1) (insert_room s.mem.spool a reached.1.log.ring.valid room)

  -- In every state that is reached from a setup of the threads, when a removal has returned NULL, the shutdown was flagged, no producer is still at work, and
  -- every string that was inserted has been removed, in the order of insertion.
  pub null-drained :
      (i : ℕ)
      → got_null (s.pc i) ≡ true
      → (s.mem.shutdown ≡ true)
        × ((j : ℕ) → inserting (s.pc j) ≡ false)
        × (s.mem.inserted ≡ s.mem.removed)
  null-drained i h =
      let inv = reached.1 in
      let (flag, empty) = inv.nulls i h in
      (
        flag,
        inv.all_joined (inv.flagged flag),
        inv.log.balance ∙ ap (λ (l : List A). s.mem.removed ++ l) empty ∙ append-nil s.mem.removed,
      )

  -- In every state that is reached from a setup of the threads of PART2, no call of `spool_remove_safe`
  -- has returned NULL.
  pub safe-not-null : v ≡ safe → (i : ℕ) → got_null (s.pc i) ≡ false
  safe-not-null e i = elim (Bool-cases (got_null (s.pc i))) [
    | inl null ↦ absurd (reached.1.flagged (reached.1.nulls i null).0 (reached.1.never_joined e))
    | inr other ↦ other
  ]
