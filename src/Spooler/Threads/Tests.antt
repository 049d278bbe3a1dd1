-- ===== src/Spooler/Threads/Tests.antt =====
-- One producer and one consumer with a spool of two slots.
use operating_systems_and_sy.Prelude.{
  ℕ, zero, suc, ◌≤◌, ◌≡◌, refl, true, false, none, some, List, [], ◌∷◌, ◌++◌, length, arith,
  ℕ_discrete,
}
use operating_systems_and_sy.Spooler.Ring.{
  spool_init_shared, spool_full, spool_empty, spool_remove_unchecked,
}
use operating_systems_and_sy.Spooler.Ring.Fifo.{Represents}
use operating_systems_and_sy.Spooler.Threads.Thread.{
  Variant, safe, one_cv, two_cv, Pc, producing, ins_lock, ins_test, after_insert, consuming,
  rem_lock, rem_test, rem_blocked, absent, call_insert, ins_acquire, ins_store, ins_release,
  call_remove, rem_acquire, rem_take, insert_step, remove_step, after_remove,
}
use operating_systems_and_sy.Spooler.Threads.System.{
  waiting, update, wake_con, inserting, System, Step, move, joined, set_flag, broadcast, start,
  Reach, here, step, IsInitial,
}
use operating_systems_and_sy.Spooler.Threads.Safety.{
  Setup, mutual_exclusion, fifo_order, null-drained,
}
use operating_systems_and_sy.Spooler.Threads.Progress.Stuck.{two_cv_goes_on}
use operating_systems_and_sy.Spooler.Threads.OneCv.{one_cv_goes_on}
use operating_systems_and_sy.Spooler.Threads.Progress.{total}
use operating_systems_and_sy.Spooler.Threads.Strings.{to_insert}
use operating_systems_and_sy.Spooler.Driver.Killed.{Killed, Killed-lost}
use operating_systems_and_sy.Spooler.Threads.LostWakeup.{alone, shutdown_missed}

abbrev storage : List ℕ
storage = 0 ∷ 0 ∷ []

abbrev threads : ℕ → Pc ℕ
threads zero = producing (7 ∷ [])
threads (suc zero) = consuming
threads (suc (suc i)) = absent

setup : Setup storage 2 threads
setup = record { some_room = omega arith; small = omega arith; fits = omega arith; threads = each }
  where
    each : (i : ℕ) → IsInitial (threads i)
    each zero = tt
    each (suc zero) = tt
    each (suc (suc i)) = tt

abbrev s0 : System ℕ
s0 = start storage 2 threads

abbrev s1 : System ℕ
s1 = record s0 { pc = update threads 0 (ins_lock 7 []) }

abbrev s2 : System ℕ
s2 = record s1 {
  mem = record (s1.mem) { buf_lock = some 0 };
  pc = update (s1.pc) 0 (ins_test 7 []);
}

abbrev s3 : Variant → System ℕ
s3 v = record s2 { mem = insert_step s2.mem 7; pc = update (s2.pc) 0 (after_insert v []) }

r2 : (v : Variant) → Reach v s0 s2
unfolding ℕ_discrete
r2 v = step (step here (move 0 call_insert)) (move 0 (ins_acquire refl))

r3 : (v : Variant) → Reach v s0 (s3 v)
unfolding ℕ_discrete spool_init_shared spool_full
r3 v = step (r2 v) (move 0 (ins_store refl))

mutual_exclusion_example : ◌≡◌ {A = ℕ} 0 0
unfolding ℕ_discrete
mutual_exclusion_example = mutual_exclusion setup (r3 two_cv) 0 0 refl refl

fifo_order_example :
    (q : List ℕ) × Represents (s3 two_cv).mem.spool q
    × ((s3 two_cv).mem.inserted ≡ (s3 two_cv).mem.removed ++ q)
fifo_order_example = fifo_order setup (r3 two_cv)

-- A consumer and no producer: the shutdown is flagged before the consumer takes the lock.
alone-Setup : Setup storage 2 (alone consuming)
alone-Setup = record {
  some_room = omega arith;
  small = omega arith;
  fits = omega arith;
  threads = each;
}
  where
    each : (i : ℕ) → IsInitial {A = ℕ} (alone consuming i)
    each zero = tt
    each (suc i) = tt

abbrev t0 : System ℕ
t0 = start storage 2 (alone consuming)

abbrev t1 : System ℕ
t1 = record {
  mem = record (t0.mem) { shutdown = true };
  pc = λ j. wake_con two_cv (alone consuming j);
  main = waiting;
}

none_inserts : (i : ℕ) → inserting (t0.pc i) ≡ false
none_inserts zero = refl
none_inserts (suc i) = refl

shut : Reach two_cv t0 t1
shut =
    step (step (step here (joined refl (λ e. cc e) none_inserts)) (set_flag refl)) (broadcast refl)

abbrev t2 : System ℕ
t2 = record t1 { pc = update (t1.pc) 0 rem_lock }

abbrev t3 : System ℕ
t3 = record t2 { mem = record (t2.mem) { buf_lock = some 0 }; pc = update (t2.pc) 0 rem_test }

abbrev t4 : System ℕ
t4 = record t3 {
  mem = remove_step t3.mem;
  pc = update (t3.pc) 0 (after_remove two_cv (spool_remove_unchecked t3.mem.spool).1);
}

got : Reach two_cv t0 t4
unfolding ℕ_discrete spool_init_shared spool_empty
got =
    step (step (step shut (move 0 call_remove)) (move 0 (rem_acquire refl)))
      (move 0 (rem_take refl))

null-drained_example :
    (t4.mem.shutdown ≡ true)
    × ((j : ℕ) → inserting (t4.pc j) ≡ false)
    × (t4.mem.inserted ≡ t4.mem.removed)
unfolding ℕ_discrete spool_init_shared spool_remove_unchecked spool_empty
null-drained_example = null-drained alone-Setup got 0 refl

shutdown_missed_example :
    (s : System ℕ) × Reach one_cv (start storage 2 (alone consuming)) s
    × (s.mem.shutdown ≡ true)
    × (s.mem.buf_lock ≡ none)
    × (s.main ≡ waiting)
    × (s.pc 0 ≡ rem_blocked)
    × ((t : System ℕ) → ¬ Step one_cv s t)
shutdown_missed_example = shutdown_missed one_cv (λ e. cc e) storage 2

threads-outside : (i : ℕ) → 2 ≤ i → threads i ≡ absent
threads-outside zero h = absurd (omega arith)
threads-outside (suc zero) h = absurd (omega arith)
threads-outside (suc (suc i)) h = refl

two_cv_goes_on_example : (t : System ℕ) × Step two_cv s2 t
unfolding ℕ_discrete
two_cv_goes_on_example =
    two_cv_goes_on storage 2 threads 2 1 setup threads-outside refl (r2 two_cv) 0 refl

one_cv_goes_on_example : (t : System ℕ) × Step one_cv s2 t
unfolding ℕ_discrete
one_cv_goes_on_example =
    one_cv_goes_on storage 2 threads 2 1 setup threads-outside refl (r2 one_cv) 0 refl

-- The producer has inserted its string and returned; the consumer has not started.
abbrev s4 : System ℕ
s4 = record (s3 safe) {
  mem = record ((s3 safe).mem) { buf_lock = none };
  pc = update ((s3 safe).pc) 0 (producing []);
}

s4-Killed : Killed safe s0 s4
unfolding ℕ_discrete insert_step
s4-Killed = record {
  reached = step (r3 safe) (move 0 ins_release);
  still_joining = refl;
  all_done = each;
}
  where
    each : (i : ℕ) → inserting (s4.pc i) ≡ false
    each zero = refl
    each (suc zero) = refl
    each (suc (suc i)) = ground arith

Killed-lost_example :
    (q : List ℕ) × (s4.mem.inserted ≡ s4.mem.removed ++ q)
    × (length q ≤ 2)
    × (length s4.mem.inserted ≡ total (to_insert (λ a. 1)) 2 threads)
Killed-lost_example = Killed-lost setup 2 threads-outside s4-Killed
