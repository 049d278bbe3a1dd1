-- ===== src/Spooler/Driver/Tests.antt =====
-- Two producers, one consumer, three strings and four slots.
use mathlib.Core.Path.{fun_ext, subst}
use operating_systems_and_sy.Prelude.{
  ℕ, zero, suc, ◌≡◌, ◌≢◌, refl, sym, if◌then◌else◌, false, true, none, some, List, [], ◌∷◌, update,
  ℕ_discrete, arith,
}
use operating_systems_and_sy.Spooler.Ring.{
  spool_init_shared, spool_full, spool_empty, spool_insert_unchecked, spool_remove_unchecked,
}
use operating_systems_and_sy.Spooler.Threads.Thread.{
  Shared, two_cv, Cv, con, pro, Pc, producing, consuming, absent, ins_lock, ins_test, ins_signal,
  ins_unlock, rem_lock, rem_test, rem_signal, rem_unlock, call_insert, ins_acquire, ins_store,
  ins_release, call_remove, rem_acquire, rem_take, rem_release, insert_step, remove_step,
}
use operating_systems_and_sy.Spooler.Threads.System.{
  joining, blocked_on, inserting, System, move, signal_none, joined, set_flag, broadcast, Reach,
  here, step, start,
}
use operating_systems_and_sy.CLib.{Text, codes, isspace, str_eq}
use operating_systems_and_sy.CLib.Decimal.{decimal, isdigit, value_from}
use operating_systems_and_sy.CLib.Atoi.{atoi, after_spaces, signed, leading_digits}
use operating_systems_and_sy.Spooler.Driver.{
  main, with_entries, below_two, runs, run_threads, rounds, producer, strings_from, print_id,
}
use operating_systems_and_sy.Spooler.Driver.Created.{main-Setup}
use operating_systems_and_sy.Spooler.Threads.Safety.{Setup}
use operating_systems_and_sy.Spooler.Threads.Invariant.{got_null}
use operating_systems_and_sy.Spooler.Threads.Progress.{total}
use operating_systems_and_sy.Spooler.Threads.Strings.{weigh}
use operating_systems_and_sy.Spooler.Driver.Delivered.{main_delivers}

started : main (codes "2" ∷ codes "1" ∷ codes "3" ∷ []) ≡ runs 2 1 3 4
unfolding main with_entries below_two atoi after_spaces signed leading_digits isdigit isspace
    value_from
started = refl

abbrev storage : List Text
storage = [] ∷ [] ∷ [] ∷ [] ∷ []

two_and_one : Setup storage 4 (run_threads 2 1 3)
two_and_one = main-Setup (codes "2" ∷ codes "1" ∷ codes "3" ∷ []) 2 1 3 4 storage started refl

-- One producer with one string, and one consumer.
one_each : main (codes "1" ∷ codes "1" ∷ codes "1" ∷ []) ≡ runs 1 1 1 4
unfolding main with_entries below_two atoi after_spaces signed leading_digits isdigit isspace
    value_from
one_each = refl

abbrev the_string : Text
the_string = codes "Prod 0 String 0"

abbrev threads : ℕ → Pc Text
threads zero = producing (the_string ∷ [])
threads (suc zero) = consuming
threads (suc (suc i)) = absent

threads_are : run_threads 1 1 1 ≡ threads
unfolding run_threads rounds producer strings_from print_id decimal
threads_are = fun_ext each
  where
    each : (i : ℕ) → run_threads 1 1 1 i ≡ threads i
    each zero = refl
    each (suc zero) = refl
    each (suc (suc i)) = ground arith

abbrev begun : System Text
begun = start storage 4 threads

awake : {c : Cv} (p : Pc Text) → blocked_on two_cv p ≡ none → blocked_on two_cv p ≢ some c
awake p e f = cc

-- Before the producer's signal, and when it has returned.
abbrev signalling : ℕ → Pc Text
signalling =
    update (update (update threads 0 (ins_lock the_string [])) 0 (ins_test the_string [])) 0
      (ins_signal [])

abbrev returned : ℕ → Pc Text
returned = update (update signalling 0 (ins_unlock [])) 0 (producing [])

-- Before the consumer's signal, and when it is at the head of its loop again.
abbrev taking : ℕ → Pc Text
taking = update (update (update returned 1 rem_lock) 1 rem_test) 1 (rem_signal (some the_string))

abbrev again : ℕ → Pc Text
again = update (update taking 1 (rem_unlock (some the_string))) 1 consuming

none_waits : (j : ℕ) → blocked_on two_cv (signalling j) ≢ some con
unfolding ℕ_discrete
none_waits zero = awake (signalling zero) refl
none_waits (suc zero) = awake (signalling 1) refl
none_waits (suc (suc j)) = awake (signalling (suc (suc j))) (ground arith)

none_waits_on_pro : (j : ℕ) → blocked_on two_cv (taking j) ≢ some pro
unfolding ℕ_discrete
none_waits_on_pro zero = awake (taking zero) refl
none_waits_on_pro (suc zero) = awake (taking 1) refl
none_waits_on_pro (suc (suc j)) = awake (taking (suc (suc j))) (ground arith)

none_inserts : (j : ℕ) → inserting (again j) ≡ false
unfolding ℕ_discrete
none_inserts zero = refl
none_inserts (suc zero) = refl
none_inserts (suc (suc j)) = ground arith

stored : (m : Shared Text) × Reach two_cv begun (record { mem = m; pc = returned; main = joining })
unfolding ℕ_discrete spool_init_shared spool_full insert_step
stored = (
  _,
  step
      (step
        (step (step (step here (move 0 call_insert)) (move 0 (ins_acquire refl)))
          (move 0 (ins_store refl)))
        (signal_none 0 refl none_waits))
      (move 0 ins_release),
)

drained : (s : System Text) × Reach two_cv begun s × (got_null (s.pc 1) ≡ true)
unfolding stored ℕ_discrete spool_init_shared spool_full spool_empty insert_step remove_step
    spool_insert_unchecked spool_remove_unchecked
drained = (
  _,
  step
      (step
        (step
          (step
            (step
              (step
                (step
                  (step
                    (step (step (step stored.1 (move 1 call_remove)) (move 1 (rem_acquire refl)))
                      (move 1 (rem_take refl)))
                    (signal_none 1 refl none_waits_on_pro))
                  (move 1 rem_release))
                (joined refl (λ e. cc e) none_inserts))
              (set_flag refl))
            (broadcast refl))
          (move 1 call_remove))
        (move 1 (rem_acquire refl)))
      (move 1 (rem_take refl)),
  refl,
)

-- How often the string was removed.
abbrev is_it : Text → ℕ
is_it w = if str_eq w the_string then 1 else 0

main_delivers_example :
    (drained.0.mem.removed ≡ drained.0.mem.inserted)
    × (weigh is_it drained.0.mem.removed ≡ total (weigh is_it) (rounds 1) (λ tid. producer tid 1))
main_delivers_example =
    main_delivers two_cv (codes "1" ∷ codes "1" ∷ codes "1" ∷ []) 1 1 1 4 storage one_each refl
      (subst (λ (f : ℕ → Pc Text). Reach two_cv (start storage 4 f) drained.0) (sym threads_are)
        drained.1)
      1 drained.2 is_it
