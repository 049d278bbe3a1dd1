-- ===== src/Spooler/Driver/Delivered.antt =====
-- main.c from its command line to the consumers: what the producers make is what the consumers get.
use operating_systems_and_sy.Prelude.{
  ℕ, zero, suc, ◌+◌, ◌<◌, ◌≤◌, ◌≡◌, refl, sym, ◌∙◌, ap, true, List, length, arith,
}
use operating_systems_and_sy.CLib.{Text}
use operating_systems_and_sy.Spooler.Ring.{spool_init_shared}
use operating_systems_and_sy.Spooler.Threads.Thread.{Variant, absent, producing}
use operating_systems_and_sy.Spooler.Threads.System.{System, Reach, start}
use operating_systems_and_sy.Spooler.Threads.Invariant.{got_null}
use operating_systems_and_sy.Spooler.Threads.Safety.{null-drained}
use operating_systems_and_sy.Spooler.Threads.Progress.{total, total_zero}
use operating_systems_and_sy.Spooler.Threads.Strings.{
  weigh, to_insert, done-to_insert, Counts, Reach-Counts,
}
use operating_systems_and_sy.Spooler.Driver.{runs, main, rounds, producer, run_threads}
use operating_systems_and_sy.Spooler.Driver.Created.{main-Setup}

module _ (g : Text → ℕ) (p c n : ℕ) where
  at_producer : (i : ℕ) → i < rounds p → run_threads p c n i ≡ producing (producer i n)
  unfolding run_threads
  at_producer i h = ground arith

  at_other : (i : ℕ) → rounds p ≤ i → to_insert g (run_threads p c n i) ≡ 0
  unfolding run_threads
  at_other i h = ground arith

  outside : (i : ℕ) → rounds p + rounds c ≤ i → run_threads p c n i ≡ absent
  unfolding run_threads
  outside i h = ground arith

  abbrev made : ℕ → ℕ
  made k = total (weigh g) k (λ i. producer i n)

  first_threads : (k : ℕ) → k ≤ rounds p → total (to_insert g) k (run_threads p c n) ≡ made k
  unfolding total
  first_threads zero h = refl
  first_threads (suc k) h =
      omega (arith, ap (to_insert g) (at_producer k (omega arith)), first_threads k (omega arith))

  all_threads : (k : ℕ) → total (to_insert g) (rounds p + k) (run_threads p c n) ≡ made (rounds p)
  unfolding total
  all_threads zero =
      ap (λ (j : ℕ). total (to_insert g) j (run_threads p c n)) (omega arith)
      ∙ first_threads (rounds p) (omega arith)
  all_threads (suc k) =
      ap (λ (j : ℕ). total (to_insert g) j (run_threads p c n)) whole
      ∙ omega (arith, at_other (rounds p + k) (omega arith), all_threads k)
    where
      whole : rounds p + suc k ≡ suc (rounds p + k)
      whole = omega arith

-- In a run of main.c that its command line has started, on a buffer with room for the slots: once a
-- consumer has got NULL, the consumers have removed all strings in the order of insertion, and for every
-- weight of strings, what was removed weighs as much as what the producers make, so that
-- each string is removed as often as the producers make it.
pub main_delivers :
    (v : Variant) (args : List Text) (p c n e : ℕ) (storage : List Text)
    → main args ≡ runs p c n e
    → length storage ≡ e
    → {s : System Text} → Reach v (start storage e (run_threads p c n)) s
    → (i : ℕ) → got_null (s.pc i) ≡ true
    → (g : Text → ℕ)
    → (s.mem.removed ≡ s.mem.inserted)
      × (weigh g s.mem.removed ≡ total (weigh g) (rounds p) (λ tid. producer tid n))
unfolding spool_init_shared weigh
main_delivers v args p c n e storage h room {s} r i null g =
    let setup = main-Setup args p c n e storage h room in
    let (flag, done, same) = null-drained setup r i null in
    let first : Counts g (rounds p + rounds c)
        (total (to_insert g) (rounds p + rounds c) (run_threads p c n)) e
        (start storage e (run_threads p c n)).mem (run_threads p c n) =
      record { outside = outside g p c n; sum = omega arith; size = refl } in
    let counts = Reach-Counts g v r first in
    (
      sym same,
      omega (
        arith,
        ap (weigh g) same,
        counts.sum,
        all_threads g p c n (rounds c),
        total_zero (to_insert g) (rounds p + rounds c) s.pc
            (λ j. done-to_insert g (s.pc j) (done j)),
      ),
    )
