-- ===== src/Spooler/Driver/Created.antt =====
-- What the driver starts is a setup of the threads.
use operating_systems_and_sy.Prelude.{
  ℕ, ◌+◌, ◌^◌, ◌<◌, ◌≡◌, refl, List, [], ◌∷◌, length, ltb, Bool-cases, inl, inr, arith,
}
use operating_systems_and_sy.CLib.{Text}
use operating_systems_and_sy.CLib.Atoi.{atoi}
use operating_systems_and_sy.Spooler.Threads.System.{IsInitial}
use operating_systems_and_sy.Spooler.Threads.Safety.{Setup}
use operating_systems_and_sy.Spooler.Driver.{
  Driven, usage, too_small, runs, below_two, with_entries, main, rounds, run_threads,
}

threads_start : (p c n tid : ℕ) → IsInitial (run_threads p c n tid)
unfolding run_threads
threads_start p c n tid = elim (Bool-cases (ltb tid (rounds p))) [
  | inl e ↦ rw (e, IsInitial) tt
  | inr e ↦ elim (Bool-cases (ltb tid (rounds p + rounds c))) [
    | inl f ↦ rw (e, f, IsInitial) tt
    | inr f ↦ rw (e, f, IsInitial) tt
  ]
]

entries_of : Driven → ℕ
entries_of (runs p c n e) = e
entries_of d = 2

enough_entries :
    (p c n : Text) (e : ℕ) (d : Driven)
    → with_entries p c n e ≡ d
    → (1 < entries_of d) × (entries_of d < 2 ^ 31)
unfolding with_entries below_two entries_of
enough_entries p c n e usage h = (omega arith, omega arith)
enough_entries p c n e too_small h = (omega arith, omega arith)
enough_entries p c n e (runs a b k m) h = ground arith

main_entries : (args : List Text) → (1 < entries_of (main args)) × (entries_of (main args) < 2 ^ 31)
unfolding main
main_entries [] = unfold entries_of in (omega arith, omega arith)
main_entries (p ∷ []) = unfold entries_of in (omega arith, omega arith)
main_entries (p ∷ c ∷ []) = unfold entries_of in (omega arith, omega arith)
main_entries (p ∷ c ∷ n ∷ []) = enough_entries p c n 4 (with_entries p c n 4) refl
main_entries (p ∷ c ∷ n ∷ e ∷ more) =
    enough_entries p c n (atoi e) (with_entries p c n (atoi e)) refl

-- Whenever `main` calls `run_threads`, on a buffer with room for the slots, the spooler and the threads
-- that it creates are a setup of the threads, from which the safety of the spooler follows.
pub main-Setup :
    (args : List Text) (p c n e : ℕ) (storage : List Text)
    → main args ≡ runs p c n e
    → length storage ≡ e
    → Setup storage e (run_threads p c n)
main-Setup args p c n e storage h room =
    let (low, high) : (1 < e) × (e < 2 ^ 31) = bounds in
    record {
      some_room = omega (arith, low);
      small = omega (arith, high);
      fits = omega (arith, room);
      threads = threads_start p c n;
    }
  where
    bounds : (1 < e) × (e < 2 ^ 31)
    bounds = unfold entries_of in rw h at (main_entries args)
