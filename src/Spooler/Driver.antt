-- ===== src/Spooler/Driver.antt =====
-- The command line of Spooler/main.c and of main_killed.c, the threads that `run_threads` creates, and
-- the strings of producer.c.
pub mod Created
pub mod Killed
pub mod Delivered
mod Tests
use operating_systems_and_sy.Prelude.{
  ℕ, zero, suc, ◌+◌, ◌-◌, ◌^◌, ◌≡◌, Bool, true, false, ◌&&◌, Option, none, some, List, [], ◌∷◌,
  ◌++◌, ltb, leb, if◌then◌else◌,
}
use operating_systems_and_sy.CLib.{Text, codes}
use operating_systems_and_sy.CLib.Decimal.{decimal}
use operating_systems_and_sy.CLib.Atoi.{atoi}
use operating_systems_and_sy.Spooler.Threads.Thread.{Pc, producing, consuming, absent}

-- `main` prints its usage or a message, or calls `run_threads` with the numbers of producers, consumers,
-- strings and slots, each an `int` as a bit pattern.
pub data Driven : Type 0 where
  usage : Driven
  too_small : Driven
  runs : (nprods ncons nstrs nentries : ℕ) → Driven

-- `nentries < 2` on an `int`
unfoldable pub below_two : ℕ → Bool
below_two n = if ltb n (2 ^ 31) then ltb n 2 else true

unfoldable pub with_entries : Text → Text → Text → ℕ → Driven
with_entries p c n nentries =
    if below_two nentries then too_small else runs (atoi p) (atoi c) (atoi n) nentries

-- The arguments behind `argv[0]`.
unfoldable pub main : List Text → Driven
main [] = usage
main (p ∷ []) = usage
main (p ∷ c ∷ []) = usage
main (p ∷ c ∷ n ∷ []) = with_entries p c n 4
main (p ∷ c ∷ n ∷ e ∷ more) = with_entries p c n (atoi e)

-- How often a loop from 0 up to an `int` runs.
unfoldable pub rounds : ℕ → ℕ
rounds n = if ltb n (2 ^ 31) then n else 0

-- What `%d` writes for an `int`.
unfoldable pub print_id : ℕ → Text
print_id n = if ltb n (2 ^ 31) then decimal n else b'-' ∷ decimal (2 ^ 32 - n)

-- The strings of the producer `prod_id`, from the n-th on.
unfoldable pub strings_from : ℕ → ℕ → ℕ → List Text
strings_from prod_id n zero = []
strings_from prod_id n (suc left) =
    (codes "Prod " ++ (print_id prod_id ++ (codes " String " ++ print_id n)))
    ∷ strings_from prod_id (suc n) left

unfoldable pub producer : ℕ → ℕ → List Text
producer prod_id nstrs = strings_from prod_id 0 (rounds nstrs)

-- The threads by their `tid`: the producers first.
unfoldable pub run_threads : ℕ → ℕ → ℕ → ℕ → Pc Text
run_threads nprods ncons nstrs tid =
    if ltb tid (rounds nprods)
    then producing (producer tid nstrs)
    else if ltb tid (rounds nprods + rounds ncons)
    then consuming
    else absent
