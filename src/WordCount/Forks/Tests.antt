-- ===== src/WordCount/Forks/Tests.antt =====
-- Two files, counted by two processes.
use operating_systems_and_sy.Prelude.{
  ℕ, zero, suc, ◌+◌, ◌<◌, ◌≡◌, ◌≢◌, refl, ap, ◌^◌, length, true, Option, none, some, List, [], ◌∷◌,
  if◌then◌else◌, arith,
}
use operating_systems_and_sy.CLib.{Text, codes, str_eq, strcmp}
use operating_systems_and_sy.WordCount.Pintos.Plain.{plain_lists}
use operating_systems_and_sy.WordCount.Program
use operating_systems_and_sy.WordCount.Forks.{Fds, shut, Kernel, exited, hung, main_f}
use operating_systems_and_sy.WordCount.Forks.Ends.{Consecutive}
use operating_systems_and_sy.WordCount.Forks.Same.{Serves, AreSmall, fwords-words}
use operating_systems_and_sy.WordCount.Forks.Hang.{Apart, fwords-hangs}

abbrev files : Text → Option (List ℕ)
files name =
    if str_eq name (codes "a")
    then some (codes "to be")
    else if str_eq name (codes "b")
    then some (codes "To do")
    else none

abbrev names : List Text
names = codes "a" ∷ codes "b" ∷ []

-- The lowest descriptors that are free, in a process that has the standard three.
abbrev lowest : Kernel
lowest = record {
  pipe = λ t. (t + 3, t + 4);
  fork = λ t. true;
  fdopen = λ t. true;
  grant = λ t n. true;
}

lowest-Consecutive : Consecutive lowest
lowest-Consecutive = record {
  above = λ t. omega arith;
  not_read = λ t u lt e. omega arith;
  not_written = λ t u lt e. omega arith;
}

lowest-Serves : Serves lowest
lowest-Serves = record {
  forks = λ t. refl;
  opens = λ t. refl;
  grants = λ t n. refl;
  consecutive = lowest-Consecutive;
}

abbrev at_start : Fds
at_start n = shut

names-AreSmall : AreSmall files names
unfolding str_eq strcmp
names-AreSmall = ((codes "to be", refl, omega arith), ((codes "To do", refl, omega arith), tt))

fwords-words_example :
    (out : Text) × (main_f plain_lists lowest files names [] at_start ≡ exited 0 out)
    × (Program.main (λ n. true) files names [] ≡ Program.exited 0 out)
fwords-words_example =
    fwords-words plain_lists lowest files lowest-Serves (λ n. true) (λ n. refl) (codes "a")
      (codes "b" ∷ []) [] at_start names-AreSmall

-- Descriptor 4 is taken from the start, so the first pipe has 3 and 5.
abbrev with_gap : Kernel
with_gap = record lowest { pipe = λ t. elim t [ zero ↦ (3, 5) | suc n ↦ (n + 6, n + 7) ] }

with_gap-Apart : Apart with_gap
with_gap-Apart = record {
  gap = λ e. omega arith;
  two_ends = λ e. omega arith;
  reading = later 3 (omega arith);
  writing = later 5 (omega arith);
}
  where
    later :
        (k : ℕ)
        → k < 6
        → (u : ℕ) → 0 < u
        → (k ≢ (with_gap.pipe u).0) × (k ≢ (with_gap.pipe u).1) × (k ≢ suc (with_gap.pipe u).0)
    later k small zero pos = absurd (omega arith)
    later k small (suc n) pos = (λ e. omega arith, λ e. omega arith, λ e. omega arith)

abbrev bytes_of : Option (List ℕ) → ℕ
bytes_of none = 0
bytes_of (some s) = length s

a_small : (s : List ℕ) → files (codes "a") ≡ some s → length s < 10 ^ 8
unfolding str_eq strcmp
a_small s e = omega (arith, ap bytes_of e)

fwords-hangs_example : main_f plain_lists with_gap files names [] at_start ≡ hung
unfolding str_eq strcmp
fwords-hangs_example =
    fwords-hangs with_gap with_gap-Apart plain_lists files (codes "a") (codes "b" ∷ []) [] at_start
      (λ n. refl) a_small
