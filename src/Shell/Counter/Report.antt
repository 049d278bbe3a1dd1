-- ===== src/Shell/Counter/Report.antt =====
-- threads.c: the command line, and the smallest and the largest count of a thread.
pub mod Bounds
use operating_systems_and_sy.Prelude.{
  ℕ, zero, suc, ◌+◌, ◌<◌, ◌≤◌, ◌≡◌, Bool, true, false, List, [], ◌∷◌, ltb, if◌then◌else◌,
}
use operating_systems_and_sy.CLib.{Text, codes, str_eq}
use operating_systems_and_sy.CLib.Atoi.{atoi}

-- `main` prints its usage or a message, or starts `nthreads` threads that count to `global_limit`.
pub data Counting : Type 0 where
  usage : Counting
  bad_watch : Counting
  counts : (nthreads global_limit : ℕ) → (watch : Bool) → Counting

-- The arguments behind `argv[0]`.
unfoldable pub main : List Text → Counting
main (t ∷ c ∷ w ∷ []) =
    if str_eq w (codes "True")
    then counts (atoi t) (atoi c) true
    else if str_eq w (codes "False")
    then counts (atoi t) (atoi c) false
    else bad_watch
main _ = usage

-- The loop over the counts, which are not negative.
unfoldable pub min_loop : ℕ → List ℕ → ℕ
min_loop min_count [] = min_count
min_loop min_count (c ∷ rest) = min_loop (if ltb min_count c then min_count else c) rest

unfoldable pub max_loop : ℕ → List ℕ → ℕ
max_loop max_count [] = max_count
max_loop max_count (c ∷ rest) = max_loop (if ltb c max_count then max_count else c) rest

-- `min_count` and `max_count`, from the first thread's count on; the first is compared with itself too.
unfoldable pub fairness : ℕ → List ℕ → ℕ × ℕ
fairness first rest = (min_loop first (first ∷ rest), max_loop first (first ∷ rest))
