-- ===== src/Shell/Counter.antt =====
-- threads.c: threads that count up to a limit together. The test of the loop reads the count without
-- the lock.
pub mod Limit
pub mod Report
mod Tests
use operating_systems_and_sy.Prelude.{
  ℕ, zero, suc, ◌+◌, ◌%◌, ◌^◌, ◌<◌, ◌≤◌, ◌≡◌, List, [], ◌∷◌, Option, none, some, get_elem?, set,
}

-- Where a thread stands in `threadfun`.
pub data Place : Type 0 where
  testing : Place  -- at `while (global_count < global_limit)`
  locking : Place  -- before pthread_mutex_lock
  counting : Place  -- with the lock, before the two increments
  unlocking : Place  -- before pthread_mutex_unlock
  finished : Place

-- `TWork`
pub record TWork : Type 0 where
  pub place : Place
  pub count : ℕ

-- Who has `count_lock`: the main thread takes it before it creates the others.
pub data Owner : Type 0 where
  unlocked : Owner
  by_main : Owner
  by_thread : ℕ → Owner

pub record Counter : Type 0 where
  pub count_lock : Owner
  pub global_count : ℕ
  pub threads : List TWork

abbrev pub work : Place → ℕ → TWork
work p n = record { place = p; count = n }

-- `n` threads at the beginning of `threadfun`.
abbrev pub created : ℕ → List TWork
created zero = []
created (suc n) = work testing 0 ∷ created n

abbrev pub start : ℕ → Counter
start n = record { count_lock = by_main; global_count = 0; threads = created n }

-- The thread `i` goes on to `p`.
abbrev pub goes : Counter → ℕ → Owner → Place → ℕ → Counter
goes s i lock p n = record s { count_lock = lock; threads = set s.threads i (work p n) }

-- One step of a thread, or the unlock in `main`; `limit` is `global_limit`.
pub data Step (limit : ℕ) (s : Counter) : Counter → Type 0 where
  go : s.count_lock ≡ by_main → Step limit s (record s { count_lock = unlocked })
  below :
      (i n : ℕ)
      → get_elem? s.threads i ≡ some (work testing n)
      → s.global_count < limit
      → Step limit s (goes s i s.count_lock locking n)
  reached :
      (i n : ℕ)
      → get_elem? s.threads i ≡ some (work testing n)
      → limit ≤ s.global_count
      → Step limit s (goes s i s.count_lock finished n)
  lock :
      (i n : ℕ)
      → get_elem? s.threads i ≡ some (work locking n)
      → s.count_lock ≡ unlocked
      → Step limit s (goes s i (by_thread i) counting n)
  increment :
      (i n : ℕ)
      → get_elem? s.threads i ≡ some (work counting n)
      → Step limit s (record (goes s i s.count_lock unlocking ((n + 1) % 2 ^ 32)) {
        global_count = (s.global_count + 1) % 2 ^ 64;
      })
  unlock :
      (i n : ℕ)
      → get_elem? s.threads i ≡ some (work unlocking n)
      → Step limit s (goes s i unlocked testing n)

pub data Reach (limit n : ℕ) : Counter → Type 0 where
  here : Reach limit n (start n)
  step : {s t : Counter} → Reach limit n s → Step limit s t → Reach limit n t
