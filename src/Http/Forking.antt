-- ===== src/Http/Forking.antt =====
-- The server with the dispatcher of httpserver_process.c: the accept loop of server.c, `dispatch`, and
-- the children, as a step relation.
pub mod Children
mod Tests
use operating_systems_and_sy.Prelude.{
  ℕ, ◌≡◌, ◌≤◌, Bool, true, false, Option, none, some, List, [], ◌∷◌, ◌++◌, length, ◌==◌,
  if◌then◌else◌,
}

-- Where the server stands: before `accept`, before `fork`, before `close`, and before each `waitpid`. The
-- option is the `cpid`, with none for -1.
pub data Place : Type 0 where
  accepting : Place
  forking : ℕ → Place
  closing : Option ℕ → ℕ → Place
  waiting : Option ℕ → Place
  reaping : Place

-- A child, with the socket that it serves and the sockets of clients that it has open.
pub record Child : Type 0 where
  pub pid : ℕ
  pub serves : ℕ
  pub has_open : List ℕ

-- `sockets` are the sockets of clients that the server has open; a child that has ended is in `zombies` until
-- a `waitpid` returns it.
pub record State : Type 0 where
  pub place : Place
  pub sockets : List ℕ
  pub running : List Child
  pub zombies : List ℕ

abbrev pub start : State
start = record { place = accepting; sockets = []; running = []; zombies = [] }

-- Takes out the first occurrence.
unfoldable pub without : ℕ → List ℕ → List ℕ
without n [] = []
without n (m ∷ ms) = let rest = without n ms in if m == n then ms else m ∷ rest

-- `waitpid(-1, NULL, WNOHANG)`: one of the zombies, if there is any, goes.
pub data Reaped (zombies left : List ℕ) : Type 0 where
  nobody : zombies ≡ [] → left ≡ [] → Reaped zombies left
  one :
      (before : List ℕ) (pid : ℕ) (after : List ℕ)
      → zombies ≡ before ++ pid ∷ after
      → left ≡ before ++ after
      → Reaped zombies left

-- `waitpid(cpid, NULL, WNOHANG)`
pub data Waited (zombies left : List ℕ) : Option ℕ → Type 0 where
  own : (pid : ℕ) → left ≡ without pid zombies → Waited zombies left (some pid)
  any : Reaped zombies left → Waited zombies left none

pub data Step (s : State) : State → Type 0 where
  accept :
      (fd : ℕ)
      → s.place ≡ accepting
      → Step s (record s { place = forking fd; sockets = fd ∷ s.sockets })
  fork_made :
      {fd : ℕ} (pid : ℕ)
      → s.place ≡ forking fd
      → Step s (record s {
        place = closing (some pid) fd;
        running = record { pid = pid; serves = fd; has_open = s.sockets } ∷ s.running;
      })
  fork_failed : {fd : ℕ} → s.place ≡ forking fd → Step s (record s { place = closing none fd })
  close_socket :
      {cpid : Option ℕ} {fd : ℕ}
      → s.place ≡ closing cpid fd
      → Step s (record s { place = waiting cpid; sockets = without fd s.sockets })
  wait_own :
      {cpid : Option ℕ} {left : List ℕ}
      → s.place ≡ waiting cpid
      → Waited s.zombies left cpid
      → Step s (record s { place = reaping; zombies = left })
  wait_any :
      {left : List ℕ}
      → s.place ≡ reaping
      → Reaped s.zombies left
      → Step s (record s { place = accepting; zombies = left })
  -- A child handles its request, closes its socket and ends.
  child_ends :
      (before : List Child) (child : Child) (after : List Child)
      → s.running ≡ before ++ child ∷ after
      → Step s (record s { running = before ++ after; zombies = child.pid ∷ s.zombies })

-- The states that are reached while at most `k` children run at a time.
pub data Reach (k : ℕ) : State → Type 0 where
  here : Reach k start
  step : {s t : State} → Reach k s → Step s t → length t.running ≤ k → Reach k t
