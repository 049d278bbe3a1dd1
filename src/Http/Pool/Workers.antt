-- ===== src/Http/Pool/Workers.antt =====
-- The threads of httpserver_pool.c: one that accepts connections and calls `dispatch`, and the workers,
-- each in the loop of `handle_clients`. A call of `wq_push` is one step, since it holds the mutex from
-- end to end; so is the part of `wq_pop` between two waits.
use operating_systems_and_sy.Prelude.{ℕ, ◌≡◌, List, [], ◌∷◌, ◌++◌, update}
use operating_systems_and_sy.Http.Pool.Queue.{
  DoublyLinked, Wq, Popped, waits, popped, crashes, wq_init, wq_pop, wq_push,
}

-- Where a worker stands in the loop of `handle_clients`.
pub data Worker : Type 0 where
  popping : Worker
  waiting : Worker
  handling : ℕ → Worker
  closing : ℕ → Worker
  crashed : Worker

-- `pthread_cond_broadcast` wakes each worker that waits.
abbrev pub wake : Worker → Worker
wake popping = popping
wake waiting = popping
wake (handling fd) = handling fd
wake (closing fd) = closing fd
wake crashed = crashed

-- The queue, the workers, the sockets that were dispatched, those that workers have taken, and those
-- that were closed, each in the order of time.
pub record Pool (dl : DoublyLinked) : Type 0 where
  pub work_queue : Wq dl
  pub workers : ℕ → Worker
  pub dispatched : List ℕ
  pub taken : List ℕ
  pub closed : List ℕ

module _ (dl : DoublyLinked) where
  -- `new_dispatcher`
  abbrev pub new_dispatcher : Pool dl
  new_dispatcher = record {
    work_queue = wq_init dl;
    workers = λ i. popping;
    dispatched = [];
    taken = [];
    closed = [];
  }

  -- `dispatch`, which is `wq_push`.
  abbrev pub dispatch : Pool dl → ℕ → Pool dl
  dispatch s fd = record {
    work_queue = wq_push dl s.work_queue fd;
    workers = λ i. wake (s.workers i);
    dispatched = s.dispatched ++ fd ∷ [];
    taken = s.taken;
    closed = s.closed;
  }

  -- What becomes of the pool when `wq_pop` of the i-th worker has run up to its end or to a wait.
  abbrev pub after_pop : Pool dl → ℕ → Popped dl → Pool dl
  after_pop s i waits = record {
    work_queue = s.work_queue;
    workers = update s.workers i waiting;
    dispatched = s.dispatched;
    taken = s.taken;
    closed = s.closed;
  }
  after_pop s i (popped fd wq) = record {
    work_queue = wq;
    workers = update s.workers i (handling fd);
    dispatched = s.dispatched;
    taken = s.taken ++ fd ∷ [];
    closed = s.closed;
  }
  after_pop s i crashes = record {
    work_queue = s.work_queue;
    workers = update s.workers i crashed;
    dispatched = s.dispatched;
    taken = s.taken;
    closed = s.closed;
  }

  abbrev pub set_worker : Pool dl → ℕ → Worker → Pool dl
  set_worker s i w = record {
    work_queue = s.work_queue;
    workers = update s.workers i w;
    dispatched = s.dispatched;
    taken = s.taken;
    closed = s.closed;
  }

  abbrev pub close_socket : Pool dl → ℕ → ℕ → Pool dl
  close_socket s i fd = record {
    work_queue = s.work_queue;
    workers = update s.workers i popping;
    dispatched = s.dispatched;
    taken = s.taken;
    closed = s.closed ++ fd ∷ [];
  }

  -- One step of the server; a wait may also end by itself.
  pub data Step (s : Pool dl) : Pool dl → Type 0 where
    accept : (fd : ℕ) → Step s (dispatch s fd)
    pop : (i : ℕ) → s.workers i ≡ popping → Step s (after_pop s i (wq_pop dl s.work_queue))
    wake_up : (i : ℕ) → s.workers i ≡ waiting → Step s (set_worker s i popping)
    handle : (i fd : ℕ) → s.workers i ≡ handling fd → Step s (set_worker s i (closing fd))
    close : (i fd : ℕ) → s.workers i ≡ closing fd → Step s (close_socket s i fd)

  pub data Reach : Pool dl → Type 0 where
    here : Reach new_dispatcher
    step : {s t : Pool dl} → Reach s → Step s t → Reach t
