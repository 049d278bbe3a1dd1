-- ===== src/Http/Pool/Served.antt =====
-- What holds in every state of the pool.
use operating_systems_and_sy.Prelude.{
  ℕ, ◌<◌, ◌^◌, ◌≡◌, ◌≢◌, sym, ◌∙◌, ap, ◌⊎◌, inl, inr, [], ◌∷◌, ◌++◌, append_assoc, length, arith,
  update, ℕ_discrete,
}
use mathlib.Core.Path.{subst}
use operating_systems_and_sy.Http.Pool.Queue.{
  DoublyLinked, Popped, waits, popped, crashes, wq_pop, IsCounted, init-IsCounted, push-items, Pops,
  nothing, oldest, wq_pop-Pops,
}
use operating_systems_and_sy.Http.Pool.Workers.{
  Worker, popping, waiting, handling, closing, crashed, wake, Pool, dispatch, after_pop, set_worker,
  Step, accept, pop, wake_up, handle, close, Reach, here, step,
}

not_waiting : (w : Worker) → wake w ≢ waiting
not_waiting popping e = cc e
not_waiting waiting e = cc e
not_waiting (handling fd) e = cc e
not_waiting (closing fd) e = cc e
not_waiting crashed e = cc e

still_alive : (w : Worker) → w ≢ crashed → wake w ≢ crashed
still_alive popping h e = cc e
still_alive waiting h e = cc e
still_alive (handling fd) h e = cc e
still_alive (closing fd) h e = cc e
still_alive crashed h e = h e

-- A worker of the changed table is the one that was set, or an old one.
update_cases :
    (f : ℕ → Worker) (i j : ℕ) (w : Worker) → (update f i w j ≡ w) ⊎ (update f i w j ≡ f j)
update_cases f i j w = elim (ℕ_discrete i j) [
  | yes same ↦ inl (ground arith)
  | no differ ↦ inr (ground arith)
]

others :
    (P : Worker → Type 0) (f : ℕ → Worker) (i : ℕ) (w : Worker)
    → P w
    → ((j : ℕ) → P (f j))
    → (j : ℕ) → P (update f i w j)
others P f i w h old j = elim (update_cases f i j w) [
  | inl e ↦ subst P (sym e) h
  | inr e ↦ subst P (sym e) (old j)
]

module _ {dl : DoublyLinked} where
  -- The count is right, the sockets that were taken and those that wait are those that were
  -- dispatched, in order, a worker sleeps only while the count is 0, and none has crashed.
  pub record Inv (s : Pool dl) : Type 0 where
    pub counted : IsCounted dl s.work_queue
    pub in_order : s.dispatched ≡ s.taken ++ dl.items s.work_queue.head
    pub asleep : (i : ℕ) → s.workers i ≡ waiting → s.work_queue.size ≡ 0
    pub alive : (i : ℕ) → s.workers i ≢ crashed

  dispatch-Inv : (s : Pool dl) (fd : ℕ) → Inv s → Inv (dispatch dl s fd)
  dispatch-Inv s fd inv =
      let (counted, items) = push-items dl s.work_queue fd inv.counted in
      record {
        counted = counted;
        in_order =
            ap (λ l. l ++ fd ∷ []) inv.in_order
            ∙ append_assoc s.taken (dl.items s.work_queue.head) (fd ∷ [])
            ∙ ap (λ l. s.taken ++ l) (sym items);
        asleep = λ i e. absurd (not_waiting (s.workers i) e);
        alive = λ i. still_alive (s.workers i) (inv.alive i);
      }

  pop-Inv :
      (s : Pool dl) (i : ℕ) (r : Popped dl)
      → Pops dl s.work_queue r
      → Inv s
      → Inv (after_pop dl s i r)
  pop-Inv s i waits (nothing e) inv = record {
    counted = inv.counted;
    in_order = inv.in_order;
    asleep = λ j h. e;
    alive = others (λ w. w ≢ crashed) s.workers i waiting (λ e. cc e) inv.alive;
  }
  pop-Inv s i (popped fd after) (oldest _ rest _ pos e left counted) inv = record {
    counted = counted;
    in_order =
        inv.in_order
        ∙ ap (λ l. s.taken ++ l) (e ∙ ap (λ l. fd ∷ l) (sym left))
        ∙ sym (append_assoc s.taken (fd ∷ []) (dl.items after.head));
    asleep =
        others (λ w. w ≡ waiting → after.size ≡ 0) s.workers i (handling fd) (λ e. absurd (cc e))
          (λ j h. absurd (omega (arith, inv.asleep j h, pos)));
    alive = others (λ w. w ≢ crashed) s.workers i (handling fd) (λ e. cc e) inv.alive;
  }
  pop-Inv s i crashes pops inv = elim pops [ ]

  set_worker-Inv :
      (s : Pool dl) (i : ℕ) (w : Worker)
      → w ≢ waiting
      → w ≢ crashed
      → Inv s
      → Inv (set_worker dl s i w)
  set_worker-Inv s i w awake fine inv = record {
    counted = inv.counted;
    in_order = inv.in_order;
    asleep =
        others (λ w. w ≡ waiting → s.work_queue.size ≡ 0) s.workers i w (λ e. absurd (awake e))
          inv.asleep;
    alive = others (λ w. w ≢ crashed) s.workers i w fine inv.alive;
  }

  Step-Inv : {s t : Pool dl} → Step dl s t → Inv s → Inv t
  Step-Inv {s = s} (accept fd) inv = dispatch-Inv s fd inv
  Step-Inv {s = s} (pop i h) inv =
      pop-Inv s i (wq_pop dl s.work_queue) (wq_pop-Pops dl s.work_queue inv.counted) inv
  Step-Inv {s = s} (wake_up i h) inv = set_worker-Inv s i popping (λ e. cc e) (λ e. cc e) inv
  Step-Inv {s = s} (handle i fd h) inv = set_worker-Inv s i (closing fd) (λ e. cc e) (λ e. cc e) inv
  Step-Inv {s = s} (close i fd h) inv =
      let set = set_worker-Inv s i popping (λ e. cc e) (λ e. cc e) inv in
      record {
        counted = set.counted;
        in_order = set.in_order;
        asleep = set.asleep;
        alive = set.alive;
      }

  Reach-Inv : {s : Pool dl} → Reach dl s → Inv s
  Reach-Inv here =
      let (counted, items) = init-IsCounted dl in
      record {
        counted = counted;
        in_order = sym items;
        asleep = λ i e. absurd (cc e);
        alive = λ i e. cc e;
      }
  Reach-Inv (step r s) = Step-Inv s (Reach-Inv r)

  -- In every reachable state of the pool, the sockets that were dispatched are, in order, those that
  -- workers have taken followed by those in the queue.
  pub taken-in_order :
      {s : Pool dl} → Reach dl s → s.dispatched ≡ s.taken ++ dl.items s.work_queue.head
  taken-in_order r = (Reach-Inv r).in_order

  -- In every reachable state of the pool with less than 2^32 sockets in the queue, a worker that sleeps in `wq_pop` sees an empty queue: no
  -- wake-up is lost.
  pub sleeps-empty :
      {s : Pool dl} (i : ℕ)
      → Reach dl s
      → s.workers i ≡ waiting
      → length (dl.items s.work_queue.head) < 2 ^ 32
      → length (dl.items s.work_queue.head) ≡ 0
  sleeps-empty i r asleep few =
      let inv = Reach-Inv r in omega (arith, inv.counted, inv.asleep i asleep, few)

  -- In no reachable state of the pool has a worker read through the NULL head of an empty queue.
  pub worker-alive : {s : Pool dl} (i : ℕ) → Reach dl s → s.workers i ≢ crashed
  worker-alive i r = (Reach-Inv r).alive i
