-- ===== src/Spooler/Threads/Strings.antt =====
-- No string is lost or made up: what was inserted and what the producers have left is what they had.
use operating_systems_and_sy.Prelude.{
  ℕ, false, Option, ◌+◌, ◌<◌, ◌≤◌, ◌≡◌, ◌≢◌, refl, ◌∙◌, none, some, List, [], ◌∷◌, ◌++◌, length,
  update, ℕ_discrete, dec_lt, arith,
}
use operating_systems_and_sy.Spooler.Ring.{spool_insert_unchecked, spool_remove_unchecked}
use operating_systems_and_sy.Spooler.Threads.Thread.{
  Variant, safe, two_cv, Cv, Shared, Pc, producing, ins_lock, ins_test, ins_retry, ins_wake,
  ins_wait, ins_blocked, ins_woken, ins_signal, ins_unlock, rem_blocked, absent, Move, call_insert,
  ins_full, ins_store, rem_empty, rem_take, rem_release, rem_wake, rem_signal, on_full, on_empty,
  after_insert, after_remove, insert_step, remove_step,
}
use operating_systems_and_sy.Spooler.Threads.System.{
  inserting, signals, blocked_on, wake, wake_con, System, Step, move, signal, signal_none, joined,
  set_flag, broadcast, wake_up, Reach, here, step, spurious,
}
use operating_systems_and_sy.Spooler.Threads.Invariant.{other}
use operating_systems_and_sy.Spooler.Threads.Progress.{total, total-update, total_same, Move-absent}

-- The weights of the strings of a list together: with 1 for the strings that pass a test and 0 for the
-- others, how many pass it.
unfoldable pub weigh {ℓ} : {A : Type ℓ} → (A → ℕ) → List A → ℕ
weigh g [] = 0
weigh g (a ∷ l) = g a + weigh g l

pub weigh-append {ℓ} :
    {A : Type ℓ} (g : A → ℕ) (l l' : List A) → weigh g (l ++ l') ≡ weigh g l + weigh g l'
unfolding weigh
weigh-append g [] l' = omega arith
weigh-append g (a ∷ l) l' = omega (arith, weigh-append g l l')

pub weigh-length {ℓ} : {A : Type ℓ} (l : List A) → weigh (λ a. 1) l ≡ length l
unfolding weigh
weigh-length [] = refl
weigh-length (a ∷ l) = omega (arith, weigh-length l)

module _ {A : Type 0} (g : A → ℕ) where
  -- The strings that a thread has still to insert.
  abbrev pub to_insert : Pc A → ℕ
  to_insert (producing l) = weigh g l
  to_insert (ins_lock a l) = g a + weigh g l
  to_insert (ins_test a l) = g a + weigh g l
  to_insert (ins_retry a l) = g a + weigh g l
  to_insert (ins_wake a l) = g a + weigh g l
  to_insert (ins_wait a l) = g a + weigh g l
  to_insert (ins_blocked a l) = g a + weigh g l
  to_insert (ins_woken a l) = g a + weigh g l
  to_insert (ins_signal l) = weigh g l
  to_insert (ins_unlock l) = weigh g l
  to_insert _ = 0

  pub done-to_insert : (p : Pc A) → inserting p ≡ false → to_insert p ≡ 0
  unfolding weigh
  done-to_insert (producing []) h = refl
  done-to_insert (producing (a ∷ l)) h = absurd (cc)
  done-to_insert p h = ground arith

  to_insert-after : (v : Variant) (l : List A) → to_insert (after_insert v l) ≡ weigh g l
  to_insert-after safe l = refl
  to_insert-after v l = refl

  to_insert-full : (v : Variant) (a : A) (l : List A) → to_insert (on_full v a l) ≡ g a + weigh g l
  to_insert-full safe a l = refl
  to_insert-full v a l = refl

  to_insert-empty : (v : Variant) (p : Pc A) → p ≡ on_empty v → to_insert p ≡ 0
  to_insert-empty safe p e = rw e refl
  to_insert-empty v p e = rw e refl

  to_insert-removed : (v : Variant) (r : Option A) → to_insert (after_remove v r) ≡ 0
  to_insert-removed safe r = refl
  to_insert-removed v r = refl

  Move-to_insert :
      {v : Variant} {i : ℕ} {m m' : Shared A} {p p' : Pc A}
      → Move v i m p m' p'
      → weigh g m'.inserted + to_insert p' ≡ weigh g m.inserted + to_insert p
  unfolding insert_step remove_step weigh
  Move-to_insert call_insert = refl
  Move-to_insert {v} {m = m} (ins_full {a = a} {l = l} full) = omega (arith, to_insert-full v a l)
  Move-to_insert {v} {m = m} (ins_store {a = a} {l = l} room) =
      omega (arith, weigh-append g m.inserted (a ∷ []), to_insert-after v l)
  Move-to_insert {v} {p' = p'} (rem_empty go) = omega (arith, to_insert-empty v p' refl)
  Move-to_insert {v} {m = m} (rem_take go) =
      omega (arith, to_insert-removed v (spool_remove_unchecked m.spool).1)
  Move-to_insert (rem_release {r = none}) = refl
  Move-to_insert (rem_release {r = some a}) = refl
  Move-to_insert mv = refl

  Move-size :
      {v : Variant} {i : ℕ} {m m' : Shared A} {p p' : Pc A}
      → Move v i m p m' p'
      → m'.spool.size ≡ m.spool.size
  unfolding insert_step remove_step spool_insert_unchecked spool_remove_unchecked
  Move-size call_insert = refl
  Move-size (ins_store room) = ground arith
  Move-size (rem_take go) = ground arith
  Move-size mv = refl

  signal-to_insert :
      (v : Variant) {c : Cv} {p' : Pc A} (p : Pc A)
      → signals v p ≡ some (c, p')
      → (to_insert p' ≡ to_insert p) × (p ≢ absent)
  signal-to_insert v (ins_wake a l) e = (ground arith, λ h. cc)
  signal-to_insert v (ins_signal l) e = (ground arith, λ h. cc)
  signal-to_insert v rem_wake e = (ground arith, λ h. cc)
  signal-to_insert v (rem_signal r) e = (ground arith, λ h. cc)
  signal-to_insert v p e = absurd (cc)

  wake-to_insert : (p : Pc A) → (to_insert (wake p) ≡ to_insert p) × (p ≡ absent → wake p ≡ absent)
  wake-to_insert (ins_blocked a l) = (refl, λ e. cc)
  wake-to_insert rem_blocked = (refl, λ e. cc)
  wake-to_insert p = (refl, λ e. e)

  wake_con-to_insert :
      (v : Variant) (p : Pc A)
      → (to_insert (wake_con v p) ≡ to_insert p) × (p ≡ absent → wake_con v p ≡ absent)
  wake_con-to_insert two_cv (ins_blocked a l) = (refl, λ e. cc)
  wake_con-to_insert v p = wake-to_insert p

  blocked-absent : (v : Variant) {c : Cv} (p : Pc A) → blocked_on v p ≡ some c → p ≢ absent
  blocked-absent v absent f e = cc
  blocked-absent v p f e = cc

  -- There are `n` threads; what was inserted and what is left make up `k` strings.
  pub record Counts (n k z : ℕ) (m : Shared A) (pc : ℕ → Pc A) : Type 0 where
    pub outside : (i : ℕ) → n ≤ i → pc i ≡ absent
    pub sum : weigh g m.inserted + total (to_insert) n pc ≡ k
    pub size : m.spool.size ≡ z

  inside :
      {n k z : ℕ} {m : Shared A} {pc : ℕ → Pc A} (i : ℕ) → Counts n k z m pc → pc i ≢ absent → i < n
  inside {n} i w ne = elim (dec_lt i n) [
    | yes lt ↦ lt
    | no ge ↦ absurd (ne (w.outside i (omega arith)))
  ]

  -- One thread moves, and takes with it what it has left.
  moved-Counts :
      {n k z : ℕ} {m m' : Shared A} {pc : ℕ → Pc A} (i : ℕ) (p' : Pc A)
      → Counts n k z m pc
      → pc i ≢ absent
      → weigh g m'.inserted + to_insert p' ≡ weigh g m.inserted + to_insert (pc i)
      → m'.spool.size ≡ m.spool.size
      → Counts n k z m' (update pc i p')
  moved-Counts {n} {pc = pc} i p' w ne e f = record {
    outside = λ j h. elim (ℕ_discrete i j) [
      | yes same ↦ absurd (omega (arith, inside i w ne))
      | no differ ↦ ground (arith, w.outside j h)
    ];
    sum = omega (arith, w.sum, total-update to_insert n i pc p' (inside i w ne));
    size = f ∙ w.size;
  }

  woken-Counts :
      (v : Variant) {n k z : ℕ} {m : Shared A} {pc : ℕ → Pc A} {c : Cv} (j : ℕ)
      → blocked_on v (pc j) ≡ some c
      → Counts n k z m pc
      → Counts n k z m (update pc j (wake (pc j)))
  woken-Counts v {pc = pc} j e w =
      moved-Counts j (wake (pc j)) w (blocked-absent v (pc j) e)
        (omega (arith, wake-to_insert (pc j))) refl

  woken-at :
      (v : Variant) {n k z : ℕ} {m : Shared A} {pc : ℕ → Pc A} {c : Cv} (j : ℕ) {q : Pc A}
      → pc j ≡ q
      → blocked_on v q ≡ some c
      → Counts n k z m pc
      → Counts n k z m (update pc j (wake q))
  woken-at v {pc = pc} {c = c} j {q} at e w =
      let e' : blocked_on v (pc j) ≡ some c = rw at e in rw (← at) (woken-Counts v j e' w)

  pub Step-Counts :
      (v : Variant) {n k z : ℕ} {s t : System A}
      → Step v s t
      → Counts n k z s.mem s.pc
      → Counts n k z t.mem t.pc
  Step-Counts v {s = s} (move i {p = p} mv) w =
      moved-Counts i p w (Move-absent mv) (Move-to_insert mv) (Move-size mv)
  Step-Counts v {s = s} (signal i j {p = p} e f) w =
      let (same, ne) = signal-to_insert v (s.pc i) e in
      woken-at v j (other v s.pc i j e f) f
        (moved-Counts {m' = s.mem} i p w ne (omega (arith, same)) refl)
  Step-Counts v {s = s} (signal_none i {p = p} e nobody) w =
      let (same, ne) = signal-to_insert v (s.pc i) e in
      moved-Counts {m' = s.mem} i p w ne (omega (arith, same)) refl
  Step-Counts v (joined e ne f) w = w
  Step-Counts v (set_flag e) w = record { outside = w.outside; sum = w.sum; size = w.size }
  Step-Counts v {n} {s = s} (broadcast e) w = record {
    outside = λ i h. (wake_con-to_insert v (s.pc i)).1 (w.outside i h);
    sum = omega (
      arith,
      w.sum,
      total_same to_insert n s.pc (λ j. wake_con v (s.pc j))
          (λ j. (wake_con-to_insert v (s.pc j)).0),
    );
    size = w.size;
  }

  pub Reach-Counts :
      (v : Variant) {n k z : ℕ} {s t : System A}
      → Reach v s t
      → Counts n k z s.mem s.pc
      → Counts n k z t.mem t.pc
  Reach-Counts v here w = w
  Reach-Counts v (step r st) w = Step-Counts v st (Reach-Counts v r w)
  Reach-Counts v (spurious r (wake_up j e)) w = woken-Counts v j e (Reach-Counts v r w)
