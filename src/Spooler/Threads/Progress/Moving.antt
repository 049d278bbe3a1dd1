-- ===== src/Spooler/Threads/Progress/Moving.antt =====
-- Which threads can take a step.
use mathlib.Core.Path.{subst}
use operating_systems_and_sy.Prelude.{
  ℕ, zero, suc, ◌<◌, ◌≤◌, ◌≡◌, ◌≢◌, ◌⊎◌, inl, inr, refl, sym, Bool, true, false, none, some, [],
  ◌∷◌, ℕ_discrete, dec_lt, Bool-cases, arith,
}
use operating_systems_and_sy.Spooler.Ring.{spool_full}
use operating_systems_and_sy.Spooler.Threads.Thread.{
  Variant, two_cv, Cv, con, pro, Shared, Pc, producing, ins_lock, ins_test, ins_retry, ins_wake,
  ins_wait, ins_blocked, ins_woken, ins_signal, ins_unlock, consuming, rem_lock, rem_test,
  rem_retry, rem_wake, rem_wait, rem_blocked, rem_woken, rem_signal, rem_unlock, finished, absent,
  Move, call_insert, ins_acquire, ins_full, ins_store, ins_give_up, ins_block, ins_reacquire,
  ins_release, call_remove, rem_acquire, rem_empty, rem_take, rem_give_up, rem_block, rem_reacquire,
  rem_release, keeps_waiting,
}
use operating_systems_and_sy.Spooler.Threads.System.{
  signals, blocked_on, System, Step, move, signal, signal_none,
}
use operating_systems_and_sy.Spooler.Threads.Invariant.{holds}

module _ {A : Type 0} where
  -- A thread that has a step to take, once it has the lock if it wants it.
  abbrev pub live : Pc A → Bool
  live (producing []) = false
  live (ins_blocked a l) = false
  live rem_blocked = false
  live finished = false
  live absent = false
  live _ = true

  pub holds-live : (p : Pc A) → holds p ≡ true → live p ≡ true
  holds-live (producing l) h = absurd (cc)
  holds-live p h = ground arith

  absent-free : (v : Variant) {c : Cv} (p : Pc A) → p ≡ absent → blocked_on v p ≢ some c
  absent-free v absent e f = cc
  absent-free v p e f = cc

  blocked-cases :
      (v : Variant) (c : Cv) (p : Pc A) → (blocked_on v p ≡ some c) ⊎ (blocked_on v p ≢ some c)
  blocked-cases two_cv con (ins_blocked a l) = inr (λ e. cc)
  blocked-cases two_cv pro (ins_blocked a l) = inl refl
  blocked-cases v con (ins_blocked a l) = inl refl
  blocked-cases v pro (ins_blocked a l) = inr (λ e. cc)
  blocked-cases v con rem_blocked = inl refl
  blocked-cases v pro rem_blocked = inr (λ e. cc)
  blocked-cases v con p = inr (λ e. cc)
  blocked-cases v pro p = inr (λ e. cc)

  find_blocked :
      (v : Variant) (c : Cv) (pc : ℕ → Pc A) (n : ℕ)
      → ((j : ℕ) × (blocked_on v (pc j) ≡ some c))
        ⊎ ((j : ℕ) → j < n → blocked_on v (pc j) ≢ some c)
  find_blocked v c pc zero = inr (λ j lt. absurd (omega arith))
  find_blocked v c pc (suc n) = elim (blocked-cases v c (pc n)) [
    | inl e ↦ inl (n, e)
    | inr free ↦ elim (find_blocked v c pc n) [
      | inl found ↦ inl found
      | inr none_below ↦ inr (λ j lt. elim (ℕ_discrete j n) [
        | yes same ↦ rw same free
        | no ne ↦ none_below j (omega arith)
      ])
    ]
  ]

  module _ (v : Variant) (n : ℕ) {s : System A} (outside : (i : ℕ) → n ≤ i → s.pc i ≡ absent)
      (i : ℕ) where
    moves :
        {m' : Shared A} {p p' : Pc A}
        → s.pc i ≡ p
        → Move v i s.mem p m' p'
        → (t : System A) × Step v s t
    moves {m'} {p} {p'} e mv = (_, move i (subst (λ q. Move v i s.mem q m' p') (sym e) mv))

    signals_one :
        {c : Cv} {p p' : Pc A}
        → s.pc i ≡ p
        → signals v p ≡ some (c, p')
        → (t : System A) × Step v s t
    signals_one {c} {p} {p'} at f =
        let e : signals v (s.pc i) ≡ some (c, p') = rw at f in
        elim (find_blocked v c s.pc n) [
          | inl (j, f) ↦ (_, signal i j e f)
          | inr nobody ↦ (
            _,
            signal_none i e (λ j. elim (dec_lt j n) [
              | yes lt ↦ nobody j lt
              | no ge ↦ absent-free v (s.pc j) (outside j (omega arith))
            ]),
          )
        ]

    -- A live thread takes a step, if it holds the lock or no one does.
    pub live-Step :
        (p : Pc A)
        → s.pc i ≡ p
        → live p ≡ true
        → (holds p ≡ true) ⊎ (s.mem.buf_lock ≡ none)
        → (t : System A) × Step v s t
    live-Step (producing []) e lv h = absurd (cc)
    live-Step (producing (a ∷ l)) e lv h = moves e call_insert
    live-Step (ins_lock a l) e lv (inl h) = absurd (cc)
    live-Step (ins_lock a l) e lv (inr free) = moves e (ins_acquire free)
    live-Step (ins_test a l) e lv h = elim (Bool-cases (spool_full s.mem.spool)) [
      | inl full ↦ moves e (ins_full full)
      | inr room ↦ moves e (ins_store room)
    ]
    live-Step (ins_retry a l) e lv h = moves e ins_give_up
    live-Step (ins_wake a l) e lv h = signals_one e refl
    live-Step (ins_wait a l) e lv h = moves e ins_block
    live-Step (ins_blocked a l) e lv h = absurd (cc)
    live-Step (ins_woken a l) e lv (inl h) = absurd (cc)
    live-Step (ins_woken a l) e lv (inr free) = moves e (ins_reacquire free)
    live-Step (ins_signal l) e lv h = signals_one e refl
    live-Step (ins_unlock l) e lv h = moves e ins_release
    live-Step consuming e lv h = moves e call_remove
    live-Step rem_lock e lv (inl h) = absurd (cc)
    live-Step rem_lock e lv (inr free) = moves e (rem_acquire free)
    live-Step rem_test e lv h = elim (Bool-cases (keeps_waiting v s.mem)) [
      | inl wait ↦ moves e (rem_empty wait)
      | inr go ↦ moves e (rem_take go)
    ]
    live-Step rem_retry e lv h = moves e rem_give_up
    live-Step rem_wake e lv h = signals_one e refl
    live-Step rem_wait e lv h = moves e rem_block
    live-Step rem_blocked e lv h = absurd (cc)
    live-Step rem_woken e lv (inl h) = absurd (cc)
    live-Step rem_woken e lv (inr free) = moves e (rem_reacquire free)
    live-Step (rem_signal r) e lv h = signals_one e refl
    live-Step (rem_unlock r) e lv h = moves e rem_release
    live-Step finished e lv h = absurd (cc)
    live-Step absent e lv h = absurd (cc)
