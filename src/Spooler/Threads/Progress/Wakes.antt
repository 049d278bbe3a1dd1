-- ===== src/Spooler/Threads/Progress/Wakes.antt =====
-- Whom a signal, the broadcast or a spurious wake-up wakes: the balance of those that wait.
use operating_systems_and_sy.Prelude.{
  ℕ, ◌+◌, ◌<◌, ◌≡◌, ◌≢◌, refl, sym, ◌∙◌, true, false, some, update, ℕ_discrete, arith,
}
use operating_systems_and_sy.Spooler.Threads.Thread.{
  two_cv, Cv, con, pro, Shared, Pc, ins_wake, ins_blocked, ins_signal, rem_wake, rem_blocked,
  rem_signal, absent,
}
use operating_systems_and_sy.Spooler.Threads.System.{
  signals, blocked_on, wake, wake_con, System, Spurious, wake_up,
}
use operating_systems_and_sy.Spooler.Threads.Progress.Count.{total-update, total_zero, total_same}
use operating_systems_and_sy.Spooler.Threads.Progress.Waits.{
  waits_con, for_con, waits_pro, for_pro, saw_empty, saw_full,
}
use operating_systems_and_sy.Spooler.Threads.Progress.Steps.{Outweighed, inside}

abbrev pub is_con : Cv → ℕ
is_con con = 1
is_con pro = 0

abbrev pub is_pro : Cv → ℕ
is_pro con = 0
is_pro pro = 1

module _ {A : Type 0} where
  -- What a signal takes from the thread that makes it, and gives to the thread that it wakes.
  pub signalling :
      {c : Cv} {p' : Pc A} (p : Pc A)
      → signals two_cv p ≡ some (c, p')
      → (waits_con p' ≡ waits_con p)
        × (waits_pro p' ≡ waits_pro p)
        × (for_con p' + is_con c ≡ for_con p)
        × (for_pro p' + is_pro c ≡ for_pro p)
        × (saw_empty p' ≡ true → saw_empty p ≡ true)
        × (saw_full p' ≡ true → saw_full p ≡ true)
  signalling (ins_wake a l) e = ground arith
  signalling (ins_signal l) e = ground arith
  signalling rem_wake e = ground arith
  signalling (rem_signal r) e = ground arith
  signalling p e = absurd (cc)

  pub waking :
      {c : Cv} (p : Pc A)
      → blocked_on two_cv p ≡ some c
      → (waits_con (wake p) + is_con c ≡ waits_con p)
        × (waits_pro (wake p) + is_pro c ≡ waits_pro p)
        × (for_con (wake p) ≡ for_con p + is_con c)
        × (for_pro (wake p) ≡ for_pro p + is_pro c)
        × (saw_empty (wake p) ≡ false)
        × (saw_full (wake p) ≡ false)
  waking (ins_blocked a l) e = ground arith
  waking rem_blocked e = ground arith
  waking p e = absurd (cc)

  module _ (n : ℕ) {m : Shared A} {pc : ℕ → Pc A} (w : Outweighed n m pc) where
    -- One thread moves, at no cost to what outweighs.
    woken-Outweighed :
        {c : Cv} (j : ℕ)
        → blocked_on two_cv (pc j) ≡ some c
        → Outweighed n m (update pc j (wake (pc j)))
    woken-Outweighed {c} j e = record {
      outside = λ k h. elim (ℕ_discrete j k) [
        | yes same ↦ absurd (omega (arith, lt))
        | no ne ↦ ground (arith, w.outside k h)
      ];
      strings = λ pos. omega (
        arith,
        waking (pc j) e,
        total-update waits_con n j pc (wake (pc j)) lt,
        total-update for_con n j pc (wake (pc j)) lt,
        w.strings (omega (arith, waking (pc j) e, total-update waits_con n j pc (wake (pc j)) lt)),
      );
      slots = λ pos. omega (
        arith,
        waking (pc j) e,
        total-update waits_pro n j pc (wake (pc j)) lt,
        total-update for_pro n j pc (wake (pc j)) lt,
        w.slots (omega (arith, waking (pc j) e, total-update waits_pro n j pc (wake (pc j)) lt)),
      );
      empty = λ k h. w.empty k (ground (arith, waking (pc j) e));
      full = λ k h. w.full k (ground (arith, waking (pc j) e));
    }
      where
        not_absent : (p : Pc A) → blocked_on two_cv p ≡ some c → p ≢ absent
        not_absent absent f same = cc
        not_absent p f same = cc

        lt : j < n
        lt = inside j w (not_absent (pc j) e)

  awake :
      (p : Pc A)
      → (waits_con (wake_con two_cv p) ≡ 0)
        × (waits_pro (wake_con two_cv p) ≡ waits_pro p)
        × (for_pro (wake_con two_cv p) ≡ for_pro p)
        × (saw_empty (wake_con two_cv p) ≡ saw_empty p)
        × (saw_full (wake_con two_cv p) ≡ saw_full p)
        × (p ≡ absent → wake_con two_cv p ≡ absent)
  awake (ins_blocked a l) = (refl, refl, refl, refl, refl, λ e. cc)
  awake rem_blocked = (refl, refl, refl, refl, refl, λ e. cc)
  awake p = (refl, refl, refl, refl, refl, λ e. e)

  pub broadcast-Outweighed :
      (n : ℕ) {m : Shared A} {pc : ℕ → Pc A}
      → Outweighed n m pc
      → Outweighed n m (λ j. wake_con two_cv (pc j))
  broadcast-Outweighed n {m} {pc} w = record {
    outside = λ k h. (awake (pc k)).5 (w.outside k h);
    strings = λ pos. absurd (
        omega
          (arith, total_zero waits_con n (λ j. wake_con two_cv (pc j)) (λ j. (awake (pc j)).0)));
    slots = λ pos. omega (
      arith,
      total_same for_pro n pc (λ j. wake_con two_cv (pc j)) (λ j. (awake (pc j)).2),
      w.slots (
          omega (
            arith,
            total_same waits_pro n pc (λ j. wake_con two_cv (pc j)) (λ j. (awake (pc j)).1),
          )),
    );
    empty = λ k h. w.empty k (sym (awake (pc k)).3 ∙ h);
    full = λ k h. w.full k (sym (awake (pc k)).4 ∙ h);
  }

  pub Spurious-Outweighed :
      (n : ℕ) {s t : System A}
      → Spurious two_cv s t
      → Outweighed n s.mem s.pc
      → Outweighed n t.mem t.pc
  Spurious-Outweighed n (wake_up j e) w = woken-Outweighed n w j e
