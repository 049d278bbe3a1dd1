-- ===== src/Spooler/Threads/Progress/Signals.antt =====
-- Signals keep the balance of those that wait.
use operating_systems_and_sy.Prelude.{
  ℕ, ◌+◌, ◌<◌, ◌≤◌, ◌≡◌, ◌≢◌, refl, ap, some, List, update, ℕ_discrete, arith,
}
use operating_systems_and_sy.Spooler.Ring.Bounds.{used}
use operating_systems_and_sy.Spooler.Threads.Thread.{
  two_cv, Cv, con, pro, Shared, Pc, ins_blocked, rem_blocked, absent,
}
use operating_systems_and_sy.Spooler.Threads.System.{
  signals, blocked_on, wake, System, Step, move, signal, signal_none, joined, set_flag, broadcast,
}
use operating_systems_and_sy.Spooler.Threads.Invariant.{Inv, other}
use operating_systems_and_sy.Spooler.Threads.Progress.Count.{total, total-update, total_zero}
use operating_systems_and_sy.Spooler.Threads.Progress.Waits.{waits_con, for_con, waits_pro, for_pro}
use operating_systems_and_sy.Spooler.Threads.Progress.Steps.{Outweighed, inside, Move-Outweighed}
use operating_systems_and_sy.Spooler.Threads.Progress.Wakes.{
  signalling, waking, broadcast-Outweighed,
}

module _ {A : Type 0} where
  signals-not_absent :
      {c : Cv} {p' : Pc A} (p : Pc A) → signals two_cv p ≡ some (c, p') → p ≢ absent
  signals-not_absent absent e same = cc
  signals-not_absent p e same = cc

  blocked-not_absent : {c : Cv} (p : Pc A) → blocked_on two_cv p ≡ some c → p ≢ absent
  blocked-not_absent absent f same = cc
  blocked-not_absent p f same = cc

  no_con : (p : Pc A) → blocked_on two_cv p ≢ some con → waits_con p ≡ 0
  no_con rem_blocked h = absurd (h refl)
  no_con p h = refl

  no_pro : (p : Pc A) → blocked_on two_cv p ≢ some pro → waits_pro p ≡ 0
  no_pro (ins_blocked a l) h = absurd (h refl)
  no_pro p h = refl

  module _ (n : ℕ) {m : Shared A} {pc : ℕ → Pc A} (w : Outweighed n m pc) (i : ℕ) where
    signal-Outweighed :
        (j : ℕ) {c : Cv} {p : Pc A}
        → signals two_cv (pc i) ≡ some (c, p)
        → blocked_on two_cv (pc j) ≡ some c
        → Outweighed n m (update (update pc i p) j (wake (pc j)))
    signal-Outweighed j {c} {p} e f = record {
      outside = λ k h. elim (ℕ_discrete j k) [
        | yes same ↦ absurd (omega (arith, lt_j))
        | no ne ↦ elim (ℕ_discrete i k) [
          | yes same ↦ absurd (omega (arith, lt_i))
          | no ne' ↦ ground (arith, w.outside k h)
        ]
      ];
      strings = λ pos. omega (arith, con_waits, con_for, w.strings (omega (arith, con_waits)));
      slots = λ pos. omega (arith, pro_waits, pro_for, w.slots (omega (arith, pro_waits)));
      empty = λ k h. elim (ℕ_discrete j k) [
        | yes same ↦ ground (arith, waking (pc j) f)
        | no ne ↦ elim (ℕ_discrete i k) [
          | yes same ↦ w.empty i ((signalling (pc i) e).4 (ground arith))
          | no ne' ↦ w.empty k (ground arith)
        ]
      ];
      full = λ k h. elim (ℕ_discrete j k) [
        | yes same ↦ ground (arith, waking (pc j) f)
        | no ne ↦ elim (ℕ_discrete i k) [
          | yes same ↦ w.full i ((signalling (pc i) e).5 (ground arith))
          | no ne' ↦ w.full k (ground arith)
        ]
      ];
    }
      where
        lt_i : i < n
        lt_i = inside i w (signals-not_absent (pc i) e)

        lt_j : j < n
        lt_j = inside j w (blocked-not_absent (pc j) f)

        kept :
            (g : Pc A → ℕ)
            → total g n (update (update pc i p) j (wake (pc j))) + g (pc j) + g (pc i)
              ≡ total g n pc + g p + g (wake (pc j))
        kept g = omega (
          arith,
          total-update g n i pc p lt_i,
          total-update g n j (update pc i p) (wake (pc j)) lt_j,
          ap g (other two_cv pc i j e f),
        )

        con_waits :
            total waits_con n (update (update pc i p) j (wake (pc j))) ≤ total waits_con n pc
        con_waits = omega (arith, kept waits_con, signalling (pc i) e, waking (pc j) f)

        con_for : total for_con n pc ≤ total for_con n (update (update pc i p) j (wake (pc j)))
        con_for = omega (arith, kept for_con, signalling (pc i) e, waking (pc j) f)

        pro_waits :
            total waits_pro n (update (update pc i p) j (wake (pc j))) ≤ total waits_pro n pc
        pro_waits = omega (arith, kept waits_pro, signalling (pc i) e, waking (pc j) f)

        pro_for : total for_pro n pc ≤ total for_pro n (update (update pc i p) j (wake (pc j)))
        pro_for = omega (arith, kept for_pro, signalling (pc i) e, waking (pc j) f)

    signal_none-Outweighed :
        (c : Cv) {p : Pc A}
        → signals two_cv (pc i) ≡ some (c, p)
        → ((j : ℕ) → blocked_on two_cv (pc j) ≢ some c)
        → Outweighed n m (update pc i p)
    signal_none-Outweighed c {p} e nobody = record {
      outside = λ k h. elim (ℕ_discrete i k) [
        | yes same ↦ absurd (omega (arith, lt))
        | no ne ↦ ground (arith, w.outside k h)
      ];
      strings = strings_kept c e nobody;
      slots = slots_kept c e nobody;
      empty = λ k h. elim (ℕ_discrete i k) [
        | yes same ↦ w.empty i ((signalling (pc i) e).4 (ground arith))
        | no ne ↦ w.empty k (ground arith)
      ];
      full = λ k h. elim (ℕ_discrete i k) [
        | yes same ↦ w.full i ((signalling (pc i) e).5 (ground arith))
        | no ne ↦ w.full k (ground arith)
      ];
    }
      where
        lt : i < n
        lt = inside i w (signals-not_absent (pc i) e)

        strings_kept :
            (d : Cv)
            → signals two_cv (pc i) ≡ some (d, p)
            → ((j : ℕ) → blocked_on two_cv (pc j) ≢ some d)
            → 0 < total waits_con n (update pc i p)
            → used m.spool ≤ total for_con n (update pc i p)
        strings_kept con f none_con pos = absurd (
            omega (
              arith,
              signalling (pc i) f,
              total-update waits_con n i pc p lt,
              total_zero waits_con n pc (λ j. no_con (pc j) (none_con j)),
            ))
        strings_kept pro f none_pro pos = omega (
          arith,
          signalling (pc i) f,
          total-update waits_con n i pc p lt,
          total-update for_con n i pc p lt,
          w.strings (omega (arith, signalling (pc i) f, total-update waits_con n i pc p lt)),
        )

        slots_kept :
            (d : Cv)
            → signals two_cv (pc i) ≡ some (d, p)
            → ((j : ℕ) → blocked_on two_cv (pc j) ≢ some d)
            → 0 < total waits_pro n (update pc i p)
            → m.spool.capacity ≤ total for_pro n (update pc i p)
        slots_kept pro f none_pro pos = absurd (
            omega (
              arith,
              signalling (pc i) f,
              total-update waits_pro n i pc p lt,
              total_zero waits_pro n pc (λ j. no_pro (pc j) (none_pro j)),
            ))
        slots_kept con f none_con pos = omega (
          arith,
          signalling (pc i) f,
          total-update waits_pro n i pc p lt,
          total-update for_pro n i pc p lt,
          w.slots (omega (arith, signalling (pc i) f, total-update waits_pro n i pc p lt)),
        )

  pub Step-Outweighed :
      (n : ℕ) {s t : System A} {q : List A}
      → Step two_cv s t
      → Inv two_cv s q
      → Outweighed n s.mem s.pc
      → Outweighed n t.mem t.pc
  Step-Outweighed n (move i mv) inv w = Move-Outweighed n inv w i mv
  Step-Outweighed n (signal i j e f) inv w = signal-Outweighed n w i j e f
  Step-Outweighed n (signal_none i {c = c} e nobody) inv w = signal_none-Outweighed n w i c e nobody
  Step-Outweighed n (joined e ne f) inv w = w
  Step-Outweighed n (set_flag e) inv w = record {
    outside = w.outside;
    strings = w.strings;
    slots = w.slots;
    empty = w.empty;
    full = w.full;
  }
  Step-Outweighed n (broadcast e) inv w = broadcast-Outweighed n w
