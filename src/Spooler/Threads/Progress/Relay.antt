-- ===== src/Spooler/Threads/Progress/Relay.antt =====
-- With one condition variable, a thread that has made its signal and has the lock still is not the last
-- one that can go on.
use mathlib.Core.Path.{subst}
use operating_systems_and_sy.Prelude.{
  ℕ, ◌≡◌, ◌≢◌, inl, inr, sym, ◌∙◌, ap, true, false, some, List, update, ℕ_discrete, Bool-cases,
  arith,
}
use operating_systems_and_sy.Spooler.Threads.Thread.{one_cv, Cv, con, Shared, Pc, Move}
use operating_systems_and_sy.Spooler.Threads.System.{signals, blocked_on, wake, inserting, System}
use operating_systems_and_sy.Spooler.Threads.Invariant.{holds, got_null, Inv}
use operating_systems_and_sy.Spooler.Threads.Progress.Moving.{live}
use operating_systems_and_sy.Spooler.Threads.Progress.Owner.{consumes}
use operating_systems_and_sy.Spooler.Threads.Progress.Passing.{
  passed, passed-holds, Move-live, Move-inserting, signals-live, woken-live, goes_on,
  consumes-inserting,
}

module _ {A : Type 0} where
  -- While a producer is at work, some thread can go on; and so can another one, while a thread has made its
  -- signal and has the lock.
  pub record Relay (pc : ℕ → Pc A) : Type 0 where
    pub someone : (j : ℕ) → inserting (pc j) ≡ true → (i : ℕ) × (live (pc i) ≡ true)
    pub another :
        (i j : ℕ)
        → passed (pc i) ≡ true
        → inserting (pc j) ≡ true
        → (k : ℕ) × (k ≢ i) × (live (pc k) ≡ true)

  at_other : (pc : ℕ → Pc A) (i k : ℕ) (p : Pc A) → k ≢ i → update pc i p k ≡ pc k
  at_other pc i k p ne = ground arith

  at_self : (pc : ℕ → Pc A) (i : ℕ) (p : Pc A) → update pc i p i ≡ p
  at_self pc i p = ground arith

  module _ {s : System A} {q : List A} (inv : Inv one_cv s q) (relay : Relay s.pc) where
    -- Only one thread is between lock and unlock.
    one_holds : (i k : ℕ) → holds (s.pc i) ≡ true → holds (s.pc k) ≡ true → i ≡ k
    one_holds i k e f = cc (inv.owns i e, inv.owns k f)

    pub moved-Relay :
        (i : ℕ) {m : Shared A} {p : Pc A}
        → Move one_cv i s.mem (s.pc i) m p
        → Relay (update s.pc i p)
    moved-Relay i {m} {p} mv = record {
      someone = λ j h. elim ((Move-live mv).0) [
        | inl lv ↦ (i, ap live (at_self s.pc i p) ∙ lv)
        | inr done ↦
            let (k, ne, lv) = relay.another i j done (busy j h) in
            (k, ap live (at_other s.pc i k p ne) ∙ lv)
      ];
      another = λ k j. still k j;
    }
      where
        busy : (j : ℕ) → inserting (update s.pc i p j) ≡ true → inserting (s.pc j) ≡ true
        busy j h = elim (ℕ_discrete i j) [
          | yes same ↦
              subst (λ (k : ℕ). inserting (s.pc k) ≡ true) same
                (Move-inserting mv (ground (arith, h)))
          | no ne ↦ ground (arith, h)
        ]

        still :
            (o j : ℕ)
            → passed (update s.pc i p o) ≡ true
            → inserting (update s.pc i p j) ≡ true
            → (k : ℕ) × (k ≢ o) × (live (update s.pc i p k) ≡ true)
        still o j e h = elim (ℕ_discrete o i) [
          | yes same ↦ absurd (ground (arith, (Move-live mv).1, rw same at e, at_self s.pc i p))
          | no ne ↦
              let e' : passed (s.pc o) ≡ true = sym (ap passed (at_other s.pc i o p ne)) ∙ e in
              let (k, differ, lv) = relay.another o j e' (busy j h) in
              elim (ℕ_discrete k i) [
                | no apart ↦ (k, differ, ap live (at_other s.pc i k p apart) ∙ lv)
                | yes same ↦ elim ((Move-live mv).0) [
                  | inl lv' ↦ (i, λ x. ne (sym x), ap live (at_self s.pc i p) ∙ lv')
                  | inr done ↦
                      absurd
                        (ne (one_holds o i (passed-holds (s.pc o) e') (passed-holds (s.pc i) done)))
                ]
              ]
        ]

    -- The woken thread can go on.
    pub woken-Relay :
        (pc : ℕ → Pc A) (w : ℕ) → live (pc w) ≡ true → passed (pc w) ≡ false → Relay pc
    woken-Relay pc w lv un = record {
      someone = λ j h. (w, lv);
      another = λ o j e h. (w, λ same. absurd (cc (ap (λ (k : ℕ). passed (pc k)) same)), lv);
    }

    pub signal-Relay :
        (i j : ℕ) {c : Cv} {p : Pc A}
        → signals one_cv (s.pc i) ≡ some (c, p)
        → blocked_on one_cv (s.pc j) ≡ some c
        → Relay (update (update s.pc i p) j (wake (s.pc j)))
    signal-Relay i j {c} {p} e f =
        let at = at_self (update s.pc i p) j (wake (s.pc j)) in
        let (asleep, lv, un, same) = woken-live (s.pc j) f in
        woken-Relay (update (update s.pc i p) j (wake (s.pc j))) j (ap live at ∙ lv)
          (ap passed at ∙ un)

    pub wake_up-Relay :
        (j : ℕ) {c : Cv}
        → blocked_on one_cv (s.pc j) ≡ some c
        → Relay (update s.pc j (wake (s.pc j)))
    wake_up-Relay j f =
        let at = at_self s.pc j (wake (s.pc j)) in
        let (asleep, lv, un, same) = woken-live (s.pc j) f in
        woken-Relay (update s.pc j (wake (s.pc j))) j (ap live at ∙ lv) (ap passed at ∙ un)

    -- Nobody waits, so that the consumer or the producer at work can go on.
    pub signal_none-Relay :
        (c : ℕ)
        → consumes (s.pc c) ≡ true
        → (i : ℕ) {d : Cv} {p : Pc A} → signals one_cv (s.pc i) ≡ some (d, p)
        → ((j : ℕ) → blocked_on one_cv (s.pc j) ≢ some d)
        → Relay (update s.pc i p)
    signal_none-Relay c consumer i {d} {p} e nobody = record {
      someone = λ j h. (i, ap live (at_self s.pc i p) ∙ (signals-live (s.pc i) e).2);
      another = λ o j f h. next o j f (busy j h);
    }
      where
        busy : (j : ℕ) → inserting (update s.pc i p j) ≡ true → inserting (s.pc j) ≡ true
        busy j h = elim (ℕ_discrete j i) [
          | yes same ↦
              let at : inserting p ≡ true = ground (arith, h) in
              ap (λ (k : ℕ). inserting (s.pc k)) same ∙ sym (signals-live (s.pc i) e).3 ∙ at
          | no ne ↦ sym (ap inserting (at_other s.pc i j p ne)) ∙ h
        ]

        free : (k : ℕ) → blocked_on one_cv (s.pc k) ≢ some con
        free k =
            subst (λ (x : Cv). blocked_on one_cv (s.pc k) ≢ some x) (signals-live (s.pc i) e).4
              (nobody k)

        not_null : (j : ℕ) → inserting (s.pc j) ≡ true → got_null (s.pc c) ≡ false
        not_null j h = elim (Bool-cases (got_null (s.pc c))) [
          | inl null ↦ let done = inv.all_joined (inv.flagged (inv.nulls c null).0) j in absurd (cc)
          | inr other ↦ other
        ]

        partner :
            (j : ℕ)
            → inserting (s.pc j) ≡ true
            → (k : ℕ) × (k ≢ i) × (live (update s.pc i p k) ≡ true)
        partner j h = elim (ℕ_discrete c i) [
          | no apart ↦ (
            c,
            apart,
            ap live (at_other s.pc i c p apart)
                ∙ goes_on (s.pc c) (inr (consumer, not_null j h)) (free c),
          )
          | yes same ↦
              let idle : inserting (s.pc i) ≡ false =
                consumes-inserting (s.pc i)
                  (sym (ap (λ (k : ℕ). consumes (s.pc k)) same) ∙ consumer) in
              let apart : j ≢ i = λ x. absurd (cc (idle, ap (λ (k : ℕ). inserting (s.pc k)) x)) in
              (j, apart, ap live (at_other s.pc i j p apart) ∙ goes_on (s.pc j) (inl h) (free j))
        ]

        next :
            (o j : ℕ)
            → passed (update s.pc i p o) ≡ true
            → inserting (s.pc j) ≡ true
            → (k : ℕ) × (k ≢ o) × (live (update s.pc i p k) ≡ true)
        next o j f h = elim (ℕ_discrete o i) [
          | yes same ↦ let (k, ne, lv) = partner j h in (k, λ x. ne (x ∙ same), lv)
          | no ne ↦
              let f' : passed (s.pc o) ≡ true = sym (ap passed (at_other s.pc i o p ne)) ∙ f in
              absurd (ne (one_holds o i (passed-holds (s.pc o) f') (signals-live (s.pc i) e).1))
        ]
