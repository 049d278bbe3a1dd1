-- ===== src/Spooler/Threads/Progress/Steps.antt =====
-- In every reachable state, those that wait are outweighed by those that come or signal.
use operating_systems_and_sy.Prelude.{
  ℕ, ◌<◌, ◌≤◌, ◌≡◌, ◌≢◌, inl, inr, true, List, update, ℕ_discrete, dec_lt, arith,
}
use operating_systems_and_sy.Spooler.Ring.Bounds.{used}
use operating_systems_and_sy.Spooler.Threads.Thread.{two_cv, Shared, Pc, absent, Move}
use operating_systems_and_sy.Spooler.Threads.System.{System}
use operating_systems_and_sy.Spooler.Threads.Invariant.{holds, Inv}
use operating_systems_and_sy.Spooler.Threads.Progress.Count.{total, total-update}
use operating_systems_and_sy.Spooler.Threads.Progress.Waits.{
  waits_con, for_con, waits_pro, for_pro, saw_empty, saw_full, Strings, Slots, Move-Strings,
  Move-Slots, Move-spool, Move-saw_empty, Move-saw_full, saw_empty-holds, saw_full-holds,
  Move-absent,
}

module _ {A : Type 0} where
  pub record Outweighed (n : ℕ) (m : Shared A) (pc : ℕ → Pc A) : Type 0 where
    pub outside : (i : ℕ) → n ≤ i → pc i ≡ absent
    pub strings : 0 < total waits_con n pc → used m.spool ≤ total for_con n pc
    pub slots : 0 < total waits_pro n pc → m.spool.capacity ≤ total for_pro n pc
    pub empty : (i : ℕ) → saw_empty (pc i) ≡ true → used m.spool ≡ 0
    pub full : (i : ℕ) → saw_full (pc i) ≡ true → m.spool.capacity ≡ 0

  -- There are `n` threads.
  pub inside :
      {n : ℕ} {m : Shared A} {pc : ℕ → Pc A} (i : ℕ) → Outweighed n m pc → pc i ≢ absent → i < n
  inside {n} i w ne = elim (dec_lt i n) [
    | yes lt ↦ lt
    | no ge ↦ absurd (ne (w.outside i (omega arith)))
  ]

  module _ (n : ℕ) {s : System A} {q : List A} (inv : Inv two_cv s q) (w : Outweighed n s.mem s.pc)
      (i : ℕ) where
    Strings-after :
        (m' : Shared A) (p' : Pc A)
        → i < n
        → Strings s.mem (s.pc i) m' p'
        → 0 < total waits_con n (update s.pc i p')
        → used m'.spool ≤ total for_con n (update s.pc i p')
    Strings-after m' p' lt (inl z) pos = omega arith
    Strings-after m' p' lt (inr (few, more)) pos = omega (
      arith,
      total-update waits_con n i s.pc p' lt,
      total-update for_con n i s.pc p' lt,
      w.strings (omega (arith, total-update waits_con n i s.pc p' lt)),
    )

    Slots-after :
        (m' : Shared A) (p' : Pc A)
        → i < n
        → Slots s.mem (s.pc i) m' p'
        → 0 < total waits_pro n (update s.pc i p')
        → m'.spool.capacity ≤ total for_pro n (update s.pc i p')
    Slots-after m' p' lt (inl z) pos = omega arith
    Slots-after m' p' lt (inr (few, more)) pos = omega (
      arith,
      total-update waits_pro n i s.pc p' lt,
      total-update for_pro n i s.pc p' lt,
      w.slots (omega (arith, total-update waits_pro n i s.pc p' lt)),
    )

    -- While another thread holds the lock, the ring stays as it is.
    ring_same :
        {m' : Shared A} {p' : Pc A} (j : ℕ)
        → i ≢ j
        → holds (s.pc j) ≡ true
        → Move two_cv i s.mem (s.pc i) m' p'
        → m'.spool ≡ s.mem.spool
    ring_same j ne held mv = elim (Move-spool mv) [
      | inl same ↦ same
      | inr mine ↦ let e : i ≡ j = cc (inv.owns i mine, inv.owns j held) in absurd (ne e)
    ]

    pub Move-Outweighed :
        {m' : Shared A} {p' : Pc A}
        → Move two_cv i s.mem (s.pc i) m' p'
        → Outweighed n m' (update s.pc i p')
    Move-Outweighed {m'} {p'} mv = record {
      outside = λ j h. elim (ℕ_discrete i j) [
        | yes e ↦ absurd (omega (arith, lt))
        | no ne ↦ ground (arith, w.outside j h)
      ];
      strings = Strings-after m' p' lt (Move-Strings inv.log.ring.valid (w.empty i) mv);
      slots = Slots-after m' p' lt (Move-Slots inv.log.ring.valid (w.full i) mv);
      empty = λ j h. elim (ℕ_discrete i j) [
        | yes e ↦ Move-saw_empty mv (ground arith)
        | no ne ↦
            let before : saw_empty (s.pc j) ≡ true = ground arith in
            rw (ring_same j ne (saw_empty-holds (s.pc j) before) mv) (w.empty j before)
      ];
      full = λ j h. elim (ℕ_discrete i j) [
        | yes e ↦ Move-saw_full mv (ground arith)
        | no ne ↦
            let before : saw_full (s.pc j) ≡ true = ground arith in
            rw (ring_same j ne (saw_full-holds (s.pc j) before) mv) (w.full j before)
      ];
    }
      where
        lt : i < n
        lt = inside i w (Move-absent mv)
