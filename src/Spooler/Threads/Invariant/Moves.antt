-- ===== src/Spooler/Threads/Invariant/Moves.antt =====
-- A step of one thread keeps the invariant.
use mathlib.Core.Path.{subst}
use operating_systems_and_sy.Prelude.{
  ℕ, ◌≡◌, refl, ◌≢◌, ◌∙◌, sym, ap, true, false, some, List, [], ◌∷◌, ◌++◌, Bool-cases, inl, inr,
  arith, append_assoc,
}
use operating_systems_and_sy.Spooler.Ring.{spool_full, spool_remove_unchecked}
use operating_systems_and_sy.Spooler.Ring.Fifo.{
  Represents, insert-Represents, remove-Represents, remove_none, Represents-empty,
}
use operating_systems_and_sy.Spooler.Threads.Thread.{
  Variant, safe, Shared, Pc, ins_test, rem_test, Move, call_insert, ins_acquire, ins_store,
  ins_reacquire, rem_acquire, rem_take, rem_reacquire, insert_step, remove_step, keeps_waiting,
  after_insert, after_remove,
}
use operating_systems_and_sy.Spooler.Threads.System.{joining, update, inserting, System}
use operating_systems_and_sy.Spooler.Threads.Invariant.Defs.{holds, got_null, Logged, Inv}

module _ {A : Type 0} where
  abbrev Nulls : Shared A → (ℕ → Pc A) → List A → Type 0
  Nulls m pc q = (i : ℕ) → got_null (pc i) ≡ true → (m.shutdown ≡ true) × (q ≡ [])

  snoc-Logged :
      {m : Shared A} {q : List A} (a : A)
      → Logged m q
      → spool_full m.spool ≡ false
      → Logged (insert_step m a) (q ++ a ∷ [])
  unfolding insert_step
  snoc-Logged {m} {q} a log room = record {
    ring = insert-Represents a log.ring room;
    balance = ap (λ (l : List A). l ++ a ∷ []) log.balance ∙ append_assoc m.removed q (a ∷ []);
  }

  take-Logged : {m : Shared A} {a : A} {q : List A} → Logged m (a ∷ q) → Logged (remove_step m) q
  unfolding remove_step
  take-Logged {m} {a} {q} log = record {
    ring = (remove-Represents log.ring).1;
    balance =
        rw (remove-Represents log.ring).0 (log.balance ∙ sym (append_assoc m.removed (a ∷ []) q));
  }

  take_none : {m : Shared A} → Logged m [] → remove_step m ≡ m
  unfolding remove_step
  take_none log = rw (remove_none log.ring)

  -- A removal from an empty spool goes on only after the shutdown.
  take_last :
      (v : Variant) (s : System A)
      → Logged s.mem []
      → (i : ℕ) → keeps_waiting v s.mem ≡ false
      → (j : ℕ) → (got_null (s.pc j) ≡ true → (s.mem.shutdown ≡ true) × ◌≡◌ {A = List A} [] [])
      → got_null (update s.pc i (after_remove v (spool_remove_unchecked s.mem.spool).1) j) ≡ true
      → s.mem.shutdown ≡ true
  take_last safe s log i go j n h = ground (arith, Represents-empty log.ring)
  take_last v s log i go j n h = ground (arith, Represents-empty log.ring)

  take_more :
      (v : Variant) (s : System A) {a : A} {q : List A}
      → Logged s.mem (a ∷ q)
      → (i j : ℕ) → (got_null (s.pc j) ≡ true → (s.mem.shutdown ≡ true) × (a ∷ q ≡ []))
      → got_null (update s.pc i (after_remove v (spool_remove_unchecked s.mem.spool).1) j) ≡ true
      → ⊥
  take_more v s log i j n h = ground (arith, (remove-Represents log.ring).0)

  take-Nulls :
      {v : Variant} {s : System A} (q : List A)
      → Inv v s q
      → (i : ℕ) → s.pc i ≡ rem_test
      → keeps_waiting v s.mem ≡ false
      → (q' : List A) × Logged (remove_step s.mem) q'
        × Nulls
            (remove_step s.mem)
            (update s.pc i (after_remove v (spool_remove_unchecked s.mem.spool).1))
            q'
  unfolding remove_step
  take-Nulls {v} {s} [] inv i e go = (
    [],
    rw (take_none inv.log) inv.log,
    λ j h. (take_last v s inv.log i go j (inv.nulls j) h, refl),
  )
  take-Nulls {v} {s} (a ∷ q) inv i e go =
      (q, take-Logged inv.log, λ j h. absurd (take_more v s inv.log i j (inv.nulls j) h))

  module _ {v : Variant} {s : System A} {q : List A} (inv : Inv v s q) (i : ℕ) where
    open inv use {log, owns, all_joined, flagged, nulls}

    Move-owns :
        {p p' : Pc A} {m' : Shared A}
        → Move v i s.mem p m' p'
        → s.pc i ≡ p
        → (j : ℕ) → holds (update s.pc i p' j) ≡ true
        → m'.buf_lock ≡ some j
    unfolding insert_step remove_step
    Move-owns call_insert e j h = ground (arith, owns j)
    Move-owns (ins_acquire free) e j h = ground (arith, owns j)
    Move-owns (ins_reacquire free) e j h = ground (arith, owns j)
    Move-owns (rem_acquire free) e j h = ground (arith, owns j)
    Move-owns (rem_reacquire free) e j h = ground (arith, owns j)
    Move-owns mv e j h = ground (arith, owns j, owns i)

    Move-shutdown :
        {p p' : Pc A} {m' : Shared A} → Move v i s.mem p m' p' → m'.shutdown ≡ s.mem.shutdown
    unfolding insert_step remove_step
    Move-shutdown call_insert = refl
    Move-shutdown mv = refl

    Move-inserting :
        {p p' : Pc A} {m' : Shared A}
        → Move v i s.mem p m' p'
        → s.pc i ≡ p
        → s.main ≢ joining
        → (j : ℕ) → inserting (update s.pc i p' j) ≡ false
    Move-inserting call_insert e w j = ground (arith, all_joined w j, all_joined w i)
    Move-inserting mv e w j = ground (arith, all_joined w j, all_joined w i)

    -- While a producer is in the spool, the main thread has not joined it.
    not_flagged : {a : A} {l : List A} → s.pc i ≡ ins_test a l → s.mem.shutdown ≡ false
    not_flagged e = elim (Bool-cases s.mem.shutdown) [
      | inl set ↦ absurd (ground (arith, all_joined (flagged set) i))
      | inr unset ↦ unset
    ]

    store-Nulls :
        {a : A} {l : List A} (q' : List A)
        → s.pc i ≡ ins_test a l
        → Nulls (insert_step s.mem a) (update s.pc i (after_insert v l)) q'
    unfolding insert_step
    store-Nulls q' e j h = ground (arith, nulls j, not_flagged e)

    same-Logged :
        {m' : Shared A}
        → m'.spool ≡ s.mem.spool
        → m'.inserted ≡ s.mem.inserted
        → m'.removed ≡ s.mem.removed
        → Logged m' q
    same-Logged {m'} e f g = record {
      ring = subst (λ sp. Represents sp q) (sym e) log.ring;
      balance = f ∙ log.balance ∙ ap (λ (l : List A). l ++ q) (sym g);
    }

    Move-Nulls :
        {p p' : Pc A} {m' : Shared A}
        → Move v i s.mem p m' p'
        → s.pc i ≡ p
        → (q' : List A) × Logged m' q' × Nulls m' (update s.pc i p') q'
    Move-Nulls (ins_store room) e = (q ++ _ ∷ [], snoc-Logged _ log room, store-Nulls _ e)
    Move-Nulls (rem_take go) e = take-Nulls q inv i e go
    Move-Nulls call_insert e = (q, log, λ j h. ground (arith, nulls j))
    Move-Nulls mv e = (q, same-Logged refl refl refl, λ j h. ground (arith, nulls j, nulls i))

    pub Move-Inv :
        {p' : Pc A} {m' : Shared A}
        → Move v i s.mem (s.pc i) m' p'
        → (q' : List A) × Inv v (record s { mem = m'; pc = update s.pc i p' }) q'
    Move-Inv mv =
        let (q', log', nulls') = Move-Nulls mv refl in
        (
          q',
          record {
            log = log';
            owns = Move-owns mv refl;
            all_joined = λ w. Move-inserting mv refl w;
            flagged = rw (Move-shutdown mv) flagged;
            never_joined = inv.never_joined;
            nulls = nulls';
          },
        )
