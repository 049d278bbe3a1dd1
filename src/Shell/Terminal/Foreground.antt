-- ===== src/Shell/Terminal/Foreground.antt =====
-- Who has the terminal, after a call of the shell and in every reachable state.
use operating_systems_and_sy.Prelude.{
  ℕ, ◌≡◌, ◌≢◌, inl, inr, refl, sym, ◌∙◌, Bool, true, false, some, ◌||◌, ◌&&◌, ◌==◌, not, List, ◌∷◌,
  if◌then◌else◌, update, arith,
}
use mathlib.Core.Path.{subst}
use operating_systems_and_sy.Shell.Process.{
  Call, set_child_group, ignore_ttou, foreground_child, foreground_shell,
}
use operating_systems_and_sy.Shell.Terminal.{
  Tty, getpgid, give_terminal, by_shell, Pair, Step, child_call, child_ends, shell_call, Reach,
  here, step,
}
use operating_systems_and_sy.Shell.Terminal.Order.{has, owner, in_order}
use operating_systems_and_sy.Shell.Terminal.Belongs.{Inv, ended-Inv, child-Inv}

module _ (shell child own : ℕ) where
  gives :
      (pid : ℕ) (t : Tty)
      → t.ttou_ignored ≡ true
      → (pid == child && t.ended) ≡ false
      → give_terminal shell child pid t ≡ some (record t { foreground = t.group pid })
  unfolding give_terminal getpgid
  gives pid t e f =
      let s : (not t.ttou_ignored && not (t.foreground == t.group shell)) ≡ false =
        ground (arith, e) in
      rw (s, f) refl

  gives_nothing :
      (t : Tty)
      → t.ttou_ignored ≡ true
      → t.ended ≡ true
      → give_terminal shell child child t ≡ some t
  unfolding give_terminal getpgid
  gives_nothing t e f =
      let g : (child == child && t.ended) ≡ true = ground (arith, f) in
      let s : (not t.ttou_ignored && not (t.foreground == t.group shell)) ≡ false =
        ground (arith, e) in
      rw (s, g) refl

  stayed :
      {t : Tty} {left calls : List Call}
      → t.ended ≡ true
      → Inv shell child own t left (foreground_child ∷ calls)
      → t.foreground ≡ own
  unfolding has owner
  stayed gone inv = elim inv.foreground [ inl h ↦ h | inr h ↦ h.1 ]

  -- The terminal is the child's, if the child is there.
  given-Inv :
      child ≢ shell
      → {t : Tty} {left calls : List Call} (b : Bool) → t.ended ≡ b
      → Inv shell child own t left (foreground_child ∷ calls)
      → (t' : Tty) × (give_terminal shell child child t ≡ some t')
        × Inv shell child own t' left calls
  unfolding has in_order owner getpgid
  given-Inv ne {t} true gone inv = (
    t,
    gives_nothing t (inv.ignoring (ground (arith, inv.order))) gone,
    record {
      foreground = inr (gone, stayed gone inv);
      shell_group = inv.shell_group;
      moved = inv.moved;
      alone = inv.alone;
      executing = inv.executing;
      ignoring = inv.ignoring;
      order = ground (arith, inv.order);
      child_order = inv.child_order;
    },
  )
  given-Inv ne {t} false there inv = (
    record t { foreground = t.group child },
    gives child t (inv.ignoring (ground (arith, inv.order))) (ground (arith, there)),
    record {
      foreground = inl (ground (arith, inv.order, inv.moved));
      shell_group = inv.shell_group;
      moved = inv.moved;
      alone = inv.alone;
      executing = inv.executing;
      ignoring = inv.ignoring;
      order = ground (arith, inv.order);
      child_order = inv.child_order;
    },
  )

  taken-Inv :
      child ≢ shell
      → {t : Tty} {left calls : List Call} → Inv shell child own t left (foreground_shell ∷ calls)
      → (t' : Tty) × (give_terminal shell child shell t ≡ some t')
        × Inv shell child own t' left calls
  unfolding has in_order owner getpgid
  taken-Inv ne {t} inv = (
    record t { foreground = t.group shell },
    gives shell t (inv.ignoring (ground (arith, inv.order))) (ground (arith, ne)),
    record {
      foreground = inl (ground (arith, inv.order, inv.shell_group));
      shell_group = inv.shell_group;
      moved = inv.moved;
      alone = inv.alone;
      executing = inv.executing;
      ignoring = inv.ignoring;
      order = ground (arith, inv.order);
      child_order = inv.child_order;
    },
  )

  grouped-Inv :
      child ≢ shell
      → {t : Tty} {left calls : List Call} (b : Bool) → (t.executed || t.ended) ≡ b
      → Inv shell child own t left (set_child_group ∷ calls)
      → Inv shell child own
          (if b then t else record t { group = update t.group child child })
          left
          calls
  unfolding has in_order owner
  grouped-Inv ne true done inv = record {
    foreground = inv.foreground;
    shell_group = inv.shell_group;
    moved = λ h e. inv.alone (inv.executing (ground arith));
    alone = inv.alone;
    executing = inv.executing;
    ignoring = inv.ignoring;
    order = inv.order;
    child_order = inv.child_order;
  }
  grouped-Inv ne false not_yet inv = record {
    foreground = inv.foreground;
    shell_group = ground (arith, inv.shell_group);
    moved = λ h e. ground arith;
    alone = λ h. ground arith;
    executing = inv.executing;
    ignoring = inv.ignoring;
    order = inv.order;
    child_order = inv.child_order;
  }

  ignored-Inv :
      {t : Tty} {left calls : List Call}
      → Inv shell child own t left (ignore_ttou ∷ calls)
      → Inv shell child own (record t { ttou_ignored = true }) left calls
  unfolding has in_order owner
  ignored-Inv inv = record {
    foreground = inv.foreground;
    shell_group = inv.shell_group;
    moved = inv.moved;
    alone = inv.alone;
    executing = inv.executing;
    ignoring = λ h. refl;
    order = inv.order;
    child_order = inv.child_order;
  }

  -- The call does not stop the shell, and the terminal has the owner that it should have.
  pub shell-Inv :
      child ≢ shell
      → {t : Tty} (c : Call) {left calls : List Call} → Inv shell child own t left (c ∷ calls)
      → (t' : Tty) × (by_shell shell child c t ≡ some t') × Inv shell child own t' left calls
  unfolding by_shell has in_order owner
  shell-Inv ne {t} foreground_child inv = given-Inv ne t.ended refl inv
  shell-Inv ne {t} foreground_shell inv = taken-Inv ne inv
  shell-Inv ne {t} set_child_group inv = (_, refl, grouped-Inv ne (t.executed || t.ended) refl inv)
  shell-Inv ne ignore_ttou inv = (_, refl, ignored-Inv inv)
  shell-Inv ne {t} c {left} {calls} inv = (
    t,
    refl,
    record {
      foreground = inv.foreground;
      shell_group = inv.shell_group;
      moved = inv.moved;
      alone = inv.alone;
      executing = inv.executing;
      ignoring = inv.ignoring;
      order = inv.order;
      child_order = inv.child_order;
    },
  )

  same : {t t' : Tty} → some t ≡ some t' → t ≡ t'
  same e = cc

  step-Inv :
      child ≢ shell
      → {s s' : Pair} → Step shell child s s'
      → Inv shell child own s.tty s.child_left s.shell_left
      → Inv shell child own s'.tty s'.child_left s'.shell_left
  step-Inv ne (child_ends alive) inv = ended-Inv shell child own alive inv
  step-Inv ne {s} (child_call {c} {left} alive e) inv =
      child-Inv shell child own ne s.fails c alive
        (subst (λ (k : List Call). Inv shell child own s.tty k s.shell_left) e inv)
  step-Inv ne {s} (shell_call {c} {left} {t} e f) inv =
      let (t', g, after) =
        shell-Inv ne c
          (subst (λ (k : List Call). Inv shell child own s.tty s.child_left k) e inv) in
      subst (λ (k : Tty). Inv shell child own k s.child_left left) (same (sym g ∙ f)) after

  pub Reach-Inv :
      child ≢ shell
      → {s s' : Pair} → Reach shell child s s'
      → Inv shell child own s.tty s.child_left s.shell_left
      → Inv shell child own s'.tty s'.child_left s'.shell_left
  Reach-Inv ne here inv = inv
  Reach-Inv ne (step r st) inv = step-Inv ne st (Reach-Inv ne r inv)
