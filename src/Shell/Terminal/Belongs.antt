-- ===== src/Shell/Terminal/Belongs.antt =====
-- The invariant of the terminal and the two processes, and the calls of the child.
use operating_systems_and_sy.Prelude.{
  ℕ, ◌≡◌, ◌≢◌, ◌⊎◌, inl, inr, refl, Bool, true, false, List, ◌∷◌, arith,
}
use operating_systems_and_sy.Shell.Process.{Call, set_group, execute, exit_child}
use operating_systems_and_sy.Shell.Terminal.{Tty, by_child}
use operating_systems_and_sy.Shell.Terminal.Order.{
  is_set_group, is_set_child_group, is_ignore_ttou, has, owner, in_order, child_in_order,
}

module _ (shell child own : ℕ) where
  -- The terminal belongs to its owner, or it stayed with the shell since the child had ended.
  pub record Inv (t : Tty) (child_left shell_left : List Call) : Type 0 where
    pub foreground :
        (t.foreground ≡ owner own child shell_left) ⊎ ((t.ended ≡ true) × (t.foreground ≡ own))
    pub shell_group : t.group shell ≡ own
    pub moved : has is_set_child_group shell_left ≡ false → t.ended ≡ false → t.group child ≡ child
    pub alone : has is_set_group child_left ≡ false → t.group child ≡ child
    pub executing : t.executed ≡ true → has is_set_group child_left ≡ false
    pub ignoring : has is_ignore_ttou shell_left ≡ false → t.ttou_ignored ≡ true
    pub order : in_order shell_left ≡ true
    pub child_order : child_in_order child_left ≡ true

  -- The child has ended.
  pub ended-Inv :
      {t : Tty} {left calls : List Call}
      → t.ended ≡ false
      → Inv t left calls
      → Inv (record t { ended = true }) left calls
  ended-Inv alive inv = record {
    foreground = stays inv.foreground;
    shell_group = inv.shell_group;
    moved = λ h e. absurd (cc (e));
    alone = inv.alone;
    executing = inv.executing;
    ignoring = inv.ignoring;
    order = inv.order;
    child_order = inv.child_order;
  }
    where
      stays :
          {f g o : ℕ} {e : Bool}
          → (f ≡ o) ⊎ ((e ≡ true) × (f ≡ g))
          → (f ≡ o) ⊎ ((true ≡ true) × (f ≡ g))
      stays (inl h) = inl h
      stays (inr (e, h)) = inr (refl, h)

  pub child-Inv :
      child ≢ shell
      → {t : Tty} (fails : Bool) (c : Call) {left calls : List Call} → t.ended ≡ false
      → Inv t (c ∷ left) calls
      → Inv (by_child child fails c t) left calls
  unfolding by_child has child_in_order
  child-Inv ne fails set_group alive inv = record {
    foreground = inv.foreground;
    shell_group = ground (arith, inv.shell_group);
    moved = λ h e. ground arith;
    alone = λ h. ground arith;
    executing = λ h. ground (arith, inv.executing h);
    ignoring = inv.ignoring;
    order = inv.order;
    child_order = inv.child_order;
  }
  child-Inv ne fails (execute cmd a) alive inv = record {
    foreground = inv.foreground;
    shell_group = inv.shell_group;
    moved = inv.moved;
    alone = inv.alone;
    executing = λ h. ground (arith, inv.child_order);
    ignoring = inv.ignoring;
    order = inv.order;
    child_order = ground (arith, inv.child_order);
  }
  child-Inv ne fails (exit_child status) alive inv = ended-Inv alive (record {
    foreground = inv.foreground;
    shell_group = inv.shell_group;
    moved = inv.moved;
    alone = inv.alone;
    executing = inv.executing;
    ignoring = inv.ignoring;
    order = inv.order;
    child_order = inv.child_order;
  })
  child-Inv ne fails c alive inv = record {
    foreground = inv.foreground;
    shell_group = inv.shell_group;
    moved = inv.moved;
    alone = inv.alone;
    executing = inv.executing;
    ignoring = inv.ignoring;
    order = inv.order;
    child_order = inv.child_order;
  }
