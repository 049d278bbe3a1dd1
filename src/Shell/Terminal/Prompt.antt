-- ===== src/Shell/Terminal/Prompt.antt =====
-- The terminal while a program is started, and at the prompts.
use operating_systems_and_sy.Prelude.{
  ℕ, suc, ap, inl, inr, ◌≡◌, ◌≢◌, refl, sym, ◌∙◌, ◌⊎◌, Bool, true, false, some, List, [], ◌∷◌, ◌==◌,
  Bool-cases, arith,
}
use mathlib.Core.Path.{subst}
use operating_systems_and_sy.CLib.{Text}
use operating_systems_and_sy.Shell.Process.{Call, child_calls, parent_calls}
use operating_systems_and_sy.Shell.Terminal.{
  Tty, started, tcsetpgrp, take_terminal, init_shell, forked, by_shell, Pair, Reach, after_fork,
  Prompts, first, program,
}
use operating_systems_and_sy.Shell.Terminal.Order.{has, owner, shell-in_order, child-in_order}
use operating_systems_and_sy.Shell.Terminal.Foreground.{shell-Inv, Reach-Inv}
use operating_systems_and_sy.Shell.Terminal.Belongs.{Inv}

module _ (shell : ℕ) (t : Tty) (child : ℕ) (has_file is_cat fails : Bool) (cmd : Text)
    (a lines : List Text) (front : t.foreground ≡ t.group shell) (ne : child ≢ shell) where
  begun-Inv :
      Inv shell child
        (t.group shell)
        (forked shell child t)
        (child_calls has_file is_cat fails cmd a)
        (parent_calls is_cat lines)
  unfolding forked has owner child_calls parent_calls
  begun-Inv = record {
    foreground = inl front;
    shell_group = ground arith;
    moved = λ h e. ground arith;
    alone = λ h. ground arith;
    executing = λ h. ground arith;
    ignoring = λ h. ground arith;
    order = shell-in_order is_cat lines;
    child_order = child-in_order has_file is_cat fails cmd a;
  }

  -- When the shell has the terminal and starts a program, then however the calls of the two processes
  -- follow each other, and whenever the child ends: the terminal belongs to the shell's group until the shell
  -- has given it away, then to the program's own group, and to the shell's again after the last call,
  -- unless the child has ended, when it may be with the shell's group in between as well; the program
  -- is executed in a group of its own; and no call of the shell is one at which SIGTTOU stops it.
  pub foreground_follows :
      {s : Pair}
      → Reach shell child (after_fork shell child has_file is_cat fails cmd a lines t) s
      → ((s.tty.foreground ≡ owner (t.group shell) child s.shell_left)
          ⊎ ((s.tty.ended ≡ true) × (s.tty.foreground ≡ t.group shell)))
        × (s.tty.executed ≡ true → s.tty.group child ≡ child)
        × ((c : Call) (left : List Call)
            → s.shell_left ≡ c ∷ left
            → (t' : Tty) × (by_shell shell child c s.tty ≡ some t'))
  unfolding after_fork
  foreground_follows {s} r =
      let inv = Reach-Inv shell child (t.group shell) ne r begun-Inv in
      (
        inv.foreground,
        λ e. inv.alone (inv.executing e),
        λ c left e.
            let (t', f, rest) = shell-Inv shell child (t.group shell) ne c (
              subst (λ (k : List Call). Inv shell child (t.group shell) s.tty s.child_left k) e
                inv) in
            (t', f),
      )

  returned :
      {s : Pair}
      → Reach shell child (after_fork shell child has_file is_cat fails cmd a lines t) s
      → s.shell_left ≡ []
      → (s.tty.foreground ≡ s.tty.group shell) × (s.tty.group shell ≡ t.group shell)
  unfolding owner has after_fork
  returned {s} r e =
      let inv = Reach-Inv shell child (t.group shell) ne r begun-Inv in
      let home : s.tty.foreground ≡ t.group shell = elim inv.foreground [
        | inl h ↦ rw e at h
        | inr h ↦ h.1
      ] in
      (home ∙ sym inv.shell_group, inv.shell_group)

Prompts-front :
    (shell : ℕ) {t u : Tty}
    → Prompts shell t u
    → t.foreground ≡ t.group shell
    → (u.foreground ≡ u.group shell) × (u.group shell ≡ t.group shell)
Prompts-front shell first front = (front, refl)
Prompts-front shell (program {u} child has_file is_cat fails cmd a lines before ne r done) front =
    let (front', same) = Prompts-front shell before front in
    let (back, kept) = returned shell u child has_file is_cat fails cmd a lines front' ne r done in
    (back, kept ∙ same)

took-front :
    (shell : ℕ) (is_group : Bool) {t : Tty} (now : Tty)
    → (is_group ≡ true → t.group shell ≡ shell)
    → now.foreground ≡ now.group shell
    → t ≡ tcsetpgrp is_group shell now
    → t.foreground ≡ t.group shell
unfolding tcsetpgrp
took-front shell true now leads same e = ap (λ (k : Tty). k.foreground) e ∙ sym (leads refl)
took-front shell false now leads same e = rw e same

taken-front :
    (shell : ℕ) (is_group : Bool) {t : Tty} {n : ℕ} (kills : ℕ) (seen : List Tty)
    → (is_group ≡ true → t.group shell ≡ shell)
    → take_terminal shell is_group kills seen ≡ started n t
    → t.foreground ≡ t.group shell
unfolding take_terminal
taken-front shell is_group kills [] leads e = absurd (cc)
taken-front shell is_group {t} kills (now ∷ later) leads e =
    elim (Bool-cases (now.foreground == now.group shell)) [
      | inl same ↦
          let e' = rw same at e in
          let at : t ≡ tcsetpgrp is_group shell now = cc in
          took-front shell is_group now leads (ground arith) at
      | inr differ ↦
          let e' = rw differ at e in taken-front shell is_group (suc kills) later leads e'
    ]

-- A shell on a terminal that has been started by `init_shell`, at once or after any number of stops,
-- finds its own group in the foreground at every prompt, whatever programs it has run and however their
-- calls and its own followed each other. It is assumed that a group with the number of the shell's
-- process has the shell in it.
pub prompt_foreground :
    (shell : ℕ) (is_group : Bool) (now : Tty) (later : List Tty) (n : ℕ) {t u : Tty}
    → (is_group ≡ true → t.group shell ≡ shell)
    → init_shell shell is_group true now later ≡ started n t
    → Prompts shell t u
    → u.foreground ≡ u.group shell
unfolding init_shell
prompt_foreground shell is_group now later n leads e p =
    (Prompts-front shell p (taken-front shell is_group 0 (now ∷ later) leads e)).0
