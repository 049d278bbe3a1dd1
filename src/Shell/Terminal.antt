-- ===== src/Shell/Terminal.antt =====
-- shell.c: the terminal. `init_shell`, and what the calls of Process do to the process groups while the
-- shell and its child run side by side.
pub mod Order
pub mod Belongs
pub mod Foreground
pub mod Prompt
mod Tests
use operating_systems_and_sy.Prelude.{
  ℕ, suc, ◌+◌, ◌≡◌, ◌≢◌, Bool, true, false, Option, none, some, List, [], ◌∷◌, ◌==◌, ◌&&◌, ◌||◌,
  not, if◌then◌else◌, update,
}
use operating_systems_and_sy.CLib.{Text}
use operating_systems_and_sy.Shell.Process.{
  Call, set_group, execute, exit_child, set_child_group, ignore_ttou, foreground_child,
  foreground_shell, child_calls, parent_calls,
}

-- What the kernel keeps: the group in the foreground of the terminal, the group of each process, whether
-- the child has executed its program, whether it has ended, and whether the shell ignores SIGTTOU. The
-- shell ignores SIGCHLD, so that a child that has ended is gone at once, with no process left to wait for.
pub record Tty : Type 0 where
  pub foreground : ℕ
  pub group : ℕ → ℕ
  pub executed : Bool
  pub ended : Bool
  pub ttou_ignored : Bool

-- How `init_shell` goes: the shell has stopped itself by SIGTTIN at each test and is in the background
-- still, or it has taken the terminal. The number counts the calls of `kill`.
pub data Init : Type 0 where
  stopped : ℕ → Init
  started : ℕ → Tty → Init

-- `tcsetpgrp(shell_terminal, group)`, with `is_group` whether there is such a group.
unfoldable pub tcsetpgrp : Bool → ℕ → Tty → Tty
tcsetpgrp is_group g t = if is_group then record t { foreground = g } else t

module _ (shell : ℕ) (is_group : Bool) where
  -- The loop, with the terminal as it is at each test: others change it while the shell is stopped.
  unfoldable pub take_terminal : ℕ → List Tty → Init
  take_terminal kills [] = stopped kills
  take_terminal kills (t ∷ later) =
      let again = take_terminal (suc kills) later in
      if t.foreground == t.group shell then started kills (tcsetpgrp is_group shell t) else again

  unfoldable pub init_shell : Bool → Tty → List Tty → Init
  init_shell interactive now later =
      if interactive then take_terminal 0 (now ∷ later) else started 0 now

-- `fork`: the child is in the group of the shell.
unfoldable pub forked : ℕ → ℕ → Tty → Tty
forked shell child t = record t {
  group = update t.group child (t.group shell);
  executed = false;
  ended = false;
}

-- A call of the child, with `fails` whether its program cannot be executed.
unfoldable pub by_child : ℕ → Bool → Call → Tty → Tty
by_child child fails set_group t = record t { group = update t.group child child }
by_child child fails (execute cmd a) t = record t { executed = not fails }
by_child child fails (exit_child status) t = record t { ended = true }
by_child child fails c t = t

-- `getpgid(pid)`: none where there is no such process.
unfoldable pub getpgid : ℕ → ℕ → Tty → Option ℕ
getpgid child pid t = if pid == child && t.ended then none else some (t.group pid)

-- `tcsetpgrp(STDIN_FILENO, getpgid(pid))` by the shell: none if SIGTTOU stops it. With -1 for a group,
-- `tcsetpgrp` fails.
unfoldable pub give_terminal : ℕ → ℕ → ℕ → Tty → Option Tty
give_terminal shell child pid t =
    if not t.ttou_ignored && not (t.foreground == t.group shell)
    then none
    else elim (getpgid child pid t) [ none ↦ some t | some g ↦ some (record t { foreground = g }) ]

-- A call of the shell. `setpgid` fails for a child that has executed its program or has ended.
unfoldable pub by_shell : ℕ → ℕ → Call → Tty → Option Tty
by_shell shell child set_child_group t =
    some (if t.executed || t.ended then t else record t { group = update t.group child child })
by_shell shell child ignore_ttou t = some (record t { ttou_ignored = true })
by_shell shell child foreground_child t = give_terminal shell child child t
by_shell shell child foreground_shell t = give_terminal shell child shell t
by_shell shell child c t = some t

-- The two processes, with the calls that each has still to make, and whether the child's program cannot be
-- executed.
pub record Pair : Type 0 where
  pub tty : Tty
  pub fails : Bool
  pub child_left : List Call
  pub shell_left : List Call

module _ (shell child : ℕ) where
  -- One call of either, or the end of the child, which a signal can kill before any call, and whose program
  -- can end at any time. `waitpid` returns when the child ends or is stopped, which can be before each of
  -- the child's calls, so that it does not hold up the shell here.
  pub data Step (s : Pair) : Pair → Type 0 where
    child_call :
        {c : Call} {left : List Call}
        → s.tty.ended ≡ false
        → s.child_left ≡ c ∷ left
        → Step s (record s { tty = by_child child s.fails c s.tty; child_left = left })
    child_ends : s.tty.ended ≡ false → Step s (record s { tty = record (s.tty) { ended = true } })
    shell_call :
        {c : Call} {left : List Call} {t : Tty}
        → s.shell_left ≡ c ∷ left
        → by_shell shell child c s.tty ≡ some t
        → Step s (record s { tty = t; shell_left = left })

  pub data Reach (s : Pair) : Pair → Type 0 where
    here : Reach s s
    step : {t u : Pair} → Reach s t → Step t u → Reach s u

-- The two processes when `fork` has returned.
unfoldable pub after_fork :
    (shell child : ℕ) → (has_file is_cat fails : Bool) → Text → List Text → List Text → Tty → Pair
after_fork shell child has_file is_cat fails cmd a lines t = record {
  tty = forked shell child t;
  fails = fails;
  child_left = child_calls has_file is_cat fails cmd a;
  shell_left = parent_calls is_cat lines;
}

-- Lines of the shell, from one prompt to another: a line that runs no program leaves the terminal alone,
-- and a program runs in a new process, until the shell has made its last call.
pub data Prompts (shell : ℕ) (t : Tty) : Tty → Type 0 where
  first : Prompts shell t t
  program :
      {u : Tty} {s : Pair} (child : ℕ) (has_file is_cat fails : Bool) (cmd : Text)
      (a lines : List Text)
      → Prompts shell t u
      → child ≢ shell
      → Reach shell child (after_fork shell child has_file is_cat fails cmd a lines u) s
      → s.shell_left ≡ []
      → Prompts shell t s.tty
