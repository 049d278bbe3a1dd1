-- ===== src/Shell/Terminal/Tests.antt =====
-- A shell that is started in the background, and then runs `ls`.
use operating_systems_and_sy.Prelude.{
  ℕ, ℕ_discrete, some, ◌≡◌, ◌⊎◌, refl, true, false, List, [], ◌∷◌, arith,
}
use operating_systems_and_sy.CLib.{codes}
use operating_systems_and_sy.Shell.Process.{Call, child_calls, parent_calls}
use operating_systems_and_sy.Shell.Terminal.{
  Tty, started, tcsetpgrp, take_terminal, init_shell, forked, by_child, getpgid, give_terminal,
  by_shell, Pair, child_call, child_ends, shell_call, Reach, here, step, after_fork, first, program,
}
use operating_systems_and_sy.Shell.Terminal.Order.{owner}
use operating_systems_and_sy.Shell.Terminal.Prompt.{foreground_follows, prompt_foreground}

-- Every process is in the group of its own number.
abbrev in_front : ℕ → Tty
in_front g = record {
  foreground = g;
  group = λ p. p;
  executed = false;
  ended = false;
  ttou_ignored = true;
}

stops_twice :
    init_shell 100 true true (in_front 7) (in_front 8 ∷ in_front 100 ∷ [])
    ≡ started 2 (in_front 100)
unfolding init_shell take_terminal tcsetpgrp
stops_twice = refl

abbrev ls : Pair
ls = after_fork 100 101 false false false (codes "/bin/ls") (codes "ls" ∷ []) [] (in_front 100)

-- The shell makes its first four calls before the child has made one.
eager : (s : Pair) × Reach 100 101 ls s × (s.tty.foreground ≡ 101)
unfolding after_fork forked by_shell getpgid give_terminal parent_calls ℕ_discrete
eager = (
  _,
  step
      (step (step (step here (shell_call refl refl)) (shell_call refl refl)) (shell_call refl refl))
      (shell_call refl refl),
  refl,
)

foreground_follows_example :
    ((eager.0.tty.foreground ≡ owner 100 101 eager.0.shell_left)
      ⊎ ((eager.0.tty.ended ≡ true) × (eager.0.tty.foreground ≡ 100)))
    × (eager.0.tty.executed ≡ true → eager.0.tty.group 101 ≡ 101)
    × ((c : Call) (left : List Call)
        → eager.0.shell_left ≡ c ∷ left
        → (t' : Tty) × (by_shell 100 101 c eager.0.tty ≡ some t'))
foreground_follows_example =
    foreground_follows 100 (in_front 100) 101 false false false (codes "/bin/ls") (codes "ls" ∷ [])
      [] refl (λ e. absurd (omega (arith, e))) eager.1

-- The child is killed before the shell gives the terminal away, which then stays with the shell.
ended_first : (s : Pair) × Reach 100 101 ls s × (s.tty.foreground ≡ 100)
unfolding after_fork forked by_shell getpgid give_terminal parent_calls ℕ_discrete
ended_first = (
  _,
  step
      (step
        (step (step (step here (shell_call refl refl)) (shell_call refl refl))
          (shell_call refl refl))
        (child_ends refl))
      (shell_call refl refl),
  refl,
)

-- All the calls of the child, and then all those of the shell.
finished : (s : Pair) × Reach 100 101 ls s × (s.child_left ≡ []) × (s.shell_left ≡ [])
unfolding after_fork forked by_child by_shell getpgid give_terminal child_calls parent_calls
    ℕ_discrete
finished = (
  _,
  step
      (step
        (step
          (step
            (step
              (step
                (step
                  (step
                    (step
                      (step
                        (step (step (step here (child_call refl refl)) (child_call refl refl))
                          (child_call refl refl))
                        (child_call refl refl))
                      (child_call refl refl))
                    (shell_call refl refl))
                  (shell_call refl refl))
                (shell_call refl refl))
              (shell_call refl refl))
            (shell_call refl refl))
          (shell_call refl refl))
        (shell_call refl refl))
      (shell_call refl refl),
  refl,
  refl,
)

prompt_foreground_example : finished.0.tty.foreground ≡ finished.0.tty.group 100
prompt_foreground_example =
    prompt_foreground 100 true (in_front 7) (in_front 8 ∷ in_front 100 ∷ []) 2 (λ e. refl)
      stops_twice
      (program 101 false false false (codes "/bin/ls") (codes "ls" ∷ []) [] first
        (λ e. absurd (omega (arith, e))) finished.1 finished.3)
