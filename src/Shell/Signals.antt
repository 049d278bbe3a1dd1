-- ===== src/Shell/Signals.antt =====
-- shell.c: the signals that the shell ignores and that a command accepts again. Signals have their
-- numbers on Linux.
pub mod Restored
mod Tests
use operating_systems_and_sy.Prelude.{
  ℕ, ◌≡◌, Bool, true, false, ◌||◌, List, [], ◌∷◌, ◌==◌, if◌then◌else◌,
}

-- SIG_DFL, SIG_IGN, or a handler.
pub data Disposition : Type 0 where
  default ignored caught : Disposition

abbrev pub Signals : Type 0
Signals = ℕ → Disposition

-- SIGKILL and SIGSTOP.
unfoldable pub is_fixed : ℕ → Bool
is_fixed s = s == 9 || s == 19

-- `signal(sig, d)`, which fails for SIGKILL and SIGSTOP.
unfoldable pub signal : ℕ → Disposition → Signals → Signals
signal sig d table s =
    let old = table s in if s == sig then if is_fixed sig then old else d else old

unfoldable pub signal_all : List ℕ → Disposition → Signals → Signals
signal_all [] d table = table
signal_all (sig ∷ sigs) d table = signal_all sigs d (signal sig d table)

-- The calls of `ignore_signal`, in their order.
abbrev pub ignored_signals : List ℕ
ignored_signals =
    1 ∷ 2 ∷ 3 ∷ 4 ∷ 5 ∷ 6 ∷ 6 ∷ 7 ∷ 8 ∷ 9 ∷ 10 ∷ 11 ∷ 12 ∷ 13 ∷ 14 ∷ 15 ∷ 16 ∷ 17 ∷ 17 ∷ 18 ∷ 19
    ∷ 20 ∷ 21 ∷ 22 ∷ 23 ∷ 24 ∷ 25 ∷ 26 ∷ 27 ∷ 28 ∷ 29 ∷ 29 ∷ 29 ∷ 30 ∷ 31 ∷ []

unfoldable pub ignore_signal : Signals → Signals
ignore_signal table = signal_all ignored_signals ignored table

-- Those of `accept_signal`.
abbrev pub accepted_signals : List ℕ
accepted_signals =
    1 ∷ 2 ∷ 3 ∷ 4 ∷ 5 ∷ 6 ∷ 6 ∷ 7 ∷ 8 ∷ 9 ∷ 10 ∷ 11 ∷ 12 ∷ 13 ∷ 14 ∷ 15 ∷ 16 ∷ 17 ∷ 17 ∷ 18 ∷ 19
    ∷ 20 ∷ 21 ∷ 22 ∷ 23 ∷ 24 ∷ 25 ∷ 26 ∷ 27 ∷ 28 ∷ 29 ∷ 29 ∷ 29 ∷ 30 ∷ 31 ∷ []

unfoldable pub accept_signal : Signals → Signals
accept_signal table = signal_all accepted_signals default table
