-- ===== src/Shell/Session.antt =====
-- The loop of the shell over its input lines, in `main` of shell.c.
pub mod Survives
mod Tests
use operating_systems_and_sy.Prelude.{
  ℕ, zero, suc, ◌≡◌, Bool, true, false, Option, none, some, List, [], ◌∷◌, ◌++◌, if◌then◌else◌,
}
use operating_systems_and_sy.CLib.{Text}
use operating_systems_and_sy.Shell.Tokenizer.{Tokenized, aborted, returned, tokenize}
use operating_systems_and_sy.Shell.Commands.{
  Builtin, cmd_help, cmd_exit, cmd_pwd, cmd_cd, Run, nothing, builtin, cat_stdin, program, fails,
  parse_line, run_line,
}

-- How the shell ends, with what it has run: at the end of its input, by `exit`, by the `abort` of the
-- tokenizer, or by an access outside an array.
pub data Ended : Type 0 where
  at_end : List Run → Ended
  exited : List Run → Ended
  abort : List Run → Ended
  broken : List Run → Ended

unfoldable pub and_before : Run → Ended → Ended
and_before r (at_end rs) = at_end (r ∷ rs)
and_before r (exited rs) = exited (r ∷ rs)
and_before r (abort rs) = abort (r ∷ rs)
and_before r (broken rs) = broken (r ∷ rs)

-- A line is run, and the shell goes on unless it was `exit` or went wrong.
unfoldable pub go_on : Run → Ended → Ended
go_on fails rest = broken []
go_on nothing rest = and_before nothing rest
go_on (builtin cmd_exit) rest = exited (builtin cmd_exit ∷ [])
go_on (builtin b) rest = and_before (builtin b) rest
go_on cat_stdin rest = and_before cat_stdin rest
go_on (program a) rest = and_before (program a) rest

-- `lines` are what `fgets` returns, each of at most 4095 characters; what `cat` takes from the input is
-- not among them. `files` gives the words of the files that can be read.
module _ (files : Text → Option (List Text)) where
  unfoldable pub run_tokens : List Text → Ended → Ended
  run_tokens tokens rest = go_on (run_line tokens (parse_line files tokens)) rest

  unfoldable pub session : List Text → Ended
  session [] = at_end []
  session (line ∷ lines) =
      let rest = session lines in
      elim (tokenize (some line)) [
        | aborted ↦ abort []
        | returned none ↦ run_tokens [] rest
        | returned (some tokens) ↦ run_tokens tokens rest
      ]
