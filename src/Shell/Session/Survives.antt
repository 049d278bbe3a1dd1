-- ===== src/Shell/Session/Survives.antt =====
-- Lines on which the shell does not abort.
use operating_systems_and_sy.Prelude.{
  ◌+◌, ◌<◌, ◌≡◌, refl, Bool, true, false, Option, List, [], ◌∷◌, length,
}
use operating_systems_and_sy.CLib.{Text}
use operating_systems_and_sy.Shell.Tokenizer.{n_max}
use operating_systems_and_sy.Shell.Tokenizer.Bounds.{tokenize_total}
use operating_systems_and_sy.Shell.Commands.{
  cmd_help, cmd_exit, cmd_pwd, cmd_cd, Run, nothing, builtin, cat_stdin, program, fails, parse_line,
  run_line,
}
use operating_systems_and_sy.Shell.Session.{
  Ended, at_end, exited, abort, broken, and_before, go_on, run_tokens, session,
}

unfoldable pub is_abort : Ended → Bool
is_abort (abort rs) = true
is_abort e = false

abbrev pub AllShort : List Text → Type 0
AllShort [] = Unit {0}
AllShort (line ∷ lines) = (length line + 1 < n_max) × AllShort lines

and_before-is_abort : (r : Run) (e : Ended) → is_abort (and_before r e) ≡ is_abort e
unfolding and_before is_abort
and_before-is_abort r (at_end rs) = refl
and_before-is_abort r (exited rs) = refl
and_before-is_abort r (abort rs) = refl
and_before-is_abort r (broken rs) = refl

go_on_survives : (r : Run) (e : Ended) → is_abort e ≡ false → is_abort (go_on r e) ≡ false
unfolding go_on
go_on_survives fails e h = unfold is_abort in refl
go_on_survives nothing e h = rw (and_before-is_abort nothing e) h
go_on_survives (builtin cmd_exit) e h = unfold is_abort in refl
go_on_survives (builtin cmd_help) e h = rw (and_before-is_abort (builtin cmd_help) e) h
go_on_survives (builtin cmd_pwd) e h = rw (and_before-is_abort (builtin cmd_pwd) e) h
go_on_survives (builtin cmd_cd) e h = rw (and_before-is_abort (builtin cmd_cd) e) h
go_on_survives cat_stdin e h = rw (and_before-is_abort cat_stdin e) h
go_on_survives (program a) e h = rw (and_before-is_abort (program a) e) h

run_tokens_survives :
    (files : Text → Option (List Text)) (tokens : List Text) (e : Ended)
    → is_abort e ≡ false
    → is_abort (run_tokens files tokens e) ≡ false
unfolding run_tokens
run_tokens_survives files tokens e h =
    go_on_survives (run_line tokens (parse_line files tokens)) e h

-- On lines of less than 4095 characters the shell is never aborted by its tokenizer, whatever the files
-- hold.
pub session_survives :
    (files : Text → Option (List Text)) (lines : List Text)
    → AllShort lines
    → is_abort (session files lines) ≡ false
unfolding session
session_survives files [] h = unfold is_abort in refl
session_survives files (line ∷ lines) h =
    let (tokens, e) = tokenize_total line h.0 in
    rw (e, session)
      (run_tokens_survives files tokens (session files lines) (session_survives files lines h.1))
