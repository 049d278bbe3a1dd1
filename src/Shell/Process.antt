-- ===== src/Shell/Process.antt =====
-- shell.c: `cmd_pwd`, and the calls that the two processes make for a command that is no built-in.
pub mod Closed
pub mod Pwd
mod Tests
use operating_systems_and_sy.Prelude.{
  ℕ, zero, suc, ◌+◌, ◌*◌, ◌%◌, ◌^◌, ◌≡◌, Bool, true, false, Option, none, some, List, [], ◌∷◌, ◌++◌,
  if◌then◌else◌,
}
use operating_systems_and_sy.CLib.{Text, codes}

-- The two descriptors of `tube`.
pub data End : Type 0 where
  read_end write_end : End

pub data Call : Type 0 where
  accept_signals set_group stdout_to_file close_file : Call
  stdin_from_pipe stdin_saved stdout_saved : Call
  close_end : End → Call
  execute : Text → List Text → Call
  exit_child : ℕ → Call
  set_child_group ignore_ttou foreground_child foreground_shell wait_child : Call
  send : Text → Call

-- The child, up to its call of execl or execv, and what follows if that fails. `has_file` is the test
-- `fd != -1`, and `is_cat` whether the line is `cat` alone.
unfoldable pub child_calls : (has_file is_cat fails : Bool) → Text → List Text → List Call
child_calls has_file is_cat fails cmd a =
    let output = if has_file then stdout_to_file ∷ close_file ∷ [] else [] in
    let after = if fails then stdout_saved ∷ exit_child 2 ∷ [] else [] in
    let run =
      if is_cat
      then close_end write_end
        ∷ stdin_from_pipe
        ∷ close_end read_end
        ∷ execute cmd (codes "cat" ∷ [])
        ∷ []
      else close_end read_end ∷ close_end write_end ∷ execute cmd a ∷ [] in
    (accept_signals ∷ set_group ∷ output) ++ (run ++ after)

-- The lines of the shell's own input, handed on to `cat`.
unfoldable pub copy_lines : List Text → List Call
copy_lines [] = []
copy_lines (line ∷ lines) = send line ∷ copy_lines lines

unfoldable pub parent_calls : Bool → List Text → List Call
parent_calls is_cat lines =
    let copied = if is_cat then stdin_saved ∷ copy_lines lines else [] in
    (close_file ∷ set_child_group ∷ ignore_ttou ∷ foreground_child ∷ close_end read_end ∷ [])
    ++ (copied ++ (close_end write_end ∷ wait_child ∷ foreground_shell ∷ []))

-- The loop of `cmd_pwd`, with `getcwd len` the directory if it fits a buffer of `len` bytes.
unfoldable pub pwd_loop : (ℕ → Option Text) → ℕ → ℕ → Option Text
pwd_loop getcwd zero len = none
pwd_loop getcwd (suc fuel) len =
    let more = pwd_loop getcwd fuel (len * 2 % 2 ^ 32) in
    elim (getcwd len) [ some cwd ↦ some (cwd ++ 10 ∷ []) | none ↦ more ]

unfoldable pub cmd_pwd : (ℕ → Option Text) → ℕ → Option Text
cmd_pwd getcwd fuel = pwd_loop getcwd fuel 20
