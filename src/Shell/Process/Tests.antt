-- ===== src/Shell/Process/Tests.antt =====
-- The pipe of `ls`, and the working directory.
use operating_systems_and_sy.Prelude.{
  ℕ, ◌≡◌, true, false, Option, none, some, [], ◌∷◌, ◌++◌, ltb, if◌then◌else◌, length, arith,
}
use operating_systems_and_sy.CLib.{Text, codes}
use operating_systems_and_sy.Shell.Process.{write_end, child_calls, parent_calls, cmd_pwd}
use operating_systems_and_sy.Shell.Process.Closed.{closes, ends_closed}
use operating_systems_and_sy.Shell.Process.Pwd.{Getcwd, cmd_pwd-ends}

ls_closed :
    (closes write_end (child_calls true false true (codes "/bin/ls") (codes "ls" ∷ [])) ≡ 1)
    × (closes write_end (parent_calls false []) ≡ 1)
ls_closed = ends_closed write_end true false true (codes "/bin/ls") (codes "ls" ∷ []) []

abbrev in_home : ℕ → Option Text
in_home len = if ltb (length (codes "/home")) len then some (codes "/home") else none

in_home-Getcwd : Getcwd in_home (codes "/home")
in_home-Getcwd = record { fits = λ len h. ground arith; refuses = λ len h. ground arith }

at_home : cmd_pwd in_home 6 ≡ some (codes "/home" ++ 10 ∷ [])
at_home = cmd_pwd-ends in_home (codes "/home") in_home-Getcwd (omega arith)
