-- ===== src/Shell/Session/Tests.antt =====
-- Two lines, of which the first leaves the shell.
use operating_systems_and_sy.Prelude.{◌≡◌, false, Option, none, List, [], ◌∷◌, arith}
use operating_systems_and_sy.CLib.{Text, codes}
use operating_systems_and_sy.Shell.Session.{session}
use operating_systems_and_sy.Shell.Session.Survives.{is_abort, session_survives}

abbrev no_files : Text → Option (List Text)
no_files name = none

exit_first : is_abort (session no_files (codes "exit" ∷ codes "ls" ∷ [])) ≡ false
exit_first =
    session_survives no_files (codes "exit" ∷ codes "ls" ∷ []) (omega arith, (omega arith, tt))
