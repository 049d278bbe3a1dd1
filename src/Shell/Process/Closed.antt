-- ===== src/Shell/Process/Closed.antt =====
-- Both processes close both ends of the pipe.
use operating_systems_and_sy.Prelude.{
  ℕ, ◌+◌, ◌≡◌, refl, Bool, true, false, List, [], ◌∷◌, ◌++◌, arith,
}
use operating_systems_and_sy.CLib.{Text}
use operating_systems_and_sy.Shell.Process.{
  End, read_end, write_end, Call, close_end, child_calls, copy_lines, parent_calls,
}

abbrev is_close : End → Call → ℕ
is_close read_end (close_end read_end) = 1
is_close write_end (close_end write_end) = 1
is_close e c = 0

-- How often an end is closed.
unfoldable pub closes : End → List Call → ℕ
closes e [] = 0
closes e (c ∷ calls) = is_close e c + closes e calls

closes-append : (e : End) (a b : List Call) → closes e (a ++ b) ≡ closes e a + closes e b
unfolding closes
closes-append e [] b = omega arith
closes-append e (c ∷ a) b = omega (arith, closes-append e a b)

closes-copy_lines : (e : End) (lines : List Text) → closes e (copy_lines lines) ≡ 0
unfolding closes copy_lines
closes-copy_lines e [] = refl
closes-copy_lines read_end (line ∷ lines) = omega (arith, closes-copy_lines read_end lines)
closes-copy_lines write_end (line ∷ lines) = omega (arith, closes-copy_lines write_end lines)

child_closes :
    (e : End) (f c x : Bool) (cmd : Text) (a : List Text) → closes e (child_calls f c x cmd a) ≡ 1
unfolding closes child_calls
child_closes read_end true true true cmd a = refl
child_closes read_end true true false cmd a = refl
child_closes read_end true false true cmd a = refl
child_closes read_end true false false cmd a = refl
child_closes read_end false true true cmd a = refl
child_closes read_end false true false cmd a = refl
child_closes read_end false false true cmd a = refl
child_closes read_end false false false cmd a = refl
child_closes write_end true true true cmd a = refl
child_closes write_end true true false cmd a = refl
child_closes write_end true false true cmd a = refl
child_closes write_end true false false cmd a = refl
child_closes write_end false true true cmd a = refl
child_closes write_end false true false cmd a = refl
child_closes write_end false false true cmd a = refl
child_closes write_end false false false cmd a = refl

parent_closes : (e : End) (c : Bool) (lines : List Text) → closes e (parent_calls c lines) ≡ 1
unfolding closes parent_calls
parent_closes read_end false lines = refl
parent_closes write_end false lines = refl
parent_closes read_end true lines =
    omega (arith, closes-append read_end (copy_lines lines) _, closes-copy_lines read_end lines)
parent_closes write_end true lines =
    omega (arith, closes-append write_end (copy_lines lines) _, closes-copy_lines write_end lines)

-- For a command that is no built-in, with or without an output file, `cat` alone or not, and whether
-- or not it can be executed, each end of the pipe is closed exactly once by the child and exactly once
-- by the shell, whatever lines the shell hands on.
pub ends_closed :
    (e : End) (has_file is_cat fails : Bool) (cmd : Text) (a lines : List Text)
    → (closes e (child_calls has_file is_cat fails cmd a) ≡ 1)
      × (closes e (parent_calls is_cat lines) ≡ 1)
ends_closed e has_file is_cat fails cmd a lines =
    (child_closes e has_file is_cat fails cmd a, parent_closes e is_cat lines)
