-- ===== src/Shell/Terminal/Order.antt =====
-- The order of the calls of the shell and of its child.
use operating_systems_and_sy.Prelude.{
  ℕ, ◌≡◌, refl, Bool, true, false, List, [], ◌∷◌, ◌++◌, ◌&&◌, ◌||◌, not, if◌then◌else◌, arith,
}
use operating_systems_and_sy.CLib.{Text}
use operating_systems_and_sy.Shell.Process.{
  write_end, Call, set_group, close_end, execute, set_child_group, ignore_ttou, foreground_child,
  foreground_shell, wait_child, send, child_calls, copy_lines, parent_calls,
}

abbrev pub is_set_group : Call → Bool
is_set_group set_group = true
is_set_group c = false

abbrev pub is_set_child_group : Call → Bool
is_set_child_group set_child_group = true
is_set_child_group c = false

abbrev pub is_ignore_ttou : Call → Bool
is_ignore_ttou ignore_ttou = true
is_ignore_ttou c = false

abbrev pub is_foreground_child : Call → Bool
is_foreground_child foreground_child = true
is_foreground_child c = false

abbrev pub is_foreground_shell : Call → Bool
is_foreground_shell foreground_shell = true
is_foreground_shell c = false

abbrev pub is_execute : Call → Bool
is_execute (execute cmd a) = true
is_execute c = false

-- Whether one of the calls is such a call.
unfoldable pub has : (Call → Bool) → List Call → Bool
has f [] = false
has f (c ∷ calls) = f c || has f calls

-- The group that the terminal should belong to, when the shell has these calls left.
unfoldable pub owner : ℕ → ℕ → List Call → ℕ
owner own child left =
    if has is_foreground_child left
    then own
    else if has is_foreground_shell left
    then child
    else own

-- What the calls that the shell has left do in their order.
unfoldable pub in_order : List Call → Bool
in_order [] = true
in_order (foreground_child ∷ calls) =
    not (has is_set_child_group calls)
    && not (has is_ignore_ttou calls)
    && not (has is_foreground_child calls)
    && has is_foreground_shell calls
    && in_order calls
in_order (foreground_shell ∷ calls) =
    not (has is_foreground_child calls)
    && not (has is_foreground_shell calls)
    && not (has is_ignore_ttou calls)
    && in_order calls
in_order (c ∷ calls) = in_order calls

-- The child sets its group before it executes the program.
unfoldable pub child_in_order : List Call → Bool
child_in_order [] = true
child_in_order (execute cmd a ∷ calls) = not (has is_set_group calls) && child_in_order calls
child_in_order (c ∷ calls) = child_in_order calls

has-append : (f : Call → Bool) (a b : List Call) → has f (a ++ b) ≡ has f a || has f b
unfolding has
has-append f [] b = refl
has-append f (c ∷ a) b = ground (arith, has-append f a b)

-- What the shell hands on to `cat` leaves the terminal alone.
copied_in_order :
    (lines : List Text) (calls : List Call)
    → in_order calls ≡ true
    → in_order (copy_lines lines ++ calls) ≡ true
unfolding copy_lines in_order
copied_in_order [] calls h = h
copied_in_order (line ∷ lines) calls h = copied_in_order lines calls h

has-copied :
    (f : Call → Bool) (lines : List Text)
    → ((line : Text) → f (send line) ≡ false)
    → (calls : List Call) → has f (copy_lines lines ++ calls) ≡ has f calls
unfolding copy_lines has
has-copied f [] none_of calls = refl
has-copied f (line ∷ lines) none_of calls =
    ground (arith, none_of line, has-copied f lines none_of calls)

abbrev last_calls : List Call
last_calls = close_end write_end ∷ wait_child ∷ foreground_shell ∷ []

pub shell-in_order :
    (is_cat : Bool) (lines : List Text) → in_order (parent_calls is_cat lines) ≡ true
unfolding in_order has parent_calls
shell-in_order false lines = refl
shell-in_order true lines =
    rw
      (
        has-copied is_set_child_group lines (λ l. refl) last_calls,
        has-copied is_ignore_ttou lines (λ l. refl) last_calls,
        has-copied is_foreground_child lines (λ l. refl) last_calls,
        has-copied is_foreground_shell lines (λ l. refl) last_calls,
        copied_in_order lines last_calls refl,
      )
      refl

pub child-in_order :
    (has_file is_cat fails : Bool) (cmd : Text) (a : List Text)
    → child_in_order (child_calls has_file is_cat fails cmd a) ≡ true
unfolding child_in_order has child_calls
child-in_order true true true cmd a = refl
child-in_order true true false cmd a = refl
child-in_order true false true cmd a = refl
child-in_order true false false cmd a = refl
child-in_order false true true cmd a = refl
child-in_order false true false cmd a = refl
child-in_order false false true cmd a = refl
child-in_order false false false cmd a = refl
