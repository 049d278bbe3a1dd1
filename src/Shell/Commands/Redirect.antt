-- ===== src/Shell/Commands/Redirect.antt =====
-- The arguments and the output of a line without input redirection.
use operating_systems_and_sy.Prelude.{
  ◌+◌, ◌<◌, ◌≤◌, ◌≡◌, refl, ◌∙◌, ap, true, false, Option, none, some, List, [], ◌∷◌, ◌++◌, length,
  length-append, append_assoc, append-nil, lt→ltb, arith,
}
use operating_systems_and_sy.CLib.{Text, codes, str_eq, strcmp}
use operating_systems_and_sy.Shell.Commands.{
  Line, parsed, past_end, take_token, take_word, take_words, read_file, redirect, parse_line,
}

-- An argument, or a '>' with the file behind it.
pub data Item : Type 0 where
  argument : Text → Item
  into : Text → Item

unfoldable pub tokens_of : List Item → List Text
tokens_of [] = []
tokens_of (argument w ∷ items) = w ∷ tokens_of items
tokens_of (into name ∷ items) = codes ">" ∷ name ∷ tokens_of items

unfoldable pub arguments : List Item → List Text
arguments [] = []
arguments (argument w ∷ items) = w ∷ arguments items
arguments (into name ∷ items) = arguments items

-- The file that is opened last for the output, after those so far.
unfoldable pub last_into : Option (Option Text) → List Item → Option (Option Text)
last_into o [] = o
last_into o (argument w ∷ items) = last_into o items
last_into o (into name ∷ items) = last_into (some (some name)) items

-- No argument is "<" or ">".
abbrev pub ArePlain : List Item → Type 0
ArePlain [] = Unit {0}
ArePlain (argument w ∷ items) =
    ((str_eq w (codes ">") ≡ false) × (str_eq w (codes "<") ≡ false)) × ArePlain items
ArePlain (into name ∷ items) = ArePlain items

arguments_le : (items : List Item) → length (arguments items) ≤ length (tokens_of items)
unfolding arguments tokens_of
arguments_le [] = omega arith
arguments_le (argument w ∷ items) = omega (arith, arguments_le items)
arguments_le (into name ∷ items) = omega (arith, arguments_le items)

abbrev with_arguments : Line → List Text → Option (Option Text) → Line
with_arguments s ws o = record s { a = s.a ++ ws; output = o }

redirect_end : (files : Text → Option (List Text)) (s : Line) → redirect files s [] ≡ parsed s
unfolding redirect
redirect_end files s = refl

redirect_file :
    (files : Text → Option (List Text)) (s : Line) (name : Text) (tokens : List Text)
    → redirect files s (codes ">" ∷ name ∷ tokens)
      ≡ redirect files (record s { output = some (some name) }) tokens
unfolding redirect str_eq strcmp
redirect_file files s name tokens = refl

redirect_argument :
    (files : Text → Option (List Text)) (s : Line) (w : Text) (tokens : List Text)
    → str_eq w (codes ">") ≡ false
    → str_eq w (codes "<") ≡ false
    → length s.a < s.l
    → redirect files s (w ∷ tokens) ≡ redirect files (record s { a = s.a ++ w ∷ [] }) tokens
unfolding redirect take_token
redirect_argument files s w [] h k room = rw (h, k, lt→ltb (length s.a) s.l room) refl
redirect_argument files s w (t ∷ tokens) h k room = rw (h, k, lt→ltb (length s.a) s.l room) refl

redirect-items :
    (files : Text → Option (List Text)) (items : List Item) (s : Line)
    → ArePlain items
    → length s.a + length (arguments items) ≤ s.l
    → redirect files s (tokens_of items)
      ≡ parsed (with_arguments s (arguments items) (last_into s.output items))
unfolding tokens_of arguments last_into
redirect-items files [] s plain room = rw append-nil (redirect_end files s)
redirect-items files (argument w ∷ items) s plain room =
    redirect_argument files s w (tokens_of items) plain.0.0 plain.0.1 (omega arith)
    ∙ redirect-items files items (record s { a = s.a ++ w ∷ [] }) plain.1
        (omega (arith, length-append s.a (w ∷ [])))
    ∙ ap (λ ws. parsed (record s { a = ws; output = last_into s.output items }))
        (append_assoc s.a (w ∷ []) (arguments items))
redirect-items files (into name ∷ items) s plain room =
    redirect_file files s name (tokens_of items)
    ∙ redirect-items files items (record s { output = some (some name) }) plain room

-- A line of arguments other than "<" and ">", and of '>' with a file behind each, is taken apart into
-- its arguments in order and the file that is named last; nothing is written past the array.
pub parse_line-items :
    (files : Text → Option (List Text)) (items : List Item)
    → ArePlain items
    → parse_line files (tokens_of items)
      ≡ parsed (record {
        a = arguments items;
        l = length (tokens_of items);
        output = last_into none items;
        valid = true;
      })
unfolding parse_line
parse_line-items files items plain =
    redirect-items files items _ plain (omega (arith, arguments_le items))

-- A command, an input file of three words of less than 1024 characters, and one more argument: the
-- words fill the array, and the argument is written past its end.
pub parse_line-past_end :
    (files : Text → Option (List Text)) (w name v1 v2 v3 y : Text)
    → (str_eq w (codes ">") ≡ false) × (str_eq w (codes "<") ≡ false)
    → (str_eq y (codes ">") ≡ false) × (str_eq y (codes "<") ≡ false)
    → files name ≡ some (v1 ∷ v2 ∷ v3 ∷ [])
    → (length v1 < 1024) × (length v2 < 1024) × (length v3 < 1024)
    → parse_line files (w ∷ codes "<" ∷ name ∷ y ∷ []) ≡ past_end
unfolding parse_line redirect read_file take_words take_word take_token str_eq strcmp
parse_line-past_end files w name v1 v2 v3 y (h, h') (k, k') e (s1, s2, s3) =
    rw
      (
        h,
        h',
        e,
        lt→ltb (length v1) 1024 s1,
        lt→ltb (length v2) 1024 s2,
        lt→ltb (length v3) 1024 s3,
        k,
        k',
      )
      refl
