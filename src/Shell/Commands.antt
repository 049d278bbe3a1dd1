-- ===== src/Shell/Commands.antt =====
-- shell.c: the built-in commands, the search of PATH, and the arguments and redirections of a line.
pub mod Path
pub mod Redirect
mod Tests
use operating_systems_and_sy.Prelude.{
  ℕ, zero, suc, ◌+◌, ◌*◌, ◌<◌, ◌≤◌, ◌≡◌, Bool, true, false, Option, none, some, List, [], ◌∷◌, ◌++◌,
  length, get_elem?, ltb, leb, ◌==◌, if◌then◌else◌,
}
use operating_systems_and_sy.CLib.{Text, codes, str_eq}

-- The functions of `cmd_table`.
pub data Builtin : Type 0 where
  cmd_help cmd_exit cmd_pwd cmd_cd : Builtin

-- `fun_desc_t`
pub record FunDesc : Type 0 where
  pub fun : Builtin
  pub cmd : Text
  pub doc : Text

abbrev desc : Builtin → Text → Text → FunDesc
desc f c d = record { fun = f; cmd = c; doc = d }

abbrev pub cmd_table : List FunDesc
cmd_table =
    desc cmd_help (codes "?") (codes "show this help menu")
    ∷ desc cmd_exit (codes "exit") (codes "exit the command shell")
    ∷ desc cmd_pwd (codes "pwd") (codes "show the current working directory")
    ∷ desc cmd_cd (codes "cd") (codes "change the current working directory")
    ∷ []

-- The loop of `lookup`, from the i-th entry on; none is -1.
unfoldable pub lookup_from : List FunDesc → Text → ℕ → Option ℕ
lookup_from [] cmd i = none
lookup_from (d ∷ table) cmd i = if str_eq d.cmd cmd then some i else lookup_from table cmd (suc i)

unfoldable pub lookup : Option Text → Option ℕ
lookup none = none
lookup (some cmd) = lookup_from cmd_table cmd 0

-- What `cmd_help` prints.
unfoldable pub help_text : List FunDesc → Text
help_text [] = []
help_text (d ∷ table) = d.cmd ++ (codes " - " ++ (d.doc ++ (10 ∷ help_text table)))

-- How `get_cmd` ends: with the token itself or a name that `access` finds, with the last name that it
-- tried, with a block that nothing was written to, by a write past the block, or by `strlen(NULL)`.
pub data Command : Type 0 where
  found : Text → Command
  last : Text → Command
  unwritten : Command
  overflow : Command
  null_path : Command

-- The block of `len` bytes, after the test that may double it once.
unfoldable pub grown : ℕ → Text → ℕ
grown len dir = if ltb len (length dir) then len * 2 else len

-- The directory, a '/' and the token.
unfoldable pub candidate : Text → Text → Text
candidate dir token = dir ++ (b'/' ∷ token)

-- `access(name, F_OK) != -1`
module _ (access : Text → Bool) where
  -- The loop, with `dir` the characters from `i` to `j` and the rest of PATH from `j` on. The name
  -- with its NUL must fit the block.
  unfoldable pub search_path : Text → ℕ → Text → Text → Command
  search_path token len dir [] =
      if leb (length (candidate dir token) + 1) (grown len dir)
      then if access (candidate dir token)
        then found (candidate dir token)
        else last (candidate dir token)
      else overflow
  search_path token len dir (c ∷ rest) =
      let longer = search_path token len (dir ++ c ∷ []) rest in
      let next = search_path token (grown len dir) [] rest in
      if c == b':'
      then if leb (length (candidate dir token) + 1) (grown len dir)
        then if access (candidate dir token) then found (candidate dir token) else next
        else overflow
      else longer

  -- `path` is what `getenv("PATH")` returns; `j` starts at 1.
  unfoldable pub get_cmd : Option Text → Text → Command
  get_cmd path token = if access token then found token else elim path [
    | none ↦ null_path
    | some [] ↦ unwritten
    | some (c ∷ rest) ↦ search_path token 128 (c ∷ []) rest
  ]

-- What the loop over the tokens of a line builds: the arguments `a`, of which `l` fit, the name that
-- was last opened for the output, and whether each input file could be opened.
pub record Line : Type 0 where
  pub a : List Text
  pub l : ℕ
  pub output : Option (Option Text)
  pub valid : Bool

-- How the loop ends: it is done, it wrote past an array, or it opened the file NULL for reading.
pub data Parsed : Type 0 where
  parsed : Line → Parsed
  past_end : Parsed
  null_file : Parsed

abbrev pub word_size : ℕ
word_size = 1024

-- One word from an input file: the array is doubled when it is full, but an empty one stays empty.
unfoldable pub take_word : Line → Text → Option Line
take_word s w =
    let room = if leb s.l (length s.a) then s.l * 2 else s.l in
    if ltb (length w) word_size
    then if ltb (length s.a) room then some (record s { a = s.a ++ w ∷ []; l = room }) else none
    else none

unfoldable pub take_words : Line → List Text → Option Line
take_words s [] = some s
take_words s (w ∷ ws) = elim (take_word s w) [ none ↦ none | some t ↦ take_words t ws ]

-- `a[j++] = token`
unfoldable pub take_token : Line → Text → Option Line
take_token s token =
    if ltb (length s.a) s.l then some (record s { a = s.a ++ token ∷ [] }) else none

-- `files` gives the words of a file that `fopen` can open.
module _ (files : Text → Option (List Text)) where
  unfoldable pub read_file : Line → Text → Option Line
  read_file s name = elim (files name) [
    | none ↦ some (record s { valid = false })
    | some ws ↦ take_words s ws
  ]

  unfoldable pub redirect : Line → List Text → Parsed
  redirect s [] = parsed s
  redirect s (token ∷ []) =
      if str_eq token (codes ">")
      then parsed (record s { output = some none })
      else if str_eq token (codes "<")
      then null_file
      else elim (take_token s token) [ none ↦ past_end | some t ↦ parsed t ]
  redirect s (token ∷ name ∷ tokens) =
      if str_eq token (codes ">")
      then redirect (record s { output = some (some name) }) tokens
      else if str_eq token (codes "<")
      then elim (read_file s name) [ none ↦ past_end | some t ↦ redirect t tokens ]
      else elim (take_token s token) [ none ↦ past_end | some t ↦ redirect t (name ∷ tokens) ]

  unfoldable pub parse_line : List Text → Parsed
  parse_line tokens =
      redirect (record { a = []; l = length tokens; output = none; valid = true }) tokens

-- What the shell does with a line whose input files could be opened: a built-in command, `cat` on its
-- standard input, or a program with its arguments.
pub data Run : Type 0 where
  nothing : Run
  builtin : Builtin → Run
  cat_stdin : Run
  program : List Text → Run
  fails : Run

unfoldable pub run_line : List Text → Parsed → Run
run_line tokens past_end = fails
run_line tokens null_file = fails
run_line tokens (parsed s) =
    if s.valid
    then elim (lookup (get_elem? tokens 0)) [
      | some i ↦ elim (get_elem? cmd_table i) [ none ↦ fails | some d ↦ builtin d.fun ]
      | none ↦ elim (s.a) [
        | [] ↦ program []
        | w ∷ [] ↦ if str_eq w (codes "cat") then cat_stdin else program (w ∷ [])
        | w ∷ v ∷ ws ↦ program (w ∷ v ∷ ws)
      ]
    ]
    else nothing
