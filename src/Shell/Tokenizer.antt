-- ===== src/Shell/Tokenizer.antt =====
-- tokenizer.c: a line of text into words, with quotes and backslashes.
pub mod Rounds
pub mod Bounds
pub mod Plain
pub mod Quote
mod Tests
use operating_systems_and_sy.Prelude.{
  ℕ, zero, suc, ◌+◌, ◌^◌, Bool, true, false, Option, none, some, List, [], ◌∷◌, ◌++◌, length,
  get_elem?, leb, ltb, ◌==◌, if◌then◌else◌,
}
use operating_systems_and_sy.CLib.{Text, isspace}

pub data Mode : Type 0 where
  normal squote dquote : Mode

abbrev pub quote_char : ℕ
quote_char = 39

abbrev pub dquote_char : ℕ
dquote_char = 34

abbrev pub backslash : ℕ
backslash = 92

abbrev pub n_max : ℕ
n_max = 4096

-- `mode`, the `n` characters in the static array `token`, and the words that were pushed.
pub record Lexer : Type 0 where
  pub mode : Mode
  pub token : Text
  pub words : List Text

-- What one character calls for.
pub data Action : Type 0 where
  enter : Mode → Action
  escape : Action
  end_word : Action
  append : Action

unfoldable pub action : Mode → ℕ → Action
action normal c =
    if c == quote_char
    then enter squote
    else if c == dquote_char
    then enter dquote
    else if c == backslash
    then escape
    else if isspace c
    then end_word
    else append
action squote c =
    if c == quote_char then enter normal else if c == backslash then escape else append
action dquote c =
    if c == dquote_char then enter normal else if c == backslash then escape else append

-- `token[n++] = c`
unfoldable pub take_char : ℕ → Lexer → Lexer
take_char c s = record s { token = s.token ++ c ∷ [] }

-- The copy on the heap, and the array that `realloc` makes one longer.
abbrev pub copy_word : Text → Text
copy_word source = source

abbrev pub vector_push : List Text → Text → List Text
vector_push words elem = words ++ elem ∷ []

-- `if (n > 0) { copy_word; vector_push; n = 0; }`
unfoldable pub push_word : Lexer → Lexer
push_word s =
    if ltb 0 (length s.token)
    then record s { token = []; words = vector_push s.words (copy_word s.token) }
    else s

-- One round of the loop at the character `c`; `next` is the rest of the line, of which a backslash
-- takes a character. The result is the state and the rest, or `none` for the call of `abort`.
unfoldable pub check : Lexer → Option Lexer
check s = if leb n_max (length s.token + 1) then none else some s

unfoldable pub perform : Action → ℕ → Lexer → Lexer
perform (enter m) c s = record s { mode = m }
perform escape c s = s
perform end_word c s = push_word s
perform append c s = take_char c s

unfoldable pub lex : Text → Lexer → Option Lexer
lex [] s = some s
lex (c ∷ []) s = check (perform (action s.mode c) c s)
lex (c ∷ d ∷ line) s = elim (action s.mode c) [
  | escape ↦ elim (check (take_char d s)) [ none ↦ none | some t ↦ lex line t ]
  | enter m ↦ elim (check (perform (enter m) c s)) [ none ↦ none | some t ↦ lex (d ∷ line) t ]
  | end_word ↦ elim (check (perform end_word c s)) [ none ↦ none | some t ↦ lex (d ∷ line) t ]
  | append ↦ elim (check (perform append c s)) [ none ↦ none | some t ↦ lex (d ∷ line) t ]
]

abbrev pub start : Lexer
start = record { mode = normal; token = []; words = [] }

-- How `tokenize` ends: by `abort`, or with a pointer, which is NULL or to the words.
pub data Tokenized : Type 0 where
  aborted : Tokenized
  returned : Option (List Text) → Tokenized

unfoldable pub tokenize : Option Text → Tokenized
tokenize none = returned none
tokenize (some line) = elim (lex line start) [
  | none ↦ aborted
  | some s ↦ returned (some ((push_word s).words))
]

unfoldable pub tokens_get_length : Option (List Text) → ℕ
tokens_get_length none = 0
tokens_get_length (some ws) = length ws

unfoldable pub tokens_get_token : Option (List Text) → ℕ → Option Text
tokens_get_token none n = none
tokens_get_token (some ws) n = if leb (length ws) n then none else get_elem? ws n
