-- ===== src/Shell/Tokenizer/Quote.antt =====
-- Words that are written with quotes or backslashes are read back as they were.
use operating_systems_and_sy.Prelude.{
  ℕ, ◌+◌, ◌<◌, ◌≡◌, refl, ◌∙◌, ap, Bool, true, false, ◌||◌, some, List, [], ◌∷◌, ◌++◌, length,
  length-append, append-nil, append_assoc, arith, Bool-cases, inl, inr, if◌then◌else◌, ◌==◌,
}
use operating_systems_and_sy.CLib.{Text, isspace}
use operating_systems_and_sy.Shell.Tokenizer.Rounds.{lex_round, lex_escaped}
use operating_systems_and_sy.Shell.Tokenizer.Plain.{state, pushed, push_word-state}
use operating_systems_and_sy.Shell.Tokenizer.{
  Mode, normal, squote, dquote, enter, escape, end_word, append, action, take_char, perform, lex,
  n_max, quote_char, dquote_char, backslash, returned, tokenize,
}

-- Whether a character is written with a backslash: outside quotes each is, and inside only the
-- backslash and the closing quote.
abbrev pub needs_backslash : Mode → ℕ → Bool
needs_backslash normal c = true
needs_backslash squote c = c == quote_char || c == backslash
needs_backslash dquote c = c == dquote_char || c == backslash

abbrev pub quote_inside : Mode → Text → Text
quote_inside m [] = []
quote_inside m (c ∷ w) =
    if needs_backslash m c then backslash ∷ c ∷ quote_inside m w else c ∷ quote_inside m w

-- The quotes round the word.
abbrev pub delimiter : Mode → Text
delimiter normal = []
delimiter squote = quote_char ∷ []
delimiter dquote = dquote_char ∷ []

abbrev pub quote : Mode → Text → Text
quote m w = delimiter m ++ quote_inside m w ++ delimiter m

-- Each word in the way of quoting that stands beside it, and a space behind it.
unfoldable pub write_words : List (Mode × Text) → Text
write_words [] = []
write_words ((m, w) ∷ ws) = quote m w ++ b' ' ∷ write_words ws

abbrev pub words_of : List (Mode × Text) → List Text
words_of [] = []
words_of ((m, w) ∷ ws) = w ∷ words_of ws

-- Each word has a character, and fits the array with its NUL.
abbrev pub CanWrite : List (Mode × Text) → Type 0
CanWrite [] = Unit {0}
CanWrite ((m, w) ∷ ws) = ((0 < length w) × (length w + 1 < n_max)) × CanWrite ws

action-backslash : (m : Mode) → action m backslash ≡ escape
unfolding action
action-backslash normal = refl
action-backslash squote = refl
action-backslash dquote = refl

action-inside : (m : Mode) (c : ℕ) → needs_backslash m c ≡ false → action m c ≡ append
unfolding action
action-inside normal c h = cc
action-inside squote c h = ground arith
action-inside dquote c h = ground arith

-- Inside the quotes the characters of the word are taken one by one.
lex-inside :
    (m : Mode) (w token rest : Text) (ws : List Text)
    → length token + length w + 1 < n_max
    → lex (quote_inside m w ++ rest) (state m token ws) ≡ lex rest (state m (token ++ w) ws)
unfolding take_char perform
lex-inside m [] token rest ws h = rw (append-nil token)
lex-inside m (c ∷ w) token rest ws h =
    let len = length-append token (c ∷ []) in
    let more = lex-inside m w (token ++ c ∷ []) rest ws (omega (arith, len)) in
    let more' = more ∙ ap (λ t. lex rest (state m t ws)) (append_assoc token (c ∷ []) w) in
    elim (Bool-cases (needs_backslash m c)) [
      | inl b ↦ rw b (
          lex_escaped backslash c (quote_inside m w ++ rest) (state m token ws) (action-backslash m)
            (omega arith)
          ∙ more')
      | inr b ↦ rw b (
          lex_round c (quote_inside m w ++ rest) (state m token ws) append (action-inside m c b)
            (λ k. cc) (omega (arith, len))
          ∙ more')
    ]

-- A quoted word is added to the token.
lex-quote :
    (m : Mode) (w rest : Text) (ws : List Text)
    → length w + 1 < n_max
    → lex (quote m w ++ rest) (state normal [] ws) ≡ lex rest (state normal w ws)
unfolding perform action
lex-quote normal w rest ws h =
    rw (append-nil (quote_inside normal w)) (lex-inside normal w [] rest ws (omega arith))
lex-quote squote w rest ws h = rw append_assoc (
    lex_round quote_char (quote_inside squote w ++ quote_char ∷ rest) (state normal [] ws)
      (enter squote) refl (λ k. cc) (omega arith)
    ∙ lex-inside squote w [] (quote_char ∷ rest) ws (omega arith)
    ∙ lex_round quote_char rest (state squote w ws) (enter normal) refl (λ k. cc) h)
lex-quote dquote w rest ws h = rw append_assoc (
    lex_round dquote_char (quote_inside dquote w ++ dquote_char ∷ rest) (state normal [] ws)
      (enter dquote) refl (λ k. cc) (omega arith)
    ∙ lex-inside dquote w [] (dquote_char ∷ rest) ws (omega arith)
    ∙ lex_round dquote_char rest (state dquote w ws) (enter normal) refl (λ k. cc) h)

pushed-word : (w : Text) (ws : List Text) → 0 < length w → pushed w ws ≡ ws ++ w ∷ []
pushed-word [] ws h = absurd (omega arith)
pushed-word (c ∷ w) ws h = refl

action-blank : action normal b' ' ≡ end_word
unfolding action isspace
action-blank = refl

lex-write_words :
    (qs : List (Mode × Text)) (ws : List Text)
    → CanWrite qs
    → lex (write_words qs) (state normal [] ws) ≡ some (state normal [] (ws ++ words_of qs))
unfolding write_words perform lex
lex-write_words [] ws h = rw (append-nil ws)
lex-write_words ((m, w) ∷ qs) ws h =
    let (pos, fits) = h.0 in
    let spaced =
      lex_round b' ' (write_words qs) (state normal w ws) end_word action-blank (λ k. cc)
        (rw (push_word-state normal w ws) (omega arith)) in
    let push = push_word-state normal w ws ∙ ap (state normal []) (pushed-word w ws pos) in
    lex-quote m w (b' ' ∷ write_words qs) ws fits
    ∙ spaced
    ∙ rw push (
        lex-write_words qs (ws ++ w ∷ []) h.1
        ∙ ap (λ us. some (state normal [] us)) (append_assoc ws (w ∷ []) (words_of qs)))

-- Words that are written one after another with a space behind each, each with a backslash before
-- every character, in single quotes or in double quotes (with a backslash before a backslash and
-- before the closing quote inside), are the words that `tokenize` returns, if each has a character
-- and less than 4095.
pub tokenize-write_words :
    (qs : List (Mode × Text))
    → CanWrite qs
    → tokenize (some (write_words qs)) ≡ returned (some (words_of qs))
unfolding tokenize
tokenize-write_words qs h =
    rw (lex-write_words qs [] h, tokenize, push_word-state normal [] (words_of qs))
