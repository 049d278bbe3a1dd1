-- ===== src/Shell/Tokenizer/Plain.antt =====
-- A line with no quote and no backslash: the tokenizer splits it at white space.
use operating_systems_and_sy.Prelude.{
  ℕ, suc, ◌+◌, ◌<◌, ◌≡◌, ◌≢◌, refl, sym, ◌∙◌, true, false, some, List, [], ◌∷◌, ◌++◌, length,
  length-append, append-nil, append_assoc, arith, Bool-cases, inl, inr, if◌then◌else◌, lt→ltb,
}
use operating_systems_and_sy.CLib.{Text, isspace}
use operating_systems_and_sy.Shell.Tokenizer.Rounds.{lex_round}
use operating_systems_and_sy.Shell.Tokenizer.{
  Mode, normal, Lexer, end_word, append, action, take_char, push_word, perform, lex, n_max,
  quote_char, dquote_char, backslash, returned, tokenize,
}

abbrev pub IsPlain : Text → Type 0
IsPlain [] = Unit {0}
IsPlain (c ∷ s) = ((c ≢ quote_char) × (c ≢ dquote_char) × (c ≢ backslash)) × IsPlain s

abbrev emit : Text → List Text → List Text
emit [] ws = ws
emit (c ∷ w) ws = (c ∷ w) ∷ ws

-- The runs of characters that are not white space, where `run` is the run just before the text.
unfoldable pub split_spaces : Text → Text → List Text
split_spaces [] run = emit run []
split_spaces (c ∷ s) run =
    if isspace c then emit run (split_spaces s []) else split_spaces s (run ++ c ∷ [])

abbrev pub state : Mode → Text → List Text → Lexer
state m token words = record { mode = m; token = token; words = words }

-- The words with the token behind them, if it has a character.
abbrev pub pushed : Text → List Text → List Text
pushed [] ws = ws
pushed (c ∷ token) ws = ws ++ (c ∷ token) ∷ []

pub push_word-state :
    (m : Mode) (token : Text) (ws : List Text)
    → push_word (state m token ws) ≡ state m [] (pushed token ws)
unfolding push_word
push_word-state m [] ws = refl
push_word-state m (c ∷ token) ws = rw (lt→ltb 0 (suc (length token)) (omega arith))

pushed-emit : (token : Text) (ws us : List Text) → pushed token ws ++ us ≡ ws ++ emit token us
pushed-emit [] ws us = refl
pushed-emit (c ∷ token) ws us = append_assoc ws ((c ∷ token) ∷ []) us

action-space :
    (c : ℕ)
    → c ≢ quote_char
    → c ≢ dquote_char
    → c ≢ backslash
    → isspace c ≡ true
    → action normal c ≡ end_word
unfolding action
action-space c p q r h = ground arith

action-plain :
    (c : ℕ)
    → c ≢ quote_char
    → c ≢ dquote_char
    → c ≢ backslash
    → isspace c ≡ false
    → action normal c ≡ append
unfolding action
action-plain c p q r h = ground arith

-- The state at the end of the line, with the last word pushed.
record Splits (line token : Text) (ws : List Text) : Type 0 where
  last : Lexer
  reached : lex line (state normal token ws) ≡ some last
  words : (push_word last).words ≡ ws ++ split_spaces line token

lex-Splits :
    (line token : Text) (ws : List Text)
    → IsPlain line
    → length token + length line + 1 < n_max
    → Splits line token ws
unfolding split_spaces lex perform take_char
lex-Splits [] token ws p h = record {
  last = state normal token ws;
  reached = refl;
  words =
      rw (push_word-state normal token ws)
        (sym (append-nil (pushed token ws)) ∙ pushed-emit token ws []);
}
lex-Splits (c ∷ line) token ws p h = elim (Bool-cases (isspace c)) [
  | inl space ↦
      let more = lex-Splits line [] (pushed token ws) p.1 (omega arith) in
      let round =
        lex_round c line (state normal token ws) end_word (action-space c p.0.0 p.0.1 p.0.2 space)
          (λ k. cc) (rw (push_word-state normal token ws) (omega arith)) in
      record {
        last = more.last;
        reached = round ∙ rw (push_word-state normal token ws) more.reached;
        words = rw space (more.words ∙ pushed-emit token ws (split_spaces line []));
      }
  | inr char ↦
      let len = length-append token (c ∷ []) in
      let more = lex-Splits line (token ++ c ∷ []) ws p.1 (omega (arith, len)) in
      let round =
        lex_round c line (state normal token ws) append (action-plain c p.0.0 p.0.1 p.0.2 char)
          (λ k. cc) (omega (arith, len)) in
      record { last = more.last; reached = round ∙ more.reached; words = rw char more.words }
]

-- A line of less than 4095 characters with no quote and no backslash comes apart into its runs of
-- characters that are not white space, in order.
pub tokenize-plain :
    (line : Text)
    → IsPlain line
    → length line + 1 < n_max
    → tokenize (some line) ≡ returned (some (split_spaces line []))
unfolding tokenize
tokenize-plain line p h =
    let r = lex-Splits line [] [] p (omega arith) in rw (r.reached, tokenize, r.words)
