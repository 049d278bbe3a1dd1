-- ===== src/Shell/Tokenizer/Bounds.antt =====
-- The tokenizer stays inside its array.
use operating_systems_and_sy.Prelude.{
  ℕ, ◌+◌, ◌<◌, ◌≤◌, ◌≡◌, some, List, [], ◌∷◌, ◌++◌, length, length-append, arith, Option-cases, inl,
  inr,
}
use operating_systems_and_sy.CLib.{Text}
use operating_systems_and_sy.Shell.Tokenizer.Rounds.{lex_inv, lex_total}
use operating_systems_and_sy.Shell.Tokenizer.{
  Lexer, Action, enter, escape, end_word, append, take_char, push_word, perform, lex, start, n_max,
  returned, tokenize,
}

-- Every word that was pushed has a character, and fits the array with its NUL.
abbrev pub AllFit : List Text → Type 0
AllFit [] = Unit {0}
AllFit (w ∷ ws) = ((0 < length w) × (length w + 1 < n_max)) × AllFit ws

AllFit-snoc :
    (ws : List Text) (w : Text)
    → AllFit ws
    → 0 < length w
    → length w + 1 < n_max
    → AllFit (ws ++ w ∷ [])
AllFit-snoc [] w h pos fit = ((pos, fit), tt)
AllFit-snoc (v ∷ ws) w h pos fit = (h.0, AllFit-snoc ws w h.1 pos fit)

-- The characters of all the words.
abbrev pub total : List Text → ℕ
total [] = 0
total (w ∷ ws) = length w + total ws

total-snoc : (ws : List Text) (w : Text) → total (ws ++ w ∷ []) ≡ total ws + length w
total-snoc [] w = omega arith
total-snoc (v ∷ ws) w = omega (arith, total-snoc ws w)

-- What holds before each round: the token and its NUL fit the array, and the characters taken so far
-- and those that are left are no more than the line had.
record Fits (n : ℕ) (s : Lexer) (line : Text) : Type 0 where
  token : length s.token + 1 < n_max
  words : AllFit s.words
  taken : total s.words + length s.token + length line ≤ n

push-Fits : (n : ℕ) (s : Lexer) (line : Text) → Fits n s line → Fits n (push_word s) line
unfolding push_word
push-Fits n s line f = ground (arith, AllFit-snoc s.words s.token, total-snoc s.words s.token)

Fits-plain :
    (n c : ℕ) (line : Text) (s : Lexer) (a : Action)
    → Fits n s (c ∷ line)
    → length (perform a c s).token + 1 < n_max
    → Fits n (perform a c s) line
unfolding perform take_char
Fits-plain n c line s (enter m) f h = record {
  token = f.token;
  words = f.words;
  taken = omega (arith, f.taken);
}
Fits-plain n c line s escape f h = record {
  token = f.token;
  words = f.words;
  taken = omega (arith, f.taken);
}
Fits-plain n c line s end_word f h =
    push-Fits n s line (record { token = f.token; words = f.words; taken = omega (arith, f.taken) })
Fits-plain n c line s append f h = record {
  token = h;
  words = f.words;
  taken = omega (arith, f.taken, length-append s.token (c ∷ []));
}

Fits-escaped :
    (n c d : ℕ) (line : Text) (s : Lexer)
    → Fits n s (c ∷ d ∷ line)
    → length (take_char d s).token + 1 < n_max
    → Fits n (take_char d s) line
unfolding take_char
Fits-escaped n c d line s f h = record {
  token = h;
  words = f.words;
  taken = omega (arith, f.taken, length-append s.token (d ∷ []));
}

-- Whatever the line, every word that `tokenize` returns has a character and fits the array of 4096
-- with its NUL, and the words together have no more characters than the line.
pub tokenize_fits :
    (line : Text) (ws : List Text)
    → tokenize (some line) ≡ returned (some ws)
    → AllFit ws × (total ws ≤ length line)
unfolding tokenize
tokenize_fits line ws h = elim (Option-cases (lex line start)) [
  | inl e ↦ cc (rw (e, tokenize) at h)
  | inr found ↦
      let (t, e) = found in
      let f =
        lex_inv (Fits (length line)) (Fits-escaped (length line)) (Fits-plain (length line)) line
          start t (record { token = omega arith; words = tt; taken = omega arith }) e in
      let f' = push-Fits (length line) t [] f in
      let same : (push_word t).words ≡ ws = cc (rw (e, tokenize) at h) in
      rw (← same) (f'.words, omega (arith, f'.taken))
]

-- A line of less than 4095 characters is never aborted.
pub tokenize_total :
    (line : Text)
    → length line + 1 < n_max
    → (ws : List Text) × (tokenize (some line) ≡ returned (some ws))
unfolding tokenize
tokenize_total line h =
    let (t, e) = lex_total line start (omega arith) in ((push_word t).words, rw (e, tokenize))
