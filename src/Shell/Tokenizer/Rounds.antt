-- ===== src/Shell/Tokenizer/Rounds.antt =====
-- The rounds of the tokenizer's loop: the rule for an invariant, and when no round aborts.
use mathlib.Core.Path.{subst}
use operating_systems_and_sy.Prelude.{
  ℕ, ◌+◌, ◌<◌, ◌≤◌, ◌≡◌, ◌≢◌, refl, sym, Option, none, some, [], ◌∷◌, length, length-append, arith,
  ◌⊎◌, inl, inr, ◌∙◌,
}
use operating_systems_and_sy.CLib.{Text}
use operating_systems_and_sy.Shell.Tokenizer.{
  Lexer, Action, enter, escape, end_word, append, action, take_char, push_word, check, perform, lex,
  n_max,
}

-- A round that takes one character: all actions but the escape of a character that follows.
pub lex_one :
    (c d : ℕ) (line : Text) (s : Lexer)
    → action s.mode c ≢ escape
    → lex (c ∷ d ∷ line) s
      ≡ (elim (check (perform (action s.mode c) c s)) [ none ↦ none | some t ↦ lex (d ∷ line) t ])
unfolding lex
lex_one c d line s h = go (action s.mode c) refl
  where
    go :
        (a : Action)
        → action s.mode c ≡ a
        → lex (c ∷ d ∷ line) s ≡ (elim (check (perform (action s.mode c) c s)) [
          | none ↦ none
          | some t ↦ lex (d ∷ line) t
        ])
    go escape e = absurd (h e)
    go (enter m) e = rw (e, lex)
    go end_word e = rw (e, lex)
    go append e = rw (e, lex)

pub lex_escape :
    (c d : ℕ) (line : Text) (s : Lexer)
    → action s.mode c ≡ escape
    → lex (c ∷ d ∷ line) s ≡ (elim (check (take_char d s)) [ none ↦ none | some t ↦ lex line t ])
unfolding lex
lex_escape c d line s e = rw (e, lex)

pub check-some : (s t : Lexer) → check s ≡ some t → (t ≡ s) × (length s.token + 1 < n_max)
unfolding check
check-some s t h = ground arith

pub take_char-token : (c : ℕ) (s : Lexer) → length (take_char c s).token ≡ length s.token + 1
unfolding take_char
take_char-token c s = length-append s.token (c ∷ [])

-- A round lengthens the token by one character at most.
pub perform-token :
    (a : Action) (c : ℕ) (s : Lexer) → length (perform a c s).token ≤ length s.token + 1
unfolding perform push_word
perform-token (enter m) c s = omega arith
perform-token escape c s = omega arith
perform-token end_word c s = ground arith
perform-token append c s = omega (arith, take_char-token c s)

pub check_ok : (s : Lexer) → length s.token + 1 < n_max → check s ≡ some s
unfolding check
check_ok s h = ground arith

is_escape : (a : Action) → (a ≡ escape) ⊎ (a ≢ escape)
is_escape escape = inl refl
is_escape (enter m) = inr (λ h. cc)
is_escape end_word = inr (λ h. cc)
is_escape append = inr (λ h. cc)

bind_some :
    (o : Option Lexer) (f : Lexer → Option Lexer) (t : Lexer)
    → ◌≡◌ {A = Option Lexer} (elim o [ none ↦ none | some u ↦ f u ]) (some t)
    → (u : Lexer) × (o ≡ some u) × (f u ≡ some t)
bind_some none f t h = cc
bind_some (some u) f t h = (u, refl, h)

-- `P s line` before a round, with `line` left, and after it: then the last state has `P t []`.
module _ (P : Lexer → Text → Type 0)
    (escaped : (c d : ℕ) (line : Text) (s : Lexer)
      → P s (c ∷ d ∷ line)
      → length (take_char d s).token + 1 < n_max
      → P (take_char d s) line)
    (plain : (c : ℕ) (line : Text) (s : Lexer) (a : Action)
      → P s (c ∷ line)
      → length (perform a c s).token + 1 < n_max
      → P (perform a c s) line) where
  pub lex_inv : (line : Text) (s t : Lexer) → P s line → lex line s ≡ some t → P t []
  unfolding lex
  lex_inv [] s t p h = let e : s ≡ t = cc in subst (λ x. P x []) e p
  lex_inv (c ∷ []) s t p h =
      let (e, fits) = check-some (perform (action s.mode c) c s) t h in
      subst (λ x. P x []) (sym e) (plain c [] s (action s.mode c) p fits)
  lex_inv (c ∷ d ∷ line) s t p h = elim (is_escape (action s.mode c)) [
    | inl e ↦
        let (u, checked, more) =
          bind_some (check (take_char d s)) (lex line) t (sym (lex_escape c d line s e) ∙ h) in
        let (same, fits) = check-some (take_char d s) u checked in
        lex_inv line u t (subst (λ x. P x line) (sym same) (escaped c d line s p fits)) more
    | inr e ↦
        let (u, checked, more) =
          bind_some (check (perform (action s.mode c) c s)) (lex (d ∷ line)) t
            (sym (lex_one c d line s e) ∙ h) in
        let (same, fits) = check-some (perform (action s.mode c) c s) u checked in
        lex_inv (d ∷ line) u t
          (subst (λ x. P x (d ∷ line)) (sym same) (plain c (d ∷ line) s (action s.mode c) p fits))
          more
  ]

-- A state whose token and line fit the array together runs to the end of the line.
pub lex_total :
    (line : Text) (s : Lexer)
    → length s.token + length line + 1 < n_max
    → (t : Lexer) × (lex line s ≡ some t)
unfolding lex
lex_total [] s h = (s, refl)
lex_total (c ∷ []) s h = (_, check_ok _ (omega (arith, perform-token (action s.mode c) c s)))
lex_total (c ∷ d ∷ line) s h = elim (is_escape (action s.mode c)) [
  | inl e ↦
      rw (lex_escape c d line s e, check_ok (take_char d s) (omega (arith, take_char-token d s)))
        (lex_total line (take_char d s) (omega (arith, take_char-token d s)))
  | inr e ↦
      let s' = perform (action s.mode c) c s in
      rw (lex_one c d line s e, check_ok s' (omega (arith, perform-token (action s.mode c) c s)))
        (lex_total (d ∷ line) s' (omega (arith, perform-token (action s.mode c) c s)))
]

-- One round, at a character that is not an escape: the rest of the line is read from the new state.
pub lex_round :
    (c : ℕ) (line : Text) (s : Lexer) (a : Action)
    → action s.mode c ≡ a
    → a ≢ escape
    → length (perform a c s).token + 1 < n_max
    → lex (c ∷ line) s ≡ lex line (perform a c s)
unfolding lex
lex_round c [] s a e h fits = rw e (check_ok (perform a c s) fits)
lex_round c (d ∷ line) s a e h fits =
    rw (lex_one c d line s (λ k. h (sym e ∙ k)), e, check_ok (perform a c s) fits)

-- One round at a backslash: the character behind it is taken as it is.
pub lex_escaped :
    (c d : ℕ) (line : Text) (s : Lexer)
    → action s.mode c ≡ escape
    → length s.token + 2 < n_max
    → lex (c ∷ d ∷ line) s ≡ lex line (take_char d s)
lex_escaped c d line s e fits =
    rw (lex_escape c d line s e, check_ok (take_char d s) (omega (arith, take_char-token d s)))
