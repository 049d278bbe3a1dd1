-- ===== src/WordCount/Stream/Words.antt =====
-- `get_word` against the words of a text: its maximal runs of letters, in lower case.
use operating_systems_and_sy.Prelude.{
  ℕ, ◌+◌, ◌^◌, ◌<◌, ◌≤◌, ◌≡◌, ◌≢◌, refl, inl, inr, Bool, true, none, some, List, [], ◌∷◌, ◌++◌,
  length, length-append, if◌then◌else◌, arith, Bool-cases,
}
use operating_systems_and_sy.CLib.{Text, isalpha, tolower}
use operating_systems_and_sy.WordCount.Stream.{
  word, overrun, Read, Put, stored, refused, past_end, skip, terminate, put, accumulate,
}

-- A run of letters ends: the empty run is no word.
abbrev pub emit : Text → List Text → List Text
emit [] ws = ws
emit (c ∷ w) ws = (c ∷ w) ∷ ws

-- The words of `s`, where `run` is the run of letters just before it.
unfoldable pub words_from : List ℕ → Text → List Text
words_from [] run = emit run []
words_from (c ∷ s) run =
    if isalpha c then words_from s (run ++ tolower c ∷ []) else emit run (words_from s [])

pub skip-none : (s : List ℕ) → skip s ≡ none → words_from s [] ≡ []
unfolding skip words_from
skip-none [] h = refl
skip-none (c ∷ s) h = ground (arith, skip-none s)

pub skip-some :
    (s : List ℕ) (c : ℕ) (t : List ℕ)
    → skip s ≡ some (c, t)
    → (words_from s [] ≡ words_from t (tolower c ∷ [])) × (length t < length s)
unfolding skip words_from
skip-some [] c t h = cc
skip-some (x ∷ s) c t h = ground (arith, skip-some s c t)

emit-ne : (run : Text) (ws : List Text) → 0 < length run → emit run ws ≡ run ∷ ws
emit-ne [] ws h = absurd (omega arith)
emit-ne (c ∷ run) ws h = refl

-- The results of a round, to split on.
pub data Case (p : Put) : Type 0 where
  at_end : p ≡ past_end → Case p
  at_refusal : (n : ℕ) → p ≡ refused n → Case p
  at_store : (b : Text) (c n : ℕ) → p ≡ stored b c n → Case p

pub Put-cases : (p : Put) → Case p
Put-cases past_end = Case.at_end refl
Put-cases (refused n) = Case.at_refusal n refl
Put-cases (stored b c n) = Case.at_store b c n refl

module _ (grant : ℕ → Bool) where
  pub put-bounds :
      (ch : ℕ) (buffer : Text) (buffer_cap n : ℕ)
      → length buffer < buffer_cap
      → length buffer + 1 < 2 ^ 63
      → put grant ch buffer buffer_cap n ≢ past_end
  unfolding put
  put-bounds ch buffer buffer_cap n room small h = ground arith

  pub put-stored :
      (ch : ℕ) (buffer : Text) (buffer_cap n : ℕ) {b : Text} {c m : ℕ}
      → length buffer < buffer_cap
      → length buffer + 1 < 2 ^ 63
      → put grant ch buffer buffer_cap n ≡ stored b c m
      → (b ≡ buffer ++ tolower ch ∷ []) × (length b ≡ length buffer + 1) × (length b < c)
  unfolding put
  put-stored ch buffer buffer_cap n room small h =
      ground (arith, length-append buffer (tolower ch ∷ []))

  pub put-granted :
      ((m : ℕ) → grant m ≡ true)
      → (ch : ℕ) (buffer : Text) (buffer_cap n m : ℕ) → put grant ch buffer buffer_cap n ≢ refused m
  unfolding put
  put-granted all ch buffer buffer_cap n m h = ground (arith, all n)

  -- No round of the loop writes outside the buffer, and neither does the final NUL.
  pub accumulate-ne-overrun :
      (s : List ℕ) (buffer : Text) (buffer_cap n : ℕ)
      → length buffer < buffer_cap
      → length buffer + length s < 2 ^ 63
      → (accumulate grant s buffer buffer_cap n).got ≢ overrun
  unfolding accumulate terminate
  accumulate-ne-overrun [] b buffer_cap n room small = λ h. ground arith
  accumulate-ne-overrun (ch ∷ s) b buffer_cap n room small = elim (Bool-cases (isalpha ch)) [
    | inr end ↦ rw end (λ h. ground arith)
    | inl letter ↦ elim (Put-cases (put grant ch b buffer_cap n)) [
      | Case.at_end e ↦ absurd (put-bounds ch b buffer_cap n room (omega arith) e)
      | Case.at_refusal m e ↦ rw (letter, e, accumulate) (λ h. cc)
      | Case.at_store b' c m e ↦
          let (_, len, room') = put-stored ch b buffer_cap n room (omega arith) e in
          rw (letter, e, accumulate) (accumulate-ne-overrun s b' c m room' (omega arith))
    ]
  ]

  -- Nothing is put back into the stream.
  pub accumulate-rest :
      (s : List ℕ) (buffer : Text) (buffer_cap n : ℕ)
      → length (accumulate grant s buffer buffer_cap n).rest ≤ length s
  unfolding accumulate terminate
  accumulate-rest [] b buffer_cap n = omega arith
  accumulate-rest (ch ∷ s) b buffer_cap n = elim (Bool-cases (isalpha ch)) [
    | inr end ↦ rw end (omega arith)
    | inl letter ↦ elim (Put-cases (put grant ch b buffer_cap n)) [
      | Case.at_end e ↦ rw (letter, e, accumulate) (omega arith)
      | Case.at_refusal m e ↦ rw (letter, e, accumulate) (omega arith)
      | Case.at_store b' c m e ↦
          rw (letter, e, accumulate) (omega (arith, accumulate-rest s b' c m))
    ]
  ]

  -- What `get_word` returns is the next word, and the rest of the stream has the words that follow.
  pub record Next (run : Text) (s : List ℕ) (r : Read) : Type 0 where
    pub w : Text
    pub returned : r.got ≡ word w
    pub words : words_from s run ≡ w ∷ words_from r.rest []
    pub shorter : length r.rest ≤ length s
    pub proper : length run ≤ length w

  pub accumulate-Next :
      ((m : ℕ) → grant m ≡ true)
      → (s : List ℕ) (buffer : Text) (buffer_cap n : ℕ) → 0 < length buffer
      → length buffer < buffer_cap
      → length buffer + length s < 2 ^ 63
      → Next buffer s (accumulate grant s buffer buffer_cap n)
  unfolding accumulate terminate words_from
  accumulate-Next all [] b buffer_cap n some_run room small = record {
    w = b;
    returned = ground arith;
    words = ground (arith, emit-ne b [] some_run);
    shorter = ground arith;
    proper = omega arith;
  }
  accumulate-Next all (ch ∷ s) b buffer_cap n some_run room small = elim (Bool-cases (isalpha ch)) [
    | inr end ↦ rw end record {
      w = b;
      returned = ground arith;
      words = rw end (emit-ne b (words_from s []) some_run);
      shorter = ground arith;
      proper = omega arith;
    }
    | inl letter ↦ elim (Put-cases (put grant ch b buffer_cap n)) [
      | Case.at_end e ↦ absurd (put-bounds ch b buffer_cap n room (omega arith) e)
      | Case.at_refusal m e ↦ absurd (put-granted all ch b buffer_cap n m e)
      | Case.at_store b' c m e ↦
          let (longer, len, room') = put-stored ch b buffer_cap n room (omega arith) e in
          let next = accumulate-Next all s b' c m (omega arith) room' (omega arith) in
          rw (letter, e, accumulate)
            record {
              w = next.w;
              returned = next.returned;
              words = rw (letter, ← longer) next.words;
              shorter = omega (arith, next.shorter);
              proper = omega (arith, next.proper);
            }
    ]
  ]
