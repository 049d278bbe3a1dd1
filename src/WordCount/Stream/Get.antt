-- ===== src/WordCount/Stream/Get.antt =====
-- `get_word` returns the words of the stream one after another, and never leaves its buffer.
use operating_systems_and_sy.Prelude.{
  ℕ, ◌+◌, ◌^◌, ◌<◌, ◌≤◌, ◌≡◌, ◌≢◌, ◌∙◌, ◌⊎◌, inl, inr, Bool, true, List, [], ◌∷◌, length, arith,
  Bool-cases, Option-cases,
}
use operating_systems_and_sy.CLib.{Text, tolower}
use operating_systems_and_sy.WordCount.Stream.{
  word, nothing, overrun, skip, put, first_letter, get_word,
}
use operating_systems_and_sy.WordCount.Stream.Words.{
  words_from, skip-none, skip-some, Case, Put-cases, put-bounds, put-stored, put-granted,
  accumulate-ne-overrun, accumulate-rest, Next, accumulate-Next,
}

module _ (grant : ℕ → Bool) where
  first_letter-ne-overrun :
      (ch : ℕ) (s : List ℕ) (n : ℕ)
      → length s + 1 < 2 ^ 63
      → (first_letter grant ch s n).got ≢ overrun
  unfolding first_letter
  first_letter-ne-overrun ch s n small = elim (Put-cases (put grant ch [] 16 n)) [
    | Case.at_end e ↦ absurd (put-bounds grant ch [] 16 n (omega arith) (omega arith) e)
    | Case.at_refusal m e ↦ rw (e, first_letter) (λ h. cc)
    | Case.at_store b c m e ↦
        let (_, len, room) = put-stored grant ch [] 16 n (omega arith) (omega arith) e in
        rw (e, first_letter) (accumulate-ne-overrun grant s b c m room (omega arith))
  ]

  -- On any stream of less than 2^63 - 1 bytes, whichever requests for memory are granted, no write
  -- of `get_word` falls outside the buffer, the doublings of its capacity included.
  pub get_word-ne-overrun :
      (s : List ℕ) (n : ℕ) → length s + 1 < 2 ^ 63 → (get_word grant s n).got ≢ overrun
  unfolding get_word
  get_word-ne-overrun s n small = elim (Option-cases (skip s)) [
    | inl e ↦ rw (e, get_word) (λ h. cc)
    | inr found ↦
        let ((c, t), e) = found in
        let shorter = (skip-some s c t e).1 in
        elim (Bool-cases (grant n)) [
          | inl yes' ↦ rw (e, get_word, yes') (first_letter-ne-overrun c t (n + 1) (omega arith))
          | inr no' ↦ rw (e, get_word, no') (λ h. cc)
        ]
  ]

  first_letter-rest :
      (ch : ℕ) (s : List ℕ) (n : ℕ) → length (first_letter grant ch s n).rest ≤ length s
  unfolding first_letter
  first_letter-rest ch s n = elim (Put-cases (put grant ch [] 16 n)) [
    | Case.at_end e ↦ rw (e, first_letter) (omega arith)
    | Case.at_refusal m e ↦ rw (e, first_letter) (omega arith)
    | Case.at_store b c m e ↦ rw (e, first_letter) (accumulate-rest grant s b c m)
  ]

  -- When `get_word` returns a word, it has taken at least one byte of the stream, whichever requests
  -- for memory are granted.
  pub get_word-rest :
      (s : List ℕ) (n : ℕ) (w : Text)
      → (get_word grant s n).got ≡ word w
      → length (get_word grant s n).rest < length s
  unfolding get_word
  get_word-rest s n w h = elim (Option-cases (skip s)) [
    | inl e ↦ cc (rw (e, get_word) at h)
    | inr found ↦
        let ((c, t), e) = found in
        let shorter = (skip-some s c t e).1 in
        elim (Bool-cases (grant n)) [
          | inl yes' ↦ rw (e, get_word, yes') (omega (arith, first_letter-rest c t (n + 1)))
          | inr no' ↦ rw (e, get_word, no') (omega arith)
        ]
  ]

  module _ (all : (m : ℕ) → grant m ≡ true) where
    first_letter-Next :
        (ch : ℕ) (s : List ℕ) (n : ℕ)
        → length s + 1 < 2 ^ 63
        → Next grant (tolower ch ∷ []) s (first_letter grant ch s n)
    unfolding first_letter
    first_letter-Next ch s n small = elim (Put-cases (put grant ch [] 16 n)) [
      | Case.at_end e ↦ absurd (put-bounds grant ch [] 16 n (omega arith) (omega arith) e)
      | Case.at_refusal m e ↦ absurd (put-granted grant all ch [] 16 n m e)
      | Case.at_store b c m e ↦
          let (same, len, room) = put-stored grant ch [] 16 n (omega arith) (omega arith) e in
          rw (e, first_letter, ← same)
            (accumulate-Next grant all s b c m (omega arith) room (omega arith))
    ]

    -- With memory granted, `get_word` returns 0 where no word is left, and else the next word of the
    -- stream, with a rest that is shorter and has exactly the words that follow.
    pub get_word-next :
        (s : List ℕ) (n : ℕ)
        → length s + 1 < 2 ^ 63
        → (((get_word grant s n).got ≡ nothing) × (words_from s [] ≡ []))
          ⊎ ((w : Text) × ((get_word grant s n).got ≡ word w)
              × (words_from s [] ≡ w ∷ words_from (get_word grant s n).rest [])
              × (length (get_word grant s n).rest < length s)
              × (0 < length w))
    unfolding get_word
    get_word-next s n small = elim (Option-cases (skip s)) [
      | inl e ↦ inl (rw (e, get_word), skip-none s e)
      | inr found ↦
          let ((c, t), e) = found in
          let (begins, shorter) = skip-some s c t e in
          let next = first_letter-Next c t (n + 1) (omega arith) in
          inr (
            next.w,
            rw (e, get_word, all n) next.returned,
            rw (e, get_word, all n) (begins ∙ next.words),
            rw (e, get_word, all n) (omega (arith, next.shorter)),
            omega (arith, next.proper),
          )
    ]
