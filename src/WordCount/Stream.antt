-- ===== src/WordCount/Stream.antt =====
-- word_helpers.c: the words of a stream, and how `count_words` enters them in a list.
pub mod Words
pub mod Get
pub mod Counts
pub mod Tallied
use operating_systems_and_sy.Prelude.{
  ℕ, zero, suc, ◌+◌, ◌*◌, ◌%◌, ◌^◌, Bool, true, false, ◌&&◌, ◌||◌, Option, none, some, List, [],
  ◌∷◌, ◌++◌, length, leb, ◌==◌, if◌then◌else◌,
}
use operating_systems_and_sy.CLib.{Text, isalpha, tolower}
use operating_systems_and_sy.WordCount.Table.{WordCounts, add_word}

-- What `get_word` comes to: a word, the result 0, or a write past the end of the buffer.
pub data Got : Type 0 where
  word : Text → Got
  nothing : Got
  overrun : Got

-- With the bytes of the stream that are left, and the number of requests for memory so far.
pub record Read : Type 0 where
  pub got : Got
  pub rest : List ℕ
  pub requests : ℕ

abbrev pub read : Got → List ℕ → ℕ → Read
read g s n = record { got = g; rest = s; requests = n }

-- What one round of the loop does to the buffer, of which `index` characters are written.
pub data Put : Type 0 where
  stored : (buffer : Text) (buffer_cap requests : ℕ) → Put
  refused : (requests : ℕ) → Put
  past_end : Put

-- `while (!isalpha(ch = fgetc(infile)))`: the first letter and what follows it, or the end.
unfoldable pub skip : List ℕ → Option (ℕ × List ℕ)
skip [] = none
skip (c ∷ s) = if isalpha c then some (c, s) else skip s

-- `buffer[index] = '\0'`
unfoldable pub terminate : Text → ℕ → List ℕ → ℕ → Read
terminate buffer buffer_cap s n =
    read (if leb buffer_cap (length buffer) then overrun else word buffer) s n

-- How `count_words` ends. The fuel is a bound on the words that are left.
pub data Outcome : Type 0 where
  counted : WordCounts → (requests : ℕ) → Outcome
  overran : Outcome
  out_of_fuel : Outcome

-- Whether the `n`-th request for memory is granted.
module _ (grant : ℕ → Bool) where
  -- `buffer[index++] = tolower(ch)`, and the expansion of a full buffer.
  unfoldable pub put : ℕ → Text → ℕ → ℕ → Put
  put ch buffer buffer_cap n =
      if leb buffer_cap (length buffer)
      then past_end
      else if length buffer + 1 == buffer_cap
      then (if grant n
          then stored (buffer ++ tolower ch ∷ []) (buffer_cap * 2 % 2 ^ 64) (n + 1)
          else refused (n + 1))
      else stored (buffer ++ tolower ch ∷ []) buffer_cap n

  -- From the test `while (isalpha(ch = fgetc(infile)))` on.
  unfoldable pub accumulate : List ℕ → Text → ℕ → ℕ → Read
  accumulate [] buffer buffer_cap n = terminate buffer buffer_cap [] n
  accumulate (ch ∷ s) buffer buffer_cap n =
      if isalpha ch
      then elim (put ch buffer buffer_cap n) [
        | stored buffer' buffer_cap' n' ↦ accumulate s buffer' buffer_cap' n'
        | refused n' ↦ read nothing s n'
        | past_end ↦ read overrun s n
      ]
      else terminate buffer buffer_cap s n

  -- The body of the `do` is run once for the first letter.
  unfoldable pub first_letter : ℕ → List ℕ → ℕ → Read
  first_letter ch s n = elim (put ch [] 16 n) [
    | stored buffer buffer_cap n' ↦ accumulate s buffer buffer_cap n'
    | refused n' ↦ read nothing s n'
    | past_end ↦ read overrun s n
  ]

  unfoldable pub get_word : List ℕ → ℕ → Read
  get_word infile n = elim (skip infile) [
    | none ↦ read nothing [] n
    | some (ch, s) ↦ if grant n then first_letter ch s (n + 1) else read nothing s (n + 1)
  ]

  -- A request number is set aside for the `malloc` of each call of `add_word`.
  unfoldable pub count_loop : ℕ → WordCounts → List ℕ → ℕ → Outcome
  count_loop zero wclist infile n = out_of_fuel
  count_loop (suc fuel) wclist infile n =
      let r = get_word infile n in
      elim (r.got) [
        | nothing ↦ counted wclist r.requests
        | overrun ↦ overran
        | word w ↦ elim (length w == 1) [
          | true ↦ count_loop fuel wclist r.rest r.requests
          | false ↦ elim ((add_word (grant r.requests) wclist w).1) [
            | true ↦
                count_loop fuel (add_word (grant r.requests) wclist w).0 r.rest (r.requests + 1)
            | false ↦ counted (add_word (grant r.requests) wclist w).0 (r.requests + 1)
          ]
        ]
      ]

  unfoldable pub count_words : WordCounts → List ℕ → ℕ → Outcome
  count_words wclist infile n = count_loop (suc (length infile)) wclist infile n
