-- ===== src/Http/Parse.antt =====
-- `http_request_parse` of libhttp.c.
pub mod Scan
pub mod Accepted
use operating_systems_and_sy.Prelude.{
  ℕ, zero, suc, ◌≡◌, Bool, true, false, not, ◌&&◌, ◌||◌, Option, none, some, List, [], ◌∷◌, ◌++◌,
  ◌==◌, if◌then◌else◌, min, length,
}
use operating_systems_and_sy.CLib.{Text, is_upper}

-- `struct http_request`
pub record HttpRequest : Type 0 where
  pub method : Text
  pub path : Text

-- What the call does: it returns a request or NULL, the program exits in `http_fatal_error`, or
-- memory outside a block is written.
pub data Parsed : Type 0 where
  request : HttpRequest → Parsed
  null : Parsed
  exited : Parsed
  overrun : Parsed

-- `LIBHTTP_REQUEST_MAX_SIZE`
abbrev pub request_max_size : ℕ
request_max_size = 8192

abbrev pub nul : ℕ
nul = 0

abbrev pub space : ℕ
space = b' '

abbrev pub newline : ℕ
newline = 10

-- `*read_end`; the byte behind the last one read is '\0'.
unfoldable pub peek : Text → ℕ
peek [] = nul
peek (c ∷ s) = c

-- The tests of the three loops.
unfoldable pub in_method : ℕ → Bool
in_method c = is_upper c

unfoldable pub in_path : ℕ → Bool
in_path c = not (c == nul) && not (c == space) && not (c == newline)

unfoldable pub in_line : ℕ → Bool
in_line c = not (c == nul) && not (c == newline)

-- `while (test(*read_end)) read_end++`: the characters between `read_start` and `read_end`, and those
-- from `read_end` on. The byte behind the last one is '\0', at which each of the tests stops.
unfoldable pub scan : (ℕ → Bool) → Text → Text × Text
scan test [] = ([], [])
scan test (c ∷ s) = let rest = scan test s in if test c then (c ∷ rest.0, rest.1) else ([], c ∷ s)

abbrev pub advance : Text → Text
advance [] = []
advance (c ∷ s) = s

-- The body of the `do`, from each of its four stages on. `grant` says which of the calls of `malloc`
-- give a block; the blocks for the method and for the path are not checked.
unfoldable pub read_line : Text → Text → Text → Parsed
read_line method path s =
    if peek (scan in_line s).1 == newline
    then request (record { method = method; path = path })
    else null

unfoldable pub read_path : (ℕ → Bool) → Text → Text → Parsed
read_path grant method s =
    let scanned = scan in_path s in
    if length scanned.0 == 0
    then null
    else if grant 3
    then read_line method scanned.0 scanned.1
    else overrun

unfoldable pub read_space : (ℕ → Bool) → Text → Text → Parsed
read_space grant method s = if peek s == space then read_path grant method (advance s) else null

unfoldable pub read_method : (ℕ → Bool) → Text → Parsed
read_method grant s =
    let scanned = scan in_method s in
    if length scanned.0 == 0
    then null
    else if grant 2
    then read_space grant scanned.0 scanned.1
    else overrun

-- `read_buffer[bytes_read] = '\0'` behind what `read` gave, which is in front of the block if `read`
-- failed and returned -1.
unfoldable pub http_request_parse : (ℕ → Bool) → Option Text → Parsed
http_request_parse grant received =
    if grant 0
    then if grant 1
      then elim received [ none ↦ overrun | some bytes ↦ read_method grant bytes ]
      else exited
    else exited
