-- ===== src/Http/Parse/Accepted.antt =====
-- Which buffers `http_request_parse` takes for a request, and which request.
use operating_systems_and_sy.Prelude.{
  ℕ, zero, suc, ◌<◌, ◌≡◌, refl, sym, ◌∙◌, ap, Bool, true, false, some, [], ◌∷◌, ◌++◌, ◌==◌, ==_iff,
  if◌then◌else◌, length, arith,
}
use operating_systems_and_sy.CLib.{Text, is_upper}
use operating_systems_and_sy.Http.Parse.{
  HttpRequest, Parsed, request, null, exited, overrun, nul, space, newline, peek, in_method,
  in_path, in_line, scan, advance, read_line, read_path, read_space, read_method,
  http_request_parse,
}
use operating_systems_and_sy.Http.Parse.Scan.{
  All, Stops, scan-append, scan_split, scan-All, scan-Stops,
}

-- What a request looks like: a method of capital letters, a space, a path with no space and no line
-- end, the rest of the line, and a line end; no NUL before that.
pub record IsRequest (buffer method path : Text) : Type 0 where
  pub line : Text
  pub tail : Text
  pub written : buffer ≡ method ++ space ∷ (path ++ (line ++ newline ∷ tail))
  pub letters : All in_method method
  pub any_letter : 0 < length method
  pub shown : All in_path path
  pub any_shown : 0 < length path
  pub in_first : All in_line line
  pub path_ends : Stops in_path (line ++ newline ∷ tail)

stops_space : in_method space ≡ false
unfolding in_method is_upper
stops_space = refl

stops_newline : in_line newline ≡ false
unfolding in_line
stops_newline = refl

not_empty : {A : Type 0} (n : ℕ) (a b : A) → 0 < n → (if n == 0 then a else b) ≡ b
not_empty zero a b h = absurd (omega arith)
not_empty (suc n) a b h = let e : (suc n == 0) ≡ false = ground arith in rw e refl

read_line-written :
    (m p line tail : Text)
    → All in_line line
    → read_line m p (line ++ newline ∷ tail) ≡ request (record { method = m; path = p })
unfolding read_line peek
read_line-written m p line tail h =
    rw (scan-append in_line line (newline ∷ tail) h stops_newline) refl

read_path-written :
    (grant : ℕ → Bool) (m p rest : Text)
    → All in_path p
    → 0 < length p
    → Stops in_path rest
    → grant 3 ≡ true
    → read_path grant m (p ++ rest) ≡ read_line m p rest
unfolding read_path
read_path-written grant m p rest h some_path ends three =
    rw (scan-append in_path p rest h ends, three) (not_empty (length p) _ _ some_path)

read_method-written :
    (grant : ℕ → Bool) (m rest : Text)
    → All in_method m
    → 0 < length m
    → grant 2 ≡ true
    → read_method grant (m ++ space ∷ rest) ≡ read_path grant m rest
unfolding read_method read_space peek
read_method-written grant m rest h some_method two =
    rw (scan-append in_method m (space ∷ rest) h stops_space, two)
      (not_empty (length m) _ _ some_method)

-- A buffer that has the form of a request, from a `read` that succeeded and with memory for all the
-- four blocks, is parsed into its method and its path.
pub parse-written :
    (grant : ℕ → Bool) (buffer m p : Text)
    → ((k : ℕ) → grant k ≡ true)
    → IsRequest buffer m p
    → http_request_parse grant (some buffer) ≡ request (record { method = m; path = p })
unfolding http_request_parse
parse-written grant buffer m p granted r =
    let rest = r.line ++ newline ∷ r.tail in
    rw (granted 0, granted 1, r.written)
      (read_method-written grant m (p ++ rest) r.letters r.any_letter (granted 2)
        ∙ read_path-written grant m p rest r.shown r.any_shown r.path_ends (granted 3)
        ∙ read_line-written m p r.line r.tail r.in_first)

from_peek : (s : Text) → (peek s == newline) ≡ true → (tail : Text) × (s ≡ newline ∷ tail)
unfolding peek
from_peek [] h = absurd (grind arith)
from_peek (c ∷ s) h = (s, ap (λ k. k ∷ s) ((==_iff c newline).0 h))

from_space : (s : Text) → (peek s == space) ≡ true → s ≡ space ∷ advance s
unfolding peek
from_space [] h = absurd (grind arith)
from_space (c ∷ s) h = ap (λ k. k ∷ s) ((==_iff c space).0 h)

nonzero : (n : ℕ) → (n == 0) ≡ false → 0 < n
nonzero n h = ground arith

stops_nul : (in_path nul ≡ false) × (in_line nul ≡ false)
unfolding in_path in_line
stops_nul = (refl, refl)

module _ {x : Parsed} {q : HttpRequest} where
  -- A stage that gives a request passed its test.
  passed : {b : Bool} → (if b then x else null) ≡ request q → (b ≡ true) × (x ≡ request q)
  passed {b = true} h = (refl, h)
  passed {b = false} h = absurd (cc h)

  granted_block : (b : Bool) → (if b then x else overrun) ≡ request q → x ≡ request q
  granted_block true h = h
  granted_block false h = absurd (cc h)

  some_taken : {b : Bool} → (if b then null else x) ≡ request q → (b ≡ false) × (x ≡ request q)
  some_taken {b = true} h = absurd (cc h)
  some_taken {b = false} h = (refl, h)

  memory : (b : Bool) → (if b then x else exited) ≡ request q → x ≡ request q
  memory true h = h
  memory false h = absurd (cc h)

read_line-request :
    (m p s : Text) (q : HttpRequest)
    → read_line m p s ≡ request q
    → (line : Text) × (tail : Text) × (s ≡ line ++ newline ∷ tail)
      × All in_line line
      × (request (record { method = m; path = p }) ≡ request q)
unfolding read_line
read_line-request m p s q h =
    let (at_end, same) = passed h in
    let (tail, e) = from_peek (scan in_line s).1 at_end in
    (
      (scan in_line s).0,
      tail,
      sym (scan_split in_line s) ∙ ap (λ r. (scan in_line s).0 ++ r) e,
      scan-All in_line s,
      same,
    )

read_path-request :
    (grant : ℕ → Bool) (m s : Text) (q : HttpRequest)
    → read_path grant m s ≡ request q
    → (p : Text) × (rest : Text) × (s ≡ p ++ rest)
      × All in_path p
      × (0 < length p)
      × Stops in_path rest
      × (read_line m p rest ≡ request q)
unfolding read_path
read_path-request grant m s q h =
    let (any, more) = some_taken h in
    (
      (scan in_path s).0,
      (scan in_path s).1,
      sym (scan_split in_path s),
      scan-All in_path s,
      nonzero (length (scan in_path s).0) any,
      scan-Stops in_path s stops_nul.0,
      granted_block (grant 3) more,
    )

read_method-request :
    (grant : ℕ → Bool) (s : Text) (q : HttpRequest)
    → read_method grant s ≡ request q
    → (m : Text) × (rest : Text) × (s ≡ m ++ space ∷ rest)
      × All in_method m
      × (0 < length m)
      × (read_path grant m rest ≡ request q)
unfolding read_method read_space
read_method-request grant s q h =
    let (any, more) = some_taken h in
    let (is_space, go) = passed (granted_block (grant 2) more) in
    let left = (scan in_method s).1 in
    (
      (scan in_method s).0,
      advance left,
      sym (scan_split in_method s) ∙ ap (λ r. (scan in_method s).0 ++ r) (from_space left is_space),
      scan-All in_method s,
      nonzero (length (scan in_method s).0) any,
      go,
    )

abbrev request_of : Parsed → HttpRequest
request_of (request q) = q
request_of null = record { method = []; path = [] }
request_of exited = record { method = []; path = [] }
request_of overrun = record { method = []; path = [] }

-- If `http_request_parse` returns a request, the bytes that `read` gave have the form of a request
-- with that method and that path.
pub parse-IsRequest :
    (grant : ℕ → Bool) (buffer : Text) (q : HttpRequest)
    → http_request_parse grant (some buffer) ≡ request q
    → IsRequest buffer q.method q.path
unfolding http_request_parse
parse-IsRequest grant buffer q h =
    let (m, after, e1, letters, any1, h1) =
      read_method-request grant buffer q (memory (grant 1) (memory (grant 0) h)) in
    let (p, rest, e2, shown, any2, ends, h2) = read_path-request grant m after q h1 in
    let (line, tail, e3, first, same) = read_line-request m p rest q h2 in
    let written = e1 ∙ ap (λ r. m ++ space ∷ r) (e2 ∙ ap (λ r. p ++ r) e3) in
    let stop : Stops in_path (line ++ newline ∷ tail) = rw (← e3) ends in
    rw (← ap request_of same) record {
      line = line;
      tail = tail;
      written = written;
      letters = letters;
      any_letter = any1;
      shown = shown;
      any_shown = any2;
      in_first = first;
      path_ends = stop;
    }
