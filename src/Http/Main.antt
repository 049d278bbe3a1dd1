-- ===== src/Http/Main.antt =====
-- `main` and `serve_forever` of server.c, and the dispatchers of httpserver_basic.c,
-- httpserver_process.c and httpserver_thread.c.
pub mod Options
mod Tests
use operating_systems_and_sy.Prelude.{
  ℕ, zero, suc, ◌+◌, ◌^◌, ◌<◌, ◌≤◌, ◌≡◌, Bool, true, false, ◌&&◌, Option, none, some, List, [], ◌∷◌,
  ◌++◌, ltb, if◌then◌else◌,
}
use operating_systems_and_sy.CLib.{Text, codes, str_eq}
use operating_systems_and_sy.CLib.Atoi.{atoi}

-- `server_port`, `concurrency` and `server_files_directory`.
pub record Settings : Type 0 where
  pub server_port : ℕ
  pub concurrency : ℕ
  pub server_files_directory : Option Text

-- `main` goes on to serve, or exits with its usage.
pub data Started : Type 0 where
  serves : Settings → Started
  usage : Started

abbrev pub defaults : Settings
defaults = record { server_port = 8000; concurrency = 1; server_files_directory = none }

-- An `int` that is not below 1.
unfoldable pub is_positive : ℕ → Bool
is_positive n = ltb 0 n && ltb n (2 ^ 31)

-- The loop over the arguments, and the test behind it. The argument behind the last one is NULL.
unfoldable pub read_options : Settings → List Text → Started
read_options s [] = elim (s.server_files_directory) [ none ↦ usage | some d ↦ serves s ]
read_options s (opt ∷ []) = usage
read_options s (opt ∷ value ∷ rest) =
    if str_eq (codes "--files") opt
    then read_options (record s { server_files_directory = some value }) rest
    else if str_eq (codes "--port") opt
    then read_options (record s { server_port = atoi value }) rest
    else if str_eq (codes "--concurrency") opt
    then if is_positive (atoi value)
      then read_options (record s { concurrency = atoi value }) rest
      else usage
    else usage

unfoldable pub main : List Text → Started
main args = read_options defaults args

-- What a dispatcher does with a socket, by the process that does it.
pub data Event : Type 0 where
  handled : ℕ → Event
  closed : ℕ → Event
  child_handled : ℕ → Event
  child_closed : ℕ → Event
  thread_handled : ℕ → Event
  thread_closed : ℕ → Event

unfoldable pub dispatch_basic : ℕ → List Event
dispatch_basic fd = handled fd ∷ closed fd ∷ []

-- `forked` is whether `fork` made a child; the child's events may come before or after the parent's.
unfoldable pub dispatch_process : Bool → ℕ → List Event
dispatch_process forked fd =
    if forked then child_handled fd ∷ child_closed fd ∷ closed fd ∷ [] else closed fd ∷ []

-- The new thread's events, in `handle_client`; none where pthread_create fails, which is not checked.
unfoldable pub dispatch_thread : Bool → ℕ → List Event
dispatch_thread created fd = if created then thread_handled fd ∷ thread_closed fd ∷ [] else []

-- `serve_forever`, with what `socket`, `setsockopt`, `bind` and `listen` return and the results of the
-- first calls of `accept`: it exits, or hands on each socket that was accepted.
pub data Served : Type 0 where
  exits : Served
  serving : List Event → Served

unfoldable pub accept_loop : (ℕ → List Event) → List (Option ℕ) → List Event
accept_loop dispatch [] = []
accept_loop dispatch (none ∷ rest) = accept_loop dispatch rest
accept_loop dispatch (some fd ∷ rest) = dispatch fd ++ accept_loop dispatch rest

unfoldable pub serve_forever :
    (ℕ → List Event) → Bool → Bool → Bool → Bool → List (Option ℕ) → Served
serve_forever dispatch has_socket has_option has_bound listens accepts =
    if has_socket
    then if has_option
      then if has_bound
        then if listens then serving (accept_loop dispatch accepts) else exits
        else exits
      else exits
    else exits
