-- ===== src/Http/Main/Tests.antt =====
-- A command line of the server.
use operating_systems_and_sy.Prelude.{◌≡◌, refl, true, none, some, List, [], ◌∷◌}
use operating_systems_and_sy.CLib.{codes}
use operating_systems_and_sy.Http.Main.{
  dispatch_basic, handled, closed, serving, serve_forever, accept_loop,
}
use operating_systems_and_sy.Http.Main.Options.{Setting, files, port, threads}

abbrev given : List Setting
given = files (codes "www") ∷ port 80 ∷ threads 5 ∷ []

-- A call of accept that fails is passed over.
one_fails :
    serve_forever dispatch_basic true true true true (none ∷ some 4 ∷ [])
    ≡ serving (handled 4 ∷ closed 4 ∷ [])
unfolding serve_forever accept_loop dispatch_basic
one_fails = refl
