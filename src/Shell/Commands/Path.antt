-- ===== src/Shell/Commands/Path.antt =====
-- The search of PATH finds the first directory that has the command.
use operating_systems_and_sy.Prelude.{
  ℕ, ◌+◌, ◌≤◌, ◌≡◌, refl, sym, ◌∙◌, Bool, true, false, some, List, [], ◌∷◌, ◌++◌, length,
  length-append, leb, ◌==◌, if◌then◌else◌, Bool-cases, inl, inr, arith,
}
use operating_systems_and_sy.CLib.{Text}
use operating_systems_and_sy.Shell.Commands.{
  Command, found, last, unwritten, grown, candidate, search_path, get_cmd,
}

-- The parts of PATH between the colons, where `dir` is the part so far. A colon at the very start
-- belongs to the first part, since the search for a colon starts behind it.
unfoldable pub split_colons : Text → Text → List Text
split_colons dir [] = dir ∷ []
split_colons dir (c ∷ rest) =
    let next = split_colons [] rest in
    let longer = split_colons (dir ++ c ∷ []) rest in if c == b':' then dir ∷ next else longer

-- The name fits the block of 128 bytes with its NUL.
abbrev pub AllFit : Text → List Text → Type 0
AllFit token [] = Unit {0}
AllFit token (dir ∷ dirs) = (length dir + length token + 2 ≤ 128) × AllFit token dirs

grown-fits : (dir : Text) → length dir ≤ 128 → grown 128 dir ≡ 128
unfolding grown
grown-fits dir h = ground arith

candidate_fits :
    (token dir : Text)
    → length dir + length token + 2 ≤ 128
    → leb (length (candidate dir token) + 1) 128 ≡ true
unfolding candidate
candidate_fits token dir h = ground (arith, length-append dir (b'/' ∷ token))

split_end : (dir : Text) → split_colons dir [] ≡ dir ∷ []
unfolding split_colons
split_end dir = refl

split_colon :
    (dir : Text) (c : ℕ) (rest : Text)
    → (c == b':') ≡ true
    → split_colons dir (c ∷ rest) ≡ dir ∷ split_colons [] rest
unfolding split_colons
split_colon dir c rest e = rw e refl

split_more :
    (dir : Text) (c : ℕ) (rest : Text)
    → (c == b':') ≡ false
    → split_colons dir (c ∷ rest) ≡ split_colons (dir ++ c ∷ []) rest
unfolding split_colons
split_more dir c rest e = rw e refl

module _ (access : Text → Bool) where
  -- The first name that exists, or the last one that was tried.
  unfoldable pub first_found : Text → List Text → Command
  first_found token [] = unwritten
  first_found token (dir ∷ []) =
      if access (candidate dir token)
      then found (candidate dir token)
      else last (candidate dir token)
  first_found token (dir ∷ d ∷ dirs) =
      let rest = first_found token (d ∷ dirs) in
      if access (candidate dir token) then found (candidate dir token) else rest

  -- `next` is not empty.
  first_found-cons :
      (token dir next rest : Text)
      → first_found token (dir ∷ split_colons next rest) ≡ (
          if access (candidate dir token)
          then found (candidate dir token)
          else first_found token (split_colons next rest))
  unfolding split_colons first_found
  first_found-cons token dir next [] = refl
  first_found-cons token dir next (c ∷ rest) = elim (Bool-cases (c == b':')) [
    | inl e ↦ rw e refl
    | inr e ↦ rw e (first_found-cons token dir (next ++ c ∷ []) rest)
  ]

  search_end :
      (token dir : Text)
      → length dir + length token + 2 ≤ 128
      → search_path access token 128 dir [] ≡ (
          if access (candidate dir token)
          then found (candidate dir token)
          else last (candidate dir token))
  unfolding search_path
  search_end token dir h = rw (grown-fits dir (omega (arith, h)), candidate_fits token dir h) refl

  search_colon :
      (token dir : Text) (c : ℕ) (rest : Text)
      → (c == b':') ≡ true
      → length dir + length token + 2 ≤ 128
      → search_path access token 128 dir (c ∷ rest) ≡ (
          if access (candidate dir token)
          then found (candidate dir token)
          else search_path access token 128 [] rest)
  unfolding search_path
  search_colon token dir c rest e h =
      rw (e, grown-fits dir (omega (arith, h)), candidate_fits token dir h) refl

  search_more :
      (token dir : Text) (c : ℕ) (rest : Text)
      → (c == b':') ≡ false
      → search_path access token 128 dir (c ∷ rest)
        ≡ search_path access token 128 (dir ++ c ∷ []) rest
  unfolding search_path
  search_more token dir c rest e = rw e refl

  first_found-one :
      (token dir : Text)
      → first_found token (dir ∷ []) ≡ (
          if access (candidate dir token)
          then found (candidate dir token)
          else last (candidate dir token))
  unfolding first_found
  first_found-one token dir = refl

  search_path-first_found :
      (token dir rest : Text)
      → AllFit token (split_colons dir rest)
      → search_path access token 128 dir rest ≡ first_found token (split_colons dir rest)
  search_path-first_found token dir [] h =
      let fit : AllFit token (dir ∷ []) = rw split_end at h in
      rw split_end (search_end token dir fit.0 ∙ sym (first_found-one token dir))
  search_path-first_found token dir (c ∷ rest) h = elim (Bool-cases (c == b':')) [
    | inl e ↦
        let fit : AllFit token (dir ∷ split_colons [] rest) = rw (split_colon dir c rest e) at h in
        rw (split_colon dir c rest e) (
          search_colon token dir c rest e fit.0
          ∙ rw (search_path-first_found token [] rest fit.1)
              (sym (first_found-cons token dir [] rest)))
    | inr e ↦
        let fit : AllFit token (split_colons (dir ++ c ∷ []) rest) =
          rw (split_more dir c rest e) at h in
        rw (split_more dir c rest e)
          (search_more token dir c rest e ∙ search_path-first_found token (dir ++ c ∷ []) rest fit)
  ]

  -- With a PATH that is not empty and whose parts are short enough for the first block, a token that
  -- does not exist itself is looked for in each part in turn, and `get_cmd` returns the first name that
  -- exists, or the last one.
  pub get_cmd-first_found :
      (token : Text) (c : ℕ) (rest : Text)
      → access token ≡ false
      → AllFit token (split_colons (c ∷ []) rest)
      → get_cmd access (some (c ∷ rest)) token ≡ first_found token (split_colons (c ∷ []) rest)
  unfolding get_cmd
  get_cmd-first_found token c rest missing fit =
      rw missing (search_path-first_found token (c ∷ []) rest fit)
