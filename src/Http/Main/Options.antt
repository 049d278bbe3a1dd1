-- ===== src/Http/Main/Options.antt =====
-- Command lines of the server that are read as they were meant.
use operating_systems_and_sy.Prelude.{
  ℕ, ◌^◌, ◌<◌, ◌≡◌, refl, ◌∙◌, true, some, List, [], ◌∷◌, lt→ltb, arith,
}
use operating_systems_and_sy.CLib.{Text, codes, str_eq, strcmp}
use operating_systems_and_sy.CLib.Decimal.{decimal}
use operating_systems_and_sy.CLib.Atoi.{atoi, atoi-decimal}
use operating_systems_and_sy.Http.Main.{Settings, serves, defaults, is_positive, read_options, main}

pub data Setting : Type 0 where
  files : Text → Setting
  port : ℕ → Setting
  threads : ℕ → Setting

-- The settings as arguments, numbers in decimal.
unfoldable pub as_arguments : List Setting → List Text
as_arguments [] = []
as_arguments (files d ∷ more) = codes "--files" ∷ d ∷ as_arguments more
as_arguments (port n ∷ more) = codes "--port" ∷ decimal n ∷ as_arguments more
as_arguments (threads n ∷ more) = codes "--concurrency" ∷ decimal n ∷ as_arguments more

unfoldable pub apply : Settings → Setting → Settings
apply s (files d) = record s { server_files_directory = some d }
apply s (port n) = record s { server_port = n }
apply s (threads n) = record s { concurrency = n }

-- Later settings replace earlier ones.
unfoldable pub apply_all : Settings → List Setting → Settings
apply_all s [] = s
apply_all s (x ∷ more) = apply_all (apply s x) more

-- Numbers in the range of an `int`, and at least one thread.
abbrev pub InRange : List Setting → Type 0
InRange [] = Unit {0}
InRange (files d ∷ more) = InRange more
InRange (port n ∷ more) = (n < 2 ^ 31) × InRange more
InRange (threads n ∷ more) = ((0 < n) × (n < 2 ^ 31)) × InRange more

read_files :
    (s : Settings) (d : Text) (rest : List Text)
    → read_options s (codes "--files" ∷ d ∷ rest)
      ≡ read_options (record s { server_files_directory = some d }) rest
unfolding read_options str_eq strcmp
read_files s d rest = refl

read_port :
    (s : Settings) (v : Text) (rest : List Text)
    → read_options s (codes "--port" ∷ v ∷ rest)
      ≡ read_options (record s { server_port = atoi v }) rest
unfolding read_options str_eq strcmp
read_port s v rest = refl

read_threads :
    (s : Settings) (v : Text) (rest : List Text)
    → is_positive (atoi v) ≡ true
    → read_options s (codes "--concurrency" ∷ v ∷ rest)
      ≡ read_options (record s { concurrency = atoi v }) rest
unfolding read_options str_eq strcmp
read_threads s v rest h = rw h refl

positive : (n : ℕ) → 0 < n → n < 2 ^ 31 → is_positive n ≡ true
unfolding is_positive
positive n h k = rw (lt→ltb 0 n h, lt→ltb n (2 ^ 31) k) refl

read_end :
    (s : Settings) (d : Text) → s.server_files_directory ≡ some d → read_options s [] ≡ serves s
unfolding read_options
read_end s d e = rw e refl

read_options-settings :
    (settings : List Setting) (s : Settings)
    → InRange settings
    → read_options s (as_arguments settings) ≡ read_options (apply_all s settings) []
unfolding as_arguments apply_all apply
read_options-settings [] s h = refl
read_options-settings (files d ∷ more) s h =
    read_files s d (as_arguments more) ∙ read_options-settings more (apply s (files d)) h
read_options-settings (port n ∷ more) s h =
    read_port s (decimal n) (as_arguments more)
    ∙ rw (atoi-decimal n (omega (arith, h.0))) (read_options-settings more (apply s (port n)) h.1)
read_options-settings (threads n ∷ more) s h =
    read_threads s (decimal n) (as_arguments more)
      (rw (atoi-decimal n (omega (arith, h.0.1))) (positive n h.0.0 h.0.1))
    ∙ rw (atoi-decimal n (omega (arith, h.0.1)))
        (read_options-settings more (apply s (threads n)) h.1)

-- A command line of settings in range starts the server with the last of each, or the default, if a
-- directory is among them.
pub main-settings :
    (settings : List Setting) (d : Text)
    → InRange settings
    → (apply_all defaults settings).server_files_directory ≡ some d
    → main (as_arguments settings) ≡ serves (apply_all defaults settings)
unfolding main
main-settings settings d h e =
    read_options-settings settings defaults h ∙ read_end (apply_all defaults settings) d e
