-- ===== src/Shell/Commands/Tests.antt =====
-- The commands of the shell on small lines.
use operating_systems_and_sy.Prelude.{
  ◌≡◌, refl, Bool, true, Option, none, some, List, [], ◌∷◌, length, arith,
}
use operating_systems_and_sy.CLib.{Text, codes, str_eq, strcmp}
use operating_systems_and_sy.Shell.Commands.{
  lookup, lookup_from, get_cmd, parsed, past_end, parse_line,
}
use operating_systems_and_sy.Shell.Commands.Path.{split_colons, first_found, get_cmd-first_found}
use operating_systems_and_sy.Shell.Commands.Redirect.{
  Item, argument, into, tokens_of, arguments, last_into, parse_line-items, parse_line-past_end,
}

cd_is_third : lookup (some (codes "cd")) ≡ some 3
unfolding lookup lookup_from str_eq strcmp
cd_is_third = refl

abbrev only_bin : Text → Bool
only_bin name = str_eq name (codes "/bin/ls")

get_cmd-first_found_example :
    get_cmd only_bin (some (codes "/usr:/bin")) (codes "ls")
    ≡ first_found only_bin (codes "ls") (split_colons (codes "/") (codes "usr:/bin"))
unfolding str_eq strcmp split_colons
get_cmd-first_found_example =
    get_cmd-first_found only_bin (codes "ls") (b'/') (codes "usr:/bin") refl
      (omega arith, (omega arith, tt))

abbrev three_words : Text → Option (List Text)
three_words name = some (codes "a" ∷ codes "b" ∷ codes "c" ∷ [])

abbrev items : List Item
items = argument (codes "ls") ∷ into (codes "out") ∷ argument (codes "-l") ∷ []

parse_line-items_example :
    parse_line three_words (tokens_of items)
    ≡ parsed (record {
      a = arguments items;
      l = length (tokens_of items);
      output = last_into none items;
      valid = true;
    })
unfolding str_eq strcmp
parse_line-items_example = parse_line-items three_words items ((refl, refl), ((refl, refl), tt))

parse_line-past_end_example :
    parse_line three_words (codes "ls" ∷ codes "<" ∷ codes "f" ∷ codes "x" ∷ []) ≡ past_end
unfolding str_eq strcmp
parse_line-past_end_example =
    parse_line-past_end three_words (codes "ls") (codes "f") (codes "a") (codes "b") (codes "c")
      (codes "x") (refl, refl) (refl, refl) refl (omega arith, omega arith, omega arith)
