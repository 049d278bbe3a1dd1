-- ===== src/Shell/Tokenizer/Tests.antt =====
-- The tokenizer on small lines.
use operating_systems_and_sy.Prelude.{◌≤◌, ◌≡◌, refl, some, List, [], ◌∷◌, arith, length}
use operating_systems_and_sy.CLib.{Text, codes, isspace}
use operating_systems_and_sy.Shell.Tokenizer.{
  Mode, normal, squote, dquote, action, take_char, push_word, check, perform, lex, returned,
  tokenize,
}
use operating_systems_and_sy.Shell.Tokenizer.Bounds.{tokenize_fits, AllFit, total}
use operating_systems_and_sy.Shell.Tokenizer.Plain.{IsPlain, split_spaces, tokenize-plain}
use operating_systems_and_sy.Shell.Tokenizer.Quote.{
  write_words, words_of, CanWrite, tokenize-write_words,
}

abbrev line : Text
line = codes "ls -l"

tokens : tokenize (some line) ≡ returned (some (codes "ls" ∷ codes "-l" ∷ []))
unfolding tokenize lex action isspace check perform take_char push_word
tokens = refl

tokenize_fits_example :
    AllFit (codes "ls" ∷ codes "-l" ∷ []) × (total (codes "ls" ∷ codes "-l" ∷ []) ≤ length line)
tokenize_fits_example = tokenize_fits line (codes "ls" ∷ codes "-l" ∷ []) tokens

line-IsPlain : IsPlain line
line-IsPlain = ground arith

plain_words : tokenize (some line) ≡ returned (some (split_spaces line []))
plain_words = tokenize-plain line line-IsPlain (omega arith)

abbrev quoted : List (Mode × Text)
quoted = (normal, codes "cat") ∷ (squote, codes "a b") ∷ (dquote, codes "it's") ∷ []

quoted-CanWrite : CanWrite quoted
quoted-CanWrite = ground arith

tokenize-write_words_example :
    tokenize (some (write_words quoted)) ≡ returned (some (words_of quoted))
tokenize-write_words_example = tokenize-write_words quoted quoted-CanWrite
