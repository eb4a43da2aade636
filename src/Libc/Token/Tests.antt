-- ===== src/Libc/Token/Tests.antt =====
-- `strtok` on a path and on a command line.
use stellares_os.Common.{ℕ, ◌≡◌, refl, List, [], ◌∷◌, All}
use stellares_os.Libc.Token.{is_delim, tokens}
use stellares_os.Libc.Token.Laws.{words, tokens-words, IsPart}

abbrev slash : List ℕ
slash = 47 ∷ []

-- "//a/bc/"
abbrev path : List ℕ
path = 47 ∷ 47 ∷ 97 ∷ 47 ∷ 98 ∷ 99 ∷ 47 ∷ []

abbrev parts : List (List ℕ)
parts = (97 ∷ []) ∷ (98 ∷ 99 ∷ []) ∷ []

parts-IsPart : All (IsPart slash) parts
unfolding is_delim
parts-IsPart = (((λ e. cc), (refl, tt)), (((λ e. cc), (refl, (refl, tt))), tt))

tokens-words_example : tokens slash path ≡ words slash [] path
tokens-words_example = tokens-words slash path

words_path : words slash [] path ≡ parts
unfolding words is_delim
words_path = refl
