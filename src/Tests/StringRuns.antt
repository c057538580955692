-- ===== src/Tests/StringRuns.antt =====
-- Short strings.
use operating_system_pl_nt.Prelude.{ℕ, List, [], ◌∷◌}
use operating_system_pl_nt.Strings.{strtok_r}
use operating_system_pl_nt.Strings.Tokens.{Token, strtok_r-Token}

-- " a b", with the delimiter " "
abbrev words : List ℕ
words = 32 ∷ 97 ∷ 32 ∷ 98 ∷ []

strtok_r-Token_example : Token (32 ∷ []) words (strtok_r words (32 ∷ []))
strtok_r-Token_example = strtok_r-Token words (32 ∷ [])
