-- ===== src/Config/Names.antt =====
-- internal/config/names.go: the names of scaffolded documents. The proofs are in the module below.
pub mod Usable
use cube_idp.Base.{ℕ, zero, suc, ◌-◌, Option, none, some, List, [], ◌∷◌, ◌++◌, Text, txt}

unfoldable pub name_adjectives : List Text
name_adjectives =
    txt "agile"
    ∷ txt "amber"
    ∷ txt "bold"
    ∷ txt "brave"
    ∷ txt "breezy"
    ∷ txt "bright"
    ∷ txt "calm"
    ∷ txt "clever"
    ∷ txt "cosmic"
    ∷ txt "crisp"
    ∷ txt "eager"
    ∷ txt "gentle"
    ∷ txt "happy"
    ∷ txt "jolly"
    ∷ txt "keen"
    ∷ txt "lively"
    ∷ txt "mellow"
    ∷ txt "nimble"
    ∷ txt "quirky"
    ∷ txt "sunny"
    ∷ txt "swift"
    ∷ txt "witty"
    ∷ []

unfoldable pub name_nouns : List Text
name_nouns =
    txt "badger"
    ∷ txt "beacon"
    ∷ txt "comet"
    ∷ txt "falcon"
    ∷ txt "fjord"
    ∷ txt "gecko"
    ∷ txt "glacier"
    ∷ txt "harbor"
    ∷ txt "heron"
    ∷ txt "koala"
    ∷ txt "lemur"
    ∷ txt "marmot"
    ∷ txt "meadow"
    ∷ txt "nebula"
    ∷ txt "otter"
    ∷ txt "panda"
    ∷ txt "pebble"
    ∷ txt "quartz"
    ∷ txt "raven"
    ∷ txt "sparrow"
    ∷ txt "summit"
    ∷ txt "tundra"
    ∷ txt "walrus"
    ∷ txt "wombat"
    ∷ []

-- words[i]; `none` is the panic out of range.
abbrev pub word_at : List Text → ℕ → Option Text
word_at [] i = none
word_at (word ∷ words) zero = some word
word_at (word ∷ words) (suc i) = word_at words i

joined : Option Text → Option Text → Option Text
joined (some adj) (some noun) = some (adj ++ (txt "-" ++ noun))
joined _ _ = none

-- GenerateName; `first` and `second` are what rand.IntN returns.
pub generate_name : (first second : ℕ) → Option Text
unfolding name_adjectives name_nouns joined
generate_name first second = joined (word_at name_adjectives first) (word_at name_nouns second)
