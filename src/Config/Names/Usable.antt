-- ===== src/Config/Names/Usable.antt =====
-- Every name of internal/config/names.go is one that api/config/v1alpha1 admits.
use cube_idp.Base.{
  ℕ, zero, suc, ◌<◌, ◌≡◌, refl, Bool, true, ◌&&◌, some, List, [], ◌∷◌, ◌++◌, arith, length, Text,
  txt,
}
use cube_idp.Api.Errors.{matches_name, name_start, name_rest}
use cube_idp.Config.Names.{name_adjectives, name_nouns, word_at, joined, generate_name}

all_nouns : Text → List Text → Bool
all_nouns adj [] = true
all_nouns adj (noun ∷ nouns) = matches_name (adj ++ (txt "-" ++ noun)) && all_nouns adj nouns

all_names : List Text → List Text → Bool
all_names [] nouns = true
all_names (adj ∷ adjs) nouns = all_nouns adj nouns && all_names adjs nouns

all_names-true : all_names name_adjectives name_nouns ≡ true
unfolding all_names all_nouns matches_name name_start name_rest name_adjectives name_nouns
all_names-true = refl

-- The word at an index in range, and that a test of all words holds of it.
all_nouns-word :
    (adj : Text) (nouns : List Text) (j : ℕ)
    → all_nouns adj nouns ≡ true
    → j < length nouns
    → (noun : Text) × (word_at nouns j ≡ some noun)
      × (matches_name (adj ++ (txt "-" ++ noun)) ≡ true)
unfolding all_nouns
all_nouns-word adj [] j h b = absurd (omega (arith, b))
all_nouns-word adj (noun ∷ nouns) zero h b = (noun, refl, ground (arith, h))
all_nouns-word adj (noun ∷ nouns) (suc j) h b =
    all_nouns-word adj nouns j (ground (arith, h)) (omega (arith, b))

all_names-word :
    (adjs nouns : List Text) (i : ℕ)
    → all_names adjs nouns ≡ true
    → i < length adjs
    → (adj : Text) × (word_at adjs i ≡ some adj) × (all_nouns adj nouns ≡ true)
unfolding all_names
all_names-word [] nouns i h b = absurd (omega (arith, b))
all_names-word (adj ∷ adjs) nouns zero h b = (adj, refl, ground (arith, h))
all_names-word (adj ∷ adjs) nouns (suc i) h b =
    all_names-word adjs nouns i (ground (arith, h)) (omega (arith, b))

-- For any two draws in the range of the word lists, a name is generated, and it satisfies the
-- pattern of names.
pub generate_name_usable :
    (first second : ℕ)
    → first < length name_adjectives
    → second < length name_nouns
    → (name : Text) × (generate_name first second ≡ some name) × (matches_name name ≡ true)
unfolding generate_name joined
generate_name_usable first second a b =
    let (adj, at, all) = all_names-word name_adjectives name_nouns first all_names-true a in
    let (noun, at', good) = all_nouns-word adj name_nouns second all b in
    (adj ++ (txt "-" ++ noun), λ i. joined (at i) (at' i), good)
