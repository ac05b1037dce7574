-- ===== src/Config/Tests.antt =====
-- Draws for internal/config/names.go.
use cube_idp.Base.{◌≡◌, true, some, arith, Text}
use cube_idp.Api.Errors.{matches_name}
use cube_idp.Config.Names.{name_adjectives, name_nouns, generate_name}
use cube_idp.Config.Names.Usable.{generate_name_usable}

generate_name_usable_example :
    (name : Text) × (generate_name 21 23 ≡ some name) × (matches_name name ≡ true)
unfolding name_adjectives name_nouns
generate_name_usable_example = generate_name_usable 21 23 (omega arith) (omega arith)
