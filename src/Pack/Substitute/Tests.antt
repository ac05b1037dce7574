-- ===== src/Pack/Substitute/Tests.antt =====
-- Templates and values for internal/pack/substitute.go.
use cube_idp.Base.{
  ◌≡◌, refl, some, List, [], ◌∷◌, contains, Dict, find, put, sort_texts, has_prefix, Text, txt,
  ◌==◌, err,
}
use cube_idp.Base.Document.{int, str, arr, nil, cons, Fields, end, field, get, pos}
use cube_idp.Pack.Errors.{values_not_flat, substitution_missing}
use cube_idp.Pack.Substitute.{
  flat_string_values, expand_fields, round, reference, note_missing, expand, substitute,
  is_var_name,
}
use cube_idp.Pack.Substitute.Tokens.{
  Token, character, variable, escape, dollar, source, meaning, lacking, IsTemplate, expand-source,
}
use cube_idp.Pack.Substitute.Referenced.{Reports, substitute-Reports}

abbrev vars : Dict Text
vars = (txt "HOST", txt "a.b") ∷ []

program : Unit {0}
unfolding expand substitute round reference has_prefix find note_missing contains ◌==◌ sort_texts
    flat_string_values expand_fields get put
program = tt

expand_host :
    expand (txt "https://${HOST}:$${PORT} $5 ${1}") vars []
    ≡ (txt "https://a.b:${PORT} $5 ${1}", [])
unfolding program
expand_host = refl

-- Two objects lack three names: they are all reported, sorted.
substitute_missing :
    (substitute
      (field (txt "x") (str (txt "${Z}${B}")) end
        ∷ field (txt "y") (arr (cons (str (txt "${HOST}${A}${B}")) nil)) end
        ∷ [])
      vars).1
    ≡ some (substitution_missing (txt "A" ∷ txt "B" ∷ txt "Z" ∷ []))
unfolding program
substitute_missing = refl

not_flat :
    flat_string_values (field (txt "b") (str (txt "x")) (field (txt "a") (int (pos 3)) end))
    ≡ err (values_not_flat (txt "a"))
unfolding program
not_flat = refl

abbrev template : List Token
template = character b'<' ∷ variable (txt "HOST") ∷ escape ∷ character b'x' ∷ dollar ∷ []

template-IsTemplate : IsTemplate template
unfolding is_var_name source has_prefix
template-IsTemplate = (refl, (refl, (refl, (refl, refl, tt))))

expand-source_example :
    expand (source template) vars [] ≡ (meaning vars template, lacking vars [] template)
expand-source_example = expand-source vars [] template template-IsTemplate

abbrev objects : List Fields
objects = field (txt "x") (str (txt "${HOST} ${A}")) end ∷ []

substitute-Reports_example : Reports vars objects (substitute objects vars).1
substitute-Reports_example = substitute-Reports objects vars
