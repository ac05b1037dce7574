-- ===== src/Base/Paths.antt =====
-- The functions of Go's package path that the program calls, and searches in texts.
use Prim.Native.Nat.{ℕ}
use mathlib.Core.Bool.{Bool, false, not, ◌&&◌, ◌||◌}
use mathlib.Core.Option.{Option, none, some}
use mathlib.Core.List.{[], ◌∷◌, ◌++◌}
use cube_idp.Base.Tests.{Text, txt, eqb, ◌==◌, if◌then◌else◌}
use cube_idp.Base.Strings.{has_prefix}

-- strings.Contains, with the text that is looked for first.
unfoldable pub has_text : Text → Text → Bool
unfolding has_prefix
has_text sub [] = sub == []
has_text sub (c ∷ s) = has_prefix sub (c ∷ s) || has_text sub s

unfoldable pub has_code : ℕ → Text → Bool
has_code c [] = false
has_code c (d ∷ s) = eqb c d || has_code c s

-- path.Ext
unfoldable pub path_ext : Text → Text
unfolding has_code
path_ext [] = []
path_ext (c ∷ s) =
    let rest = path_ext s in
    if eqb c b'.' && not (has_code b'.' s) && not (has_code b'/' s) then c ∷ s else rest

-- path.Base of a path that is neither empty nor ends in a slash.
unfoldable pub path_base : Text → Text
unfolding has_code
path_base [] = []
path_base (c ∷ s) = let rest = path_base s in if has_code b'/' (c ∷ s) then rest else c ∷ s

-- path.Join of a valid path and one element.
unfoldable pub path_join : Text → Text → Text
unfolding ◌==◌
path_join parent name = if parent == txt "." then name else parent ++ b'/' ∷ name

-- strings.Cut at a code point; `none` is found=false.
unfoldable pub cut_at : ℕ → Text → Option (Text × Text)
cut_at c [] = none
cut_at c (d ∷ s) =
    let rest = cut_at c s in
    if eqb c d
    then some ([], s)
    else elim rest [ none ↦ none | some (before, after) ↦ some (d ∷ before, after) ]
