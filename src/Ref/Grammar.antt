-- ===== src/Ref/Grammar.antt =====
-- internal/ref/resolve.go: the grammar of references. The proofs are in the module below.
pub mod Parsed
use cube_idp.Base.{
  Bool, not, ◌||◌, Option, none, some, [], ◌∷◌, drop, Result, has_prefix, if◌then◌else◌, Text, txt,
  ◌==◌, ok, err,
}

pub data Scheme : Type 0 where
  scheme_local : Scheme
  scheme_https : Scheme
  scheme_git : Scheme
  scheme_oci : Scheme
  scheme_s3 : Scheme

pub data Mode : Type 0 where
  mode_tree : Mode
  mode_file : Mode

-- A reference that the grammar has accepted.
pub record ParsedRef : Type 0 where
  pub ref : Text
  pub scheme : Scheme
  pub location : Text

pub data RefError : Type 0 where
  empty_ref : RefError
  no_scheme : (ref : Text) → RefError
  no_location : (ref scheme : Text) → RefError
  no_abs_path : (ref : Text) → RefError
  unsupported_scheme : (ref scheme : Text) → RefError
  fetch_failed : (ref : Text) → RefError
  escapes_root : (ref entry : Text) → RefError
  pin_mismatch : (ref want got : Text) → RefError
  mode_mismatch : (ref : Text) (want got : Mode) → RefError
  not_implemented : Scheme → (ref : Text) → RefError

pub is_local_path : (ref : Text) → Bool
is_local_path ref =
    (ref == txt ".") || (ref == txt "..") || has_prefix (txt "./") ref || has_prefix (txt "../") ref

-- strings.Cut at "://": what is before and after the first one.
cut_scheme : Text → Option (Text × Text)
cut_scheme [] = none
cut_scheme (c ∷ s) =
    let later = cut_scheme s in
    if has_prefix (txt "://") (c ∷ s)
    then some ([], drop 3 (c ∷ s))
    else elim later [ none ↦ none | some (name, rest) ↦ some (c ∷ name, rest) ]

-- The switch of parse on the scheme.
by_scheme : (ref name rest : Text) → Result RefError ParsedRef
by_scheme ref name rest =
    if name == txt "file"
    then (if not (has_prefix (txt "/") rest)
        then err (no_abs_path ref)
        else ok (record { ref = ref; scheme = scheme_local; location = rest }))
    else if name == txt "https"
    then ok (record { ref = ref; scheme = scheme_https; location = ref })
    else if name == txt "git+https"
    then ok (record { ref = ref; scheme = scheme_git; location = ref })
    else if name == txt "oci"
    then ok (record { ref = ref; scheme = scheme_oci; location = ref })
    else if name == txt "s3"
    then ok (record { ref = ref; scheme = scheme_s3; location = ref })
    else err (unsupported_scheme ref name)

-- parse behind strings.Cut.
by_cut : (ref : Text) → Option (Text × Text) → Result RefError ParsedRef
unfolding by_scheme
by_cut ref none = err (no_scheme ref)
by_cut ref (some (name, rest)) =
    if rest == [] then err (no_location ref name) else by_scheme ref name rest

unfoldable pub parse : (ref : Text) → Result RefError ParsedRef
unfolding is_local_path cut_scheme by_cut
parse ref =
    if ref == []
    then err empty_ref
    else if is_local_path ref
    then ok (record { ref = ref; scheme = scheme_local; location = ref })
    else by_cut ref (cut_scheme ref)
