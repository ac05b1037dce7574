-- ===== src/Ref/Grammar/Parsed.antt =====
-- Which references parse of internal/ref/resolve.go accepts.
use cube_idp.Base.{
  ◌≡◌, ◌≢◌, ◌⊎◌, true, Option, none, some, [], ◌++◌, Result, has_prefix, Text, txt, ok, err,
}
use cube_idp.Ref.Grammar.{
  Scheme, scheme_local, scheme_https, scheme_git, scheme_oci, scheme_s3, ParsedRef, RefError,
  is_local_path,
}

-- How a scheme is written.
abbrev pub scheme_name : Scheme → Text
scheme_name scheme_local = txt "file"
scheme_name scheme_https = txt "https"
scheme_name scheme_git = txt "git+https"
scheme_name scheme_oci = txt "oci"
scheme_name scheme_s3 = txt "s3"

-- What the back end of a scheme is given.
abbrev pub HasLocation : Scheme → (ref rest location : Text) → Type 0
HasLocation scheme_local ref rest location = (has_prefix (txt "/") rest ≡ true) × (location ≡ rest)
HasLocation scheme_https ref rest location = location ≡ ref
HasLocation scheme_git ref rest location = location ≡ ref
HasLocation scheme_oci ref rest location = location ≡ ref
HasLocation scheme_s3 ref rest location = location ≡ ref

-- A local path, or a scheme, "://" and a location.
abbrev pub IsReference : Text → ParsedRef → Type 0
IsReference ref p =
    (p.ref ≡ ref)
    × (((is_local_path ref ≡ true) × (p.scheme ≡ scheme_local) × (p.location ≡ ref))
        ⊎ ((rest : Text) × (ref ≡ scheme_name p.scheme ++ (txt "://" ++ rest))
            × (rest ≢ [])
            × HasLocation p.scheme ref rest p.location))

-- What a cut says of the text.
abbrev IsCut : Text → Option (Text × Text) → Type 0
IsCut s none = Unit
IsCut s (some (name, rest)) = s ≡ name ++ (txt "://" ++ rest)

abbrev IfOk : Text → Result RefError ParsedRef → Type 0
IfOk ref (ok p) = IsReference ref p
IfOk ref (err e) = Unit

-- The text of a reference by its form.
abbrev written : Scheme → (rest : Text) → Text
written form rest = scheme_name form ++ (txt "://" ++ rest)
