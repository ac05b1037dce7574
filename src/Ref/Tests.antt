-- ===== src/Ref/Tests.antt =====
-- References and a snapshot for internal/ref.
use cube_idp.Base.{[], ◌∷◌, Text, txt}
use cube_idp.Ref.Grammar.{ParsedRef, scheme_oci}
use cube_idp.Ref.Snapshot.{TreeFiles, dir_entries}
use cube_idp.Ref.Snapshot.Listed.{Listing, dir_entries-Listing}

abbrev chart : Text
chart = txt "oci://host/repo:1"

abbrev chart_ref : ParsedRef
chart_ref = record { ref = chart; scheme = scheme_oci; location = chart }

abbrev files : TreeFiles
files = (txt "pack.cue", 1 ∷ []) ∷ (txt "manifests/b.yaml", []) ∷ (txt "manifests/a.yaml", []) ∷ []

dir_entries-Listing_example : Listing files (txt ".") (dir_entries files (txt "."))
dir_entries-Listing_example = dir_entries-Listing files (txt ".")
