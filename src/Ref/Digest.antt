-- ===== src/Ref/Digest.antt =====
-- Pins and digests: internal/ref/resolve.go. The hash sha256 is a parameter.
pub mod Content
use cube_idp.Base.{
  ℕ, ◌≡◌, ◌↔◌, Option, none, some, List, [], ◌∷◌, ◌++◌, arith, find, Result, sort_texts, hex,
  if◌then◌else◌, Text, txt, ◌==◌, ==_iff, ok, err,
}
use cube_idp.Ref.Grammar.{RefError, pin_mismatch}
use cube_idp.Ref.Snapshot.{TreeFiles}

pub record Pin : Type 0 where
  pub ref : Text
  pub source : Text
  pub digest : Text

pub verify : Pin → (want : Pin) → Result RefError (Unit {0})
verify p want =
    if p.digest == want.digest then ok tt else err (pin_mismatch p.ref want.digest p.digest)

unfoldable pub paths_of : TreeFiles → List Text
paths_of [] = []
paths_of ((path, data') ∷ files) = path ∷ paths_of files

abbrev pub or_empty : Option (List ℕ) → List ℕ
or_empty none = []
or_empty (some data') = data'

-- files[p], with the zero value for a missing key.
abbrev pub content_at : TreeFiles → (path : Text) → List ℕ
content_at files path = or_empty (find files path)

module _ (sha256 : List ℕ → List ℕ) where
  pub file_digest : (data' : List ℕ) → Text
  file_digest data' = txt "sha256:" ++ hex (sha256 data')

  -- What the loop writes to the hash.
  pub manifest_of : TreeFiles → (paths : List Text) → Text
  manifest_of files [] = []
  manifest_of files (p ∷ paths) =
      (hex (sha256 (content_at files p)) ++ b' ' ∷ (p ++ 10 ∷ [])) ++ manifest_of files paths

  pub tree_digest : TreeFiles → Text
  unfolding manifest_of paths_of
  tree_digest files =
      txt "sha256:" ++ hex (sha256 (manifest_of files (sort_texts (paths_of files))))

pub verify-same : (p want : Pin) → (verify p want ≡ ok tt) ↔ (p.digest ≡ want.digest)
unfolding verify
verify-same p want = ground (arith, ==_iff p.digest want.digest)
