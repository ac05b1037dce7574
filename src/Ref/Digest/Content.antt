-- ===== src/Ref/Digest/Content.antt =====
-- What the digest of a tree depends on (internal/ref/resolve.go).
use cube_idp.Base.{
  append_assoc, ℕ, ◌≡◌, refl, sym, ap, ◌∙◌, Bool, true, false, Option, none, some, List, [], ◌∷◌,
  ◌++◌, arith, contains, IsNodup, find, text_le, insert_text, sort_texts, sort_texts-IsSorted,
  contains-sort_texts, sort_texts-IsNodup, hex, Text, txt, ◌==◌, ==-refl,
}
use cube_idp.Base.Sorting.Unique.{sorted_unique}
use cube_idp.Ref.Snapshot.{TreeFiles}
use cube_idp.Ref.Digest.{paths_of, manifest_of, tree_digest}

abbrev is_found : Option (List ℕ) → Bool
is_found none = false
is_found (some data') = true

contains-paths_of :
    (files : TreeFiles) (path : Text) → contains (paths_of files) path ≡ is_found (find files path)
unfolding paths_of find contains
contains-paths_of [] path = refl
contains-paths_of ((k, data') ∷ files) path = ground (arith, contains-paths_of files path)

module _ (sha256 : List ℕ → List ℕ) where
  manifest_of_same :
      (files others : TreeFiles) (paths : List Text)
      → ((path : Text) → find files path ≡ find others path)
      → manifest_of sha256 files paths ≡ manifest_of sha256 others paths
  unfolding manifest_of
  manifest_of_same files others [] same = refl
  manifest_of_same files others (p ∷ paths) same =
      rw (same p, manifest_of_same files others paths same) refl

  -- Two trees with the same content at every path have the same digest, in whatever order their
  -- files are listed.
  pub tree_digest_same :
      (files others : TreeFiles)
      → IsNodup (paths_of files)
      → IsNodup (paths_of others)
      → ((path : Text) → find files path ≡ find others path)
      → tree_digest sha256 files ≡ tree_digest sha256 others
  unfolding tree_digest
  tree_digest_same files others d e same =
      let listed =
        sorted_unique (sort_texts (paths_of files)) (sort_texts (paths_of others))
          (sort_texts-IsSorted (paths_of files)) (sort_texts-IsSorted (paths_of others))
          (sort_texts-IsNodup (paths_of files) d) (sort_texts-IsNodup (paths_of others) e)
          (λ n.
            contains-sort_texts (paths_of files) n
            ∙ contains-paths_of files n
            ∙ ap is_found (same n)
            ∙ sym (contains-paths_of others n)
            ∙ sym (contains-sort_texts (paths_of others) n)) in
      ap (λ m. txt "sha256:" ++ hex (sha256 m))
        (manifest_of_same files others (sort_texts (paths_of files)) same
          ∙ ap (manifest_of sha256 others) listed)

  -- A path may hold a newline: one file of such a path has the manifest of two.
  newline_path :
      (first second : List ℕ)
      → tree_digest sha256 ((txt "a\n" ++ hex (sha256 second) ++ txt " b", first) ∷ [])
        ≡ tree_digest sha256 ((txt "a", first) ∷ (txt "b", second) ∷ [])
  unfolding tree_digest manifest_of paths_of find sort_texts insert_text text_le ◌==◌
  newline_path first second =
      let h = hex (sha256 second) in
      rw (==-refl (h ++ txt " b")) (
        ap (λ t. txt "sha256:" ++ hex (sha256 t))
          (ap (λ t. (hex (sha256 first) ++ (txt " a\n" ++ t)) ++ [])
              (append_assoc h (txt " b") (10 ∷ []))
            ∙ ap (λ t. t ++ [])
                (sym (append_assoc (hex (sha256 first)) (txt " a\n") (h ++ txt " b\n")))
            ∙ append_assoc (hex (sha256 first) ++ txt " a\n") (h ++ txt " b\n") []))
