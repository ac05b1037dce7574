-- ===== src/Ref/Local/Read.antt =====
-- Which local references resolve, and to what (internal/ref/local.go).
use cube_idp.Base.{
  ℕ, ◌≡◌, refl, sym, ap, ◌∙◌, Bool, true, false, not, none, some, List, subst, ◌>>=◌, ok_of_bind,
  ok_is, or_error, or_error_iff, if◌then◌else◌, Text, ok, err,
}
use cube_idp.Ref.Grammar.{ParsedRef, fetch_failed, mode_mismatch, mode_tree, mode_file}
use cube_idp.Ref.Snapshot.{TreeFiles}
use cube_idp.Ref.Digest.{file_digest, tree_digest}
use cube_idp.Ref.Local.{
  Os, FileKind, kind_dir, kind_regular, kind_other, ResolvedTree, ResolvedFile, is_dir_kind,
  local_stat, walk_local_tree, local_tree, local_file,
}

module _ (os : Os) (p : ParsedRef) where
  local_stat-ok :
      (found : Text × FileKind)
      → local_stat os p ≡ ok found
      → (os.abs p.location ≡ some found.0) × (os.stat found.0 ≡ some found.1)
  unfolding local_stat
  local_stat-ok found h =
      let (abs, a, h₁) = ok_of_bind (or_error (fetch_failed p.ref) (os.abs p.location)) _ h in
      let (info, s, last) = ok_of_bind (or_error (fetch_failed p.ref) (os.stat abs)) _ h₁ in
      let same = ok_is last in
      (
        (or_error_iff _ _ abs).0 a ∙ ap (λ x. some x.0) same,
        subst (λ x. os.stat x.0 ≡ some x.1) same ((or_error_iff _ _ info).0 s),
      )

  pub local_file-ok :
      (r : ResolvedFile)
      → local_file os p ≡ ok r
      → (abs : Text) × (data' : List ℕ) × (os.abs p.location ≡ some abs)
        × (os.read_file abs ≡ some data')
        × (r ≡ record {
          content = data';
          pin = record { ref = p.ref; source = abs; digest = file_digest os.sha256 data' };
        })
  unfolding local_file
  local_file-ok r h =
      let (found, s, h₁) = ok_of_bind (local_stat os p) _ h in
      by_tests found (is_dir_kind found.1) (os.is_done none) (local_stat-ok found s).0 h₁
    where
      by_tests :
          (found : Text × FileKind) (is_dir done : Bool)
          → os.abs p.location ≡ some found.0
          → (if is_dir
              then err (mode_mismatch p.ref mode_file mode_tree)
              else if done
              then err (fetch_failed p.ref)
              else (or_error (fetch_failed p.ref) (os.read_file found.0) >>= λ data'. ok (record {
                content = data';
                pin = record {
                  ref = p.ref;
                  source = found.0;
                  digest = file_digest os.sha256 data';
                };
              })))
            ≡ ok r
          → (abs : Text) × (data' : List ℕ) × (os.abs p.location ≡ some abs)
            × (os.read_file abs ≡ some data')
            × (r ≡ record {
              content = data';
              pin = record { ref = p.ref; source = abs; digest = file_digest os.sha256 data' };
            })
      by_tests found true done a h = cc
      by_tests found false true a h = cc
      by_tests found false false a h =
          let (data', d, last) =
            ok_of_bind (or_error (fetch_failed p.ref) (os.read_file found.0)) _ h in
          (
            found.0,
            data',
            a,
            (or_error_iff (fetch_failed p.ref) (os.read_file found.0) data').0 d,
            sym (ok_is last),
          )

  is_dir_kind-is : (k : FileKind) → is_dir_kind k ≡ true → k ≡ kind_dir
  is_dir_kind-is kind_dir h = refl
  is_dir_kind-is kind_regular h = cc
  is_dir_kind-is kind_other h = cc

  pub local_tree-ok :
      (r : ResolvedTree)
      → local_tree os p ≡ ok r
      → (abs : Text) × (files : TreeFiles) × (os.abs p.location ≡ some abs)
        × (os.stat abs ≡ some kind_dir)
        × (walk_local_tree os p abs ≡ ok files)
        × (r ≡ record {
          files = files;
          pin = record { ref = p.ref; source = abs; digest = tree_digest os.sha256 files };
        })
  unfolding local_tree
  local_tree-ok r h =
      let (found, s, h₁) = ok_of_bind (local_stat os p) _ h in
      let (a, k) = local_stat-ok found s in by_test found (is_dir_kind found.1) refl a k h₁
    where
      by_test :
          (found : Text × FileKind) (is_dir : Bool)
          → is_dir_kind found.1 ≡ is_dir
          → os.abs p.location ≡ some found.0
          → os.stat found.0 ≡ some found.1
          → (if not is_dir
              then err (mode_mismatch p.ref mode_tree mode_file)
              else (walk_local_tree os p found.0 >>= λ files. ok (record {
                files = files;
                pin = record {
                  ref = p.ref;
                  source = found.0;
                  digest = tree_digest os.sha256 files;
                };
              })))
            ≡ ok r
          → (abs : Text) × (files : TreeFiles) × (os.abs p.location ≡ some abs)
            × (os.stat abs ≡ some kind_dir)
            × (walk_local_tree os p abs ≡ ok files)
            × (r ≡ record {
              files = files;
              pin = record { ref = p.ref; source = abs; digest = tree_digest os.sha256 files };
            })
      by_test found false e a k h = cc
      by_test found true e a k h =
          let (files, w, last) = ok_of_bind (walk_local_tree os p found.0) _ h in
          (found.0, files, a, k ∙ ap some (is_dir_kind-is found.1 e), w, sym (ok_is last))
