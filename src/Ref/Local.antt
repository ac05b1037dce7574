-- ===== src/Ref/Local.antt =====
-- Local references: internal/ref/local.go. The operating system is a parameter: what its calls
-- answer, over a disk that does not change during a resolution.
pub mod Contained
pub mod Read
use cube_idp.Base.{
  ℕ, Bool, true, false, not, ◌&&◌, Option, none, some, List, [], put, Result, ◌>>=◌, or_error,
  has_prefix, if◌then◌else◌, Text, txt, ◌==◌, ok, err,
}
use cube_idp.Base.WalkDir.{Tree, Visited, failed, directory, regular, walk_dir}
use cube_idp.Ref.Grammar.{
  ParsedRef, RefError, fetch_failed, escapes_root, mode_mismatch, mode_tree, mode_file,
}
use cube_idp.Ref.Snapshot.{TreeFiles}
use cube_idp.Ref.Digest.{Pin, file_digest, tree_digest}

-- An entry that is no directory. A regular file has what root.ReadFile gives of it.
pub data DiskEntry : Type 0 where
  plain_file : (content : Option (List ℕ)) → DiskEntry
  symlink : DiskEntry
  special : DiskEntry

pub data FileKind : Type 0 where
  kind_dir : FileKind
  kind_regular : FileKind
  kind_other : FileKind

-- The calls, with an error as `none`. The context's answer is by the path that the walk is at, and
-- `none` at the place of localFile.
pub record Os : Type 0 where
  pub abs : Text → Option Text
  pub stat : Text → Option FileKind
  pub read_file : Text → Option (List ℕ)
  -- os.OpenRoot and root.FS()
  pub open_root : Text → Option (Tree DiskEntry)
  pub eval_symlinks : Text → Option Text
  pub join : Text → Text → Text
  pub rel : (base target : Text) → Option Text
  pub is_done : Option Text → Bool
  pub sha256 : List ℕ → List ℕ

pub record ResolvedTree : Type 0 where
  pub files : TreeFiles
  pub pin : Pin

pub record ResolvedFile : Type 0 where
  pub content : List ℕ
  pub pin : Pin

abbrev pub is_dir_kind : FileKind → Bool
is_dir_kind kind_dir = true
is_dir_kind _ = false

abbrev pub is_regular_kind : FileKind → Bool
is_regular_kind kind_regular = true
is_regular_kind _ = false

-- The test of contains on what filepath.Rel answers.
unfoldable pub is_inside : Option Text → Bool
is_inside none = false
is_inside (some rel) = not (rel == txt "..") && not (has_prefix (txt "../") rel)

module _ (os : Os) (p : ParsedRef) where
  pub local_stat : Result RefError (Text × FileKind)
  local_stat = or_error (fetch_failed p.ref) (os.abs p.location) >>= λ abs.
      or_error (fetch_failed p.ref) (os.stat abs) >>= λ info. ok (abs, info)

  -- The error of a visit, which is coded or not.
  abbrev pub VisitError : Type 0
  VisitError = Option RefError

  module _ (root_abs : Text) where
    -- What contains does with the resolved root.
    abbrev pub inside_root : (root_real : Option Text) → (target : Text) → Option Bool
    inside_root none target = none
    inside_root (some root_real) target = some (is_inside (os.rel root_real target))

    -- `none` is an error of the operating system.
    pub contains_target : (target : Text) → Option Bool
    contains_target target = inside_root (os.eval_symlinks root_abs) target

    -- The end of visitSymlink, for a target inside the root.
    pub store_target : (name target : Text) → FileKind → TreeFiles → Result VisitError TreeFiles
    store_target name target info files =
        if not (is_regular_kind info)
        then ok files
        else (or_error none (os.read_file target) >>= λ data'. ok (put files name data'))

    pub visit_symlink : (name : Text) → TreeFiles → Result VisitError TreeFiles
    unfolding contains_target store_target
    visit_symlink name files =
        or_error none (os.eval_symlinks (os.join root_abs name)) >>= λ target.
        or_error none (contains_target target) >>= λ inside.
        if not inside
        then err (some (escapes_root p.ref name))
        else (or_error none (os.stat target) >>= λ info. store_target name target info files)

    pub visit_entry : (name : Text) → DiskEntry → TreeFiles → Result VisitError TreeFiles
    unfolding visit_symlink
    visit_entry name symlink files = visit_symlink name files
    visit_entry name special files = ok files
    visit_entry name (plain_file content) files =
        or_error none content >>= λ data'. ok (put files name data')

    -- The function that walkLocalTree walks with, and visit.
    pub visit : Text → Visited DiskEntry → TreeFiles → Result VisitError TreeFiles
    unfolding visit_entry
    visit name failed files = err none
    visit name directory files = if os.is_done (some name) then err none else ok files
    visit name (regular content) files =
        if os.is_done (some name)
        then err none
        else if name == txt "."
        then ok files
        else visit_entry name content files

    -- An error without a code is a failure to fetch.
    abbrev pub coded : Result VisitError TreeFiles → Result RefError TreeFiles
    coded (ok files) = ok files
    coded (err none) = err (fetch_failed p.ref)
    coded (err (some e)) = err e

    unfoldable pub walk_local_tree : Result RefError TreeFiles
    unfolding visit
    walk_local_tree = or_error (fetch_failed p.ref) (os.open_root root_abs) >>= λ root.
        coded (walk_dir visit root (txt ".") [])

  unfoldable pub local_tree : Result RefError ResolvedTree
  unfolding local_stat walk_local_tree
  local_tree = local_stat >>= λ found.
      if not (is_dir_kind found.1)
      then err (mode_mismatch p.ref mode_tree mode_file)
      else (walk_local_tree found.0 >>= λ files. ok (record {
        files = files;
        pin = record { ref = p.ref; source = found.0; digest = tree_digest os.sha256 files };
      }))

  unfoldable pub local_file : Result RefError ResolvedFile
  unfolding local_stat
  local_file = local_stat >>= λ found.
      if is_dir_kind found.1
      then err (mode_mismatch p.ref mode_file mode_tree)
      else if os.is_done none
      then err (fetch_failed p.ref)
      else (or_error (fetch_failed p.ref) (os.read_file found.0) >>= λ data'. ok (record {
        content = data';
        pin = record { ref = p.ref; source = found.0; digest = file_digest os.sha256 data' };
      }))
