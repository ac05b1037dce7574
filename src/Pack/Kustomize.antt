-- ===== src/Pack/Kustomize.antt =====
-- Kustomize packs: internal/pack/kustomize.go. The kustomize SDK and the YAML parser are packages
-- that the code calls: they are parameters.
pub mod Remote
pub mod Contained
pub mod Hermetic
use cube_idp.Base.{
  Bool, true, false, not, ◌&&◌, ◌||◌, Option, none, some, List, [], ◌∷◌, ◌++◌, contains, Result,
  ◌>>=◌, ◌>>◌, or_error, has_text, path_ext, path_base, cut_at, has_prefix, trim_space,
  if◌then◌else◌, Text, txt, ◌==◌, ok, err,
}
use cube_idp.Base.Document.{Fields}
use cube_idp.Pack.Errors.{PackError, file_unreadable, kustomize_build, remote_ref}
use cube_idp.Pack.Context.{Context, live, at_kustomize}
use cube_idp.Pack.Source.{Node, Visit, failed, directory, regular, walk_dir}
use cube_idp.Pack.Raw.{some_objects}
use cube_idp.Pack.Load.{kustomization_markers}

-- The fields of types.Kustomization that the code reads; of the patches, their paths.
pub record Kustomization : Type 0 where
  pub resources : List Text
  pub components : List Text
  pub crds : List Text
  pub configurations : List Text
  pub bases : List Text
  pub patches : List Text

-- filesys.MakeFsInMemory and its WriteFile. An error is `none`.
pub record MemFiles : Type 1 where
  pub MemFs : Type 0
  pub make_fs : MemFs
  pub write_file : MemFs → (name : Text) → (data' : Text) → Option MemFs

-- The result of a build gives res.Map() of each resource. A build may read the network and the real
-- file system too: `run` is what it gives at the moment of the call.
pub record Sdk : Type 1 where
  pub files : MemFiles
  pub run : files.MemFs → Option (List (Option Fields))
  pub unmarshal : Text → Option Kustomization

pub is_kustomization : (name : Text) → Bool
is_kustomization name = contains kustomization_markers (path_base name)

pub is_yaml_name : (segment : Text) → Bool
is_yaml_name segment =
    (path_ext segment == txt ".yaml")
    || (path_ext segment == txt ".yml")
    || (path_ext segment == txt ".json")

-- The last test of isRemoteRef, by what strings.Cut finds.
pub has_host : Option (Text × Text) → Bool
unfolding is_yaml_name
has_host none = false
has_host (some (first, rest)) =
    not (rest == []) && has_text (txt ".") first && not (is_yaml_name first)

-- isRemoteRef of a trimmed reference.
pub is_remote_trimmed : (ref : Text) → Bool
unfolding has_host
is_remote_trimmed ref =
    if ref == []
    then false
    else if has_text (txt "://") ref
    then true
    else if has_prefix (txt "git@") ref
        || has_prefix (txt "git::") ref
        || has_prefix (txt "oci::") ref
    then true
    else if has_text (txt "?") ref
    then true
    else if has_text (txt ".git") ref
    then true
    else if has_prefix (txt "./") ref || has_prefix (txt "../") ref || has_prefix (txt "/") ref
    then false
    else if has_text (txt "//") ref
    then true
    else has_host (cut_at b'/' ref)

unfoldable pub is_remote_ref : (ref : Text) → Bool
unfolding is_remote_trimmed
is_remote_ref ref = is_remote_trimmed (trim_space ref)

pub first_remote : (name : Text) → (refs : List Text) → Result PackError (Unit {0})
first_remote name [] = ok tt
first_remote name (ref ∷ refs) =
    if is_remote_ref ref then err (remote_ref name ref) else first_remote name refs

abbrev pub refs_of : Kustomization → List Text
refs_of k = k.resources ++ k.components ++ k.crds ++ k.configurations ++ k.bases ++ k.patches

module _ (unmarshal : Text → Option Kustomization) where
  pub check_kustomization_refs : (name : Text) → (data' : Text) → Result PackError (Unit {0})
  unfolding first_remote
  check_kustomization_refs name data' = elim (unmarshal data') [
    | none ↦ err kustomize_build
    | some k ↦ first_remote name (refs_of k)
  ]

  -- A kustomization file.
  pub check_file : (name : Text) → (content : Option Text) → Result PackError (Unit {0})
  unfolding check_kustomization_refs
  check_file name none = err (file_unreadable name)
  check_file name (some data') = check_kustomization_refs name data'

  -- The function that checkSelfContained walks with. It keeps no state.
  pub check_visit : Text → Visit → Unit {0} → Result PackError (Unit {0})
  unfolding is_kustomization check_file
  check_visit name failed s = err (file_unreadable name)
  check_visit name directory s = ok s
  check_visit name (regular content) s =
      if not (is_kustomization name) then ok s else check_file name content

  unfoldable pub check_self_contained : (fsys : Node) → Result PackError (Unit {0})
  unfolding check_visit
  check_self_contained fsys = walk_dir check_visit fsys (txt ".") tt

module _ (mem_files : MemFiles) where
  -- memFS.WriteFile of a file with its content.
  pub write :
      (name : Text) → (content : Option Text) → mem_files.MemFs → Result PackError mem_files.MemFs
  write name none mem = err (file_unreadable name)
  write name (some data') mem =
      or_error (file_unreadable name) (mem_files.write_file mem (txt "./" ++ name) data')

  -- The function that copyToMemFS walks with. The state is the file system in memory.
  pub copy_visit : Text → Visit → mem_files.MemFs → Result PackError mem_files.MemFs
  unfolding write
  copy_visit name failed mem = err (file_unreadable name)
  copy_visit name directory mem = ok mem
  copy_visit name (regular content) mem = write name content mem

  pub copy_to_mem_fs : (fsys : Node) → Result PackError mem_files.MemFs
  unfolding copy_visit
  copy_to_mem_fs fsys = walk_dir copy_visit fsys (txt ".") mem_files.make_fs

-- The loop over the resources, with the objects so far.
pub collect_resources : (objs : List Fields) → List (Option Fields) → Result PackError (List Fields)
collect_resources objs [] = ok objs
collect_resources objs (none ∷ rest) = err kustomize_build
collect_resources objs (some obj' ∷ rest) = collect_resources (objs ++ obj' ∷ []) rest

module _ (sdk : Sdk) where
  pub build : sdk.files.MemFs → Result PackError (List Fields)
  unfolding collect_resources
  build mem = elim (sdk.run mem) [
    | none ↦ err kustomize_build
    | some resources ↦ collect_resources [] resources
  ]

  unfoldable pub render_kustomize :
      Context → (pack_name : Text) → (fsys : Node) → Result PackError (List Fields)
  unfolding check_self_contained copy_to_mem_fs build
  render_kustomize ctx pack_name fsys =
      live ctx at_kustomize
      >> (check_self_contained sdk.unmarshal fsys
          >> (copy_to_mem_fs sdk.files fsys >>= λ mem.
              build mem >>= λ objs. some_objects pack_name objs))
