-- ===== src/Pack/Raw.antt =====
-- Raw manifests: the last part of internal/pack/render.go. The YAML decoder is a package that the
-- code calls: it is a parameter.
pub mod Manifests
use cube_idp.Base.{
  Bool, true, false, not, ◌||◌, Option, none, some, List, [], ◌∷◌, ◌++◌, Result, ◌>>=◌, ◌>>◌,
  or_error, path_ext, if◌then◌else◌, Text, txt, ◌==◌, ok, err,
}
use cube_idp.Base.Document.{Fields, end, field}
use cube_idp.Pack.Errors.{PackError, file_unreadable, manifest_parse, empty_render}
use cube_idp.Pack.Context.{Context, live, at_file}
use cube_idp.Pack.Source.{Node, Visit, failed, directory, regular, walk_dir}

-- What the calls of Decode on one reader return, one after the other. A reader of finitely many
-- bytes ends, and the loop stops at an error.
pub data Stream : Type 0 where
  eof : Stream
  broken : Stream
  document : Fields → Stream → Stream

abbrev pub is_empty_document : Fields → Bool
is_empty_document end = true
is_empty_document (field k v f) = false

-- The loop of decodeDocuments, with the documents so far. `none` is the decoder's error.
pub decode_from : (docs : List Fields) → Stream → Option (List Fields)
decode_from docs eof = some docs
decode_from docs broken = none
decode_from docs (document doc rest) =
    decode_from (if is_empty_document doc then docs else docs ++ doc ∷ []) rest

unfoldable pub decode_documents : Stream → Option (List Fields)
unfolding decode_from
decode_documents = decode_from []

unfoldable pub is_manifest : (name : Text) → Bool
is_manifest name = (path_ext name == txt ".yaml") || (path_ext name == txt ".yml")

-- ManifestsDir
abbrev pub manifests_dir : Text
manifests_dir = txt "manifests"

-- The test of the number of objects.
unfoldable pub some_objects : (pack_name : Text) → List Fields → Result PackError (List Fields)
some_objects pack_name [] = err (empty_render pack_name)
some_objects pack_name (o ∷ objs) = ok (o ∷ objs)

module _ (decoder : Text → Stream) where
  pub parse_manifest : (name : Text) → (data' : Text) → Result PackError (List Fields)
  unfolding decode_documents
  parse_manifest name data' = or_error (manifest_parse name) (decode_documents (decoder data'))

  -- A manifest file, after the test of the context.
  pub read_manifest : (name : Text) → (content : Option Text) → Result PackError (List Fields)
  unfolding parse_manifest
  read_manifest name none = err (file_unreadable name)
  read_manifest name (some data') = parse_manifest name data'

  module _ (ctx : Context) where
    -- The function that renderRaw walks with. The state is the objects so far.
    pub visit_manifest : Text → Visit → List Fields → Result PackError (List Fields)
    unfolding is_manifest read_manifest
    visit_manifest name failed objs = err (file_unreadable name)
    visit_manifest name directory objs = ok objs
    visit_manifest name (regular content) objs =
        if not (is_manifest name)
        then ok objs
        else live ctx (at_file name)
          >> (read_manifest name content >>= λ parsed. ok (objs ++ parsed))

    unfoldable pub render_raw : (pack_name : Text) → (fsys : Node) → Result PackError (List Fields)
    unfolding visit_manifest some_objects
    render_raw pack_name fsys =
        walk_dir visit_manifest fsys manifests_dir [] >>= λ objs. some_objects pack_name objs
