-- ===== src/Pack/External.antt =====
-- The external manifests of an instance: internal/pack/external.go.
pub mod Split
use cube_idp.Base.{
  ℕ, ◌+◌, Bool, true, false, not, ◌&&◌, Option, none, some, List, [], ◌∷◌, ◌++◌, length, Result,
  ◌>>=◌, ◌>>◌, wrapped, or_error, if◌then◌else◌, Text, txt, ◌==◌, ok, err,
}
use cube_idp.Base.Document.{Value, str, Fields, get}
use cube_idp.Api.{ExternalManifest}
use cube_idp.Pack.Errors.{PackError, inline_parse, external_manifest, external_ref}
use cube_idp.Pack.Context.{Context, live, at_entry}
use cube_idp.Pack.Raw.{decode_documents}
use cube_idp.Pack.Values.{Decoders}

pub record ExternalGroups : Type 0 where
  pub pre : List Fields
  pub with_pack : List Fields

-- s, _ := v.(string)
abbrev pub text_or_empty : Option Value → Text
text_or_empty (some (str s)) = s
text_or_empty _ = []

pub is_kubernetes_object : (doc : Fields) → Bool
is_kubernetes_object doc =
    not (text_or_empty (get doc (txt "apiVersion")) == [])
    && not (text_or_empty (get doc (txt "kind")) == [])

-- The decoded documents of a reference.
pub one_object : (ref : Text) → Option (List Fields) → Result PackError Fields
unfolding is_kubernetes_object
one_object ref none = err (external_manifest ref none)
one_object ref (some []) = err (external_manifest ref (some 0))
one_object ref (some (doc ∷ [])) =
    if is_kubernetes_object doc then ok doc else err (external_manifest ref (some 1))
one_object ref (some (doc ∷ next ∷ more)) =
    err (external_manifest ref (some (length (doc ∷ next ∷ more))))

abbrev pub add_object : ExternalGroups → (is_pre : Bool) → Fields → ExternalGroups
add_object groups true o = record { pre = groups.pre ++ o ∷ []; with_pack = groups.with_pack }
add_object groups false o = record { pre = groups.pre; with_pack = groups.with_pack ++ o ∷ [] }

module _ (d : Decoders) where
  pub inline_manifest : (i : ℕ) → (raw : Text) → Result PackError Fields
  inline_manifest i raw = or_error (inline_parse i) (d.unmarshal raw)

  pub external_object : (i : ℕ) → ExternalManifest → Result PackError Fields
  unfolding inline_manifest one_object
  external_object i e = elim e.manifest [
    | some raw ↦ inline_manifest i raw
    | none ↦ wrapped (external_ref i) (d.resolve e.ref) >>= λ data'.
        one_object e.ref (decode_documents (d.decoder data'))
  ]

  -- The loop, from the entry at an index on, with the groups so far.
  pub resolve_external_from :
      Context → (i : ℕ) → ExternalGroups → List ExternalManifest → Result PackError ExternalGroups
  unfolding external_object
  resolve_external_from ctx i groups [] = ok groups
  resolve_external_from ctx i groups (e ∷ entries) =
      live ctx (at_entry i)
      >> (external_object i e >>= λ o.
          resolve_external_from ctx (i + 1) (add_object groups (e.lifecycle == txt "pre") o)
            entries)

  unfoldable pub resolve_external_manifests :
      Context → List ExternalManifest → Result PackError ExternalGroups
  unfolding resolve_external_from
  resolve_external_manifests ctx entries =
      resolve_external_from ctx 0 (record { pre = []; with_pack = [] }) entries
