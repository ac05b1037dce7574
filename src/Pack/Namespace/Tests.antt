-- ===== src/Pack/Namespace/Tests.antt =====
-- Objects for internal/pack/namespace.go.
use cube_idp.Base.{◌≡◌, refl, inr, some, [], ◌∷◌, contains, Text, txt, ◌==◌}
use cube_idp.Base.Document.{
  Value, str, obj, Fields, end, field, get, set, nested, nested_string, set_nested,
}
use cube_idp.Pack.Errors.{namespace_conflict}
use cube_idp.Pack.Namespace.{before_slash, index_crd_scopes, apply_namespace}
use cube_idp.Pack.Namespace.Force.{Forced, apply_namespace-Forced}

abbrev object : Text → Text → Value → Fields
object version kind metadata =
    field (txt "apiVersion") (str version)
      (field (txt "kind") (str kind) (field (txt "metadata") metadata end))

abbrev crd : Fields
crd =
    field (txt "spec")
      (obj (
        field (txt "group") (str (txt "x.io")) (
          field (txt "names") (obj (field (txt "kind") (str (txt "Zone")) end))
            (field (txt "scope") (str (txt "Cluster")) end))))
      (object (txt "apiextensions.k8s.io/v1") (txt "CustomResourceDefinition") (obj end))

abbrev zone : Fields
zone = object (txt "x.io/v1") (txt "Zone") (obj end)

abbrev deployment : Fields
deployment =
    object (txt "apps/v1") (txt "Deployment") (obj (field (txt "name") (str (txt "web")) end))

abbrev elsewhere : Fields
elsewhere =
    object (txt "v1") (txt "Service") (obj (field (txt "namespace") (str (txt "other")) end))

forced :
    apply_namespace (zone ∷ deployment ∷ elsewhere ∷ []) (txt "ns") (index_crd_scopes (crd ∷ []))
    ≡ (
      zone
          ∷ object (txt "apps/v1") (txt "Deployment") (
              obj (
                field
                  (txt "name")
                  (str (txt "web"))
                  (field (txt "namespace") (str (txt "ns")) end)))
          ∷ elsewhere
          ∷ [],
      some (namespace_conflict (txt "Service") [] (txt "other") (txt "ns")),
    )
unfolding apply_namespace index_crd_scopes get set nested nested_string set_nested contains
    before_slash ◌==◌
forced = refl

apply_namespace-Forced_example :
    Forced (txt "ns") (index_crd_scopes (crd ∷ [])) (zone ∷ deployment ∷ elsewhere ∷ []) (
      apply_namespace (zone ∷ deployment ∷ elsewhere ∷ []) (txt "ns") (index_crd_scopes (crd ∷ [])))
unfolding get ◌==◌
apply_namespace-Forced_example =
    apply_namespace-Forced (zone ∷ deployment ∷ elsewhere ∷ []) (txt "ns")
      (index_crd_scopes (crd ∷ [])) (λ e. cc) (inr (_, refl), (inr (_, refl), (inr (_, refl), tt)))
