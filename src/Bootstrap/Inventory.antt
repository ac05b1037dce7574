-- ===== src/Bootstrap/Inventory.antt =====
-- internal/bootstrap/inventory.go: the record of what bootstrap applied.
pub mod Recorded
use cube_idp.Base.{some, List, [], ◌∷◌, ◌++◌, Result, text_le, if◌then◌else◌, Text, txt, ok, err}
use cube_idp.Base.Document.{Value, str, obj, Fields, end, field}
use cube_idp.Bootstrap.Failures.{
  Failure, inventory_failed, object_version, object_kind, object_name, object_namespace,
}
use cube_idp.Bootstrap.Client.{Applier, Action, apply}

pub record ObjectRef : Type 0 where
  pub api_version : Text
  pub kind : Text
  pub namespace : Text
  pub name : Text

pub object_ref : Fields → ObjectRef
object_ref o = record {
  api_version = object_version o;
  kind = object_kind o;
  namespace = object_namespace o;
  name = object_name o;
}

unfoldable pub ref_key : ObjectRef → Text
ref_key r = r.namespace ++ b'/' ∷ r.kind ++ b'/' ∷ r.name

-- sort.Slice by refKey. Go leaves the order of references with one key open; here, the one met first
-- stands first.
unfoldable pub insert_ref : ObjectRef → List ObjectRef → List ObjectRef
unfolding ref_key
insert_ref r [] = r ∷ []
insert_ref r (q ∷ refs) =
    let rest = insert_ref r refs in
    if text_le (ref_key r) (ref_key q) then r ∷ q ∷ refs else q ∷ rest

unfoldable pub sort_refs : List ObjectRef → List ObjectRef
unfolding insert_ref
sort_refs [] = []
sort_refs (r ∷ refs) = insert_ref r (sort_refs refs)

pub object_refs : List Fields → List ObjectRef
unfolding object_ref
object_refs [] = []
object_refs (o ∷ objs) = object_ref o ∷ object_refs objs

-- What inventoryConfigMap makes of the encoded references.
config_map_of : (namespace : Text) → Result Failure Text → Result Failure Fields
config_map_of namespace (err e) = err (inventory_failed e)
config_map_of namespace (ok data') =
    let labels = field (txt "app.kubernetes.io/managed-by") (str (txt "cube-idp")) end in
    let metadata =
      field (txt "name") (str (txt "cube-idp-bootstrap-inventory"))
        (field (txt "namespace") (str namespace) (field (txt "labels") (obj labels) end)) in
    ok (
      field (txt "apiVersion") (str (txt "v1")) (
        field (txt "kind") (str (txt "ConfigMap")) (
          field (txt "metadata") (obj metadata)
            (field (txt "data") (obj (field (txt "objects") (str data') end)) end))))

-- `marshal` is json.MarshalIndent on the references.
pub inventory_config_map :
    (marshal : List ObjectRef → Result Failure Text) (namespace : Text) (objs : List Fields)
    → Result Failure Fields
unfolding sort_refs object_refs config_map_of
inventory_config_map marshal namespace objs =
    config_map_of namespace (marshal (sort_refs (object_refs objs)))

module _ {S : Type 0} where
  pub record_inventory :
      (marshal : List ObjectRef → Result Failure Text) → Applier S → List Fields → Action S
  unfolding inventory_config_map
  record_inventory marshal a objs s = elim (inventory_config_map marshal a.inv_ns objs) [
    | err e ↦ (s, some e)
    | ok cm ↦ apply a.client cm s
  ]
