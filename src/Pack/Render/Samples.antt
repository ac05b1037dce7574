-- ===== src/Pack/Render/Samples.antt =====
-- Packs, instances and parameters for internal/pack.
use cube_idp.Base.{
  true, false, Option, none, some, List, [], ◌∷◌, contains, has_text, has_code, path_ext, path_base,
  path_join, cut_at, has_prefix, trim_space, if◌then◌else◌, Text, txt, ◌==◌, ok, err,
}
use cube_idp.Base.Document.{
  str, int, bool, obj, pos, Fields, end, field, get, set, nested, nested_string, set_nested,
}
use cube_idp.Api.{ExternalManifest, PackSpec}
use cube_idp.Pack.Errors.{not_resolved}
use cube_idp.Pack.Context.{Context}
use cube_idp.Pack.Source.{Node, file, dir, stat_at, read_at, walk_dir}
use cube_idp.Base.WalkDir.{bare, entry, walk_node}
use cube_idp.Pack.Substitute.{flat_string_values, substitute}
use cube_idp.Pack.Namespace.{before_slash, index_crd_scopes, apply_namespace}
use cube_idp.Pack.Raw.{Stream, eof, document, some_objects, render_raw}
use cube_idp.Pack.Values.{Decoders, instance_values}
use cube_idp.Pack.Load.{Cue, Pack, Metadata, check_payload, load, resolve_values}
use cube_idp.Pack.Helm.{fields, layer_selector, plan_helm_objects, instance_id}
use cube_idp.Pack.Kustomize.{Sdk, is_remote_ref, check_self_contained, render_kustomize}
use cube_idp.Pack.External.{resolve_external_manifests}
use cube_idp.Pack.Render.{RenderPlan}

abbrev pub object : (version kind name : Text) → Fields
object version kind name = field (txt "apiVersion") (str version) (
    field (txt "kind") (str kind)
      (field (txt "metadata") (obj (field (txt "name") (str name) end)) end))

abbrev pub service : Fields
service = object (txt "v1") (txt "Service") (txt "web")

-- A stream for each text: nothing; or the object of a kind, and an empty document.
abbrev pub decoder : Text → Stream
decoder [] = eof
decoder (c ∷ kind) = document (object (txt "v1") (c ∷ kind) (txt "web")) (document end eof)

abbrev pub decoders : Decoders
decoders = record {
  resolve = λ ref. if ref == txt "./job.yaml" then ok (txt "Job") else err (not_resolved ref);
  decoder = decoder;
  unmarshal = λ raw. some (object (txt "v1") raw (txt "inline"));
}

abbrev pub always : Context
always place = false

abbrev pub text_file : Text → Node
text_file content = file (some content)

abbrev pub raw_files : Node
raw_files = dir true (
    entry (txt "manifests")
      (dir true (
        entry (txt "README.md") (file none) (
          entry (txt "a.yaml") (text_file (txt "Service")) (
            entry (txt "more") (dir true (entry (txt "b.yml") (text_file (txt "Node")) bare))
              bare))))
      (entry (txt "pack.cue") (text_file (txt "source")) bare))

unfoldable pub program : Unit {0}
unfolding render_raw some_objects walk_dir walk_node stat_at read_at get set nested nested_string
    set_nested contains before_slash index_crd_scopes apply_namespace instance_values resolve_values
    check_payload load plan_helm_objects instance_id is_remote_ref check_self_contained
    render_kustomize resolve_external_manifests ◌==◌ path_ext path_join path_base has_text
    has_prefix cut_at has_code trim_space flat_string_values substitute
program = tt

-- Kustomize: the build gives one object for each file that was written.
abbrev pub sdk : Sdk
sdk = record {
  files = record {
    MemFs = List Text;
    make_fs = [];
    write_file = λ mem name data'. some (name ∷ mem);
  };
  run = λ mem. some (built mem);
  unmarshal = λ data'. some (record {
    resources = data' ∷ [];
    components = [];
    crds = [];
    configurations = [];
    bases = [];
    patches = [];
  });
}
  where
    built : List Text → List (Option Fields)
    built [] = []
    built (name ∷ mem) = some service ∷ built mem

abbrev pub cue : Cue
cue = record {
  Val = Text;
  compile = λ source. some source;
  schema = [];
  unify = λ v w. v;
  is_valid = λ v. true;
  decode_metadata = λ v. some (metadata v);
  decode_values = λ v. some end;
  values_of = λ v. v;
  exists = λ v. false;
  encode = λ f. [];
  canonical = λ v. v;
}
  where
    metadata : Text → Metadata
    metadata pack_type = record {
      name = txt "web";
      version = txt "1";
      pack_type = pack_type;
      namespace = txt "apps";
      category = [];
      chart = some (record {
        kind = txt "oci";
        url = txt "oci://x";
        name = [];
        version = txt "1.2.3";
        digest = [];
      });
    }

abbrev pub kustomize_files : (reference : Text) → Node
kustomize_files reference = dir true (entry (txt "kustomization.yaml") (text_file reference) bare)

abbrev pub raw_pack : Pack cue
raw_pack = record {
  meta = record {
    name = txt "web";
    version = txt "1";
    pack_type = txt "raw";
    namespace = txt "apps";
    category = [];
    chart = none;
  };
  fsys = raw_files;
  values = [];
}

abbrev pub external : Option Text → Text → ExternalManifest
external manifest lifecycle = record {
  ref = txt "./job.yaml";
  manifest = manifest;
  lifecycle = lifecycle;
}

abbrev pub instance_spec : PackSpec
instance_spec = record {
  id = txt "web";
  pack_ref = txt "./web";
  values_ref = [];
  values = none;
  external_manifests = external none [] ∷ external (some (txt "Secret")) (txt "pre") ∷ [];
  depends_on = [];
}

abbrev pub in_apps : (kind name : Text) → Fields
in_apps kind name = field (txt "apiVersion") (str (txt "v1")) (
    field (txt "kind") (str kind) (
      field (txt "metadata")
        (obj (field (txt "name") (str name) (field (txt "namespace") (str (txt "apps")) end))) end))

abbrev pub raw_plan : RenderPlan
raw_plan = record {
  prerequisites = in_apps (txt "Secret") (txt "inline") ∷ [];
  objects =
      in_apps (txt "Service") (txt "web")
      ∷ object (txt "v1") (txt "Node") (txt "web")
      ∷ in_apps (txt "Job") (txt "web")
      ∷ [];
}

-- A kustomize pack whose definition takes its scope from a value: the pack's own Zone is put into
-- the namespace before the substitution, and an external Zone is not, after it.
abbrev pub zone_crd : (scope : Text) → Fields
zone_crd scope = field (txt "apiVersion") (str (txt "apiextensions.k8s.io/v1")) (
    field (txt "kind") (str (txt "CustomResourceDefinition")) (
      field (txt "spec")
        (obj (
          field (txt "names") (obj (field (txt "kind") (str (txt "Zone")) end))
            (field (txt "scope") (str scope) end)))
        end))

abbrev pub zone_sdk : Sdk
zone_sdk = record {
  files = sdk.files;
  run = λ mem.
      some
        (some (zone_crd (txt "${SCOPE}")) ∷ some (object (txt "v1") (txt "Zone") (txt "own")) ∷ []);
  unmarshal = sdk.unmarshal;
}

abbrev pub zone_decoders : Decoders
zone_decoders = record {
  resolve = λ ref. ok (txt "Zone");
  decoder = decoder;
  unmarshal = λ raw. some (field (txt "SCOPE") (str raw) end);
}

abbrev pub kustomize_pack : Pack cue
kustomize_pack = record {
  meta = record {
    name = txt "web";
    version = txt "1";
    pack_type = txt "kustomize";
    namespace = txt "apps";
    category = [];
    chart = none;
  };
  fsys = kustomize_files (txt "./base");
  values = [];
}

abbrev pub scoped_spec : PackSpec
scoped_spec = record {
  id = [];
  pack_ref = txt "./web";
  values_ref = [];
  values = some (txt "Cluster");
  external_manifests = external none [] ∷ [];
  depends_on = [];
}

abbrev pub helm_meta : Metadata
helm_meta = record {
  name = txt "web";
  version = txt "1";
  pack_type = txt "helm";
  namespace = txt "apps";
  category = [];
  chart = some (record {
    kind = txt "oci";
    url = txt "oci://x";
    name = [];
    version = txt "1.2.3";
    digest = txt "sha256:1";
  });
}

abbrev pub helm_objects : List Fields
helm_objects =
    fields (
      (txt "apiVersion", str (txt "source.toolkit.fluxcd.io/v1"))
      ∷ (txt "kind", str (txt "OCIRepository"))
      ∷ (txt "metadata", obj (field (txt "name") (str (txt "web")) end))
      ∷ (
        txt "spec",
        obj (
            fields (
              (txt "url", str (txt "oci://x"))
              ∷ (txt "interval", str (txt "10m"))
              ∷ (txt "layerSelector", obj layer_selector)
              ∷ (
                txt "ref",
                obj (
                    fields
                      ((txt "tag", str (txt "1.2.3")) ∷ (txt "digest", str (txt "sha256:1")) ∷ [])),
              )
              ∷ [])),
      )
      ∷ [])
    ∷ fields (
        (txt "apiVersion", str (txt "helm.toolkit.fluxcd.io/v2"))
        ∷ (txt "kind", str (txt "HelmRelease"))
        ∷ (txt "metadata", obj (field (txt "name") (str (txt "web")) end))
        ∷ (
          txt "spec",
          obj (
              fields (
                (txt "interval", str (txt "10m"))
                ∷ (txt "releaseName", str (txt "web"))
                ∷ (txt "targetNamespace", str (txt "apps"))
                ∷ (txt "install", obj (field (txt "createNamespace") (bool true) end))
                ∷ (
                  txt "chartRef",
                  obj (
                      fields (
                        (txt "kind", str (txt "OCIRepository"))
                        ∷ (txt "name", str (txt "web"))
                        ∷ [])),
                )
                ∷ (txt "values", obj (field (txt "a") (int (pos 1)) end))
                ∷ [])),
        )
        ∷ [])
    ∷ []
