-- ===== src/Pack/Render.antt =====
-- Rendering a pack and an instance of it: the first part of internal/pack/render.go. The parameters
-- are those of the parts: CUE, the kustomize SDK, the decoders and the resolver, and encoding/json.
pub mod Placed
pub mod RawInstance
mod Samples
mod Network
mod Tests
mod Witnesses
use cube_idp.Base.{
  Bool, true, false, not, ◌&&◌, ◌||◌, Option, none, some, List, [], ◌++◌, Result, ◌>>=◌, ◌>>◌,
  if◌then◌else◌, Text, ◌==◌, ok, err,
}
use cube_idp.Base.Document.{Fields}
use cube_idp.Api.{ExternalManifest, PackSpec}
use cube_idp.Pack.Errors.{PackError, values_on_raw_pack, schema_drift}
use cube_idp.Pack.Context.{Context, live, at_render, at_render_instance}
use cube_idp.Pack.Substitute.{flat_string_values, substitute}
use cube_idp.Pack.Namespace.{apply_namespace, index_crd_scopes}
use cube_idp.Pack.Raw.{render_raw}
use cube_idp.Pack.Values.{Decoders, instance_values}
use cube_idp.Pack.Load.{Cue, Pack, type_raw, type_helm, type_kustomize, resolve_values}
use cube_idp.Pack.Helm.{instance_id, plan_helm_objects}
use cube_idp.Pack.Kustomize.{Sdk, render_kustomize}
use cube_idp.Pack.External.{ExternalGroups, resolve_external_manifests}

pub record RenderPlan : Type 0 where
  pub prerequisites : List Fields
  pub objects : List Fields

pub record RenderOptions : Type 0 where
  pub values : Fields
  pub instance_id : Text

-- A call that rewrites objects in place and returns an error.
abbrev pub in_place : List Fields × Option PackError → Result PackError (List Fields)
in_place (objs, none) = ok objs
in_place (objs, some e) = err e

abbrev pub is_set : Option Text → Bool
is_set none = false
is_set (some raw) = true

abbrev pub only_objects : List Fields → RenderPlan
only_objects objs = record { prerequisites = []; objects = objs }

-- applyNamespace with the scopes that the objects themselves declare.
abbrev pub place_own : (namespace : Text) → List Fields → Result PackError (List Fields)
place_own ns objs = in_place (apply_namespace objs ns (index_crd_scopes objs))

module _ (cue : Cue) (sdk : Sdk) (d : Decoders) (json_round_trip : Fields → Option Fields)
    (ctx : Context) (p : Pack cue) where
  pub plan_raw : Result PackError RenderPlan
  plan_raw = render_raw d.decoder ctx p.meta.name p.fsys >>= λ objs.
      place_own p.meta.namespace objs >>= λ placed. ok (only_objects placed)

  pub plan_kustomize : (values : Fields) → Result PackError RenderPlan
  plan_kustomize values = flat_string_values values >>= λ vars.
      render_kustomize sdk ctx p.meta.name p.fsys >>= λ objs.
      place_own p.meta.namespace objs >>= λ placed.
      in_place (substitute placed vars) >>= λ expanded. ok (only_objects expanded)

  pub plan_helm : (id : Text) → (values : Fields) → Result PackError RenderPlan
  plan_helm id values =
      plan_helm_objects json_round_trip p.meta id values >>= λ objs. ok (only_objects objs)

  pub render : RenderOptions → Result PackError RenderPlan
  unfolding plan_raw plan_kustomize plan_helm
  render opts =
      live ctx at_render
      >> (resolve_values cue p opts.values >>= λ values.
          if p.meta.pack_type == type_raw
          then plan_raw
          else if p.meta.pack_type == type_helm
          then plan_helm (instance_id p.meta opts.instance_id) values
          else if p.meta.pack_type == type_kustomize
          then plan_kustomize values
          else err (schema_drift p.meta.pack_type))

  -- The two groups, placed, join the plan.
  pub join_groups : RenderPlan → ExternalGroups → Result PackError RenderPlan
  join_groups plan groups =
      let scopes = index_crd_scopes plan.objects in
      in_place (apply_namespace groups.pre p.meta.namespace scopes) >>= λ pre.
      in_place (apply_namespace groups.with_pack p.meta.namespace scopes) >>= λ with_pack.
      ok (record { prerequisites = pre; objects = plan.objects ++ with_pack })

  pub attach_external : RenderPlan → List ExternalManifest → Result PackError RenderPlan
  unfolding join_groups
  attach_external plan entries =
      resolve_external_manifests d ctx entries >>= λ groups. join_groups plan groups

  unfoldable pub render_instance : PackSpec → Result PackError RenderPlan
  unfolding render attach_external
  render_instance spec =
      live ctx at_render_instance
      >> (if (p.meta.pack_type == type_raw) && (not (spec.values_ref == []) || is_set spec.values)
          then err values_on_raw_pack
          else (instance_values d spec >>= λ values.
              render (record { values = values; instance_id = spec.id }) >>= λ plan.
              attach_external plan spec.external_manifests))
