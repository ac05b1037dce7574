-- ===== src/Pack/Render/Witnesses.antt =====
-- The theorems on loading and rendering at the samples (internal/pack).
use cube_idp.Base.{
  ◌≡◌, refl, ◌≢◌, ◌↔◌, inr, false, some, List, [], ◌∷◌, subst, Every, ok_is, txt, ok,
}
use cube_idp.Base.Document.{int, pos, Fields, end, field, nested}
use cube_idp.Pack.Context.{at_load}
use cube_idp.Base.WalkDir.Walked.{all_visits}
use cube_idp.Pack.Namespace.Force.{HasMetadata}
use cube_idp.Pack.Raw.{manifests_dir, render_raw}
use cube_idp.Pack.Raw.Manifests.{IsReadable, objects_in, render_raw_iff}
use cube_idp.Pack.Values.{normalize_fields}
use cube_idp.Pack.Chart.{Chart}
use cube_idp.Pack.Load.{load}
use cube_idp.Pack.Load.Checked.{Loaded, load_iff}
use cube_idp.Pack.Helm.Delegation.{Delegates, as_value, carried, plan_helm_objects-Delegates}
use cube_idp.Pack.Kustomize.Hermetic.{Hermetic}
use cube_idp.Pack.External.{resolve_external_manifests}
use cube_idp.Pack.External.Split.{Split, resolve_external_manifests_iff}
use cube_idp.Pack.Render.{RenderPlan, render_instance}
use cube_idp.Pack.Render.Placed.{Attached, render_instance-Attached}
use cube_idp.Pack.Render.RawInstance.{Delivers, render_instance-Delivers}
use cube_idp.Pack.Raw.{is_manifest}
use cube_idp.Base.WalkDir.Walked.{visits}
use cube_idp.Pack.External.{resolve_external_manifests}
use cube_idp.Pack.Render.Samples.{
  object, service, decoder, decoders, always, raw_files, program, sdk, cue, raw_pack, instance_spec,
  raw_plan, helm_meta, helm_objects,
}
use cube_idp.Pack.Render.Tests.{raw_instance}

render_raw_iff_example :
    (render_raw decoder always (txt "web") raw_files
      ≡ ok (service ∷ object (txt "v1") (txt "Node") (txt "web") ∷ []))
    ↔ (Every (λ x. IsReadable decoder always x.0 x.1) (all_visits raw_files manifests_dir)
        × (service ∷ object (txt "v1") (txt "Node") (txt "web") ∷ []
            ≡ objects_in decoder (all_visits raw_files manifests_dir))
        × (service ∷ object (txt "v1") (txt "Node") (txt "web") ∷ [] ≢ []))
render_raw_iff_example =
    render_raw_iff decoder always (txt "web") raw_files
      (service ∷ object (txt "v1") (txt "Node") (txt "web") ∷ [])

load_iff_example :
    (load cue always raw_files (txt "./web") ≡ ok raw_pack)
    ↔ ((always at_load ≡ false) × Loaded cue raw_files raw_pack)
load_iff_example = load_iff cue always raw_files (txt "./web") raw_pack

plan_helm_objects-Delegates_example :
    (chart : Chart) × (source : Fields) × (release : Fields) × (helm_meta.chart ≡ some chart)
    × (helm_objects ≡ source ∷ release ∷ [])
    × Delegates helm_meta (txt "web") chart source release
    × (nested release (txt "spec") (txt "values" ∷ [])
        ≡ as_value (carried (λ f. some f) (field (txt "a") (int (pos 1)) end)))
unfolding program
plan_helm_objects-Delegates_example =
    plan_helm_objects-Delegates (λ f. some f) helm_meta (txt "web")
      (field (txt "a") (int (pos 1)) end) helm_objects refl

render_instance-Attached_example :
    (own : RenderPlan) × Attached cue sdk decoders
      (λ f. some f)
      always
      raw_pack
      instance_spec
      own
      raw_plan
render_instance-Attached_example =
    render_instance-Attached cue sdk decoders (λ f. some f) always raw_pack instance_spec raw_plan
      raw_instance

render_instance-Delivers_example :
    Delivers cue sdk decoders (λ f. some f) always raw_pack refl instance_spec raw_plan
unfolding program render_instance normalize_fields visits all_visits is_manifest
render_instance-Delivers_example =
    render_instance-Delivers cue sdk decoders (λ f. some f) always raw_pack refl instance_spec
      raw_plan (λ e. cc) (inr (_, refl), (inr (_, refl), tt))
      (λ pre with_pack s. metadata pre with_pack s) refl
  where
    metadata :
        (pre with_pack : List Fields)
        → Split decoders always 0 instance_spec.external_manifests pre with_pack
        → Every HasMetadata pre × Every HasMetadata with_pack
    metadata pre with_pack s =
        subst (λ g. Every HasMetadata g.pre × Every HasMetadata g.with_pack)
          (ok_is (
            (resolve_external_manifests_iff decoders always instance_spec.external_manifests
                (record { pre = pre; with_pack = with_pack })).1
              s))
          ((inr (_, refl), tt), (inr (_, refl), tt))
