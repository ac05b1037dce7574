-- ===== src/Pack/Render/RawInstance.antt =====
-- An instance of a raw pack (internal/pack/render.go).
use cube_idp.Base.{
  ◌≡◌, sym, ◌∙◌, ◌≢◌, Option, List, [], ◌++◌, subst, Every, put, ok_of_bind, ok_is, if_true, ◌==◌,
  ==_iff, ok,
}
use cube_idp.Base.Document.{Fields}
use cube_idp.Api.{PackSpec}
use cube_idp.Pack.Context.{Context, live, at_render}
use cube_idp.Base.WalkDir.Walked.{all_visits}
use cube_idp.Pack.Namespace.{index_crd_scopes}
use cube_idp.Pack.Namespace.Force.{HasMetadata, AllPlaced}
use cube_idp.Pack.Namespace.Stable.{Joins, apply_namespace-Joins, index_crd_scopes-AllPlaced}
use cube_idp.Pack.Raw.{manifests_dir, render_raw}
use cube_idp.Pack.Raw.Manifests.{objects_in, render_raw_iff}
use cube_idp.Pack.Values.{Decoders}
use cube_idp.Pack.Load.{Cue, Pack, type_raw, resolve_values}
use cube_idp.Pack.Kustomize.{Sdk}
use cube_idp.Pack.External.Split.{Split}
use cube_idp.Pack.Render.{RenderPlan, RenderOptions, place_own, plan_raw, render, render_instance}
use cube_idp.Pack.Render.Placed.{in_place-ok, render_instance-Attached}

module _ (cue : Cue) (sdk : Sdk) (d : Decoders) (json_round_trip : Fields → Option Fields)
    (ctx : Context) (p : Pack cue) (is_raw : p.meta.pack_type ≡ type_raw) where
  -- The objects in the manifest files of the pack.
  abbrev pub manifest_objects : List Fields
  manifest_objects = objects_in d.decoder (all_visits p.fsys manifests_dir)

  plan_raw-ok :
      (own : RenderPlan)
      → plan_raw cue sdk d json_round_trip ctx p ≡ ok own
      → Joins p.meta.namespace (index_crd_scopes manifest_objects) manifest_objects own.objects
  unfolding plan_raw
  plan_raw-ok own h =
      let (objs, rendered, h₁) = ok_of_bind (render_raw d.decoder ctx p.meta.name p.fsys) _ h in
      let (placed, put, last) = ok_of_bind (place_own p.meta.namespace objs) _ h₁ in
      let e = ((render_raw_iff d.decoder ctx p.meta.name p.fsys objs).0 rendered).1 in
      let joins =
        apply_namespace-Joins p.meta.namespace (index_crd_scopes objs) objs placed
          (in_place-ok _ placed put) in
      subst (λ l. Joins p.meta.namespace (index_crd_scopes l) l own.objects) e
        (subst (λ x. Joins p.meta.namespace (index_crd_scopes objs) objs x.objects) (ok_is last)
          joins)

  render-raw :
      (opts : RenderOptions) (own : RenderPlan)
      → render cue sdk d json_round_trip ctx p opts ≡ ok own
      → plan_raw cue sdk d json_round_trip ctx p ≡ ok own
  unfolding render
  render-raw opts own h =
      let (u, alive, h₁) = ok_of_bind (live ctx at_render) _ h in
      let (values, resolved, h₂) = ok_of_bind (resolve_values cue p opts.values) _ h₁ in
      sym (if_true (p.meta.pack_type == type_raw) _ _ ((==_iff p.meta.pack_type type_raw).1 is_raw))
      ∙ h₂

  -- What an instance of a raw pack that forces a namespace delivers.
  pub record Delivers (spec : PackSpec) (plan : RenderPlan) : Type 0 where
    pub own : List Fields
    pub pre : List Fields
    pub with_pack : List Fields
    pub with_placed : List Fields
    pub split : Split d ctx 0 spec.external_manifests pre with_pack
    pub own_placed :
        AllPlaced p.meta.namespace (index_crd_scopes manifest_objects) manifest_objects own
    pub pre_placed :
        AllPlaced p.meta.namespace (index_crd_scopes manifest_objects) pre plan.prerequisites
    pub with_are_placed :
        AllPlaced p.meta.namespace (index_crd_scopes manifest_objects) with_pack with_placed
    pub objects : plan.objects ≡ own ++ with_placed

  -- For a raw pack that forces a namespace, where every object that is read has a mapping as its
  -- metadata, or none: an instance that renders delivers the objects in the manifest files,
  -- followed by the external manifests to be delivered with them, and the other external manifests
  -- as prerequisites. Of all of them, those that are namespaced stand in the namespace of the pack
  -- and none stood in another; and they are namespaced by the scopes that the manifest files
  -- declare, the external manifests too.
  pub render_instance-Delivers :
      (spec : PackSpec) (plan : RenderPlan)
      → p.meta.namespace ≢ []
      → Every HasMetadata manifest_objects
      → ((pre with_pack : List Fields)
          → Split d ctx 0 spec.external_manifests pre with_pack
          → Every HasMetadata pre × Every HasMetadata with_pack)
      → render_instance cue sdk d json_round_trip ctx p spec ≡ ok plan
      → Delivers spec plan
  render_instance-Delivers spec plan n own_meta meta h =
      let (own, a) = render_instance-Attached cue sdk d json_round_trip ctx p spec plan h in
      let joins = plan_raw-ok own (render-raw _ own a.rendered) in
      let placed = joins.placed n own_meta in
      let same =
        index_crd_scopes-AllPlaced p.meta.namespace (index_crd_scopes manifest_objects)
          manifest_objects own.objects placed in
      let (pre_meta, with_meta) = meta a.groups.pre a.groups.with_pack a.split in
      record {
        own = own.objects;
        pre = a.groups.pre;
        with_pack = a.groups.with_pack;
        with_placed = a.with_pack;
        split = a.split;
        own_placed = placed;
        pre_placed =
            subst (λ s. AllPlaced p.meta.namespace s a.groups.pre plan.prerequisites) same
              (a.joins_pre.placed n pre_meta);
        with_are_placed =
            subst (λ s. AllPlaced p.meta.namespace s a.groups.with_pack a.with_pack) same
              (a.joins_with.placed n with_meta);
        objects = a.objects;
      }
