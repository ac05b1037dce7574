-- ===== src/Pack/Render/Placed.antt =====
-- What a rendered instance delivers (internal/pack/render.go).
use cube_idp.Base.{
  ◌≡◌, sym, ap, Bool, true, false, not, ◌&&◌, ◌||◌, Option, none, some, List, [], ◌++◌, subst,
  ◌>>=◌, ok_of_bind, ok_is, if◌then◌else◌, ◌==◌, ok, err,
}
use cube_idp.Base.Document.{Fields}
use cube_idp.Api.{PackSpec}
use cube_idp.Pack.Errors.{PackError, values_on_raw_pack}
use cube_idp.Pack.Context.{Context, live, at_render_instance}
use cube_idp.Pack.Namespace.{apply_namespace, index_crd_scopes}
use cube_idp.Pack.Namespace.Stable.{Joins, apply_namespace-Joins}
use cube_idp.Pack.Values.{Decoders, instance_values}
use cube_idp.Pack.Load.{Cue, Pack, type_raw}
use cube_idp.Pack.Kustomize.{Sdk}
use cube_idp.Pack.External.{ExternalGroups, resolve_external_manifests}
use cube_idp.Pack.External.Split.{Split, resolve_external_manifests_iff}
use cube_idp.Pack.Render.{
  RenderPlan, in_place, is_set, render, join_groups, attach_external, render_instance,
}

pub in_place-ok :
    (r : List Fields × Option PackError) (out : List Fields) → in_place r ≡ ok out → r ≡ (out, none)
in_place-ok (objs, none) out h = ap (λ l. (l, none)) (ok_is h)
in_place-ok (objs, some e) out h = cc

module _ (cue : Cue) (sdk : Sdk) (d : Decoders) (json_round_trip : Fields → Option Fields)
    (ctx : Context) (p : Pack cue) where
  -- What the plan of an instance is made of.
  pub record Attached (spec : PackSpec) (own plan : RenderPlan) : Type 0 where
    pub values : Fields
    pub groups : ExternalGroups
    pub with_pack : List Fields
    pub valued : instance_values d spec ≡ ok values
    pub rendered :
        render cue sdk d json_round_trip ctx p (record { values = values; instance_id = spec.id })
        ≡ ok own
    pub split : Split d ctx 0 spec.external_manifests groups.pre groups.with_pack
    pub joins_pre :
        Joins p.meta.namespace (index_crd_scopes own.objects) groups.pre plan.prerequisites
    pub joins_with :
        Joins p.meta.namespace (index_crd_scopes own.objects) groups.with_pack with_pack
    pub objects : plan.objects ≡ own.objects ++ with_pack

  -- Where an instance renders, its values were assembled and its pack rendered with them under its
  -- id; its objects are the pack's own, followed by the external manifests delivered with it; its
  -- prerequisites are the others; and each of the two groups is that of its entries, in their
  -- order, put into the namespace of the pack by the scopes that the pack's own objects declare.
  pub render_instance-Attached :
      (spec : PackSpec) (plan : RenderPlan)
      → render_instance cue sdk d json_round_trip ctx p spec ≡ ok plan
      → (own : RenderPlan) × Attached spec own plan
  unfolding render_instance attach_external join_groups
  render_instance-Attached spec plan h =
      let (u, alive, h₁) = ok_of_bind (live ctx at_render_instance) _ h in
      by_test
        ((p.meta.pack_type == type_raw) && (not (spec.values_ref == []) || is_set spec.values)) h₁
    where
      by_test :
          (refused : Bool)
          → (if refused
              then err values_on_raw_pack
              else (instance_values d spec >>= λ values.
                  render cue sdk d json_round_trip ctx p
                    (record { values = values; instance_id = spec.id })
                  >>= λ own.
                      attach_external cue sdk d json_round_trip ctx p own spec.external_manifests))
            ≡ ok plan
          → (own : RenderPlan) × Attached spec own plan
      by_test true h = cc
      by_test false h =
          let (values, valued, h₁) = ok_of_bind (instance_values d spec) _ h in
          let (own, rendered, h₂) =
            ok_of_bind
              (render cue sdk d json_round_trip ctx p
                (record { values = values; instance_id = spec.id }))
              _ h₁ in
          let (groups, resolved, h₃) =
            ok_of_bind (resolve_external_manifests d ctx spec.external_manifests) _ h₂ in
          let scopes = index_crd_scopes own.objects in
          let (pre, put_pre, h₄) =
            ok_of_bind (in_place (apply_namespace groups.pre p.meta.namespace scopes)) _ h₃ in
          let (with_pack, put_with, last) =
            ok_of_bind (in_place (apply_namespace groups.with_pack p.meta.namespace scopes)) _ h₄ in
          let same = ok_is last in
          (
            own,
            record {
              values = values;
              groups = groups;
              with_pack = with_pack;
              valued = valued;
              rendered = rendered;
              split =
                  (resolve_external_manifests_iff d ctx spec.external_manifests groups).0 resolved;
              joins_pre =
                  subst (λ x. Joins p.meta.namespace scopes groups.pre x.prerequisites) same
                    (apply_namespace-Joins p.meta.namespace scopes groups.pre pre
                      (in_place-ok _ pre put_pre));
              joins_with =
                  apply_namespace-Joins p.meta.namespace scopes groups.with_pack with_pack
                    (in_place-ok _ with_pack put_with);
              objects = ap (λ x. x.objects) (sym same);
            },
          )
