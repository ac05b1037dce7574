-- ===== src/Pack/Render/Tests.antt =====
-- Runs of internal/pack: rendering, references, and the scope that a substitution changes.
use cube_idp.Base.{◌≡◌, refl, true, false, some, [], ◌∷◌, find, put, sort_texts, txt, ok, err}
use cube_idp.Pack.Errors.{remote_ref}
use cube_idp.Pack.Raw.{render_raw}
use cube_idp.Pack.Values.{normalize_fields, merge_patch}
use cube_idp.Pack.Kustomize.{is_remote_ref, render_kustomize}
use cube_idp.Pack.Render.{render_instance}
use cube_idp.Pack.Substitute.{expand_fields, round, reference, note_missing}
use cube_idp.Pack.Render.Samples.{
  object, service, decoder, decoders, always, raw_files, program, kustomize_files, sdk, cue,
  raw_pack, instance_spec, in_apps, raw_plan, zone_crd, zone_sdk, zone_decoders, kustomize_pack,
  scoped_spec,
}

raw_objects :
    render_raw decoder always (txt "web") raw_files
    ≡ ok (service ∷ object (txt "v1") (txt "Node") (txt "web") ∷ [])
unfolding program
raw_objects = refl

-- Local paths pass; what kustomize would fetch does not.
references :
    (is_remote_ref (txt "./base") ≡ false)
    × (is_remote_ref (txt "base/app") ≡ false)
    × (is_remote_ref (txt "app.yaml/x") ≡ false)
    × (is_remote_ref (txt " https://x.io/y") ≡ true)
    × (is_remote_ref (txt "github.com/org/repo") ≡ true)
    × (is_remote_ref (txt "../a?ref=1") ≡ true)
unfolding program
references = (refl, refl, refl, refl, refl, refl)

remote_refused :
    render_kustomize sdk always (txt "web") (kustomize_files (txt "git@host:x"))
    ≡ err (remote_ref (txt "kustomization.yaml") (txt "git@host:x"))
unfolding program
remote_refused = refl

pub raw_instance :
    render_instance cue sdk decoders (λ f. some f) always raw_pack instance_spec ≡ ok raw_plan
unfolding program render_instance normalize_fields
raw_instance = refl

substituted_scope :
    render_instance cue zone_sdk zone_decoders (λ f. some f) always kustomize_pack scoped_spec
    ≡ ok (record {
      prerequisites = [];
      objects =
          zone_crd (txt "Cluster")
          ∷ in_apps (txt "Zone") (txt "own")
          ∷ object (txt "v1") (txt "Zone") (txt "web")
          ∷ [];
    })
unfolding program render_instance normalize_fields merge_patch sort_texts expand_fields round
    reference note_missing find put
substituted_scope = refl
