-- ===== src/Api/Defaults.antt =====
-- api/config/v1alpha1/defaults.go. The proofs are in the module below.
pub mod Idempotent
use cube_idp.Base.{
  not, ◌||◌, Option, none, some, List, [], ◌∷◌, ◌++◌, map, if◌then◌else◌, Text, txt, ◌==◌,
}
use cube_idp.Api.{
  Config, ConfigSpec, ClusterSpec, EngineSpec, EngineSource, GatewaySpec, CaSpec, PrerequisiteSpec,
  PackSpec, ExternalManifest,
}
use cube_idp.Api.Errors.{matches_name}
use cube_idp.Api.Prerequisites.{default_prerequisites}

-- if s == "" { s = fallback }
pub or_default : (s fallback : Text) → Text
or_default s fallback = if s == [] then fallback else s

pub default_cluster : ClusterSpec → ClusterSpec
unfolding or_default
default_cluster c = record {
  provider = or_default c.provider (txt "kind");
  for_provider = c.for_provider;
}

pub default_ref : (kind : Text) → Text
default_ref kind = if kind == txt "oci" then txt "latest" else txt "main"

pub default_engine_source : EngineSource → EngineSource
unfolding or_default default_ref
default_engine_source s =
    let kind = or_default s.kind (txt "git") in
    record {
      kind = kind;
      url = s.url;
      ref = or_default s.ref (default_ref kind);
      path = or_default s.path (txt "./");
      interval = or_default s.interval (txt "10m");
    }

abbrev pub map_option : {A : Type 0} → (A → A) → Option A → Option A
map_option f none = none
map_option f (some a) = some (f a)

pub default_engine : EngineSpec → EngineSpec
unfolding or_default default_engine_source
default_engine e = record {
  provider = or_default e.provider (txt "flux");
  version = e.version;
  source = map_option default_engine_source e.source;
}

pub default_domain : (domain name : Text) → Text
default_domain domain name =
    if not (domain == []) || not (matches_name name)
    then domain
    else name ++ (b'.' ∷ txt "cube.test")

pub default_gateway : GatewaySpec → (name : Text) → GatewaySpec
unfolding default_domain
default_gateway g name = record { domain = default_domain g.domain name }

pub default_ca : CaSpec → CaSpec
unfolding or_default
default_ca ca = record { provider = or_default ca.provider (txt "cube") }

pub or_default_prerequisites : List PrerequisiteSpec → List PrerequisiteSpec
or_default_prerequisites [] = default_prerequisites
or_default_prerequisites (u ∷ units) = u ∷ units

pub default_manifest : ExternalManifest → ExternalManifest
unfolding or_default
default_manifest m = record {
  ref = m.ref;
  manifest = m.manifest;
  lifecycle = or_default m.lifecycle (txt "with");
}

pub default_pack : PackSpec → PackSpec
unfolding default_manifest
default_pack p = record {
  id = p.id;
  pack_ref = p.pack_ref;
  values_ref = p.values_ref;
  values = p.values;
  external_manifests = map default_manifest p.external_manifests;
  depends_on = p.depends_on;
}

pub default_config : Config → Config
unfolding default_cluster default_engine default_gateway default_ca or_default_prerequisites
    default_pack
default_config c = record {
  name = c.name;
  spec = record {
    cluster = map_option default_cluster c.spec.cluster;
    engine = map_option default_engine c.spec.engine;
    gateway = map_option (λ g. default_gateway g c.name) c.spec.gateway;
    ca = map_option default_ca c.spec.ca;
    prerequisites = or_default_prerequisites c.spec.prerequisites;
    packs = map default_pack c.spec.packs;
  };
}
