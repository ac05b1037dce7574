-- ===== src/Api/Defaults/Idempotent.antt =====
-- Defaulting twice (api/config/v1alpha1/defaults.go).
use cube_idp.Base.{
  ◌≡◌, refl, ap, ◌∙◌, Bool, true, false, Option, none, some, List, [], ◌∷◌, map, arith,
  if◌then◌else◌, Text, txt, ◌==◌,
}
use cube_idp.Api.{
  Config, ClusterSpec, EngineSpec, EngineSource, GatewaySpec, CaSpec, PrerequisiteSpec, PackSpec,
  ExternalManifest,
}
use cube_idp.Api.Prerequisites.{default_prerequisites}
use cube_idp.Api.Defaults.{
  or_default, default_cluster, default_ref, default_engine_source, map_option, default_engine,
  default_domain, default_gateway, default_ca, or_default_prerequisites, default_manifest,
  default_pack, default_config,
}

or_default_twice :
    (s fallback : Text) → or_default (or_default s fallback) fallback ≡ or_default s fallback
unfolding or_default
or_default_twice s fallback = by_test (s == []) refl (fallback == [])
  where
    by_test :
        (empty : Bool)
        → (s == []) ≡ empty
        → (fallback_empty : Bool)
        → (if (if empty then fallback else s) == []
            then fallback
            else (if empty then fallback else s))
          ≡ (if empty then fallback else s)
    by_test true e b = ground arith
    by_test false e b = rw e refl

map_option_twice :
    {A : Type 0} (f : A → A)
    → ((a : A) → f (f a) ≡ f a)
    → (o : Option A) → map_option f (map_option f o) ≡ map_option f o
map_option_twice f h none = refl
map_option_twice f h (some a) = ap some (h a)

map_twice :
    {A : Type 0} (f : A → A)
    → ((a : A) → f (f a) ≡ f a)
    → (xs : List A) → map f (map f xs) ≡ map f xs
map_twice f h [] = refl
map_twice f h (x ∷ xs) = λ i. h x i ∷ map_twice f h xs i

default_engine_source_twice :
    (s : EngineSource) → default_engine_source (default_engine_source s) ≡ default_engine_source s
unfolding default_engine_source
default_engine_source_twice s =
    let kind = or_default s.kind (txt "git") in
    let ref = or_default s.ref (default_ref kind) in
    let same_kind : or_default kind (txt "git") ≡ kind = or_default_twice s.kind (txt "git") in
    let same_ref : or_default ref (default_ref (or_default kind (txt "git"))) ≡ ref =
      ap (λ k. or_default ref (default_ref k)) same_kind
      ∙ or_default_twice s.ref (default_ref kind) in
    λ i. record {
      kind = same_kind i;
      url = s.url;
      ref = same_ref i;
      path = or_default_twice s.path (txt "./") i;
      interval = or_default_twice s.interval (txt "10m") i;
    }

default_engine_twice : (e : EngineSpec) → default_engine (default_engine e) ≡ default_engine e
unfolding default_engine
default_engine_twice e = λ i. record {
  provider = or_default_twice e.provider (txt "flux") i;
  version = e.version;
  source = map_option_twice default_engine_source default_engine_source_twice e.source i;
}

default_domain_twice :
    (domain name : Text)
    → default_domain (default_domain domain name) name ≡ default_domain domain name
unfolding default_domain
default_domain_twice domain name = ground arith

default_gateway_twice :
    (name : Text) (g : GatewaySpec)
    → default_gateway (default_gateway g name) name ≡ default_gateway g name
unfolding default_gateway
default_gateway_twice name g = λ i. record { domain = default_domain_twice g.domain name i }

default_cluster_twice : (c : ClusterSpec) → default_cluster (default_cluster c) ≡ default_cluster c
unfolding default_cluster
default_cluster_twice c = λ i. record {
  provider = or_default_twice c.provider (txt "kind") i;
  for_provider = c.for_provider;
}

default_ca_twice : (c : CaSpec) → default_ca (default_ca c) ≡ default_ca c
unfolding default_ca
default_ca_twice c = λ i. record { provider = or_default_twice c.provider (txt "cube") i }

or_default_prerequisites_twice :
    (units : List PrerequisiteSpec)
    → or_default_prerequisites (or_default_prerequisites units) ≡ or_default_prerequisites units
unfolding or_default_prerequisites default_prerequisites
or_default_prerequisites_twice [] = refl
or_default_prerequisites_twice (u ∷ units) = refl

default_manifest_twice :
    (m : ExternalManifest) → default_manifest (default_manifest m) ≡ default_manifest m
unfolding default_manifest
default_manifest_twice m = λ i. record {
  ref = m.ref;
  manifest = m.manifest;
  lifecycle = or_default_twice m.lifecycle (txt "with") i;
}

default_pack_twice : (p : PackSpec) → default_pack (default_pack p) ≡ default_pack p
unfolding default_pack
default_pack_twice p = λ i. record {
  id = p.id;
  pack_ref = p.pack_ref;
  values_ref = p.values_ref;
  values = p.values;
  external_manifests = map_twice default_manifest default_manifest_twice p.external_manifests i;
  depends_on = p.depends_on;
}

-- Defaulting a configuration that is defaulted changes nothing.
pub default_config_twice : (c : Config) → default_config (default_config c) ≡ default_config c
unfolding default_config
default_config_twice c = λ i. record {
  name = c.name;
  spec = record {
    cluster = map_option_twice default_cluster default_cluster_twice c.spec.cluster i;
    engine = map_option_twice default_engine default_engine_twice c.spec.engine i;
    gateway =
        map_option_twice (λ g. default_gateway g c.name) (default_gateway_twice c.name)
          c.spec.gateway i;
    ca = map_option_twice default_ca default_ca_twice c.spec.ca i;
    prerequisites = or_default_prerequisites_twice c.spec.prerequisites i;
    packs = map_twice default_pack default_pack_twice c.spec.packs i;
  };
}
