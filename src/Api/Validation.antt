-- ===== src/Api/Validation.antt =====
-- api/config/v1alpha1/validation.go. The proofs are in the module below.
pub mod Valid
use cube_idp.Base.{
  not, ◌&&◌, ◌||◌, Option, none, some, List, [], ◌∷◌, ◌++◌, map, has_prefix, if◌then◌else◌, Text,
  txt, ◌==◌,
}
use cube_idp.Api.{Config, ConfigSpec, ClusterSpec, EngineSpec, EngineSource, GatewaySpec, CaSpec}
use cube_idp.Api.Errors.{
  FieldPath, FieldError, required, invalid, not_supported, child, Libraries, matches_name,
}
use cube_idp.Api.Prerequisites.{validate_prerequisites}
use cube_idp.Api.Packs.{validate_packs}

abbrev field_path : List Text → FieldPath
field_path = map child

name_rules : (name : Text) → List FieldError
name_rules name =
    let path = field_path (txt "metadata" ∷ txt "name" ∷ []) in
    if name == []
    then required path ∷ []
    else if not (matches_name name)
    then invalid path name ∷ []
    else []

cluster_rules : Option ClusterSpec → List FieldError
cluster_rules none = []
cluster_rules (some cluster) =
    if not (cluster.provider == txt "kind")
    then not_supported (field_path (txt "spec" ∷ txt "cluster" ∷ txt "provider" ∷ []))
        cluster.provider
      ∷ []
    else []

ca_rules : Option CaSpec → List FieldError
ca_rules none = []
ca_rules (some ca) =
    if not (ca.provider == txt "cube")
    then not_supported (field_path (txt "spec" ∷ txt "ca" ∷ txt "provider" ∷ [])) ca.provider ∷ []
    else []

abbrev source_path : Text → FieldPath
source_path key = field_path (txt "spec" ∷ txt "engine" ∷ txt "source" ∷ key ∷ [])

kind_rules : (kind : Text) → List FieldError
kind_rules kind =
    if (kind == txt "git") || (kind == txt "oci")
    then []
    else not_supported (source_path (txt "kind")) kind ∷ []

url_rules : (kind url : Text) → List FieldError
url_rules kind url =
    if url == []
    then required (source_path (txt "url")) ∷ []
    else if (kind == txt "oci") && not (has_prefix (txt "oci://") url)
    then invalid (source_path (txt "url")) url ∷ []
    else if (kind == txt "git") && has_prefix (txt "oci://") url
    then invalid (source_path (txt "url")) url ∷ []
    else []

module _ (libraries : Libraries) where
  interval_rules : (interval : Text) → List FieldError
  interval_rules interval =
      if not (interval == []) && not (libraries.is_duration interval)
      then invalid (source_path (txt "interval")) interval ∷ []
      else []

  pub validate_engine_source : EngineSource → List FieldError
  unfolding kind_rules url_rules interval_rules
  validate_engine_source s =
      kind_rules s.kind ++ (url_rules s.kind s.url ++ interval_rules s.interval)

  provider_rules : (provider : Text) → List FieldError
  provider_rules provider =
      if not (provider == txt "flux")
      then not_supported (field_path (txt "spec" ∷ txt "engine" ∷ txt "provider" ∷ [])) provider
        ∷ []
      else []

  source_rules : Option EngineSource → List FieldError
  unfolding validate_engine_source
  source_rules none = []
  source_rules (some s) = validate_engine_source s

  pub validate_engine : EngineSpec → List FieldError
  unfolding provider_rules source_rules
  validate_engine e = provider_rules e.provider ++ source_rules e.source

  pub validate_gateway : GatewaySpec → List FieldError
  validate_gateway g = if g.domain == [] then [] else elim (libraries.subdomain_messages g.domain) [
    | [] ↦ []
    | message ∷ messages ↦
        invalid (field_path (txt "spec" ∷ txt "gateway" ∷ txt "domain" ∷ [])) g.domain ∷ []
  ]

  engine_rules : Option EngineSpec → List FieldError
  unfolding validate_engine
  engine_rules none = []
  engine_rules (some e) = validate_engine e

  gateway_rules : Option GatewaySpec → List FieldError
  unfolding validate_gateway
  gateway_rules none = []
  gateway_rules (some g) = validate_gateway g

  pub validate : Config → List FieldError
  unfolding name_rules cluster_rules engine_rules gateway_rules ca_rules
  validate c =
      name_rules c.name
      ++ (cluster_rules c.spec.cluster
          ++ (engine_rules c.spec.engine
              ++ (gateway_rules c.spec.gateway
                  ++ (ca_rules c.spec.ca
                      ++ (validate_packs libraries c.spec.packs
                          ++ validate_prerequisites c.spec.prerequisites)))))
