-- ===== src/Api/Tests.antt =====
-- A configuration for api/config/v1alpha1.
use cube_idp.Base.{◌≡◌, ◌↔◌, true, none, some, List, [], ◌∷◌, Text, txt}
use cube_idp.Api.{Config, PrerequisiteSpec, PackSpec}
use cube_idp.Api.Errors.{Libraries}
use cube_idp.Api.Validation.{validate}
use cube_idp.Api.Validation.Valid.{IsValidConfig, validate_iff}
use cube_idp.Api.Defaults.{default_config}

abbrev libraries : Libraries
libraries = record {
  subdomain_messages = λ s. [];
  is_duration = λ s. true;
  unmarshal_object = λ raw. some (txt "v1", txt "Secret");
}

abbrev pack : Text → PackSpec
pack id = record {
  id = id;
  pack_ref = txt "./packs/a";
  values_ref = [];
  values = none;
  external_manifests = record { ref = []; manifest = some (txt "{}"); lifecycle = [] } ∷ [];
  depends_on = [];
}

abbrev units : List PrerequisiteSpec
units =
    record { name = txt "ca-secrets"; ref = [] }
    ∷ record { name = txt "mine"; ref = txt "./p" }
    ∷ []

abbrev config : Config
config = record {
  name = txt "demo";
  spec = record {
    cluster = some (record { provider = []; for_provider = none });
    engine = some (record {
      provider = [];
      version = [];
      source =
          some (record { kind = []; url = txt "https://x"; ref = []; path = []; interval = [] });
    });
    gateway = some (record { domain = [] });
    ca = some (record { provider = [] });
    prerequisites = [];
    packs = pack (txt "a") ∷ pack [] ∷ [];
  };
}

validate_iff_example :
    (validate libraries (default_config config) ≡ [])
    ↔ IsValidConfig libraries (default_config config)
validate_iff_example = validate_iff libraries (default_config config)
