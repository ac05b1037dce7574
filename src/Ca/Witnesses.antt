-- ===== src/Ca/Witnesses.antt =====
-- The theorems on CA material at the small instance (internal/ca).
use cube_idp.Base.{◌≡◌, refl, ◌↔◌, true, false, none, some, [], ◌∷◌, ◌++◌, txt, ok, err}
use cube_idp.Ca.Material.{
  Material, Cert, parse_material, common_name, unusable_material, cert_broken,
}
use cube_idp.Ca.Material.Usable.{IsUsable, parse_material_iff}
use cube_idp.Ca.Mint.{MintRequest, mint, mint_leaf}
use cube_idp.Ca.Ensure.{EnsureResult, SecretPlacement, ensure}
use cube_idp.Ca.Ensure.Again.{Kept, Lasting, ensure-Kept, ensure-Lasting}
use cube_idp.Ca.Toy.{toy, toy-IsLawful, plain, plain-IsBase64}

abbrev request : MintRequest toy
request = record { cube_name = txt "demo"; domain = txt "d.io"; now = 0; rand = 7 }

abbrev placement : SecretPlacement
placement = record { namespace = txt "gw"; ca_secret = txt "ca"; leaf_secret = txt "tls" }

abbrev demo_ca : Material
demo_ca = record {
  cert_pem = 0 ∷ 1 ∷ 96 ∷ 1 ∷ 7 ∷ 16 ∷ (txt "cube-idp demo CA" ++ 1 ∷ txt "cube-idp.dev");
  key_pem = 0 ∷ 7 ∷ [];
}

abbrev demo_cert : Cert toy
demo_cert = record {
  serial = 1;
  common_name = txt "cube-idp demo CA";
  organizational_unit = txt "cube-idp.dev" ∷ [];
  dns_names = [];
  not_before = 0;
  not_after = 0;
  signature_algorithm = 0;
  key_usage = 96;
  server_auth = false;
  basic_constraints_valid = true;
  is_ca = true;
  max_path_len = 0;
  max_path_len_zero = true;
  public_key = some 7;
  raw = [];
}

abbrev demo : EnsureResult
demo = record {
  ca = demo_ca;
  leaf = record {
    cert_pem = 0 ∷ 1 ∷ 1 ∷ 0 ∷ 8 ∷ 6 ∷ (txt "*.d.io" ++ 0 ∷ []);
    key_pem = 0 ∷ 8 ∷ [];
  };
  minted = true;
}

minted_demo : ensure toy none request ≡ ok demo
unfolding ensure mint parse_material mint_leaf common_name
minted_demo = refl

-- Material that is cut short is refused.
truncated :
    ensure toy (some (record { cert_pem = 0 ∷ 1 ∷ []; key_pem = 0 ∷ 7 ∷ [] })) request
    ≡ err (unusable_material cert_broken)
unfolding ensure parse_material
truncated = refl

parse_material_iff_example :
    (parse_material toy demo_ca ≡ ok (demo_cert, 7)) ↔ IsUsable toy demo_ca demo_cert 7
parse_material_iff_example = parse_material_iff toy demo_ca demo_cert 7

ensure-Kept_example : Kept toy demo_ca request (ensure toy (some demo_ca) request)
ensure-Kept_example = ensure-Kept toy demo_ca request

ensure-Lasting_example : Lasting toy plain request placement demo
ensure-Lasting_example =
    ensure-Lasting toy plain request placement demo toy-IsLawful plain-IsBase64 minted_demo
