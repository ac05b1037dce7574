-- ===== src/Ca/Ensure.antt =====
-- Ensure of internal/ca/ensure.go, and the Secrets of internal/ca/secrets.go.
pub mod Again
use cube_idp.Base.{
  Bool, true, false, Option, none, some, List, [], ◌∷◌, Result, ◌>>=◌, ◌>>◌, or_error,
  if◌then◌else◌, Text, txt, ◌==◌, ok, err,
}
use cube_idp.Base.Document.{Value, str, obj, Fields, end, field, get, nested_string, set_nested}
use cube_idp.Ca.Material.{
  Bytes, Material, Crypto, CaError, unusable_secret, SecretFault, data_malformed, data_missing,
  value_missing, value_not_base64, parse_material,
}
use cube_idp.Ca.Mint.{MintRequest, mint, mint_leaf}

-- The struct EnsureResult.
pub record EnsureResult : Type 0 where
  pub ca : Material
  pub leaf : Material
  pub minted : Bool

module _ (c : Crypto) where
  -- A request is the existing material and the inputs of a mint.
  unfoldable pub ensure :
      (existing_ca : Option Material) → MintRequest c → Result CaError EnsureResult
  ensure none req =
      mint c req >>= λ minted. ok (record { ca = minted.0; leaf = minted.1; minted = true })
  ensure (some existing) req =
      parse_material c existing
      >> (mint_leaf c existing req >>= λ leaf.
          ok (record { ca = existing; leaf = leaf.0; minted = false }))

abbrev pub cert_data_key : Text
cert_data_key = txt "tls.crt"

abbrev pub key_data_key : Text
key_data_key = txt "tls.key"

pub record SecretPlacement : Type 0 where
  pub namespace : Text
  pub ca_secret : Text
  pub leaf_secret : Text

-- base64.StdEncoding. `none` is an error.
pub record Base64 : Type 0 where
  pub encode : Bytes → Text
  pub decode : Text → Option Bytes

-- The strings of a mapping, as unstructured.NestedStringMap reads them.
abbrev pub all_strings : Fields → Bool
all_strings end = true
all_strings (field k (str s) rest) = all_strings rest
all_strings (field k _ rest) = false

abbrev pub string_at : Fields → (key : Text) → Text
string_at data' key = elim (get data' key) [ some (str s) ↦ s | _ ↦ [] ]

module _ (b : Base64) where
  pub secret_object : (namespace name : Text) → Material → Fields
  secret_object namespace name m = field (txt "apiVersion") (str (txt "v1")) (
      field (txt "kind") (str (txt "Secret")) (
        field (txt "metadata")
          (obj (field (txt "namespace") (str namespace) (field (txt "name") (str name) end)))
          (field (txt "type") (str (txt "kubernetes.io/tls")) (
            field (txt "data")
              (obj (
                field cert_data_key (str (b.encode m.cert_pem))
                  (field key_data_key (str (b.encode m.key_pem)) end)))
              end))))

  pub secret_objects : SecretPlacement → EnsureResult → List Fields
  unfolding secret_object
  secret_objects p r =
      secret_object p.namespace p.ca_secret r.ca
      ∷ secret_object p.namespace p.leaf_secret r.leaf
      ∷ []

  -- newUnusableSecretError
  abbrev pub unusable : (o : Fields) → SecretFault → CaError
  unusable o fault =
      unusable_secret (nested_string o (txt "metadata") (txt "namespace" ∷ []))
        (nested_string o (txt "metadata") (txt "name" ∷ [])) fault

  pub decode_secret_value : (o data' : Fields) → (key : Text) → Result CaError Bytes
  decode_secret_value o data' key =
      if string_at data' key == []
      then err (unusable o (value_missing key))
      else or_error (unusable o (value_not_base64 key)) (b.decode (string_at data' key))

  -- The data of a Secret, by what stands under "data".
  pub secret_data : (o : Fields) → Option Value → Result CaError Fields
  secret_data o none = err (unusable o data_missing)
  secret_data o (some (obj data')) =
      if all_strings data' then ok data' else err (unusable o data_malformed)
  secret_data o (some _) = err (unusable o data_malformed)

  pub material_from_secret : (o : Fields) → Result CaError Material
  unfolding decode_secret_value secret_data
  material_from_secret o = secret_data o (get o (txt "data")) >>= λ data'.
      decode_secret_value o data' cert_data_key >>= λ cert_pem.
      decode_secret_value o data' key_data_key >>= λ key_pem.
      ok (record { cert_pem = cert_pem; key_pem = key_pem })
