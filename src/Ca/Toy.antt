-- ===== src/Ca/Toy.antt =====
-- A small instance of the cryptography that internal/ca calls: keys are numbers, and a certificate
-- is a list of its fields. It signs what has one organizational unit at most.
use cube_idp.Base.{
  ℕ, zero, suc, ◌<◌, ◌≡◌, refl, sym, ap, ◌∙◌, Bool, true, false, ◌&&◌, Option, none, some, List, [],
  ◌∷◌, ◌++◌, arith, length, take, drop, take-length-append, drop-length-append, some_is, eqb, Text,
}
use cube_idp.Ca.Material.{Bytes, Certificate, Crypto}
use cube_idp.Ca.Mint.Minted.{SameFields, IsLawful}
use cube_idp.Ca.Ensure.{Base64}
use cube_idp.Ca.Ensure.Again.{IsBase64}

abbrev encode_units : List Text → Option Bytes
encode_units [] = some (0 ∷ [])
encode_units (u ∷ []) = some (1 ∷ u)
encode_units (u ∷ v ∷ units) = none

abbrev decode_units : Bytes → List Text
decode_units [] = []
decode_units (zero ∷ rest) = []
decode_units (suc n ∷ rest) = rest ∷ []

abbrev flag : Bool → ℕ
flag true = 1
flag false = 0

abbrev of_flag : ℕ → Bool
of_flag zero = false
of_flag (suc n) = true

abbrev ToyCert : Type 0
ToyCert = Certificate ℕ ℕ

abbrev create_from : ToyCert → ℕ → ℕ → Option Bytes → Option (Bytes × ℕ)
create_from tpl public rand none = none
create_from tpl public rand (some units) = some (
  tpl.serial
      ∷ tpl.key_usage
      ∷ flag (tpl.basic_constraints_valid && tpl.is_ca)
      ∷ public
      ∷ length tpl.common_name
      ∷ (tpl.common_name ++ units),
  rand,
)

abbrev parse_cert : Bytes → Option ToyCert
parse_cert (serial ∷ usage ∷ authority ∷ public ∷ n ∷ rest) = some (record {
  serial = serial;
  common_name = take n rest;
  organizational_unit = decode_units (drop n rest);
  dns_names = [];
  not_before = 0;
  not_after = 0;
  signature_algorithm = 0;
  key_usage = usage;
  server_auth = false;
  basic_constraints_valid = true;
  is_ca = of_flag authority;
  max_path_len = 0;
  max_path_len_zero = true;
  public_key = some public;
  raw = [];
})
parse_cert _ = none

abbrev unframed : Bytes → Option Bytes
unframed [] = none
unframed (c ∷ block) = some block

abbrev first_number : Bytes → Option (Option ℕ)
first_number [] = none
first_number (n ∷ rest) = some (some n)

abbrev draw_below : ℕ → ℕ → Option (ℕ × ℕ)
draw_below zero rand = none
draw_below (suc limit) rand = some (0, rand)

abbrev pub toy : Crypto
toy = record {
  Time = ℕ;
  PublicKey = ℕ;
  PrivateKey = ℕ;
  Rand = ℕ;
  decode_pem = unframed;
  encode_pem = λ block_type block. 0 ∷ block;
  parse_certificate = parse_cert;
  parse_pkcs8 = first_number;
  marshal_pkcs8 = λ key. some (key ∷ []);
  public_of = λ key. key;
  equal = λ x y. eqb x y;
  generate_key = λ rand. some (rand, suc rand);
  rand_int = draw_below;
  create_certificate = λ tpl parent public signer rand.
      create_from tpl public rand (encode_units tpl.organizational_unit);
  sha256 = λ bytes. bytes;
  hour_before = λ t. t;
  add_years = λ years t. t;
}

of_flag-flag : (b : Bool) → of_flag (flag b) ≡ b
of_flag-flag true = refl
of_flag-flag false = refl

decode_units-encode_units :
    (units : List Text) (bytes : Bytes)
    → encode_units units ≡ some bytes
    → decode_units bytes ≡ units
decode_units-encode_units [] bytes h = ap decode_units (sym (some_is h))
decode_units-encode_units (u ∷ []) bytes h = ap decode_units (sym (some_is h))
decode_units-encode_units (u ∷ v ∷ units) bytes h = cc

toy_parse :
    (tpl : ToyCert) (public rand rest : ℕ) (der : Bytes) (units : Option Bytes)
    → encode_units tpl.organizational_unit ≡ units
    → create_from tpl public rand units ≡ some (der, rest)
    → (cert : ToyCert) × (parse_cert der ≡ some cert)
      × (cert.public_key ≡ some public)
      × SameFields tpl cert
toy_parse tpl public rand rest der none e h = cc
toy_parse tpl public rand rest der (some units) e h =
    let same = ap (λ x. parse_cert x.0) (some_is h) in
    (
      _,
      sym same,
      refl,
      record {
        serial = refl;
        common_name = take-length-append tpl.common_name units;
        organizational_unit =
            ap decode_units (drop-length-append tpl.common_name units)
            ∙ decode_units-encode_units tpl.organizational_unit units e;
        key_usage = refl;
        is_ca = of_flag-flag (tpl.basic_constraints_valid && tpl.is_ca);
      },
    )

draw_below-below : (limit n rand rest : ℕ) → draw_below limit rand ≡ some (n, rest) → n < limit
draw_below-below zero n rand rest h = cc
draw_below-below (suc limit) n rand rest h =
    let e : 0 ≡ n = ap (λ x. x.0) (some_is h) in omega (arith, e)

pub toy-IsLawful : IsLawful toy
toy-IsLawful = record {
  decode-encode = λ block_type block. refl;
  encode_some = λ block_type block e. cc;
  parse-create = λ tpl parent public signer rand rest der h.
      toy_parse tpl public rand rest der (encode_units tpl.organizational_unit) refl h;
  parse-marshal = λ key der h. ap first_number (sym (some_is h));
  equal_refl = λ public. ground arith;
  rand_int_below = λ limit n rand rest h. draw_below-below limit n rand rest h;
}

abbrev pub plain : Base64
plain = record { encode = λ bytes. bytes; decode = λ text. some text }

pub plain-IsBase64 : IsBase64 plain
plain-IsBase64 = record { decode-encode = λ bytes. refl; encode_some = λ bytes n. n }
