-- ===== src/Crypto/Objects.antt =====
-- The constants, the search templates and the attributes of objects in src/crypto.rs.
use f2ido.Prelude.{ℕ, true, false, List, [], ◌∷◌}
use f2ido.Prelude.Bits.{u32_from_be_bytes}
use f2ido.Prelude.Text.{codes}
use f2ido.Ctaphid.Types.{Bytes}
use f2ido.Crypto.Pkcs11.{
  Attribute, AttributeType, Value, ulong, boolean, octets, cko_data, cko_secret_key,
  cko_private_key, ckk_aes, ckk_ec, number, cka_class, cka_token, cka_label, cka_value,
  cka_key_type, cka_value_len, cka_sensitive, cka_extractable, cka_wrap, cka_unwrap, cka_encrypt,
  cka_decrypt, cka_destroyable, cka_ec_params,
}

abbrev pub oid_secp256r1 : List ℕ
oid_secp256r1 = 1 ∷ 2 ∷ 840 ∷ 10045 ∷ 3 ∷ 1 ∷ 7 ∷ []

abbrev pub oid_ec_public_key : List ℕ
oid_ec_public_key = 1 ∷ 2 ∷ 840 ∷ 10045 ∷ 2 ∷ 1 ∷ []

abbrev pub oid_ecdsa_with_sha256 : List ℕ
oid_ecdsa_with_sha256 = 1 ∷ 2 ∷ 840 ∷ 10045 ∷ 4 ∷ 3 ∷ 2 ∷ []

-- `curve_oid("secp256r1")`, the only curve that is asked for
abbrev pub curve_oid : Bytes
curve_oid = 0x06 ∷ 0x08 ∷ 0x2A ∷ 0x86 ∷ 0x48 ∷ 0xCE ∷ 0x3D ∷ 0x03 ∷ 0x01 ∷ 0x07 ∷ []

abbrev pub attribute : AttributeType → Value → Attribute
attribute t v = record { type = t; value = v }

abbrev pub secret_key_label : Bytes
secret_key_label = codes "softfido-secret-key"

abbrev pub token_counter_label : Bytes
token_counter_label = codes "softfido-token-counter"

-- The templates of the two searches.
abbrev pub secret_key_template : List Attribute
secret_key_template =
    attribute cka_label (octets secret_key_label) ∷ attribute cka_class (ulong cko_secret_key) ∷ []

abbrev pub token_counter_template : List Attribute
token_counter_template =
    attribute cka_label (octets token_counter_label) ∷ attribute cka_class (ulong cko_data) ∷ []

-- The attributes of the objects that are made.
abbrev pub secret_key_attributes : List Attribute
secret_key_attributes =
    attribute cka_class (ulong cko_secret_key)
    ∷ attribute cka_key_type (ulong ckk_aes)
    ∷ attribute cka_value_len (ulong (number 32))
    ∷ attribute cka_label (octets secret_key_label)
    ∷ attribute cka_token (boolean true)
    ∷ attribute cka_sensitive (boolean true)
    ∷ attribute cka_extractable (boolean false)
    ∷ attribute cka_wrap (boolean true)
    ∷ attribute cka_unwrap (boolean true)
    ∷ attribute cka_encrypt (boolean true)
    ∷ attribute cka_decrypt (boolean true)
    ∷ []

abbrev pub token_counter_attributes : Bytes → List Attribute
token_counter_attributes value =
    attribute cka_class (ulong cko_data)
    ∷ attribute cka_token (boolean true)
    ∷ attribute cka_label (octets token_counter_label)
    ∷ attribute cka_destroyable (boolean true)
    ∷ attribute cka_value (octets value)
    ∷ []

-- The template of the private keys that are unwrapped.
abbrev pub private_key_template : List Attribute
private_key_template =
    attribute cka_class (ulong cko_private_key)
    ∷ attribute cka_key_type (ulong ckk_ec)
    ∷ attribute cka_token (boolean false)
    ∷ []

abbrev pub public_key_attributes : List Attribute
public_key_attributes =
    attribute cka_key_type (ulong ckk_ec)
    ∷ attribute cka_token (boolean false)
    ∷ attribute cka_ec_params (octets curve_oid)
    ∷ []

abbrev pub private_key_attributes : List Attribute
private_key_attributes =
    attribute cka_token (boolean false) ∷ attribute cka_extractable (boolean true) ∷ []

-- `u32::from_be_bytes` of the buffer of four bytes
abbrev pub counter_of : Bytes → ℕ
counter_of (a ∷ b ∷ c ∷ d ∷ []) = u32_from_be_bytes a b c d
counter_of _ = 0
