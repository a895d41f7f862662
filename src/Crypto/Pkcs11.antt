-- ===== src/Crypto/Pkcs11.antt =====
-- What src/crypto.rs calls outside the repository: the pkcs11 crate's `Ctx`, the writers of the
-- x509 crate, `pinentry_rs`, and the gpg process.
use f2ido.Prelude.{ℕ, Bool, Option, List}
use f2ido.Outcome.{M}
use f2ido.Ctaphid.Types.{Bytes}

-- The attribute types `CKA_*`.
pub data AttributeType : Type 0 where
  cka_class cka_token cka_label cka_value cka_key_type cka_value_len : AttributeType
  cka_sensitive cka_extractable cka_wrap cka_unwrap cka_encrypt cka_decrypt : AttributeType
  cka_destroyable cka_ec_params cka_ec_point : AttributeType

-- The values of `with_ck_ulong`: the constants `CKO_*` and `CKK_*`, or a number.
pub data Ulong : Type 0 where
  cko_data cko_secret_key cko_private_key ckk_aes ckk_ec : Ulong
  number : ℕ → Ulong

-- `with_ck_ulong`, `with_bool`, and `with_bytes` or `with_string`.
pub data Value : Type 0 where
  ulong : Ulong → Value
  boolean : Bool → Value
  octets : Bytes → Value

pub record Attribute : Type 0 where
  pub type : AttributeType
  pub value : Value

-- The mechanisms `CKM_*`; none that the source uses has a parameter.
pub data Mechanism : Type 0 where
  ckm_aes_key_gen ckm_ec_key_pair_gen ckm_aes_key_wrap_pad : Mechanism
  ckm_sha256 ckm_ecdsa ckm_aes_ecb : Mechanism

abbrev pub Session : Type 0
Session = ℕ

-- `CK_OBJECT_HANDLE`
abbrev pub Handle : Type 0
Handle = ℕ

pub record TokenInfo : Type 0 where
  pub label : Bytes
  pub flags : ℕ

-- What `C_GetAttributeValue` leaves: the return code, `ulValueLen`, and the buffer.
pub record Got : Type 0 where
  pub rv : ℕ
  pub value_len : ℕ
  pub buffer : Bytes

-- `Ctx`, over a world `W`. `get_attribute_value` reads one attribute; its buffer is `none` for a
-- null pointer.
pub record Ctx (W : Type 0) : Type 0 where
  pub ckr_ok : ℕ
  pub ckr_buffer_too_small : ℕ
  pub ckf_protected_authentication_path : ℕ
  pub get_slot_list : (token_present : Bool) → M W (List ℕ)
  pub get_token_info : (slot_id : ℕ) → M W TokenInfo
  pub open_session : (slot_id : ℕ) → M W Session
  pub close_session : Session → M W (Unit {0})
  pub login : Session → (pin : Option Bytes) → M W (Unit {0})
  pub find_objects_init : Session → List Attribute → M W (Unit {0})
  pub find_objects : Session → (max : ℕ) → M W (List Handle)
  pub find_objects_final : Session → M W (Unit {0})
  pub create_object : Session → List Attribute → M W Handle
  pub destroy_object : Session → Handle → M W (Unit {0})
  pub get_attribute_value : Session → Handle → AttributeType → (buffer : Option Bytes) → M W Got
  pub generate_key : Session → Mechanism → List Attribute → M W Handle
  pub generate_key_pair :
      Session → Mechanism → (public_key private_key : List Attribute) → M W (Handle × Handle)
  pub wrap_key : Session → Mechanism → (wrapping_key key : Handle) → M W Bytes
  pub unwrap_key :
      Session → Mechanism → (unwrapping_key : Handle) → Bytes → List Attribute → M W Handle
  pub digest_init : Session → Mechanism → M W (Unit {0})
  pub digest : Session → Bytes → M W Bytes
  pub sign_init : Session → Mechanism → Handle → M W (Unit {0})
  pub sign : Session → Bytes → M W Bytes
  pub encrypt_init : Session → Mechanism → Handle → M W (Unit {0})
  pub encrypt : Session → Bytes → M W Bytes
  pub decrypt_init : Session → Mechanism → Handle → M W (Unit {0})
  pub decrypt : Session → Bytes → M W Bytes
  -- `Drop`, which finalizes the module, and only prints an error.
  pub finalize : W → W

-- The writers of x509: `tbs_certificate` and `certificate` with the algorithm identifiers and the
-- key of this program. `none` is an error of cookie_factory.
pub record X509 : Type 0 where
  pub tbs_certificate :
      (serial : Bytes) (algorithm : List ℕ) (issuer : Bytes) (not_before : ℕ) (not_after : Option ℕ)
      (subject : Bytes) (key_algorithm key_parameters : List ℕ) (public_key : Bytes)
      → Option Bytes
  pub certificate :
      (tbs_certificate : Bytes) (algorithm : List ℕ) (signature : Bytes) → Option Bytes

-- How the user's PIN is got: a prompt for it, or the output of gpg for a file.
pub record Output : Type 0 where
  pub success : Bool
  pub stdout : Bytes

pub record Pins (W : Type 0) : Type 0 where
  -- `pinentry().description(…).pin("")`
  pub pin : (description : Bytes) → M W Bytes
  pub gpg_decrypt : (file_name : Bytes) → M W Output
  -- `str::trim` and `String::from_utf8_lossy`
  pub trim : Bytes → Bytes
  pub from_utf8_lossy : Bytes → Bytes
