-- ===== src/Crypto/KeyStore.antt =====
-- `KeyStore` of src/crypto.rs over the pkcs11 crate: the token's objects, keys, signatures and
-- ciphertexts.
use f2ido.Prelude.{
  ℕ, ◌+◌, ◌-◌, ◌%◌, ◌^◌, Bool, true, false, not, ◌||◌, Option, none, some, List, [], ◌∷◌, ◌++◌, leb,
  ltb, ◌==◌, length, replicate, if◌then◌else◌,
}
use f2ido.Prelude.Bits.{u32_to_be_bytes}
use f2ido.Outcome.{M, Error, pure, fail, or_abort, attempt, assert, index, slice, ◌>>=◌, ◌>>◌}
use f2ido.Ctaphid.Types.{Bytes}
use f2ido.Ctaphid.Env.{Token}
use f2ido.Crypto.Pkcs11.{
  Ctx, X509, Session, Handle, Attribute, AttributeType, cka_value, cka_ec_point, ckm_aes_key_gen,
  ckm_ec_key_pair_gen, ckm_aes_key_wrap_pad, ckm_sha256, ckm_ecdsa, ckm_aes_ecb,
}
use f2ido.Crypto.Objects.{
  oid_secp256r1, oid_ec_public_key, oid_ecdsa_with_sha256, secret_key_template,
  token_counter_template, secret_key_attributes, token_counter_attributes, private_key_template,
  public_key_attributes, private_key_attributes, counter_of,
}
use f2ido.Crypto.Signature.{ec_point_x_y, der_encode_signature}

-- `match r.len()`
abbrev pub at_most_one : {W : Type 0} → Error → List Handle → M W (Option Handle)
at_most_one e [] = pure none
at_most_one e (h ∷ []) = pure (some h)
at_most_one e (h ∷ k ∷ rest) = fail e

abbrev pub is_some : {A : Type 0} → Option A → Bool
is_some none = false
is_some (some a) = true

module _ {W : Type 0} where
  -- `unwrap()` of a `Result`
  abbrev pub unwrap : {A : Type 0} → M W A → M W A
  unwrap m = attempt m >>= or_abort

  -- What follows the length.
  abbrev pub unpad : Bytes → M W Bytes
  unpad d = do
    len ← index d 0
    if ltb (length d) (1 + len) then fail Error.invalid_decrypted_data else slice 1 (1 + len) d

-- The length, the data, and zeros up to a multiple of 32.
abbrev pub padded : Bytes → Bytes
padded bytes = (length bytes % 256) ∷ bytes ++ replicate (31 - length bytes % 32) 0

module _ {W : Type 0} (ctx : Ctx W) (session : Session) where
  abbrev pub find_two : List Attribute → M W (List Handle)
  find_two template = do
    ctx.find_objects_init session template
    r ← ctx.find_objects session 2
    ctx.find_objects_final session
    pure r

  unfoldable pub find_secret_key : M W (Option Handle)
  find_secret_key = find_two secret_key_template >>= λ r. at_most_one Error.multiple_secret_keys r

  unfoldable pub find_token_counter : M W (Option Handle)
  find_token_counter =
      find_two token_counter_template >>= λ r. at_most_one Error.multiple_token_counters r

  unfoldable pub create_secret_key : M W (Unit {0})
  create_secret_key = do
    ctx.generate_key session ckm_aes_key_gen secret_key_attributes
    found ← unwrap find_secret_key
    assert (is_some found)

  unfoldable pub create_token_counter : ℕ → M W (Unit {0})
  create_token_counter value = do
    ctx.create_object session (token_counter_attributes (u32_to_be_bytes value))
    found ← unwrap find_token_counter
    assert (is_some found)

  -- The buffer is on the stack and `get_attribute_value` fills it. `v+1` is checked, as `cargo build`
  -- has it, and after the old counter is destroyed.
  unfoldable pub increment_token_counter : M W ℕ
  unfolding create_token_counter
  increment_token_counter = do
    found ← unwrap find_token_counter
    counter ← or_abort found
    got ← ctx.get_attribute_value session counter cka_value (some (0 ∷ 0 ∷ 0 ∷ 0 ∷ []))
    v ← if got.rv == ctx.ckr_ok then pure (counter_of got.buffer) else fail (Error.pkcs11 got.rv)
    ctx.destroy_object session counter
    assert (ltb (v + 1) (2 ^ 32))
    create_token_counter (v + 1)
    pure v

  unfoldable pub get_bytes_attribute : Handle → AttributeType → M W Bytes
  get_bytes_attribute key attr = do
    got ← ctx.get_attribute_value session key attr none
    if (got.rv == ctx.ckr_ok) || (got.rv == ctx.ckr_buffer_too_small)
        then pure tt
        else fail (Error.pkcs11 got.rv)
    full ← ctx.get_attribute_value session key attr (some (replicate got.value_len 0))
    if full.rv == ctx.ckr_ok then pure full.buffer else fail (Error.pkcs11 full.rv)

  -- `find_secret_key()?.unwrap()`
  unfoldable pub secret_key : M W Handle
  secret_key = find_secret_key >>= or_abort

  unfoldable pub generate_key_pair : M W (Bytes × Bytes × Bytes)
  unfolding secret_key get_bytes_attribute ec_point_x_y
  generate_key_pair = do
    (pub_key, priv_key) ←
        ctx.generate_key_pair session ckm_ec_key_pair_gen public_key_attributes
          private_key_attributes
    wrapping_key ← secret_key
    wrapped_key ← ctx.wrap_key session ckm_aes_key_wrap_pad wrapping_key priv_key
    point ← get_bytes_attribute pub_key cka_ec_point
    (x, y) ← ec_point_x_y point
    pure (wrapped_key, x, y)

  unfoldable pub is_valid_id : Bytes → M W Bool
  unfolding secret_key
  is_valid_id key = do
    found ← unwrap find_secret_key
    wrapping_key ← or_abort found
    unwrapped ←
        attempt (ctx.unwrap_key session ckm_aes_key_wrap_pad wrapping_key key private_key_template)
    pure (is_some unwrapped)

  unfoldable pub sha256_hash : Bytes → M W Bytes
  sha256_hash message = do ctx.digest_init session ckm_sha256; ctx.digest session message

  unfoldable pub sign : (key message : Bytes) → M W Bytes
  unfolding sha256_hash secret_key der_encode_signature
  sign key message = do
    hash ← sha256_hash message
    wrapping_key ← secret_key
    private_key ← ctx.unwrap_key session ckm_aes_key_wrap_pad wrapping_key key private_key_template
    ctx.sign_init session ckm_ecdsa private_key
    signature ← ctx.sign session hash
    der_encode_signature signature

  unfoldable pub encrypt : Bytes → M W Bytes
  unfolding secret_key
  encrypt bytes = do
    assert (leb (length bytes) 255)
    key ← secret_key
    ctx.encrypt_init session ckm_aes_ecb key
    ctx.encrypt session (padded bytes)

  unfoldable pub decrypt : Bytes → M W Bytes
  unfolding secret_key
  decrypt bytes =
      if not (length bytes % 32 == 0) || (length bytes == 0) then fail Error.invalid_length else do
        key ← secret_key
        ctx.decrypt_init session ckm_aes_ecb key
        d ← ctx.decrypt session bytes
        unpad d

  unfoldable pub create_certificate :
      X509
      → (wrapped_priv_key pub_key issuer subject : Bytes) (not_before : ℕ) (not_after : Option ℕ)
      → M W Bytes
  unfolding sign
  create_certificate x509 wrapped_priv_key pub_key issuer subject not_before not_after = do
    tbs_cert ← or_abort (
        x509.tbs_certificate (0 ∷ []) oid_ecdsa_with_sha256 issuer not_before not_after subject
          oid_ec_public_key oid_secp256r1 pub_key)
    sig ← sign wrapped_priv_key tbs_cert
    or_abort (x509.certificate tbs_cert oid_ecdsa_with_sha256 sig)

  -- `KeyStore` as the channels use it.
  unfoldable pub key_store : X509 → Token W
  key_store x509 = record {
    increment_token_counter = increment_token_counter;
    encrypt = encrypt;
    decrypt = decrypt;
    sha256_hash = sha256_hash;
    sign = sign;
    generate_key_pair = generate_key_pair;
    is_valid_id = is_valid_id;
    create_certificate = λ key pub_key issuer subject not_before not_after.
        create_certificate x509 key pub_key issuer subject not_before (some not_after);
  }
