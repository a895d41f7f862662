-- ===== src/Ceremony.antt =====
-- The commands of src/ctaphid.rs on the key store of src/crypto.rs, as src/main.rs joins them: what
-- a registration promises to later authentications.
pub mod Registration
pub mod Assertion
use f2ido.Prelude.{ℕ, ◌≡◌, Option, none, some, List, ◌∷◌}
use f2ido.Outcome.{Outcome, ok, err, panic}
use f2ido.Ctaphid.Types.{
  Bytes, InitResponse, CredentialId, GetAssertionResponse, MakeCredentialResponse, CborValue,
}
use f2ido.Ctaphid.Env.{Env, Prompt, Cbor}
use f2ido.Ctaphid.Context.{Context}
use f2ido.Crypto.Pkcs11.{Ctx, X509, Session, Handle}
use f2ido.Crypto.KeyStore.{key_store, padded}
use f2ido.Crypto.Store.{Works}
use f2ido.Crypto.Store.Cipher.{Cipher}
use f2ido.Crypto.Store.Keys.{Pairs}

-- The environment of the channels when the token is open.
unfoldable pub authenticator :
    {W : Type 0} → Ctx W → Session → X509 → Prompt W → Cbor → (InitResponse → Option Bytes) → Env W
unfolding key_store
authenticator ctx session x509 prompt cbor pack = record {
  token = key_store ctx session x509;
  prompt = prompt;
  cbor = cbor;
  pack = pack;
}

-- The records of the program can be written, and a written credential id is read back.
pub record Codec (cbor : Cbor) : Type 0 where
  pub writes_id : (i : CredentialId) → (xs : Bytes) × (cbor.write_credential_id i ≡ some xs)
  pub reads_id :
      (i : CredentialId) (xs : Bytes)
      → cbor.write_credential_id i ≡ some xs
      → cbor.read_credential_id xs ≡ some i
  pub writes_map : (m : List (CborValue × CborValue)) → (xs : Bytes) × (cbor.write_map m ≡ some xs)
  pub writes_made :
      (r : MakeCredentialResponse) → (xs : Bytes) × (cbor.write_make_credential r ≡ some xs)
  pub writes_assertion :
      (r : GetAssertionResponse) → (xs : Bytes) × (cbor.write_get_assertion r ≡ some xs)

-- The context of a channel after calls of the key store.
abbrev pub in_world : {W : Type 0} → Context W → W → Context W
in_world c w = record c { world = w }

-- How `lift` ends.
abbrev pub lifted : {W A : Type 0} → Context W → Outcome W A → Outcome (Context W) A
lifted c (ok a w) = ok a (record c { world = w })
lifted c (err e w) = err e (record c { world = w })
lifted c panic = panic

-- `id` is a credential for the relying party `rp_id`, with the point `x`, `y`.
pub record Made {W : Type 0} (cbor : Cbor) (ctx : Ctx W) (session : Session)
    (works : Works ctx session) (k : Handle) (cipher : Cipher ctx session works k)
    (keys : Pairs ctx session works k) (rp_id id x y : Bytes) : Type 0 where
  pub credential : CredentialId
  pub read : cbor.read_credential_id id ≡ some credential
  pub is_id : keys.IsId credential.wrapped_private_key x y
  pub sealed : credential.encrypted_rp_id ≡ cipher.seal (padded rp_id)
