-- ===== src/Ceremony/Assertion.antt =====
-- Authentications with a credential of src/ctaphid.rs.
use f2ido.Prelude.{
  ℕ, ◌+◌, ◌^◌, ◌≤◌, ◌<◌, ◌≡◌, refl, ap, ◌∙◌, Option, none, some, List, ◌∷◌, ◌++◌, length, bytes_eq,
  if◌then◌else◌,
}
use f2ido.Prelude.Bits.{u32_to_be_bytes}
use f2ido.Outcome.{ok, Error, returns, attempted, or_abort, or_fail, index}
use f2ido.Ctaphid.Types.{
  Bytes, State, InitResponse, CredentialId, GetAssertionArgs, GetAssertionResponse,
  PublicKeyCredentialDescriptor, Receiver, err_invalid_credential,
}
use f2ido.Ctaphid.Env.{Env, Prompt, Cbor}
use f2ido.Ctaphid.Context.{Context}
use f2ido.Ctaphid.Commands.{
  send_cbor_reply, send_cbor_error, get_assertion_args, get_assertion_3, get_assertion_1,
  check_credential,
}
use f2ido.Crypto.Pkcs11.{Ctx, X509, Session, Handle}
use f2ido.Crypto.KeyStore.{padded, increment_token_counter, sha256_hash, sign, decrypt}
use f2ido.Crypto.Signature.Der.{read_signature}
use f2ido.Crypto.Store.{Works}
use f2ido.Crypto.Store.Counter.{Holds, increment_token_counter-Holds}
use f2ido.Crypto.Store.Cipher.{Cipher, AreBytes, decrypt-Holds}
use f2ido.Crypto.Store.Keys.{Pairs, sha256_hash-Holds, sign-Verifies}
use f2ido.Ceremony.{authenticator, Codec, in_world, lifted, Made}

module _ {W : Type 0} (ctx : Ctx W) (session : Session) (x509 : X509) (prompt : Prompt W)
    (cbor : Cbor) (pack : InitResponse → Option Bytes) (works : Works ctx session) (k : Handle)
    (cipher : Cipher ctx session works k) (keys : Pairs ctx session works k) (codec : Codec cbor)
    (rp_id id x y : Bytes) (made : Made cbor ctx session works k cipher keys rp_id id x y) where
  abbrev pub env : Env W
  env = authenticator ctx session x509 prompt cbor pack

  -- Over a token that works, a credential made for a relying party of at most 255 bytes leads to
  -- the question to the user when the authentication names the same relying party, and to the
  -- error for an invalid credential when it names any other; the token has the counter and the key
  -- as before.
  pub check_credential-Made :
      (args : GetAssertionArgs) (v : ℕ) (c : Context W)
      → AreBytes rp_id
      → length rp_id ≤ 255
      → Holds ctx session works k v c.world
      → (w : W) × Holds ctx session works k v w
        × (check_credential env args (cbor.read_credential_id id) c
            ≡ (if bytes_eq rp_id args.rp_id
                  then get_assertion_1 env args
                  else send_cbor_error err_invalid_credential)
                (in_world c w))
  unfolding authenticator
  check_credential-Made args v c octets fits holds =
      let (w, e, holds1) =
        decrypt-Holds ctx session works k cipher c.world v rp_id octets fits holds in
      (
        w,
        holds1,
        ap (λ (o : Option CredentialId). check_credential env args o c) made.read
            ∙ returns _ (ap (lifted c) (ap attempted (opened e))) refl,
      )
    where
      opened :
          {w : W}
          → decrypt ctx session (cipher.seal (padded rp_id)) c.world ≡ ok rp_id w
          → decrypt ctx session made.credential.encrypted_rp_id c.world ≡ ok rp_id w
      opened e = ap (λ (d : Bytes). decrypt ctx session d c.world) made.sealed ∙ e

  -- The data that is signed in front of the hash of the client's data.
  abbrev pub assertion_data : Bytes → ℕ → Bytes
  assertion_data rp v = keys.digest_of rp ++ 0x01 ∷ u32_to_be_bytes v

  -- Over a token that works with the counter v, v + 1 below 2 ^ 32, and a codec that writes every
  -- record, get_assertion_3 in the state of an authentication whose first allowed credential was
  -- made for a point replies with the record of the digest of the relying party, the flag 1 and
  -- the counter v, and with a signature in DER whose numbers verify under the point for the digest
  -- of that data and the client's hash; the token then has the counter v + 1 and the same key.
  pub get_assertion_3-Verifies :
      (args : GetAssertionArgs) (consent : Receiver) (descriptor : PublicKeyCredentialDescriptor)
      (others : List PublicKeyCredentialDescriptor) (v : ℕ) (c : Context W)
      → c.channel.state ≡ State.get_assertion args consent
      → args.allow_list ≡ descriptor ∷ others
      → descriptor.id ≡ id
      → v + 1 < 2 ^ 32
      → Holds ctx session works k v c.world
      → (w : W) × (signature message : Bytes) × (r s : ℕ) × (get_assertion_3 env c
          ≡ send_cbor_reply message (in_world c w))
        × (cbor.write_get_assertion (record {
          credential = none;
          auth_data = assertion_data args.rp_id v;
          signature = signature;
          user = none;
          number_of_credentials = some 1;
        })
            ≡ some message)
        × (read_signature signature ≡ some (r, s))
        × keys.Verifies x y
            (keys.digest_of (assertion_data args.rp_id v ++ args.client_data_hash))
            r
            s
        × Holds ctx session works k (v + 1) w
  unfolding authenticator get_assertion_3
  get_assertion_3-Verifies args consent descriptor others v c state allowed same fits holds =
      let (w1, e1, holds1) =
        increment_token_counter-Holds ctx session works c.world k v fits holds in
      let (w2, e2, holds2) =
        sha256_hash-Holds ctx session works k keys w1 (v + 1) args.rp_id holds1 in
      let (w3, out, r, s, e3, parsed, good, holds3) =
        sign-Verifies ctx session works k keys w2 (v + 1) made.credential.wrapped_private_key x y
          (assertion_data args.rp_id v ++ args.client_data_hash) holds2 made.is_id in
      let (message, written) = codec.writes_assertion (record {
        credential = none;
        auth_data = assertion_data args.rp_id v;
        signature = out;
        user = none;
        number_of_credentials = some 1;
      }) in
      (w3, out, message, r, s, run e1 e2 e3 written, written, parsed, good, holds3)
    where
      known : or_abort (cbor.read_credential_id descriptor.id) c ≡ ok made.credential c
      known =
          ap (λ (d : Bytes). or_abort (cbor.read_credential_id d) c) same
          ∙ ap (λ (o : Option CredentialId). or_abort o c) made.read

      response : Bytes → GetAssertionResponse
      response out = record {
        credential = none;
        auth_data = assertion_data args.rp_id v;
        signature = out;
        user = none;
        number_of_credentials = some 1;
      }

      run :
          {w1 w2 w3 : W} {out message : Bytes}
          → increment_token_counter ctx session c.world ≡ ok v w1
          → sha256_hash ctx session args.rp_id w1 ≡ ok (keys.digest_of args.rp_id) w2
          → sign ctx session made.credential.wrapped_private_key
              (assertion_data args.rp_id v ++ args.client_data_hash)
              w2
            ≡ ok out w3
          → cbor.write_get_assertion (response out) ≡ some message
          → get_assertion_3 env c ≡ send_cbor_reply message (in_world c w3)
      run {w1} {w2} {w3} e1 e2 e3 written =
          returns _ (ap (λ (st : State). get_assertion_args st c) state) (
            returns _ (ap (λ (l : List PublicKeyCredentialDescriptor). index l 0 c) allowed) (
              returns _ known (
                returns _ (ap (lifted c) e1) (
                  returns _ (ap (lifted (in_world c w1)) e2) (
                    returns _ (ap (lifted (in_world c w2)) e3) (
                      returns _
                        (ap (λ (o : Option Bytes). or_fail o Error.cbor (in_world c w3)) written)
                        refl))))))
