-- ===== src/Ceremony/Registration.antt =====
-- Registrations of src/ctaphid.rs, whose credentials Ceremony/Assertion uses.
use f2ido.Prelude.{
  ℕ, ◌+◌, ◌%◌, ◌^◌, ◌≤◌, ◌<◌, ◌≡◌, refl, ap, not, false, Option, some, [], ◌∷◌, ◌++◌, length,
}
use f2ido.Prelude.Bits.{u32_to_be_bytes, u16_to_be_bytes}
use f2ido.Prelude.Text.{pos, negsuc, codes}
use f2ido.Outcome.{ok, Error, asserted, returns, attempted, or_fail}
use f2ido.Ctaphid.Types.{
  Bytes, State, InitResponse, CredentialId, MakeCredentialArgs, MakeCredentialResponse, Receiver,
  aaguid, serialize, CoseKey,
}
use f2ido.Ctaphid.Env.{Env, Prompt, Cbor}
use f2ido.Ctaphid.Context.{Context}
use f2ido.Ctaphid.Commands.{
  send_cbor_reply, make_credential_args, build_auth_data, make_credential_3,
}
use f2ido.Crypto.Pkcs11.{Ctx, X509, Session, Handle}
use f2ido.Crypto.KeyStore.{padded, generate_key_pair}
use f2ido.Crypto.Store.{Works}
use f2ido.Crypto.Store.Counter.{Holds, increment_token_counter-Holds}
use f2ido.Crypto.Store.Cipher.{Cipher, encrypt-Holds}
use f2ido.Crypto.Store.Keys.{Pairs, sha256_hash-Holds, generate_key_pair-is_valid_id}
use f2ido.Ceremony.{authenticator, Codec, in_world, lifted, Made}

module _ {W : Type 0} (ctx : Ctx W) (session : Session) (x509 : X509) (prompt : Prompt W)
    (cbor : Cbor) (pack : InitResponse → Option Bytes) (works : Works ctx session) (k : Handle)
    (cipher : Cipher ctx session works k) (keys : Pairs ctx session works k)
    (codec : Codec cbor) where
  abbrev pub env : Env W
  env = authenticator ctx session x509 prompt cbor pack

  abbrev pub cose_key : (x y : Bytes) → CoseKey
  cose_key x y = record { kty = pos 2; alg = negsuc 6; crv = pos 1; x = x; y = y }

  abbrev pub credential_of : (wrapped rp_id : Bytes) → CredentialId
  credential_of wrapped rp_id = record {
    wrapped_private_key = wrapped;
    encrypted_rp_id = cipher.seal (padded rp_id);
  }

  -- The authenticator data of a registration.
  abbrev pub registration_data : (rp_id : Bytes) (v : ℕ) (id cose : Bytes) → Bytes
  registration_data rp_id v id cose =
      keys.digest_of rp_id
      ++ 0x41 ∷ u32_to_be_bytes v
      ++ aaguid
      ++ u16_to_be_bytes (length id % 2 ^ 16)
      ++ id
      ++ cose

  build_auth_data-Made :
      (rp_id wrapped x y cose : Bytes) (v : ℕ) (w : W)
      → length rp_id ≤ 255
      → v + 1 < 2 ^ 32
      → keys.IsId wrapped x y
      → Holds ctx session works k v w
      → (w' : W) × (id : Bytes) × (build_auth_data env rp_id wrapped cose w
          ≡ ok (registration_data rp_id v id cose) w')
        × Made cbor ctx session works k cipher keys rp_id id x y
        × Holds ctx session works k (v + 1) w'
  unfolding authenticator build_auth_data
  build_auth_data-Made rp_id wrapped x y cose v w fits small is_id holds =
      let (w1, e1, holds1) = increment_token_counter-Holds ctx session works w k v small holds in
      let (w2, e2, holds2) =
        encrypt-Holds ctx session works k cipher w1 (v + 1) rp_id fits holds1 in
      let (id, written) = codec.writes_id (credential_of wrapped rp_id) in
      let (w3, e3, holds3) = sha256_hash-Holds ctx session works k keys w2 (v + 1) rp_id holds2 in
      (
        w3,
        id,
        returns _ e1 (
            returns _ e2 (
              returns _ (ap (λ (o : Option Bytes). or_fail o Error.cbor w2) written)
                (returns _ e3 refl))),
        record {
          credential = credential_of wrapped rp_id;
          read = codec.reads_id (credential_of wrapped rp_id) id written;
          is_id = is_id;
          sealed = refl;
        },
        holds3,
      )

  -- Over a token that works with the counter v, v + 1 below 2 ^ 32, and a codec that writes every
  -- record and reads a written credential id back, make_credential_3 in the state of a
  -- registration for a relying party of at most 255 bytes, without a resident key, replies with
  -- the record of the digest of the relying party, the flags 0x41, the counter v, the id of a
  -- credential made for this relying party and the point of its key, in two coordinates of 32
  -- bytes; the token then has the counter v + 1 and the same key.
  pub make_credential_3-Made :
      (args : MakeCredentialArgs) (consent : Receiver) (v : ℕ) (c : Context W)
      → c.channel.state ≡ State.make_credential args consent
      → args.options.rk ≡ false
      → length args.rp.id ≤ 255
      → v + 1 < 2 ^ 32
      → Holds ctx session works k v c.world
      → (w : W) × (id x y cose message : Bytes) × (make_credential_3 env c
          ≡ send_cbor_reply message (in_world c w))
        × (cbor.write_make_credential (record {
          fmt = codes "none";
          auth_data = registration_data args.rp.id v id cose;
          att_stmt = [];
        })
            ≡ some message)
        × (cbor.write_map (serialize (cose_key x y)) ≡ some cose)
        × (length x ≡ 32)
        × (length y ≡ 32)
        × Made cbor ctx session works k cipher keys args.rp.id id x y
        × Holds ctx session works k (v + 1) w
  unfolding authenticator make_credential_3
  make_credential_3-Made args consent v c state not_resident fits small holds =
      let (w1, wrapped, x, y, e1, hx, hy, is_id, holds1, valid) =
        generate_key_pair-is_valid_id ctx session works k keys c.world v holds in
      let (cose, mapped) = codec.writes_map (serialize (cose_key x y)) in
      let (w2, id, e2, made, holds2) =
        build_auth_data-Made args.rp.id wrapped x y cose v w1 fits small is_id holds1 in
      let (message, written) = codec.writes_made (record {
        fmt = codes "none";
        auth_data = registration_data args.rp.id v id cose;
        att_stmt = [];
      }) in
      (w2, id, x, y, cose, message, run e1 mapped e2 written, written, mapped, hx, hy, made, holds2)
    where
      response : Bytes → MakeCredentialResponse
      response auth_data = record { fmt = codes "none"; auth_data = auth_data; att_stmt = [] }

      run :
          {w1 w2 : W} {wrapped x y cose auth_data message : Bytes}
          → generate_key_pair ctx session c.world ≡ ok (wrapped, x, y) w1
          → cbor.write_map (serialize (cose_key x y)) ≡ some cose
          → build_auth_data env args.rp.id wrapped cose w1 ≡ ok auth_data w2
          → cbor.write_make_credential (response auth_data) ≡ some message
          → make_credential_3 env c ≡ send_cbor_reply message (in_world c w2)
      run {w1} {w2} e1 mapped e2 written = returns _ (ap (lifted c) (ap attempted e1)) (
          returns _ (ap (λ (st : State). make_credential_args st (in_world c w1)) state) (
            returns _ (asserted (in_world c w1) (ap not not_resident)) (
              returns _ (ap (λ (o : Option Bytes). or_fail o Error.cbor (in_world c w1)) mapped) (
                returns _ (ap (lifted (in_world c w1)) e2) (
                  returns _
                    (ap (λ (o : Option Bytes). or_fail o Error.cbor (in_world c w2)) written)
                    refl)))))
