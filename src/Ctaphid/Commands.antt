-- ===== src/Ctaphid/Commands.antt =====
-- The replies and the CTAP2 commands of `impl Channel` in src/ctaphid.rs.
use f2ido.Prelude.{
  ℕ, ◌%◌, ◌^◌, Bool, true, false, not, ◌&&◌, Option, none, some, [], ◌∷◌, ◌++◌, leb, ◌==◌, bytes_eq,
  length, if◌then◌else◌,
}
use f2ido.Prelude.Bits.{u32_to_be_bytes, u16_to_be_bytes}
use f2ido.Prelude.Text.{pos, negsuc, codes}
use f2ido.Outcome.{
  M, Outcome, ok, err, panic, pure, abort, attempt, or_abort, or_fail, ◌>>=◌, ◌>>◌, assert, index,
  Error,
}
use f2ido.Ctaphid.Types.{
  Bytes, State, PublicKeyCredentialParameters, MakeCredentialArgs, GetAssertionArgs, CredentialId,
  serialize, ctaphid_cbor, ctaphid_error, ctaphid_keepalive, ctaphid_ping, status_upneeded,
  err_invalid_par, err_operation_denied, err_invalid_credential, err_invalid_cbor,
  err_keepalive_cancel, aaguid,
}
use f2ido.Ctaphid.Env.{Env, Question, Recv, answer, failed, disconnected, timeout}
use f2ido.Ctaphid.Context.{Context, lift, call, get_state, set_state, reply}

-- The pattern of `make_credential` on the first algorithm: ES256 for a public key.
unfoldable pub is_es256 : PublicKeyCredentialParameters → Bool
is_es256 p = elim p.alg [
  | pos n ↦ false
  | negsuc n ↦ (n == 6) && bytes_eq p.type (codes "public-key")
]

-- `(Ok(id1), id2) if id1 == id2`
abbrev pub same_id : Option Bytes → Bytes → Bool
same_id none id2 = false
same_id (some id1) id2 = bytes_eq id1 id2

module _ {W : Type 0} where
  unfoldable pub send_error : ℕ → M (Context W) (Unit {0})
  send_error code = reply ctaphid_error (code ∷ [])

  unfoldable pub send_cbor_reply : Bytes → M (Context W) (Unit {0})
  send_cbor_reply cbor = reply ctaphid_cbor (0x00 ∷ cbor)

  unfoldable pub send_cbor_error : ℕ → M (Context W) (Unit {0})
  send_cbor_error error = reply ctaphid_cbor (error ∷ [])

  unfoldable pub ping_cmd : Bytes → M (Context W) (Unit {0})
  ping_cmd payload = reply ctaphid_ping payload

  -- The arguments of the state, where the code panics in any other state.
  abbrev pub make_credential_args : State → M (Context W) (MakeCredentialArgs × ℕ)
  make_credential_args (State.make_credential args consent) = pure (args, consent)
  make_credential_args State.init = abort
  make_credential_args (State.cont cmd bcnt buffer seqnum) = abort
  make_credential_args (State.get_assertion args consent) = abort

  abbrev pub get_assertion_args : State → M (Context W) (GetAssertionArgs × ℕ)
  get_assertion_args (State.get_assertion args consent) = pure (args, consent)
  get_assertion_args State.init = abort
  get_assertion_args (State.cont cmd bcnt buffer seqnum) = abort
  get_assertion_args (State.make_credential args consent) = abort

  abbrev pub reset_state : Outcome (Context W) (Unit {0}) → Outcome (Context W) (Unit {0})
  reset_state (ok a c) =
      ok a (record c { channel = record { cid = c.channel.cid; state = State.init } })
  reset_state (err e c) =
      err e (record c { channel = record { cid = c.channel.cid; state = State.init } })
  reset_state panic = panic

  -- `let r = …; self.state = State::Init; r`: the state is reset also when `r` is an `Err`.
  abbrev pub then_init : M (Context W) (Unit {0}) → M (Context W) (Unit {0})
  then_init m c = reset_state (m c)

  -- The answer of the user, the same in `make_credential_2` and in `get_assertion_2`.
  abbrev pub on_consent : M (Context W) (Unit {0}) → Recv → M (Context W) (Unit {0})
  on_consent go (answer true) = then_init go
  on_consent go (answer false) = then_init (send_cbor_error err_operation_denied)
  on_consent go disconnected = then_init (send_cbor_error err_operation_denied)
  on_consent go failed = abort
  on_consent go timeout = reply ctaphid_keepalive (status_upneeded ∷ [])

  unfoldable pub make_credential_cancel : M (Context W) (Unit {0})
  unfolding send_cbor_error
  make_credential_cancel = set_state State.init >> send_cbor_error err_keepalive_cancel

  unfoldable pub get_assertion_cancel : M (Context W) (Unit {0})
  unfolding make_credential_cancel
  get_assertion_cancel = make_credential_cancel

module _ {W : Type 0} (env : Env W) where
  unfoldable pub get_info : Bytes → M (Context W) (Unit {0})
  unfolding send_cbor_reply
  get_info cbor = do
    assert (length cbor == 0)
    bytes ←
        or_fail
          (env.cbor.write_get_info (record {
            versions = codes "FIDO_2_0" ∷ codes "U2F_V2" ∷ [];
            extensions = none;
            aaguid_bytes = aaguid;
          }))
          Error.cbor
    send_cbor_reply bytes

  unfoldable pub build_auth_data : (rp_id wrapped_priv_key pub_key_cose : Bytes) → M W Bytes
  build_auth_data rp_id wrapped_priv_key pub_key_cose = do
    counter ← env.token.increment_token_counter
    encrypted ← env.token.encrypt rp_id
    credential_id ←
        or_fail
          (env.cbor.write_credential_id
            (record { wrapped_private_key = wrapped_priv_key; encrypted_rp_id = encrypted }))
          Error.cbor
    hash ← env.token.sha256_hash rp_id
    pure (
        hash
        ++ 0x41 ∷ u32_to_be_bytes counter
        ++ aaguid
        ++ u16_to_be_bytes (length credential_id % 2 ^ 16)
        ++ credential_id
        ++ pub_key_cose)

  unfoldable pub make_credential_3 : M (Context W) (Unit {0})
  unfolding send_cbor_reply build_auth_data serialize
  make_credential_3 = do
    pair ← lift (attempt env.token.generate_key_pair)
    (privk, x, y) ← or_abort pair
    state ← get_state
    (args, consent) ← make_credential_args state
    assert (not args.options.rk)
    pub_key_cose ←
        or_fail
          (env.cbor.write_map
            (serialize (record { kty = pos 2; alg = negsuc 6; crv = pos 1; x = x; y = y })))
          Error.cbor
    auth_data ← lift (build_auth_data args.rp.id privk pub_key_cose)
    cbor ←
        or_fail
          (env.cbor.write_make_credential
            (record { fmt = codes "none"; auth_data = auth_data; att_stmt = [] }))
          Error.cbor
    send_cbor_reply cbor

  unfoldable pub make_credential_2 : M (Context W) (Unit {0})
  make_credential_2 = do
    state ← get_state
    (args, consent) ← make_credential_args state
    r ← call (env.prompt.recv_timeout consent 200)
    on_consent make_credential_3 r

  -- `make_credential` with the arguments that were read.
  unfoldable pub make_credential_1 : MakeCredentialArgs → M (Context W) (Unit {0})
  unfolding is_es256
  make_credential_1 args = do
    assert (leb (length args.user.id) 64)
    first ← index args.pub_key_algs 0
    assert (is_es256 first)
    consent ← call (
        env.prompt.yes_or_no_p
          (Question.registration args.rp.id args.rp.name args.user.name args.user.display_name))
    set_state (State.make_credential args consent) >> make_credential_2

  abbrev pub make_credential_read : Option MakeCredentialArgs → M (Context W) (Unit {0})
  make_credential_read none = send_cbor_error err_invalid_cbor
  make_credential_read (some args) = make_credential_1 args

  unfoldable pub make_credential : Bytes → M (Context W) (Unit {0})
  unfolding send_cbor_error make_credential_1
  make_credential cbor = make_credential_read (env.cbor.read_make_credential_args cbor)

  unfoldable pub get_assertion_3 : M (Context W) (Unit {0})
  unfolding send_cbor_reply
  get_assertion_3 = do
    state ← get_state
    (args, consent) ← get_assertion_args state
    descriptor ← index args.allow_list 0
    credential_id ← or_abort (env.cbor.read_credential_id descriptor.id)
    counter ← lift env.token.increment_token_counter
    hash ← lift (env.token.sha256_hash args.rp_id)
    let auth_data : Bytes = hash ++ 0x01 ∷ u32_to_be_bytes counter
    signature ←
        lift (env.token.sign credential_id.wrapped_private_key (auth_data ++ args.client_data_hash))
    cbor ←
        or_fail
          (env.cbor.write_get_assertion (record {
            credential = none;
            auth_data = auth_data;
            signature = signature;
            user = none;
            number_of_credentials = some 1;
          }))
          Error.cbor
    send_cbor_reply cbor

  unfoldable pub get_assertion_2 : M (Context W) (Unit {0})
  get_assertion_2 = do
    state ← get_state
    (args, consent) ← get_assertion_args state
    r ← call (env.prompt.recv_timeout consent 200)
    on_consent get_assertion_3 r

  -- `get_assertion` once the credential was found to belong to the relying party.
  unfoldable pub get_assertion_1 : GetAssertionArgs → M (Context W) (Unit {0})
  get_assertion_1 args = do
    consent ← call (env.prompt.yes_or_no_p (Question.challenge args.rp_id))
    set_state (State.get_assertion args consent) >> get_assertion_2

  -- The test of the credential id: it decrypts to the id of the relying party.
  abbrev pub check_credential : GetAssertionArgs → Option CredentialId → M (Context W) (Unit {0})
  check_credential args none = send_cbor_error err_invalid_credential
  check_credential args (some credential_id) = do
    rp_id ← lift (attempt (env.token.decrypt credential_id.encrypted_rp_id))
    if same_id rp_id args.rp_id
        then get_assertion_1 args
        else send_cbor_error err_invalid_credential

  abbrev pub get_assertion_read : Option GetAssertionArgs → M (Context W) (Unit {0})
  get_assertion_read none = send_error err_invalid_par
  get_assertion_read (some args) = do
    assert (length args.allow_list == 1)
    descriptor ← index args.allow_list 0
    check_credential args (env.cbor.read_credential_id descriptor.id)

  unfoldable pub get_assertion : Bytes → M (Context W) (Unit {0})
  unfolding send_error send_cbor_error get_assertion_1
  get_assertion cbor = get_assertion_read (env.cbor.read_get_assertion_args cbor)
