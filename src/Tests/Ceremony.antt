-- ===== src/Tests/Ceremony.antt =====
-- A registration and an authentication on the token in memory.
use f2ido.Prelude.{
  ℕ, suc, map, ◌%◌, ◌^◌, ◌≡◌, refl, ap, ap₂, arith, true, false, Option, none, some, [], ◌∷◌, ◌++◌,
  length, take, drop, bytes_eq,
}
use f2ido.Prelude.Text.{codes}
use f2ido.Ctaphid.Types.{
  Bytes, State, CredentialId, GetAssertionArgs, PublicKeyCredentialDescriptor, aaguid,
  err_invalid_credential,
}
use f2ido.Ctaphid.Env.{Env, Prompt, Cbor, answer}
use f2ido.Ctaphid.Context.{Context}
use f2ido.Ctaphid.Commands.{
  send_cbor_reply, send_cbor_error, make_credential_3, get_assertion_3, check_credential,
}
use f2ido.Crypto.Pkcs11.{X509}
use f2ido.Crypto.Signature.Der.{read_signature, take-length_append, drop-length_append}
use f2ido.Crypto.Store.Counter.{Holds}
use f2ido.Prelude.Bits.{u32_to_be_bytes, u16_to_be_bytes}
use f2ido.Crypto.KeyStore.{padded}
use f2ido.Ceremony.{authenticator, Codec, in_world, Made}
use f2ido.Ceremony.Registration.{make_credential_3-Made}
use f2ido.Ceremony.Assertion.{check_credential-Made, get_assertion_3-Verifies}
use f2ido.Tests.{args}
use f2ido.Tests.Memory.{
  Memory, memory, memory_works, memory_cipher, memory_pairs, ready, ready-Holds, coordinate,
}

abbrev pub x509 : X509
x509 = record {
  tbs_certificate =
      λ serial algorithm issuer from to subject key_algorithm parameters key. some key;
  certificate = λ tbs algorithm signature. some tbs;
}

abbrev pub prompt : Prompt Memory
prompt = record {
  yes_or_no_p = λ question w. (0, w);
  recv_timeout = λ receiver millis w. (answer true, w);
  now = λ w. (0, w);
}

abbrev pub read_id : Bytes → Option CredentialId
read_id [] = none
read_id (n ∷ xs) = some (record { wrapped_private_key = take n xs; encrypted_rp_id = drop n xs })

abbrev pub write_id : CredentialId → Bytes
write_id i = length i.wrapped_private_key ∷ i.wrapped_private_key ++ i.encrypted_rp_id

abbrev pub cbor : Cbor
cbor = record {
  read_make_credential_args = λ xs. some args;
  read_get_assertion_args = λ xs. none;
  read_credential_id = read_id;
  write_get_info = λ r. some (0xa0 ∷ []);
  write_make_credential = λ r. some r.auth_data;
  write_get_assertion = λ r. some r.auth_data;
  write_credential_id = λ i. some (write_id i);
  write_map = λ r. some (0xa0 ∷ []);
}

read-write_id : (i : CredentialId) → read_id (write_id i) ≡ some i
read-write_id i =
    ap₂ (λ (a b : Bytes). some (record { wrapped_private_key = a; encrypted_rp_id = b }))
      (take-length_append i.wrapped_private_key i.encrypted_rp_id)
      (drop-length_append i.wrapped_private_key i.encrypted_rp_id)

codec : Codec cbor
codec = record {
  writes_id = λ i. (write_id i, refl);
  reads_id = λ i xs e. cc (read-write_id i, ap (λ (o : Option Bytes). read_some o) e);
  writes_map = λ m. (_, refl);
  writes_made = λ r. (_, refl);
  writes_assertion = λ r. (_, refl);
}
  where
    read_some : Option Bytes → Option CredentialId
    read_some none = none
    read_some (some xs) = read_id xs

-- A credential for the relying party `e`.
abbrev credential : CredentialId
credential = record { wrapped_private_key = 9 ∷ []; encrypted_rp_id = map suc (padded (codes "e")) }

made :
    Made cbor memory 1 memory_works 0
      (memory_cipher 0)
      (memory_pairs 0)
      (codes "e")
      (write_id credential)
      coordinate
      coordinate
made = record { credential = credential; read = refl; is_id = refl; sealed = refl }

abbrev descriptor : PublicKeyCredentialDescriptor
descriptor = record { type = codes "public-key"; id = write_id credential; transports = [] }

-- The arguments of an authentication with it, for any relying party.
abbrev assertion_args : Bytes → GetAssertionArgs
assertion_args rp_id = record {
  rp_id = rp_id;
  client_data_hash = 1 ∷ [];
  allow_list = descriptor ∷ [];
  options = record { up = true; uv = false };
}

abbrev context : State → Context Memory
context state = record { channel = record { cid = 0; state = state }; queue = []; world = ready 5 }

abbrev memory_env : Env Memory
memory_env = authenticator memory 1 x509 prompt cbor (λ r. some [])

make_credential_3-Made_example :
    (w : Memory) × (id x y cose message : Bytes) × (make_credential_3 memory_env
        (context (State.make_credential args 0))
      ≡ send_cbor_reply message (in_world (context (State.make_credential args 0)) w))
    × (cbor.write_make_credential (record {
      fmt = codes "none";
      auth_data =
          codes "e"
          ++ 0x41 ∷ u32_to_be_bytes 5
          ++ aaguid
          ++ u16_to_be_bytes (length id % 2 ^ 16)
          ++ id
          ++ cose;
      att_stmt = [];
    })
        ≡ some message)
    × (some (0xa0 ∷ []) ≡ some cose)
    × (length x ≡ 32)
    × (length y ≡ 32)
    × Made cbor memory 1 memory_works 0 (memory_cipher 0) (memory_pairs 0) (codes "e") id x y
    × Holds memory 1 memory_works 0 6 w
make_credential_3-Made_example =
    make_credential_3-Made memory 1 x509 prompt cbor (λ r. some []) memory_works 0 (memory_cipher 0)
      (memory_pairs 0) codec args 0 5 (context (State.make_credential args 0)) refl refl
      (omega arith) (omega arith) (ready-Holds 5)

check_credential-Made_example :
    (w : Memory) × Holds memory 1 memory_works 0 5 w
    × (check_credential memory_env
          (assertion_args (codes "f"))
          (read_id (write_id credential))
          (context State.init)
        ≡ send_cbor_error err_invalid_credential (in_world (context State.init) w))
unfolding bytes_eq
check_credential-Made_example =
    check_credential-Made memory 1 x509 prompt cbor (λ r. some []) memory_works 0 (memory_cipher 0)
      (memory_pairs 0) codec (codes "e") (write_id credential) coordinate coordinate made
      (assertion_args (codes "f")) 5 (context State.init) (omega arith, tt) (omega arith)
      (ready-Holds 5)

get_assertion_3-Verifies_example :
    (w : Memory) × (signature message : Bytes) × (r s : ℕ) × (get_assertion_3 memory_env
        (context (State.get_assertion (assertion_args (codes "e")) 0))
      ≡ send_cbor_reply message
          (in_world (context (State.get_assertion (assertion_args (codes "e")) 0)) w))
    × (some (codes "e" ++ 0x01 ∷ u32_to_be_bytes 5) ≡ some message)
    × (read_signature signature ≡ some (r, s))
    × (r ≡ s)
    × Holds memory 1 memory_works 0 6 w
get_assertion_3-Verifies_example =
    get_assertion_3-Verifies memory 1 x509 prompt cbor (λ r. some []) memory_works 0
      (memory_cipher 0) (memory_pairs 0) codec (codes "e") (write_id credential) coordinate
      coordinate made (assertion_args (codes "e")) 0 descriptor [] 5
      (context (State.get_assertion (assertion_args (codes "e")) 0)) refl refl refl (omega arith)
      (ready-Holds 5)
