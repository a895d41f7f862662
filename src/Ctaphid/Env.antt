-- ===== src/Ctaphid/Env.antt =====
-- What src/ctaphid.rs calls: the key store (src/crypto.rs), the consent prompt (src/prompt.rs)
-- with `recv_timeout` on its channel, the clock, the CBOR
-- codec that serde derives, and the packing of the init reply. `W` is the
-- world that these act on.
use f2ido.Prelude.{ℕ, Bool, Option, List}
use f2ido.Outcome.{M}
use f2ido.Ctaphid.Types.{
  Bytes, Receiver, InitResponse, GetInfoResponse, MakeCredentialArgs, MakeCredentialResponse,
  GetAssertionArgs, GetAssertionResponse, CredentialId, CborValue,
}

-- `KeyStore`, as the channels use it.
pub record Token (W : Type 0) : Type 0 where
  pub increment_token_counter : M W ℕ
  pub encrypt : Bytes → M W Bytes
  pub decrypt : Bytes → M W Bytes
  pub sha256_hash : Bytes → M W Bytes
  pub sign : (key message : Bytes) → M W Bytes
  pub generate_key_pair : M W (Bytes × Bytes × Bytes)
  pub is_valid_id : Bytes → M W Bool
  pub create_certificate :
      (wrapped_priv_key pub_key issuer subject : Bytes) (not_before not_after : ℕ) → M W Bytes

-- The texts that the user is asked, by their format strings and arguments.
pub data Question : Type 0 where
  registration : (rp_id : Bytes) (rp_name user_name display_name : Option Bytes) → Question
  challenge : (rp_id : Bytes) → Question
  u2f_registration : Question
  u2f_authentication : Question

-- What `recv_timeout` returns: `Ok(Ok(b))`, `Ok(Err(e))` and the two kinds of `Err`.
pub data Recv : Type 0 where
  answer : Bool → Recv
  failed : Recv
  disconnected : Recv
  timeout : Recv

pub record Prompt (W : Type 0) : Type 0 where
  pub yes_or_no_p : Question → W → Receiver × W
  pub recv_timeout : Receiver → (millis : ℕ) → W → Recv × W
  -- `chrono::Utc::now()`, in seconds
  pub now : W → ℕ × W

-- `serde_cbor::from_slice` and `to_vec_packed` at the types of this program. `none` is an error.
pub record Cbor : Type 0 where
  pub read_make_credential_args : Bytes → Option MakeCredentialArgs
  pub read_get_assertion_args : Bytes → Option GetAssertionArgs
  pub read_credential_id : Bytes → Option CredentialId
  pub write_get_info : GetInfoResponse → Option Bytes
  pub write_make_credential : MakeCredentialResponse → Option Bytes
  pub write_get_assertion : GetAssertionResponse → Option Bytes
  pub write_credential_id : CredentialId → Option Bytes
  pub write_map : List (CborValue × CborValue) → Option Bytes

pub record Env (W : Type 0) : Type 0 where
  pub token : Token W
  pub prompt : Prompt W
  pub cbor : Cbor
  -- `InitResponse::pack`, which packed_struct derives
  pub pack : InitResponse → Option Bytes
