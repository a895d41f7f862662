-- ===== src/Ctaphid/Types.antt =====
-- The constants, messages and states of src/ctaphid.rs. A byte is a number below 256, a `String`
-- is the list of its UTF-8 bytes.
use f2ido.Prelude.{ℕ, ◌+◌, Bool, true, false, Option, List, [], ◌∷◌}
use f2ido.Prelude.Text.{ℤ, pos, negsuc}

abbrev pub Bytes : Type 0
Bytes = List ℕ

-- `VecDeque<Vec<u8>>`: the front is the head.
abbrev pub Queue : Type 0
Queue = List Bytes

abbrev pub max_packet_size : ℕ
max_packet_size = 64

abbrev pub ctaphid_broadcast_cid : ℕ
ctaphid_broadcast_cid = 0xFFFFFFFF

abbrev pub ctaphid_init : ℕ
ctaphid_init = 0x06

abbrev pub ctaphid_ping : ℕ
ctaphid_ping = 0x01

abbrev pub ctaphid_cancel : ℕ
ctaphid_cancel = 0x11

abbrev pub ctaphid_cbor : ℕ
ctaphid_cbor = 0x10

abbrev pub ctaphid_msg : ℕ
ctaphid_msg = 0x03

abbrev pub ctaphid_error : ℕ
ctaphid_error = 0x3F

abbrev pub ctaphid_keepalive : ℕ
ctaphid_keepalive = 0x3B

abbrev pub hack_check_status : ℕ
hack_check_status = 0x40 + 10

abbrev pub capability_cbor : ℕ
capability_cbor = 0x04

abbrev pub status_upneeded : ℕ
status_upneeded = 2

abbrev pub err_invalid_cmd : ℕ
err_invalid_cmd = 0x01

abbrev pub err_invalid_par : ℕ
err_invalid_par = 0x02

abbrev pub err_operation_denied : ℕ
err_operation_denied = 0x27

abbrev pub err_invalid_credential : ℕ
err_invalid_credential = 0x22

abbrev pub err_invalid_cbor : ℕ
err_invalid_cbor = 0x12

abbrev pub err_keepalive_cancel : ℕ
err_keepalive_cancel = 0x2D

-- `SW_NO_ERROR`, `SW_CONDITIONS_NOT_SATISFIED` and `SW_WRONG_DATA`, as `to_be_bytes` writes them.
abbrev pub sw_no_error : Bytes
sw_no_error = 0x90 ∷ 0x00 ∷ []

abbrev pub sw_conditions_not_satisfied : Bytes
sw_conditions_not_satisfied = 0x69 ∷ 0x85 ∷ []

abbrev pub sw_wrong_data : Bytes
sw_wrong_data = 0x6A ∷ 0x80 ∷ []

-- `AAGUID.to_le_bytes()`
abbrev pub aaguid : Bytes
aaguid =
    0x4e ∷ 0x37 ∷ 0x38 ∷ 0xb5 ∷ 0xa1 ∷ 0xb2 ∷ 0x7e ∷ 0x8e ∷ 0xed ∷ 0x48 ∷ 0x37 ∷ 0x40 ∷ 0x58 ∷ 0x6c
    ∷ 0xc9 ∷ 0x7e ∷ []

-- The reply to `CTAPHID_INIT`, in the order of its fields on the wire.
pub record InitResponse : Type 0 where
  pub channel : ℕ
  pub cmd : ℕ
  pub bcnt : ℕ
  pub nonce : Bytes
  pub channelid : ℕ
  pub protocol_version : ℕ
  pub device_major_version : ℕ
  pub device_minor_version : ℕ
  pub device_build_version : ℕ
  pub capabilities : ℕ

-- The `_marker` fields, which are always `None`, are left out, and so are the `extensions` of the
-- arguments, whose type is `Option<()>` and which nothing reads.
pub record GetInfoResponse : Type 0 where
  pub versions : List Bytes
  pub extensions : Option (List Bytes)
  pub aaguid_bytes : Bytes

pub record RelyingParty : Type 0 where
  pub id : Bytes
  pub name : Option Bytes
  pub icon : Option Bytes

pub record User : Type 0 where
  pub id : Bytes
  pub display_name : Option Bytes
  pub name : Option Bytes
  pub icon : Option Bytes

pub record PublicKeyCredentialParameters : Type 0 where
  pub type : Bytes
  pub alg : ℤ

pub record PublicKeyCredentialDescriptor : Type 0 where
  pub type : Bytes
  pub id : Bytes
  pub transports : List Bytes

pub record MakeCredentialArgsOptions : Type 0 where
  pub rk : Bool
  pub uv : Bool

pub record MakeCredentialArgs : Type 0 where
  pub client_data_hash : Bytes
  pub rp : RelyingParty
  pub user : User
  pub pub_key_algs : List PublicKeyCredentialParameters
  pub exclude_credentials : List PublicKeyCredentialDescriptor
  pub options : MakeCredentialArgsOptions

pub record MakeCredentialResponse : Type 0 where
  pub fmt : Bytes
  pub auth_data : Bytes
  pub att_stmt : List (ℤ × ℤ)

pub record CoseKey : Type 0 where
  pub kty : ℤ
  pub alg : ℤ
  pub crv : ℤ
  pub x : Bytes
  pub y : Bytes

pub record GetAssertionOptions : Type 0 where
  pub up : Bool
  pub uv : Bool

-- The serde defaults of `GetAssertionArgs.options` and of its field `up`.
abbrev pub options_default : GetAssertionOptions
options_default = record { up = true; uv = false }

abbrev pub up_default : Bool
up_default = options_default.up

pub record GetAssertionArgs : Type 0 where
  pub rp_id : Bytes
  pub client_data_hash : Bytes
  pub allow_list : List PublicKeyCredentialDescriptor
  pub options : GetAssertionOptions

pub record GetAssertionResponse : Type 0 where
  pub credential : Option PublicKeyCredentialDescriptor
  pub auth_data : Bytes
  pub signature : Bytes
  pub user : Option User
  pub number_of_credentials : Option ℕ

pub record CredentialId : Type 0 where
  pub wrapped_private_key : Bytes
  pub encrypted_rp_id : Bytes

-- The values of serde_cbor that `CoseKey` is written with.
pub data CborValue : Type 0 where
  integer : ℤ → CborValue
  bytes : Bytes → CborValue

-- The map that `serialize` of `CoseKey` writes, entry by entry.
unfoldable pub serialize : CoseKey → List (CborValue × CborValue)
serialize k =
    (CborValue.integer (pos 1), CborValue.integer k.kty)
    ∷ (CborValue.integer (pos 3), CborValue.integer k.alg)
    ∷ (CborValue.integer (negsuc 0), CborValue.integer k.crv)
    ∷ (CborValue.integer (negsuc 1), CborValue.bytes k.x)
    ∷ (CborValue.integer (negsuc 2), CborValue.bytes k.y)
    ∷ []

-- A receiver of the consent thread, by its number.
abbrev pub Receiver : Type 0
Receiver = ℕ

pub data State : Type 0 where
  init : State
  cont : (cmd bcnt : ℕ) (buffer : Bytes) (seqnum : ℕ) → State
  make_credential : (args : MakeCredentialArgs) (consent : Receiver) → State
  get_assertion : (args : GetAssertionArgs) (consent : Receiver) → State

pub record Channel : Type 0 where
  pub cid : ℕ
  pub state : State

-- A channel that waits for the user: the states that `unparse` looks for.
abbrev pub is_waiting : State → Bool
is_waiting init = false
is_waiting (cont cmd bcnt buffer seqnum) = false
is_waiting (make_credential args consent) = true
is_waiting (get_assertion args consent) = true
