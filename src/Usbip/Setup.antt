-- ===== src/Usbip/Setup.antt =====
-- The setup packet of a control request, and the enumerations of src/usbip.rs that it is read by.
use f2ido.Prelude.{
  ℕ, zero, suc, ◌+◌, ◌*◌, ◌/◌, ◌%◌, Option, none, some, List, [], ◌∷◌, ◌==◌, length, if◌then◌else◌,
}
use f2ido.Outcome.{index}

pub data DataTransferDirection : Type 0 where
  host_to_device device_to_host : DataTransferDirection

pub data RequestType : Type 0 where
  standard class vendor reserved : RequestType

pub data RequestRecipient : Type 0 where
  device interface endpoint other : RequestRecipient

pub data StandardRequest : Type 0 where
  get_status clear_feature set_feature set_address get_descriptor set_descriptor : StandardRequest
  get_configuration set_configuration get_interface set_interface synch_frame : StandardRequest

pub data HidRequest : Type 0 where
  get_report get_idle get_protocol set_report set_idle set_protocol : HidRequest

pub data DescriptorType : Type 0 where
  device configuration string interface endpoint device_qualifier : DescriptorType
  other_speed_configuration interface_power : DescriptorType

-- `BmRequestType` of a setup packet, and its other fields.
pub record BmRequestType : Type 0 where
  pub direction : DataTransferDirection
  pub type : RequestType
  pub recipient : RequestRecipient

pub record SetupPacket : Type 0 where
  pub bm_request_type : BmRequestType
  pub request : ℕ
  pub value : ℕ
  pub index : ℕ
  pub length : ℕ

abbrev direction_of : ℕ → DataTransferDirection
direction_of zero = host_to_device
direction_of _ = device_to_host

abbrev request_type_of : ℕ → RequestType
request_type_of zero = standard
request_type_of (suc zero) = class
request_type_of (suc (suc zero)) = vendor
request_type_of _ = reserved

abbrev recipient_of : ℕ → Option RequestRecipient
recipient_of zero = some RequestRecipient.device
recipient_of (suc zero) = some RequestRecipient.interface
recipient_of (suc (suc zero)) = some RequestRecipient.endpoint
recipient_of (suc (suc (suc zero))) = some RequestRecipient.other
recipient_of _ = none

-- Bit 7 is the direction, bits 5 and 6 the type, bits 0 to 4 the recipient.
unfoldable pub unpack_request_type : ℕ → Option BmRequestType
unpack_request_type b = elim (recipient_of (b % 32)) [
  | none ↦ none
  | some r ↦ some (record {
    direction = direction_of (b / 128);
    type = request_type_of (b / 32 % 4);
    recipient = r;
  })
]

abbrev le16 : ℕ → ℕ → ℕ
le16 a b = a + b * 256

abbrev with_type : Option BmRequestType → (request value index length : ℕ) → Option SetupPacket
with_type none request value index length = none
with_type (some t) request value index length = some (record {
  bm_request_type = t;
  request = request;
  value = value;
  index = index;
  length = length;
})

-- `SetupPacket::unpack`, of eight bytes.
unfoldable pub unpack : List ℕ → Option SetupPacket
unfolding unpack_request_type
unpack (a ∷ b ∷ c ∷ d ∷ e ∷ f ∷ g ∷ h ∷ []) =
    with_type (unpack_request_type a) b (le16 c d) (le16 e f) (le16 g h)
unpack _ = none

-- `StandardRequest::from_primitive`, `HIDRequest::from_primitive` and
-- `DescriptorType::from_primitive`
unfoldable pub standard_request : ℕ → Option StandardRequest
standard_request n =
    if n == 0
    then some get_status
    else if n == 1
    then some clear_feature
    else if n == 3
    then some set_feature
    else if n == 5
    then some set_address
    else if n == 6
    then some get_descriptor
    else if n == 7
    then some set_descriptor
    else if n == 8
    then some get_configuration
    else if n == 9
    then some set_configuration
    else if n == 10
    then some get_interface
    else if n == 11
    then some set_interface
    else if n == 12
    then some synch_frame
    else none

unfoldable pub hid_request : ℕ → Option HidRequest
hid_request n =
    if n == 1
    then some get_report
    else if n == 2
    then some get_idle
    else if n == 3
    then some get_protocol
    else if n == 9
    then some set_report
    else if n == 0xa
    then some set_idle
    else if n == 0xb
    then some set_protocol
    else none

unfoldable pub descriptor_type : ℕ → Option DescriptorType
descriptor_type n =
    if n == 1
    then some DescriptorType.device
    else if n == 2
    then some configuration
    else if n == 3
    then some string
    else if n == 4
    then some DescriptorType.interface
    else if n == 5
    then some DescriptorType.endpoint
    else if n == 6
    then some device_qualifier
    else if n == 7
    then some other_speed_configuration
    else if n == 8
    then some interface_power
    else none
