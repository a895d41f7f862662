-- ===== src/Usbip/Control.antt =====
-- `ep0_dev2host` and `ep0_host2dev` of src/usbip.rs: the requests of enumeration.
pub mod Stateless
use f2ido.Prelude.{
  ℕ, ◌%◌, ◌/◌, ◌&&◌, Option, none, some, List, [], ◌∷◌, ◌++◌, ◌==◌, length, take, drop,
  if◌then◌else◌,
}
use f2ido.Outcome.{M, Outcome, ok, err, panic, pure, fail, abort, or_abort, ◌>>=◌, Error}
use f2ido.Usbip.Setup.{
  DataTransferDirection, host_to_device, device_to_host, RequestType, standard, class,
  RequestRecipient, StandardRequest, HidRequest, DescriptorType, SetupPacket, unpack,
  standard_request, hid_request, descriptor_type,
}
use f2ido.Usbip.Descriptors.{Bindings, Sink, get_descriptor, get_interface_descriptor}

abbrev pub write_descriptor :
    Bindings → ℕ → Option DescriptorType → (i lang : ℕ) → M Sink (Unit {0})
write_descriptor bindings ty none i lang = fail (Error.unknown_descriptor ty)
write_descriptor bindings ty (some t) i lang = get_descriptor bindings t i lang

module _ {S : Type 0} where
  abbrev pub copy_sink : List ℕ → Outcome Sink (Unit {0}) → M S (List ℕ)
  copy_sink buf (ok a r) = pure (take (length buf) r ++ drop (length r) buf)
  copy_sink buf (err e r) = fail e
  copy_sink buf panic = abort

  -- `call_with_write`: what was written is copied as far as the buffer reaches.
  unfoldable pub call_with_write : List ℕ → M Sink (Unit {0}) → M S (List ℕ)
  call_with_write buf f = copy_sink buf (f [])

  -- `sink.copy_from_slice(&[1, 0])`, which wants a buffer of two bytes.
  abbrev pub copy_status : List ℕ → M S (List ℕ)
  copy_status (a ∷ b ∷ []) = pure (1 ∷ 0 ∷ [])
  copy_status _ = abort

  module _ (bindings : Bindings) where
    -- A standard request to the device, from it to the host.
    unfoldable pub device_request : StandardRequest → SetupPacket → List ℕ → M S (List ℕ)
    unfolding call_with_write
    device_request StandardRequest.get_descriptor req buf =
        let ty : ℕ = req.value / 256 in
        call_with_write buf
          (write_descriptor bindings ty (descriptor_type ty) (req.value % 256) req.index)
    device_request StandardRequest.get_status req buf =
        if (req.value == 0) && (req.index == 0) && (req.length == 2) then copy_status buf else abort
    device_request _ req buf = abort

    unfoldable pub interface_request : StandardRequest → SetupPacket → List ℕ → M S (List ℕ)
    unfolding call_with_write
    interface_request StandardRequest.get_descriptor req buf =
        call_with_write buf (get_interface_descriptor bindings (req.value / 256))
    interface_request _ req buf = abort

    -- A class request to the interface: only `SetIdle` with zeros.
    abbrev pub class_request : {A : Type 0} → HidRequest → SetupPacket → A → M S A
    class_request HidRequest.set_idle req a =
        if (req.value == 0) && (req.index == 0) && (req.length == 0) then pure a else abort
    class_request _ req a = abort

    abbrev pub dev2host_request :
        DataTransferDirection → RequestType → RequestRecipient → SetupPacket → List ℕ → M S (List ℕ)
    dev2host_request device_to_host standard RequestRecipient.device req buf =
        or_abort (standard_request req.request) >>= λ r. device_request r req buf
    dev2host_request host_to_device class RequestRecipient.interface req buf =
        or_abort (hid_request req.request) >>= λ r. class_request r req buf
    dev2host_request device_to_host standard RequestRecipient.interface req buf =
        or_abort (standard_request req.request) >>= λ r. interface_request r req buf
    dev2host_request _ _ _ req buf = abort

    -- Returns what the buffer holds afterwards.
    unfoldable pub ep0_dev2host : (setup buf : List ℕ) → M S (List ℕ)
    unfolding unpack standard_request hid_request device_request interface_request
    ep0_dev2host setup buf = do
      req ← or_abort (unpack setup)
      let t = req.bm_request_type
      dev2host_request t.direction t.type t.recipient req buf

    abbrev pub set_configuration : StandardRequest → SetupPacket → M S (Unit {0})
    set_configuration StandardRequest.set_configuration req =
        if (req.value == 0) && (req.index == 0) && (req.length == 0) then pure tt else abort
    set_configuration _ req = abort

    abbrev pub host2dev_request :
        DataTransferDirection → RequestType → RequestRecipient → SetupPacket → M S (Unit {0})
    host2dev_request host_to_device standard RequestRecipient.device req =
        or_abort (standard_request req.request) >>= λ r. set_configuration r req
    host2dev_request host_to_device class RequestRecipient.interface req =
        or_abort (hid_request req.request) >>= λ r. class_request r req tt
    host2dev_request _ _ _ req = abort

    unfoldable pub ep0_host2dev : (setup xs : List ℕ) → M S (Unit {0})
    unfolding unpack standard_request hid_request
    ep0_host2dev setup xs = do
      req ← or_abort (unpack setup)
      let t = req.bm_request_type
      host2dev_request t.direction t.type t.recipient req
