-- ===== src/Usbip/Control/Stateless.antt =====
-- Endpoint 0 of src/usbip.rs, and the state around it.
use f2ido.Prelude.{ℕ, ◌%◌, ◌/◌, List, [], ◌∷◌}
use f2ido.Outcome.{M, Outcome, ok, err, panic}
use f2ido.Ctaphid.Effects.Rules.{
  Keeps, Keeps-pure, Keeps-fail, Keeps-abort, Keeps-if, Keeps-or_abort, Keeps-bind,
}
use f2ido.Usbip.Setup.{
  DataTransferDirection, host_to_device, device_to_host, RequestType, standard, class,
  RequestRecipient, StandardRequest, HidRequest, SetupPacket, descriptor_type,
}
use f2ido.Usbip.Descriptors.{Bindings, Sink, get_interface_descriptor}
use f2ido.Usbip.Control.{
  write_descriptor, copy_sink, call_with_write, copy_status, device_request, interface_request,
  class_request, dev2host_request, ep0_dev2host, set_configuration, host2dev_request, ep0_host2dev,
}

ruleset control_rules = (Keeps-pure, Keeps-fail, Keeps-abort, Keeps-if, Keeps-or_abort, Keeps-bind)

module _ {S : Type 0} (P : S → Type 0) where
  call_with_write-Keeps : (buf : List ℕ) (f : M Sink (Unit {0})) → Keeps P (call_with_write buf f)
  unfolding call_with_write
  call_with_write-Keeps buf f = copied (f [])
    where
      copied : (o : Outcome Sink (Unit {0})) → Keeps P (copy_sink {S = S} buf o)
      copied (ok a r) = search control_rules depth 5
      copied (err e r) = search control_rules depth 5
      copied panic = search control_rules depth 5

  copy_status-Keeps : (buf : List ℕ) → Keeps P (copy_status buf)
  copy_status-Keeps (a ∷ b ∷ []) = search control_rules depth 5
  copy_status-Keeps [] = search control_rules depth 5
  copy_status-Keeps (a ∷ []) = search control_rules depth 5
  copy_status-Keeps (a ∷ b ∷ c ∷ rest) = search control_rules depth 5

  module _ (bindings : Bindings) where
    device_request-Keeps :
        (r : StandardRequest) (req : SetupPacket) (buf : List ℕ)
        → Keeps P (device_request bindings r req buf)
    unfolding device_request
    device_request-Keeps StandardRequest.get_descriptor req buf = call_with_write-Keeps buf (
        write_descriptor bindings (req.value / 256) (descriptor_type (req.value / 256))
          (req.value % 256) req.index)
    device_request-Keeps StandardRequest.get_status req buf =
        search (control_rules, copy_status-Keeps) depth 5
    device_request-Keeps _ req buf = Keeps-abort P

    interface_request-Keeps :
        (r : StandardRequest) (req : SetupPacket) (buf : List ℕ)
        → Keeps P (interface_request bindings r req buf)
    unfolding interface_request
    interface_request-Keeps StandardRequest.get_descriptor req buf =
        call_with_write-Keeps buf (get_interface_descriptor bindings (req.value / 256))
    interface_request-Keeps _ req buf = Keeps-abort P

    class_request-Keeps :
        {A : Type 0} (r : HidRequest) (req : SetupPacket) (a : A)
        → Keeps P (class_request bindings r req a)
    class_request-Keeps HidRequest.set_idle req a = search control_rules depth 5
    class_request-Keeps _ req a = Keeps-abort P

    set_configuration-Keeps :
        (r : StandardRequest) (req : SetupPacket) → Keeps P (set_configuration bindings r req)
    set_configuration-Keeps StandardRequest.set_configuration req = search control_rules depth 5
    set_configuration-Keeps _ req = Keeps-abort P

    dev2host_request-Keeps :
        (d : DataTransferDirection) (t : RequestType) (r : RequestRecipient) (req : SetupPacket)
        (buf : List ℕ)
        → Keeps P (dev2host_request bindings d t r req buf)
    dev2host_request-Keeps device_to_host standard RequestRecipient.device req buf =
        search (control_rules, device_request-Keeps) depth 10
    dev2host_request-Keeps host_to_device class RequestRecipient.interface req buf =
        search (control_rules, class_request-Keeps) depth 10
    dev2host_request-Keeps device_to_host standard RequestRecipient.interface req buf =
        search (control_rules, interface_request-Keeps) depth 10
    dev2host_request-Keeps _ _ _ req buf = Keeps-abort P

    host2dev_request-Keeps :
        (d : DataTransferDirection) (t : RequestType) (r : RequestRecipient) (req : SetupPacket)
        → Keeps P (host2dev_request bindings d t r req)
    host2dev_request-Keeps host_to_device standard RequestRecipient.device req =
        search (control_rules, set_configuration-Keeps) depth 10
    host2dev_request-Keeps host_to_device class RequestRecipient.interface req =
        search (control_rules, class_request-Keeps) depth 10
    host2dev_request-Keeps _ _ _ req = Keeps-abort P

    pub ep0_dev2host-Keeps : (setup buf : List ℕ) → Keeps P (ep0_dev2host bindings setup buf)
    unfolding ep0_dev2host
    ep0_dev2host-Keeps setup buf = search (control_rules, dev2host_request-Keeps) depth 10

    pub ep0_host2dev-Keeps : (setup xs : List ℕ) → Keeps P (ep0_host2dev bindings setup xs)
    unfolding ep0_host2dev
    ep0_host2dev-Keeps setup xs = search (control_rules, host2dev_request-Keeps) depth 10
