-- ===== src/Usbip/Device/Exchange.antt =====
-- A PING to a device of src/usbip.rs that keeps a request, under src/eventloop.rs.
use f2ido.Ctaphid.Types.{Channel}
use f2ido.Ctaphid.Env.{Env}
