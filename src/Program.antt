-- ===== src/Program.antt =====
-- src/main.rs: the arguments, and the greeting of a connection before its commands.
pub mod Arguments
pub mod Greeting
pub mod Main
use f2ido.Prelude.{
  ℕ, ◌+◌, Bool, true, false, not, ◌&&◌, Option, none, some, List, [], ◌∷◌, ◌++◌, ◌==◌, bytes_eq,
  if◌then◌else◌,
}
use f2ido.Prelude.Text.{codes}
use f2ido.Outcome.{M, Outcome, ok, err, panic, pure, abort, ◌>>=◌, ◌>>◌}
use f2ido.Ctaphid.Types.{Bytes}
use f2ido.Ctaphid.Env.{Env}
use f2ido.Ctaphid.Parser as Parser
use f2ido.Ctaphid.Parser.{Server}
use f2ido.Usbip.Stream.{Stream}
use f2ido.Usbip.Descriptors.{Bindings}
use f2ido.Usbip.Device.{InCallback, OutCallback, in_callback, out_callback, init_callbacks}
use f2ido.Usbip.Op.{
  usbip_version, op_req_devlist, op_req_import, read_op_common, write_op_rep_devlist,
  write_op_rep_import, read_busid,
}
use f2ido.Eventloop as Eventloop
use f2ido.Eventloop.{EventLoop, Session, Errno, on_loop, on_stream, handle_commands}

-- The world and the stream of a connection, before there is an event loop.
pub record Connection (W : Type 0) : Type 0 where
  pub world : W
  pub stream : Stream

-- `set_nodelay` and `shutdown` of the socket.
pub record Socket : Type 0 where
  pub set_nodelay : M Stream (Unit {0})
  pub shutdown : M Stream (Unit {0})

module _ {W : Type 0} where
  abbrev pub on_connection : {A : Type 0} → M Stream A → M (Connection W) A
  on_connection m c = elim (m c.stream) [
    | ok a s ↦ ok a (record { world = c.world; stream = s })
    | err e s ↦ err e (record { world = c.world; stream = s })
    | panic ↦ panic
  ]

  -- `Device::new` and `EventLoop::new`
  abbrev pub fresh : Connection W → Session InCallback OutCallback (Server W)
  fresh c = record {
    loop = Eventloop.new (record { parser = Parser.new; world = c.world });
    stream = c.stream;
  }

  -- The device and its event loop are dropped at the end.
  abbrev pub closed :
      Outcome (Session InCallback OutCallback (Server W)) (Unit {0})
      → Outcome (Connection W) (Unit {0})
  closed (ok a s) = ok tt (record { world = s.loop.state.world; stream = s.stream })
  closed (err e s) = err e (record { world = s.loop.state.world; stream = s.stream })
  closed panic = panic

module _ {W : Type 0} (env : Env W) (bindings : Bindings) (errno : Errno) (socket : Socket) where
  -- `handle_commands` of src/main.rs, up to the end of its event loop.
  unfoldable pub serve :
      (rounds fuel : ℕ) → M (Session InCallback OutCallback (Server W)) (Unit {0})
  unfolding init_callbacks handle_commands
  serve rounds fuel = do
    on_loop (init_callbacks env bindings)
    handle_commands (in_callback env bindings) (out_callback env bindings) errno rounds fuel

  unfoldable pub handle_connection : (rounds fuel : ℕ) → M (Connection W) (Unit {0})
  unfolding serve Parser.new Eventloop.new
  handle_connection rounds fuel c = closed (serve rounds fuel (fresh c))

  -- The arms of the `match` on the header.
  unfoldable pub devlist_arm : M (Connection W) (Unit {0})
  unfolding write_op_rep_devlist
  devlist_arm = do on_connection write_op_rep_devlist; on_connection socket.shutdown

  unfoldable pub import_arm : (rounds fuel : ℕ) → M (Connection W) (Unit {0})
  unfolding read_busid write_op_rep_import handle_connection bytes_eq
  import_arm rounds fuel = do
    busid ← on_connection read_busid
    if bytes_eq busid (codes "1-1")
        then (do on_connection write_op_rep_import; handle_connection rounds fuel)
        else abort

  unfoldable pub handle_stream : (rounds fuel : ℕ) → M (Connection W) (Unit {0})
  unfolding read_op_common devlist_arm import_arm
  handle_stream rounds fuel = do
    on_connection socket.set_nodelay
    (version, code, status) ← on_connection read_op_common
    if (version == usbip_version) && (code == op_req_devlist) && (status == 0)
        then devlist_arm
        else if (version == usbip_version) && (code == op_req_import) && (status == 0)
        then import_arm rounds fuel
        else abort
