-- ===== src/Usbip/Device.antt =====
-- The endpoints of `Device` in src/usbip.rs that carry CTAPHID packets, and the callbacks that
-- `init_callbacks` gives to the event loop.
pub mod Polling
pub mod Ping
pub mod Waking
pub mod Exchange
pub mod Callbacks
pub mod Handlers
pub mod Released
pub mod Unblocked
pub mod Bounds
use f2ido.Prelude.{
  ℕ, zero, suc, Bool, true, false, not, ◌||◌, List, [], ◌∷◌, ◌++◌, length, if◌then◌else◌,
}
use f2ido.Outcome.{M, Outcome, ok, err, panic, pure, abort, ◌>>=◌, ◌>>◌}
use f2ido.Ctaphid.Types.{Bytes, Queue}
use f2ido.Ctaphid.Env.{Env}
use f2ido.Ctaphid.Parser as Parser
use f2ido.Ctaphid.Parser.{Parser, Server, unparse}
use f2ido.Eventloop.{Handler, dev2host, host2dev, EventLoop, schedule, unblock_handler}
use f2ido.Usbip.Descriptors.{Bindings}
use f2ido.Usbip.Control.{ep0_dev2host, ep0_host2dev}

abbrev pub is_empty : Queue → Bool
is_empty [] = true
is_empty (p ∷ q) = false

-- The closures of `init_callbacks`, by their endpoint.
pub data InCallback : Type 0 where
  ep0_in ep1_in : InCallback

pub data OutCallback : Type 0 where
  ep0_out ep2_out : OutCallback

module _ {W : Type 0} where
  -- `self.parser.recv_queue.push_back(data.to_vec())`
  unfoldable pub ep2_host2dev : Bytes → M (Server W) Bool
  ep2_host2dev xs s = ok true (record s {
    parser = record {
      send_queue = s.parser.send_queue;
      recv_queue = s.parser.recv_queue ++ xs ∷ [];
      channels = s.parser.channels;
    };
  })

  abbrev pub recv_queue : M (Server W) Queue
  recv_queue s = ok s.parser.recv_queue s

  abbrev pub send_queue : M (Server W) Queue
  send_queue s = ok s.parser.send_queue s

module _ {W : Type 0} (env : Env W) where
  -- `while !recv_queue.is_empty() { parse()? }`: a round takes a packet and adds none, so the
  -- length of the queue is enough fuel.
  unfoldable pub drain : ℕ → M (Server W) (Unit {0})
  drain zero = pure tt
  drain (suc fuel) = do
    q ← recv_queue
    if is_empty q then pure tt else (Parser.parse env >> drain fuel)

  -- The `if` of `ep1_dev2host` on the send queue.
  abbrev pub send_one : Bytes → M (Server W) (Bool × Bytes)
  send_one buf = do
    q ← send_queue
    if is_empty q then pure (false, buf) else (do buf' ← unparse buf; pure (true, buf'))

  unfoldable pub ep1_dev2host : Bytes → M (Server W) (Bool × Bytes)
  unfolding drain
  ep1_dev2host buf = do q ← recv_queue; drain (length q); send_one buf

  abbrev pub Loop : Type 0
  Loop = EventLoop InCallback OutCallback (Server W)

  -- A method of the device in a callback, `el.state.…`.
  abbrev pub on_state : {A : Type 0} → M (Server W) A → M Loop A
  on_state m l = elim (m l.state) [
    | ok a s ↦ ok a (record l { state = s })
    | err e s ↦ err e (record l { state = s })
    | panic ↦ panic
  ]

  module _ (bindings : Bindings) where
    abbrev pub in_callback : InCallback → (setup buf : Bytes) → M Loop (Bool × Bytes)
    in_callback ep0_in setup buf = do buf' ← ep0_dev2host bindings setup buf; pure (true, buf')
    in_callback ep1_in setup buf = on_state (ep1_dev2host buf)

    -- The closure of endpoint 2: a packet wakes a request that waits on endpoint 1.
    abbrev pub wake : Queue → Queue → M Loop (Unit {0})
    wake recv send =
        if not (is_empty recv) || not (is_empty send) then unblock_handler 1 true else pure tt

    abbrev pub out_callback : OutCallback → (setup xs : Bytes) → M Loop Bool
    out_callback ep0_out setup xs = ep0_host2dev bindings setup xs >> pure true
    out_callback ep2_out setup xs = do
      on_state (ep2_host2dev xs)
      recv ← on_state recv_queue
      send ← on_state send_queue
      wake recv send
      pure true

    -- `init_callbacks`
    unfoldable pub init_callbacks : M Loop (Unit {0})
    unfolding schedule
    init_callbacks = do
      schedule (dev2host 0 ep0_in)
      schedule (host2dev 0 ep0_out)
      schedule (dev2host 1 ep1_in)
      schedule (host2dev 2 ep2_out)
