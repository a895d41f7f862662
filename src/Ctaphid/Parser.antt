-- ===== src/Ctaphid/Parser.antt =====
-- `impl Parser` of src/ctaphid.rs: the queues of packets and the channels of the device.
pub mod Attention
pub mod Parsing
pub mod Feeding
pub mod Unparse
pub mod Bounds
use f2ido.Prelude.{
  ℕ, zero, suc, ◌+◌, ◌-◌, ◌*◌, ◌/◌, ◌%◌, ◌^◌, Bool, true, false, Option, none, some, List, [], ◌∷◌,
  ◌++◌, ltb, leb, ◌==◌, min, length, get_elem?, set, drop, bit_or, if◌then◌else◌,
}
use f2ido.Prelude.Bits.{u32_to_le_bytes, to_le_bytes, from_le_bytes}
use f2ido.Outcome.{
  M, Outcome, ok, err, panic, pure, abort, or_fail, ◌>>=◌, ◌>>◌, assert, index, slice, slice_from,
  Error,
}
use f2ido.Ctaphid.Types.{
  Bytes, Queue, InitResponse, State, init, Channel, is_waiting, ctaphid_broadcast_cid, ctaphid_init,
  hack_check_status, capability_cbor,
}
use f2ido.Ctaphid.Env.{Env}
use f2ido.Ctaphid.Context.{Context}
use f2ido.Ctaphid.Channel as Channel
use f2ido.Ctaphid.Channel.{packet_cid, packet_bcnt}

-- The token that the channels share is in the environment.
pub record Parser : Type 0 where
  pub send_queue : Queue
  pub recv_queue : Queue
  pub channels : List Channel

-- The parser and the world that its channels act on.
pub record Server (W : Type 0) : Type 0 where
  pub parser : Parser
  pub world : W

-- `Parser::new`
unfoldable pub new : Parser
new = record { send_queue = []; recv_queue = []; channels = [] }

-- The packet that makes a waiting channel look at its consent again.
abbrev pub check_packet : ℕ → Bytes
check_packet cid = u32_to_le_bytes cid ++ bit_or hack_check_status 0x80 ∷ 0 ∷ 0 ∷ []

-- The loop of `unparse`: `n` counts the waiting channels so far.
pub push_checks : List Channel → ℕ → Queue → Option Queue
push_checks [] n q = some q
push_checks (channel ∷ rest) n q =
    if is_waiting channel.state
    then (if length q == n then push_checks rest (n + 1) (check_packet channel.cid ∷ q) else none)
    else push_checks rest n q

module _ {W : Type 0} where
  unfoldable pub copy_reply : Bytes → Bytes → M (Server W) Bytes
  copy_reply r pkt = do assert (leb (length r) (length pkt)); pure (r ++ drop (length r) pkt)

  abbrev pub store_checks : Bytes → Option Queue → M (Server W) Bytes
  store_checks pkt none s = panic
  store_checks pkt (some q) s = ok pkt (record s {
    parser = record {
      send_queue = s.parser.send_queue;
      recv_queue = q;
      channels = s.parser.channels;
    };
  })

  abbrev pub unparse_front : Queue → Bytes → M (Server W) Bytes
  unparse_front [] pkt s = ok pkt s
  unparse_front (r ∷ rest) pkt s =
      (copy_reply r pkt >>= λ pkt'.
      store_checks pkt' (push_checks s.parser.channels 0 s.parser.recv_queue))
        (record s {
          parser = record {
            send_queue = rest;
            recv_queue = s.parser.recv_queue;
            channels = s.parser.channels;
          };
        })

  -- Returns what the buffer holds afterwards.
  unfoldable pub unparse : Bytes → M (Server W) Bytes
  unfolding push_checks copy_reply
  unparse pkt s = unparse_front s.parser.send_queue pkt s

module _ {W : Type 0} (env : Env W) where
  -- `send_queue.push_back` of the packed response, or its `Err`, once the channel was added.
  abbrev pub send_packed : Server W → List Channel → Option Bytes → Outcome (Server W) (Unit {0})
  send_packed s channels none = err Error.packing (record s {
    parser = record {
      send_queue = s.parser.send_queue;
      recv_queue = s.parser.recv_queue;
      channels = channels;
    };
  })
  send_packed s channels (some response) = ok tt (record s {
    parser = record {
      send_queue = s.parser.send_queue ++ response ∷ [];
      recv_queue = s.parser.recv_queue;
      channels = channels;
    };
  })

  abbrev pub init_response : (cid nonce : ℕ) → InitResponse
  init_response cid nonce = record {
    channel = ctaphid_broadcast_cid;
    cmd = bit_or ctaphid_init 0x80;
    bcnt = 17;
    nonce = to_le_bytes 8 nonce;
    channelid = cid;
    protocol_version = 2;
    device_major_version = 0;
    device_minor_version = 0;
    device_build_version = 0;
    capabilities = capability_cbor;
  }

  unfoldable pub allocate_channel : (nonce : ℕ) → M (Server W) (Unit {0})
  allocate_channel nonce s =
      let cid : ℕ = length s.parser.channels % 2 ^ 32 in
      send_packed s (s.parser.channels ++ record { cid = cid; state = init } ∷ [])
        (env.pack (init_response cid nonce))

  unfoldable pub init_cmd : Bytes → M (Server W) (Unit {0})
  unfolding packet_bcnt from_le_bytes allocate_channel
  init_cmd pkt = do
    bcnt ← packet_bcnt pkt
    message ← slice 7 (min (length pkt) (7 + bcnt)) pkt
    assert (length message == 8)
    allocate_channel (from_le_bytes message)

  -- Writes the channel and the send queue back after a call on `self.channels[cid]`.
  abbrev pub put_back :
      ℕ → Server W → Outcome (Context W) (Unit {0}) → Outcome (Server W) (Unit {0})
  put_back cid s (ok a c) = ok a (record {
    parser = record {
      send_queue = c.queue;
      recv_queue = s.parser.recv_queue;
      channels = set s.parser.channels cid c.channel;
    };
    world = c.world;
  })
  put_back cid s (err e c) = err e (record {
    parser = record {
      send_queue = c.queue;
      recv_queue = s.parser.recv_queue;
      channels = set s.parser.channels cid c.channel;
    };
    world = c.world;
  })
  put_back cid s panic = panic

  abbrev pub channel_parse_at :
      ℕ → Bytes → Server W → Option Channel → Outcome (Server W) (Unit {0})
  channel_parse_at cid pkt s none = panic
  channel_parse_at cid pkt s (some channel) = put_back cid s (
      Channel.parse env pkt
        (record { channel = channel; queue = s.parser.send_queue; world = s.world }))

  -- `self.channels[cid as usize].parse(pkt, &mut self.send_queue)`
  unfoldable pub channel_parse : ℕ → Bytes → M (Server W) (Unit {0})
  channel_parse cid pkt s = channel_parse_at cid pkt s (get_elem? s.parser.channels cid)

  -- The `match` of `parse` on the channel id and the command.
  unfoldable pub route : (cid cmd : ℕ) → Bytes → M (Server W) (Unit {0})
  unfolding init_cmd channel_parse
  route cid cmd pkt =
      if cid == ctaphid_broadcast_cid
      then (if cmd == bit_or ctaphid_init 0x80 then init_cmd pkt else abort)
      else channel_parse cid pkt

  -- `parse` on a packet that was taken from the queue.
  unfoldable pub parse_packet : Bytes → M (Server W) (Unit {0})
  unfolding packet_cid route
  parse_packet pkt = do
    assert (leb 7 (length pkt))
    cid ← packet_cid pkt
    cmd ← index pkt 4
    route cid cmd pkt

  abbrev pub parse_front : Queue → M (Server W) (Unit {0})
  parse_front [] s = ok tt s
  parse_front (pkt ∷ rest) s = parse_packet pkt (record s {
    parser = record {
      send_queue = s.parser.send_queue;
      recv_queue = rest;
      channels = s.parser.channels;
    };
  })

  unfoldable pub parse : M (Server W) (Unit {0})
  unfolding parse_packet
  parse s = parse_front s.parser.recv_queue s
