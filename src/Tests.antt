-- ===== src/Tests.antt =====
-- Runs of the channels (src/ctaphid.rs), of the HID items (src/hid.rs) and of the USB/IP device
-- (src/usbip.rs) on concrete packets.
mod Loop
mod Signature
mod Memory
mod Token
mod Program
mod Ceremony
mod Consent
mod Ping
use f2ido.Prelude.{
  ℕ, zero, suc, ◌≡◌, refl, inl, inr, true, false, none, some, List, [], ◌∷◌, ◌++◌, map, arith,
  get_elem?, replicate,
}
use f2ido.Prelude.Text.{negsuc}
use f2ido.Outcome.{ok, panic, pure}
use f2ido.Ctaphid.Types.{
  Bytes, State, init, Channel, is_waiting, ctaphid_ping, ctaphid_cbor, ctaphid_keepalive,
  MakeCredentialArgs,
}
use f2ido.Ctaphid.Env.{Env, timeout, answer}
use f2ido.Ctaphid.Context.{Context}
use f2ido.Ctaphid.Reply.{send_reply}
use f2ido.Ctaphid.Reply.Frames.{frames, send_reply-frames, send_reply_too_long}
use f2ido.Ctaphid.Channel as Channel
use f2ido.Ctaphid.Channel.{process_message}
use f2ido.Ctaphid.Channel.Reassembly.{report, feed, feed-frames}
use f2ido.Ctaphid.Channel.Checks.{check_timeout, check_refused}
use f2ido.Ctaphid.Effects.Rules.{Ends}
use f2ido.Ctaphid.Effects.Consent.{WaitsOn, parse-WaitsOn}
use f2ido.Ctaphid.Effects.Packets.{Extends, parse-Extends}
use f2ido.Ctaphid.Parser.{Server, check_packet, parse, unparse}
use f2ido.Ctaphid.Parser.Attention.{Attended, IsAttentive, Good}
use f2ido.Ctaphid.Parser.Parsing.{parse-IsAttentive}
use f2ido.Ctaphid.Parser.Unparse.{checked}
use f2ido.Hid.{short_item}
use f2ido.Hid.Items.{read_item, read_item-short_item}
use f2ido.Usbip.Device.{ep1_dev2host}
use f2ido.Usbip.Device.Polling.{ep1_dev2host-not_waiting, ep1_dev2host-IsAttentive}

-- A user who never answers; the world counts the times that the prompt was looked at.
abbrev pub args : MakeCredentialArgs
args = record {
  client_data_hash = 1 ∷ 2 ∷ [];
  rp = record { id = 101 ∷ []; name = none; icon = none };
  user = record { id = 7 ∷ []; display_name = none; name = none; icon = none };
  pub_key_algs =
      record { type = 112 ∷ 117 ∷ 98 ∷ 108 ∷ 105 ∷ 99 ∷ 45 ∷ 107 ∷ 101 ∷ 121 ∷ []; alg = negsuc 6 }
      ∷ [];
  exclude_credentials = [];
  options = record { rk = false; uv = false };
}

abbrev env : Env ℕ
env = record {
  token = record {
    increment_token_counter = pure 1;
    encrypt = λ xs. pure xs;
    decrypt = λ xs. pure xs;
    sha256_hash = λ xs. pure xs;
    sign = λ key xs. pure xs;
    generate_key_pair = pure (1 ∷ [], 2 ∷ [], 3 ∷ []);
    is_valid_id = λ xs. pure true;
    create_certificate = λ key pk issuer subject from to. pure pk;
  };
  prompt = record {
    yes_or_no_p = λ question w. (0, w);
    recv_timeout = λ receiver millis w. (timeout, suc w);
    now = λ w. (0, w);
  };
  cbor = record {
    read_make_credential_args = λ xs. some args;
    read_get_assertion_args = λ xs. none;
    read_credential_id = λ xs. none;
    write_get_info = λ r. some (0xa0 ∷ []);
    write_make_credential = λ r. some (0xa0 ∷ []);
    write_get_assertion = λ r. some (0xa0 ∷ []);
    write_credential_id = λ r. some (0xa0 ∷ []);
    write_map = λ r. some (0xa0 ∷ []);
  };
  pack = λ r. some (replicate 24 0);
}

-- A message of two packets, and one that is too long for a reply.
abbrev pub long_message : Bytes
long_message = replicate 100 7

send_reply-frames_example :
    send_reply 5 ctaphid_cbor long_message ((1 ∷ []) ∷ [])
    ≡ ok tt ((1 ∷ []) ∷ frames 5 ctaphid_cbor long_message)
send_reply-frames_example =
    send_reply-frames 5 ctaphid_cbor long_message ((1 ∷ []) ∷ []) (omega arith) (omega arith)

send_reply_too_long_example : send_reply 5 ctaphid_cbor (replicate 7551 0) [] ≡ panic
send_reply_too_long_example = send_reply_too_long 5 ctaphid_cbor (replicate 7551 0) [] (omega arith)

abbrev idle_context : Context ℕ
idle_context = record {
  channel = record { cid = 5; state = init };
  queue = (1 ∷ []) ∷ [];
  world = 0;
}

feed-frames_example :
    feed env (map report (frames 5 ctaphid_cbor long_message)) idle_context
    ≡ process_message env ctaphid_cbor long_message idle_context
feed-frames_example =
    feed-frames env 5 (omega arith) ((1 ∷ []) ∷ []) 0 ctaphid_cbor long_message (omega arith)
      (omega arith)

read_item-short_item_example :
    (xs : List ℕ) × (short_item 1 0 0xf1d0 tt ≡ ok xs tt)
    × (read_item (xs ++ 9 ∷ []) ≡ some (1, 0, 0xf1d0, 9 ∷ []))
read_item-short_item_example =
    read_item-short_item 1 0 0xf1d0 (9 ∷ []) tt (omega arith) (omega arith) (omega arith)

-- A channel that waits for the user, whose check packet is to be read.
abbrev waiting_channel : Channel
waiting_channel = record { cid = 0; state = State.make_credential args 0 }

abbrev waiting_context : Context ℕ
waiting_context = record { channel = waiting_channel; queue = (1 ∷ []) ∷ []; world = 0 }

parse-Extends_example :
    Ends (Extends waiting_context) (Channel.parse env (check_packet 0) waiting_context)
parse-Extends_example = parse-Extends env (check_packet 0) waiting_context

abbrev server : List Bytes → List Bytes → Channel → Server ℕ
server send recv channel = record {
  parser = record { send_queue = send; recv_queue = recv; channels = channel ∷ [] };
  world = 0;
}

server-IsAttentive :
    (send recv : List Bytes) (state : State)
    → (is_waiting state ≡ true → Attended send recv 0)
    → IsAttentive (server send recv (record { cid = 0; state = state })).parser
server-IsAttentive send recv state h = record {
  numbered = λ i ch fits e. place i ch e;
  attended = λ i ch fits e waits. attended i ch e waits;
}
  where
    channels : List Channel
    channels = record { cid = 0; state = state } ∷ []

    place : (i : ℕ) (ch : Channel) → get_elem? channels i ≡ some ch → ch.cid ≡ i
    place zero ch e = cc
    place (suc i) ch e = cc

    attended :
        (i : ℕ) (ch : Channel)
        → get_elem? channels i ≡ some ch
        → is_waiting ch.state ≡ true
        → Attended send recv i
    attended zero ch e waits = h (same e waits)
      where
        same :
            {ch : Channel}
            → some (record { cid = 0; state = state }) ≡ some ch
            → is_waiting ch.state ≡ true
            → is_waiting state ≡ true
        same e waits = cc
    attended (suc i) ch e waits = cc

waiting_server-IsAttentive : IsAttentive (server [] (check_packet 0 ∷ []) waiting_channel).parser
waiting_server-IsAttentive =
    server-IsAttentive [] (check_packet 0 ∷ []) (State.make_credential args 0) (λ h. inr (inl refl))

ep1_dev2host-IsAttentive_example :
    Ends Good (ep1_dev2host env (replicate 64 0) (server [] (check_packet 0 ∷ []) waiting_channel))
ep1_dev2host-IsAttentive_example =
    ep1_dev2host-IsAttentive env (replicate 64 0) _ waiting_server-IsAttentive

-- `CTAPHID_CANCEL` to an idle channel has no answer.
abbrev cancel_packet : Bytes
cancel_packet = report (0 ∷ 0 ∷ 0 ∷ 0 ∷ 0x91 ∷ 0 ∷ 0 ∷ [])

abbrev idle_channel : Channel
idle_channel = record { cid = 0; state = init }

cancel_run :
    ep1_dev2host env (replicate 64 0) (server [] (cancel_packet ∷ []) idle_channel)
    ≡ ok (false, replicate 64 0) (server [] [] idle_channel)
unfolding ep1_dev2host report parse Channel.parse Channel.init_state process_message
cancel_run = refl

ep1_dev2host-not_waiting_example : is_waiting idle_channel.state ≡ false
ep1_dev2host-not_waiting_example =
    ep1_dev2host-not_waiting env (replicate 64 0) (replicate 64 0)
      (server [] (cancel_packet ∷ []) idle_channel) (server [] [] idle_channel)
      (server-IsAttentive [] (cancel_packet ∷ []) init (λ h. cc)) cancel_run 0 idle_channel
      (omega arith) refl

parse-WaitsOn_example :
    Ends (WaitsOn (check_packet 0) timeout) (Channel.parse env (check_packet 0) waiting_context)
parse-WaitsOn_example = parse-WaitsOn env (check_packet 0) 0 waiting_context refl

check_timeout_example :
    Channel.parse env (check_packet 0) waiting_context
    ≡ ok tt (record {
      channel = waiting_channel;
      queue = (1 ∷ []) ∷ frames 0 ctaphid_keepalive (2 ∷ []);
      world = 1;
    })
check_timeout_example = check_timeout env args 0 0 ((1 ∷ []) ∷ []) 0 1 refl

-- A user who refuses.
abbrev refusing : Env ℕ
refusing = record {
  token = env.token;
  prompt = record {
    yes_or_no_p = λ question w. (0, w);
    recv_timeout = λ receiver millis w. (answer false, suc w);
    now = λ w. (0, w);
  };
  cbor = env.cbor;
  pack = env.pack;
}

check_refused_example :
    Channel.parse refusing (check_packet 0) waiting_context
    ≡ ok tt (record {
      channel = record { cid = 0; state = init };
      queue = (1 ∷ []) ∷ frames 0 ctaphid_cbor (0x27 ∷ []);
      world = 1;
    })
check_refused_example = check_refused refusing args 0 0 ((1 ∷ []) ∷ []) 0 1 refl
