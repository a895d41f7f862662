-- ===== src/Lib.antt =====
-- f2ido: a software FIDO2 token that a Linux host sees as a USB device, over the USB/IP protocol.
--
-- The program (paths from the root of the repository) serves one TCP stream. `EventLoop` in
-- src/eventloop.rs reads SUBMIT and UNLINK headers from it and hands each request to the handler
-- of its endpoint; a request that the handler cannot answer yet is kept until it is unblocked.
-- `Device` in src/usbip.rs has the handlers: endpoint 0 answers the requests of enumeration, from
-- descriptors that src/hid.rs helps to build; endpoint 2 queues a CTAPHID packet from the host;
-- endpoint 1 parses the queued packets and gives the host the next reply. `Parser` in
-- src/ctaphid.rs keeps these queues and the channels, and `Channel` there is a state machine that
-- puts a message together from its packets, runs the CTAP2 and U2F commands and cuts the reply
-- into packets. The commands use the key store of src/crypto.rs and ask the user by src/prompt.rs.
-- `main` in src/main.rs opens the key store, and gives it to the device of each connection, after
-- the greeting that src/usbip.rs reads and answers.
--
-- Files:
--   Prelude, Prelude/*: library names, lists, Boolean tests and bits over the native numbers.
--   Outcome: a call ends by a value, by an `Err` with the state as it then is, or by a panic,
--     which ends the process. `?` is the bind of `M`; `assert!`, `unwrap` and indices out of range
--     are `abort`.
--   Ctaphid/Types: the constants, the records and the states of src/ctaphid.rs.
--   Ctaphid/Env: what the channels call, as the record `Env` over a world `W`: `KeyStore`, the
--     prompt and the receiver of its answer, the clock, serde_cbor and packed_struct.
--   Ctaphid/Reply: `send_reply`. Ctaphid/Reply/Frames: its packets as a list.
--   Ctaphid/Context: the channel, the send queue and the world that a method of `Channel` acts on.
--   Ctaphid/Commands, Ctaphid/U2f: the commands (`make_credential`, `get_assertion`, `msg_cmd`).
--   Ctaphid/Channel: `Channel::parse` and the states (`init_state`, `cont_state`, and so on).
--   Ctaphid/Channel/Reassembly, Ctaphid/Channel/Echo, Ctaphid/Channel/Checks: a message and a PING
--     through their packets, and the packets that make a waiting channel look.
--   Ctaphid/Effects/*: rules for actions on a channel, and what a packet keeps.
--   Ctaphid/Parser: `Parser`. Ctaphid/Parser/Attention, Ctaphid/Parser/Parsing,
--     Ctaphid/Parser/Unparse: the invariant that a waiting channel is attended to.
--     Ctaphid/Parser/Feeding: packets for one channel. Ctaphid/Reply/Bounds, Ctaphid/Parser/Bounds:
--     the sizes of queued packets.
--   Crypto/Pkcs11: what src/crypto.rs calls, as records over a world: the pkcs11 crate, the writers
--     of the x509 crate, and the ways to get a PIN. Crypto/Objects: its constants and templates.
--   Crypto/KeyStore: `KeyStore`, and the environment of the channels that it fills.
--   Crypto/Token: `open_token` with `find_token` and `login`. Crypto/Globals: `with_ctx`.
--   Crypto/Signature: `der_encode_signature` and `ec_point_x_y`;
--     Crypto/Signature/Der, Crypto/Signature/Point: a reader of signatures, and the octets of points.
--   Crypto/Store: the objects of a token, and a token that works (`Works`), as hypotheses on the
--     pkcs11 crate. Crypto/Store/Objects: searches. Crypto/Store/Counter: the token counter, and the
--     state with one counter and one key (`Holds`). Crypto/Store/Cipher, Crypto/Store/Keys: the
--     cipher, key pairs and signatures. Crypto/Store/Opening, Crypto/Slots: `open_token`.
--   Prompt, Prompt/Escape: src/prompt.rs and a reader of its texts. Prompt/Consent: `yes_or_no_p`,
--     its threads and channels under any schedule. Prompt/Consent/Life, Prompt/Consent/Reception:
--     a thread's life, and one reception. Prompt/Consent/Delivery, Prompt/Consent/Answers: what the
--     receiver yields, and when.
--     Prompt/Consent/Decision: a waiting channel on these threads.
--   Ceremony: the channels' commands on the key store. Ceremony/Registration, Ceremony/Assertion:
--     a credential is made, and used.
--   Hid, Hid/Items: src/hid.rs and a reader of its items.
--   Usbip/Stream: the TCP stream, whose writes can fail or be short.
--   Usbip/Op: the requests of the device list and of the device, and their replies.
--   Usbip/Wire, Usbip/Setup, Usbip/Descriptors, Usbip/Control: the headers and replies, the setup
--     packet, the descriptors and endpoint 0 of src/usbip.rs. The constants of the C headers are
--     the record `Bindings`.
--   Usbip/Device: endpoints 1 and 2 and `init_callbacks`. Usbip/Device/Ping: a PING through both;
--     Usbip/Device/Waking, Usbip/Device/Exchange: a kept request that a packet wakes, in the loop.
--     Usbip/Device/Polling: endpoint 1 and the channels that wait.
--     Usbip/Device/Callbacks, Usbip/Device/Handlers, Usbip/Device/Released, Usbip/Device/Unblocked,
--     Usbip/Device/Bounds: the device under the event loop.
--   Usbip/Stream/Writes, Usbip/Control/Stateless, Usbip/Descriptors/Lengths: what a write leaves,
--     the state around endpoint 0, and the lengths in the configuration.
--   Eventloop: `EventLoop`, for callbacks given by names and an interpretation of them.
--     Eventloop/Unlink, Eventloop/Replies, Eventloop/Handlers, Eventloop/Endpoints and
--     Eventloop/Invariant: UNLINK, the answers to SUBMIT, the handlers, and what the loop keeps;
--     Eventloop/Unblocked: the loop over the unblocked requests;
--     Eventloop/Written, Eventloop/Rules have the replies and the rules for answers.
--   Program: `handle_stream` and `handle_commands` of src/main.rs; Program/Greeting: the first
--     request. Program/Arguments: `parse_args`. Program/Main, Program/Main/Listing: `main`.
--   Tests, Tests/*: runs on concrete packets and numbers, and a token in memory.
--
-- Bounds and fuel: numbers are natural numbers, reduced where the code casts. `chunks` has the
-- length of the list as fuel, a round of it takes at least one element. `drain` (the `while` of
-- `ep1_dev2host`) has the length of the receive queue, since `parse` takes one packet and adds
-- none. `handle_unblocked` takes a number of rounds that is above the number of unblocked
-- requests; `handle_commands` loops for ever in the code, and any number of rounds is a prefix of
-- its run.
--
-- A world `W` stands for what the outside keeps (the token, the user, the clock). A token that
-- works always has room for another object; errors of PKCS#11 calls are in the definitions, and
-- pass through them as the code has it. `v+1` on the counter is checked, as in the build of the
-- README; `serve_incoming` takes the connections that the listener accepts, in their order, and
-- returns the streams as it leaves them.
--
-- The threads of `yes_or_no_p` take their steps in the order of a schedule, one list of them for
-- each reception; a thread confirms, sends, and drops its sender; a receiver that its channel has dropped stays, since nothing looks at it again.
--
-- Not modelled: logging, `print_usage`, and the wiping of copies (`zero`, `with_vec`); the serde
-- glue of the records; the layouts that build.rs generates.
pub mod Prelude
pub mod Outcome
pub mod Ctaphid
pub mod Hid
pub mod Usbip
pub mod Eventloop
pub mod Crypto
pub mod Prompt
pub mod Ceremony
pub mod Program
pub mod Tests
