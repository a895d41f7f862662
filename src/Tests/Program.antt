-- ===== src/Tests/Program.antt =====
-- Connections (src/main.rs) to the device of the tests, texts for pinentry (src/prompt.rs), and the
-- bound on the queued packets.
use f2ido.Prelude.{
  ◌≤◌, ◌≡◌, refl, subst, arith, Option, none, some, [], ◌∷◌, ◌++◌, length, replicate,
}
use f2ido.Prelude.Text.{codes}
use f2ido.Outcome.{ok, pure}
use f2ido.Ctaphid.Types.{Bytes, InitResponse}
use f2ido.Ctaphid.Effects.Rules.{Ends}
use f2ido.Ctaphid.Parser.Attention.{Good}
use f2ido.Ctaphid.Parser.Bounds.{Fits}
use f2ido.Usbip.Op.{op_req_import, text_field}
use f2ido.Usbip.Device.{in_callback, out_callback}
use f2ido.Usbip.Device.Bounds.{handle_commands-Fits}
use f2ido.Eventloop.{handle_commands}
use f2ido.Eventloop.Invariant.{InLoop}
use f2ido.Program.{Socket, fresh, serve, handle_connection, handle_stream}
use f2ido.Program.Arguments.{Args, arguments, parse_args, parse_args_from, parse_args-arguments}
use f2ido.Program.Greeting.{
  operation, open_stream, connection, import_reply, serve-IsAttentive, handle_stream_import,
}
use f2ido.Prompt.{escape_string}
use f2ido.Prompt.Escape.{read_line, read_line-escape_string}
use f2ido.Tests.{env}
use f2ido.Prelude.{bytes_eq}
use f2ido.Crypto.Pkcs11.{Handle}
use f2ido.Crypto.Store.Counter.{Holds}
use f2ido.Program.Main.{Platform, main}
use f2ido.Program.Main.Listing.{devlist_stream, answered_stream, main-devlist}
use f2ido.Tests.Memory.{Memory, memory, memory_works, blank, pins, reads, logged_in, one_slot}
use f2ido.Tests.Ceremony.{x509, prompt, cbor}
use f2ido.Tests.Loop.{bindings, errno, session}

abbrev socket : Socket
socket = record { set_nodelay = pure tt; shutdown = pure tt }

handle_commands-Fits_example :
    Ends
      (InLoop Fits)
      (handle_commands (in_callback env bindings) (out_callback env bindings) errno 3 2 session)
handle_commands-Fits_example = handle_commands-Fits env short bindings errno 3 2 session tt
  where
    short : (r : InitResponse) (xs : Bytes) → some (replicate 24 0) ≡ some xs → length xs ≤ 64
    short r xs e = subst (λ (o : Option Bytes). bound o) e (omega arith)
      where
        bound : Option Bytes → Type 0
        bound none = Unit {0}
        bound (some ys) = length ys ≤ 64

serve-IsAttentive_example :
    Ends (InLoop Good) (serve env bindings errno socket 3 2 (fresh (connection 0 session.stream)))
serve-IsAttentive_example =
    serve-IsAttentive env bindings errno socket 3 2 (connection 0 session.stream)

handle_stream_import_example :
    handle_stream env bindings errno socket 3 2 (
      connection 0
        (open_stream (operation op_req_import ++ text_field 32 (codes "1-1") ++ 1 ∷ []) []))
    ≡ handle_connection env bindings errno socket 3 2
        (connection 0 (open_stream (1 ∷ []) import_reply))
handle_stream_import_example =
    handle_stream_import env bindings errno socket 3 2 0 (1 ∷ []) [] (λ s. refl)

abbrev given : Args
given = record { pkcs11_module = 1 ∷ []; token_label = 2 ∷ []; pin_file = some (3 ∷ []) }

parse_args-arguments_example :
    parse_args (arguments given ++ codes "--token-label" ∷ (4 ∷ []) ∷ [])
    ≡ parse_args_from given (codes "--token-label" ∷ (4 ∷ []) ∷ [])
parse_args-arguments_example = parse_args-arguments given (codes "--token-label" ∷ (4 ∷ []) ∷ [])

read_line-escape_string_example :
    read_line (escape_string (65 ∷ 10 ∷ 66 ∷ []) ++ 10 ∷ 67 ∷ []) ≡ (65 ∷ 10 ∷ 66 ∷ [], 67 ∷ [])
read_line-escape_string_example =
    read_line-escape_string (65 ∷ 10 ∷ 66 ∷ []) (67 ∷ [])
      (λ e. ground arith, (λ e. ground arith, (λ e. ground arith, tt)))

abbrev platform : Platform Memory
platform = record {
  new_and_initialize = λ path. pure memory;
  pins = pins;
  x509 = x509;
  prompt = prompt;
  cbor = cbor;
  pack = λ r. some [];
  bindings = bindings;
  errno = errno;
  socket = socket;
}

-- Two clients, one after the other.
main-devlist_example :
    (k : Handle) × (m m' : Memory) × (main platform 3 2
        (codes "--token-label" ∷ (7 ∷ []) ∷ [])
        (devlist_stream [] ∷ devlist_stream (1 ∷ []) ∷ [])
        (record { lock = 0; world = blank })
      ≡ ok
          (answered_stream [] ∷ answered_stream (1 ∷ []) ∷ [])
          (record { lock = 0; world = memory.finalize m' }))
    × Holds memory 1 memory_works k 0 m
    × (pure {S = Memory} tt m ≡ ok tt m')
unfolding parse_args bytes_eq
main-devlist_example =
    main-devlist platform 3 2 (λ s. refl) (λ s. refl) (codes "--token-label" ∷ (7 ∷ []) ∷ [])
      (record {
        pkcs11_module = codes "/usr/lib/softhsm/libsofthsm2.so";
        token_label = 7 ∷ [];
        pin_file = none;
      })
      ([] ∷ (1 ∷ []) ∷ []) blank blank blank memory (reads blank) 7 1 memory_works refl refl
      (one_slot blank) (logged_in blank) tt refl refl (λ m o. (m, refl))
