-- ===== src/Program/Main.antt =====
-- `main` of src/main.rs, for the connections that it accepts.
pub mod Listing
use f2ido.Prelude.{ℕ, Option, none, some, List, [], ◌∷◌}
use f2ido.Outcome.{M, Outcome, ok, err, panic, pure, abort, ◌>>=◌, ◌>>◌}
use f2ido.Ctaphid.Types.{Bytes, InitResponse}
use f2ido.Ctaphid.Env.{Env, Prompt, Cbor}
use f2ido.Usbip.Stream.{Stream}
use f2ido.Usbip.Descriptors.{Bindings}
use f2ido.Eventloop.{Errno}
use f2ido.Crypto.Pkcs11.{Ctx, X509, Pins, Session}
use f2ido.Crypto.KeyStore.{unwrap}
use f2ido.Crypto.Token.{open_token, drop_key_store}
use f2ido.Crypto.Globals.{Process, with_ctx}
use f2ido.Ceremony.{authenticator}
use f2ido.Program.{Connection, Socket, handle_stream}
use f2ido.Program.Arguments.{Args, Parsed, parsed, usage, invalid, parse_args}

-- What the program is linked with, besides PKCS#11.
pub record Platform (W : Type 0) : Type 0 where
  pub new_and_initialize : (path : Bytes) → M W (Ctx W)
  pub pins : Pins W
  pub x509 : X509
  pub prompt : Prompt W
  pub cbor : Cbor
  pub pack : InitResponse → Option Bytes
  pub bindings : Bindings
  pub errno : Errno
  pub socket : Socket

module _ {W : Type 0} where
  -- `handle_stream(…).unwrap()`, with the stream as the connection leaves it.
  abbrev pub served_stream : Outcome (Connection W) (Unit {0}) → Outcome W Stream
  served_stream (ok a c) = ok c.stream c.world
  served_stream (err e c) = panic
  served_stream panic = panic

module _ {W : Type 0} (platform : Platform W) (rounds fuel : ℕ) where
  abbrev pub serve_one : Env W → Stream → M W Stream
  serve_one env stream w = served_stream (
      handle_stream env platform.bindings platform.errno platform.socket rounds fuel
        (record { world = w; stream = stream }))

  -- `for s in listener.incoming()`, for the first connections, with what was written to each.
  unfoldable pub serve_incoming : Env W → List Stream → M W (List Stream)
  unfolding handle_stream
  serve_incoming env [] = pure []
  serve_incoming env (s ∷ rest) = do
    t ← serve_one env s
    ts ← serve_incoming env rest
    pure (t ∷ ts)

  -- The closure for `with_ctx`.
  abbrev pub serve_with : Args → List Stream → Option (Ctx W) → M W (List Stream)
  serve_with args incoming none = abort
  serve_with args incoming (some ctx) = do
    session ← unwrap (open_token ctx platform.pins args.token_label args.pin_file)
    streams ←
        serve_incoming
          (authenticator ctx session platform.x509 platform.prompt platform.cbor platform.pack)
          incoming
    drop_key_store ctx platform.pins session
    pure streams

  abbrev pub run_args : Parsed → List Stream → M (Process W) (List Stream)
  run_args (parsed args) incoming =
      unwrap (with_ctx platform.new_and_initialize args.pkcs11_module (serve_with args incoming))
  run_args usage incoming = pure []
  run_args invalid incoming = abort

  unfoldable pub main : List Bytes → List Stream → M (Process W) (List Stream)
  unfolding parse_args with_ctx open_token authenticator serve_incoming drop_key_store
  main args incoming = run_args (parse_args args) incoming
