-- ===== src/Program/Main/Listing.antt =====
-- A run of src/main.rs on a new token, for clients that ask for the list of devices.
use f2ido.Prelude.{ℕ, ◌≡◌, refl, ap, ◌∙◌, some, List, [], ◌∷◌, ◌++◌, map}
use f2ido.Outcome.{ok, pure, ◌>>◌, returns, unwrapped}
use f2ido.Ctaphid.Types.{Bytes}
use f2ido.Ctaphid.Env.{Env}
use f2ido.Usbip.Stream.{Stream}
use f2ido.Usbip.Op.{op_req_devlist}
use f2ido.Crypto.Pkcs11.{Ctx, Session, Handle}
use f2ido.Crypto.Objects.{secret_key_template, token_counter_template}
use f2ido.Crypto.Token.{login, drop_key_store, open_token}
use f2ido.Crypto.Slots.{Reads, labelled, open_token-new}
use f2ido.Crypto.Store.{Works, search}
use f2ido.Crypto.Store.Counter.{Holds}
use f2ido.Crypto.Globals.{with_ctx, released, in_process, applied, finalized}
use f2ido.Program.Arguments.{Args, Parsed, parsed, parse_args}
use f2ido.Program.Greeting.{operation, open_stream, devlist_reply, handle_stream_devlist}
use f2ido.Program.Main.{Platform, served_stream, serve_incoming, serve_with, run_args, main}

-- The request, and what the client sends behind it.
abbrev pub devlist_stream : List ℕ → Stream
devlist_stream rest = open_stream (operation op_req_devlist ++ rest) []

-- The request is read, and the list of the one device is written.
abbrev pub answered_stream : List ℕ → Stream
answered_stream rest = open_stream rest devlist_reply

module _ {W : Type 0} (platform : Platform W) (rounds fuel : ℕ)
    (nodelay : (s : Stream) → platform.socket.set_nodelay s ≡ ok tt s)
    (shutdown : (s : Stream) → platform.socket.shutdown s ≡ ok tt s) where
  serve_incoming-devlist :
      (env : Env W) (rests : List (List ℕ)) (w : W)
      → serve_incoming platform rounds fuel env (map devlist_stream rests) w
        ≡ ok (map answered_stream rests) w
  unfolding serve_incoming
  serve_incoming-devlist env [] w = refl
  serve_incoming-devlist env (rest ∷ rests) w =
      returns _
        (ap served_stream (
          handle_stream_devlist env platform.bindings platform.errno platform.socket rounds fuel w
            rest [] nodelay shutdown))
        (returns _ (serve_incoming-devlist env rests w) refl)

  -- When the arguments parse, the PKCS#11 module loads, exactly one token has the label, the login
  -- succeeds, the token works and has neither key nor counter, the sockets and the network work
  -- and the session can be closed, main reads the request of each of any number of clients that
  -- ask for the list of devices, and writes the header, the number 1, the device and its interface
  -- to it and nothing else, without an error or a panic; were there no other client, it would
  -- close the session with one key and the counter 0 on the token, then finalize the PKCS#11
  -- module and put the lock back.
  pub main-devlist :
      (arguments : List Bytes) (a : Args) (rests : List (List ℕ)) (w0 w w1 : W) (ctx : Ctx W)
      (reads : Reads ctx w) (slot : ℕ) (session : Session) (works : Works ctx session)
      → parse_args arguments ≡ parsed a
      → platform.new_and_initialize a.pkcs11_module w0 ≡ ok ctx w
      → labelled ctx platform.pins w reads a.token_label reads.slots ≡ slot ∷ []
      → login ctx platform.pins slot a.pin_file w ≡ ok session w1
      → works.IsOpen w1
      → search secret_key_template (works.objects w1) ≡ []
      → search token_counter_template (works.objects w1) ≡ []
      → ((w2 : W) → works.IsOpen w2 → (w3 : W) × (ctx.close_session session w2 ≡ ok tt w3))
      → (k : Handle) × (w2 w3 : W) × (main platform rounds fuel arguments
            (map devlist_stream rests)
            (record { lock = 0; world = w0 })
          ≡ ok (map answered_stream rests) (record { lock = 0; world = ctx.finalize w3 }))
        × Holds ctx session works k 0 w2
        × (ctx.close_session session w2 ≡ ok tt w3)
  unfolding main with_ctx drop_key_store
  main-devlist arguments a rests w0 w w1 ctx reads slot session works args_ok loaded one logged_in o
        no_key no_counter closes =
      let (k, w2, opened, holds) =
        open_token-new ctx platform.pins w reads a.token_label a.pin_file slot session w1 works one
          logged_in o no_key no_counter in
      let (w3, closed) = closes w2 holds.is_open in (k, w2, w3, run opened closed, holds, closed)
    where
      run :
          {w2 w3 : W}
          → open_token ctx platform.pins a.token_label a.pin_file w ≡ ok session w2
          → ctx.close_session session w2 ≡ ok tt w3
          → main platform rounds fuel arguments
              (map devlist_stream rests)
              (record { lock = 0; world = w0 })
            ≡ ok (map answered_stream rests) (record { lock = 0; world = ctx.finalize w3 })
      run {w2} {w3} opened closed =
          ap
            (λ (p : Parsed).
              run_args platform rounds fuel p (map devlist_stream rests)
                (record { lock = 0; world = w0 }))
            args_ok
          ∙ unwrapped (
              ap
                (λ o. released (
                  in_process 1
                    (applied (serve_with platform rounds fuel a (map devlist_stream rests)) o)))
                loaded
              ∙ ap (λ o. released (in_process 1 (finalized ctx o))) run_served)
        where
          run_served :
              serve_with platform rounds fuel a (map devlist_stream rests) (some ctx) w
              ≡ ok (map answered_stream rests) w3
          run_served = returns _ (unwrapped opened) (
              returns (λ ts. drop_key_store ctx platform.pins session >> pure ts)
                (serve_incoming-devlist _ rests w2) (returns _ (unwrapped closed) refl))
