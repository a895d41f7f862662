-- ===== src/Usbip/Device/Waking.antt =====
-- A request for a packet that src/eventloop.rs keeps, and the packet that wakes it.
use f2ido.Prelude.{
  ℕ, suc, ◌≡◌, refl, ap, ◌∙◌, arith, ap₂, sym, leb_iff, length-append, take-append, drop-append,
  if◌then◌else◌, Bool, true, List, [], ◌∷◌, ◌++◌, length, take, drop, replicate,
}
use f2ido.Prelude.Text.{pos}
use f2ido.Outcome.{Outcome, attempt, ok, pure, ◌>>=◌, ◌>>◌, returns}
use f2ido.Ctaphid.Types.{Bytes, Queue, Channel}
use f2ido.Ctaphid.Env.{Env}
use f2ido.Ctaphid.Parser.{Server}
use f2ido.Ctaphid.Parser.Feeding.{served}
use f2ido.Usbip.Stream.{
  Header, Chunk, header, bytes, ret_submit, read_exact, Stream, write_all, write,
}
use f2ido.Usbip.Wire.{usbip_ret_submit, reply_to, write_submit_reply, i32_from}
use f2ido.Usbip.Descriptors.{Bindings}
use f2ido.Eventloop.{
  Handler, dev2host, host2dev, Session, Errno, handle_submit, handle_unblocked, on_stream, on_loop,
  answer_in, host2dev_transfer, unblock_handler, remove_handler, remove_first, any, schedule,
}
use f2ido.Usbip.Device.{
  InCallback, OutCallback, ep0_in, ep1_in, ep0_out, ep2_out, on_state, in_callback, out_callback,
  ep1_dev2host, ep2_host2dev,
}

-- A SUBMIT to an endpoint, without flags, for 64 bytes.
abbrev pub submit : (direction ep seqnum devid : ℕ) (rest : Bytes) → Header
submit direction ep seqnum devid rest = record {
  command = 1;
  seqnum = seqnum;
  devid = devid;
  direction = direction;
  ep = ep;
  body = 0 ∷ 0 ∷ 0 ∷ 0 ∷ 0 ∷ 0 ∷ 0 ∷ 64 ∷ rest;
}

-- The header of a reply for 64 bytes.
abbrev pub acknowledged : Header → Chunk
acknowledged h =
    header (reply_to h usbip_ret_submit (ret_submit (pos 0) (pos 64) (pos 0) (pos 0) (pos 0)))

module _ {W : Type 0} (env : Env W) (bindings : Bindings) where
  abbrev pub Handlers : Type 0
  Handlers = List (Handler InCallback OutCallback)

  abbrev pub session :
      Handlers
      → (blocked unblocked : List Header) → Server W
      → Stream
      → Session InCallback OutCallback (Server W)
  session hs blocked unblocked s stream = record {
    loop = record { state = s; handlers = hs; blocked = blocked; unblocked = unblocked };
    stream = stream;
  }

  -- The handlers, with the one of endpoint 2 last or that of endpoint 1 behind it.
  abbrev pub before : Handlers
  before = dev2host 0 ep0_in ∷ host2dev 0 ep0_out ∷ dev2host 1 ep1_in ∷ host2dev 2 ep2_out ∷ []

  abbrev pub after : Handlers
  after = dev2host 0 ep0_in ∷ host2dev 0 ep0_out ∷ host2dev 2 ep2_out ∷ dev2host 1 ep1_in ∷ []

  abbrev pub stream : Bytes → List Chunk → Stream
  stream input output = record { input = input; output = output; network = [] }

  -- A request on endpoint 1 that has an answer.
  poll_answered :
      (seqnum devid : ℕ) (rest buf input : Bytes) (output : List Chunk) (s s' : Server W)
      → ep1_dev2host env (replicate 64 0) s ≡ ok (true, buf) s'
      → length buf ≡ 64
      → let h = submit 1 1 seqnum devid rest in
        handle_submit
          (in_callback env bindings)
          (out_callback env bindings)
          h
          (session before [] [] s (stream input output))
        ≡ ok tt (
            session after [] [] s'
              (stream input ((output ++ acknowledged h ∷ []) ++ bytes buf ∷ [])))
  unfolding handle_submit remove_handler remove_first schedule write_submit_reply write_all write
  poll_answered seqnum devid rest buf input output s s' answered long =
      ap
        (λ (o : Outcome (Server W) (Bool × Bytes)).
          (on_loop (attempt (on_state env (λ s0. o)))
              >>= answer_in (in_callback env bindings) (out_callback env bindings)
                  (submit 1 1 seqnum devid rest) 1 ep1_in)
            (session removed [] [] s (stream input output)))
        answered
      ∙ ap
          (λ (n : ℕ).
            (on_stream (
                  i32_from n >>= λ l.
                  write_all (
                    header (
                      reply_to (submit 1 1 seqnum devid rest) usbip_ret_submit
                        (ret_submit (pos 0) l (pos 0) (pos 0) (pos 0))))
                  >> write buf)
                >> on_loop (schedule (dev2host 1 ep1_in)))
              (session removed [] [] s' (stream input output)))
          long
    where
      removed : Handlers
      removed = dev2host 0 ep0_in ∷ host2dev 0 ep0_out ∷ host2dev 2 ep2_out ∷ []

  read_exact_front :
      (packet input : Bytes) (output : List Chunk)
      → length packet ≡ 64
      → read_exact 64 (stream (packet ++ input) output) ≡ ok packet (stream input output)
  unfolding read_exact
  read_exact_front packet input output long =
      rw ((leb_iff 64 (length (packet ++ input))).1 (omega (arith, length-append packet input))) (
        ap₂ (λ (x y : Bytes). ok x (stream y output))
          (ap (λ n. take n (packet ++ input)) (sym long) ∙ take-append packet input)
          (ap (λ n. drop n (packet ++ input)) (sym long) ∙ drop-append packet input))

  -- A packet on endpoint 2, while a request on endpoint 1 is kept.
  packet_wakes :
      (seqnum devid : ℕ) (rest : Bytes) (poll_seqnum poll_devid : ℕ) (poll_rest : Bytes)
      (packet input : Bytes) (output : List Chunk) (send : Queue) (chs : List Channel) (w : W)
      → length packet ≡ 64
      → let h = submit 0 2 seqnum devid rest in
        let poll = submit 1 1 poll_seqnum poll_devid poll_rest in
        handle_submit
          (in_callback env bindings)
          (out_callback env bindings)
          h
          (session before (poll ∷ []) [] (served send [] chs w) (stream (packet ++ input) output))
        ≡ ok tt (
            session before []
              (poll ∷ [])
              (served send (packet ∷ []) chs w)
              (stream input ((output ++ acknowledged h ∷ []) ++ bytes [] ∷ [])))
  unfolding handle_submit remove_handler remove_first schedule write_submit_reply write_all write
      host2dev_transfer unblock_handler any ep2_host2dev
  packet_wakes seqnum devid rest poll_seqnum poll_devid poll_rest packet input output send chs w
        long =
      ap
        (λ (o : Outcome Stream Bytes).
          (on_stream (λ st. o) >>= λ v.
          host2dev_transfer (in_callback env bindings) (out_callback env bindings)
            (submit 0 2 seqnum devid rest) v ep2_out
          >>= λ done. if done then on_loop (schedule (host2dev 2 ep2_out)) else pure tt)
            (session (dev2host 0 ep0_in ∷ host2dev 0 ep0_out ∷ dev2host 1 ep1_in ∷ [])
              (submit 1 1 poll_seqnum poll_devid poll_rest ∷ []) [] (served send [] chs w)
              (stream (packet ++ input) output)))
        (read_exact_front packet input output long)
      ∙ ap
          (λ (n : ℕ). ok tt (
            session before [] (submit 1 1 poll_seqnum poll_devid poll_rest ∷ [])
              (served send (packet ∷ []) chs w)
              (stream input (
                (output
                  ++ header (
                      reply_to (submit 0 2 seqnum devid rest) usbip_ret_submit
                        (ret_submit (pos 0) (pos n) (pos 0) (pos 0) (pos 0)))
                    ∷ [])
                ++ bytes [] ∷ []))))
          long

  -- A request that was kept is answered in the round after the packet.
  pub wakes_and_answers :
      (errno : Errno) (rounds : ℕ) (seqnum devid : ℕ) (rest : Bytes) (poll_seqnum poll_devid : ℕ)
      (poll_rest packet buf input : Bytes) (output : List Chunk) (chs : List Channel) (w : W)
      (s' : Server W)
      → length packet ≡ 64
      → length buf ≡ 64
      → ep1_dev2host env (replicate 64 0) (served [] (packet ∷ []) chs w) ≡ ok (true, buf) s'
      → let h = submit 0 2 seqnum devid rest in
        let poll = submit 1 1 poll_seqnum poll_devid poll_rest in
        (handle_submit (in_callback env bindings) (out_callback env bindings) h
            >> handle_unblocked
                (in_callback env bindings)
                (out_callback env bindings)
                errno
                (suc (suc rounds)))
          (session before (poll ∷ []) [] (served [] [] chs w) (stream (packet ++ input) output))
        ≡ ok tt (
            session after [] [] s' (
              stream input (
                (((output ++ acknowledged h ∷ []) ++ bytes [] ∷ []) ++ acknowledged poll ∷ [])
                ++ bytes buf ∷ [])))
  unfolding handle_unblocked
  wakes_and_answers errno rounds seqnum devid rest poll_seqnum poll_devid poll_rest packet buf input
        output chs w s' long full answered =
      returns
        (λ u.
          handle_unblocked (in_callback env bindings) (out_callback env bindings) errno
            (suc (suc rounds)))
        (packet_wakes seqnum devid rest poll_seqnum poll_devid poll_rest packet input output [] chs
          w long)
        (returns
          (λ u.
            handle_unblocked (in_callback env bindings) (out_callback env bindings) errno
              (suc rounds))
          (poll_answered poll_seqnum poll_devid poll_rest buf input _
            (served [] (packet ∷ []) chs w) s' answered full)
          refl)
