-- ===== src/Ctaphid/Channel/Echo.antt =====
-- `ping_cmd` of src/ctaphid.rs, through the packets of its message and those of its reply.
use f2ido.Prelude.{ℕ, ◌^◌, ◌≤◌, ◌<◌, ◌≡◌, ◌∙◌, ◌++◌, map, arith, length}
use f2ido.Outcome.{ok}
use f2ido.Ctaphid.Types.{Bytes, Queue, init, ctaphid_ping}
use f2ido.Ctaphid.Env.{Env}
use f2ido.Ctaphid.Context.{Context}
use f2ido.Ctaphid.Reply.Frames.{frames, max_reply, send_reply-frames}
use f2ido.Ctaphid.Commands.{ping_cmd}
use f2ido.Ctaphid.Channel.{process_message}
use f2ido.Ctaphid.Channel.Reassembly.{report, feed, feed-frames}

module _ {W : Type 0} (env : Env W) (cid : ℕ) (q : Queue) (w : W) where
  abbrev idle : Queue → Context W
  idle q' = record { channel = record { cid = cid; state = init }; queue = q'; world = w }

  process_message_ping :
      (payload : Bytes)
      → length payload ≤ max_reply
      → process_message env ctaphid_ping payload (idle q)
        ≡ ok tt (idle (q ++ frames cid ctaphid_ping payload))
  unfolding process_message ping_cmd
  process_message_ping payload hl =
      rw (send_reply-frames cid ctaphid_ping payload q (omega arith) hl)

  -- A PING of at most 7550 bytes, sent packet by packet to an idle channel, is answered by the
  -- packets of the same message behind the queued replies, and nothing else changes.
  pub feed_ping :
      (payload : Bytes)
      → cid < 2 ^ 32
      → length payload ≤ max_reply
      → feed env (map report (frames cid ctaphid_ping payload)) (idle q)
        ≡ ok tt (idle (q ++ frames cid ctaphid_ping payload))
  feed_ping payload fits hl =
      feed-frames env cid fits q w ctaphid_ping payload (omega arith) hl
      ∙ process_message_ping payload hl
