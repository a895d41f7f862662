-- ===== src/Ctaphid/Parser/Bounds.antt =====
-- The send queue of `Parser` in src/ctaphid.rs holds packets that fit the endpoint.
use f2ido.Prelude.{
  ℕ, ◌≤◌, ◌≡◌, refl, Option, none, some, List, [], ◌∷◌, All-append, length, get_elem?,
}
use f2ido.Outcome.{Outcome, ok, err, panic}
use f2ido.Ctaphid.Types.{Bytes, Queue, Channel, InitResponse, max_packet_size}
use f2ido.Ctaphid.Env.{Env}
use f2ido.Ctaphid.Context.{Context}
use f2ido.Ctaphid.Reply.Bounds.{AreFrames}
use f2ido.Ctaphid.Channel as Channel
use f2ido.Ctaphid.Channel.{packet_cid, packet_bcnt}
use f2ido.Ctaphid.Effects.Rules.{
  Ends, Keeps, Keeps-pure, Keeps-abort, Keeps-bind, Keeps-if, Keeps-assert, Keeps-index,
  Keeps-slice,
}
use f2ido.Ctaphid.Effects.Answers.{Answered}
use f2ido.Ctaphid.Effects.Packets.{parse-Yields}
use f2ido.Ctaphid.Parser.{
  Server, push_checks, copy_reply, store_checks, unparse_front, unparse, send_packed,
  allocate_channel, init_cmd, put_back, channel_parse_at, channel_parse, route, parse_packet,
  parse_front, parse,
}

-- Every queued packet fits the endpoint.
abbrev pub Fits : {W : Type 0} → Server W → Type 0
Fits s = AreFrames s.parser.send_queue

ruleset look_rules =
    (Keeps-pure, Keeps-abort, Keeps-bind, Keeps-if, Keeps-assert, Keeps-index, Keeps-slice)

module _ {W : Type 0} (env : Env W)
    (packed_fits : (r : InitResponse) (xs : Bytes)
      → env.pack r ≡ some xs
      → length xs ≤ max_packet_size) where
  put_back-Fits :
      (i : ℕ) (s : Server W) (o : Outcome (Context W) (Unit {0}))
      → Ends (Answered (λ cid q. AreFrames q) (λ cid q. Unit {0})) o
      → Ends Fits (put_back env i s o)
  put_back-Fits i s (ok a c) h = h.holds
  put_back-Fits i s (err e c) h = h.holds
  put_back-Fits i s panic h = tt

  channel_parse-Fits : (i : ℕ) (pkt : Bytes) → Keeps Fits (channel_parse env i pkt)
  unfolding channel_parse
  channel_parse-Fits i pkt = record { at = λ s h. found s h (get_elem? s.parser.channels i) }
    where
      found :
          (s : Server W)
          → Fits s
          → (o : Option Channel) → Ends Fits (channel_parse_at env i pkt s o)
      found s h none = tt
      found s h (some ch) = put_back-Fits i s (Channel.parse env pkt _) (
          (parse-Yields env (λ cid q. AreFrames q) (λ cid q. Unit {0})
              (λ cid q p ps are h. All-append _ q (p ∷ ps) h are) (λ cid q p ps are h. tt) pkt).at
            _ h)

  allocate_channel-Fits : (nonce : ℕ) → Keeps Fits (allocate_channel env nonce)
  unfolding allocate_channel
  allocate_channel-Fits nonce = record { at = λ s h. packed s _ h (env.pack _) refl }
    where
      packed :
          (s : Server W) (chs : List Channel) {r : InitResponse}
          → Fits s
          → (o : Option Bytes) → env.pack r ≡ o
          → Ends Fits (send_packed env s chs o)
      packed s chs h none e = h
      packed s chs h (some response) e =
          All-append _ s.parser.send_queue (response ∷ []) h (packed_fits _ response e, tt)

  init_cmd-Fits : (pkt : Bytes) → Keeps Fits (init_cmd env pkt)
  unfolding init_cmd packet_bcnt
  init_cmd-Fits pkt = search (look_rules, allocate_channel-Fits) depth 40

  parse_packet-Fits : (pkt : Bytes) → Keeps Fits (parse_packet env pkt)
  unfolding parse_packet packet_cid route
  parse_packet-Fits pkt = search (look_rules, init_cmd-Fits, channel_parse-Fits) depth 40

  pub parse-Fits : Keeps Fits (parse env)
  unfolding parse
  parse-Fits = record { at = λ s h. front s h s.parser.recv_queue }
    where
      front : (s : Server W) → Fits s → (q : Queue) → Ends Fits (parse_front env q s)
      front s h [] = h
      front s h (pkt ∷ rest) = (parse_packet-Fits pkt).at _ h

module _ {W : Type 0} where
  store_checks-Fits : (buf : Bytes) (o : Option Queue) → Keeps (Fits {W = W}) (store_checks buf o)
  store_checks-Fits buf none = record { at = λ s h. tt }
  store_checks-Fits buf (some q) = record { at = λ s h. h }

  copy_reply-Fits : (r buf : Bytes) → Keeps (Fits {W = W}) (copy_reply r buf)
  unfolding copy_reply
  copy_reply-Fits r buf = search look_rules depth 10

  pub unparse-Fits : (buf : Bytes) → Keeps (Fits {W = W}) (unparse buf)
  unfolding unparse
  unparse-Fits buf = record { at = λ s h. front s s.parser.send_queue h h }
    where
      front : (s : Server W) (q : Queue) → Fits s → AreFrames q → Ends Fits (unparse_front q buf s)
      front s [] whole h = whole
      front s (r ∷ rest) whole h =
          (Keeps-bind Fits (copy_reply r buf) _ (copy_reply-Fits r buf) (λ buf'.
              store_checks-Fits buf' (push_checks s.parser.channels 0 s.parser.recv_queue))).at
            _ h.1
