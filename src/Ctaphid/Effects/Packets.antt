-- ===== src/Ctaphid/Effects/Packets.antt =====
-- One packet to a channel, in any state: what it keeps, and the answer of a channel that waits.
use f2ido.Prelude.{
  ℕ, ◌≤◌, ◌<◌, ◌≡◌, refl, true, ◌&&◌, ◌==◌, List, ◌∷◌, ◌++◌, arith, length, take, take-append_le,
  take_all, ◌∙◌, length-append,
}
use f2ido.Outcome.{M, abort, Outcome, ok, err, panic}
use f2ido.Ctaphid.Types.{
  Bytes, Queue, State, Channel, is_waiting, hack_check_status, ctaphid_cancel,
}
use f2ido.Ctaphid.Env.{Env}
use f2ido.Ctaphid.Context.{Context, set_state}
use f2ido.Ctaphid.Commands.{make_credential_cancel, get_assertion_cancel}
use f2ido.Ctaphid.Channel.{
  parse_packet, cbor_cmd, process_message, init_state, finish_message, cont_packet, on_wait,
  make_credential_state, get_assertion_state, parse_in, parse,
}
use f2ido.Ctaphid.Reply.Bounds.{AreFrames}
use f2ido.Ctaphid.Effects.Rules.{
  Ends, Yields, Keeps, Keeps-if, Keeps-slice, Keeps-slice_from, Yields-bind, Peeks, Peeks-pure,
  Peeks-bind, Peeks-assert, Peeks-index, Peeks-slice, Yields-if, Yields-Keeps, On, Keeps-get_cid,
}
use f2ido.Ctaphid.Effects.Answers.{Any, Idle, Answered, Idle-Answered, Idle-grows, Any-grows}
use f2ido.Ctaphid.Effects.Commands.{
  rules, cbor_cmd-Yields, cancel-Yields, make_credential_2-Yields, get_assertion_2-Yields,
}
use f2ido.Ctaphid.Effects.U2f.{msg_cmd-Keeps}

ruleset packet_rules = (
  rules, Yields-bind, Yields-if, Yields-Keeps, Keeps-if, Keeps-slice, Keeps-slice_from,
  Keeps-get_cid,
)

module _ {W : Type 0} (env : Env W) (F G : ℕ → Queue → Type 0)
    (grows : (cid : ℕ) (q : Queue) (p : Bytes) (ps : List Bytes)
      → AreFrames (p ∷ ps)
      → F cid q
      → F cid (q ++ p ∷ ps))
    (answers : (cid : ℕ) (q : Queue) (p : Bytes) (ps : List Bytes)
      → AreFrames (p ∷ ps)
      → F cid q
      → G cid (q ++ p ∷ ps)) where
  rests_grows :
      (ch : Channel) (q : Queue) (p : Bytes) (ps : List Bytes)
      → AreFrames (p ∷ ps)
      → Idle F ch q
      → Idle F ch (q ++ p ∷ ps)
  rests_grows = Idle-grows F grows

  rests_done : (c : Context W) → On (Idle F) c → Answered F G c
  rests_done = Idle-Answered F G

  cbor_case : (message : Bytes) → Yields (On {W = W} (Idle F)) (Answered F G) (cbor_cmd env message)
  cbor_case = cbor_cmd-Yields env F G grows answers

  process_message-Yields :
      (cmd : ℕ) (message : Bytes)
      → Yields (On {W = W} (Idle F)) (Answered F G) (process_message env cmd message)
  unfolding process_message
  process_message-Yields cmd message =
      search (packet_rules, rests_grows, rests_done, msg_cmd-Keeps, cbor_case) depth 40

  to_init : Keeps (On {W = W} (Idle F)) (set_state State.init)
  to_init = record { at = λ c h. (h.0, refl) }

  to_cont :
      (cmd bcnt : ℕ) (buffer : Bytes) (seqnum : ℕ)
      → Keeps (On {W = W} (Idle F)) (set_state (State.cont cmd bcnt buffer seqnum))
  to_cont cmd bcnt buffer seqnum = record { at = λ c h. (h.0, refl) }

  init_state-Yields :
      (pkt : Bytes) → Yields (On {W = W} (Idle F)) (Answered F G) (init_state env pkt)
  unfolding init_state
  init_state-Yields pkt =
      search (packet_rules, rests_grows, rests_done, to_cont, process_message-Yields) depth 40

  finish_message-Yields :
      (cmd bcnt : ℕ) (buffer pkt : Bytes)
      → Yields (On {W = W} (Idle F)) (Answered F G) (finish_message env cmd bcnt buffer pkt)
  unfolding finish_message
  finish_message-Yields cmd bcnt buffer pkt =
      search (packet_rules, rests_grows, rests_done, to_init, process_message-Yields) depth 40

  cont_packet-Yields :
      (cmd bcnt : ℕ) (buffer : Bytes) (seqnum : ℕ) (pkt : Bytes)
      → Yields (On {W = W} (Idle F)) (Answered F G) (cont_packet env cmd bcnt buffer seqnum pkt)
  unfolding cont_packet
  cont_packet-Yields cmd bcnt buffer seqnum pkt =
      search (packet_rules, rests_grows, rests_done, to_cont, finish_message-Yields) depth 40

  open_grows :
      (ch : Channel) (q : Queue) (p : Bytes) (ps : List Bytes)
      → AreFrames (p ∷ ps)
      → Any F ch q
      → Any F ch (q ++ p ∷ ps)
  open_grows = Any-grows F grows

  parse_packet-Peeks : (pkt : Bytes) → Peeks {S = Context W} (Answered F G) (parse_packet pkt)
  unfolding parse_packet
  parse_packet-Peeks pkt =
      search (Peeks-pure, Peeks-bind, Peeks-assert, Peeks-index, Peeks-slice) depth 40

  -- The packets of a waiting channel: another look at the consent, or the end of the wait.
  on_wait-Yields :
      (check : M (Context W) (Unit {0}))
      → Yields (On (Any F)) (Answered F G) check
      → (r : ℕ × ℕ × ℕ × Bytes)
      → Yields (On (Any F)) (Answered F G) (on_wait env check make_credential_cancel r)
  on_wait-Yields check h (cid, cmd, bcnt, message) =
      Yields-if _ _ ((cmd == hack_check_status) && (bcnt == 0)) check _ h (
        Yields-if _ _ ((cmd == ctaphid_cancel) && (bcnt == 0)) make_credential_cancel abort
          (cancel-Yields env F G grows answers) no_such_packet)
    where
      no_such_packet : Yields (On {W = W} (Any F)) (Answered F G) (abort {A = Unit {0}})
      no_such_packet = record { at = λ c p. tt }

  -- A packet in any state: `F` holds afterwards, and `G` if the channel waits.
  pub parse-Yields : (pkt : Bytes) → Yields (On {W = W} (Any F)) (Answered F G) (parse env pkt)
  unfolding parse make_credential_state get_assertion_state get_assertion_cancel
  parse-Yields pkt = record { at = λ c h. in_state c.channel.state c refl h }
    where
      in_state :
          (s : State) (c : Context W)
          → c.channel.state ≡ s
          → On (Any F) c
          → Ends (Answered F G) (parse_in env s pkt c)
      in_state State.init c e h = (init_state-Yields pkt).at c (h, rw e)
      in_state (State.cont cmd bcnt buffer seqnum) c e h =
          (cont_packet-Yields cmd bcnt buffer seqnum pkt).at c (h, rw e)
      in_state (State.make_credential args consent) c e h =
          (parse_packet-Peeks pkt).at c _
            (λ r. (on_wait-Yields _ (make_credential_2-Yields env F G grows answers) r).at c h)
      in_state (State.get_assertion args consent) c e h =
          (parse_packet-Peeks pkt).at c _
            (λ r. (on_wait-Yields _ (get_assertion_2-Yields env F G grows answers) r).at c h)

-- What stood in the send queue before a packet stands in front of it afterwards, and the channel
-- has its id; a channel that waits after the packet has sent something.
pub record Extends {W : Type 0} (c c' : Context W) : Type 0 where
  pub same_cid : c'.channel.cid ≡ c.channel.cid
  pub in_front : take (length c.queue) c'.queue ≡ c.queue
  pub no_shorter : length c.queue ≤ length c'.queue
  pub waiting_sends : is_waiting c'.channel.state ≡ true → length c.queue < length c'.queue

abbrev KeepsFront : ℕ → Queue → ℕ → Queue → Type 0
KeepsFront cid q cid' q' = (cid' ≡ cid) × (take (length q) q' ≡ q) × (length q ≤ length q')

KeepsFront-grows :
    (cid : ℕ) (q : Queue) (cid' : ℕ) (q' : Queue) (p : Bytes) (ps : List Bytes)
    → AreFrames (p ∷ ps)
    → KeepsFront cid q cid' q'
    → KeepsFront cid q cid' (q' ++ p ∷ ps)
KeepsFront-grows cid q cid' q' p ps are h =
    (h.0, take-append_le (length q) q' (p ∷ ps) h.2 ∙ h.1, omega (arith, length-append q' (p ∷ ps)))

-- A packet to a channel, in any state and with any outcome but a panic, leaves the queued replies
-- in front of the queue in their order and the id of the channel as it was, and a channel that
-- waits for the user afterwards has queued at least one packet.
pub parse-Extends :
    {W : Type 0} (env : Env W) (pkt : Bytes) (c : Context W) → Ends (Extends c) (parse env pkt c)
parse-Extends {W} env pkt c = shape (parse env pkt c) (
    (parse-Yields env (KeepsFront cid q) (λ cid' q'. length q < length q') (KeepsFront-grows cid q)
        (λ cid' q' p ps are h. omega (arith, length-append q' (p ∷ ps))) pkt).at
      c (refl, take_all (length q) q (omega arith), omega arith))
  where
    cid : ℕ
    cid = c.channel.cid

    q : Queue
    q = c.queue

    shape :
        (o : Outcome (Context W) (Unit {0}))
        → Ends (Answered (KeepsFront cid q) (λ cid' q'. length q < length q')) o
        → Ends (Extends c) o
    shape (ok a c') h = record {
      same_cid = h.holds.0;
      in_front = h.holds.1;
      no_shorter = h.holds.2;
      waiting_sends = h.sent;
    }
    shape (err a c') h = record {
      same_cid = h.holds.0;
      in_front = h.holds.1;
      no_shorter = h.holds.2;
      waiting_sends = h.sent;
    }
    shape panic h = tt
