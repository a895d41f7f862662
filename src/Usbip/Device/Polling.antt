-- ===== src/Usbip/Device/Polling.antt =====
-- Endpoint 1 of the device in src/usbip.rs, and the channels that wait while it is asked.
use f2ido.Prelude.{
  ℕ, zero, suc, ◌≤◌, ◌<◌, ◌≡◌, refl, sym, ap, inl, inr, Bool, true, false, Option, none, some, List,
  [], ◌∷◌, ◌++◌, arith, subst, Bool-cases, length, get_elem?,
}
use f2ido.Outcome.{Outcome, ok, err, panic, pure, ◌>>=◌, ◌>>◌}
use f2ido.Ctaphid.Types.{Bytes, Queue, Channel, is_waiting, ctaphid_broadcast_cid}
use f2ido.Ctaphid.Env.{Env}
use f2ido.Ctaphid.Context.{Context}
use f2ido.Ctaphid.Channel as Channel
use f2ido.Ctaphid.Channel.{packet_bcnt}
use f2ido.Ctaphid.Effects.Rules.{
  Ends, Keeps, Keeps-pure, Keeps-bind, Keeps-if, Keeps-abort, Keeps-assert, Keeps-index,
  Keeps-slice,
}
use f2ido.Ctaphid.Parser.{
  Server, unparse, parse, parse_packet, route, init_cmd, channel_parse, channel_parse_at, put_back,
  allocate_channel, send_packed,
}
use f2ido.Ctaphid.Parser.Attention.{In, Attended, IsAttentive, Good}
use f2ido.Ctaphid.Parser.Parsing.{parse-IsAttentive}
use f2ido.Ctaphid.Parser.Unparse.{unparse-IsAttentive}
use f2ido.Usbip.Device.{ep1_dev2host, ep2_host2dev, drain, send_one, is_empty}

-- The packets still to be read are `q`.
abbrev Reads : {W : Type 0} → Queue → Server W → Type 0
Reads q s = s.parser.recv_queue ≡ q

module _ {W : Type 0} (env : Env W) (q : Queue) where
  channel_parse-Reads : (i : ℕ) (pkt : Bytes) → Keeps (Reads {W = W} q) (channel_parse env i pkt)
  unfolding channel_parse
  channel_parse-Reads i pkt = record { at = λ s h. found s h (get_elem? s.parser.channels i) }
    where
      put :
          (s : Server W) (h : Reads q s) (o : Outcome (Context W) (Unit {0}))
          → Ends (Reads {W = W} q) (put_back env i s o)
      put s h (ok a c) = h
      put s h (err e c) = h
      put s h panic = tt

      found :
          (s : Server W) (h : Reads q s) (o : Option Channel)
          → Ends (Reads {W = W} q) (channel_parse_at env i pkt s o)
      found s h none = tt
      found s h (some ch) = put s h (Channel.parse env pkt _)

  allocate_channel-Reads : (nonce : ℕ) → Keeps (Reads {W = W} q) (allocate_channel env nonce)
  unfolding allocate_channel
  allocate_channel-Reads nonce = record { at = λ s h. packed s h _ (env.pack _) }
    where
      packed :
          (s : Server W) (h : Reads q s) (chs : List Channel) (o : Option Bytes)
          → Ends (Reads {W = W} q) (send_packed env s chs o)
      packed s h chs none = h
      packed s h chs (some response) = h

  route-Reads : (cid cmd : ℕ) (pkt : Bytes) → Keeps (Reads {W = W} q) (route env cid cmd pkt)
  unfolding route init_cmd packet_bcnt
  route-Reads cid cmd pkt =
      search
        (
          Keeps-pure, Keeps-bind, Keeps-if, Keeps-abort, Keeps-assert, Keeps-index, Keeps-slice,
          channel_parse-Reads, allocate_channel-Reads,
        )
        depth 30

  parse_packet-Reads : (pkt : Bytes) → Keeps (Reads {W = W} q) (parse_packet env pkt)
  unfolding parse_packet Channel.packet_cid
  parse_packet-Reads pkt =
      search
        (
          Keeps-pure, Keeps-bind, Keeps-if, Keeps-abort, Keeps-assert, Keeps-index, Keeps-slice,
          route-Reads,
        )
        depth 30

module _ {W : Type 0} (env : Env W) where
  -- `parse` takes the packet in front and adds none.
  parse-Reads :
      (pkt : Bytes) (q : Queue) (s : Server W)
      → s.parser.recv_queue ≡ pkt ∷ q
      → Ends (Reads q) (parse env s)
  unfolding parse
  parse-Reads pkt q s e = rw (e, Ends) ((parse_packet-Reads env q pkt).at _ refl)

  -- After the loop: nothing left to read, unless it ended early.
  abbrev Drained : Outcome (Server W) (Unit {0}) → Type 0
  Drained (ok a s) = IsAttentive s.parser × (s.parser.recv_queue ≡ [])
  Drained (err e s) = IsAttentive s.parser
  Drained panic = Unit {0}

  then_drain :
      (n : ℕ) (rest : Queue) (s : Server W) (o : Outcome (Server W) (Unit {0}))
      → Ends Good o
      → Ends (Reads rest) o
      → ((t : Server W)
          → IsAttentive t.parser
          → t.parser.recv_queue ≡ rest
          → Drained (drain env n t))
      → Drained (((λ (_ : Server W). o) >> drain env n) s)
  then_drain n rest s (ok a t) good reads k = k t good reads
  then_drain n rest s (err e t) good reads k = good
  then_drain n rest s panic good reads k = tt

  -- As much fuel as there are packets is enough.
  pub drain-Drained :
      (n : ℕ) (s : Server W)
      → length s.parser.recv_queue ≤ n
      → IsAttentive s.parser
      → Drained (drain env n s)
  unfolding drain
  drain-Drained zero s fits h = none_left s.parser.recv_queue refl
    where
      none_left : (q : Queue) → s.parser.recv_queue ≡ q → Drained (ok tt s)
      none_left [] e = (h, e)
      none_left (pkt ∷ rest) e = absurd (omega (arith, fits, ap length e))
  drain-Drained (suc n) s fits h =
      front s.parser.recv_queue refl
        (λ rest e t good reads. drain-Drained n t (omega (arith, e, ap length reads)) good)
    where
      front :
          (q : Queue)
          → s.parser.recv_queue ≡ q
          → ((rest : Queue)
              → suc (length rest) ≡ length s.parser.recv_queue
              → (t : Server W) → IsAttentive t.parser
              → t.parser.recv_queue ≡ rest
              → Drained (drain env n t))
          → Drained (drain env (suc n) s)
      front [] e k = rw (ap is_empty e, Drained) (h, e)
      front (pkt ∷ rest) e k =
          rw (ap is_empty e, Drained)
            (then_drain n rest s (parse env s) (parse-IsAttentive env s h)
              (parse-Reads pkt rest s e) (k rest (sym (ap length e))))

  -- How a request for a packet ends: with a packet, or without one when no channel waits.
  abbrev Polled : Outcome (Server W) (Bool × Bytes) → Type 0
  Polled (ok (true, buf) s) = IsAttentive s.parser
  Polled (ok (false, buf) s) =
      IsAttentive s.parser × (s.parser.recv_queue ≡ []) × (s.parser.send_queue ≡ [])
  Polled (err e s) = IsAttentive s.parser
  Polled panic = Unit {0}

  send_one-Polled :
      (buf : Bytes) (s : Server W)
      → IsAttentive s.parser
      → s.parser.recv_queue ≡ []
      → Polled (send_one env buf s)
  send_one-Polled buf s h drained = front s.parser.send_queue refl
    where
      sent :
          (o : Outcome (Server W) Bytes)
          → Ends Good o
          → Polled (((λ (_ : Server W). o) >>= λ b. pure (true, b)) s)
      sent (ok b t) good = good
      sent (err e t) good = good
      sent panic good = tt

      front : (q : Queue) → s.parser.send_queue ≡ q → Polled (send_one env buf s)
      front [] e = rw (ap is_empty e, Polled) (h, drained, e)
      front (p ∷ rest) e =
          rw (ap is_empty e, Polled) (sent (unparse buf s) (unparse-IsAttentive buf s drained h))

  ep1_dev2host-Polled :
      (buf : Bytes) (s : Server W) → IsAttentive s.parser → Polled (ep1_dev2host env buf s)
  unfolding ep1_dev2host
  ep1_dev2host-Polled buf s h =
      then_send (drain env (length s.parser.recv_queue) s)
        (drain-Drained (length s.parser.recv_queue) s (omega arith) h)
    where
      then_send :
          (o : Outcome (Server W) (Unit {0}))
          → Drained o
          → Polled (((λ (_ : Server W). o) >> send_one env buf) s)
      then_send (ok a t) (good, drained) = send_one-Polled buf t good drained
      then_send (err e t) good = good
      then_send panic good = tt

  -- When endpoint 1 gives no packet to a request of the host, so that the request is kept until
  -- the host sends something, no channel below the broadcast id waits for an answer of the user,
  -- provided that every waiting channel was attended to before.
  pub ep1_dev2host-not_waiting :
      (buf buf' : Bytes) (s s' : Server W)
      → IsAttentive s.parser
      → ep1_dev2host env buf s ≡ ok (false, buf') s'
      → (i : ℕ) (ch : Channel) → i < ctaphid_broadcast_cid
      → get_elem? s'.parser.channels i ≡ some ch
      → is_waiting ch.state ≡ false
  ep1_dev2host-not_waiting buf buf' s s' h run i ch fits e =
      elim (Bool-cases (is_waiting ch.state)) [
        | inr idle ↦ idle
        | inl waits ↦ nobody (ended.0.attended i ch fits e waits)
      ]
    where
      ended : IsAttentive s'.parser × (s'.parser.recv_queue ≡ []) × (s'.parser.send_queue ≡ [])
      ended = subst Polled run (ep1_dev2host-Polled buf s h)

      nobody : Attended s'.parser.send_queue s'.parser.recv_queue i → is_waiting ch.state ≡ false
      nobody (inl sends) = absurd (omega (arith, ap length ended.2))
      nobody (inr check) = absurd (rw ended.1 at check)

  -- A request for a packet keeps every waiting channel below the broadcast id attended to, by a
  -- queued reply or by a check packet to be read, whether it ends by a value or by an error.
  pub ep1_dev2host-IsAttentive :
      (buf : Bytes) (s : Server W) → IsAttentive s.parser → Ends Good (ep1_dev2host env buf s)
  ep1_dev2host-IsAttentive buf s h = weaken (ep1_dev2host env buf s) (ep1_dev2host-Polled buf s h)
    where
      weaken : (o : Outcome (Server W) (Bool × Bytes)) → Polled o → Ends Good o
      weaken (ok (true, b) t) x = x
      weaken (ok (false, b) t) x = x.0
      weaken (err e t) x = x
      weaken panic x = tt

-- A packet from the host is read before endpoint 1 answers: it forgets no waiting channel either.
pub ep2_host2dev-IsAttentive :
    {W : Type 0} (xs : Bytes) (s : Server W) → IsAttentive s.parser → Ends Good (ep2_host2dev xs s)
unfolding ep2_host2dev
ep2_host2dev-IsAttentive xs s h = record {
  numbered = h.numbered;
  attended = λ i ch fits e waits. still i (h.attended i ch fits e waits);
}
  where
    behind : (p : Bytes) (q : Queue) → In p q → In p (q ++ xs ∷ [])
    behind p [] h = elim h [ ]
    behind p (x ∷ q) (inl here) = inl here
    behind p (x ∷ q) (inr later) = inr (behind p q later)

    still :
        (i : ℕ)
        → Attended s.parser.send_queue s.parser.recv_queue i
        → Attended s.parser.send_queue (s.parser.recv_queue ++ xs ∷ []) i
    still i (inl sends) = inl sends
    still i (inr check) = inr (behind _ _ check)
