-- ===== src/Ctaphid/Parser/Attention.antt =====
-- The waiting channels of a parser that somebody attends to: a reply is still to be sent, or a
-- packet that makes the channel look at its consent again is still to be read.
use f2ido.Prelude.{
  ℕ, ◌+◌, ◌%◌, ◌^◌, ◌≤◌, ◌<◌, ◌≡◌, ◌≢◌, refl, sym, ap, ◌∙◌, ◌⊎◌, inl, inr, Bool, true, false,
  Option, none, some, List, [], ◌∷◌, ◌++◌, if◌then◌else◌, bit_or, arith, min, ◌==◌, Bool-cases,
  ==_iff, length, get_elem?, set, length-append, lt_of_get_elem?, get_elem?-set_self,
  get_elem?-set_ne, get_elem?-snoc,
}
use native.Mathlib.Decide.{ℕ_discrete}
use f2ido.Prelude.Bits.{from_le_bytes}
use f2ido.Outcome.{Outcome, ok, err, panic, abort}
use f2ido.Ctaphid.Types.{
  Bytes, Queue, init, Channel, is_waiting, ctaphid_init, ctaphid_broadcast_cid,
}
use f2ido.Ctaphid.Env.{Env}
use f2ido.Ctaphid.Context.{Context}
use f2ido.Ctaphid.Channel as Channel
use f2ido.Ctaphid.Channel.{packet_cid, packet_bcnt}
use f2ido.Ctaphid.Effects.Rules.{
  Ends, Peeks, Peeks-pure, Peeks-bind, Peeks-index, Peeks-slice, Peeks-assert,
}
use f2ido.Ctaphid.Effects.Packets.{Extends, parse-Extends}
use f2ido.Ctaphid.Parser.{
  Parser, Server, check_packet, put_back, channel_parse_at, channel_parse, route, send_packed,
  allocate_channel, init_cmd,
}

-- `p` stands in the queue.
abbrev pub In : Bytes → Queue → Type 0
In p [] = ⊥
In p (x ∷ q) = (p ≡ x) ⊎ In p q

-- Somebody will attend to the channel.
abbrev pub Attended : Queue → Queue → ℕ → Type 0
Attended send recv cid = (0 < length send) ⊎ In (check_packet cid) recv

-- Channels are numbered by their places, and every waiting one is attended. No packet
-- reaches a place from the broadcast id on, so nothing is said of those.
pub record IsAttentive (p : Parser) : Type 0 where
  pub numbered :
      (i : ℕ) (ch : Channel)
      → i < ctaphid_broadcast_cid
      → get_elem? p.channels i ≡ some ch
      → ch.cid ≡ i
  pub attended :
      (i : ℕ) (ch : Channel)
      → i < ctaphid_broadcast_cid
      → get_elem? p.channels i ≡ some ch
      → is_waiting ch.state ≡ true
      → Attended p.send_queue p.recv_queue i

-- The same, where channel `i` need not be attended.
pub record IsAttentiveBut (i : ℕ) (p : Parser) : Type 0 where
  pub numbered :
      (j : ℕ) (ch : Channel)
      → j < ctaphid_broadcast_cid
      → get_elem? p.channels j ≡ some ch
      → ch.cid ≡ j
  pub attended :
      (j : ℕ) (ch : Channel)
      → j < ctaphid_broadcast_cid
      → j ≢ i
      → get_elem? p.channels j ≡ some ch
      → is_waiting ch.state ≡ true
      → Attended p.send_queue p.recv_queue j

Peeks-bcnt : {S : Type 0} {Q : S → Type 0} (pkt : Bytes) → Peeks Q (packet_bcnt pkt)
unfolding packet_bcnt
Peeks-bcnt pkt = search (Peeks-pure, Peeks-bind, Peeks-index) depth 10

abbrev pub Good : {W : Type 0} → Server W → Type 0
Good s = IsAttentive s.parser

module _ {W : Type 0} (env : Env W) where
  -- The parser after a call on channel `i`.
  abbrev updated : Parser → ℕ → Context W → Parser
  updated p i c = record {
    send_queue = c.queue;
    recv_queue = p.recv_queue;
    channels = set p.channels i c.channel;
  }

  updated-IsAttentive :
      (p : Parser) (i : ℕ) (ch : Channel) (w : W) (c : Context W)
      → IsAttentiveBut i p
      → get_elem? p.channels i ≡ some ch
      → Extends (record { channel = ch; queue = p.send_queue; world = w }) c
      → IsAttentive (updated p i c)
  updated-IsAttentive p i ch w c h at x = record {
    numbered = λ j d fits e. elim (ℕ_discrete i j) [
      | yes same ↦
          ap (λ (a : Channel). a.cid) (sym (stored j d e same))
          ∙ x.same_cid
          ∙ h.numbered i ch (rw same fits) at
          ∙ same
      | no other ↦ h.numbered j d fits (sym (get_elem?-set_ne p.channels i j c.channel other) ∙ e)
    ];
    attended = λ j d fits e waits. elim (ℕ_discrete i j) [
      | yes same ↦ inl (
          omega (
            arith,
            x.waiting_sends (ap (λ (a : Channel). is_waiting a.state) (stored j d e same) ∙ waits),
          ))
      | no other ↦ still j (
          h.attended j d fits (λ r. other (sym r))
            (sym (get_elem?-set_ne p.channels i j c.channel other) ∙ e) waits)
    ];
  }
    where
      stored :
          (j : ℕ) (d : Channel)
          → get_elem? (set p.channels i c.channel) j ≡ some d
          → i ≡ j
          → c.channel ≡ d
      stored j d e same = cc (
        get_elem?-set_self p.channels i c.channel (lt_of_get_elem? p.channels i ch at),
        ap (get_elem? (set p.channels i c.channel)) same,
        e,
      )

      still : (n : ℕ) → Attended p.send_queue p.recv_queue n → Attended c.queue p.recv_queue n
      still n (inl sends) = inl (omega (arith, x.no_shorter))
      still n (inr check) = inr check

  channel_parse-Good :
      (i : ℕ) (pkt : Bytes) (s : Server W)
      → IsAttentiveBut i s.parser
      → Ends Good (channel_parse env i pkt s)
  unfolding channel_parse
  channel_parse-Good i pkt s h = found (get_elem? s.parser.channels i) refl
    where
      found :
          (o : Option Channel)
          → get_elem? s.parser.channels i ≡ o
          → Ends Good (channel_parse_at env i pkt s o)
      found none e = tt
      found (some ch) e = put (Channel.parse env pkt _) (parse-Extends env pkt _)
        where
          put :
              (o : Outcome (Context W) (Unit {0}))
              → Ends
                  (Extends (record { channel = ch; queue = s.parser.send_queue; world = s.world }))
                  o
              → Ends Good (put_back env i s o)
          put (ok a c) x = updated-IsAttentive s.parser i ch s.world c h e x
          put (err a c) x = updated-IsAttentive s.parser i ch s.world c h e x
          put panic x = tt

  -- A channel more, and packets in the send queue: all are attended.
  allocate-Good :
      (p p' : Parser)
      → IsAttentiveBut ctaphid_broadcast_cid p
      → p'.channels ≡ p.channels ++ record { cid = length p.channels % 2 ^ 32; state = init } ∷ []
      → p'.recv_queue ≡ p.recv_queue
      → length p.send_queue ≤ length p'.send_queue
      → IsAttentive p'
  allocate-Good p p' h new recv send = record {
    numbered = λ j d fits e. numbered j d fits (get_elem?-snoc p.channels _ d j (rw new at e));
    attended =
        λ j d fits e waits. attended j d fits waits (get_elem?-snoc p.channels _ d j (rw new at e));
  }
    where
      fresh : Channel
      fresh = record { cid = length p.channels % 2 ^ 32; state = init }

      numbered :
          (j : ℕ) (d : Channel)
          → j < ctaphid_broadcast_cid
          → (get_elem? p.channels j ≡ some d) ⊎ ((j ≡ length p.channels) × (fresh ≡ d))
          → d.cid ≡ j
      numbered j d fits (inl old) = h.numbered j d fits old
      numbered j d fits (inr (last, same)) = ap (λ (a : Channel). a.cid) (sym same) ∙ omega arith

      still :
          (j : ℕ) → Attended p.send_queue p.recv_queue j → Attended p'.send_queue p'.recv_queue j
      still j (inl sends) = inl (omega arith)
      still j (inr check) = inr (rw recv check)

      attended :
          (j : ℕ) (d : Channel)
          → j < ctaphid_broadcast_cid
          → is_waiting d.state ≡ true
          → (get_elem? p.channels j ≡ some d) ⊎ ((j ≡ length p.channels) × (fresh ≡ d))
          → Attended p'.send_queue p'.recv_queue j
      attended j d fits waits (inl old) = still j (h.attended j d fits (omega arith) old waits)
      attended j d fits waits (inr (last, same)) =
          cc (waits, ap (λ (a : Channel). is_waiting a.state) same)

  abbrev one_more : Server W → List Channel
  one_more s =
      s.parser.channels ++ record { cid = length s.parser.channels % 2 ^ 32; state = init } ∷ []

  init_cmd-Good :
      (pkt : Bytes) (s : Server W)
      → IsAttentiveBut ctaphid_broadcast_cid s.parser
      → Ends Good (init_cmd env pkt s)
  unfolding init_cmd allocate_channel
  init_cmd-Good pkt s h = (Peeks-bcnt pkt).at s _ (λ bcnt.
      (Peeks-slice Good 7 (min (length pkt) (7 + bcnt)) pkt).at s _ (λ message.
        (Peeks-assert Good (length message == 8)).at s _ (λ _. allocated (from_le_bytes message))))
    where
      allocated : (nonce : ℕ) → Ends Good (allocate_channel env nonce s)
      allocated nonce = packed (env.pack _)
        where
          packed : (o : Option Bytes) → Ends Good (send_packed env s (one_more s) o)
          packed none = allocate-Good s.parser _ h refl refl (omega arith)
          packed (some response) =
              allocate-Good s.parser _ h refl refl
                (omega (arith, length-append s.parser.send_queue (response ∷ [])))

  pub route-Good :
      (cid cmd : ℕ) (pkt : Bytes) (s : Server W)
      → IsAttentiveBut cid s.parser
      → Ends Good (route env cid cmd pkt s)
  unfolding route
  route-Good cid cmd pkt s h = elim (Bool-cases (cid == ctaphid_broadcast_cid)) [
    | inl broadcast ↦ rw broadcast (
        initial (cmd == bit_or ctaphid_init 0x80)
          (rw ((==_iff cid ctaphid_broadcast_cid).0 broadcast) at h))
    | inr channel ↦ rw channel (channel_parse-Good cid pkt s h)
  ]
    where
      initial :
          (b : Bool)
          → IsAttentiveBut ctaphid_broadcast_cid s.parser
          → Ends Good ((if b then init_cmd env pkt else abort) s)
      initial true k = init_cmd-Good pkt s k
      initial false k = tt
