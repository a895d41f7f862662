-- ===== src/Ctaphid/Parser/Feeding.antt =====
-- Packets that `Parser::parse` of src/ctaphid.rs gives to one channel after the other.
use f2ido.Prelude.{
  ℕ, ◌≡◌, ◌<◌, ◌≤◌, refl, ap, ◌∙◌, sym, subst, false, true, ◌==◌, ◌+◌, arith, some, List, [], ◌∷◌,
  ◌++◌, ◌-◌, map, replicate, length-append, length-replicate, leb, length, get_elem?, set, All,
  set_self, set-set, get_elem?-set_self, lt_of_get_elem?,
}
use f2ido.Prelude.Bits.{u32_to_le_bytes, u32_from_to_le}
use f2ido.Outcome.{
  Outcome, ok, err, panic, M, Error, raises, ◌>>=◌, index, returns, asserted, chosen_else,
}
use f2ido.Ctaphid.Types.{Bytes, Queue, Channel, ctaphid_broadcast_cid}
use f2ido.Ctaphid.Env.{Env}
use f2ido.Ctaphid.Context.{Context}
use f2ido.Ctaphid.Channel as Channel
use f2ido.Ctaphid.Channel.{packet_cid}
use f2ido.Ctaphid.Reply.Frames.{frames, cont_frames}
use f2ido.Ctaphid.Channel.Reassembly.{feed, report}
use f2ido.Usbip.Device.{drain}
use f2ido.Ctaphid.Parser.{
  Server, put_back, channel_parse_at, parse_packet, route, channel_parse, parse,
}

-- A packet for the channel `cid`, of seven bytes at least.
abbrev pub Addressed : ℕ → Bytes → Type 0
Addressed cid p =
    (cmd hi lo : ℕ) × (rest : Bytes) × (p ≡ u32_to_le_bytes cid ++ cmd ∷ hi ∷ lo ∷ rest)

module _ {W : Type 0} where
  abbrev pub served : Queue → Queue → List Channel → W → Server W
  served send recv channels w = record {
    parser = record { send_queue = send; recv_queue = recv; channels = channels };
    world = w;
  }

long-Addressed : (cid : ℕ) (xs : Bytes) → 3 ≤ length xs → Addressed cid (u32_to_le_bytes cid ++ xs)
long-Addressed cid [] h = absurd (omega arith)
long-Addressed cid (a ∷ []) h = absurd (omega arith)
long-Addressed cid (a ∷ b ∷ []) h = absurd (omega arith)
long-Addressed cid (a ∷ b ∷ c ∷ rest) h = (a, b, c, rest, refl)

report-Addressed : (cid : ℕ) (xs : Bytes) → Addressed cid (report (u32_to_le_bytes cid ++ xs))
unfolding report
report-Addressed cid xs =
    long-Addressed cid (xs ++ replicate (64 - length (u32_to_le_bytes cid ++ xs)) 0) (
      omega (
        arith,
        length-append xs (replicate (64 - length (u32_to_le_bytes cid ++ xs)) 0),
        length-replicate {A = ℕ} (64 - length (u32_to_le_bytes cid ++ xs)) 0,
      ))

cont_frames-Addressed :
    (cid i : ℕ) (cs : List Bytes) → All (Addressed cid) (map report (cont_frames cid i cs))
unfolding cont_frames
cont_frames-Addressed cid i [] = tt
cont_frames-Addressed cid i (c ∷ cs) =
    (report-Addressed cid (i ∷ c), cont_frames-Addressed cid (i + 1) cs)

-- The packets of a message are for its channel.
pub frames-Addressed :
    (cid cmd : ℕ) (payload : Bytes) → All (Addressed cid) (map report (frames cid cmd payload))
unfolding frames
frames-Addressed cid cmd payload = (report-Addressed cid _, cont_frames-Addressed cid 0 _)

module _ {W : Type 0} (env : Env W) (cid : ℕ) (fits : cid < ctaphid_broadcast_cid) where
  -- The id is not the broadcast id.
  own_id : (cid == ctaphid_broadcast_cid) ≡ false
  own_id = ground arith

  long_enough :
      (cmd hi lo : ℕ) (rest : Bytes)
      → leb 7 (length (u32_to_le_bytes cid ++ cmd ∷ hi ∷ lo ∷ rest)) ≡ true
  long_enough cmd hi lo rest = ground arith

  packet_cid_addressed :
      (cmd hi lo : ℕ) (rest : Bytes) (s : Server W)
      → packet_cid (u32_to_le_bytes cid ++ cmd ∷ hi ∷ lo ∷ rest) s ≡ ok cid s
  unfolding packet_cid
  packet_cid_addressed cmd hi lo rest s = ap (λ n. ok n s) (u32_from_to_le cid (omega arith))

  route_addressed :
      (cmd : ℕ) (p : Bytes) (s : Server W) (ch : Channel)
      → get_elem? s.parser.channels cid ≡ some ch
      → route env cid cmd p s
        ≡ put_back env cid s (
            Channel.parse env p
              (record { channel = ch; queue = s.parser.send_queue; world = s.world }))
  unfolding route channel_parse
  route_addressed cmd p s ch found =
      chosen_else _ (channel_parse env cid p) own_id (ap (channel_parse_at env cid p s) found)

  parse_packet_addressed :
      (cmd hi lo : ℕ) (tl : Bytes) (s : Server W) (ch : Channel)
      → get_elem? s.parser.channels cid ≡ some ch
      → let p = u32_to_le_bytes cid ++ cmd ∷ hi ∷ lo ∷ tl in
        parse_packet env p s
        ≡ put_back env cid s (
            Channel.parse env p
              (record { channel = ch; queue = s.parser.send_queue; world = s.world }))
  unfolding parse_packet
  parse_packet_addressed cmd hi lo tl s ch found =
      let p = u32_to_le_bytes cid ++ cmd ∷ hi ∷ lo ∷ tl in
      returns (λ u. packet_cid p >>= λ c. index p 4 >>= λ k. route env c k p)
        (asserted s (long_enough cmd hi lo tl))
        (returns (λ c. index p 4 >>= λ k. route env c k p) (packet_cid_addressed cmd hi lo tl s)
          (route_addressed cmd p s ch found))

  parse-Addressed :
      (p : Bytes) (send rest : Queue) (chs : List Channel) (ch : Channel) (w : W)
      → Addressed cid p
      → get_elem? chs cid ≡ some ch
      → parse env (served send (p ∷ rest) chs w)
        ≡ put_back env cid
            (served send rest chs w)
            (Channel.parse env p (record { channel = ch; queue = send; world = w }))
  unfolding parse
  parse-Addressed p send rest chs ch w (cmd, hi, lo, tl, e) found =
      subst
        (λ p.
          parse_packet env p (served send rest chs w)
          ≡ put_back env cid (served send rest chs w)
              (Channel.parse env p (record { channel = ch; queue = send; world = w })))
        (sym e) (parse_packet_addressed cmd hi lo tl (served send rest chs w) ch found)

  err_is_not_ok :
      {x : Error} {c1 c : Context W}
      → ◌≡◌ {A = Outcome (Context W) (Unit {0})} (err x c1) (ok tt c)
      → ⊥
  err_is_not_ok e = cc

  panic_is_not_ok : {c : Context W} → ◌≡◌ {A = Outcome (Context W) (Unit {0})} panic (ok tt c) → ⊥
  panic_is_not_ok e = cc

  panics :
      (f : Unit {0} → M (Context W) (Unit {0})) {o : Outcome (Context W) (Unit {0})}
      → o ≡ panic
      → ◌≡◌ {A = Outcome (Context W) (Unit {0})}
          (elim o [ ok a s' ↦ f a s' | err e' s' ↦ err e' s' | panic ↦ panic ])
          panic
  panics f e = rw e refl

  -- The loop of endpoint 1 over packets for one channel does what the channel does on them.
  pub drain-feed :
      (ps : List Bytes) (send : Queue) (chs : List Channel) (ch : Channel) (w : W) (c : Context W)
      → All (Addressed cid) ps
      → get_elem? chs cid ≡ some ch
      → feed env ps (record { channel = ch; queue = send; world = w }) ≡ ok tt c
      → drain env (length ps) (served send ps chs w)
        ≡ ok tt (served c.queue [] (set chs cid c.channel) c.world)
  unfolding drain feed
  drain-feed [] send chs ch w c all found fed =
      ap (λ x. ok tt (served send [] x w)) (sym (set_self chs cid ch found))
      ∙ ap (put_back env cid (served send [] chs w)) fed
  drain-feed (p ∷ ps) send chs ch w c all found fed =
      step
        (λ c1 fed'.
          drain-feed ps c1.queue (set chs cid c1.channel) c1.channel c1.world c all.1
            (get_elem?-set_self chs cid c1.channel (lt_of_get_elem? chs cid ch found)) fed')
        (Channel.parse env p (record { channel = ch; queue = send; world = w })) refl
    where
      step :
          ((c1 : Context W)
            → feed env ps c1 ≡ ok tt c
            → drain env (length ps) (served c1.queue ps (set chs cid c1.channel) c1.world)
              ≡ ok tt (served c.queue [] (set (set chs cid c1.channel) cid c.channel) c.world))
          → (o : Outcome (Context W) (Unit {0}))
          → Channel.parse env p (record { channel = ch; queue = send; world = w }) ≡ o
          → drain env (length (p ∷ ps)) (served send (p ∷ ps) chs w)
            ≡ ok tt (served c.queue [] (set chs cid c.channel) c.world)
      step rest (ok a c1) e =
          returns (λ u. drain env (length ps))
            (parse-Addressed p send ps chs ch w all.0 found
              ∙ ap (put_back env cid (served send ps chs w)) e)
            (rest c1 (sym (returns (λ u. feed env ps) e refl) ∙ fed)
              ∙ ap (λ x. ok tt (served c.queue [] x c.world))
                  (set-set chs cid c1.channel c.channel))
      step rest (err x c1) e = absurd (err_is_not_ok (sym (raises (λ u. feed env ps) e) ∙ fed))
      step rest panic e = absurd (panic_is_not_ok (sym (panics (λ u. feed env ps) e) ∙ fed))
