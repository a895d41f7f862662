-- ===== src/Ctaphid/Channel/Reassembly.antt =====
-- A message that comes to a channel of src/ctaphid.rs packet by packet.
use f2ido.Prelude.{
  ℕ, zero, suc, ◌+◌, ◌-◌, ◌*◌, ◌^◌, ◌≤◌, ◌<◌, ◌≡◌, refl, ◌∙◌, List, [], ◌∷◌, ◌++◌, map, drop_all,
  arith, append_assoc, append-nil, length, take, drop, replicate, length-append, length-take,
  length-drop, length-replicate, take-append-drop, take-append, take_all,
}
use f2ido.Prelude.Bits.{u32_to_le_bytes, u16_to_be_bytes, u32_from_to_le, clear_top_bit}
use f2ido.Outcome.{M, Outcome, ok, err, panic, pure, ◌>>=◌, ◌>>◌}
use f2ido.Ctaphid.Types.{Bytes, Queue, State, init, cont}
use f2ido.Ctaphid.Env.{Env}
use f2ido.Ctaphid.Context.{Context}
use f2ido.Ctaphid.Reply.{chunks_fuel}
use f2ido.Ctaphid.Reply.Frames.{cont_frames, frames, max_reply}
use native.Mathlib.Decide.{dec_le}
use f2ido.Ctaphid.Channel.{process_message, init_state, finish_message, cont_packet, parse}

-- A packet as it comes through the 64-byte endpoint, filled up with zeros.
unfoldable pub report : Bytes → Bytes
report p = p ++ replicate (64 - length p) 0

report_full : (p : Bytes) → length p ≡ 64 → report p ≡ p
unfolding report
report_full p h = rw (h, append-nil)

module _ {W : Type 0} (env : Env W) where
  -- The packets, one after the other.
  unfoldable pub feed : List Bytes → M (Context W) (Unit {0})
  feed [] = pure tt
  feed (p ∷ ps) = parse env p >> feed ps

  module _ (cid : ℕ) (cid_fits : cid < 2 ^ 32) (q : Queue) (w : W) where
    abbrev at_state : State → Context W
    at_state s = record { channel = record { cid = cid; state = s }; queue = q; world = w }

    cont_more :
        (cmd bcnt i : ℕ) (buffer c : Bytes)
        → i < 127
        → length buffer ≡ 57 + i * 59
        → 57 + (i + 1) * 59 < bcnt
        → 0 < length c
        → parse env (u32_to_le_bytes cid ++ i ∷ c) (at_state (cont cmd bcnt buffer i))
          ≡ ok tt (at_state (cont cmd bcnt (buffer ++ c) (i + 1)))
    unfolding parse cont_packet
    cont_more cmd bcnt i buffer c hi hb hm hc = ground (arith, u32_from_to_le cid cid_fits)

    finish_message_lem :
        (cmd bcnt : ℕ) (state : State) (buffer c pkt : Bytes)
        → length buffer ≤ bcnt
        → 5 + (bcnt - length buffer) ≤ length pkt
        → take (5 + (bcnt - length buffer) - 5) (drop 5 pkt) ≡ c
        → length (buffer ++ c) ≡ bcnt
        → finish_message env cmd bcnt buffer pkt (at_state state)
          ≡ process_message env cmd (buffer ++ c) (at_state init)
    unfolding finish_message
    finish_message_lem cmd bcnt state buffer c pkt hm ht hc he = ground arith

    cont_finishes :
        (cmd bcnt i : ℕ) (buffer tail : Bytes)
        → i ≤ 127
        → length buffer ≡ 57 + i * 59
        → bcnt ≤ 57 + (i + 1) * 59
        → 0 < length tail
        → parse env (u32_to_le_bytes cid ++ i ∷ tail) (at_state (cont cmd bcnt buffer i))
          ≡ finish_message env cmd bcnt buffer
              (u32_to_le_bytes cid ++ i ∷ tail)
              (at_state (cont cmd bcnt buffer i))
    unfolding parse cont_packet
    cont_finishes cmd bcnt i buffer tail hi hb hm ht = ground (arith, u32_from_to_le cid cid_fits)

    cont_last :
        (cmd bcnt i : ℕ) (buffer c junk : Bytes)
        → i ≤ 127
        → length buffer ≡ 57 + i * 59
        → bcnt ≤ 57 + (i + 1) * 59
        → bcnt ≡ length buffer + length c
        → 0 < length c
        → parse env (u32_to_le_bytes cid ++ i ∷ c ++ junk) (at_state (cont cmd bcnt buffer i))
          ≡ process_message env cmd (buffer ++ c) (at_state init)
    cont_last cmd bcnt i buffer c junk hi hb hm hl hc =
        cont_finishes cmd bcnt i buffer (c ++ junk) hi hb hm (omega (arith, length-append c junk))
        ∙ finish_message_lem cmd bcnt _ buffer c (u32_to_le_bytes cid ++ i ∷ c ++ junk)
            (omega arith) (omega (arith, length-append c junk)) (rw same (take-append c junk))
            (omega (arith, length-append buffer c))
      where
        same : 5 + (bcnt - length buffer) - 5 ≡ length c
        same = omega arith

    init_whole_tail :
        (cmd bcnt : ℕ) (payload tail : Bytes)
        → cmd < 128
        → bcnt < 2 ^ 16
        → bcnt ≤ length tail
        → 1 ≤ length tail
        → take (7 + bcnt - 7) tail ≡ payload
        → length payload ≡ bcnt
        → parse env
            (u32_to_le_bytes cid ++ (cmd + 128) ∷ u16_to_be_bytes bcnt ++ tail)
            (at_state init)
          ≡ process_message env cmd payload (at_state init)
    unfolding parse init_state
    init_whole_tail cmd bcnt payload tail hc hb hl hj ht he =
        ground (arith, u32_from_to_le cid cid_fits, clear_top_bit (cmd + 128))

    init_whole :
        (cmd : ℕ) (payload junk : Bytes)
        → cmd < 128
        → length payload < 2 ^ 16
        → 1 ≤ length payload + length junk
        → parse env
            (u32_to_le_bytes cid
              ++ (cmd + 128) ∷ u16_to_be_bytes (length payload)
              ++ payload
              ++ junk)
            (at_state init)
          ≡ process_message env cmd payload (at_state init)
    init_whole cmd payload junk hc hl hj =
        init_whole_tail cmd (length payload) payload (payload ++ junk) hc hl
          (omega (arith, length-append payload junk)) (omega (arith, length-append payload junk))
          (rw same (take-append payload junk)) refl
      where
        same : 7 + length payload - 7 ≡ length payload
        same = omega arith

    init_part :
        (cmd bcnt : ℕ) (payload : Bytes)
        → cmd < 128
        → bcnt < 2 ^ 16
        → length payload < bcnt
        → 1 ≤ length payload
        → parse env
            (u32_to_le_bytes cid ++ (cmd + 128) ∷ u16_to_be_bytes bcnt ++ payload)
            (at_state init)
          ≡ ok tt (at_state (cont cmd bcnt payload 0))
    unfolding parse init_state
    init_part cmd bcnt payload hc hb hl hp = ground (
      arith,
      u32_from_to_le cid cid_fits,
      clear_top_bit (cmd + 128),
      take_all (length payload) payload (omega arith),
    )

    then_pure :
        (o : Outcome (Context W) (Unit {0}))
        → elim o as (λ _. Outcome (Context W) (Unit {0})) [
          | ok a s ↦ ok tt s
          | err e s ↦ err e s
          | panic ↦ panic
        ]
          ≡ o
    then_pure (ok a s) = refl
    then_pure (err e s) = refl
    then_pure panic = refl

    feed_one : (p : Bytes) (s : Context W) → feed (p ∷ []) s ≡ parse env p s
    unfolding feed
    feed_one p s = then_pure (parse env p s)

    feed_step :
        (p : Bytes) (ps : List Bytes) (s s' : Context W)
        → parse env p s ≡ ok tt s'
        → feed (p ∷ ps) s ≡ feed ps s'
    unfolding feed
    feed_step p ps s s' h = rw (h, ◌>>◌, ◌>>=◌)

    abbrev head_frame : ℕ → Bytes → Bytes
    head_frame i xs = u32_to_le_bytes cid ++ i ∷ take 59 xs

    -- The continuation packets of `rest`, behind a buffer that is full up to packet `i`.
    feed-cont_frames :
        (fuel cmd bcnt i : ℕ) (buffer rest : Bytes)
        → length rest ≤ fuel
        → 0 < length rest
        → i * 59 + length rest ≤ 127 * 59
        → length buffer ≡ 57 + i * 59
        → bcnt ≡ length buffer + length rest
        → feed
            (map report (cont_frames cid i (chunks_fuel fuel 59 rest)))
            (at_state (cont cmd bcnt buffer i))
          ≡ process_message env cmd (buffer ++ rest) (at_state init)
    unfolding chunks_fuel cont_frames report
    feed-cont_frames fuel cmd bcnt i buffer [] hf hr hi hb hl = absurd (omega arith)
    feed-cont_frames zero cmd bcnt i buffer (x ∷ xs) hf hr hi hb hl = absurd (omega arith)
    feed-cont_frames (suc fuel) cmd bcnt i buffer (x ∷ xs) hf hr hi hb hl =
        elim (dec_le (length (x ∷ xs)) 59) [
          | yes last ↦
              rw (take_all 58 xs (omega arith), drop_all 58 xs (omega arith))
                (feed_one (report frame) (at_state (cont cmd bcnt buffer i))
                  ∙ cont_last cmd bcnt i buffer (x ∷ xs) (replicate (64 - length frame) 0)
                      (omega arith) hb (omega arith) hl hr)
          | no more ↦ rw (report_full (head_frame i (x ∷ xs)) (omega (arith, length-take 58 xs))) (
              feed_step _ _ _ _ (
                cont_more cmd bcnt i buffer (take 59 (x ∷ xs)) (omega arith) hb (omega arith)
                  (omega arith))
              ∙ feed-cont_frames fuel cmd bcnt (i + 1) (buffer ++ take 59 (x ∷ xs)) (drop 58 xs)
                  (omega (arith, length-drop 58 xs)) (omega (arith, length-drop 58 xs))
                  (omega (arith, length-drop 58 xs))
                  (omega (arith, length-append buffer (take 59 (x ∷ xs)), length-take 58 xs))
                  (omega (
                    arith,
                    length-append buffer (take 59 (x ∷ xs)),
                    length-take 58 xs,
                    length-drop 58 xs,
                  ))
              ∙ rw (append_assoc, take-append-drop 58 xs))
        ]
      where
        frame : Bytes
        frame = u32_to_le_bytes cid ++ i ∷ x ∷ xs

    -- For a message of at most 7550 bytes, the packets that send_reply would cut it into, each
    -- filled up with zeros to 64 bytes and parsed one after the other by an idle channel with the
    -- id that they carry, do what process_message does on the whole message.
    pub feed-frames :
        (cmd : ℕ) (payload : Bytes)
        → cmd < 128
        → length payload ≤ max_reply
        → feed (map report (frames cid cmd payload)) (at_state init)
          ≡ process_message env cmd payload (at_state init)
    unfolding frames chunks_fuel cont_frames report
    feed-frames cmd payload hc hl = elim (dec_le (length payload) 57) [
      | yes short ↦
          rw (take_all 57 payload short, drop_all 57 payload short)
            (feed_one (report (header ++ payload)) (at_state init)
              ∙ init_whole cmd payload (replicate (64 - length (header ++ payload)) 0) hc
                  (omega arith)
                  (omega (arith, length-replicate {A = ℕ} (64 - length (header ++ payload)) 0)))
      | no long ↦
          rw (report_full (header ++ take 57 payload) (omega (arith, length-take 57 payload))) (
            feed_step _ _ _ _ (
              init_part cmd (length payload) (take 57 payload) hc (omega arith)
                (omega (arith, length-take 57 payload)) (omega (arith, length-take 57 payload)))
            ∙ feed-cont_frames (length (drop 57 payload)) cmd (length payload) 0 (take 57 payload)
                (drop 57 payload) (omega arith) (omega (arith, length-drop 57 payload))
                (omega (arith, length-drop 57 payload)) (omega (arith, length-take 57 payload))
                (omega (arith, length-take 57 payload, length-drop 57 payload))
            ∙ rw (take-append-drop 57 payload))
    ]
      where
        header : Bytes
        header = u32_to_le_bytes cid ++ (cmd + 128) ∷ u16_to_be_bytes (length payload)
