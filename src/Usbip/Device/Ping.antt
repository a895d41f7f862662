-- ===== src/Usbip/Device/Ping.antt =====
-- A PING through the endpoints of src/usbip.rs: the packets that came in on endpoint 2, and the
-- request for the answer on endpoint 1.
use f2ido.Prelude.{
  ℕ, ◌-◌, zero, suc, Bool, false, All, append_assoc, append-nil, ◌+◌, ◌<◌, ◌≤◌, ◌≡◌, refl, ap, ap₂,
  sym, ◌∙◌, arith, true, false, some, List, [], ◌∷◌, ◌++◌, map, length, drop, replicate, get_elem?,
  set_self, drop-replicate, length-append, length-replicate, length-take,
}
use f2ido.Outcome.{M, ok, pure, ◌>>=◌, returns}
use f2ido.Ctaphid.Types.{
  Bytes, Queue, Channel, is_waiting, init, ctaphid_broadcast_cid, ctaphid_ping,
}
use f2ido.Ctaphid.Env.{Env}
use f2ido.Ctaphid.Reply.Frames.{frames, first_frame, later_frames, max_reply}
use f2ido.Ctaphid.Reply.Bounds.{frames-AreFrames}
use f2ido.Ctaphid.Channel.Reassembly.{report}
use f2ido.Ctaphid.Channel.Echo.{feed_ping}
use f2ido.Ctaphid.Parser.{Server}
use f2ido.Ctaphid.Parser.Feeding.{served, drain-feed, frames-Addressed}
use f2ido.Ctaphid.Parser.Unparse.{checked, unparse-ok}
use f2ido.Usbip.Device.{drain, send_one, ep1_dev2host, ep2_host2dev}

pub length-first_frame : (cid cmd : ℕ) (payload : Bytes) → length (first_frame cid cmd payload) ≤ 64
unfolding first_frame
length-first_frame cid cmd payload = omega (arith, length-take 57 payload)

pub length-report : (r : Bytes) → length r ≤ 64 → length (report r) ≡ 64
unfolding report
length-report r h = omega (
  arith,
  length-append r (replicate (64 - length r) 0),
  length-replicate {A = ℕ} (64 - length r) 0,
)

-- The buffer of zeros, with a packet over its front.
over_zeros : (r : Bytes) → length r ≤ 64 → r ++ drop (length r) (replicate 64 0) ≡ report r
unfolding report
over_zeros r h = ap (λ z. r ++ z) (drop-replicate (length r) 64 0)

module _ {W : Type 0} (env : Env W) (cid : ℕ) (fits : cid < ctaphid_broadcast_cid)
    (chs : List Channel) (w : W)
    (found : get_elem? chs cid ≡ some (record { cid = cid; state = init })) where
  drain_ping :
      (payload : Bytes)
      → length payload ≤ max_reply
      → let ps = map report (frames cid ctaphid_ping payload) in
        drain env (length ps) (served [] ps chs w)
        ≡ ok tt (served (frames cid ctaphid_ping payload) [] chs w)
  drain_ping payload short =
      drain-feed env cid fits (map report (frames cid ctaphid_ping payload)) [] chs
        (record { cid = cid; state = init }) w _ (frames-Addressed cid ctaphid_ping payload) found
        (feed_ping env cid [] w payload (omega arith) short)
      ∙ ap (λ x. ok tt (served (frames cid ctaphid_ping payload) [] x w)) (set_self chs cid _ found)

  pub ep1_dev2host-ping :
      (payload : Bytes)
      → length payload ≤ max_reply
      → ep1_dev2host env
          (replicate 64 0)
          (served [] (map report (frames cid ctaphid_ping payload)) chs w)
        ≡ ok
            (true, report (first_frame cid (ctaphid_ping + 128) payload))
            (served (later_frames cid payload) (checked chs []) chs w)
  unfolding ep1_dev2host frames
  ep1_dev2host-ping payload short =
      returns (λ u. send_one env (replicate 64 0)) (drain_ping payload short)
        (returns (λ buf. pure (true, buf))
          (unparse-ok (replicate 64 0) first (later_frames cid payload)
              (served (frames cid ctaphid_ping payload) [] chs w) refl refl
              (length-first_frame cid (ctaphid_ping + 128) payload)
            ∙ ap (λ r. ok r (served (later_frames cid payload) (checked chs []) chs w))
                (over_zeros first (length-first_frame cid (ctaphid_ping + 128) payload)))
          refl)
    where
      first : Bytes
      first = first_frame cid (ctaphid_ping + 128) payload

module _ {W : Type 0} where
  -- Packets that come in on endpoint 2, one after the other.
  abbrev pub sends : List Bytes → M (Server W) (Unit {0})
  sends [] = pure tt
  sends (p ∷ ps) = ep2_host2dev p >>= λ b. sends ps

module _ {W : Type 0} (env : Env W) where
  abbrev with_packet : Bool × Bytes → List Bytes → List Bytes
  with_packet (true, buf) rest = buf ∷ rest
  with_packet (false, buf) rest = rest

  -- The packets that so many requests on endpoint 1 get.
  abbrev pub reads : ℕ → M (Server W) (List Bytes)
  reads zero = pure []
  reads (suc n) = do
    r ← ep1_dev2host env (replicate 64 0)
    rest ← reads n
    pure (with_packet r rest)

  module _ (chs : List Channel) (w : W) where
    sends-served :
        (ps q send : List Bytes)
        → sends ps (served send q chs w) ≡ ok tt (served send (q ++ ps) chs w)
    unfolding ep2_host2dev
    sends-served [] q send = ap (λ x. ok tt (served send x chs w)) (sym (append-nil q))
    sends-served (p ∷ ps) q send =
        sends-served ps (q ++ p ∷ []) send
        ∙ ap (λ x. ok tt (served send x chs w)) (append_assoc q (p ∷ []) ps)

    pub checked_idle :
        (l : List Channel) (q : Queue) → All (λ ch. is_waiting ch.state ≡ false) l → checked l q ≡ q
    unfolding checked
    checked_idle [] q all = refl
    checked_idle (ch ∷ l) q all = rw all.0 (checked_idle l q all.1)

    module _ (idle : All (λ ch. is_waiting ch.state ≡ false) chs) where
      ep1_dev2host-front :
          (r : Bytes) (q : Queue)
          → length r ≤ 64
          → ep1_dev2host env (replicate 64 0) (served (r ∷ q) [] chs w)
            ≡ ok (true, report r) (served q [] chs w)
      unfolding ep1_dev2host
      ep1_dev2host-front r q h =
          returns (λ buf. pure (true, buf))
            (unparse-ok (replicate 64 0) r q (served (r ∷ q) [] chs w) refl refl h)
            (ap₂ (λ (x : Bytes) (y : Queue). ok (true, x) (served q y chs w)) (over_zeros r h)
              (checked_idle chs [] idle))

      reads-queue :
          (q : Queue)
          → All (λ r. length r ≤ 64) q
          → reads (length (map report q)) (served q [] chs w)
            ≡ ok (map report q) (served [] [] chs w)
      reads-queue [] h = refl
      reads-queue (r ∷ q) h =
          returns _ (ep1_dev2host-front r q h.0) (returns _ (reads-queue q h.1) refl)

-- A PING of at most 7550 bytes, sent packet by packet to endpoint 2 of a device with nothing
-- queued and no channel that waits, comes back packet by packet on endpoint 1, and the device is
-- as before.
pub ping_comes_back :
    {W : Type 0} (env : Env W) (cid : ℕ) (chs : List Channel) (w : W) (payload : Bytes)
    → cid < ctaphid_broadcast_cid
    → get_elem? chs cid ≡ some (record { cid = cid; state = init })
    → All (λ ch. is_waiting ch.state ≡ false) chs
    → length payload ≤ max_reply
    → let packets = map report (frames cid ctaphid_ping payload) in
      (sends packets >>= λ u. reads env (length packets)) (served [] [] chs w)
      ≡ ok packets (served [] [] chs w)
unfolding frames
ping_comes_back env cid chs w payload fits found idle short =
    returns (λ u. reads env (length packets)) (sends-served env chs w packets [] [])
      (returns _ (ep1_dev2host-ping env cid fits chs w found payload short) (
        returns _
          (ap
              (λ q.
                reads env (length (map report (later_frames cid payload)))
                  (served (later_frames cid payload) q chs w))
              (checked_idle env chs w chs [] idle)
            ∙ reads-queue env chs w idle (later_frames cid payload)
                (frames-AreFrames cid (ctaphid_ping + 128) payload).1)
          refl))
  where
    packets : List Bytes
    packets = map report (frames cid ctaphid_ping payload)
