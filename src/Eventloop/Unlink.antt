-- ===== src/Eventloop/Unlink.antt =====
-- `handle_unlink` of src/eventloop.rs: which requests it drops, which it keeps, and its reply.
use f2ido.Prelude.{
  ℕ, ◌≡◌, refl, inl, inr, Bool, true, false, ◌||◌, List, [], ◌∷◌, ◌==◌, ==_iff, Bool-cases,
  if◌then◌else◌,
}
use f2ido.Prelude.Text.{ℤ}
use f2ido.Outcome.{Outcome, ok, err, panic}
use f2ido.Usbip.Stream.{Header, ret_unlink, header, Chunk, Stream}
use f2ido.Usbip.Stream.Writes.{Oks, Sends, write_all-Sends}
use f2ido.Usbip.Wire.{usbip_ret_unlink, reply_to, unlink_seqnum, write_unlink_reply}
use f2ido.Eventloop.{
  EventLoop, Session, Errno, any, has_seqnum, retain_others, negated, handle_unlink, on_stream,
}
use f2ido.Ctaphid.Effects.Rules.{Ends}

retain_others_drops : (n : ℕ) (hs : List Header) → any (has_seqnum n) (retain_others n hs) ≡ false
unfolding any retain_others
retain_others_drops n [] = refl
retain_others_drops n (h ∷ hs) = elim (Bool-cases (h.seqnum == n)) [
  | inl named ↦ rw named (retain_others_drops n hs)
  | inr other ↦ rw other (rw other (retain_others_drops n hs))
]

retain_others_keeps :
    (p : Header → Bool) (n : ℕ) (hs : List Header)
    → ((h : Header) → h.seqnum ≡ n → p h ≡ false)
    → any p (retain_others n hs) ≡ any p hs
unfolding any retain_others
retain_others_keeps p n [] not_named = refl
retain_others_keeps p n (h ∷ hs) not_named = elim (Bool-cases (h.seqnum == n)) [
  | inl named ↦
      rw (named, not_named h ((==_iff h.seqnum n).0 named)) (retain_others_keeps p n hs not_named)
  | inr other ↦ rw other (rw (retain_others_keeps p n hs not_named))
]

-- No request with number `n` is left, and whatever holds of none of these requests still holds of
-- one of the others if it did.
pub record Unlinked {D H T : Type 0} (n : ℕ) (s s' : Session D H T) : Type 0 where
  pub blocked_gone : any (has_seqnum n) s'.loop.blocked ≡ false
  pub unblocked_gone : any (has_seqnum n) s'.loop.unblocked ≡ false
  pub blocked_kept :
      (p : Header → Bool)
      → ((h : Header) → h.seqnum ≡ n → p h ≡ false)
      → any p s'.loop.blocked ≡ any p s.loop.blocked
  pub unblocked_kept :
      (p : Header → Bool)
      → ((h : Header) → h.seqnum ≡ n → p h ≡ false)
      → any p s'.loop.unblocked ≡ any p s.loop.unblocked

-- A request with number `n` is kept, blocked or not.
abbrev pub is_pending : {D H T : Type 0} → ℕ → Session D H T → Bool
is_pending n s = any (has_seqnum n) s.loop.blocked || any (has_seqnum n) s.loop.unblocked

abbrev pub unlink_status : Errno → Bool → ℤ
unlink_status errno true = negated errno.einprogress
unlink_status errno false = negated errno.enoent

module _ {D H T : Type 0} (errno : Errno) where
  -- An UNLINK, whether its reply can be written or not, leaves no blocked and no unblocked request
  -- with the number that it names, and any test that fails on all requests with this number holds
  -- of some kept request afterwards if and only if it did before.
  pub handle_unlink-Unlinked :
      (h : Header) (s : Session D H T)
      → Ends (Unlinked (unlink_seqnum h) s) (handle_unlink errno h s)
  unfolding handle_unlink
  handle_unlink-Unlinked h s = written (write_unlink_reply h _ s.stream)
    where
      n : ℕ
      n = unlink_seqnum h

      after : Stream → Session D H T
      after t = record {
        loop = record {
          state = s.loop.state;
          handlers = s.loop.handlers;
          blocked = retain_others n s.loop.blocked;
          unblocked = retain_others n s.loop.unblocked;
        };
        stream = t;
      }

      dropped : (t : Stream) → Unlinked n s (after t)
      dropped t = record {
        blocked_gone = retain_others_drops n s.loop.blocked;
        unblocked_gone = retain_others_drops n s.loop.unblocked;
        blocked_kept = λ p not_named. retain_others_keeps p n s.loop.blocked not_named;
        unblocked_kept = λ p not_named. retain_others_keeps p n s.loop.unblocked not_named;
      }

      written :
          (o : Outcome Stream (Unit {0}))
          → Ends (Unlinked n s) (on_stream {D = D} {H = H} {T = T} (λ t. o) (after s.stream))
      written (ok a t) = dropped t
      written (err e t) = dropped t
      written panic = tt

  -- A successful UNLINK writes one thing, the header of its reply with its own number, and with
  -- the negated EINPROGRESS if a request with the number that it names was kept and the negated
  -- ENOENT otherwise.
  pub handle_unlink-Sends :
      (h : Header) (s : Session D H T)
      → Oks
          (λ s'.
            Sends
              (header (
                  reply_to h usbip_ret_unlink
                    (ret_unlink (unlink_status errno (is_pending (unlink_seqnum h) s))))
                ∷ [])
              s.stream
              s'.stream)
          (handle_unlink errno h s)
  unfolding handle_unlink write_unlink_reply
  handle_unlink-Sends h s = by_status (is_pending (unlink_seqnum h) s)
    where
      loop : EventLoop D H T
      loop = record {
        state = s.loop.state;
        handlers = s.loop.handlers;
        blocked = retain_others (unlink_seqnum h) s.loop.blocked;
        unblocked = retain_others (unlink_seqnum h) s.loop.unblocked;
      }

      written :
          (c : Chunk) (o : Outcome Stream (Unit {0}))
          → Oks (Sends (c ∷ []) s.stream) o
          → Oks {S = Session D H T}
              (λ s'. Sends (c ∷ []) s.stream s'.stream)
              (on_stream (λ t. o) (record { loop = loop; stream = s.stream }))
      written c (ok a t) sent = sent
      written c (err e t) sent = tt
      written c panic sent = tt

      by_status :
          (found : Bool)
          → Oks {S = Session D H T}
              (λ s'.
                Sends
                  (header (reply_to h usbip_ret_unlink (ret_unlink (unlink_status errno found)))
                    ∷ [])
                  s.stream
                  s'.stream)
              (on_stream
                (write_unlink_reply h
                  (if found then negated errno.einprogress else negated errno.enoent))
                (record { loop = loop; stream = s.stream }))
      by_status true = written _ _ (write_all-Sends _ s.stream)
      by_status false = written _ _ (write_all-Sends _ s.stream)
