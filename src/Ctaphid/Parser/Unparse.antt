-- ===== src/Ctaphid/Parser/Unparse.antt =====
-- `Parser::unparse` of src/ctaphid.rs: one packet goes to the host, and the waiting channels
-- get the packets that make them look at their consent again.
use f2ido.Prelude.{
  ℕ, zero, suc, ◌+◌, ◌≤◌, ◌≡◌, refl, ap, ◌∙◌, inl, inr, true, some, List, [], ◌∷◌, ◌++◌,
  if◌then◌else◌, arith, leb, ==_iff, leb_iff, subst, Bool-cases, length, get_elem?, drop,
}
use f2ido.Outcome.{ok}
use f2ido.Ctaphid.Types.{Bytes, Queue, Channel, is_waiting}
use f2ido.Ctaphid.Effects.Rules.{Ends}
use f2ido.Ctaphid.Parser.{
  Parser, Server, check_packet, push_checks, copy_reply, unparse_front, unparse,
}
use f2ido.Ctaphid.Parser.Attention.{In, IsAttentive, Good}

-- The check packets of the waiting channels, in front of the queue, the last channel first.
unfoldable pub checked : List Channel → Queue → Queue
checked [] q = q
checked (ch ∷ rest) q =
    if is_waiting ch.state then checked rest (check_packet ch.cid ∷ q) else checked rest q

-- The assertion in the loop holds whenever it held at the start.
push_checks-checked :
    (chs : List Channel) (n : ℕ) (q : Queue)
    → length q ≡ n
    → push_checks chs n q ≡ some (checked chs q)
unfolding push_checks checked
push_checks-checked [] n q e = refl
push_checks-checked (ch ∷ rest) n q e = elim (Bool-cases (is_waiting ch.state)) [
  | inl waits ↦ rw waits (
      rw ((==_iff (length q) n).1 e)
        (push_checks-checked rest (n + 1) (check_packet ch.cid ∷ q) (omega arith)))
  | inr idle ↦ rw idle (push_checks-checked rest n q e)
]

checked-stays : (p : Bytes) (chs : List Channel) (q : Queue) → In p q → In p (checked chs q)
unfolding checked
checked-stays p [] q h = h
checked-stays p (ch ∷ rest) q h = elim (Bool-cases (is_waiting ch.state)) [
  | inl waits ↦ rw waits (checked-stays p rest _ (inr h))
  | inr idle ↦ rw idle (checked-stays p rest q h)
]

checked-In :
    (chs : List Channel) (q : Queue) (i : ℕ) (ch : Channel)
    → get_elem? chs i ≡ some ch
    → is_waiting ch.state ≡ true
    → In (check_packet ch.cid) (checked chs q)
unfolding checked
checked-In [] q i ch e waits = cc
checked-In (x ∷ rest) q zero ch e waits =
    subst
      (λ (d : Channel).
        In (check_packet d.cid)
          (if is_waiting x.state then checked rest (check_packet x.cid ∷ q) else checked rest q))
      (same e)
      (rw (ap (λ (d : Channel). is_waiting d.state) (same e) ∙ waits)
        (checked-stays (check_packet x.cid) rest (check_packet x.cid ∷ q) (inl refl)))
  where
    same : some x ≡ some ch → x ≡ ch
    same e = cc
checked-In (x ∷ rest) q (suc i) ch e waits = elim (Bool-cases (is_waiting x.state)) [
  | inl pushed ↦ rw pushed (checked-In rest _ i ch e waits)
  | inr idle ↦ rw idle (checked-In rest q i ch e waits)
]

module _ {W : Type 0} where
  -- The parser after the packet in front went out.
  abbrev unparsed : Server W → Queue → Parser
  unparsed s rest = record {
    send_queue = rest;
    recv_queue = checked s.parser.channels s.parser.recv_queue;
    channels = s.parser.channels;
  }

  unparsed-IsAttentive :
      (s : Server W) (rest : Queue) → IsAttentive s.parser → IsAttentive (unparsed s rest)
  unparsed-IsAttentive s rest h = record {
    numbered = h.numbered;
    attended = λ i ch fits e waits. inr (
        subst (λ n. In (check_packet n) (unparsed s rest).recv_queue) (h.numbered i ch fits e)
          (checked-In s.parser.channels s.parser.recv_queue i ch e waits));
  }

  -- Sending a packet forgets no waiting channel: each gets a check packet, so that the loss of
  -- the packet in front does not matter.
  pub unparse-IsAttentive :
      (pkt : Bytes) (s : Server W)
      → s.parser.recv_queue ≡ []
      → IsAttentive s.parser
      → Ends Good (unparse pkt s)
  unfolding unparse copy_reply
  unparse-IsAttentive pkt s drained h = front s.parser.send_queue refl
    where
      front : (q : Queue) → s.parser.send_queue ≡ q → Ends Good (unparse_front q pkt s)
      front [] e = h
      front (r ∷ rest) e = elim (Bool-cases (leb (length r) (length pkt))) [
        | inl fits ↦
            rw
              (
                fits,
                push_checks-checked s.parser.channels 0 s.parser.recv_queue (ap length drained),
                Ends,
              )
              (unparsed-IsAttentive s rest h)
        | inr long ↦ rw (long, Ends) tt
      ]

  -- With nothing left to read and a packet in front of the send queue that fits the buffer,
  -- unparse copies it over the front of the buffer, takes it from the queue and queues the check
  -- packets of the waiting channels; no assertion fails.
  pub unparse-ok :
      (pkt r : Bytes) (rest : Queue) (s : Server W)
      → s.parser.recv_queue ≡ []
      → s.parser.send_queue ≡ r ∷ rest
      → length r ≤ length pkt
      → unparse pkt s
        ≡ ok (r ++ drop (length r) pkt) (record { parser = unparsed s rest; world = s.world })
  unfolding unparse copy_reply
  unparse-ok pkt r rest s drained front fits = rw front (
      rw ((leb_iff (length r) (length pkt)).1 fits)
        (rw (push_checks-checked s.parser.channels 0 s.parser.recv_queue (ap length drained)) refl))
