-- ===== src/Ctaphid/Parser/Parsing.antt =====
-- `Parser::parse` of src/ctaphid.rs, and the waiting channels that are attended to.
use f2ido.Prelude.{ℕ, ◌<◌, ◌≡◌, ◌≢◌, refl, ap, ◌⊎◌, inl, inr, [], ◌∷◌, arith, leb, length}
use f2ido.Prelude.Bits.{u32_from_to_le}
use f2ido.Outcome.{M, ok, panic, ◌>>=◌}
use f2ido.Ctaphid.Types.{Bytes, Queue, ctaphid_broadcast_cid}
use f2ido.Ctaphid.Env.{Env}
use f2ido.Ctaphid.Channel.{packet_cid}
use f2ido.Ctaphid.Effects.Rules.{Ends, Peeks-index, Peeks-assert}
use f2ido.Ctaphid.Parser.{Parser, Server, check_packet, parse_front, parse_packet, parse}
use f2ido.Ctaphid.Parser.Attention.{Attended, IsAttentive, IsAttentiveBut, Good, route-Good}

module _ {W : Type 0} (env : Env W) where
  packet_cid_check :
      (j : ℕ) (s : Server W) → j < ctaphid_broadcast_cid → packet_cid (check_packet j) s ≡ ok j s
  unfolding packet_cid
  packet_cid_check j s h = rw (u32_from_to_le j (omega arith))

  -- The first packet was the only one that attended to the channel of its id.
  popped-IsAttentiveBut :
      (p : Parser) (pkt : Bytes) (rest : Queue) (cid : ℕ) (s : Server W)
      → IsAttentive p
      → p.recv_queue ≡ pkt ∷ rest
      → packet_cid pkt s ≡ ok cid s
      → IsAttentiveBut cid
          (record { send_queue = p.send_queue; recv_queue = rest; channels = p.channels })
  popped-IsAttentiveBut p pkt rest cid s h front is_cid = record {
    numbered = h.numbered;
    attended =
        λ j d fits other e waits. still j fits other (rw front at (h.attended j d fits e waits));
  }
    where
      still :
          (j : ℕ)
          → j < ctaphid_broadcast_cid
          → j ≢ cid
          → Attended p.send_queue (pkt ∷ rest) j
          → Attended p.send_queue rest j
      still j fits other (inl sends) = inl sends
      still j fits other (inr (inl e)) = absurd (other (same_cid e))
        where
          same_cid : check_packet j ≡ pkt → j ≡ cid
          same_cid e = cc (packet_cid_check j s fits, is_cid, ap (λ (p : Bytes). packet_cid p s) e)
      still j fits other (inr (inr later)) = inr later

  packet_cid_cases :
      (pkt : Bytes) (s : Server W)
      → ((cid : ℕ) × (packet_cid pkt s ≡ ok cid s)) ⊎ (packet_cid pkt s ≡ panic)
  unfolding packet_cid
  packet_cid_cases [] s = inr refl
  packet_cid_cases (a ∷ []) s = inr refl
  packet_cid_cases (a ∷ b ∷ []) s = inr refl
  packet_cid_cases (a ∷ b ∷ c ∷ []) s = inr refl
  packet_cid_cases (a ∷ b ∷ c ∷ d ∷ rest) s = inl (_, refl)

  packet_cid_then :
      (pkt : Bytes) (s : Server W) (f : ℕ → M (Server W) (Unit {0}))
      → ((cid : ℕ) → packet_cid pkt s ≡ ok cid s → Ends Good (f cid s))
      → Ends Good ((packet_cid pkt >>= f) s)
  packet_cid_then pkt s f h = elim (packet_cid_cases pkt s) [
    | inl (cid, found) ↦ rw (found, Ends, ◌>>=◌) (h cid found)
    | inr none_found ↦ rw (none_found, Ends, ◌>>=◌) tt
  ]

  parse_packet-Good :
      (pkt : Bytes) (rest : Queue) (s : Server W)
      → IsAttentive s.parser
      → s.parser.recv_queue ≡ pkt ∷ rest
      → Ends Good (
          parse_packet env pkt (record s {
            parser = record {
              send_queue = s.parser.send_queue;
              recv_queue = rest;
              channels = s.parser.channels;
            };
          }))
  unfolding parse_packet
  parse_packet-Good pkt rest s h front = (Peeks-assert Good (leb 7 (length pkt))).at _ _ (λ _.
      packet_cid_then pkt _ _ (λ cid found. (Peeks-index Good pkt 4).at _ _ (λ cmd.
        route-Good env cid cmd pkt _
          (popped-IsAttentiveBut s.parser pkt rest cid _ h front found))))

  -- The parse of one packet keeps every waiting channel below the broadcast id attended to,
  -- whether it ends by a value or by an error.
  pub parse-IsAttentive : (s : Server W) → IsAttentive s.parser → Ends Good (parse env s)
  unfolding parse
  parse-IsAttentive s h = front s.parser.recv_queue refl
    where
      front : (q : Queue) → s.parser.recv_queue ≡ q → Ends Good (parse_front env q s)
      front [] e = h
      front (pkt ∷ rest) e = parse_packet-Good pkt rest s h e
