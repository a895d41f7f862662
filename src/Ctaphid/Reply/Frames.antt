-- ===== src/Ctaphid/Reply/Frames.antt =====
-- What `send_reply` sends, as a list of packets computed without the queue.
use f2ido.Prelude.{
  ℕ, zero, suc, ◌+◌, ◌*◌, ◌%◌, ◌^◌, ◌≤◌, ◌<◌, ◌≡◌, ◌∙◌, inl, inr, List, [], ◌∷◌, ◌++◌, Option, none,
  some, leb, arith, append_assoc, append-nil, ltb, lt→ltb, Bool-cases, length, take, drop,
  length-drop, take_all, drop_all, bit_or, if◌then◌else◌,
}
use f2ido.Prelude.Bits.{u32_to_le_bytes, u16_to_be_bytes, set_top_bit}
use f2ido.Outcome.{Outcome, ok, panic}
use f2ido.Ctaphid.Types.{Bytes, Queue}
use f2ido.Ctaphid.Reply.{init_max, cont_max, chunks_fuel, chunks, send_chunks, send_reply}

-- The continuation packets of the chunks, numbered from `i` on.
unfoldable pub cont_frames : (cid i : ℕ) → List Bytes → List Bytes
cont_frames cid i [] = []
cont_frames cid i (c ∷ cs) = (u32_to_le_bytes cid ++ i ∷ c) ∷ cont_frames cid (i + 1) cs

-- The initialisation packet, with the first 57 bytes.
unfoldable pub first_frame : (cid cmd_byte : ℕ) → Bytes → Bytes
first_frame cid cmd_byte payload =
    u32_to_le_bytes cid ++ cmd_byte ∷ u16_to_be_bytes (length payload) ++ take init_max payload

-- The continuation packets, with the rest.
unfoldable pub later_frames : (cid : ℕ) → Bytes → List Bytes
unfolding cont_frames chunks
later_frames cid payload = cont_frames cid 0 (chunks cont_max (drop init_max payload))

unfoldable pub frames : (cid cmd : ℕ) → Bytes → List Bytes
unfolding first_frame later_frames
frames cid cmd payload = first_frame cid (cmd + 128) payload ∷ later_frames cid payload

-- The longest message that fits 127 continuation packets.
abbrev pub max_reply : ℕ
max_reply = 57 + 127 * 59

send_chunks-cont_frames :
    (cid i : ℕ) (cs : List Bytes) (q : Queue)
    → i + length cs ≤ 0x7f
    → send_chunks cid i cs q ≡ ok tt (q ++ cont_frames cid i cs)
unfolding send_chunks cont_frames
send_chunks-cont_frames cid i [] q h = rw append-nil
send_chunks-cont_frames cid i (c ∷ cs) q h =
    rw (lt→ltb i 0x7f (omega arith), byte)
      (send_chunks-cont_frames cid (i + 1) cs (q ++ (u32_to_le_bytes cid ++ i ∷ c) ∷ [])
          (omega arith)
        ∙ rw append_assoc)
  where
    byte : i % 256 ≡ i
    byte = omega arith

send_chunks_panics :
    (cid i : ℕ) (cs : List Bytes) (q : Queue)
    → i ≤ 0x7f
    → 0x7f < i + length cs
    → send_chunks cid i cs q ≡ panic
unfolding send_chunks
send_chunks_panics cid i [] q hi h = absurd (omega arith)
send_chunks_panics cid i (c ∷ cs) q hi h = elim (Bool-cases (ltb i 0x7f)) [
  | inl low ↦ rw low (send_chunks_panics cid (i + 1) cs _ (ground arith) (omega arith))
  | inr high ↦ rw high
]

-- The number of chunks: at most `k`, or more than `k`, as the bytes fit `k` chunks or not.
length-chunks_le :
    (fuel n k : ℕ) (xs : Bytes) → length xs ≤ n * k → length (chunks_fuel fuel n xs) ≤ k
unfolding chunks_fuel
length-chunks_le fuel n k [] h = omega arith
length-chunks_le zero n k (x ∷ xs) h = omega arith
length-chunks_le (suc fuel) n zero (x ∷ xs) h = absurd (grind arith)
length-chunks_le (suc fuel) n (suc k) (x ∷ xs) h =
    omega
      (arith, length-chunks_le fuel n k (drop n (x ∷ xs)) (omega (arith, length-drop n (x ∷ xs))))

lt-length-chunks :
    (fuel n k : ℕ) (xs : Bytes)
    → length xs ≤ fuel
    → 0 < n
    → n * k < length xs
    → k < length (chunks_fuel fuel n xs)
unfolding chunks_fuel
lt-length-chunks fuel n k [] hf hn h = absurd (omega arith)
lt-length-chunks zero n k (x ∷ xs) hf hn h = absurd (omega arith)
lt-length-chunks (suc fuel) n zero (x ∷ xs) hf hn h = omega arith
lt-length-chunks (suc fuel) n (suc k) (x ∷ xs) hf hn h = omega (
  arith,
  lt-length-chunks fuel n k (drop n (x ∷ xs)) (omega (arith, length-drop n (x ∷ xs))) hn
      (omega (arith, length-drop n (x ∷ xs))),
)

u16_small : (n : ℕ) → n ≤ max_reply → n % 2 ^ 16 ≡ n
u16_small n h = omega arith

-- A message of at most 7550 bytes is sent as its frames.
send_reply_raw :
    (cid cmd : ℕ) (payload : Bytes) (q : Queue)
    → length payload ≤ max_reply
    → send_reply cid cmd payload q
      ≡ ok tt (q ++ first_frame cid (bit_or cmd 0x80) payload ∷ later_frames cid payload)
unfolding send_reply first_frame later_frames chunks_fuel
send_reply_raw cid cmd payload q hl = elim (Bool-cases (ltb (length payload) init_max)) [
  | inl short ↦ rw (
    short,
    u16_small (length payload) hl,
    take_all init_max payload (ground arith),
    drop_all init_max payload (ground arith),
  )
  | inr long ↦
      rw (long, u16_small (length payload) hl)
        (send_chunks-cont_frames cid 0 (chunks cont_max (drop init_max payload)) _ (
            omega (
              arith,
              length-chunks_le (length (drop init_max payload)) cont_max 127 (drop init_max payload)
                  (omega (arith, length-drop init_max payload)),
            ))
          ∙ rw append_assoc)
]

-- A message of at most 7550 bytes with a command below 128 is queued as its initialisation packet
-- and its numbered continuation packets, behind what the queue held.
pub send_reply-frames :
    (cid cmd : ℕ) (payload : Bytes) (q : Queue)
    → cmd < 128
    → length payload ≤ max_reply
    → send_reply cid cmd payload q ≡ ok tt (q ++ frames cid cmd payload)
unfolding frames
send_reply-frames cid cmd payload q hc hl =
    send_reply_raw cid cmd payload q hl ∙ rw (set_top_bit cmd hc)

-- A message of more than 7550 bytes panics, whatever the queue holds.
pub send_reply_too_long :
    (cid cmd : ℕ) (payload : Bytes) (q : Queue)
    → max_reply < length payload
    → send_reply cid cmd payload q ≡ panic
unfolding send_reply chunks
send_reply_too_long cid cmd payload q h = elim (Bool-cases (ltb (length payload) init_max)) [
  | inl short ↦ absurd (ground arith)
  | inr long ↦ rw long (
      send_chunks_panics cid 0 (chunks cont_max (drop init_max payload)) _ (omega arith) (
        omega (
          arith,
          lt-length-chunks (length (drop init_max payload)) cont_max 127 (drop init_max payload)
              (omega arith) (omega arith) (omega (arith, length-drop init_max payload)),
        )))
]

-- The packets of a reply, first and later ones, or `none` for a message that is too long.
unfoldable pub replied : (cid cmd : ℕ) → Bytes → Option (Bytes × List Bytes)
replied cid cmd payload =
    if leb (length payload) max_reply
    then some (first_frame cid (bit_or cmd 0x80) payload, later_frames cid payload)
    else none

abbrev pub append_replied : Queue → Option (Bytes × List Bytes) → Outcome Queue (Unit {0})
append_replied q none = panic
append_replied q (some (p, ps)) = ok tt (q ++ p ∷ ps)

-- `send_reply` on any arguments: it appends at least one packet, or it panics.
pub send_reply-replied :
    (cid cmd : ℕ) (payload : Bytes) (q : Queue)
    → send_reply cid cmd payload q ≡ append_replied q (replied cid cmd payload)
unfolding replied
send_reply-replied cid cmd payload q = elim (Bool-cases (leb (length payload) max_reply)) [
  | inl fits ↦ rw fits (send_reply_raw cid cmd payload q (ground arith))
  | inr long ↦ rw long (send_reply_too_long cid cmd payload q (ground arith))
]
