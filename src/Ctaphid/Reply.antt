-- ===== src/Ctaphid/Reply.antt =====
-- `send_reply` of src/ctaphid.rs: a message is cut into an initialisation packet and
-- continuation packets.
pub mod Frames
pub mod Bounds
use f2ido.Prelude.{
  ℕ, zero, suc, ◌+◌, ◌-◌, ◌/◌, ◌%◌, ◌^◌, List, [], ◌∷◌, ◌++◌, ltb, length, take, drop, bit_or,
  if◌then◌else◌,
}
use f2ido.Prelude.Bits.{u32_to_le_bytes, u16_to_be_bytes}
use f2ido.Outcome.{M, pure, abort, ◌>>=◌, ◌>>◌, assert}
use f2ido.Ctaphid.Types.{Bytes, Queue, max_packet_size}

-- `queue.push_back`
abbrev pub push_back : Bytes → M Queue (Unit {0})
push_back p q = pure tt (q ++ p ∷ [])

abbrev pub init_max : ℕ
init_max = max_packet_size - 7

abbrev pub cont_max : ℕ
cont_max = max_packet_size - 5

-- `slice::chunks`: pieces of `n` elements and a last one of at most `n`. A round takes an element
-- at least, so the length is enough fuel.
unfoldable pub chunks_fuel : ℕ → ℕ → Bytes → List Bytes
chunks_fuel fuel n [] = []
chunks_fuel zero n (x ∷ xs) = []
chunks_fuel (suc fuel) n (x ∷ xs) = take n (x ∷ xs) ∷ chunks_fuel fuel n (drop n (x ∷ xs))

unfoldable pub chunks : ℕ → Bytes → List Bytes
unfolding chunks_fuel
chunks n xs = chunks_fuel (length xs) n xs

-- The body of `for_each` on the enumerated chunks, from index `i` on.
unfoldable pub send_chunks : ℕ → ℕ → List Bytes → M Queue (Unit {0})
send_chunks cid i [] = pure tt
send_chunks cid i (chunk ∷ rest) = do
  assert (ltb i 0x7f)
  push_back (u32_to_le_bytes cid ++ (i % 256) ∷ chunk)
  send_chunks cid (i + 1) rest

unfoldable pub send_reply : (cid cmd : ℕ) (payload : Bytes) → M Queue (Unit {0})
send_reply cid cmd payload =
    let reply : Bytes =
      u32_to_le_bytes cid ++ bit_or cmd 0x80 ∷ u16_to_be_bytes (length payload % 2 ^ 16) in
    if ltb (length payload) init_max then push_back (reply ++ payload) else do
      push_back (reply ++ take init_max payload)
      send_chunks cid 0 (chunks cont_max (drop init_max payload))
