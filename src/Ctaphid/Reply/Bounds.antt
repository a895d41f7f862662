-- ===== src/Ctaphid/Reply/Bounds.antt =====
-- The packets of `send_reply` in src/ctaphid.rs fit the endpoint.
use f2ido.Prelude.{
  ℕ, zero, suc, ◌+◌, ◌≤◌, ◌≡◌, arith, Bool, true, false, Option, none, some, List, [], ◌∷◌, leb,
  length, drop, length-take, All, bit_or, if◌then◌else◌,
}
use f2ido.Ctaphid.Types.{Bytes, Queue, max_packet_size}
use f2ido.Ctaphid.Reply.{init_max, cont_max, chunks_fuel, chunks}
use f2ido.Ctaphid.Reply.Frames.{cont_frames, first_frame, later_frames, replied, max_reply}

abbrev pub AreFrames : Queue → Type 0
AreFrames = All (λ p. length p ≤ max_packet_size)

chunks_fuel-short : (fuel n : ℕ) (xs : Bytes) → All (λ c. length c ≤ n) (chunks_fuel fuel n xs)
unfolding chunks_fuel
chunks_fuel-short fuel n [] = tt
chunks_fuel-short zero n (x ∷ xs) = tt
chunks_fuel-short (suc fuel) n (x ∷ xs) =
    (omega (arith, length-take n (x ∷ xs)), chunks_fuel-short fuel n (drop n (x ∷ xs)))

cont_frames-AreFrames :
    (cid i : ℕ) (cs : List Bytes)
    → All (λ c. length c ≤ cont_max) cs
    → AreFrames (cont_frames cid i cs)
unfolding cont_frames
cont_frames-AreFrames cid i [] h = tt
cont_frames-AreFrames cid i (c ∷ cs) h =
    (omega (arith, h.0), cont_frames-AreFrames cid (i + 1) cs h.1)

pub frames-AreFrames :
    (cid cmd_byte : ℕ) (payload : Bytes)
    → AreFrames (first_frame cid cmd_byte payload ∷ later_frames cid payload)
unfolding first_frame later_frames chunks
frames-AreFrames cid cmd_byte payload = (
  omega (arith, length-take init_max payload),
  cont_frames-AreFrames cid 0 (chunks cont_max (drop init_max payload))
      (chunks_fuel-short (length (drop init_max payload)) cont_max (drop init_max payload)),
)

pub replied-AreFrames :
    (cid cmd : ℕ) (payload p : Bytes) (ps : List Bytes)
    → replied cid cmd payload ≡ some (p, ps)
    → AreFrames (p ∷ ps)
unfolding replied
replied-AreFrames cid cmd payload p ps e = by_length (leb (length payload) max_reply) e
  where
    both : Option (Bytes × List Bytes)
    both = some (first_frame cid (bit_or cmd 0x80) payload, later_frames cid payload)

    by_length : (b : Bool) → (if b then both else none) ≡ some (p, ps) → AreFrames (p ∷ ps)
    by_length true h = ground (arith, frames-AreFrames cid (bit_or cmd 0x80) payload)
    by_length false h = cc
