-- ===== src/Usbip/Stream/Writes.antt =====
-- What a successful write leaves in the stream of src/usbip.rs.
use f2ido.Prelude.{ℕ, ◌≡◌, refl, List, [], ◌∷◌, ◌++◌, take}
use f2ido.Outcome.{Outcome, ok, err, panic}
use f2ido.Usbip.Stream.{
  Chunk, bytes, Written, whole, short, broken, Stream, write_all, write_all_with, write, write_with,
}

-- A call that succeeds leaves a state with `P`.
abbrev pub Oks : {S A : Type 0} → (S → Type 0) → Outcome S A → Type 0
Oks P (ok a s) = P s
Oks P (err e s) = Unit {0}
Oks P panic = Unit {0}

-- The chunks `cs` were written behind the output.
abbrev pub Sends : List Chunk → Stream → Stream → Type 0
Sends cs s t = t.output ≡ s.output ++ cs

pub write_all-Sends : (c : Chunk) (s : Stream) → Oks (Sends (c ∷ []) s) (write_all c s)
unfolding write_all
write_all-Sends c s = by_network s.network
  where
    by_network : (n : List Written) → Oks (Sends (c ∷ []) s) (write_all_with n c s)
    by_network [] = refl
    by_network (whole ∷ rest) = refl
    by_network (short n ∷ rest) = refl
    by_network (broken ∷ rest) = tt

-- `write` sends some of the bytes.
pub write-Sends :
    (xs : List ℕ) (s : Stream) → Oks (λ t. (ys : List ℕ) × Sends (bytes ys ∷ []) s t) (write xs s)
unfolding write
write-Sends xs s = by_network s.network
  where
    by_network :
        (n : List Written)
        → Oks (λ t. (ys : List ℕ) × Sends (bytes ys ∷ []) s t) (write_with n xs s)
    by_network [] = (xs, refl)
    by_network (whole ∷ rest) = (xs, refl)
    by_network (short n ∷ rest) = (take n xs, refl)
    by_network (broken ∷ rest) = tt
