-- ===== src/Usbip/Stream.antt =====
-- The TCP stream of src/main.rs: what is still to be read, what was written, and how the next
-- calls of `write` end.
pub mod Writes
use f2ido.Prelude.{ℕ, List, [], ◌∷◌, ◌++◌, leb, length, take, drop, if◌then◌else◌}
use f2ido.Prelude.Text.{ℤ}
use f2ido.Outcome.{M, Outcome, ok, err, Error}

-- The base of a header as numbers (`u32::from_be` of each field), and the bytes of the union.
pub record Header : Type 0 where
  pub command : ℕ
  pub seqnum : ℕ
  pub devid : ℕ
  pub direction : ℕ
  pub ep : ℕ
  pub body : List ℕ

-- The bodies of the two replies. The rest of the union is not initialised by the source, and is
-- left out.
pub data ReplyBody : Type 0 where
  ret_submit : (status actual_length start_frame number_of_packets error_count : ℤ) → ReplyBody
  ret_unlink : (status : ℤ) → ReplyBody

pub record Reply : Type 0 where
  pub command : ℕ
  pub seqnum : ℕ
  pub devid : ℕ
  pub direction : ℕ
  pub ep : ℕ
  pub body : ReplyBody

-- What is written: reply headers, and bytes.
pub data Chunk : Type 0 where
  header : Reply → Chunk
  bytes : List ℕ → Chunk

-- How a call of `write` ends: the socket takes all, or the first `n` bytes, or it is broken.
pub data Written : Type 0 where
  whole : Written
  short : ℕ → Written
  broken : Written

-- `network` has the ends of the next calls; when it is used up, every call takes all.
pub record Stream : Type 0 where
  pub input : List ℕ
  pub output : List Chunk
  pub network : List Written

-- `read_exact` of `n` bytes
unfoldable pub read_exact : ℕ → M Stream (List ℕ)
read_exact n s =
    if leb n (length s.input)
    then ok (take n s.input) (record s { input = drop n s.input })
    else err Error.io (record s { input = [] })

abbrev pub wrote : Stream → Chunk → List Written → Outcome Stream (Unit {0})
wrote s c rest = ok tt (record { input = s.input; output = s.output ++ c ∷ []; network = rest })

abbrev pub refused : Stream → List Written → Outcome Stream (Unit {0})
refused s rest = err Error.io (record { input = s.input; output = s.output; network = rest })

-- `write_all`: a short write is followed by another one.
abbrev pub write_all_with : List Written → Chunk → M Stream (Unit {0})
write_all_with [] c s = wrote s c []
write_all_with (whole ∷ rest) c s = wrote s c rest
write_all_with (short n ∷ rest) c s = wrote s c rest
write_all_with (broken ∷ rest) c s = refused s rest

unfoldable pub write_all : Chunk → M Stream (Unit {0})
write_all c s = write_all_with s.network c s

-- `write`, whose count the source does not look at.
abbrev pub write_with : List Written → List ℕ → M Stream (Unit {0})
write_with [] xs s = wrote s (bytes xs) []
write_with (whole ∷ rest) xs s = wrote s (bytes xs) rest
write_with (short n ∷ rest) xs s = wrote s (bytes (take n xs)) rest
write_with (broken ∷ rest) xs s = refused s rest

unfoldable pub write : List ℕ → M Stream (Unit {0})
write xs s = write_with s.network xs s
