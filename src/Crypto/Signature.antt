-- ===== src/Crypto/Signature.antt =====
-- The encoding of signatures and the splitting of points in src/crypto.rs.
pub mod Der
pub mod Point
use f2ido.Prelude.{
  ℕ, ◌+◌, ◌-◌, ◌/◌, ◌%◌, Option, none, some, List, [], ◌∷◌, ◌++◌, leb, ◌==◌, length, take, drop,
  bit_and, if◌then◌else◌,
}
use f2ido.Outcome.{M, pure, or_abort, assert, index, slice, slice_from, ◌>>=◌, ◌>>◌}

-- `&int[int.iter().position(|&i| i != 0)? ..]`
unfoldable pub skip_zeros : List ℕ → Option (List ℕ)
skip_zeros [] = none
skip_zeros (b ∷ bs) = let rest = skip_zeros bs in if b == 0 then rest else some (b ∷ bs)

module _ {S : Type 0} where
  -- What `encode_integer` pushes.
  unfoldable pub encode_integer : List ℕ → M S (List ℕ)
  unfolding skip_zeros
  encode_integer bytes = do
    int ← or_abort (skip_zeros bytes)
    first ← index int 0
    if bit_and first 0x80 == 0
        then pure (0x02 ∷ (length int % 256) ∷ int)
        else pure (0x02 ∷ (length int % 256 + 1) ∷ 0 ∷ int)

  unfoldable pub der_encode_signature : List ℕ → M S (List ℕ)
  unfolding encode_integer
  der_encode_signature points = do
    assert (length points == 64)
    r ← slice 0 32 points
    s ← slice_from 32 points
    first ← encode_integer r
    second ← encode_integer s
    pure (0x30 ∷ ((length (first ++ second) + 2) % 256 - 2) ∷ first ++ second)

  -- `ec_point_x_y`
  unfoldable pub ec_point_x_y : List ℕ → M S (List ℕ × List ℕ)
  ec_point_x_y point = do
    tag ← index point 0
    assert (tag == 0x04)
    len ← index point 1
    assert (len == 65)
    form ← index point 2
    assert (form == 0x04)
    assert (length point == 67)
    assert ((length point - 3) % 2 == 0)
    let l : ℕ = (length point - 3) / 2
    assert (l == 32)
    x ← slice 3 (3 + l) point
    y ← slice_from (3 + l) point
    pure (x, y)
