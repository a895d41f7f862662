-- ===== src/Crypto/Signature/Point.antt =====
-- The coordinates of a point, as src/crypto.rs takes them from an octet string.
use f2ido.Prelude.{ℕ, ◌≡◌, refl, subst, List, ◌∷◌, ◌++◌, arith, length, take, drop, length-append}
use f2ido.Outcome.{ok}
use f2ido.Crypto.Signature.{ec_point_x_y}
use f2ido.Crypto.Signature.Der.{take-length_append, drop-length_append}

-- The octet string of an uncompressed point with coordinates of 32 bytes is split into these
-- coordinates.
pub ec_point_x_y-octets :
    {S : Type 0} (x y : List ℕ) (s : S)
    → length x ≡ 32
    → length y ≡ 32
    → ec_point_x_y (0x04 ∷ 65 ∷ 0x04 ∷ x ++ y) s ≡ ok (x, y) s
unfolding ec_point_x_y
ec_point_x_y-octets x y s hx hy = rw (whole, first_half, second_half) refl
  where
    whole : length (x ++ y) ≡ 64
    whole = omega (arith, length-append x y)

    first_half : take 32 (x ++ y) ≡ x
    first_half = subst (λ n. take n (x ++ y) ≡ x) hx (take-length_append x y)

    second_half : drop 32 (x ++ y) ≡ y
    second_half = subst (λ n. drop n (x ++ y) ≡ y) hx (drop-length_append x y)
