-- ===== src/Crypto/Signature/Der.antt =====
-- A reader of the DER signatures that src/crypto.rs encodes.
use f2ido.Prelude.{
  ℕ, zero, suc, ◌+◌, ◌-◌, ◌*◌, ◌%◌, ◌≤◌, ◌<◌, ◌≡◌, refl, sym, ap, subst, ◌∙◌, arith, inl, inr, Bool,
  true, false, not, ◌&&◌, ◌||◌, Bool-cases, ==_iff, leb_iff, Option, none, some, List, [], ◌∷◌,
  ◌++◌, append-nil, leb, ltb, ◌==◌, length, take, drop, length-append, All, if◌then◌else◌,
}
use f2ido.Prelude.Bits.{top_bit}
use f2ido.Outcome.{Outcome, ok, pure, ◌>>=◌}
use f2ido.Crypto.Signature.{skip_zeros, encode_integer, der_encode_signature}

-- The number of a big-endian byte string, behind a number.
abbrev pub value_from : ℕ → List ℕ → ℕ
value_from n [] = n
value_from n (b ∷ bs) = value_from (n * 256 + b) bs

abbrev pub value : List ℕ → ℕ
value = value_from 0

-- A number that is not negative and has no byte too many.
abbrev pub is_minimal : List ℕ → Bool
is_minimal [] = false
is_minimal (b ∷ []) = ltb b 128
is_minimal (b ∷ c ∷ rest) = ltb b 128 && (not (b == 0) || leb 128 c)

-- An INTEGER at the front, and the rest.
abbrev pub read_integer : List ℕ → Option (ℕ × List ℕ)
read_integer (tag ∷ n ∷ rest) =
    if (tag == 0x02) && leb n (length rest) && is_minimal (take n rest)
    then some (value (take n rest), drop n rest)
    else none
read_integer _ = none

skip_zeros_lem :
    (xs : List ℕ)
    → All (λ b. b < 256) xs
    → 0 < value xs
    → (b : ℕ) × (bs : List ℕ) × (skip_zeros xs ≡ some (b ∷ bs))
      × (0 < b)
      × (b < 256)
      × (value (b ∷ bs) ≡ value xs)
      × (length (b ∷ bs) ≤ length xs)
unfolding skip_zeros
skip_zeros_lem [] all positive = absurd (omega arith)
skip_zeros_lem (zero ∷ xs) all positive =
    let (b, bs, found, h1, h2, h3, h4) = skip_zeros_lem xs all.1 positive in
    (b, bs, found, h1, h2, h3, omega arith)
skip_zeros_lem (suc x ∷ xs) all positive =
    (suc x, xs, nonzero, omega arith, all.0, refl, omega arith)
  where
    nonzero : skip_zeros (suc x ∷ xs) ≡ some (suc x ∷ xs)
    nonzero = ground arith

-- What `encode_integer` pushes for an integer without leading zeros.
abbrev encoded : ℕ → List ℕ → List ℕ
encoded b bs =
    if ltb b 128 then 0x02 ∷ suc (length bs) ∷ b ∷ bs else 0x02 ∷ suc (suc (length bs)) ∷ 0 ∷ b ∷ bs

encode_integer-encoded :
    {S : Type 0} (xs : List ℕ) (b : ℕ) (bs : List ℕ) (s : S)
    → skip_zeros xs ≡ some (b ∷ bs)
    → b < 256
    → length (b ∷ bs) ≤ 32
    → encode_integer xs s ≡ ok (encoded b bs) s
unfolding encode_integer
encode_integer-encoded xs b bs s found hb hl = rw found (rw (top_bit b hb) (ground arith))

pub take-length_append : (xs rest : List ℕ) → take (length xs) (xs ++ rest) ≡ xs
take-length_append [] rest = refl
take-length_append (x ∷ xs) rest = rw (take-length_append xs rest)

pub drop-length_append : (xs rest : List ℕ) → drop (length xs) (xs ++ rest) ≡ rest
drop-length_append [] rest = refl
drop-length_append (x ∷ xs) rest = drop-length_append xs rest

read_integer-content :
    (xs rest : List ℕ)
    → is_minimal xs ≡ true
    → read_integer (0x02 ∷ length xs ∷ xs ++ rest) ≡ some (value xs, rest)
read_integer-content xs rest minimal =
    rw (take-length_append xs rest, drop-length_append xs rest) (rw minimal (rw fits refl))
  where
    fits : leb (length xs) (length (xs ++ rest)) ≡ true
    fits = (leb_iff (length xs) (length (xs ++ rest))).1 (omega (arith, length-append xs rest))

small_is_minimal : (b : ℕ) (bs : List ℕ) → 0 < b → ltb b 128 ≡ true → is_minimal (b ∷ bs) ≡ true
small_is_minimal b [] positive small = ground arith
small_is_minimal b (c ∷ bs) positive small = ground arith

big_is_minimal : (b : ℕ) (bs : List ℕ) → ltb b 128 ≡ false → is_minimal (0 ∷ b ∷ bs) ≡ true
big_is_minimal b bs big = ground arith

read_integer-encoded :
    (b : ℕ) (bs rest : List ℕ)
    → 0 < b
    → b < 256
    → read_integer (encoded b bs ++ rest) ≡ some (value (b ∷ bs), rest)
read_integer-encoded b bs rest positive fits = elim (Bool-cases (ltb b 128)) [
  | inl small ↦ rw small (read_integer-content (b ∷ bs) rest (small_is_minimal b bs positive small))
  | inr big ↦ rw big (read_integer-content (0 ∷ b ∷ bs) rest (big_is_minimal b bs big))
]

-- A SEQUENCE of two INTEGERs and nothing else.
abbrev only_two : ℕ → Option (ℕ × List ℕ) → Option (ℕ × ℕ)
only_two r (some (s, [])) = some (r, s)
only_two r _ = none

abbrev then_second : Option (ℕ × List ℕ) → Option (ℕ × ℕ)
then_second none = none
then_second (some (r, rest)) = only_two r (read_integer rest)

abbrev pub read_signature : List ℕ → Option (ℕ × ℕ)
read_signature (tag ∷ n ∷ rest) =
    if (tag == 0x30) && (n == length rest) then then_second (read_integer rest) else none
read_signature _ = none

abbrev sequence : List ℕ → List ℕ
sequence content = 0x30 ∷ length content ∷ content

read_signature-sequence :
    (b : ℕ) (bs : List ℕ) (c : ℕ) (cs : List ℕ)
    → 0 < b
    → b < 256
    → 0 < c
    → c < 256
    → read_signature (sequence (encoded b bs ++ encoded c cs))
      ≡ some (value (b ∷ bs), value (c ∷ cs))
read_signature-sequence b bs c cs hb hb' hc hc' =
    rw ((==_iff (length content) (length content)).1 refl) (
      ap then_second (read_integer-encoded b bs (encoded c cs) hb hb')
      ∙ ap (only_two (value (b ∷ bs))) second)
  where
    content : List ℕ
    content = encoded b bs ++ encoded c cs

    second : read_integer (encoded c cs) ≡ some (value (c ∷ cs), [])
    second =
        subst (λ (xs : List ℕ). read_integer xs ≡ some (value (c ∷ cs), []))
          (append-nil (encoded c cs)) (read_integer-encoded c cs [] hc hc')

length-encoded : (b : ℕ) (bs : List ℕ) → length (b ∷ bs) ≤ 32 → length (encoded b bs) ≤ 35
length-encoded b bs h = ground arith

der_encode_signature-sequence :
    {S : Type 0} (r s : List ℕ) (b : ℕ) (bs : List ℕ) (c : ℕ) (cs : List ℕ) (st : S)
    → length r ≡ 32
    → length s ≡ 32
    → encode_integer r st ≡ ok (encoded b bs) st
    → encode_integer s st ≡ ok (encoded c cs) st
    → length (b ∷ bs) ≤ 32
    → length (c ∷ cs) ≤ 32
    → der_encode_signature (r ++ s) st ≡ ok (sequence (encoded b bs ++ encoded c cs)) st
unfolding der_encode_signature
der_encode_signature-sequence {S} r s b bs c cs st hr hs er es hb hc =
    rw (whole, first_half, second_half)
      (subst
        (λ (o : Outcome S (List ℕ)).
          ((λ (_ : S). o) >>= λ first. encode_integer s >>= λ second. pure (out first second)) st
          ≡ ok result st)
        (sym er)
        (subst
          (λ (o : Outcome S (List ℕ)).
            ((λ (_ : S). o) >>= λ second. pure (out (encoded b bs) second)) st ≡ ok result st)
          (sym es) (ap (λ (n : ℕ). ok (0x30 ∷ n ∷ encoded b bs ++ encoded c cs) st) total)))
  where
    result : List ℕ
    result = sequence (encoded b bs ++ encoded c cs)

    out : List ℕ → List ℕ → List ℕ
    out first second = 0x30 ∷ ((length (first ++ second) + 2) % 256 - 2) ∷ first ++ second

    total :
        (length (encoded b bs ++ encoded c cs) + 2) % 256 - 2
        ≡ length (encoded b bs ++ encoded c cs)
    total = omega (
      arith,
      length-append (encoded b bs) (encoded c cs),
      length-encoded b bs hb,
      length-encoded c cs hc,
    )

    whole : length (r ++ s) ≡ 64
    whole = omega (arith, length-append r s)

    first_half : take 32 (r ++ s) ≡ r
    first_half = subst (λ n. take n (r ++ s) ≡ r) hr (take-length_append r s)

    second_half : drop 32 (r ++ s) ≡ s
    second_half = subst (λ n. drop n (r ++ s) ≡ s) hr (drop-length_append r s)

-- A signature of two 32-byte numbers, neither of them zero, is encoded as a DER sequence from
-- which a reader that wants the shortest encoding gets both numbers back.
pub read_signature-der_encode_signature :
    {S : Type 0} (r s : List ℕ) (st : S)
    → length r ≡ 32
    → length s ≡ 32
    → All (λ b. b < 256) r
    → All (λ b. b < 256) s
    → 0 < value r
    → 0 < value s
    → (out : List ℕ) × (der_encode_signature (r ++ s) st ≡ ok out st)
      × (read_signature out ≡ some (value r, value s))
read_signature-der_encode_signature r s st hr hs all_r all_s positive_r positive_s =
    let (b, bs, found_b, hb, hb', value_b, length_b) = skip_zeros_lem r all_r positive_r in
    let (c, cs, found_c, hc, hc', value_c, length_c) = skip_zeros_lem s all_s positive_s in
    (
      sequence (encoded b bs ++ encoded c cs),
      der_encode_signature-sequence r s b bs c cs st hr hs
          (encode_integer-encoded r b bs st found_b hb' (omega (arith, length_b, hr)))
          (encode_integer-encoded s c cs st found_c hc' (omega (arith, length_c, hs)))
          (omega (arith, length_b, hr)) (omega (arith, length_c, hs)),
      subst
          (λ (m : ℕ). read_signature (sequence (encoded b bs ++ encoded c cs)) ≡ some (m, value s))
          value_b
          (subst
            (λ (m : ℕ).
              read_signature (sequence (encoded b bs ++ encoded c cs)) ≡ some (value (b ∷ bs), m))
            value_c (read_signature-sequence b bs c cs hb hb' hc hc')),
    )
