-- ===== src/Outcome.antt =====
-- How a call of the program ends: a value, an `Err` that its caller sees, or a panic, which
-- unwinds the only server thread and so ends the process. A method is a function of the state
-- that it mutates; the state comes back after an `Err` too, since what was written stays written.
use f2ido.Prelude.{
  ℕ, ◌+◌, ◌-◌, ◌≤◌, ◌≡◌, refl, Bool, true, false, ◌&&◌, Option, none, some, List, arith, leb,
  length, get_elem?, take, drop, if◌then◌else◌,
}

-- The errors that travel as `Err`: the `Error::Module` texts of crypto.rs, a PKCS#11 code, and the
-- errors of serde_cbor, packed_struct, the USB requests and the stream.
pub data Error : Type 0 where
  no_token multiple_tokens multiple_secret_keys multiple_token_counters : Error
  invalid_length invalid_decrypted_data : Error
  pkcs11 : ℕ → Error
  cbor packing : Error
  unknown_descriptor : ℕ → Error
  io : Error
  try_from_int : Error

pub data Outcome (S A : Type 0) : Type 0 where
  ok : A → S → Outcome S A
  err : Error → S → Outcome S A
  panic : Outcome S A

abbrev pub M : Type 0 → Type 0 → Type 0
M S A = S → Outcome S A

module _ {S A : Type 0} where
  abbrev pub pure : A → M S A
  pure a s = ok a s

  -- `return Err(e)`
  abbrev pub fail : Error → M S A
  fail e s = err e s

  -- `panic!`, a failed `assert!`, `unwrap` of nothing, an index or a slice out of range
  abbrev pub abort : M S A
  abort s = panic

  abbrev pub or_abort : Option A → M S A
  or_abort none = abort
  or_abort (some a) = pure a

  abbrev pub or_fail : Option A → Error → M S A
  or_fail none e = fail e
  or_fail (some a) e = pure a

  -- A `Result` that the code matches on instead of passing it up by `?`.
  abbrev pub attempt : M S A → M S (Option A)
  attempt m s = elim (m s) [ ok a s' ↦ ok (some a) s' | err e s' ↦ ok none s' | panic ↦ panic ]

infixl 5 ◌>>=◌ ◌>>◌
abbrev pub ◌>>=◌ : {S A B : Type 0} → M S A → (A → M S B) → M S B
◌>>=◌ m f s = elim (m s) [ ok a s' ↦ f a s' | err e s' ↦ err e s' | panic ↦ panic ]

abbrev pub ◌>>◌ : {S A B : Type 0} → M S A → M S B → M S B
m >> k = m >>= λ _. k

module _ {S : Type 0} where
  -- `assert!`
  abbrev pub assert : Bool → M S (Unit {0})
  assert true = pure tt
  assert false = abort

  -- `xs[i]`
  abbrev pub index : {A : Type 0} → List A → ℕ → M S A
  index xs i = or_abort (get_elem? xs i)

  -- `&xs[a..b]`
  abbrev pub slice : {A : Type 0} → ℕ → ℕ → List A → M S (List A)
  slice a b xs = if leb a b && leb b (length xs) then pure (take (b - a) (drop a xs)) else abort

  -- `&xs[a..]`
  abbrev pub slice_from : {A : Type 0} → ℕ → List A → M S (List A)
  slice_from a xs = if leb a (length xs) then pure (drop a xs) else abort

-- Guards and slices whose test holds.
module _ {S : Type 0} where
  pub slice-take :
      {A : Type 0} (a n : ℕ) (xs : List A) (s : S)
      → a + n ≤ length xs
      → slice a (a + n) xs s ≡ ok (take n (drop a xs)) s
  slice-take a n xs s h = ground (arith, cancel a n)
    where
      cancel : (i j : ℕ) → i + j - i ≡ j
      cancel i j = omega arith

-- A call that returns, followed by the rest.
pub returns :
    {S A B : Type 0} (f : A → M S B) {o : Outcome S A} {s : S} {a : A} {r : Outcome S B}
    → o ≡ ok a s
    → f a s ≡ r
    → elim o [ ok a s' ↦ f a s' | err e s' ↦ err e s' | panic ↦ panic ] ≡ r
returns f e rest = rw e rest

abbrev pub attempted : {S A : Type 0} → Outcome S A → Outcome S (Option A)
attempted o = elim o [ ok a s' ↦ ok (some a) s' | err e s' ↦ ok none s' | panic ↦ panic ]

-- The same for `unwrap()` of a `Result`.
pub unwrapped :
    {S A : Type 0} {o : Outcome S A} {s : S} {a : A}
    → o ≡ ok a s
    → ◌≡◌ {A = Outcome S A}
        (elim (attempted o) [ ok b s' ↦ or_abort b s' | err e s' ↦ err e s' | panic ↦ panic ])
        (ok a s)
unwrapped e = rw e refl

-- The same for an `assert!` that holds.
pub asserted : {S : Type 0} {b : Bool} (s : S) → b ≡ true → assert b s ≡ ok tt s
asserted s e = rw e refl

-- The branch that a test takes.
module _ {S A : Type 0} {b : Bool} (m k : M S A) {s : S} {r : Outcome S A} where
  pub chosen_then : b ≡ true → m s ≡ r → (if b then m else k) s ≡ r
  chosen_then e rest = rw e rest

  pub chosen_else : b ≡ false → k s ≡ r → (if b then m else k) s ≡ r
  chosen_else e rest = rw e rest

-- An `Err` that goes up by `?`.
pub raises :
    {S A B : Type 0} (f : A → M S B) {o : Outcome S A} {s : S} {e : Error}
    → o ≡ err e s
    → ◌≡◌ {A = Outcome S B}
        (elim o [ ok a s' ↦ f a s' | err e' s' ↦ err e' s' | panic ↦ panic ])
        (err e s)
raises f e = rw e refl

-- An `assert!` that fails ends the rest too.
pub refuted : {S A : Type 0} {b : Bool} (k : M S A) (s : S) → b ≡ false → (assert b >> k) s ≡ panic
refuted k s e = rw e refl
