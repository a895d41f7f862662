-- ===== src/Crypto/Store/Counter.antt =====
-- The token counter of src/crypto.rs over a token that works.
use f2ido.Prelude.{
  bytes_eq, ℕ, zero, suc, ◌+◌, ◌^◌, ◌<◌, ◌≡◌, refl, ap, subst, ◌∙◌, arith, false, some, List, [],
  ◌∷◌, take, ltb, ◌==◌, ==_iff, lt→ltb, if◌then◌else◌,
}
use f2ido.Prelude.Bits.{u32_to_be_bytes, u32_from_to_le}
use f2ido.Outcome.{M, ok, panic, Error, pure, fail, ◌>>=◌, returns, unwrapped, asserted, refuted}
use f2ido.Ctaphid.Types.{Bytes}
use f2ido.Crypto.Pkcs11.{
  cka_value, cka_class, ulong, cko_data, cko_secret_key, Ctx, Session, Handle, Attribute,
}
use f2ido.Crypto.Objects.{
  token_counter_template, token_counter_attributes, secret_key_template, counter_of, attribute,
  secret_key_label, token_counter_label,
}
use f2ido.Crypto.KeyStore.{
  secret_key, find_two, find_secret_key, find_token_counter, create_token_counter,
  increment_token_counter,
}
use f2ido.Crypto.Store.{Works, Object, labelled, search, lookup, without, value_in}
use f2ido.Crypto.Store.Objects.{
  search-grown_hit, search-grown_miss, lookup-grown, search-without, others, others_self,
  found_not_fresh, value_in-some,
}

abbrev pub counter_class : List Attribute
counter_class = attribute cka_class (ulong cko_data) ∷ []

abbrev pub secret_key_class : List Attribute
secret_key_class = attribute cka_class (ulong cko_secret_key) ∷ []

module _ {W : Type 0} (ctx : Ctx W) (session : Session) (works : Works ctx session) where
  open works use {IsOpen, objects}

  -- The call returns _ `a`, the session stays open, and the objects are `os`.
  abbrev pub Leaves : {A : Type 0} → A → List Object → M W A → W → Type 0
  Leaves a os m w = (w' : W) × (m w ≡ ok a w') × IsOpen w' × (objects w' ≡ os)

  pub find_two-Leaves :
      (label : Bytes) (rest : List Attribute) (w : W)
      → IsOpen w
      → Leaves
          (take 2 (search (labelled label rest) (objects w)))
          (objects w)
          (find_two ctx session (labelled label rest))
          w
  find_two-Leaves label rest w o =
      let (w1, w2, w3, e1, e2, e3, o3, same) = works.finds w label rest 2 o in
      (w3, returns _ e1 (returns _ e2 (returns _ e3 refl)), o3, same)

  pub find_token_counter-Leaves :
      (w : W) (h : Handle)
      → IsOpen w
      → search token_counter_template (objects w) ≡ h ∷ []
      → Leaves (some h) (objects w) (find_token_counter ctx session) w
  unfolding find_token_counter
  find_token_counter-Leaves w h o e =
      let (w1, e1, o1, same) = find_two-Leaves token_counter_label counter_class w o in
      (w1, returns _ e1 (rw e refl), o1, same)

  pub find_secret_key-Leaves :
      (w : W) (h : Handle)
      → IsOpen w
      → search secret_key_template (objects w) ≡ h ∷ []
      → Leaves (some h) (objects w) (find_secret_key ctx session) w
  unfolding find_secret_key
  find_secret_key-Leaves w h o e =
      let (w1, e1, o1, same) = find_two-Leaves secret_key_label secret_key_class w o in
      (w1, returns _ e1 (rw e refl), o1, same)

  -- The token has one counter, at `v`, and one secret key, `k`.
  pub record Holds (k : Handle) (v : ℕ) (w : W) : Type 0 where
    pub is_open : IsOpen w
    pub counter : Handle
    pub one_counter : search token_counter_template (objects w) ≡ counter ∷ []
    pub counter_value : value_in (lookup counter (objects w)) ≡ some (u32_to_be_bytes v)
    pub apart : (k == counter) ≡ false
    pub one_key : search secret_key_template (objects w) ≡ k ∷ []

  pub secret_key-Leaves :
      (k : Handle) (w : W) (v : ℕ) → Holds k v w → Leaves k (objects w) (secret_key ctx session) w
  unfolding secret_key
  secret_key-Leaves k w v holds =
      let (w1, e1, o1, same) = find_secret_key-Leaves w k holds.is_open holds.one_key in
      (w1, returns _ e1 refl, o1, same)

  pub Holds-same :
      {k : Handle} {v : ℕ} {w w' : W}
      → Holds k v w
      → IsOpen w'
      → objects w' ≡ objects w
      → Holds k v w'
  Holds-same holds o same = record {
    is_open = o;
    counter = holds.counter;
    one_counter = ap (search token_counter_template) same ∙ holds.one_counter;
    counter_value = ap (λ os. value_in (lookup holds.counter os)) same ∙ holds.counter_value;
    apart = holds.apart;
    one_key = ap (search secret_key_template) same ∙ holds.one_key;
  }

  -- A counter is created where there is none.
  pub create_token_counter-Holds :
      (w : W) (k : Handle) (v : ℕ)
      → IsOpen w
      → search token_counter_template (objects w) ≡ []
      → search secret_key_template (objects w) ≡ k ∷ []
      → (w' : W) × (create_token_counter ctx session v w ≡ ok tt w') × Holds k v w'
  unfolding create_token_counter bytes_eq
  create_token_counter-Holds w k v o none_yet key =
      let (w1, h, e1, o1, grown, fresh) =
        works.creates w (token_counter_attributes (u32_to_be_bytes v)) o in
      let found : search token_counter_template (objects w1) ≡ h ∷ [] =
        search-grown_hit _ _ _ grown token_counter_template refl none_yet in
      let (w2, e2, o2, same) = find_token_counter-Leaves w1 h o1 found in
      (
        w2,
        returns _ e1 (returns _ (unwrapped e2) refl),
        record {
          is_open = o2;
          counter = h;
          one_counter = ap (search token_counter_template) same ∙ found;
          counter_value =
              ap (λ os. value_in (lookup h os)) same ∙ ap value_in (lookup-grown _ _ _ grown fresh);
          apart = found_not_fresh secret_key_template h k (objects w) [] fresh key;
          one_key =
              ap (search secret_key_template) same
              ∙ search-grown_miss _ _ _ grown secret_key_template refl key;
        },
      )

  counter_of_bytes : (v : ℕ) → v < 2 ^ 32 → counter_of (u32_to_be_bytes v) ≡ v
  counter_of_bytes v h = u32_from_to_le v h

  -- The counter is read, and destroyed.
  taken :
      (w : W) (k : Handle) (v : ℕ) (holds : Holds k v w)
      → (w1 w2 w3 : W) × (find_token_counter ctx session w ≡ ok (some holds.counter) w1)
        × (ctx.get_attribute_value session holds.counter cka_value (some (0 ∷ 0 ∷ 0 ∷ 0 ∷ [])) w1
            ≡ ok (record { rv = ctx.ckr_ok; value_len = 4; buffer = u32_to_be_bytes v }) w2)
        × (ctx.destroy_object session holds.counter w2 ≡ ok tt w3)
        × IsOpen w3
        × (objects w3 ≡ without holds.counter (objects w))
  taken w k v holds =
      let (w1, e1, o1, same1) = find_token_counter-Leaves w h holds.is_open holds.one_counter in
      let (w2, e2, o2, same2) =
        works.gets w1 h (u32_to_be_bytes v) (0 ∷ 0 ∷ 0 ∷ 0 ∷ []) o1
          (ap (λ os. value_in (lookup h os)) same1 ∙ holds.counter_value) (omega arith) in
      let (a, present) =
        value_in-some (lookup h (objects w)) (u32_to_be_bytes v) holds.counter_value in
      let (w3, e3, o3, less) = works.destroys w2 h a o2 (ap (lookup h) (same2 ∙ same1) ∙ present) in
      (w1, w2, w3, e1, e2, e3, o3, less ∙ ap (without h) (same2 ∙ same1))
    where
      h : Handle
      h = holds.counter

  read :
      (v : ℕ) (w : W)
      → v < 2 ^ 32
      → (if ctx.ckr_ok == ctx.ckr_ok
            then pure {S = W} (counter_of (u32_to_be_bytes v))
            else fail (Error.pkcs11 ctx.ckr_ok))
          w
        ≡ ok v w
  read v w h =
      rw ((==_iff ctx.ckr_ok ctx.ckr_ok).1 refl) (ap (λ (u : ℕ). ok u w) (counter_of_bytes v h))

  -- `increment_token_counter` returns the counter and leaves the next number in it; the key stays.
  pub increment_token_counter-Holds :
      (w : W) (k : Handle) (v : ℕ)
      → v + 1 < 2 ^ 32
      → Holds k v w
      → (w' : W) × (increment_token_counter ctx session w ≡ ok v w') × Holds k (v + 1) w'
  unfolding increment_token_counter
  increment_token_counter-Holds w k v fits holds =
      let (w1, w2, w3, e1, e2, e3, o3, less) = taken w k v holds in
      let (w4, e4, holds4) =
        create_token_counter-Holds w3 k (v + 1) o3
          (ap (search token_counter_template) less
            ∙ search-without token_counter_template holds.counter (objects w)
            ∙ ap (others holds.counter) holds.one_counter
            ∙ others_self holds.counter)
          (ap (search secret_key_template) less
            ∙ search-without secret_key_template holds.counter (objects w)
            ∙ ap (others holds.counter) holds.one_key
            ∙ rw holds.apart refl) in
      (
        w4,
        returns _ (unwrapped e1) (
            returns _ e2 (
              returns _ (read v w2 (omega arith)) (
                returns _ e3
                  (returns _ (asserted w3 (lt→ltb (v + 1) (2 ^ 32) fits)) (returns _ e4 refl))))),
        holds4,
      )

  -- Over a token that works with a counter at 2 ^ 32 - 1, increment_token_counter panics.
  pub increment_token_counter_overflow :
      (w : W) (k : Handle) (v : ℕ)
      → v + 1 ≡ 2 ^ 32
      → Holds k v w
      → increment_token_counter ctx session w ≡ panic
  unfolding increment_token_counter
  increment_token_counter_overflow w k v full holds =
      let (w1, w2, w3, e1, e2, e3, o3, less) = taken w k v holds in
      returns _ (unwrapped e1)
        (returns _ e2 (returns _ (read v w2 (omega arith)) (returns _ e3 (refuted _ w3 too_large))))
    where
      too_large : ltb (v + 1) (2 ^ 32) ≡ false
      too_large = ground arith

  -- Calls of `increment_token_counter`, one after the other.
  abbrev pub increments : ℕ → M W (List ℕ)
  increments zero = pure []
  increments (suc n) = do v ← increment_token_counter ctx session; vs ← increments n; pure (v ∷ vs)

  -- A counter as a number.
  abbrev pub ticks : ℕ → ℕ → List ℕ
  ticks v zero = []
  ticks v (suc n) = v ∷ ticks (v + 1) n

  -- Over a token that works and has one counter and one secret key, any number of calls of
  -- increment_token_counter that stays below 2 ^ 32 returns consecutive numbers from the counter
  -- on, and leaves one counter with the next number and the same key.
  pub increments-ticks :
      (n : ℕ) (w : W) (k : Handle) (v : ℕ)
      → v + n < 2 ^ 32
      → Holds k v w
      → (w' : W) × (increments n w ≡ ok (ticks v n) w') × Holds k (v + n) w'
  increments-ticks zero w k v fits holds = (w, refl, subst (λ u. Holds k u w) (omega arith) holds)
  increments-ticks (suc n) w k v fits holds =
      let (w1, e1, holds1) = increment_token_counter-Holds w k v (omega arith) holds in
      let (w2, e2, holds2) = increments-ticks n w1 k (v + 1) (omega arith) holds1 in
      (w2, returns _ e1 (returns _ e2 refl), subst (λ u. Holds k u w2) (omega arith) holds2)
