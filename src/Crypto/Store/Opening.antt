-- ===== src/Crypto/Store/Opening.antt =====
-- What `open_token` of src/crypto.rs leaves on a token that works: the secret key and the counter.
use f2ido.Prelude.{ℕ, ◌+◌, ◌^◌, ◌<◌, ◌≡◌, refl, ap, ◌∙◌, none, List, [], ◌∷◌, bytes_eq}
use f2ido.Outcome.{ok, err, Error, returns, raises, unwrapped}
use f2ido.Crypto.Pkcs11.{Ctx, Session, Handle}
use f2ido.Crypto.Objects.{
  token_counter_template, secret_key_template, secret_key_attributes, secret_key_label,
  token_counter_label,
}
use f2ido.Crypto.KeyStore.{find_secret_key, find_token_counter, create_secret_key}
use f2ido.Crypto.Token.{prepare}
use f2ido.Crypto.Store.{Works, search}
use f2ido.Crypto.Store.Objects.{search-grown_hit, search-grown_miss}
use f2ido.Crypto.Store.Counter.{
  counter_class, secret_key_class, Leaves, Holds, Holds-same, find_two-Leaves,
  find_secret_key-Leaves, find_token_counter-Leaves, create_token_counter-Holds,
  increment_token_counter-Holds,
}

module _ {W : Type 0} (ctx : Ctx W) (session : Session) (works : Works ctx session) where
  open works use {IsOpen, objects}

  find_secret_key-none :
      (w : W)
      → IsOpen w
      → search secret_key_template (objects w) ≡ []
      → Leaves ctx session works none (objects w) (find_secret_key ctx session) w
  unfolding find_secret_key
  find_secret_key-none w o e =
      let (w1, e1, o1, same) =
        find_two-Leaves ctx session works secret_key_label secret_key_class w o in
      (w1, returns _ e1 (rw e refl), o1, same)

  find_token_counter-none :
      (w : W)
      → IsOpen w
      → search token_counter_template (objects w) ≡ []
      → Leaves ctx session works none (objects w) (find_token_counter ctx session) w
  unfolding find_token_counter
  find_token_counter-none w o e =
      let (w1, e1, o1, same) =
        find_two-Leaves ctx session works token_counter_label counter_class w o in
      (w1, returns _ e1 (rw e refl), o1, same)

  -- A secret key is created where there is none.
  create_secret_key-new :
      (w : W)
      → IsOpen w
      → search secret_key_template (objects w) ≡ []
      → search token_counter_template (objects w) ≡ []
      → (k : Handle) × (w' : W) × (create_secret_key ctx session w ≡ ok tt w')
        × IsOpen w'
        × (search secret_key_template (objects w') ≡ k ∷ [])
        × (search token_counter_template (objects w') ≡ [])
  unfolding create_secret_key bytes_eq
  create_secret_key-new w o no_key no_counter =
      let (w1, k, e1, o1, grown, fresh) = works.generates w secret_key_attributes o in
      let found : search secret_key_template (objects w1) ≡ k ∷ [] =
        search-grown_hit _ _ _ grown secret_key_template refl no_key in
      let (w2, e2, o2, same) = find_secret_key-Leaves ctx session works w1 k o1 found in
      (
        k,
        w2,
        returns _ e1 (returns _ (unwrapped e2) refl),
        o2,
        ap (search secret_key_template) same ∙ found,
        ap (search token_counter_template) same
            ∙ search-grown_miss _ _ _ grown token_counter_template refl no_counter,
      )

  -- The first opening of a token: a key is generated, and the counter starts at 0.
  pub prepare-new :
      (w : W)
      → IsOpen w
      → search secret_key_template (objects w) ≡ []
      → search token_counter_template (objects w) ≡ []
      → (k : Handle) × (w' : W) × (prepare ctx session w ≡ ok tt w')
        × Holds ctx session works k 0 w'
  unfolding prepare
  prepare-new w o no_key no_counter =
      let (w1, e1, o1, same1) = find_secret_key-none w o no_key in
      let (k, w2, e2, o2, key, none_yet) =
        create_secret_key-new w1 o1 (ap (search secret_key_template) same1 ∙ no_key)
          (ap (search token_counter_template) same1 ∙ no_counter) in
      let (w3, e3, o3, same3) = find_token_counter-none w2 o2 none_yet in
      let (w4, e4, holds) =
        create_token_counter-Holds ctx session works w3 k 0 o3
          (ap (search token_counter_template) same3 ∙ none_yet)
          (ap (search secret_key_template) same3 ∙ key) in
      (k, w4, returns _ e1 (returns _ e2 (returns _ e3 e4)), holds)

  -- A later opening: the key is the same, and the counter is incremented.
  pub prepare-again :
      (w : W) (k : Handle) (v : ℕ)
      → v + 1 < 2 ^ 32
      → Holds ctx session works k v w
      → (w' : W) × (prepare ctx session w ≡ ok tt w') × Holds ctx session works k (v + 1) w'
  unfolding prepare
  prepare-again w k v fits holds =
      let (w1, e1, o1, same1) =
        find_secret_key-Leaves ctx session works w k holds.is_open holds.one_key in
      let holds1 : Holds ctx session works k v w1 = Holds-same ctx session works holds o1 same1 in
      let (w2, e2, o2, same2) =
        find_token_counter-Leaves ctx session works w1 holds1.counter o1 holds1.one_counter in
      let (w3, e3, holds3) =
        increment_token_counter-Holds ctx session works w2 k v fits
          (Holds-same ctx session works holds1 o2 same2) in
      (w3, returns _ e1 (returns _ e2 (returns _ e3 refl)), holds3)

  -- More than one secret key is refused.
  pub prepare_ambiguous :
      (w : W) (h k : Handle) (ks : List Handle)
      → IsOpen w
      → search secret_key_template (objects w) ≡ h ∷ k ∷ ks
      → (w' : W) × (prepare ctx session w ≡ err Error.multiple_secret_keys w')
        × IsOpen w'
        × (objects w' ≡ objects w)
  unfolding prepare find_secret_key
  prepare_ambiguous w h k ks o e =
      let (w1, e1, o1, same) =
        find_two-Leaves ctx session works secret_key_label secret_key_class w o in
      (w1, raises _ {s = w1} (returns _ e1 (rw e refl)), o1, same)
