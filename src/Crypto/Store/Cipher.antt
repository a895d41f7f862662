-- ===== src/Crypto/Store/Cipher.antt =====
-- `encrypt` and `decrypt` of src/crypto.rs over a token that works.
use f2ido.Prelude.{
  ℕ, zero, suc, ◌+◌, ◌-◌, ◌*◌, ◌/◌, ◌%◌, ◌≤◌, ◌<◌, ◌≡◌, sym, ap, subst, ◌∙◌, arith, false, not,
  ◌||◌, ◌∷◌, ◌++◌, length, take, replicate, ltb, ◌==◌, leb_iff, All, All-append, length-append,
  length-replicate, take-append,
}
use f2ido.Outcome.{ok, returns, asserted, chosen_else, slice-take}
use f2ido.Ctaphid.Types.{Bytes}
use f2ido.Crypto.Pkcs11.{Ctx, Session, Handle, ckm_aes_ecb}
use f2ido.Crypto.KeyStore.{padded, unpad, encrypt, decrypt}
use f2ido.Crypto.Store.{Works}
use f2ido.Crypto.Store.Counter.{Holds, secret_key-Leaves, Holds-same}

abbrev pub AreBytes : Bytes → Type 0
AreBytes = All (λ b. b < 256)

replicate-AreBytes : (n : ℕ) → AreBytes (replicate n 0)
replicate-AreBytes zero = tt
replicate-AreBytes (suc n) = (omega arith, replicate-AreBytes n)

pub length-padded : (xs : Bytes) → length (padded xs) ≡ 32 * (length xs / 32 + 1)
length-padded xs = omega (
  arith,
  length-append xs (replicate (31 - length xs % 32) 0),
  length-replicate {A = ℕ} (31 - length xs % 32) 0,
)

padded-AreBytes : (xs : Bytes) → AreBytes xs → AreBytes (padded xs)
padded-AreBytes xs h = (
  omega arith,
  All-append (λ b. b < 256) xs (replicate (31 - length xs % 32) 0) h
      (replicate-AreBytes (31 - length xs % 32)),
)

unpad-behind :
    {W : Type 0} (n : ℕ) (xs zs : Bytes) (w : W) → n ≡ length xs → unpad (n ∷ xs ++ zs) w ≡ ok xs w
unpad-behind n xs zs w e = chosen_else _ _ enough (
    slice-take 1 n (n ∷ xs ++ zs) w (omega (arith, e, length-append xs zs))
    ∙ ap (λ (ys : Bytes). ok ys w) front)
  where
    enough : ltb (length (n ∷ xs ++ zs)) (1 + n) ≡ false
    enough = ground (arith, length-append xs zs)

    front : take n (xs ++ zs) ≡ xs
    front = subst (λ (m : ℕ). take m (xs ++ zs) ≡ xs) (sym e) (take-append xs zs)

pub unpad-padded :
    {W : Type 0} (xs : Bytes) (w : W) → length xs ≤ 255 → unpad (padded xs) w ≡ ok xs w
unpad-padded xs w h =
    unpad-behind (length xs % 256) xs (replicate (31 - length xs % 32) 0) w (omega arith)

-- AES in ECB mode under the key `k`: `unseal` inverts `seal` on whole blocks, and the token does
-- either.
pub record Cipher {W : Type 0} (ctx : Ctx W) (session : Session) (works : Works ctx session)
    (k : Handle) : Type 1 where
  pub seal : Bytes → Bytes
  pub unseal : Bytes → Bytes
  pub length-seal : (d : Bytes) → length (seal d) ≡ length d
  pub unseal-seal : (d : Bytes) → AreBytes d → length d % 16 ≡ 0 → unseal (seal d) ≡ d
  pub encrypts :
      (w : W) (d : Bytes)
      → works.IsOpen w
      → length d % 16 ≡ 0
      → (w1 w2 : W) × (ctx.encrypt_init session ckm_aes_ecb k w ≡ ok tt w1)
        × (ctx.encrypt session d w1 ≡ ok (seal d) w2)
        × works.IsOpen w2
        × (works.objects w2 ≡ works.objects w)
  pub decrypts :
      (w : W) (d : Bytes)
      → works.IsOpen w
      → length d % 16 ≡ 0
      → (w1 w2 : W) × (ctx.decrypt_init session ckm_aes_ecb k w ≡ ok tt w1)
        × (ctx.decrypt session d w1 ≡ ok (unseal d) w2)
        × works.IsOpen w2
        × (works.objects w2 ≡ works.objects w)

module _ {W : Type 0} (ctx : Ctx W) (session : Session) (works : Works ctx session) (k : Handle)
    (cipher : Cipher ctx session works k) where
  open works use {IsOpen, objects}

  pub encrypt-Holds :
      (w : W) (v : ℕ) (xs : Bytes)
      → length xs ≤ 255
      → Holds ctx session works k v w
      → (w' : W) × (encrypt ctx session xs w ≡ ok (cipher.seal (padded xs)) w')
        × Holds ctx session works k v w'
  unfolding encrypt
  encrypt-Holds w v xs h holds =
      let (w1, e1, o1, same1) = secret_key-Leaves ctx session works k w v holds in
      let (w2, w3, e2, e3, o3, same3) =
        cipher.encrypts w1 (padded xs) o1 (omega (arith, length-padded xs)) in
      (
        w3,
        returns _ (asserted w ((leb_iff (length xs) 255).1 h)) (returns _ e1 (returns _ e2 e3)),
        Holds-same ctx session works holds o3 (same3 ∙ same1),
      )

  pub decrypt-Holds :
      (w : W) (v : ℕ) (xs : Bytes)
      → AreBytes xs
      → length xs ≤ 255
      → Holds ctx session works k v w
      → (w' : W) × (decrypt ctx session (cipher.seal (padded xs)) w ≡ ok xs w')
        × Holds ctx session works k v w'
  unfolding decrypt
  decrypt-Holds w v xs octets h holds =
      let (w1, e1, o1, same1) = secret_key-Leaves ctx session works k w v holds in
      let (w2, w3, e2, e3, o3, same3) =
        cipher.decrypts w1 (cipher.seal (padded xs)) o1
          (omega (arith, cipher.length-seal (padded xs), length-padded xs)) in
      let opened : ctx.decrypt session (cipher.seal (padded xs)) w2 ≡ ok (padded xs) w3 =
        e3 ∙ ap (λ (d : Bytes). ok d w3) inverted in
      (
        w3,
        chosen_else _ _ whole
            (returns _ e1 (returns _ e2 (returns _ opened (unpad-padded xs w3 h)))),
        Holds-same ctx session works holds o3 (same3 ∙ same1),
      )
    where
      inverted : cipher.unseal (cipher.seal (padded xs)) ≡ padded xs
      inverted =
          cipher.unseal-seal (padded xs) (padded-AreBytes xs octets)
            (omega (arith, length-padded xs))

      whole :
          not (length (cipher.seal (padded xs)) % 32 == 0)
            || (length (cipher.seal (padded xs)) == 0)
          ≡ false
      whole = ground (arith, cipher.length-seal (padded xs), length-padded xs)

  -- Over a token that works, with a cipher whose two directions invert each other on whole blocks,
  -- at most 255 bytes are encrypted to a multiple of 32 bytes, and decrypt returns the same bytes
  -- in every later state with the key, whatever the counter is by then.
  pub encrypt-decrypt :
      (w : W) (v : ℕ) (xs : Bytes)
      → AreBytes xs
      → length xs ≤ 255
      → Holds ctx session works k v w
      → (c : Bytes) × (w1 : W) × (encrypt ctx session xs w ≡ ok c w1)
        × (length c ≡ 32 * (length xs / 32 + 1))
        × Holds ctx session works k v w1
        × ((w2 : W) (u : ℕ)
            → Holds ctx session works k u w2
            → (w3 : W) × (decrypt ctx session c w2 ≡ ok xs w3) × Holds ctx session works k u w3)
  encrypt-decrypt w v xs octets h holds =
      let (w1, e1, holds1) = encrypt-Holds w v xs h holds in
      (
        cipher.seal (padded xs),
        w1,
        e1,
        cipher.length-seal (padded xs) ∙ length-padded xs,
        holds1,
        λ w2 u holds2. decrypt-Holds w2 u xs octets h holds2,
      )
