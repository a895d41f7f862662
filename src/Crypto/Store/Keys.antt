-- ===== src/Crypto/Store/Keys.antt =====
-- Key pairs and signatures of src/crypto.rs over a token that works.
use f2ido.Prelude.{
  ℕ, ◌<◌, ◌≡◌, refl, ap, ◌∙◌, Bool, true, ◌||◌, none, some, [], ◌∷◌, ◌++◌, length, ◌==◌, ==_iff,
  replicate, if◌then◌else◌,
}
use f2ido.Outcome.{ok, Error, pure, fail, returns, unwrapped, attempted, chosen_then}
use f2ido.Ctaphid.Types.{Bytes}
use f2ido.Crypto.Pkcs11.{
  Ctx, Session, Handle, cka_ec_point, ckm_ec_key_pair_gen, ckm_aes_key_wrap_pad, ckm_sha256,
  ckm_ecdsa,
}
use f2ido.Crypto.Objects.{public_key_attributes, private_key_attributes, private_key_template}
use f2ido.Crypto.KeyStore.{get_bytes_attribute, generate_key_pair, is_valid_id, sha256_hash, sign}
use f2ido.Crypto.Signature.Der.{value, read_signature, read_signature-der_encode_signature}
use f2ido.Crypto.Signature.Point.{ec_point_x_y-octets}
use f2ido.Crypto.Store.{Works}
use f2ido.Crypto.Store.Counter.{
  Holds, Holds-same, Leaves, find_secret_key-Leaves, secret_key-Leaves,
}
use f2ido.Crypto.Store.Cipher.{AreBytes}

-- Key pairs on the curve, wrapped by the key `k`. `IsPair` relates the handles of a pair to its
-- point, `IsId` a wrapped private key to the point, and `Verifies` is the check of a signature
-- under a point. The public key is the octet string of the point behind a DER tag and length.
pub record Pairs {W : Type 0} (ctx : Ctx W) (session : Session) (works : Works ctx session)
    (k : Handle) : Type 1 where
  pub IsPair : (pub_key priv_key : Handle) (x y : Bytes) → Type 0
  pub IsId : (id x y : Bytes) → Type 0
  pub Verifies : (x y digest : Bytes) (r s : ℕ) → Type 0
  pub digest_of : Bytes → Bytes
  pub pairs :
      (w : W)
      → works.IsOpen w
      → (w1 : W) × (pub_key priv_key : Handle) × (x y : Bytes) × (ctx.generate_key_pair session
            ckm_ec_key_pair_gen public_key_attributes private_key_attributes w
          ≡ ok (pub_key, priv_key) w1)
        × IsPair pub_key priv_key x y
        × (length x ≡ 32)
        × (length y ≡ 32)
        × works.IsOpen w1
        × (works.objects w1 ≡ works.objects w)
  pub wraps :
      (w : W) (pub_key priv_key : Handle) (x y : Bytes)
      → works.IsOpen w
      → IsPair pub_key priv_key x y
      → (w1 : W) × (id : Bytes) × (ctx.wrap_key session ckm_aes_key_wrap_pad k priv_key w
          ≡ ok id w1)
        × IsId id x y
        × works.IsOpen w1
        × (works.objects w1 ≡ works.objects w)
  pub points :
      (w : W) (pub_key priv_key : Handle) (x y : Bytes)
      → works.IsOpen w
      → IsPair pub_key priv_key x y
      → (w1 w2 : W) × (ctx.get_attribute_value session pub_key cka_ec_point none w
          ≡ ok (record { rv = ctx.ckr_ok; value_len = 67; buffer = [] }) w1)
        × (ctx.get_attribute_value session pub_key cka_ec_point (some (replicate 67 0)) w1
            ≡ ok
                (record { rv = ctx.ckr_ok; value_len = 67; buffer = 0x04 ∷ 65 ∷ 0x04 ∷ (x ++ y) })
                w2)
        × works.IsOpen w2
        × (works.objects w2 ≡ works.objects w)
  pub digests :
      (w : W) (message : Bytes)
      → works.IsOpen w
      → (w1 w2 : W) × (ctx.digest_init session ckm_sha256 w ≡ ok tt w1)
        × (ctx.digest session message w1 ≡ ok (digest_of message) w2)
        × works.IsOpen w2
        × (works.objects w2 ≡ works.objects w)
  pub unwraps :
      (w : W) (id x y : Bytes)
      → works.IsOpen w
      → IsId id x y
      → (w1 : W) × (priv_key : Handle) × (ctx.unwrap_key session ckm_aes_key_wrap_pad k id
            private_key_template w
          ≡ ok priv_key w1)
        × works.IsOpen w1
        × (works.objects w1 ≡ works.objects w)
        × ((digest : Bytes)
            → (w2 w3 : W) × (r s : Bytes) × (ctx.sign_init session ckm_ecdsa priv_key w1 ≡ ok tt w2)
              × (ctx.sign session digest w2 ≡ ok (r ++ s) w3)
              × (length r ≡ 32)
              × (length s ≡ 32)
              × AreBytes r
              × AreBytes s
              × (0 < value r)
              × (0 < value s)
              × Verifies x y digest (value r) (value s)
              × works.IsOpen w3
              × (works.objects w3 ≡ works.objects w1))

module _ {W : Type 0} (ctx : Ctx W) (session : Session) (works : Works ctx session) (k : Handle)
    (keys : Pairs ctx session works k) where
  open works use {IsOpen, objects}

  get_bytes_attribute-point :
      (w : W) (pub_key priv_key : Handle) (x y : Bytes)
      → IsOpen w
      → keys.IsPair pub_key priv_key x y
      → Leaves ctx session works
          (0x04 ∷ 65 ∷ 0x04 ∷ (x ++ y))
          (objects w)
          (get_bytes_attribute ctx session pub_key cka_ec_point)
          w
  unfolding get_bytes_attribute
  get_bytes_attribute-point w pub_key priv_key x y o pair =
      let (w1, w2, e1, e2, o2, same) = keys.points w pub_key priv_key x y o pair in
      (w2, returns _ e1 (returns _ fits (returns _ e2 (chosen_then _ _ same_rv refl))), o2, same)
    where
      same_rv : (ctx.ckr_ok == ctx.ckr_ok) ≡ true
      same_rv = (==_iff ctx.ckr_ok ctx.ckr_ok).1 refl

      fits :
          {w1 : W}
          → (if (ctx.ckr_ok == ctx.ckr_ok) || (ctx.ckr_ok == ctx.ckr_buffer_too_small)
                then pure {S = W} tt
                else fail (Error.pkcs11 ctx.ckr_ok))
              w1
            ≡ ok tt w1
      fits =
          chosen_then _ _ (ap (λ (b : Bool). b || (ctx.ckr_ok == ctx.ckr_buffer_too_small)) same_rv)
            refl

  -- Over a token that works, generate_key_pair returns an id and a point of two 32-byte
  -- coordinates, and is_valid_id accepts the id in every later state with the key.
  pub generate_key_pair-is_valid_id :
      (w : W) (v : ℕ)
      → Holds ctx session works k v w
      → (w1 : W) × (id x y : Bytes) × (generate_key_pair ctx session w ≡ ok (id, x, y) w1)
        × (length x ≡ 32)
        × (length y ≡ 32)
        × keys.IsId id x y
        × Holds ctx session works k v w1
        × ((w2 : W) (u : ℕ)
            → Holds ctx session works k u w2
            → (w3 : W) × (is_valid_id ctx session id w2 ≡ ok true w3)
              × Holds ctx session works k u w3)
  unfolding generate_key_pair is_valid_id
  generate_key_pair-is_valid_id w v holds =
      let (w1, pub_key, priv_key, x, y, e1, pair, hx, hy, o1, same1) = keys.pairs w holds.is_open in
      let holds1 : Holds ctx session works k v w1 = Holds-same ctx session works holds o1 same1 in
      let (w2, e2, o2, same2) = secret_key-Leaves ctx session works k w1 v holds1 in
      let (w3, id, e3, is_id, o3, same3) = keys.wraps w2 pub_key priv_key x y o2 pair in
      let (w4, e4, o4, same4) = get_bytes_attribute-point w3 pub_key priv_key x y o3 pair in
      (
        w4,
        id,
        x,
        y,
        returns _ e1 (
            returns _ e2
              (returns _ e3 (returns _ e4 (returns _ (ec_point_x_y-octets x y w4 hx hy) refl)))),
        hx,
        hy,
        is_id,
        Holds-same ctx session works holds1 o4 (same4 ∙ same3 ∙ same2),
        λ w5 u holds5.
            let (w6, e6, o6, same6) =
              find_secret_key-Leaves ctx session works w5 k holds5.is_open holds5.one_key in
            let (w7, h, e7, o7, same7, rest) = keys.unwraps w6 id x y o6 is_id in
            (
              w7,
              returns _ (unwrapped e6) (returns _ (ap attempted e7) refl),
              Holds-same ctx session works holds5 o7 (same7 ∙ same6),
            ),
      )

  pub sha256_hash-Holds :
      (w : W) (v : ℕ) (message : Bytes)
      → Holds ctx session works k v w
      → (w1 : W) × (sha256_hash ctx session message w ≡ ok (keys.digest_of message) w1)
        × Holds ctx session works k v w1
  unfolding sha256_hash
  sha256_hash-Holds w v message holds =
      let (w1, w2, e1, e2, o2, same2) = keys.digests w message holds.is_open in
      (w2, returns _ e1 e2, Holds-same ctx session works holds o2 same2)

  -- Over a token that works, sign under the id of a key pair returns the DER encoding of two
  -- numbers, from which a reader gets both back, and which verify under the point of the pair for
  -- the digest of the message.
  pub sign-Verifies :
      (w : W) (v : ℕ) (id x y message : Bytes)
      → Holds ctx session works k v w
      → keys.IsId id x y
      → (w1 : W) × (out : Bytes) × (r s : ℕ) × (sign ctx session id message w ≡ ok out w1)
        × (read_signature out ≡ some (r, s))
        × keys.Verifies x y (keys.digest_of message) r s
        × Holds ctx session works k v w1
  unfolding sign sha256_hash
  sign-Verifies w v id x y message holds is_id =
      let (w2, hashed, holds2) = sha256_hash-Holds w v message holds in
      let (w3, e3, o3, same3) = secret_key-Leaves ctx session works k w2 v holds2 in
      let (w4, h, e4, o4, same4, signs) = keys.unwraps w3 id x y o3 is_id in
      let (w5, w6, r, s, e5, e6, hr, hs, br, bs, pr, ps, good, o6, same6) =
        signs (keys.digest_of message) in
      let (out, e7, parsed) = read_signature-der_encode_signature r s w6 hr hs br bs pr ps in
      (
        w6,
        out,
        value r,
        value s,
        returns _ hashed (returns _ e3 (returns _ e4 (returns _ e5 (returns _ e6 e7)))),
        parsed,
        good,
        Holds-same ctx session works holds2 o6 (same6 ∙ same4 ∙ same3),
      )
