-- ===== src/Crypto/Slots.antt =====
-- The slots that `open_token` of src/crypto.rs looks through, and how it ends for each number of
-- tokens with the label.
use f2ido.Prelude.{
  ℕ, ◌+◌, ◌^◌, ◌<◌, ◌≡◌, ◌≢◌, refl, sym, ap, ◌∙◌, true, Option, List, [], ◌∷◌, ◌++◌, append_assoc,
  append-nil, length, if◌then◌else◌, Bool-cases, inl, inr,
}
use f2ido.Outcome.{M, ok, err, Error, returns, raises, unwrapped}
use f2ido.Ctaphid.Types.{Bytes}
use f2ido.Crypto.Pkcs11.{Ctx, Pins, Session, Handle, TokenInfo}
use f2ido.Crypto.Objects.{secret_key_template, token_counter_template}
use f2ido.Crypto.Token.{
  match_label, matching, find_token, login, prepare, only_slot, drop_key_store, open_token, or_drop,
  closing,
}
use f2ido.Crypto.Store.{Works, search}
use f2ido.Crypto.Store.Counter.{Holds}
use f2ido.Crypto.Store.Opening.{prepare-new, prepare-again, prepare_ambiguous}

module _ {W A : Type 0} (ctx : Ctx W) (pins : Pins W) (session : Session) (m : M W A) where
  or_drop-ok : {a : A} {w w1 : W} → m w ≡ ok a w1 → or_drop ctx pins session m w ≡ ok a w1
  or_drop-ok e = ap (closing ctx pins session) e

  or_drop-err :
      {error : Error} {w w1 w2 : W}
      → m w ≡ err error w1
      → ctx.close_session session w1 ≡ ok tt w2
      → or_drop ctx pins session m w ≡ err error w2
  unfolding drop_key_store
  or_drop-err e closed = ap (closing ctx pins session) e ∙ returns _ (unwrapped closed) refl

-- The slots and their tokens can be read in the state `w`, which stays as it is.
pub record Reads {W : Type 0} (ctx : Ctx W) (w : W) : Type 0 where
  pub slots : List ℕ
  pub info : ℕ → TokenInfo
  pub lists : ctx.get_slot_list true w ≡ ok slots w
  pub tells : (slot : ℕ) → ctx.get_token_info slot w ≡ ok (info slot) w

module _ {W : Type 0} (ctx : Ctx W) (pins : Pins W) (w : W) (reads : Reads ctx w) where
  -- The slots whose token has the label.
  abbrev pub labelled : Bytes → List ℕ → List ℕ
  labelled label [] = []
  labelled label (slot ∷ slots) =
      if match_label ctx pins label (reads.info slot).label
      then slot ∷ labelled label slots
      else labelled label slots

  matching-labelled :
      (label : Bytes) (slots result : List ℕ)
      → matching ctx pins label slots result w ≡ ok (result ++ labelled label slots) w
  unfolding matching
  matching-labelled label [] result = ap (λ (r : List ℕ). ok r w) (sym (append-nil result))
  matching-labelled label (slot ∷ slots) result =
      returns _ (reads.tells slot)
        (elim (Bool-cases (match_label ctx pins label (reads.info slot).label)) [
          | inl e ↦ rw e (
              matching-labelled label slots (result ++ slot ∷ [])
              ∙ ap (λ (r : List ℕ). ok r w)
                  (append_assoc result (slot ∷ []) (labelled label slots)))
          | inr e ↦ rw e (matching-labelled label slots result)
        ])

  pub find_token-labelled :
      (label : Bytes) → find_token ctx pins label w ≡ ok (labelled label reads.slots) w
  unfolding find_token
  find_token-labelled label = returns _ reads.lists (matching-labelled label reads.slots [])

  -- How `open_token` ends without exactly one token.
  abbrev pub refusal : List ℕ → Error
  refusal [] = Error.no_token
  refusal (slot ∷ slots) = Error.multiple_tokens

  only_slot-refusal :
      (slots : List ℕ) → length slots ≢ 1 → only_slot ctx pins slots w ≡ err (refusal slots) w
  only_slot-refusal [] h = refl
  only_slot-refusal (slot ∷ []) h = absurd (h refl)
  only_slot-refusal (slot ∷ other ∷ rest) h = refl

  -- When the slots can be read and the number of tokens with the label is not one, open_token
  -- returns the error for none or for several, and the state is as before.
  pub open_token_refused :
      (label : Bytes) (pin_file : Option Bytes)
      → length (labelled label reads.slots) ≢ 1
      → open_token ctx pins label pin_file w ≡ err (refusal (labelled label reads.slots)) w
  unfolding open_token
  open_token_refused label pin_file h =
      returns _ (find_token-labelled label)
        (raises _ (only_slot-refusal (labelled label reads.slots) h))

  module _ (label : Bytes) (pin_file : Option Bytes) (slot : ℕ) (session : Session) (w1 : W)
      (works : Works ctx session) (one : labelled label reads.slots ≡ slot ∷ [])
      (logged_in : login ctx pins slot pin_file w ≡ ok session w1) where
    -- After the login, `open_token` ends as `prepare` does.
    opened :
        {w2 : W}
        → prepare ctx session w1 ≡ ok tt w2
        → open_token ctx pins label pin_file w ≡ ok session w2
    unfolding open_token
    opened prepared = returns _ (find_token-labelled label) (
        returns _ selected (
          returns _ logged_in
            (returns _ (or_drop-ok ctx pins session (prepare ctx session) prepared) refl)))
      where
        selected : only_slot ctx pins (labelled label reads.slots) w ≡ ok slot w
        selected = ap (λ slots. only_slot ctx pins slots w) one

    -- When exactly one token has the label, the login succeeds and the token works but has neither
    -- key nor counter, open_token returns the session, and the token has one key and the counter
    -- 0.
    pub open_token-new :
        works.IsOpen w1
        → search secret_key_template (works.objects w1) ≡ []
        → search token_counter_template (works.objects w1) ≡ []
        → (k : Handle) × (w2 : W) × (open_token ctx pins label pin_file w ≡ ok session w2)
          × Holds ctx session works k 0 w2
    open_token-new o no_key no_counter =
        let (k, w2, e, holds) = prepare-new ctx session works w1 o no_key no_counter in
        (k, w2, opened e, holds)

    -- When exactly one token has the label, the login succeeds and the token has one key and the
    -- counter v with v + 1 below 2 ^ 32, open_token returns the session, and the token has the
    -- same key and the counter v + 1.
    pub open_token-again :
        (k : Handle) (v : ℕ)
        → v + 1 < 2 ^ 32
        → Holds ctx session works k v w1
        → (w2 : W) × (open_token ctx pins label pin_file w ≡ ok session w2)
          × Holds ctx session works k (v + 1) w2
    open_token-again k v fits holds =
        let (w2, e, holds2) = prepare-again ctx session works w1 k v fits holds in
        (w2, opened e, holds2)

    -- When exactly one token has the label and the login succeeds, but the token that works has
    -- several secret keys, open_token closes the session and returns the error for several keys.
    pub open_token_ambiguous :
        (h k : Handle) (ks : List Handle)
        → works.IsOpen w1
        → search secret_key_template (works.objects w1) ≡ h ∷ k ∷ ks
        → ((w2 : W) → works.IsOpen w2 → (w3 : W) × (ctx.close_session session w2 ≡ ok tt w3))
        → (w2 w3 : W) × works.IsOpen w2
          × (ctx.close_session session w2 ≡ ok tt w3)
          × (open_token ctx pins label pin_file w ≡ err Error.multiple_secret_keys w3)
    unfolding open_token
    open_token_ambiguous h k ks o several closes =
        let (w2, e, o2, same) = prepare_ambiguous ctx session works w1 h k ks o several in
        let (w3, closed) = closes w2 o2 in
        (
          w2,
          w3,
          o2,
          closed,
          returns _ (find_token-labelled label) (
              returns _ selected (
                returns _ logged_in
                  (raises _ (or_drop-err ctx pins session (prepare ctx session) e closed)))),
        )
      where
        selected : only_slot ctx pins (labelled label reads.slots) w ≡ ok slot w
        selected = ap (λ slots. only_slot ctx pins slots w) one
