-- ===== src/Crypto/Token.antt =====
-- `open_token` of src/crypto.rs, with the search for the slot and the login; `with_ctx`.
use f2ido.Prelude.{
  ℕ, ◌-◌, Bool, true, false, not, Option, none, some, List, [], ◌∷◌, ◌++◌, ◌==◌, length, bit_and,
  bytes_eq, if◌then◌else◌,
}
use f2ido.Prelude.Text.{codes, from_utf8}
use f2ido.Outcome.{
  M, Outcome, ok, err, panic, Error, pure, fail, abort, or_abort, assert, slice, ◌>>=◌, ◌>>◌,
}
use f2ido.Ctaphid.Types.{Bytes}
use f2ido.Crypto.Pkcs11.{Ctx, Pins, Session, Handle, TokenInfo}
use f2ido.Prompt.{read_pin}
use f2ido.Crypto.KeyStore.{
  find_secret_key, find_token_counter, create_secret_key, create_token_counter,
  increment_token_counter, unwrap,
}

module _ {W : Type 0} (ctx : Ctx W) where
  abbrev pub secret_key_or_new : Session → Option Handle → M W (Unit {0})
  secret_key_or_new s none = create_secret_key ctx s
  secret_key_or_new s (some key) = pure tt

  -- The message that a counter was found has the counter in it, incremented.
  abbrev pub token_counter_or_new : Session → Option Handle → M W (Unit {0})
  token_counter_or_new s none = create_token_counter ctx s 0
  token_counter_or_new s (some counter) = increment_token_counter ctx s >> pure tt

  unfoldable pub prepare : Session → M W (Unit {0})
  unfolding find_secret_key find_token_counter create_secret_key create_token_counter
      increment_token_counter
  prepare s = do
    key ← find_secret_key ctx s
    secret_key_or_new s key
    counter ← find_token_counter ctx s
    token_counter_or_new s counter

module _ {W : Type 0} (ctx : Ctx W) (pins : Pins W) where
  unfoldable pub match_label : (pattern label : Bytes) → Bool
  unfolding from_utf8 bytes_eq
  match_label pattern label = elim (from_utf8 label) [
    | some text ↦ bytes_eq (pins.trim text) (pins.trim pattern)
    | none ↦ false
  ]

  -- The loop over the slots, `result` so far.
  unfoldable pub matching : (pattern : Bytes) (slots result : List ℕ) → M W (List ℕ)
  unfolding match_label bytes_eq
  matching pattern [] result = pure result
  matching pattern (slot ∷ slots) result = do
    info ← ctx.get_token_info slot
    matching pattern slots (if match_label pattern info.label then result ++ slot ∷ [] else result)

  unfoldable pub find_token : (label : Bytes) → M W (List ℕ)
  unfolding matching
  find_token label = do slots ← ctx.get_slot_list true; matching label slots []

  -- The last byte, a newline, is dropped; `stdout.len()-1` of nothing panics.
  unfoldable pub read_pin_file : (file_name : Bytes) → M W Bytes
  read_pin_file file_name = do
    output ← pins.gpg_decrypt file_name
    if output.success
        then (assert (not (length output.stdout == 0))
            >> slice 0 (length output.stdout - 1) output.stdout)
        else abort

  abbrev pub pin_prompt : TokenInfo → Bytes
  pin_prompt info =
      codes "Please insert the User PIN for the token with\nlabel: "
      ++ pins.from_utf8_lossy info.label

  -- The PIN, when the token has no input of its own.
  unfoldable pub ask_pin : Bool → TokenInfo → (pin_file : Option Bytes) → M W (Option Bytes)
  unfolding read_pin_file read_pin from_utf8
  ask_pin false info pin_file = pure none
  ask_pin true info none = do
    pin ← unwrap (read_pin pins (pin_prompt info))
    text ← or_abort (from_utf8 pin)
    pure (some text)
  ask_pin true info (some file_name) = do
    pin ← unwrap (read_pin_file file_name)
    text ← or_abort (from_utf8 pin)
    pure (some text)

  unfoldable pub login : (slot_id : ℕ) (pin_file : Option Bytes) → M W Session
  unfolding ask_pin
  login slot_id pin_file = do
    info ← ctx.get_token_info slot_id
    s ← ctx.open_session slot_id
    pin ← ask_pin (bit_and info.flags ctx.ckf_protected_authentication_path == 0) info pin_file
    ctx.login s pin
    pure s

  -- `KeyStore::drop`
  unfoldable pub drop_key_store : Session → M W (Unit {0})
  drop_key_store session = unwrap (ctx.close_session session)

  -- A `KeyStore` that goes out of scope when `?` returns the error of `m`.
  abbrev pub closing : {A : Type 0} → Session → Outcome W A → Outcome W A
  closing session (ok a w) = ok a w
  closing session (err e w) = (drop_key_store session >> fail e) w
  closing session panic = panic

  abbrev pub or_drop : {A : Type 0} → Session → M W A → M W A
  or_drop session m w = closing session (m w)

  -- `match slot_ids.len()`
  abbrev pub only_slot : List ℕ → M W ℕ
  only_slot [] = fail Error.no_token
  only_slot (slot ∷ []) = pure slot
  only_slot (slot ∷ other ∷ rest) = fail Error.multiple_tokens

  unfoldable pub open_token : (label : Bytes) (pin_file : Option Bytes) → M W Session
  unfolding find_token login prepare drop_key_store
  open_token label pin_file = do
    slot_ids ← find_token label
    slot_id ← only_slot slot_ids
    s ← login slot_id pin_file
    or_drop s (prepare ctx s)
    pure s
