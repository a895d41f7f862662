-- ===== src/Crypto/Store.antt =====
-- The objects of a token as src/crypto.rs finds, makes and destroys them, and what it relies on of
-- the pkcs11 crate for them.
pub mod Objects
pub mod Counter
pub mod Cipher
pub mod Keys
pub mod Opening
use f2ido.Prelude.{
  ℕ, ◌+◌, ◌≤◌, ◌≡◌, Bool, true, false, not, ◌&&◌, ◌||◌, Option, none, some, List, [], ◌∷◌, ◌++◌,
  ◌==◌, length, take, drop, bytes_eq, if◌then◌else◌,
}
use f2ido.Outcome.{Outcome, ok}
use f2ido.Ctaphid.Types.{Bytes}
use f2ido.Crypto.Pkcs11.{
  Ctx, Session, Handle, Got, Attribute, AttributeType, Value, Ulong, ulong, boolean, octets,
  cko_data, cko_secret_key, cko_private_key, ckk_aes, ckk_ec, number, cka_class, cka_token,
  cka_label, cka_value, cka_key_type, cka_value_len, cka_sensitive, cka_extractable, cka_wrap,
  cka_unwrap, cka_encrypt, cka_decrypt, cka_destroyable, cka_ec_params, cka_ec_point,
  ckm_aes_key_gen,
}

abbrev pub type_code : AttributeType → ℕ
type_code cka_class = 0
type_code cka_token = 1
type_code cka_label = 2
type_code cka_value = 3
type_code cka_key_type = 4
type_code cka_value_len = 5
type_code cka_sensitive = 6
type_code cka_extractable = 7
type_code cka_wrap = 8
type_code cka_unwrap = 9
type_code cka_encrypt = 10
type_code cka_decrypt = 11
type_code cka_destroyable = 12
type_code cka_ec_params = 13
type_code cka_ec_point = 14

abbrev ulong_code : Ulong → ℕ
ulong_code cko_data = 0
ulong_code cko_secret_key = 1
ulong_code cko_private_key = 2
ulong_code ckk_aes = 3
ulong_code ckk_ec = 4
ulong_code (number n) = 5 + n

abbrev value_eq : Value → Value → Bool
value_eq (ulong u) (ulong v) = ulong_code u == ulong_code v
value_eq (boolean b) (boolean c) = if b then c else not c
value_eq (octets xs) (octets ys) = bytes_eq xs ys
value_eq _ _ = false

abbrev has : Attribute → List Attribute → Bool
has a [] = false
has a (b ∷ bs) = ((type_code a.type == type_code b.type) && value_eq a.value b.value) || has a bs

-- An object is found by a template that its attributes contain.
abbrev pub matches : (template attributes : List Attribute) → Bool
matches [] attributes = true
matches (a ∷ rest) attributes = has a attributes && matches rest attributes

pub record Object : Type 0 where
  pub handle : Handle
  pub attributes : List Attribute

-- The objects that a template finds, in their order.
abbrev pub search : List Attribute → List Object → List Handle
search template [] = []
search template (o ∷ os) =
    if matches template o.attributes then o.handle ∷ search template os else search template os

abbrev pub lookup : Handle → List Object → Option (List Attribute)
lookup h [] = none
lookup h (o ∷ os) = if o.handle == h then some o.attributes else lookup h os

abbrev pub without : Handle → List Object → List Object
without h [] = []
without h (o ∷ os) = if o.handle == h then without h os else o ∷ without h os

abbrev value_bytes : Value → Bytes
value_bytes (octets xs) = xs
value_bytes _ = []

-- `CKA_VALUE` of the attributes
abbrev pub value_attribute : List Attribute → Option Bytes
value_attribute [] = none
value_attribute (a ∷ rest) =
    if type_code a.type == type_code cka_value
    then some (value_bytes a.value)
    else value_attribute rest

abbrev pub value_in : Option (List Attribute) → Option Bytes
value_in none = none
value_in (some attributes) = value_attribute attributes

-- A template with a label first.
abbrev pub labelled : Bytes → List Attribute → List Attribute
labelled label rest = record { type = cka_label; value = octets label } ∷ rest

-- A token that works: `IsOpen` are the states where the session is logged in, no search is under
-- way, and there is room for more objects. `objects` are those of the token and not of a session;
-- the source gives no label to the latter. A search by a label lists the objects that match; a new
-- object has a new handle; the rest is as the names say.
pub record Works {W : Type 0} (ctx : Ctx W) (session : Session) : Type 1 where
  pub IsOpen : W → Type 0
  pub objects : W → List Object
  pub finds :
      (w : W) (label : Bytes) (rest : List Attribute) (max : ℕ)
      → IsOpen w
      → (w1 w2 w3 : W) × (ctx.find_objects_init session (labelled label rest) w ≡ ok tt w1)
        × (ctx.find_objects session max w1
            ≡ ok (take max (search (labelled label rest) (objects w))) w2)
        × (ctx.find_objects_final session w2 ≡ ok tt w3)
        × IsOpen w3
        × (objects w3 ≡ objects w)
  pub creates :
      (w : W) (attributes : List Attribute)
      → IsOpen w
      → (w1 : W) × (h : Handle) × (ctx.create_object session attributes w ≡ ok h w1)
        × IsOpen w1
        × (objects w1 ≡ objects w ++ record { handle = h; attributes = attributes } ∷ [])
        × (lookup h (objects w) ≡ none)
  pub generates :
      (w : W) (attributes : List Attribute)
      → IsOpen w
      → (w1 : W) × (h : Handle) × (ctx.generate_key session ckm_aes_key_gen attributes w ≡ ok h w1)
        × IsOpen w1
        × (objects w1 ≡ objects w ++ record { handle = h; attributes = attributes } ∷ [])
        × (lookup h (objects w) ≡ none)
  pub destroys :
      (w : W) (h : Handle) (attributes : List Attribute)
      → IsOpen w
      → lookup h (objects w) ≡ some attributes
      → (w1 : W) × (ctx.destroy_object session h w ≡ ok tt w1)
        × IsOpen w1
        × (objects w1 ≡ without h (objects w))
  pub gets :
      (w : W) (h : Handle) (v buffer : Bytes)
      → IsOpen w
      → value_in (lookup h (objects w)) ≡ some v
      → length v ≤ length buffer
      → (w1 : W) × (ctx.get_attribute_value session h cka_value (some buffer) w
          ≡ ok
              (record {
                rv = ctx.ckr_ok;
                value_len = length v;
                buffer = v ++ drop (length v) buffer;
              })
              w1)
        × IsOpen w1
        × (objects w1 ≡ objects w)
