-- ===== src/Tests/Memory.antt =====
-- A token in memory, as an instance of what src/crypto.rs relies on.
use f2ido.Prelude.{
  ℕ, zero, suc, ◌-◌, ◌<◌, ◌≡◌, refl, ap, ap₂, arith, true, Option, none, some, List, [], ◌∷◌, ◌++◌,
  map, length, take, drop, replicate, All, All-append, bytes_eq,
}
use f2ido.Prelude.Bits.{u32_to_be_bytes}
use f2ido.Outcome.{M, ok, pure}
use f2ido.Ctaphid.Types.{Bytes}
use f2ido.Crypto.Pkcs11.{Ctx, Pins, Handle, Attribute, AttributeType, cka_ec_point}
use f2ido.Crypto.Store.{Works, Object, search, lookup, without, value_in}
use f2ido.Crypto.Store.Counter.{Holds}
use f2ido.Crypto.Objects.{secret_key_attributes, token_counter_attributes}
use f2ido.Crypto.Token.{match_label, login, ask_pin}
use f2ido.Crypto.Store.Cipher.{Cipher, AreBytes}
use f2ido.Crypto.Store.Keys.{Pairs}
use f2ido.Crypto.Slots.{Reads, labelled}

-- The objects, the next handle, and the search under way.
pub record Memory : Type 0 where
  pub objects : List Object
  pub next : ℕ
  pub found : List Handle

abbrev bytes_of : Option Bytes → Bytes
bytes_of none = []
bytes_of (some v) = v

abbrev filled : Bytes → Option Bytes → Bytes
filled v none = []
filled v (some buffer) = v ++ drop (length v) buffer

abbrev point : Bytes
point = replicate 64 2

abbrev content : AttributeType → Option (List Attribute) → Bytes
content cka_ec_point attributes = 0x04 ∷ 65 ∷ 0x04 ∷ point
content _ attributes = bytes_of (value_in attributes)

abbrev create : List Attribute → M Memory Handle
create attributes m = ok m.next (record {
  objects = m.objects ++ record { handle = m.next; attributes = attributes } ∷ [];
  next = suc m.next;
  found = m.found;
})

-- Its cipher adds one to each byte; its keys and signatures are constants.
abbrev pub memory : Ctx Memory
memory = record {
  ckr_ok = 0;
  ckr_buffer_too_small = 0x150;
  ckf_protected_authentication_path = 0x100;
  get_slot_list = λ present. pure (7 ∷ 8 ∷ []);
  get_token_info = λ slot. pure (record { label = slot ∷ []; flags = 0x100 });
  open_session = λ slot. pure 1;
  close_session = λ s. pure tt;
  login = λ s pin. pure tt;
  find_objects_init = λ s template m. ok tt (record m { found = search template m.objects });
  find_objects = λ s max m. ok (take max m.found) m;
  find_objects_final = λ s. pure tt;
  create_object = λ s attributes. create attributes;
  destroy_object = λ s h m. ok tt (record m { objects = without h m.objects });
  get_attribute_value = λ s h type buffer m.
      let v : Bytes = content type (lookup h m.objects) in
      ok (record { rv = 0; value_len = length v; buffer = filled v buffer }) m;
  generate_key = λ s mechanism attributes. create attributes;
  generate_key_pair = λ s mechanism pk sk. pure (1, 2);
  wrap_key = λ s mechanism k key. pure (9 ∷ []);
  unwrap_key = λ s mechanism k id template. pure 3;
  digest_init = λ s mechanism. pure tt;
  digest = λ s message. pure message;
  sign_init = λ s mechanism k. pure tt;
  sign = λ s hash. pure (replicate 64 1);
  encrypt_init = λ s mechanism k. pure tt;
  encrypt = λ s d. pure (map suc d);
  decrypt_init = λ s mechanism k. pure tt;
  decrypt = λ s d. pure (map (λ b. b - 1) d);
  finalize = λ m. record m { found = [] };
}

abbrev pub IsBelow : ℕ → List Object → Type 0
IsBelow n = All (λ (o : Object). o.handle < n)

pub lookup_above : (n : ℕ) (os : List Object) → IsBelow n os → lookup n os ≡ none
lookup_above n [] h = refl
lookup_above n (o ∷ os) h = ground (arith, lookup_above n os h.1)

IsBelow-suc : (n : ℕ) (os : List Object) → IsBelow n os → IsBelow (suc n) os
IsBelow-suc n [] h = tt
IsBelow-suc n (o ∷ os) h = (omega (arith, h.0), IsBelow-suc n os h.1)

pub IsBelow-without : (n h : ℕ) (os : List Object) → IsBelow n os → IsBelow n (without h os)
IsBelow-without n h [] b = tt
IsBelow-without n h (o ∷ os) b = ground (arith, IsBelow-without n h os b.1)

pub IsBelow-grown :
    (n : ℕ) (os : List Object) (a : List Attribute)
    → IsBelow n os
    → IsBelow (suc n) (os ++ record { handle = n; attributes = a } ∷ [])
IsBelow-grown n os a h =
    All-append (λ (o : Object). o.handle < suc n) os _ (IsBelow-suc n os h) (omega arith, tt)

abbrev pub memory_works : Works memory 1
memory_works = record {
  IsOpen = λ m. IsBelow m.next m.objects;
  objects = λ m. m.objects;
  finds = λ m label rest max o. (_, _, _, refl, refl, refl, o, refl);
  creates = λ m a o.
      (_, _, refl, IsBelow-grown m.next m.objects a o, refl, lookup_above m.next m.objects o);
  generates = λ m a o.
      (_, _, refl, IsBelow-grown m.next m.objects a o, refl, lookup_above m.next m.objects o);
  destroys = λ m h a o present. (_, refl, IsBelow-without m.next h m.objects o, refl);
  gets = λ m h v buffer o e fits. (m, rw e refl, o, refl);
}

pub unseal-seal : (d : Bytes) → map (λ b. b - 1) (map suc d) ≡ d
unseal-seal [] = refl
unseal-seal (b ∷ d) = ap₂ (λ (x : ℕ) (xs : Bytes). x ∷ xs) (omega arith) (unseal-seal d)

pub length-seal : (d : Bytes) → length (map suc d) ≡ length d
length-seal [] = refl
length-seal (b ∷ d) = ap suc (length-seal d)

abbrev pub memory_cipher : (k : Handle) → Cipher memory 1 memory_works k
memory_cipher k = record {
  seal = map suc;
  unseal = map (λ b. b - 1);
  length-seal = length-seal;
  unseal-seal = λ d octets whole. unseal-seal d;
  encrypts = λ m d o whole. (_, _, refl, refl, o, refl);
  decrypts = λ m d o whole. (_, _, refl, refl, o, refl);
}

pub ones_bytes : (n : ℕ) → AreBytes (replicate n 1)
ones_bytes zero = tt
ones_bytes (suc n) = (omega arith, ones_bytes n)

abbrev pub coordinate : Bytes
coordinate = replicate 32 2

abbrev pub memory_pairs : (k : Handle) → Pairs memory 1 memory_works k
memory_pairs k = record {
  IsPair = λ pk sk x y. (x ≡ coordinate) × (y ≡ coordinate);
  IsId = λ id x y. id ≡ 9 ∷ [];
  Verifies = λ x y digest r s. r ≡ s;
  digest_of = λ message. message;
  pairs = λ m o. (m, 1, 2, coordinate, coordinate, refl, (refl, refl), refl, refl, o, refl);
  wraps = λ m pk sk x y o pair. (m, 9 ∷ [], refl, refl, o, refl);
  points = λ m pk sk x y o pair. (m, m, refl, rw (pair.0, pair.1) refl, o, refl);
  digests = λ m message o. (m, m, refl, refl, o, refl);
  unwraps = λ m id x y o is_id. (
    m,
    3,
    refl,
    o,
    refl,
    λ digest. (
      m,
      m,
      replicate 32 1,
      replicate 32 1,
      refl,
      refl,
      refl,
      refl,
      ones_bytes 32,
      ones_bytes 32,
      omega arith,
      omega arith,
      refl,
      o,
      refl,
    ),
  );
}

-- A token with a key and the counter `v`, a token with nothing, and one with two keys.
abbrev pub ready : ℕ → Memory
ready v = record {
  objects =
      record { handle = 0; attributes = secret_key_attributes }
      ∷ record { handle = 1; attributes = token_counter_attributes (u32_to_be_bytes v) }
      ∷ [];
  next = 2;
  found = [];
}

pub ready-Holds : (v : ℕ) → Holds memory 1 memory_works 0 v (ready v)
unfolding bytes_eq
ready-Holds v = record {
  is_open = (omega arith, (omega arith, tt));
  counter = 1;
  one_counter = refl;
  counter_value = refl;
  apart = refl;
  one_key = refl;
}

abbrev pub blank : Memory
blank = record { objects = []; next = 0; found = [] }

abbrev pub twice : Memory
twice = record {
  objects =
      record { handle = 0; attributes = secret_key_attributes }
      ∷ record { handle = 1; attributes = secret_key_attributes }
      ∷ [];
  next = 2;
  found = [];
}

abbrev pub pins : Pins Memory
pins = record {
  pin = λ description. pure (1 ∷ []);
  gpg_decrypt = λ file_name. pure (record { success = true; stdout = 1 ∷ 10 ∷ [] });
  trim = λ xs. xs;
  from_utf8_lossy = λ xs. xs;
}

abbrev pub reads : (m : Memory) → Reads memory m
reads m = record {
  slots = 7 ∷ 8 ∷ [];
  info = λ slot. record { label = slot ∷ []; flags = 0x100 };
  lists = refl;
  tells = λ slot. refl;
}

pub logged_in : (m : Memory) → login memory pins 7 none m ≡ ok 1 m
unfolding login ask_pin
logged_in m = refl

pub one_slot : (m : Memory) → labelled memory pins m (reads m) (7 ∷ []) (7 ∷ 8 ∷ []) ≡ 7 ∷ []
unfolding match_label bytes_eq
one_slot m = refl
