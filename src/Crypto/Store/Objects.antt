-- ===== src/Crypto/Store/Objects.antt =====
-- Searches in lists of objects that grow and shrink.
use f2ido.Prelude.{
  ℕ, ◌≡◌, refl, arith, true, false, Option, none, some, List, [], ◌∷◌, ◌++◌, ◌==◌, if◌then◌else◌,
}
use f2ido.Crypto.Pkcs11.{Handle, Attribute}
use f2ido.Crypto.Store.{Object, matches, search, lookup, without, value_in}

pub search-append :
    (t : List Attribute) (os ps : List Object) → search t (os ++ ps) ≡ search t os ++ search t ps
search-append t [] ps = refl
search-append t (o ∷ os) ps = ground (arith, search-append t os ps)

pub search-hit :
    (t : List Attribute) (os : List Object) (o : Object)
    → matches t o.attributes ≡ true
    → search t (os ++ o ∷ []) ≡ search t os ++ o.handle ∷ []
search-hit t os o h = ground (arith, search-append t os (o ∷ []))

pub search-miss :
    (t : List Attribute) (os : List Object) (o : Object)
    → matches t o.attributes ≡ false
    → search t (os ++ o ∷ []) ≡ search t os
search-miss t [] o h = ground arith
search-miss t (p ∷ os) o h = ground (arith, search-miss t os o h)

-- The handles other than one.
abbrev pub others : Handle → List Handle → List Handle
others h [] = []
others h (k ∷ ks) = if k == h then others h ks else k ∷ others h ks

pub search-without :
    (t : List Attribute) (h : Handle) (os : List Object)
    → search t (without h os) ≡ others h (search t os)
search-without t h [] = refl
search-without t h (o ∷ os) = ground (arith, search-without t h os)

pub lookup-new :
    (h : Handle) (os : List Object) (a : List Attribute)
    → lookup h os ≡ none
    → lookup h (os ++ record { handle = h; attributes = a } ∷ []) ≡ some a
lookup-new h [] a e = ground arith
lookup-new h (o ∷ os) a e = ground (arith, lookup-new h os a)

pub lookup-old :
    (h k : Handle) (os : List Object) (a b : List Attribute)
    → lookup k os ≡ some b
    → lookup k (os ++ record { handle = h; attributes = a } ∷ []) ≡ some b
lookup-old h k [] a b e = cc
lookup-old h k (o ∷ os) a b e = ground (arith, lookup-old h k os a b)

-- A handle that is found is not a new one.
pub found_not_fresh :
    (t : List Attribute) (h k : Handle) (os : List Object) (ks : List Handle)
    → lookup h os ≡ none
    → search t os ≡ k ∷ ks
    → (k == h) ≡ false
found_not_fresh t h k [] ks fresh found = cc
found_not_fresh t h k (o ∷ os) ks fresh found = ground (arith, found_not_fresh t h k os ks)

pub value_in-some :
    (o : Option (List Attribute)) (v : List ℕ)
    → value_in o ≡ some v
    → (a : List Attribute) × (o ≡ some a)
value_in-some none v e = cc
value_in-some (some a) v e = (a, refl)

pub others_self : (h : Handle) → others h (h ∷ []) ≡ []
others_self h = ground arith

abbrev pub new : Handle → List Attribute → Object
new h attributes = record { handle = h; attributes = attributes }

module _ (os : List Object) {os' : List Object} (h : Handle) (a : List Attribute)
    (grown : os' ≡ os ++ new h a ∷ []) where
  pub search-grown_hit :
      (t : List Attribute) → matches t a ≡ true → search t os ≡ [] → search t os' ≡ h ∷ []
  search-grown_hit t hit e = rw grown (ground (arith, search-hit t os (new h a)))

  pub search-grown_miss :
      (t : List Attribute) {hs : List Handle}
      → matches t a ≡ false
      → search t os ≡ hs
      → search t os' ≡ hs
  search-grown_miss t miss e = rw grown (ground (arith, search-miss t os (new h a)))

  pub lookup-grown : lookup h os ≡ none → lookup h os' ≡ some a
  lookup-grown fresh = rw grown (lookup-new h os a fresh)
