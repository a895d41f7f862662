-- ===== src/Tests/Token.antt =====
-- Runs of src/crypto.rs on the token in memory.
use f2ido.Prelude.{ℕ, ◌≡◌, refl, arith, true, none, some, [], ◌∷◌, length, bytes_eq}
use f2ido.Outcome.{ok, err, panic, Error, pure}
use f2ido.Ctaphid.Types.{Bytes}
use f2ido.Crypto.Pkcs11.{Handle}
use f2ido.Crypto.Store.Counter.{
  Holds, increments, increments-ticks, increment_token_counter_overflow,
}
use f2ido.Crypto.KeyStore.{
  encrypt, decrypt, generate_key_pair, is_valid_id, sign, increment_token_counter,
}
use f2ido.Crypto.Token.{open_token, match_label}
use f2ido.Crypto.Signature.Der.{read_signature}
use f2ido.Crypto.Store.Cipher.{encrypt-decrypt}
use f2ido.Crypto.Store.Keys.{generate_key_pair-is_valid_id, sign-Verifies}
use f2ido.Crypto.Slots.{open_token_refused, open_token-new, open_token-again, open_token_ambiguous}
use f2ido.Tests.Memory.{
  Memory, memory, memory_works, memory_cipher, coordinate, memory_pairs, ready, ready-Holds, blank,
  twice, pins, reads, logged_in, one_slot,
}

open_token-new_example :
    (k : Handle) × (m : Memory) × (open_token memory pins (7 ∷ []) none blank ≡ ok 1 m)
    × Holds memory 1 memory_works k 0 m
open_token-new_example =
    open_token-new memory pins blank (reads blank) (7 ∷ []) none 7 1 blank memory_works
      (one_slot blank) (logged_in blank) tt refl refl

open_token-again_example :
    (m : Memory) × (open_token memory pins (7 ∷ []) none (ready 5) ≡ ok 1 m)
    × Holds memory 1 memory_works 0 6 m
open_token-again_example =
    open_token-again memory pins (ready 5) (reads (ready 5)) (7 ∷ []) none 7 1 (ready 5)
      memory_works (one_slot (ready 5)) (logged_in (ready 5)) 0 5 (omega arith) (ready-Holds 5)

open_token_refused_example : open_token memory pins (9 ∷ []) none blank ≡ err Error.no_token blank
unfolding match_label bytes_eq
open_token_refused_example =
    open_token_refused memory pins blank (reads blank) (9 ∷ []) none (λ e. omega (arith, e))

open_token_ambiguous_example :
    (m m' : Memory) × memory_works.IsOpen m
    × (pure {S = Memory} tt m ≡ ok tt m')
    × (open_token memory pins (7 ∷ []) none twice ≡ err Error.multiple_secret_keys m')
unfolding bytes_eq
open_token_ambiguous_example =
    open_token_ambiguous memory pins twice (reads twice) (7 ∷ []) none 7 1 twice memory_works
      (one_slot twice) (logged_in twice) 0 1 [] (omega arith, (omega arith, tt)) refl
      (λ m o. (m, refl))

increments-ticks_example :
    (m : Memory) × (increments memory 1 memory_works 2 (ready 5) ≡ ok (5 ∷ 6 ∷ []) m)
    × Holds memory 1 memory_works 0 7 m
increments-ticks_example =
    increments-ticks memory 1 memory_works 2 (ready 5) 0 5 (omega arith) (ready-Holds 5)

increment_token_counter_overflow_example :
    increment_token_counter memory 1 (ready 0xFFFFFFFF) ≡ panic
increment_token_counter_overflow_example =
    increment_token_counter_overflow memory 1 memory_works (ready 0xFFFFFFFF) 0 0xFFFFFFFF refl
      (ready-Holds 0xFFFFFFFF)

encrypt-decrypt_example :
    (c : Bytes) × (m : Memory) × (encrypt memory 1 (1 ∷ 2 ∷ []) (ready 5) ≡ ok c m)
    × (length c ≡ 32)
    × Holds memory 1 memory_works 0 5 m
    × ((m2 : Memory) (u : ℕ)
        → Holds memory 1 memory_works 0 u m2
        → (m3 : Memory) × (decrypt memory 1 c m2 ≡ ok (1 ∷ 2 ∷ []) m3)
          × Holds memory 1 memory_works 0 u m3)
encrypt-decrypt_example =
    encrypt-decrypt memory 1 memory_works 0 (memory_cipher 0) (ready 5) 5 (1 ∷ 2 ∷ [])
      (omega arith, (omega arith, tt)) (omega arith) (ready-Holds 5)

generate_key_pair-is_valid_id_example :
    (m1 : Memory) × (id x y : Bytes) × (generate_key_pair memory 1 (ready 5) ≡ ok (id, x, y) m1)
    × (length x ≡ 32)
    × (length y ≡ 32)
    × (id ≡ 9 ∷ [])
    × Holds memory 1 memory_works 0 5 m1
    × ((m2 : Memory) (u : ℕ)
        → Holds memory 1 memory_works 0 u m2
        → (m3 : Memory) × (is_valid_id memory 1 id m2 ≡ ok true m3)
          × Holds memory 1 memory_works 0 u m3)
generate_key_pair-is_valid_id_example =
    generate_key_pair-is_valid_id memory 1 memory_works 0 (memory_pairs 0) (ready 5) 5
      (ready-Holds 5)

sign-Verifies_example :
    (m1 : Memory) × (out : Bytes) × (r s : ℕ) × (sign memory 1 (9 ∷ []) (1 ∷ 2 ∷ []) (ready 5)
      ≡ ok out m1)
    × (read_signature out ≡ some (r, s))
    × (r ≡ s)
    × Holds memory 1 memory_works 0 5 m1
sign-Verifies_example =
    sign-Verifies memory 1 memory_works 0 (memory_pairs 0) (ready 5) 5 (9 ∷ []) coordinate
      coordinate (1 ∷ 2 ∷ []) (ready-Holds 5) refl
