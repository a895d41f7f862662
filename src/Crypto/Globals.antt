-- ===== src/Crypto/Globals.antt =====
-- `globals::with_ctx` of src/crypto.rs: one PKCS#11 context at a time. `lock` is the number in the
-- mutex; a call from inside `f` would wait for the mutex for ever, and is not made.
use f2ido.Prelude.{ℕ, ◌+◌, ◌-◌, ◌==◌, Option, none, some}
use f2ido.Outcome.{M, Outcome, ok, err, panic, assert, ◌>>=◌, ◌>>◌}
use f2ido.Ctaphid.Types.{Bytes}
use f2ido.Crypto.Pkcs11.{Ctx}

pub record Process (W : Type 0) : Type 0 where
  pub lock : ℕ
  pub world : W

module _ {W : Type 0} where
  abbrev pub set_lock : ℕ → M (Process W) (Unit {0})
  set_lock n p = ok tt (record { lock = n; world = p.world })

  abbrev pub get_lock : M (Process W) ℕ
  get_lock p = ok p.lock p

  abbrev pub in_process : {A : Type 0} → ℕ → Outcome W A → Outcome (Process W) A
  in_process n (ok a w) = ok a (record { lock = n; world = w })
  in_process n (err e w) = err e (record { lock = n; world = w })
  in_process n panic = panic

  -- The context goes out of scope at the end of its arm, also when `f` returns an `Err`.
  abbrev pub finalized : {A : Type 0} → Ctx W → Outcome W A → Outcome W A
  finalized ctx (ok a w) = ok a (ctx.finalize w)
  finalized ctx (err e w) = err e (ctx.finalize w)
  finalized ctx panic = panic

  -- `match Ctx::new_and_initialize(path)`: `f` is given the context, or none.
  abbrev pub applied : {A : Type 0} → (Option (Ctx W) → M W A) → Outcome W (Ctx W) → Outcome W A
  applied f (ok ctx w) = finalized ctx (f (some ctx) w)
  applied f (err e w) = f none w
  applied f panic = panic

  -- The number goes back down after `r`, also when `r` is an `Err`.
  abbrev pub released : {A : Type 0} → Outcome (Process W) A → Outcome (Process W) A
  released (ok a p) = (set_lock (p.lock - 1) >> get_lock >>= λ n. assert (n == 0) >> ok a) p
  released (err e p) = (set_lock (p.lock - 1) >> get_lock >>= λ n. assert (n == 0) >> err e) p
  released panic = panic

  unfoldable pub with_ctx :
      {A : Type 0}
      → (new_and_initialize : Bytes → M W (Ctx W)) (path : Bytes) (f : Option (Ctx W) → M W A)
      → M (Process W) A
  with_ctx new_and_initialize path f = do
    lock ← get_lock
    assert (lock == 0)
    set_lock (lock + 1)
    (λ p. released (in_process p.lock (applied f (new_and_initialize path p.world))))
