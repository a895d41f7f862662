-- ===== src/Ctaphid/Context.antt =====
-- What a method of `Channel` acts on: the channel itself, the send queue and the world.
use f2ido.Prelude.{ℕ}
use f2ido.Outcome.{M, Outcome, ok, err, panic}
use f2ido.Ctaphid.Types.{Bytes, Queue, State, Channel}
use f2ido.Ctaphid.Reply.{send_reply}

pub record Context (W : Type 0) : Type 0 where
  pub channel : Channel
  pub queue : Queue
  pub world : W

module _ {W : Type 0} where
  -- A call of the key store.
  abbrev pub lift : {A : Type 0} → M W A → M (Context W) A
  lift m c = elim (m c.world) [
    | ok a w ↦ ok a (record c { world = w })
    | err e w ↦ err e (record c { world = w })
    | panic ↦ panic
  ]

  -- A call of the prompt or the clock, which neither fails nor panics.
  abbrev pub call : {A : Type 0} → (W → A × W) → M (Context W) A
  call f c = let (a, w) = f c.world in ok a (record c { world = w })

  abbrev pub put_queue : {A : Type 0} → Context W → Outcome Queue A → Outcome (Context W) A
  put_queue c (ok a q) = ok a (record c { queue = q })
  put_queue c (err e q) = err e (record c { queue = q })
  put_queue c panic = panic

  -- A call that is handed the send queue.
  abbrev pub on_queue : {A : Type 0} → M Queue A → M (Context W) A
  on_queue m c = put_queue c (m c.queue)

  abbrev pub get_cid : M (Context W) ℕ
  get_cid c = ok c.channel.cid c

  abbrev pub get_state : M (Context W) State
  get_state c = ok c.channel.state c

  -- `self.state = …`
  abbrev pub set_state : State → M (Context W) (Unit {0})
  set_state s c = ok tt (record c { channel = record { cid = c.channel.cid; state = s } })

  -- `send_reply(q, self.cid, cmd, payload)`
  abbrev pub reply : (cmd : ℕ) → Bytes → M (Context W) (Unit {0})
  reply cmd payload c = on_queue (send_reply c.channel.cid cmd payload) c
