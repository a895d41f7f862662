-- ===== src/Ctaphid/Effects/Answers.antt =====
-- What a command of src/ctaphid.rs leaves of a property of id and queue, by the state of the channel.
use f2ido.Prelude.{ℕ, ◌≡◌, true, false, List, ◌∷◌, ◌++◌}
use f2ido.Ctaphid.Types.{Bytes, Queue, Channel, is_waiting}
use f2ido.Ctaphid.Context.{Context}
use f2ido.Ctaphid.Reply.Bounds.{AreFrames}
use f2ido.Ctaphid.Effects.Rules.{On}

-- `F`, in any state of the channel.
abbrev pub Any : (ℕ → Queue → Type 0) → Channel → Queue → Type 0
Any F ch q = F ch.cid q

-- `F`, in a channel that does not wait.
abbrev pub Idle : (ℕ → Queue → Type 0) → Channel → Queue → Type 0
Idle F ch q = F ch.cid q × (is_waiting ch.state ≡ false)

-- `F`, and `G` where the channel waits.
pub record Answered {W : Type 0} (F G : ℕ → Queue → Type 0) (c : Context W) : Type 0 where
  pub holds : F c.channel.cid c.queue
  pub sent : is_waiting c.channel.state ≡ true → G c.channel.cid c.queue

pub Idle-Answered :
    {W : Type 0} (F G : ℕ → Queue → Type 0) (c : Context W) → On (Idle F) c → Answered F G c
Idle-Answered F G c h = record { holds = h.0; sent = λ w. cc (h.1) }

pub Any-grows :
    (F : ℕ → Queue → Type 0)
    (grows : (cid : ℕ) (q : Queue) (p : Bytes) (ps : List Bytes)
      → AreFrames (p ∷ ps)
      → F cid q
      → F cid (q ++ p ∷ ps))
    (ch : Channel) (q : Queue) (p : Bytes) (ps : List Bytes)
    → AreFrames (p ∷ ps)
    → Any F ch q
    → Any F ch (q ++ p ∷ ps)
Any-grows F grows ch = grows ch.cid

pub Idle-grows :
    (F : ℕ → Queue → Type 0)
    (grows : (cid : ℕ) (q : Queue) (p : Bytes) (ps : List Bytes)
      → AreFrames (p ∷ ps)
      → F cid q
      → F cid (q ++ p ∷ ps))
    (ch : Channel) (q : Queue) (p : Bytes) (ps : List Bytes)
    → AreFrames (p ∷ ps)
    → Idle F ch q
    → Idle F ch (q ++ p ∷ ps)
Idle-grows F grows ch q p ps are h = (grows ch.cid q p ps are h.0, h.1)
