-- ===== src/Prompt/Consent.antt =====
-- `yes_or_no_p` of src/prompt.rs: its threads and their channels of capacity one, with the
-- `recv_timeout` of src/ctaphid.rs. `schedule` says which threads take a step before the next
-- reception returns, in their order. A `send` and the drop of its sender are two steps.
pub mod Life
pub mod Reception
pub mod Delivery
pub mod Answers
pub mod Decision
use f2ido.Prelude.{
  ℕ, zero, suc, Bool, Option, none, some, List, [], ◌∷◌, ◌++◌, length, get_elem?, set,
}
use f2ido.Ctaphid.Types.{Bytes, Receiver}
use f2ido.Ctaphid.Env.{Question, Recv, answer, failed, disconnected, timeout, Prompt}
use f2ido.Prompt.{escape_string}

-- `Result<bool, pinentry_rs::Error>`
pub data Answer : Type 0 where
  said : Bool → Answer
  error : Answer

-- The closure of `spawn`: in `confirm_yes_no`, before `send`, after `send` and before its sender
-- is dropped, and at its end.
pub data Thread : Type 0 where
  confirming : Thread
  sending : Answer → Thread
  dropping : Thread
  ended : Thread

-- One call of `yes_or_no_p`: `peb`'s description, the thread and the buffer of the channel.
pub record Consent : Type 0 where
  pub description : Bytes
  pub thread : Thread
  pub buffer : Option Answer

pub record Desk : Type 0 where
  pub consents : List Consent
  pub schedule : List (List Receiver)

-- What `confirm_yes_no` returns to the thread with this number and description. `none` is a panic,
-- which drops the sender.
abbrev pub Confirm : Type 0
Confirm = Receiver → Bytes → Option Answer

abbrev pub confirmed : Option Answer → Thread
confirmed none = ended
confirmed (some a) = sending a

-- `sender.send(r)` waits as long as the buffer is full.
abbrev pub sent : Answer → Consent → Option Answer → Consent
sent a c none = record { description = c.description; thread = dropping; buffer = some a }
sent a c (some b) = c

abbrev pub advanced : Option Answer → Consent → Thread → Consent
advanced o c confirming = record {
  description = c.description;
  thread = confirmed o;
  buffer = c.buffer;
}
advanced o c (sending a) = sent a c c.buffer
advanced o c dropping = record { description = c.description; thread = ended; buffer = c.buffer }
advanced o c ended = c

-- One step of a thread.
abbrev pub advance : Confirm → Receiver → Consent → Consent
advance confirm i c = advanced (confirm i c.description) c c.thread

abbrev pub advance_at : Confirm → Receiver → List Consent → Option Consent → List Consent
advance_at confirm i cs none = cs
advance_at confirm i cs (some c) = set cs i (advance confirm i c)

unfoldable pub advance_all : Confirm → List Receiver → List Consent → List Consent
advance_all confirm [] cs = cs
advance_all confirm (i ∷ is) cs = advance_all confirm is (advance_at confirm i cs (get_elem? cs i))

unfoldable pub yes_or_no_p : (prompt : Bytes) → Desk → Receiver × Desk
unfolding escape_string
yes_or_no_p prompt desk = (
  length desk.consents,
  record {
    consents =
        desk.consents
        ++ (record { description = escape_string prompt; thread = confirming; buffer = none } ∷ []);
    schedule = desk.schedule;
  },
)

abbrev pub received : Answer → Recv
received (said b) = answer b
received error = failed

-- An empty buffer: the sender is gone, or the time runs out.
abbrev pub nothing_received : Thread → Recv
nothing_received confirming = timeout
nothing_received (sending a) = timeout
nothing_received dropping = timeout
nothing_received ended = disconnected

abbrev pub buffered : Thread → Option Answer → Recv
buffered thread none = nothing_received thread
buffered thread (some a) = received a

abbrev pub emptied : Consent → Consent
emptied c = record { description = c.description; thread = c.thread; buffer = none }

-- A receiver without its thread does not occur: `yes_or_no_p` makes both.
abbrev pub receive : Receiver → List Consent → Option Consent → Recv × List Consent
receive i cs none = (disconnected, cs)
receive i cs (some c) = (buffered c.thread c.buffer, set cs i (emptied c))

abbrev pub next_steps : List (List Receiver) → List Receiver
next_steps [] = []
next_steps (steps ∷ rest) = steps

abbrev pub later_steps : List (List Receiver) → List (List Receiver)
later_steps [] = []
later_steps (steps ∷ rest) = rest

-- `consent.recv_timeout(…)`
unfoldable pub recv_timeout : Confirm → Receiver → (millis : ℕ) → Desk → Recv × Desk
unfolding advance_all
recv_timeout confirm i millis desk =
    let cs = advance_all confirm (next_steps desk.schedule) desk.consents in
    let r = receive i cs (get_elem? cs i) in
    (r.0, record { consents = r.1; schedule = later_steps desk.schedule })

-- What the channels use, for the texts of `format!` and a clock.
unfoldable pub consent_prompt :
    Confirm → (format : Question → Bytes) (clock : Desk → ℕ × Desk) → Prompt Desk
unfolding yes_or_no_p recv_timeout
consent_prompt confirm format clock = record {
  yes_or_no_p = λ q. yes_or_no_p (format q);
  recv_timeout = recv_timeout confirm;
  now = clock;
}
