-- ===== src/Eventloop.antt =====
-- `EventLoop` of src/eventloop.rs: submitted requests are given to the handler of their endpoint,
-- and a request that a handler cannot answer yet is kept until it is unblocked.
pub mod Unlink
pub mod Written
pub mod Rules
pub mod Replies
pub mod Handlers
pub mod Endpoints
pub mod Invariant
pub mod Unblocked
use f2ido.Prelude.{
  ℕ, zero, suc, ◌-◌, ◌^◌, Bool, true, false, not, ◌&&◌, ◌||◌, Option, none, some, List, [], ◌∷◌,
  ◌++◌, ltb, ◌==◌, length, replicate, bit_and, if◌then◌else◌,
}
use f2ido.Prelude.Text.{ℤ, pos, negsuc}
use f2ido.Outcome.{M, ok, err, panic, pure, fail, abort, attempt, ◌>>=◌, ◌>>◌, assert, Error}
use f2ido.Usbip.Stream.{Header, Stream, read_exact}
use f2ido.Usbip.Wire.{
  usbip_cmd_submit, usbip_cmd_unlink, usbip_dir_out, usbip_dir_in, read_cmd_header, transfer_flags,
  transfer_buffer_length, setup, unlink_seqnum, write_submit_reply, write_submit_reply_error,
  write_unlink_reply,
}

-- A handler of an endpoint with its callback; `D` and `H` name the program's callbacks.
pub data Handler (D H : Type 0) : Type 0 where
  dev2host : (ep : ℕ) (callback : D) → Handler D H
  host2dev : (ep : ℕ) (callback : H) → Handler D H

pub record EventLoop (D H T : Type 0) : Type 0 where
  pub state : T
  pub handlers : List (Handler D H)
  pub blocked : List Header
  pub unblocked : List Header

-- The loop and the stream that it serves.
pub record Session (D H T : Type 0) : Type 0 where
  pub loop : EventLoop D H T
  pub stream : Stream

-- The closure of `remove_handler` and of `unblock_handler`.
abbrev pub handles : {D H : Type 0} → (endpoint : ℕ) (is_in : Bool) → Handler D H → Bool
handles endpoint is_in (dev2host ep f) = is_in && (ep == endpoint)
handles endpoint is_in (host2dev ep f) = not is_in && (ep == endpoint)

-- What was found further behind, with the element in front put back.
abbrev pub put_front : {A : Type 0} → A → Option (A × List A) → Option (A × List A)
put_front x none = none
put_front x (some (y, ys)) = some (y, x ∷ ys)

-- `iter().position(p)` with `remove`: the first element that fits, and the rest.
unfoldable pub remove_first : {A : Type 0} → (A → Bool) → List A → Option (A × List A)
remove_first p [] = none
remove_first p (x ∷ xs) =
    let found = remove_first p xs in if p x then some (x, xs) else put_front x found

-- `iter().any(p)`
unfoldable pub any : {A : Type 0} → (A → Bool) → List A → Bool
any p [] = false
any p (x ∷ xs) = p x || any p xs

-- The closure of `unblock_handler` on a blocked request.
abbrev pub waits_on : (endpoint : ℕ) (is_in : Bool) → Header → Bool
waits_on endpoint is_in h =
    (h.ep == endpoint)
    && (if is_in then h.direction == usbip_dir_in else not (h.direction == usbip_dir_in))

-- `retain` of the headers with another number.
unfoldable pub retain_others : ℕ → List Header → List Header
retain_others seqnum [] = []
retain_others seqnum (h ∷ hs) =
    let rest = retain_others seqnum hs in if h.seqnum == seqnum then rest else h ∷ rest

abbrev has_seqnum : ℕ → Header → Bool
has_seqnum seqnum h = h.seqnum == seqnum

module _ {D H T : Type 0} where
  abbrev pub on_stream : {A : Type 0} → M Stream A → M (Session D H T) A
  on_stream m s = elim (m s.stream) [
    | ok a t ↦ ok a (record s { stream = t })
    | err e t ↦ err e (record s { stream = t })
    | panic ↦ panic
  ]

  abbrev pub on_loop : {A : Type 0} → M (EventLoop D H T) A → M (Session D H T) A
  on_loop m s = elim (m s.loop) [
    | ok a l ↦ ok a (record s { loop = l })
    | err e l ↦ err e (record s { loop = l })
    | panic ↦ panic
  ]

  -- `EventLoop::new`
  unfoldable pub new : T → EventLoop D H T
  new state = record { state = state; handlers = []; blocked = []; unblocked = [] }

  unfoldable pub schedule : Handler D H → M (EventLoop D H T) (Unit {0})
  schedule h l = ok tt (record l { handlers = l.handlers ++ h ∷ [] })

  abbrev pub take_handler :
      Option (Handler D H × List (Handler D H)) → M (EventLoop D H T) (Option (Handler D H))
  take_handler none l = ok none l
  take_handler (some (h, rest)) l = ok (some h) (record l { handlers = rest })

  unfoldable pub remove_handler : ℕ → Bool → M (EventLoop D H T) (Option (Handler D H))
  remove_handler endpoint is_in l =
      take_handler (remove_first (handles endpoint is_in) l.handlers) l

  abbrev pub block : Header → M (EventLoop D H T) (Unit {0})
  block h l = ok tt (record l { blocked = l.blocked ++ h ∷ [] })

  abbrev pub unblock_first : Option (Header × List Header) → M (EventLoop D H T) (Unit {0})
  unblock_first none l = ok tt l
  unblock_first (some (h, rest)) l =
      ok tt (record l { blocked = rest; unblocked = l.unblocked ++ h ∷ [] })

  unfoldable pub unblock_handler : ℕ → Bool → M (EventLoop D H T) (Unit {0})
  unfolding remove_first any
  unblock_handler endpoint is_in l =
      (assert (any (handles endpoint is_in) l.handlers)
          >> unblock_first (remove_first (waits_on endpoint is_in) l.blocked))
        l

-- The callbacks: a device-to-host callback fills the buffer, and both say whether they are done.
module _ {D H T : Type 0}
    (dev2host_call : D → (setup buf : List ℕ) → M (EventLoop D H T) (Bool × List ℕ))
    (host2dev_call : H → (setup xs : List ℕ) → M (EventLoop D H T) Bool) where
  -- The outcome of a device-to-host callback: an `Err` becomes an error reply.
  abbrev pub answer_in : Header → ℕ → D → Option (Bool × List ℕ) → M (Session D H T) (Unit {0})
  answer_in header ep f none =
      on_stream (write_submit_reply_error header) >> on_loop (schedule (dev2host ep f))
  answer_in header ep f (some (true, v)) =
      on_stream (write_submit_reply header v none) >> on_loop (schedule (dev2host ep f))
  answer_in header ep f (some (false, v)) =
      on_loop (block header) >> on_loop (schedule (dev2host ep f))

  -- `host2dev_transfer`: an `Err` of the callback panics.
  abbrev pub transferred : Header → ℕ → Option Bool → M (Session D H T) Bool
  transferred header n none = abort
  transferred header n (some done) =
      on_stream (write_submit_reply header [] (some (pos n))) >> pure done

  unfoldable pub host2dev_transfer : Header → (buffer : List ℕ) → H → M (Session D H T) Bool
  host2dev_transfer header buffer f = do
    r ← on_loop (attempt (host2dev_call f (setup header) buffer))
    transferred header (length buffer) r

  -- The `match` of `handle_submit` on the handler that was removed.
  abbrev pub run_handler : Header → ℕ → Option (Handler D H) → M (Session D H T) (Unit {0})
  run_handler header n none = abort
  run_handler header n (some (dev2host ep f)) = do
    r ← on_loop (attempt (dev2host_call f (setup header) (replicate n 0)))
    answer_in header ep f r
  run_handler header n (some (host2dev ep f)) = do
    v ← on_stream (read_exact n)
    done ← host2dev_transfer header v f
    if done then on_loop (schedule (host2dev ep f)) else pure tt

  -- `match u32::from_be(header.base.direction)`
  abbrev pub read_direction : {S : Type 0} → ℕ → M S Bool
  read_direction direction =
      if direction == usbip_dir_out
      then pure false
      else if direction == usbip_dir_in
      then pure true
      else abort

  -- `u8::try_from(ep)?`
  abbrev pub read_endpoint : {S : Type 0} → ℕ → M S ℕ
  read_endpoint ep = if ltb ep 256 then pure ep else fail Error.try_from_int

  unfoldable pub handle_submit : Header → M (Session D H T) (Unit {0})
  unfolding host2dev_transfer remove_handler schedule
  handle_submit header = do
    endpoint ← read_endpoint header.ep
    is_in ← read_direction header.direction
    assert (ltb (transfer_buffer_length header) (2 ^ 31))
    assert (bit_and (transfer_flags header) (0xFFFFFFFF - 0x200) == 0)
    h ← on_loop (remove_handler endpoint is_in)
    run_handler header (transfer_buffer_length header) h

-- `-(n as i32)`
abbrev pub negated : ℕ → ℤ
negated zero = pos 0
negated (suc n) = negsuc n

-- The codes of errno.h that the loop answers with.
pub record Errno : Type 0 where
  pub einprogress : ℕ
  pub enoent : ℕ

module _ {D H T : Type 0} (errno : Errno) where
  abbrev pub unlink_from : ℕ → M (EventLoop D H T) Bool
  unlink_from seqnum l =
      ok (any (has_seqnum seqnum) l.blocked || any (has_seqnum seqnum) l.unblocked) (record l {
        blocked = retain_others seqnum l.blocked;
        unblocked = retain_others seqnum l.unblocked;
      })

  -- The requests with the number that the UNLINK names are dropped, and the status says whether
  -- there was one.
  unfoldable pub handle_unlink : Header → M (Session D H T) (Unit {0})
  unfolding any retain_others
  handle_unlink header = do
    found ← on_loop (unlink_from (unlink_seqnum header))
    on_stream (
        write_unlink_reply header
          (if found then negated errno.einprogress else negated errno.enoent))

-- The commands, in their order. `rounds` bounds the rounds of the loop over unblocked requests,
-- and `fuel` the commands.
module _ {D H T : Type 0}
    (dev2host_call : D → (setup buf : List ℕ) → M (EventLoop D H T) (Bool × List ℕ))
    (host2dev_call : H → (setup xs : List ℕ) → M (EventLoop D H T) Bool) (errno : Errno) where
  -- `while !self.unblocked.is_empty()`, at most `fuel` rounds.
  abbrev pub pop_unblocked : List Header → M (EventLoop D H T) (Option Header)
  pop_unblocked [] l = ok none l
  pop_unblocked (h ∷ rest) l = ok (some h) (record l { unblocked = rest })

  abbrev pub next_unblocked : M (EventLoop D H T) (Option Header)
  next_unblocked l = pop_unblocked l.unblocked l

  -- A round of the loop and the rest of it, or its end.
  abbrev pub unblocked_round :
      M (Session D H T) (Unit {0}) → Option Header → M (Session D H T) (Unit {0})
  unblocked_round rest none = pure tt
  unblocked_round rest (some header) = handle_submit dev2host_call host2dev_call header >> rest

  unfoldable pub handle_unblocked : ℕ → M (Session D H T) (Unit {0})
  handle_unblocked zero = abort
  handle_unblocked (suc fuel) = on_loop next_unblocked >>= unblocked_round (handle_unblocked fuel)

  -- One round of `handle_commands`.
  unfoldable pub handle_command : (rounds : ℕ) → M (Session D H T) (Unit {0})
  unfolding handle_unblocked
  handle_command rounds = do
    header ← on_stream read_cmd_header
    if header.command == usbip_cmd_submit
        then handle_submit dev2host_call host2dev_call header >> handle_unblocked rounds
        else if header.command == usbip_cmd_unlink
        then handle_unlink errno header
        else abort

  -- `handle_commands`, which ends by an `Err` or a panic. A round takes 48 bytes at least.
  unfoldable pub handle_commands : (rounds fuel : ℕ) → M (Session D H T) (Unit {0})
  handle_commands rounds zero = pure tt
  handle_commands rounds (suc fuel) = handle_command rounds >> handle_commands rounds fuel
