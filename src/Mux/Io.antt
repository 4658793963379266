-- ===== src/Mux/Io.antt =====
-- src/mux.rs: `MuxStreamIo`, one stream of a session as a byte stream. Its parts that are shared with
-- the session stand in the session, at the address of its half.
pub mod Fifo
pub mod Refines
pub mod Credit
pub mod Empty
pub mod Live
pub mod Drop
use dsh_proxy.Common.{
  ℕ, ◌+◌, ◌*◌, ◌/◌, ◌%◌, ◌^◌, [], ◌++◌, length, take, drop, min, Option, none, some, ok, err,
  broken_pipe, Poll, ltb, leb, ◌==◌, if◌then◌else◌,
}
use dsh_proxy.Common.Bytes.{Bytes, put_u32}
use dsh_proxy.Frame.{Frame}
use dsh_proxy.Mux.Runtime.{Runtime, Received, chunk, ended, waiting}
use dsh_proxy.Mux.Session.{Half, MuxSession}
use dsh_proxy.Mux.Ops.{try_post, close_stream}
use dsh_proxy.Mux.Read.{set_inbox}
use dsh_proxy.Mux.Send.{Progress, done, broken, stuck, parked, send}
use dsh_proxy.Wire.{window, kind_window}

abbrev pub write_coalesce : ℕ
write_coalesce = 32 * 1024

abbrev pub grant_threshold : ℕ
grant_threshold = window / 2

-- `pending` is what an in-flight send has left to send.
pub record MuxStreamIo : Type 0 where
  pub tx : Half
  pub inbox : Option Bytes
  pub out : Bytes
  pub pending : Option Bytes
  pub credit_due : ℕ

unfoldable pub new : Half → MuxStreamIo
new tx = record { tx = tx; inbox = none; out = []; pending = none; credit_due = 0 }

abbrev pub window_frame : ℕ → ℕ → Frame
window_frame id n = record { id = id; kind = kind_window; payload = put_u32 n }

-- What is left of a chunk; none where it was taken whole.
abbrev pub tail : Bytes → Option Bytes
tail rest = if length rest == 0 then none else some rest

-- `self.credit_due += take as u32` without overflow checks.
abbrev pub earn : MuxStreamIo → ℕ → MuxStreamIo
earn io n = record io { credit_due = (io.credit_due + n % 2 ^ 32) % 2 ^ 32 }

-- `Box::pin(async move { tx.send(frame).await })` with all that is buffered.
abbrev pub launch : MuxStreamIo → MuxStreamIo
launch io = record io { pending = some io.out; out = [] }

-- `poll_write` with no send in flight.
unfoldable pub accept : MuxStreamIo → Bytes → MuxStreamIo × Poll ℕ
accept io bytes =
    let more = record io { out = io.out ++ bytes } in
    (
      if leb write_coalesce (length more.out) then launch more else more,
      Poll.ready (ok (length bytes)),
    )

-- The session is left alone: an in-flight send is polled by `poll_flush` only.
unfoldable pub poll_write : MuxStreamIo → Bytes → MuxStreamIo × Poll ℕ
poll_write io bytes = elim io.pending [ some rest ↦ (io, Poll.pending) | none ↦ accept io bytes ]

-- `poll_flush` once no send is in flight.
unfoldable pub flush_out : MuxStreamIo → MuxStreamIo × Poll (Unit {0})
flush_out io = if length io.out == 0 then (io, Poll.ready (ok tt)) else (launch io, Poll.pending)

module _ {rt : Runtime} where
  unfoldable pub flush_credit : MuxSession rt → MuxStreamIo → MuxSession rt × MuxStreamIo
  flush_credit s io =
      let (s', sent) = try_post s (window_frame io.tx.id io.credit_due) in
      if io.credit_due == 0
      then (s, io)
      else (s', if sent then record io { credit_due = 0 } else io)

  unfoldable pub return_credit : MuxSession rt → MuxStreamIo → MuxSession rt × MuxStreamIo
  return_credit s io = if ltb io.credit_due grant_threshold then (s, io) else flush_credit s io

  -- The reader takes what it has room for, and what it took is owed to the peer.
  unfoldable pub hand_over :
      MuxSession rt → MuxStreamIo → Bytes → ℕ → (MuxSession rt × MuxStreamIo) × Poll Bytes
  hand_over s io b room =
      let n = min (length b) room in
      (return_credit s (earn (record io { inbox = tail (drop n b) }) n), Poll.ready (ok (take n b)))

  -- With what the stream's channel answered.
  unfoldable pub deliver :
      MuxSession rt → MuxStreamIo → Received → ℕ → (MuxSession rt × MuxStreamIo) × Poll Bytes
  deliver s io (chunk b) room = hand_over s io b room
  deliver s io ended room = (flush_credit s io, Poll.ready (ok []))
  deliver s io waiting room = ((s, io), Poll.pending)

  -- With the rest of a frame that is in hand, or with none.
  unfoldable pub read_from :
      MuxSession rt → MuxStreamIo → Option Bytes → ℕ → (MuxSession rt × MuxStreamIo) × Poll Bytes
  read_from s io (some b) room = hand_over s io b room
  read_from s io none room =
      let (i, r) = rt.poll_recv (s.heap io.tx.at).inbox in
      deliver (set_inbox s io.tx.at i) io r room

  -- `room` is what the reader's buffer has left; an answer is what was put there.
  unfoldable pub poll_read :
      MuxSession rt → MuxStreamIo → ℕ → (MuxSession rt × MuxStreamIo) × Poll Bytes
  poll_read s io room = read_from s io io.inbox room

  -- `poll_flush` behind the poll of the in-flight send, which it took out; it puts back a send that waits.
  unfoldable pub resume :
      MuxSession rt → MuxStreamIo → Progress → (MuxSession rt × MuxStreamIo) × Poll (Unit {0})
  resume s io done = let (io', r) = flush_out (record io { pending = none }) in ((s, io'), r)
  resume s io broken = ((s, record io { pending = none }), Poll.ready (err broken_pipe))
  resume s io (parked left) = ((s, record io { pending = some left }), Poll.pending)
  resume s io stuck = ((s, io), Poll.pending)

  -- With what `self.pending.take()` gave.
  unfoldable pub flush_from :
      MuxSession rt → MuxStreamIo → Option Bytes → (MuxSession rt × MuxStreamIo) × Poll (Unit {0})
  flush_from s io none = let (io', r) = flush_out io in ((s, io'), r)
  flush_from s io (some rest) = let (s', p) = send s io.tx rest in resume s' io p

  unfoldable pub poll_flush :
      MuxSession rt → MuxStreamIo → (MuxSession rt × MuxStreamIo) × Poll (Unit {0})
  poll_flush s io = flush_from s io io.pending

  -- What a shutdown does once the flush has an answer, and a drop at once.
  unfoldable pub end_stream : MuxSession rt → MuxStreamIo → MuxSession rt × MuxStreamIo
  end_stream s io = let (s', io') = flush_credit s io in (close_stream s' io.tx.id, io')

  unfoldable pub close_after :
      (MuxSession rt × MuxStreamIo) × Poll (Unit {0})
      → (MuxSession rt × MuxStreamIo) × Poll (Unit {0})
  close_after (p, Poll.pending) = (p, Poll.pending)
  close_after ((s, io), Poll.ready a) = (end_stream s io, Poll.ready a)

  unfoldable pub poll_shutdown :
      MuxSession rt → MuxStreamIo → (MuxSession rt × MuxStreamIo) × Poll (Unit {0})
  poll_shutdown s io = close_after (poll_flush s io)

  -- `Drop::drop`, and the drop of the fields, of which the receiver is one.
  unfoldable pub drop_io : MuxSession rt → MuxStreamIo → MuxSession rt
  drop_io s io =
      let s' = (end_stream s io).0 in
      set_inbox s' io.tx.at (rt.drop_receiver (s'.heap io.tx.at).inbox)
