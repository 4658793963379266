-- ===== src/Mux/Read.antt =====
-- src/mux.rs: what the read loop does with one decrypted message, and the loop over what arrives.
pub mod Budget
pub mod Streams
pub mod Effects
pub mod Limits
use dsh_proxy.Common.{
  ℕ, ◌+◌, List, [], ◌∷◌, ◌++◌, length, get_or, Option, none, some, Bool, true, false, ◌==◌,
  if◌then◌else◌, ErrorKind, invalid_data, timed_out, broken_pipe, lookup, update,
}
use dsh_proxy.Common.Bytes.{Bytes, u32_from_be_bytes}
use dsh_proxy.Frame.{Frame, control, parse}
use dsh_proxy.Mux.Runtime.{Runtime, Sent, taken, full, closed}
use dsh_proxy.Mux.Session.{Half, Channel, MuxSession}
use dsh_proxy.Mux.Ops.{allocate, insert_stream, hang_up, post}
use dsh_proxy.Wire.{kind_open, kind_data, kind_close, kind_window}

-- How one round of the loop ends: the next round, `Ok(())`, an error, or a panic of the runtime.
pub data Outcome : Type 0 where
  continues returns panics : Outcome
  fails : ErrorKind → Outcome

-- What `timeout(IDLE_TIMEOUT, reader.next())` gives.
pub data Event : Type 0 where
  idle eof : Event
  broken : ErrorKind → Event
  message : Bytes → Event

-- The grant that a WINDOW frame's four bytes spell.
abbrev pub granted : Bytes → ℕ
granted body =
    u32_from_be_bytes (get_or body 0 0) (get_or body 1 0) (get_or body 2 0) (get_or body 3 0)

module _ {rt : Runtime} where
  open rt use {try_acquire, add_permits, try_send, drop_receiver}

  -- `self.send(frame).await?`
  unfoldable pub reply : MuxSession rt → Frame → MuxSession rt × Outcome
  reply s f = let (s', sent) = post s f in (s', if sent then continues else fails broken_pipe)

  unfoldable pub set_inbox : MuxSession rt → ℕ → rt.Inbox → MuxSession rt
  set_inbox s at i = record s {
    heap = update s.heap at (record { inbox = i; credit = (s.heap at).credit });
  }

  -- The halves go to the handler; with no handler both are dropped, and the inbox loses its receiver.
  unfoldable pub announce : MuxSession rt → Half → MuxSession rt
  announce s h =
      if s.on_open
      then record s { announced = s.announced ++ (h ∷ []) }
      else set_inbox s h.at (drop_receiver (s.heap h.at).inbox)

  unfoldable pub peer_open : MuxSession rt → ℕ → MuxSession rt × Outcome
  peer_open s id = elim (try_acquire 1 s.budget) [
    | none ↦ reply (allocate s) (control id kind_close)
    | some budget ↦ (
      announce (insert_stream (allocate (record s { budget = budget })) id s.fresh)
          (record { id = id; at = s.fresh }),
      continues,
    )
  ]

  -- A full inbox costs the stream, and a closed one nothing.
  unfoldable pub settle : MuxSession rt → ℕ → Sent → MuxSession rt × Outcome
  settle s id taken = (s, continues)
  settle s id closed = (s, continues)
  settle s id full = reply (hang_up s id) (control id kind_close)

  unfoldable pub peer_data : MuxSession rt → ℕ → Bytes → MuxSession rt × Outcome
  peer_data s id body = elim (lookup id s.streams) [
    | none ↦ (s, continues)
    | some at ↦ let (i, sent) = try_send (s.heap at).inbox body in settle (set_inbox s at i) id sent
  ]

  unfoldable pub peer_window : MuxSession rt → ℕ → Bytes → MuxSession rt × Outcome
  peer_window s id body = elim (lookup id s.streams) [
    | none ↦ (s, continues)
    | some at ↦ elim (add_permits (granted body) (s.heap at).credit) [
      | none ↦ (s, panics)
      | some c ↦ (
        record s { heap = update s.heap at (record { inbox = (s.heap at).inbox; credit = c }) },
        continues,
      )
    ]
  ]

  -- One parsed frame. The id 0 is the keepalive channel.
  unfoldable pub dispatch : MuxSession rt → Frame → MuxSession rt × Outcome
  dispatch s f =
      if f.id == 0
      then reply s (control 0 kind_data)
      else if f.kind == kind_open
      then peer_open s f.id
      else if f.kind == kind_data
      then peer_data s f.id f.payload
      else if f.kind == kind_window
      then (if length f.payload == 4 then peer_window s f.id f.payload else (s, continues))
      else if f.kind == kind_close
      then (hang_up s f.id, continues)
      else (s, continues)

  unfoldable pub read_step : MuxSession rt → Event → MuxSession rt × Outcome
  read_step s idle = (s, fails timed_out)
  read_step s eof = (s, returns)
  read_step s (broken e) = (s, fails e)
  read_step s (message m) = elim (parse m) [
    | none ↦ (s, fails invalid_data)
    | some f ↦ dispatch s f
  ]

  -- Over what has arrived so far; it goes on waiting if the last round continued.
  unfoldable pub read_loop : MuxSession rt → List Event → MuxSession rt × Outcome
  read_loop s [] = (s, continues)
  read_loop s (e ∷ es) =
      let (s', o) = read_step s e in elim o [ continues ↦ read_loop s' es | other ↦ (s', other) ]
