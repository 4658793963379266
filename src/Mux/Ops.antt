-- ===== src/Mux/Ops.antt =====
-- src/mux.rs: the operations of a session and of a stream's send half that run to their end: opening,
-- granting, closing and tearing down. An awaited `send` answers whether the frame was taken.
pub mod Budget
pub mod Open
use dsh_proxy.Common.{
  ℕ, suc, ◌+◌, ◌%◌, ◌^◌, List, [], ◌∷◌, length, Option, none, some, Bool, true, false, ◌==◌,
  ==_self, ◌≡◌, ◌≢◌, ap, arith, if◌then◌else◌, max, lookup, erase, update,
}
use dsh_proxy.Common.Bytes.{Bytes, put_u32}
use dsh_proxy.Frame.{Frame, control}
use dsh_proxy.Mux.Runtime.{Runtime}
use dsh_proxy.Mux.Session.{Half, Channel, MuxSession, inbox_frames}
use dsh_proxy.Wire.{window, kind_open, kind_close, kind_window}

module _ {rt : Runtime} where
  open rt use {
    Sem, new, try_acquire, release, close, available, channel, drop_sender, Outbox, send,
    try_send_out,
  }

  unfoldable pub start : Outbox → ℕ → MuxSession rt
  start out max_streams = record {
    out = out;
    streams = [];
    next_id = 1;
    budget = new (max max_streams 1);
    reader_aborted = false;
    writer_aborted = false;
    on_open = false;
    announced = [];
    heap = λ _. record { inbox = channel inbox_frames; credit = new window };
    fresh = 0;
  }

  -- The handler can be set once; setting it again is without effect.
  unfoldable pub on_open : MuxSession rt → MuxSession rt
  on_open s = record s { on_open = true }

  unfoldable pub stream_count : MuxSession rt → ℕ
  stream_count s = length s.streams

  -- A channel and a semaphore for one stream, at an address of their own.
  unfoldable pub allocate : MuxSession rt → MuxSession rt
  allocate s = record s {
    heap = update s.heap s.fresh (record { inbox = channel inbox_frames; credit = new window });
    fresh = suc s.fresh;
  }

  -- The drop of a `StreamState` that has left the map: its budget permit goes back, and the
  -- inbox has lost its sender.
  unfoldable pub drop_state : MuxSession rt → ℕ → MuxSession rt
  drop_state s at = record s {
    budget = release s.budget;
    heap =
        update s.heap at
          (record { inbox = drop_sender (s.heap at).inbox; credit = (s.heap at).credit });
  }

  unfoldable pub close_credit : MuxSession rt → ℕ → MuxSession rt
  close_credit s at = record s {
    heap =
        update s.heap at (record { inbox = (s.heap at).inbox; credit = close (s.heap at).credit });
  }

  -- `streams.insert`; a displaced entry is dropped.
  unfoldable pub insert_stream : MuxSession rt → ℕ → ℕ → MuxSession rt
  insert_stream s id at = elim (lookup id s.streams) [
    | none ↦ record s { streams = (id, at) ∷ s.streams }
    | some old ↦ drop_state (record s { streams = (id, at) ∷ erase id s.streams }) old
  ]

  -- `streams.remove`, its result dropped.
  unfoldable pub remove_stream : MuxSession rt → ℕ → MuxSession rt
  remove_stream s id = elim (lookup id s.streams) [
    | none ↦ s
    | some at ↦ drop_state (record s { streams = erase id s.streams }) at
  ]

  -- `if let Some((_, state)) = streams.remove(&id) { state.credit.close(); }`
  unfoldable pub hang_up : MuxSession rt → ℕ → MuxSession rt
  hang_up s id = elim (lookup id s.streams) [
    | none ↦ s
    | some at ↦ drop_state (close_credit (record s { streams = erase id s.streams }) at) at
  ]

  -- The session's `send`.
  unfoldable pub post : MuxSession rt → Frame → MuxSession rt × Bool
  post s f = let (o, sent) = send s.out f in (record s { out = o }, sent)

  -- `self.out.try_send`.
  unfoldable pub try_post : MuxSession rt → Frame → MuxSession rt × Bool
  try_post s f = let (o, sent) = try_send_out s.out f in (record s { out = o }, sent)

  -- `try_open_stream` once its permit is reserved.
  unfoldable pub open_reserved : MuxSession rt → Sem → MuxSession rt × Option Half
  open_reserved s budget =
      let id = s.next_id in
      let s1 = allocate (record s { budget = budget; next_id = (id + 1) % 2 ^ 32 }) in
      let (s2, sent) = post (insert_stream s1 id s.fresh) (control id kind_open) in
      if sent then (s2, some (record { id = id; at = s.fresh })) else (remove_stream s2 id, none)

  unfoldable pub try_open_stream : MuxSession rt → MuxSession rt × Option Half
  try_open_stream s = elim (try_acquire 1 s.budget) [
    | none ↦ (s, none)
    | some budget ↦ open_reserved s budget
  ]

  unfoldable pub drop_all : List (ℕ × ℕ) → MuxSession rt → MuxSession rt
  drop_all [] s = s
  drop_all ((id, at) ∷ m) s = drop_all m (drop_state (close_credit s at) at)

  -- `streams.retain` with a closure that closes the credit and keeps nothing.
  unfoldable pub retire : MuxSession rt → MuxSession rt
  retire s = drop_all s.streams (record s { streams = [] })

  unfoldable pub shutdown : MuxSession rt → MuxSession rt
  shutdown s = record (retire s) { reader_aborted = true; writer_aborted = true }

  -- What the reading task does once `read_loop` has returned.
  unfoldable pub end_link : MuxSession rt → MuxSession rt
  end_link s = record (retire s) { writer_aborted = true }

  -- `StreamTx::grant`, with whether the link took the frame.
  unfoldable pub grant : MuxSession rt → Half → ℕ → MuxSession rt × Bool
  grant s tx bytes = post s (record { id = tx.id; kind = kind_window; payload = put_u32 bytes })

  -- `StreamTx::close`.
  unfoldable pub close_tx : MuxSession rt → Half → MuxSession rt
  close_tx s tx = (post (remove_stream s tx.id) (control tx.id kind_close)).0

  unfoldable pub close_stream : MuxSession rt → ℕ → MuxSession rt
  close_stream s id = (try_post (hang_up s id) (control id kind_close)).0
