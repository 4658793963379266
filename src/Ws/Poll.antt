-- ===== src/Ws/Poll.antt =====
-- src/ws.rs: draining staged frames into the socket, and the write half of the byte stream.
pub mod Written
pub mod Read
pub mod Carried
mod Tests
use dsh_proxy.Common.{
  Poll, pending, ready, ℕ, zero, suc, ◌-◌, ◌≡◌, ◌≤◌, ◌<◌, ◌==◌, [], ◌∷◌, ◌++◌, length, take, drop,
  min, Result, ok, err, invalid_data, Bool, true, false, if◌then◌else◌,
}
use dsh_proxy.Common.Bytes.{Bytes}
use dsh_proxy.Ws.{WsStream, frame, op_binary, op_close, max_send}

-- The socket's write half, with the bytes that it took so far.
pub record Socket (S : Type 0) : Type 0 where
  pub poll_write : S → Bytes → S × Poll ℕ
  pub poll_flush : S → S × Poll (Unit {0})
  pub poll_shutdown : S → S × Poll (Unit {0})
  pub sent : S → Bytes

module _ {S : Type 0} (socket : Socket S) where
  -- A round that was answered `n` takes `n` bytes at least 1, so as many rounds as bytes are enough.
  unfoldable pub drain_loop : ℕ → WsStream S → WsStream S × Poll (Unit {0})
  drain_loop zero s = (s, ready (ok tt))
  drain_loop (suc fuel) s =
      let (io, r) = socket.poll_write s.inner s.outgoing in
      elim (length s.outgoing == 0) [
        | true ↦ (s, ready (ok tt))
        | false ↦ elim r [
          | pending ↦ (record s { inner = io }, pending)
          | ready (err e) ↦ (record s { inner = io }, ready (err e))
          | ready (ok zero) ↦ (record s { inner = io }, ready (err invalid_data))
          | ready (ok (suc n)) ↦
              drain_loop fuel (record s { inner = io; outgoing = drop (suc n) s.outgoing })
        ]
      ]

  unfoldable pub drain : WsStream S → WsStream S × Poll (Unit {0})
  drain s = drain_loop (length s.outgoing) s

  -- `poll_write` behind its first drain: staged either way.
  unfoldable pub stage : WsStream S → Bytes → WsStream S × Poll ℕ
  stage s data_ =
      let n = min (length data_) max_send in
      let (s', r) = drain (frame s op_binary (take n data_)) in
      elim r [
        | ready (err e) ↦ (s', ready (err e))
        | ready (ok _) ↦ (s', ready (ok n))
        | pending ↦ (s', ready (ok n))
      ]

  unfoldable pub poll_write : WsStream S → Bytes → WsStream S × Poll ℕ
  poll_write s data_ =
      let (s', r) = drain s in
      elim r [
        | ready (ok _) ↦ stage s' data_
        | ready (err e) ↦ (s', ready (err e))
        | pending ↦ (s', pending)
      ]

  unfoldable pub poll_flush : WsStream S → WsStream S × Poll (Unit {0})
  poll_flush s =
      let (s', r) = drain s in
      let (io, flushed) = socket.poll_flush s'.inner in
      elim r [
        | ready (ok _) ↦ (record s' { inner = io }, flushed)
        | ready (err e) ↦ (s', ready (err e))
        | pending ↦ (s', pending)
      ]

  -- The close frame is staged once.
  unfoldable pub say_close : WsStream S → WsStream S
  say_close s = if s.closed then s else record (frame s op_close []) { closed = true }

  unfoldable pub poll_shutdown : WsStream S → WsStream S × Poll (Unit {0})
  poll_shutdown s =
      let (s', r) = drain (say_close s) in
      let (io, shut) = socket.poll_shutdown s'.inner in
      elim r [
        | ready (ok _) ↦ (record s' { inner = io }, shut)
        | ready (err e) ↦ (s', ready (err e))
        | pending ↦ (s', pending)
      ]
