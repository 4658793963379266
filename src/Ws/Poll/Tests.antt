-- ===== src/Ws/Poll/Tests.antt =====
-- src/ws.rs: writing to a socket that takes three bytes at a time and a limited number of times.
use dsh_proxy.Common.{
  Poll, pending, ready, refl, false, ℕ, ◌-◌, ◌≡◌, ◌≤◌, [], ◌∷◌, ◌++◌, length, take, min, ok, err,
  ErrorKind, if◌then◌else◌, ◌==◌, arith, List, All, inl, inr,
}
use dsh_proxy.Common.Bytes.{Bytes}
use dsh_proxy.Ws.Poll.Read.{Starved, filled, take_frames, poll_read, poll_read-Starved, Arrival}
use dsh_proxy.Ws.{decode, decode_length, decode_body, read_length, WsStream, new, unmask}
use dsh_proxy.Ws.Poll.{Socket, poll_write}
use dsh_proxy.Ws.Frames.{ClientFrame, Sound, Carries, wire}
use dsh_proxy.Ws.RoundTrip.{client_frame, masked_length}
use dsh_proxy.Ws.Poll.Carried.{arrived, Delivered, poll_read-Delivered}
use dsh_proxy.Ws.Poll.Written.{Honest, Accepted, poll_write-Accepted}

pub record Pipe : Type 0 where
  pub got : Bytes
  pub turns : ℕ

abbrev write : Pipe → Bytes → Pipe × Poll ℕ
write p b = if p.turns == 0 then (p, pending) else (
  record { got = p.got ++ take (min 3 (length b)) b; turns = p.turns - 1 },
  ready (ok (min 3 (length b))),
)

abbrev pipe : Socket Pipe
pipe = record {
  poll_write = write;
  poll_flush = λ p. (p, ready (ok tt));
  poll_shutdown = λ p. (p, ready (ok tt));
  sent = λ p. p.got;
}

write_takes :
    (p p' : Pipe) (b : Bytes) (n : ℕ)
    → write p b ≡ (p', ready (ok n))
    → (p'.got ≡ p.got ++ take n b) × (n ≤ length b)
write_takes p p' b n e = ground arith

write_refuses : (p p' : Pipe) (b : Bytes) → write p b ≡ (p', pending) → p'.got ≡ p.got
write_refuses p p' b e = ground arith

write_fails :
    (p p' : Pipe) (b : Bytes) (e : ErrorKind) → write p b ≡ (p', ready (err e)) → p'.got ≡ p.got
write_fails p p' b k e = ground arith

pipe-Honest : Honest pipe
pipe-Honest = record { takes = write_takes; refuses = write_refuses; fails = write_fails }

-- Seven bytes are staged, and the pipe takes six.
abbrev staged_ping : WsStream Pipe
staged_ping = record (new (record { got = []; turns = 2 })) {
  outgoing = 137 ∷ 5 ∷ 1 ∷ 2 ∷ 3 ∷ 4 ∷ 5 ∷ [];
}

poll_write-Accepted_example :
    Accepted pipe staged_ping
      (8 ∷ 9 ∷ [])
      (poll_write pipe staged_ping (8 ∷ 9 ∷ [])).0
      (poll_write pipe staged_ping (8 ∷ 9 ∷ [])).1
poll_write-Accepted_example = poll_write-Accepted pipe pipe-Honest staged_ping (8 ∷ 9 ∷ [])

-- A masked data frame of one byte has come but for its last byte.
abbrev partial_frame : WsStream Pipe
partial_frame = record {
  inner = record { got = []; turns = 2 };
  incoming = 130 ∷ 129 ∷ [];
  plain = [];
  outgoing = [];
  closed = false;
}

poll_read-Starved_example :
    Starved (poll_read pipe partial_frame 10 (filled (1 ∷ 2 ∷ 3 ∷ 4 ∷ []) ∷ [])).0.0
    × ((poll_read pipe partial_frame 10 (filled (1 ∷ 2 ∷ 3 ∷ 4 ∷ []) ∷ [])).0.0.closed ≡ false)
    × ((poll_read pipe partial_frame 10 (filled (1 ∷ 2 ∷ 3 ∷ 4 ∷ []) ∷ [])).1 ≡ [])
unfolding poll_read take_frames decode decode_length decode_body read_length
poll_read-Starved_example =
    poll_read-Starved pipe pipe-Honest partial_frame
      (poll_read pipe partial_frame 10 (filled (1 ∷ 2 ∷ 3 ∷ 4 ∷ []) ∷ [])).0.0 10
      (filled (1 ∷ 2 ∷ 3 ∷ 4 ∷ []) ∷ []) refl

-- The frame of the byte 9, and a ping behind it.
abbrev two_frames : List ClientFrame
two_frames =
    record { first = 130; mask = 1 ∷ 2 ∷ 3 ∷ 4 ∷ []; payload = 9 ∷ [] }
    ∷ record { first = 137; mask = 0 ∷ 0 ∷ 0 ∷ 0 ∷ []; payload = [] }
    ∷ []

abbrev pieces : List Arrival
pieces =
    filled (1 ∷ 2 ∷ []) ∷ filled (3 ∷ 4 ∷ 8 ∷ 137 ∷ []) ∷ filled (128 ∷ 0 ∷ 0 ∷ 0 ∷ 0 ∷ []) ∷ []

two_frames-Sound : All Sound two_frames
two_frames-Sound = (
  record {
    byte = omega arith;
    kind = inl (omega arith);
    allowed = inl refl;
    masked = (refl, ground arith);
    bytes = ground arith;
    fits = omega arith;
  },
  (
    record {
      byte = omega arith;
      kind = inr (inl refl);
      allowed = inr (omega arith, omega arith);
      masked = (refl, ground arith);
      bytes = tt;
      fits = omega arith;
    },
    tt,
  ),
)

partial_frame-Carries : Carries partial_frame (arrived pieces) two_frames
unfolding arrived wire client_frame masked_length unmask
partial_frame-Carries = record { whole = refl; speaking = refl; sound = two_frames-Sound }

poll_read-Delivered_example :
    Delivered pipe pipe-Honest partial_frame two_frames 10 (poll_read pipe partial_frame 10 pieces)
poll_read-Delivered_example =
    poll_read-Delivered pipe pipe-Honest partial_frame two_frames 10 pieces (tt, (tt, (tt, tt)))
      partial_frame-Carries
