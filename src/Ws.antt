-- ===== src/Ws.antt =====
-- src/ws.rs: the server's half of a WebSocket, as a byte stream. This file has the state, the staging
-- of frames and their decoding.
pub mod Accept
pub mod Shape
pub mod RoundTrip
pub mod Segments
pub mod Frames
pub mod Poll
mod Tests
use dsh_proxy.Common.{
  ℕ, suc, ◌+◌, ◌*◌, ◌%◌, [], ◌∷◌, ◌++◌, length, get_or, take, drop, Option, none, some, Result, ok,
  err, invalid_data, ltb, leb, ◌==◌, if◌then◌else◌, Bool, true, false, not, ◌&&◌, ◌||◌, bit_and,
  bit_or, bit_xor,
}
use dsh_proxy.Common.Bytes.{Bytes, put_u16, put_u64, u16_from_be_bytes, u64_from_be_bytes}

abbrev pub max_frame : ℕ
max_frame = 1024 * 1024

abbrev pub max_control : ℕ
max_control = 125

abbrev pub max_pong_backlog : ℕ
max_pong_backlog = 8 * 1024

abbrev pub max_send : ℕ
max_send = 64 * 1024

abbrev pub op_continuation : ℕ
op_continuation = 0

abbrev pub op_text : ℕ
op_text = 1

abbrev pub op_binary : ℕ
op_binary = 2

abbrev pub op_close : ℕ
op_close = 8

abbrev pub op_ping : ℕ
op_ping = 9

abbrev pub op_pong : ℕ
op_pong = 10

pub record WsStream (S : Type 0) : Type 0 where
  pub inner : S
  pub incoming : Bytes
  pub plain : Bytes
  pub outgoing : Bytes
  pub closed : Bool

abbrev pub u16_max : ℕ
u16_max = 65535

-- The seven-bit length, or a marker and the longer length.
unfoldable pub length_field : ℕ → Bytes
length_field n =
    if ltb n 126 then n ∷ [] else if leb n u16_max then 126 ∷ put_u16 n else 127 ∷ put_u64 n

-- The bytes of one server frame.
unfoldable pub server_frame : ℕ → Bytes → Bytes
server_frame opcode payload = bit_or 0x80 opcode ∷ (length_field (length payload) ++ payload)

-- `*byte ^= mask[index % 4]` from the index `i` on.
unfoldable pub unmask : Bytes → ℕ → Bytes → Bytes
unmask mask i [] = []
unmask mask i (x ∷ xs) = bit_xor x (get_or mask (i % 4) 0) ∷ unmask mask (i + 1) xs

-- The payload's length and the offset behind it; `none` while the bytes of the length are missing.
unfoldable pub read_length : Bytes → ℕ → Option (ℕ × ℕ)
read_length b short =
    if short == 126
    then (if ltb (length b) 4
        then none
        else some (u16_from_be_bytes (get_or b 2 0) (get_or b 3 0), 4))
    else if short == 127
    then (if ltb (length b) 10
        then none
        else some (
          u64_from_be_bytes (get_or b 2 0) (get_or b 3 0) (get_or b 4 0) (get_or b 5 0)
              (get_or b 6 0) (get_or b 7 0) (get_or b 8 0) (get_or b 9 0),
          10,
        ))
    else some (short, 2)

-- The four bytes at an offset.
unfoldable pub mask_at : Bytes → ℕ → Bytes
mask_at b at = get_or b at 0 ∷ get_or b (at + 1) 0 ∷ get_or b (at + 2) 0 ∷ get_or b (at + 3) 0 ∷ []

module _ {S : Type 0} where
  pub new : S → WsStream S
  new inner = record { inner = inner; incoming = []; plain = []; outgoing = []; closed = false }

  unfoldable pub frame : WsStream S → ℕ → Bytes → WsStream S
  frame s opcode payload = record s { outgoing = s.outgoing ++ server_frame opcode payload }

  -- What a whole frame does; it is off the buffer, and its payload is unmasked.
  unfoldable pub dispatch : WsStream S → ℕ → Bytes → WsStream S × Result Bool
  dispatch s opcode payload =
      if opcode == op_continuation || opcode == op_text || opcode == op_binary
      then (record s { plain = s.plain ++ payload }, ok true)
      else if opcode == op_close
      then (record s { closed = true }, ok true)
      else if opcode == op_ping
      then (
        if leb (length s.outgoing) max_pong_backlog then frame s op_pong payload else s,
        ok true,
      )
      else if opcode == op_pong
      then (s, ok true)
      else (s, err invalid_data)

  -- From the length on: `at` is the offset of the mask.
  unfoldable pub decode_body : WsStream S → ℕ → Bool → ℕ → ℕ → WsStream S × Result Bool
  decode_body s opcode masked size at =
      let b = s.incoming in
      if ltb max_frame size
      then (s, err invalid_data)
      else if not masked
      then (s, err invalid_data)
      else if ltb (length b) (at + 4)
      then (s, ok false)
      else if ltb (length b) (at + 4 + size)
      then (s, ok false)
      else dispatch (record s { incoming = drop size (drop (at + 4) b) }) opcode
          (unmask (mask_at b at) 0 (take size (drop (at + 4) b)))

  unfoldable pub decode_length : WsStream S → ℕ → Bool → ℕ → WsStream S × Result Bool
  decode_length s opcode masked short = elim (read_length s.incoming short) [
    | none ↦ (s, ok false)
    | some (size, at) ↦ decode_body s opcode masked size at
  ]

  unfoldable pub decode : WsStream S → WsStream S × Result Bool
  decode s =
      let first = get_or s.incoming 0 0 in
      let second = get_or s.incoming 1 0 in
      let fin = not (bit_and first 0x80 == 0) in
      let opcode = bit_and first 0x0f in
      let masked = not (bit_and second 0x80 == 0) in
      let control = not (bit_and opcode 0x08 == 0) in
      let short = bit_and second 0x7f in
      if ltb (length s.incoming) 2
      then (s, ok false)
      else if control && (not fin || ltb max_control short)
      then (s, err invalid_data)
      else decode_length s opcode masked short
