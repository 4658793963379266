-- ===== src/Ws/Tests.antt =====
-- Concrete runs of src/ws.rs, and its theorems at concrete inputs.
use dsh_proxy.Common.{
  ℕ, ◌+◌, ◌≤◌, ◌<◌, ◌≡◌, refl, [], ◌∷◌, ◌++◌, length, drop, get_or, some, true, false, arith, ok,
  err, invalid_data,
}
use dsh_proxy.Common.Bytes.{Bytes}
use dsh_proxy.Ws.{
  WsStream, server_frame, unmask, mask_at, read_length, dispatch, decode_body, decode_length,
  decode, max_pong_backlog,
}
use dsh_proxy.Ws.Shape.{decode-true_progress, decode_backlog}
use dsh_proxy.Ws.RoundTrip.{client_frame, masked_length, server_frame-read}
use dsh_proxy.Ws.Segments.{receive, decode-receive}

abbrev holding : Bytes → WsStream ℕ
holding b = record { inner = 0; incoming = b; plain = 1 ∷ []; outgoing = []; closed = false }

abbrev mask : Bytes
mask = 10 ∷ 20 ∷ 30 ∷ 40 ∷ []

-- A final text frame with the payload "hi", and the start of another.
hi : Bytes
hi = 0x81 ∷ 0x82 ∷ 10 ∷ 20 ∷ 30 ∷ 40 ∷ 98 ∷ 125 ∷ 0x82 ∷ []

hi_frame : client_frame 0x81 mask (104 ∷ 105 ∷ []) ++ 0x82 ∷ [] ≡ hi
unfolding client_frame masked_length unmask hi
hi_frame = refl

hi_decoded :
    decode (holding hi) ≡ (record (holding (0x82 ∷ [])) { plain = 1 ∷ 104 ∷ 105 ∷ [] }, ok true)
unfolding decode decode_length read_length decode_body mask_at unmask dispatch hi
hi_decoded = refl

unmasked_refused :
    decode (holding (0x81 ∷ 0x02 ∷ [])) ≡ (holding (0x81 ∷ 0x02 ∷ []), err invalid_data)
unfolding decode decode_length read_length decode_body
unmasked_refused = refl

-- A ping with an empty payload.
ping : Bytes
ping = 0x89 ∷ 0x80 ∷ 10 ∷ 20 ∷ 30 ∷ 40 ∷ []

waiting : decode (holding (0x81 ∷ [])) ≡ (holding (0x81 ∷ []), ok false)
unfolding decode
waiting = refl

decode-true_progress_example : (1 + 6 ≤ length hi) × (3 + 1 + 6 ≤ 1 + length hi)
decode-true_progress_example =
    decode-true_progress (holding hi) (record (holding (0x82 ∷ [])) { plain = 1 ∷ 104 ∷ 105 ∷ [] })
      hi_decoded

decode_backlog_example : length (decode (holding ping)).0.outgoing ≤ max_pong_backlog + 127
decode_backlog_example = decode_backlog (holding ping) (omega arith)

decode-receive_example :
    decode (receive (holding hi) (5 ∷ []))
    ≡ (receive (record (holding (0x82 ∷ [])) { plain = 1 ∷ 104 ∷ 105 ∷ [] }) (5 ∷ []), ok true)
decode-receive_example =
    decode-receive (holding hi) (record (holding (0x82 ∷ [])) { plain = 1 ∷ 104 ∷ 105 ∷ [] })
      (5 ∷ []) (ok true) hi_decoded (λ e. cc)

server_frame-read_example :
    (at : ℕ) × (get_or (server_frame 2 (7 ∷ [])) 0 0 ≡ 2 + 128)
    × (get_or (server_frame 2 (7 ∷ [])) 1 0 < 128)
    × (read_length (server_frame 2 (7 ∷ [])) (get_or (server_frame 2 (7 ∷ [])) 1 0) ≡ some (1, at))
    × (drop at (server_frame 2 (7 ∷ [])) ≡ 7 ∷ [])
server_frame-read_example = server_frame-read 2 (7 ∷ []) (omega arith) (omega arith)
