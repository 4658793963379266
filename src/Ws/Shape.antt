-- ===== src/Ws/Shape.antt =====
-- The decoder of src/ws.rs on any input: how much it waits for, takes and stages.
use dsh_proxy.Common.{
  ℕ, ◌+◌, ◌≤◌, ◌<◌, ◌≡◌, ◌≢◌, refl, [], ◌∷◌, length, get_or, take, drop, none, some, Option-cases,
  Bool-cases, inl, inr, ltb, ◌==◌, ok, Bool, true, false, not, ◌&&◌, bit_and, arith, length-append,
  length-drop, length-take,
}
use dsh_proxy.Common.Bytes.{Bytes}
use dsh_proxy.Ws.{
  WsStream, length_field, server_frame, unmask, mask_at, read_length, frame, dispatch, decode_body,
  decode_length, decode, max_frame, max_control, max_pong_backlog, op_ping, op_pong,
}

pub length-unmask : (mask : Bytes) (i : ℕ) (xs : Bytes) → length (unmask mask i xs) ≡ length xs
unfolding unmask
length-unmask mask i [] = refl
length-unmask mask i (x ∷ xs) = omega (arith, length-unmask mask (i + 1) xs)

pub read_length-none : (b : Bytes) (short : ℕ) → read_length b short ≡ none → length b < 10
unfolding read_length
read_length-none b short h = ground arith

pub read_length-some :
    (b : Bytes) (short size at : ℕ)
    → read_length b short ≡ some (size, at)
    → (2 ≤ at) × (at ≤ 10) × (short ≤ max_control → size ≡ short)
unfolding read_length
read_length-some b short size at h = ground arith

pub length-server_frame :
    (opcode : ℕ) (payload : Bytes)
    → length payload ≤ max_control
    → length (server_frame opcode payload) ≡ length payload + 2
unfolding server_frame length_field
length-server_frame opcode payload h = ground arith

ping-is-control : (opcode : ℕ) → opcode ≡ op_ping → bit_and opcode 0x08 ≡ 8
ping-is-control opcode e = rw e refl

module _ {S : Type 0} where
  dispatch-true :
      (s s' : WsStream S) (opcode : ℕ) (payload : Bytes)
      → dispatch s opcode payload ≡ (s', ok true)
      → (s'.incoming ≡ s.incoming) × (length s'.plain ≤ length s.plain + length payload)
  unfolding dispatch frame
  dispatch-true s s' opcode payload h = ground (arith, length-append s.plain payload)

  dispatch-ne-false :
      (s s' : WsStream S) (opcode : ℕ) (payload : Bytes)
      → dispatch s opcode payload ≢ (s', ok false)
  unfolding dispatch
  dispatch-ne-false s s' opcode payload h = ground arith

  dispatch_backlog :
      (s : WsStream S) (opcode : ℕ) (payload : Bytes)
      → (opcode ≡ op_ping → length payload ≤ max_control)
      → length s.outgoing ≤ max_pong_backlog + 127
      → length (dispatch s opcode payload).0.outgoing ≤ max_pong_backlog + 127
  unfolding dispatch frame
  dispatch_backlog s opcode payload short h = ground (
    arith,
    length-append s.outgoing (server_frame op_pong payload),
    length-server_frame op_pong payload,
  )

  body-false :
      (s s' : WsStream S) (opcode : ℕ) (masked : Bool) (size at : ℕ)
      → decode_body s opcode masked size at ≡ (s', ok false)
      → at ≤ 10
      → (s' ≡ s) × (length s.incoming < 14 + max_frame)
  unfolding decode_body
  body-false s s' opcode masked size at h lo = ground (
    arith,
    dispatch-ne-false (record s { incoming = drop size (drop (at + 4) s.incoming) }) s' opcode
        (unmask (mask_at s.incoming at) 0 (take size (drop (at + 4) s.incoming))),
  )

  length-false :
      (s s' : WsStream S) (opcode : ℕ) (masked : Bool) (short : ℕ)
      → decode_length s opcode masked short ≡ (s', ok false)
      → (s' ≡ s) × (length s.incoming < 14 + max_frame)
  unfolding decode_length
  length-false s s' opcode masked short h = elim (Option-cases (read_length s.incoming short)) [
    | inl e ↦ ground (arith, read_length-none s.incoming short)
    | inr ((size, at), e) ↦
        ground
          (arith, body-false s s' opcode masked size at, read_length-some s.incoming short size at)
  ]

  -- The decoder asks for more only while less than one largest frame has been buffered, and then it
  -- has changed nothing.
  pub decode-false_bounded :
      (s s' : WsStream S)
      → decode s ≡ (s', ok false)
      → (s' ≡ s) × (length s.incoming < 14 + max_frame)
  unfolding decode
  decode-false_bounded s s' h = ground (
    arith,
    length-false s s' (bit_and (get_or s.incoming 0 0) 0x0f)
        (not (bit_and (get_or s.incoming 1 0) 0x80 == 0)) (bit_and (get_or s.incoming 1 0) 0x7f),
  )

  body-true :
      (s s' : WsStream S) (opcode : ℕ) (masked : Bool) (size at : ℕ)
      → decode_body s opcode masked size at ≡ (s', ok true)
      → 2 ≤ at
      → (length s'.incoming + 6 ≤ length s.incoming)
        × (length s'.plain + length s'.incoming + 6 ≤ length s.plain + length s.incoming)
  unfolding decode_body
  body-true s s' opcode masked size at h lo = ground (
    arith,
    dispatch-true (record s { incoming = drop size (drop (at + 4) s.incoming) }) s' opcode
        (unmask (mask_at s.incoming at) 0 (take size (drop (at + 4) s.incoming))),
    length-unmask (mask_at s.incoming at) 0 (take size (drop (at + 4) s.incoming)),
    length-take size (drop (at + 4) s.incoming),
    length-drop size (drop (at + 4) s.incoming),
    length-drop (at + 4) s.incoming,
  )

  length-true :
      (s s' : WsStream S) (opcode : ℕ) (masked : Bool) (short : ℕ)
      → decode_length s opcode masked short ≡ (s', ok true)
      → (length s'.incoming + 6 ≤ length s.incoming)
        × (length s'.plain + length s'.incoming + 6 ≤ length s.plain + length s.incoming)
  unfolding decode_length
  length-true s s' opcode masked short h = elim (Option-cases (read_length s.incoming short)) [
    | inl e ↦ ground arith
    | inr ((size, at), e) ↦
        ground
          (arith, body-true s s' opcode masked size at, read_length-some s.incoming short size at)
  ]

  -- A decoded frame takes its header and mask, six bytes at least, off the buffer, and the reader
  -- gets no more bytes than the rest of what was taken.
  pub decode-true_progress :
      (s s' : WsStream S)
      → decode s ≡ (s', ok true)
      → (length s'.incoming + 6 ≤ length s.incoming)
        × (length s'.plain + length s'.incoming + 6 ≤ length s.plain + length s.incoming)
  unfolding decode
  decode-true_progress s s' h = ground (
    arith,
    length-true s s' (bit_and (get_or s.incoming 0 0) 0x0f)
        (not (bit_and (get_or s.incoming 1 0) 0x80 == 0)) (bit_and (get_or s.incoming 1 0) 0x7f),
  )

  body_backlog :
      (s : WsStream S) (opcode : ℕ) (masked : Bool) (size at : ℕ)
      → (opcode ≡ op_ping → size ≤ max_control)
      → length s.outgoing ≤ max_pong_backlog + 127
      → length (decode_body s opcode masked size at).0.outgoing ≤ max_pong_backlog + 127
  unfolding decode_body
  body_backlog s opcode masked size at small h = ground (
    arith,
    dispatch_backlog (record s { incoming = drop size (drop (at + 4) s.incoming) }) opcode
        (unmask (mask_at s.incoming at) 0 (take size (drop (at + 4) s.incoming)))
        (λ e. omega (
          arith,
          small e,
          length-unmask (mask_at s.incoming at) 0 (take size (drop (at + 4) s.incoming)),
          length-take size (drop (at + 4) s.incoming),
        )),
  )

  length_backlog :
      (s : WsStream S) (opcode : ℕ) (masked : Bool) (short : ℕ)
      → (opcode ≡ op_ping → short ≤ max_control)
      → length s.outgoing ≤ max_pong_backlog + 127
      → length (decode_length s opcode masked short).0.outgoing ≤ max_pong_backlog + 127
  unfolding decode_length
  length_backlog s opcode masked short small h =
      elim (Option-cases (read_length s.incoming short)) [
        | inl e ↦ ground arith
        | inr ((size, at), e) ↦ ground (
          arith,
          body_backlog s opcode masked size at (λ p.
              omega (arith, small p, (read_length-some s.incoming short size at e).2 (small p))),
        )
      ]

  -- Pings are answered only up to a bounded backlog: whatever frame arrives, the bytes staged for the
  -- socket stay within it, one largest pong included.
  pub decode_backlog :
      (s : WsStream S)
      → length s.outgoing ≤ max_pong_backlog + 127
      → length (decode s).0.outgoing ≤ max_pong_backlog + 127
  unfolding decode
  decode_backlog s h =
      let first = get_or s.incoming 0 0 in
      let second = get_or s.incoming 1 0 in
      let opcode = bit_and first 0x0f in
      let short = bit_and second 0x7f in
      elim (Bool-cases (not (bit_and opcode 0x08 == 0) && ltb max_control short)) [
        | inl long ↦ ground arith
        | inr fine ↦ ground (
          arith,
          length_backlog s opcode (not (bit_and second 0x80 == 0)) short
              (λ e. ground (arith, ping-is-control opcode e)),
        )
      ]
