-- ===== src/Ws/Segments.antt =====
-- src/ws.rs: how the bytes arrive makes no difference to what is decoded.
use dsh_proxy.Common.{
  ℕ, ◌+◌, ◌≤◌, ◌≡◌, ◌≢◌, ◌++◌, length, get_or, take, drop, some, Option-cases, Bool-cases, inl, inr,
  ltb, Result, ok, Bool, false, not, bit_and, ◌==◌, arith, length-append, length-drop,
  get_or-append_lt, take-append_le, drop-append_le,
}
use dsh_proxy.Common.Bytes.{Bytes}
use dsh_proxy.Ws.{
  WsStream, mask_at, unmask, read_length, frame, dispatch, decode_body, decode_length, decode,
}

module _ {S : Type 0} where
  -- `incoming.extend_from_slice`.
  abbrev pub receive : WsStream S → Bytes → WsStream S
  receive s more = record s { incoming = s.incoming ++ more }

  dispatch-receive :
      (s s' : WsStream S) (opcode : ℕ) (payload more : Bytes) (r : Result Bool)
      → dispatch s opcode payload ≡ (s', r)
      → dispatch (receive s more) opcode payload ≡ (receive s' more, r)
  unfolding dispatch frame
  dispatch-receive s s' opcode payload more r h = ground arith

mask_at-append_lt :
    (b more : Bytes) (at : ℕ) → at + 4 ≤ length b → mask_at (b ++ more) at ≡ mask_at b at
unfolding mask_at
mask_at-append_lt b more at h = ground (
  arith,
  get_or-append_lt b more at 0,
  get_or-append_lt b more (at + 1) 0,
  get_or-append_lt b more (at + 2) 0,
  get_or-append_lt b more (at + 3) 0,
)

read_length-append :
    (b more : Bytes) (short size at : ℕ)
    → 2 ≤ length b
    → read_length b short ≡ some (size, at)
    → read_length (b ++ more) short ≡ some (size, at)
unfolding read_length
read_length-append b more short size at two h = ground (
  arith,
  length-append b more,
  get_or-append_lt b more 2 0,
  get_or-append_lt b more 3 0,
  get_or-append_lt b more 4 0,
  get_or-append_lt b more 5 0,
  get_or-append_lt b more 6 0,
  get_or-append_lt b more 7 0,
  get_or-append_lt b more 8 0,
  get_or-append_lt b more 9 0,
)

module _ {S : Type 0} where
  body-receive :
      (s s' : WsStream S) (opcode : ℕ) (masked : Bool) (size at : ℕ) (more : Bytes)
      (r : Result Bool)
      → decode_body s opcode masked size at ≡ (s', r)
      → r ≢ ok false
      → decode_body (receive s more) opcode masked size at ≡ (receive s' more, r)
  unfolding decode_body
  body-receive s s' opcode masked size at more r h done = ground (
    arith,
    length-append s.incoming more,
    mask_at-append_lt s.incoming more at,
    drop-append_le (at + 4) s.incoming more,
    length-drop (at + 4) s.incoming,
    take-append_le size (drop (at + 4) s.incoming) more,
    drop-append_le size (drop (at + 4) s.incoming) more,
    dispatch-receive (record s { incoming = drop size (drop (at + 4) s.incoming) }) s' opcode
        (unmask (mask_at s.incoming at) 0 (take size (drop (at + 4) s.incoming))) more r,
  )

  length-receive :
      (s s' : WsStream S) (opcode : ℕ) (masked : Bool) (short : ℕ) (more : Bytes) (r : Result Bool)
      → 2 ≤ length s.incoming
      → decode_length s opcode masked short ≡ (s', r)
      → r ≢ ok false
      → decode_length (receive s more) opcode masked short ≡ (receive s' more, r)
  unfolding decode_length
  length-receive s s' opcode masked short more r two h done =
      elim (Option-cases (read_length s.incoming short)) [
        | inl e ↦ absurd (done (ground arith))
        | inr ((size, at), e) ↦ ground (
          arith,
          read_length-append s.incoming more short size at two e,
          body-receive s s' opcode masked size at more r,
        )
      ]

  -- A decision of the decoder, a frame taken or an error, does not depend on the bytes behind the
  -- frame: had more bytes been there, it would have been the same, with those bytes kept.
  pub decode-receive :
      (s s' : WsStream S) (more : Bytes) (r : Result Bool)
      → decode s ≡ (s', r)
      → r ≢ ok false
      → decode (receive s more) ≡ (receive s' more, r)
  unfolding decode
  decode-receive s s' more r h done = elim (Bool-cases (ltb (length s.incoming) 2)) [
    | inl few ↦ absurd (done (ground arith))
    | inr enough ↦ ground (
      arith,
      length-append s.incoming more,
      get_or-append_lt s.incoming more 0 0,
      get_or-append_lt s.incoming more 1 0,
      length-receive s s' (bit_and (get_or s.incoming 0 0) 0x0f)
          (not (bit_and (get_or s.incoming 1 0) 0x80 == 0)) (bit_and (get_or s.incoming 1 0) 0x7f)
          more r,
    )
  ]
