-- ===== src/Ws/Poll/Read.antt =====
-- src/ws.rs: the read half of the byte stream, over what the socket has for it: a list of arrivals, at
-- whose end the socket is pending. An answer is the bytes put into the reader's buffer, and beside it
-- stands what the read has left on the socket.
use dsh_proxy.Common.{
  Poll, pending, ready, ℕ, zero, suc, ◌≡◌, ◌≤◌, refl, sym, ap, subst, ◌∙◌, List, [], ◌∷◌, ◌++◌, ◌%◌,
  ◌≢◌, All, length, take, drop, min, Result, ErrorKind, ok, err, Bool, true, false, not, ◌==◌,
  Bool-cases, inl, inr, arith,
}
use dsh_proxy.Common.Bytes.{Bytes, IsByte}
use dsh_proxy.Ws.{WsStream, frame, dispatch, decode, max_frame}
use dsh_proxy.Ws.RoundTrip.{client_frame, Mask, Allowed, decode-client_frame}
use dsh_proxy.Ws.Frames.{Result-cases}
use dsh_proxy.Ws.Shape.{decode-false_bounded, decode-true_progress}
use dsh_proxy.Ws.Poll.{Socket, drain}
use dsh_proxy.Ws.Poll.Written.{Honest, drain-Drained}

pub data Arrival : Type 0 where
  filled : Bytes → Arrival
  broken : ErrorKind → Arrival

module _ {S : Type 0} (socket : Socket S) where
  -- The rounds of the loop that need no bytes of the socket: `ok true` if there are bytes for the
  -- reader, `ok false` if more must be read. A frame takes a byte at least off the buffer, so as many
  -- rounds as bytes are enough; with no byte buffered there is nothing to decode.
  unfoldable pub take_frames : ℕ → WsStream S → WsStream S × Result Bool
  take_frames zero s = (s, ok (not (length s.plain == 0)))
  take_frames (suc fuel) s =
      let (s1, r) = decode s in
      elim (length s.plain == 0) [
        | false ↦ (s, ok true)
        | true ↦ elim r [
          | err e ↦ (s1, err e)
          | ok false ↦ (s1, ok false)
          | ok true ↦ take_frames fuel (drain socket s1).0
        ]
      ]

  -- `plain` handed to a reader that has room for `room` bytes.
  abbrev pub hand_over : WsStream S → ℕ → WsStream S × Poll Bytes
  hand_over s room =
      let n = min (length s.plain) room in
      (record s { plain = drop n s.plain }, ready (ok (take n s.plain)))

  unfoldable pub poll_read :
      WsStream S → ℕ → List Arrival → (WsStream S × Poll Bytes) × List Arrival
  poll_read s room [] =
      let (s', r) = take_frames (length s.incoming) s in
      elim r [
        | err e ↦ ((s', ready (err e)), [])
        | ok true ↦ (hand_over s' room, [])
        | ok false ↦ elim s'.closed [
          | true ↦ ((s', ready (ok [])), [])
          | false ↦ ((s', pending), [])
        ]
      ]
  poll_read s room (a ∷ more) =
      let (s', r) = take_frames (length s.incoming) s in
      elim r [
        | err e ↦ ((s', ready (err e)), a ∷ more)
        | ok true ↦ (hand_over s' room, a ∷ more)
        | ok false ↦ elim s'.closed [
          | true ↦ ((s', ready (ok [])), a ∷ more)
          | false ↦ elim a [
            | broken e ↦ ((s', ready (err e)), more)
            | filled [] ↦ ((s', ready (ok [])), more)
            | filled (x ∷ xs) ↦
                poll_read (record s' { incoming = s'.incoming ++ (x ∷ xs) }) room more
          ]
        ]
      ]

-- No byte for the reader is held back, and the decoder waits for more.
pub record Idle {S : Type 0} (s : WsStream S) : Type 0 where
  pub nothing : s.plain ≡ []
  pub no_frame : decode s ≡ (s, ok false)

-- No byte for the reader is held back, and what is buffered does not start with a whole frame that a
-- client may send.
pub record Starved {S : Type 0} (s : WsStream S) : Type 0 where
  pub nothing : s.plain ≡ []
  pub no_frame :
      (first : ℕ) (mask payload rest : Bytes)
      → IsByte first
      → Mask mask
      → All IsByte payload
      → length payload ≤ max_frame
      → Allowed first payload
      → s.incoming ≢ client_frame first mask payload ++ rest

dispatch-decides :
    {S : Type 0} (s : WsStream S) (opcode : ℕ) (payload : Bytes)
    → (dispatch s opcode payload).1 ≢ ok false
unfolding dispatch frame
dispatch-decides s opcode payload e = absurd (ground arith)

Idle-Starved : {S : Type 0} (s : WsStream S) → Idle s → Starved s
Idle-Starved {S = S} s v = record {
  nothing = v.nothing;
  no_frame = λ first mask payload rest hf hm hp fits allowed e.
      let acts = decode-client_frame s first mask payload rest e hf hm hp fits allowed in
      dispatch-decides (record s { incoming = rest }) (first % 16) payload
        (ap (λ (p : WsStream S × Result Bool). p.1) (sym acts ∙ v.no_frame));
}

module _ {S : Type 0} (socket : Socket S) (honest : Honest socket) where
  no_bytes : (s : WsStream S) → length s.incoming ≤ 0 → length s.plain ≡ 0 → Idle s
  unfolding decode
  no_bytes s h e = record { nothing = ground arith; no_frame = ground arith }

  decoded-Idle : (s : WsStream S) → length s.plain ≡ 0 → (decode s).1 ≡ ok false → Idle (decode s).0
  decoded-Idle s e q =
      let same = (decode-false_bounded s (decode s).0 (ap (λ r. ((decode s).0, r)) q)).0 in
      subst (λ t. Idle t) (sym same)
        (record {
          nothing = ground arith;
          no_frame = ap (λ r. ((decode s).0, r)) q ∙ ap (λ t. (t, ok false)) same;
        })

  pub take_frames-Idle :
      (fuel : ℕ) (s : WsStream S)
      → length s.incoming ≤ fuel
      → (take_frames socket fuel s).1 ≡ ok false
      → Idle (take_frames socket fuel s).0
  unfolding take_frames
  take_frames-Idle zero s h e = no_bytes s h (ground arith)
  take_frames-Idle (suc fuel) s h e = elim (Bool-cases (length s.plain == 0)) [
    | inr b ↦ absurd (ground arith)
    | inl b ↦ elim (Result-cases (decode s).1) [
      | inl q ↦
          let next : take_frames socket (suc fuel) s
              ≡ take_frames socket fuel (drain socket (decode s).0).0 =
            rw (b, q, take_frames) refl in
          let shrinks = (decode-true_progress s (decode s).0 (ap (λ r. ((decode s).0, r)) q)).0 in
          let kept = ap length (drain-Drained socket honest (decode s).0).input.0 in
          subst (λ (t : WsStream S × Result Bool). Idle t.0) (sym next)
            (take_frames-Idle fuel (drain socket (decode s).0).0 (omega (arith, h, shrinks, kept))
              (sym (ap (λ t. t.1) next) ∙ e))
      | inr (inl q) ↦ rw (b, q, take_frames) (decoded-Idle s (ground arith) q)
      | inr (inr (k, q)) ↦ absurd (ground arith)
    ]
  ]

  -- A read is pending only if no byte for the reader is held back, what is buffered does not start with a
  -- whole frame that a client may send, the client has not closed, and the socket has nothing more: a
  -- reader never waits with a whole frame in hand.
  pub poll_read-Starved :
      (s s' : WsStream S) (room : ℕ) (arrivals : List Arrival)
      → (poll_read socket s room arrivals).0 ≡ (s', pending)
      → Starved s' × (s'.closed ≡ false) × ((poll_read socket s room arrivals).1 ≡ [])
  unfolding poll_read
  poll_read-Starved s s' room [] e =
      elim (Result-cases (take_frames socket (length s.incoming) s).1) [
        | inl q ↦ absurd (ground arith)
        | inr (inl q) ↦
            let v = take_frames-Idle (length s.incoming) s (omega arith) q in
            let same : (take_frames socket (length s.incoming) s).0 ≡ s' = ground arith in
            (Idle-Starved s' (subst (λ t. Idle t) same v), ground arith, ground arith)
        | inr (inr (k, q)) ↦ absurd (ground arith)
      ]
  poll_read-Starved s s' room (broken k ∷ more) e = absurd (ground arith)
  poll_read-Starved s s' room (filled [] ∷ more) e = absurd (ground arith)
  poll_read-Starved s s' room (filled (x ∷ xs) ∷ more) e =
      let s1 = (take_frames socket (length s.incoming) s).0 in
      let s2 = record s1 { incoming = s1.incoming ++ (x ∷ xs) } in
      let again : poll_read socket s room (filled (x ∷ xs) ∷ more) ≡ poll_read socket s2 room more =
        ground arith in
      let (v, speaking, dry) =
        poll_read-Starved s2 s' room more
          (ap (λ (p : (WsStream S × Poll Bytes) × List Arrival). p.0) (sym again) ∙ e) in
      (v, speaking, ap (λ (p : (WsStream S × Poll Bytes) × List Arrival). p.1) again ∙ dry)
