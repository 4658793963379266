-- ===== src/Ws/Poll/Written.antt =====
-- src/ws.rs: no staged byte is lost, sent twice or sent out of its order, however little the socket
-- takes at a time.
use dsh_proxy.Common.{
  Poll, pending, ready, ℕ, zero, suc, ◌≡◌, ◌≤◌, refl, sym, ap, ◌∙◌, [], ◌++◌, length, take, drop,
  min, ErrorKind, ok, err, invalid_data, inl, inr, ◌⊎◌, ◌==◌, Bool-cases, append_assoc, append-nil,
  take-append-drop, length-drop, arith,
}
use dsh_proxy.Common.Bytes.{Bytes}
use dsh_proxy.Ws.{WsStream, frame, server_frame, op_binary, max_send}
use dsh_proxy.Ws.Poll.{Socket, drain_loop, drain, stage, poll_write}

-- What is relied on of the socket: an answer `n` means that the first `n` bytes were taken, and any
-- other answer that none was.
pub record Honest {S : Type 0} (socket : Socket S) : Type 0 where
  pub takes :
      (io io' : S) (b : Bytes) (n : ℕ)
      → socket.poll_write io b ≡ (io', ready (ok n))
      → (socket.sent io' ≡ socket.sent io ++ take n b) × (n ≤ length b)
  pub refuses :
      (io io' : S) (b : Bytes)
      → socket.poll_write io b ≡ (io', pending)
      → socket.sent io' ≡ socket.sent io
  pub fails :
      (io io' : S) (b : Bytes) (e : ErrorKind)
      → socket.poll_write io b ≡ (io', ready (err e))
      → socket.sent io' ≡ socket.sent io

Poll-cases :
    {A : Type 0} (r : Poll A)
    → (r ≡ pending) ⊎ ((e : ErrorKind) × (r ≡ ready (err e))) ⊎ ((a : A) × (r ≡ ready (ok a)))
Poll-cases pending = inl refl
Poll-cases (ready (err e)) = inr (inl (e, refl))
Poll-cases (ready (ok a)) = inr (inr (a, refl))

-- A drain that is done leaves nothing staged.
abbrev pub Emptied : Bytes → Poll (Unit {0}) → Type 0
Emptied out pending = Unit {0}
Emptied out (ready (ok _)) = out ≡ []
Emptied out (ready (err e)) = Unit {0}

-- The frame that a write of some data stages.
abbrev pub written_frame : Bytes → Bytes
written_frame chunk = server_frame op_binary (take (min (length chunk) max_send) chunk)

module _ {S : Type 0} (socket : Socket S) where
  -- The bytes that the client gets, those that are still staged last.
  abbrev pub stream : WsStream S → Bytes
  stream s = socket.sent s.inner ++ s.outgoing

  pub record Drained (s s' : WsStream S) (r : Poll (Unit {0})) : Type 0 where
    pub same : stream s' ≡ stream s
    pub input : (s'.incoming ≡ s.incoming) × (s'.plain ≡ s.plain) × (s'.closed ≡ s.closed)
    pub emptied : Emptied s'.outgoing r

  -- What each answer of a write says of the bytes that the client gets.
  abbrev pub Accepted : WsStream S → Bytes → WsStream S → Poll ℕ → Type 0
  Accepted s chunk s' pending = stream s' ≡ stream s
  Accepted s chunk s' (ready (ok n)) =
      (n ≡ min (length chunk) max_send) × (stream s' ≡ stream s ++ written_frame chunk)
  Accepted s chunk s' (ready (err e)) =
      (stream s' ≡ stream s) ⊎ (stream s' ≡ stream s ++ written_frame chunk)

module _ {S : Type 0} (socket : Socket S) (honest : Honest socket) where
  stopped :
      (s : WsStream S) (io : S) (r : Poll (Unit {0}))
      → socket.sent io ≡ socket.sent s.inner
      → Emptied s.outgoing r
      → Drained socket s (record s { inner = io }) r
  stopped s io r e d = record {
    same = ap (λ l. l ++ s.outgoing) e;
    input = (refl, refl, refl);
    emptied = d;
  }

  -- A round that sent `n` bytes, before a drain of the rest.
  after_round :
      (s s' : WsStream S) (io : S) (n : ℕ) (r : Poll (Unit {0}))
      → socket.sent io ≡ socket.sent s.inner ++ take n s.outgoing
      → Drained socket (record s { inner = io; outgoing = drop n s.outgoing }) s' r
      → Drained socket s s' r
  after_round s s' io n r e v = record {
    same =
        v.same
        ∙ ap (λ l. l ++ drop n s.outgoing) e
        ∙ append_assoc (socket.sent s.inner) (take n s.outgoing) (drop n s.outgoing)
        ∙ ap (λ l. socket.sent s.inner ++ l) (take-append-drop n s.outgoing);
    input = v.input;
    emptied = v.emptied;
  }

  idle : (s : WsStream S) → s.outgoing ≡ [] → Drained socket s s (ready (ok tt))
  idle s e = record { same = refl; input = (refl, refl, refl); emptied = e }

  drain_loop-Drained :
      (fuel : ℕ) (s : WsStream S)
      → length s.outgoing ≤ fuel
      → Drained socket s (drain_loop socket fuel s).0 (drain_loop socket fuel s).1
  unfolding drain_loop
  drain_loop-Drained zero s h = idle s (ground (arith, h))
  drain_loop-Drained (suc fuel) s h = elim (Bool-cases (length s.outgoing == 0)) [
    | inl b ↦ rw (b, drain_loop) (idle s (ground arith))
    | inr b ↦ elim (Poll-cases p.1) [
      | inl q ↦
          rw (b, q, drain_loop)
            (stopped s p.0 pending (honest.refuses s.inner p.0 s.outgoing (answered q)) tt)
      | inr (inl (k, q)) ↦
          rw (b, q, drain_loop)
            (stopped s p.0 (ready (err k)) (honest.fails s.inner p.0 s.outgoing k (answered q)) tt)
      | inr (inr (zero, q)) ↦
          rw (b, q, drain_loop)
            (stopped s p.0 (ready (err invalid_data))
              ((honest.takes s.inner p.0 s.outgoing 0 (answered q)).0 ∙ append-nil _) tt)
      | inr (inr (suc n, q)) ↦
          rw (b, q, drain_loop)
            (after_round s _ p.0 (suc n) _
              (honest.takes s.inner p.0 s.outgoing (suc n) (answered q)).0
              (drain_loop-Drained fuel
                (record s { inner = p.0; outgoing = drop (suc n) s.outgoing })
                (omega (
                  arith,
                  h,
                  length-drop (suc n) s.outgoing,
                  (honest.takes s.inner p.0 s.outgoing (suc n) (answered q)).1,
                ))))
    ]
  ]
    where
      p : S × Poll ℕ
      p = socket.poll_write s.inner s.outgoing

      answered : {r : Poll ℕ} → p.1 ≡ r → p ≡ (p.0, r)
      answered q = ap (λ r. (p.0, r)) q

  -- A drain keeps what the client gets, in its order, and the input; nothing is left staged if it is
  -- done.
  pub drain-Drained : (s : WsStream S) → Drained socket s (drain socket s).0 (drain socket s).1
  unfolding drain
  drain-Drained s = drain_loop-Drained (length s.outgoing) s (omega arith)

  stream-frame :
      (s : WsStream S) (opcode : ℕ) (chunk : Bytes)
      → stream socket (frame s opcode chunk) ≡ stream socket s ++ server_frame opcode chunk
  unfolding frame
  stream-frame s opcode chunk = sym (append_assoc (socket.sent s.inner) s.outgoing _)

  stage-Accepted :
      (s s0 : WsStream S) (chunk : Bytes)
      → stream socket s ≡ stream socket s0
      → Accepted socket s0 chunk (stage socket s chunk).0 (stage socket s chunk).1
  unfolding stage
  stage-Accepted s s0 chunk e = elim (Poll-cases (drain socket f).1) [
    | inl q ↦ rw (q, stage) (refl, whole)
    | inr (inl (k, q)) ↦ rw (q, stage) (inr whole)
    | inr (inr (u, q)) ↦ rw (q, stage) (refl, whole)
  ]
    where
      f : WsStream S
      f = frame s op_binary (take (min (length chunk) max_send) chunk)

      whole : stream socket (drain socket f).0 ≡ stream socket s0 ++ written_frame chunk
      whole =
          (drain-Drained f).same ∙ stream-frame s op_binary _ ∙ ap (λ l. l ++ written_frame chunk) e

  -- A write that is pending has staged nothing; one that answers `n` has staged one frame of the first
  -- `n` bytes, 65536 at most, behind all that was written before; one that fails has staged all of
  -- that frame or nothing.
  pub poll_write-Accepted :
      (s : WsStream S) (chunk : Bytes)
      → Accepted socket s chunk (poll_write socket s chunk).0 (poll_write socket s chunk).1
  unfolding poll_write
  poll_write-Accepted s chunk = elim (Poll-cases (drain socket s).1) [
    | inl q ↦ rw (q, poll_write) (drain-Drained s).same
    | inr (inl (k, q)) ↦ rw (q, poll_write) (inl (drain-Drained s).same)
    | inr (inr (u, q)) ↦
        rw (q, poll_write) (stage-Accepted (drain socket s).0 s chunk (drain-Drained s).same)
  ]
