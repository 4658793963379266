-- ===== src/Mux/Io/Refines.antt =====
-- src/mux.rs: `MuxStreamIo` against what it promises its user: a queue of bytes that a write appends to
-- and that nothing else changes.
use dsh_proxy.Common.{
  ℕ, ◌≡◌, refl, sym, ap, ◌∙◌, List, [], ◌∷◌, ◌++◌, Option, none, some, Option-cases, inl, inr, ok,
  err, Poll, leb, if_both, append_assoc, append-nil, lookup, length, subst, take, take-length,
}
use dsh_proxy.Common.Bytes.{Bytes}
use dsh_proxy.Mux.Runtime.{Runtime, Lawful}
use dsh_proxy.Mux.Session.{Half, MuxSession}
use dsh_proxy.Mux.Ops.{hang_up, close_credit, drop_state, close_stream}
use dsh_proxy.Mux.Io.{
  MuxStreamIo, accept, write_coalesce, poll_read, poll_write, poll_flush, poll_shutdown,
  close_after, end_stream, flush_credit,
}
use dsh_proxy.Mux.Send.Carried.{carried}
use dsh_proxy.Mux.Io.Fifo.{
  queued, in_flight, written, on_link, Kept, Flushed, flush_credit-Kept, poll_read-Kept,
  try_post-carried, poll_flush-Flushed,
}

pub data IoCall : Type 0 where
  reads : ℕ → IoCall
  writes : Bytes → IoCall
  flushes shuts : IoCall

-- What a call did to the queue: it took bytes from its caller, as many as it answered, or it failed and the
-- user drops it.
pub data Effect : Type 0 where
  took : Bytes → Effect
  failed : Effect

abbrev pub flush_effect : Poll (Unit {0}) → Effect
flush_effect Poll.pending = took []
flush_effect (Poll.ready (ok _)) = took []
flush_effect (Poll.ready (err e)) = failed

abbrev pub write_effect : Bytes → Poll ℕ → Effect
write_effect bytes Poll.pending = took []
write_effect bytes (Poll.ready (ok n)) = took (take n bytes)
write_effect bytes (Poll.ready (err e)) = failed

abbrev pub after : Bytes → Effect → Effect
after b (took more) = took (b ++ more)
after b failed = failed

module _ {rt : Runtime} where
  -- What follows a call, unless it failed.
  unfoldable pub run_on :
      (MuxSession rt × MuxStreamIo) × Effect
      → (MuxSession rt × MuxStreamIo → (MuxSession rt × MuxStreamIo) × Effect)
      → (MuxSession rt × MuxStreamIo) × Effect
  run_on (p, failed) k = (p, failed)
  run_on (p, took b) k = let (q, e) = k p in (q, after b e)

  unfoldable pub io_call :
      MuxSession rt × MuxStreamIo → IoCall → (MuxSession rt × MuxStreamIo) × Effect
  io_call (s, io) (reads room) = ((poll_read s io room).0, took [])
  io_call (s, io) (writes bytes) =
      let (io', r) = poll_write io bytes in ((s, io'), write_effect bytes r)
  io_call (s, io) flushes = let (p, r) = poll_flush s io in (p, flush_effect r)
  io_call (s, io) shuts = let (p, r) = poll_shutdown s io in (p, flush_effect r)

  -- A run up to its first failure.
  unfoldable pub io_run :
      MuxSession rt × MuxStreamIo → List IoCall → (MuxSession rt × MuxStreamIo) × Effect
  io_run p [] = (p, took [])
  io_run p (c ∷ cs) = run_on (io_call p c) (λ q. io_run q cs)

  -- The specification: what was taken stands behind what was there; a failure promises nothing.
  abbrev pub Refines : MuxSession rt × MuxStreamIo → (MuxSession rt × MuxStreamIo) × Effect → Type 0
  Refines (s, io) ((s', io'), took b) = (io'.tx ≡ io.tx) × (written s' io' ≡ written s io ++ b)
  Refines (s, io) ((s', io'), failed) = Unit {0}

module _ {rt : Runtime} (law : Lawful rt) where
  hang_up-out : (s : MuxSession rt) (id : ℕ) → (hang_up s id).out ≡ s.out
  unfolding hang_up close_credit drop_state
  hang_up-out s id = elim (Option-cases (lookup id s.streams)) [
    | inl e ↦ rw (e, hang_up) refl
    | inr (at, e) ↦ rw (e, hang_up) refl
  ]

  end_stream-Kept : (s : MuxSession rt) (io : MuxStreamIo) → Kept s io (end_stream s io)
  unfolding end_stream close_stream
  end_stream-Kept s io =
      let k = flush_credit-Kept law s io in
      let s1 = (flush_credit s io).0 in
      (
        k.0,
        try_post-carried law (hang_up s1 io.tx.id) io.tx.id _ refl
            ∙ ap (λ o. carried io.tx.id (rt.accepted o)) (hang_up-out s1 io.tx.id)
            ∙ k.1,
        k.2,
      )

  Kept-Refines :
      (s : MuxSession rt) (io : MuxStreamIo) (r : MuxSession rt × MuxStreamIo)
      → Kept s io r
      → Refines (s, io) (r, took [])
  Kept-Refines s io (s', io') (t, o, q) = (
    t,
    ap (λ i. on_link s' i ++ queued io') (ap (λ (h : Half). h.id) t)
        ∙ ap (λ l. l ++ queued io') o
        ∙ ap (λ l. on_link s io.tx.id ++ l) q
        ∙ sym (append-nil _),
  )

  accept-Refines :
      (s : MuxSession rt) (io : MuxStreamIo) (bytes : Bytes)
      → io.pending ≡ none
      → Refines (s, io) ((s, (accept io bytes).0), took bytes)
  unfolding accept
  accept-Refines s io bytes e =
      if_both (λ i. (i.tx ≡ io.tx) × (written s i ≡ written s io ++ bytes))
        (leb write_coalesce (length (io.out ++ bytes))) (refl, launched) (refl, appended)
    where
      idle : in_flight io ≡ []
      idle = rw (e, in_flight) refl

      appended :
          on_link s io.tx.id ++ (in_flight io ++ (io.out ++ bytes))
          ≡ (on_link s io.tx.id ++ (in_flight io ++ io.out)) ++ bytes
      appended = simp append_assoc

      launched :
          on_link s io.tx.id ++ ((io.out ++ bytes) ++ [])
          ≡ (on_link s io.tx.id ++ (in_flight io ++ io.out)) ++ bytes
      launched = simp (append_assoc, append-nil, idle)

  poll_write-Refines :
      (s : MuxSession rt) (io : MuxStreamIo) (bytes : Bytes)
      → Refines (s, io) (io_call (s, io) (writes bytes))
  unfolding io_call poll_write
  poll_write-Refines s io bytes = elim (Option-cases io.pending) [
    | inl e ↦
        subst (λ (r : MuxStreamIo × Poll ℕ). Refines (s, io) ((s, r.0), write_effect bytes r.1))
          (sym (from e))
          (unfold accept in
            subst (λ b. Refines (s, io) ((s, (accept io bytes).0), took b))
              (sym (take-length bytes)) (accept-Refines s io bytes e))
    | inr (rest, e) ↦
        subst (λ (r : MuxStreamIo × Poll ℕ). Refines (s, io) ((s, r.0), write_effect bytes r.1))
          (sym (from e)) (refl, sym (append-nil _))
  ]
    where
      from :
          {o : Option Bytes}
          → io.pending ≡ o
          → poll_write io bytes ≡ (elim o as (λ _. MuxStreamIo × Poll ℕ) [
            | some rest ↦ (io, Poll.pending)
            | none ↦ accept io bytes
          ])
      from e =
          ap
            (λ o. (elim o as (λ _. MuxStreamIo × Poll ℕ) [
              | some rest ↦ (io, Poll.pending)
              | none ↦ accept io bytes
            ]))
            e

  Flushed-Refines :
      (s : MuxSession rt) (io : MuxStreamIo) (a : (MuxSession rt × MuxStreamIo) × Poll (Unit {0}))
      → Flushed s io a
      → Refines (s, io) (a.0, flush_effect a.1)
  Flushed-Refines s io ((s', io'), Poll.ready (err e)) v = tt
  Flushed-Refines s io ((s', io'), Poll.ready (ok u)) v = (
    v.moved.same_tx,
    ap (λ (h : Half). on_link s' h.id ++ queued io') v.moved.same_tx
        ∙ ap (λ l. on_link s' io.tx.id ++ (l ++ queued io')) (sym v.ends.0)
        ∙ v.moved.stream,
  )
  Flushed-Refines s io ((s', io'), Poll.pending) v = (
    v.moved.same_tx,
    ap (λ (h : Half). on_link s' h.id ++ queued io') v.moved.same_tx
        ∙ ap (λ l. on_link s' io.tx.id ++ (l ++ queued io')) (sym v.ends)
        ∙ v.moved.stream,
  )

  close_after-Refines :
      (s : MuxSession rt) (io : MuxStreamIo) (a : (MuxSession rt × MuxStreamIo) × Poll (Unit {0}))
      → Refines (s, io) (a.0, flush_effect a.1)
      → Refines (s, io) ((close_after a).0, flush_effect (close_after a).1)
  unfolding close_after
  close_after-Refines s io ((s', io'), Poll.pending) v = v
  close_after-Refines s io ((s', io'), Poll.ready (err e)) v = tt
  close_after-Refines s io ((s', io'), Poll.ready (ok u)) (t, w) =
      let (t', w') = Kept-Refines s' io' (end_stream s' io') (end_stream-Kept s' io') in
      (t' ∙ t, w' ∙ append-nil _ ∙ w)

  io_call-Refines : (p : MuxSession rt × MuxStreamIo) (c : IoCall) → Refines p (io_call p c)
  unfolding io_call poll_shutdown
  io_call-Refines (s, io) (reads room) =
      Kept-Refines s io (poll_read s io room).0 (poll_read-Kept law s io room)
  io_call-Refines (s, io) (writes bytes) = poll_write-Refines s io bytes
  io_call-Refines (s, io) flushes =
      Flushed-Refines s io (poll_flush s io) (poll_flush-Flushed law s io)
  io_call-Refines (s, io) shuts =
      close_after-Refines s io (poll_flush s io)
        (Flushed-Refines s io (poll_flush s io) (poll_flush-Flushed law s io))

  joined_Refines :
      (p q : MuxSession rt × MuxStreamIo) (b : Bytes) (a : (MuxSession rt × MuxStreamIo) × Effect)
      → Refines p (q, took b)
      → Refines q a
      → Refines p (a.0, after b a.1)
  joined_Refines p q b (r, failed) v w = tt
  joined_Refines p q b (r, took more) (t, v) (t', w) =
      (t' ∙ t, w ∙ ap (λ l. l ++ more) v ∙ append_assoc (written p.0 p.1) b more)

  run_on-Refines :
      (p : MuxSession rt × MuxStreamIo) (a : (MuxSession rt × MuxStreamIo) × Effect)
      (k : MuxSession rt × MuxStreamIo → (MuxSession rt × MuxStreamIo) × Effect)
      → Refines p a
      → ((q : MuxSession rt × MuxStreamIo) → Refines q (k q))
      → Refines p (run_on a k)
  unfolding run_on
  run_on-Refines p (q, failed) k v ih = tt
  run_on-Refines p (q, took b) k v ih = joined_Refines p q b (k q) v (ih q)

  -- After any reads, writes, flushes and shutdowns, up to the first failure, the bytes of the stream on
  -- the link and behind them the bytes still queued are those that were there before and behind them,
  -- in order and once each, all that the writes took.
  pub io_run-Refines :
      (cs : List IoCall) (p : MuxSession rt × MuxStreamIo) → Refines p (io_run p cs)
  unfolding io_run
  io_run-Refines [] p = (refl, sym (append-nil _))
  io_run-Refines (c ∷ cs) p =
      run_on-Refines p (io_call p c) (λ q. io_run q cs) (io_call-Refines p c) (io_run-Refines cs)
