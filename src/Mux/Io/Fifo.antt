-- ===== src/Mux/Io/Fifo.antt =====
-- src/mux.rs: the write half of `MuxStreamIo` is a queue: what is written to it comes out on the link
-- once, in its order.
use dsh_proxy.Common.{
  ℕ, ◌≡◌, refl, sym, ap, ◌∙◌, [], ◌∷◌, ◌++◌, length, Option, none, some, inl, inr, Bool, false,
  Bool-cases, ok, err, Poll, ◌==◌, ltb, if_both, append-nil, arith,
}
use dsh_proxy.Common.Bytes.{Bytes}
use dsh_proxy.Frame.{Frame}
use dsh_proxy.Mux.Runtime.{Runtime, Lawful, Received, chunk, ended, waiting}
use dsh_proxy.Mux.Session.{MuxSession}
use dsh_proxy.Mux.Ops.{try_post}
use dsh_proxy.Mux.Send.{Progress, done, broken, stuck, parked}
use dsh_proxy.Mux.Send.Carried.{carried, carried-append, carried-other, sent_part}
use dsh_proxy.Mux.Send.Flow.{Flow, send-Flow}
use dsh_proxy.Mux.Io.{
  MuxStreamIo, flush_out, resume, flush_from, poll_flush, flush_credit, return_credit, hand_over,
  deliver, read_from, poll_read, window_frame, grant_threshold,
}
use dsh_proxy.Mux.Read.{set_inbox}
use dsh_proxy.Wire.{kind_data}

abbrev pub in_flight : MuxStreamIo → Bytes
in_flight io = elim io.pending [ none ↦ [] | some rest ↦ rest ]

-- What was written and is not on the link.
abbrev pub queued : MuxStreamIo → Bytes
queued io = in_flight io ++ io.out

-- What the answer of a flush says of the bytes still queued and of those lost.
abbrev pub Settled : MuxStreamIo → Bytes → Poll (Unit {0}) → Type 0
Settled io lost Poll.pending = lost ≡ []
Settled io lost (Poll.ready (ok _)) = (lost ≡ []) × (queued io ≡ [])
Settled io lost (Poll.ready (err e)) = Unit {0}

module _ {rt : Runtime} where
  -- All that was written: what the link has taken of the stream, and what is queued.
  abbrev pub written : MuxSession rt → MuxStreamIo → Bytes
  written s io = carried io.tx.id (rt.accepted s.out) ++ queued io

  abbrev pub on_link : MuxSession rt → ℕ → Bytes
  on_link s id = carried id (rt.accepted s.out)

  -- An operation that took `more` from the writer, and that lost `lost` of what was queued.
  pub record Moved (s : MuxSession rt) (io : MuxStreamIo) (more lost : Bytes)
      (r : MuxSession rt × MuxStreamIo) : Type 0 where
    pub same_tx : r.1.tx ≡ io.tx
    pub stream : on_link r.0 io.tx.id ++ (lost ++ queued r.1) ≡ written s io ++ more

  -- An operation that neither writes nor loses.
  abbrev pub Kept : MuxSession rt → MuxStreamIo → MuxSession rt × MuxStreamIo → Type 0
  Kept s io r =
      (r.1.tx ≡ io.tx) × (on_link r.0 io.tx.id ≡ on_link s io.tx.id) × (queued r.1 ≡ queued io)

  -- A flush that meets an error loses what was in flight and did not get through.
  pub record Flushed (s : MuxSession rt) (io : MuxStreamIo)
      (a : (MuxSession rt × MuxStreamIo) × Poll (Unit {0})) : Type 0 where
    pub lost : Bytes
    pub moved : Moved s io [] lost a.0
    pub ends : Settled (a.0).1 lost a.1

  abbrev FlushedBy :
      MuxSession rt → MuxStreamIo → MuxSession rt → MuxStreamIo × Poll (Unit {0}) → Type 0
  FlushedBy s io s' r = Flushed s io ((s', r.0), r.1)

module _ {rt : Runtime} (law : Lawful rt) where
  pub try_post-carried :
      (s : MuxSession rt) (id : ℕ) (f : Frame)
      → (f.kind == kind_data) ≡ false
      → on_link (try_post s f).0 id ≡ on_link s id
  unfolding try_post
  try_post-carried s id f other = elim (Bool-cases (rt.try_send_out s.out f).1) [
    | inl e ↦
        ap (carried id) (law.try_send_out-taken s.out _ f (answer e))
        ∙ carried-append id (rt.accepted s.out) (f ∷ [])
        ∙ ap (λ l. on_link s id ++ l) (carried-other id f other)
        ∙ append-nil (on_link s id)
    | inr e ↦ ap (carried id) (law.try_send_out-refused s.out _ f (answer e))
  ]
    where
      answer :
          {b : Bool}
          → (rt.try_send_out s.out f).1 ≡ b
          → rt.try_send_out s.out f ≡ ((rt.try_send_out s.out f).0, b)
      answer e = ap (λ b. ((rt.try_send_out s.out f).0, b)) e

  pub flush_credit-Kept : (s : MuxSession rt) (io : MuxStreamIo) → Kept s io (flush_credit s io)
  unfolding flush_credit
  flush_credit-Kept s io =
      let quiet = try_post-carried s io.tx.id (window_frame io.tx.id io.credit_due) refl in
      if_both (Kept s io) (io.credit_due == 0) (refl, refl, refl)
        (if_both (λ i. Kept s io ((try_post s (window_frame io.tx.id io.credit_due)).0, i))
          (try_post s (window_frame io.tx.id io.credit_due)).1 (refl, quiet, refl)
          (refl, quiet, refl))

  return_credit-Kept : (s : MuxSession rt) (io : MuxStreamIo) → Kept s io (return_credit s io)
  unfolding return_credit
  return_credit-Kept s io =
      if_both (Kept s io) (ltb io.credit_due grant_threshold) (refl, refl, refl)
        (flush_credit-Kept s io)

  hand_over-Kept :
      (s : MuxSession rt) (io : MuxStreamIo) (b : Bytes) (room : ℕ)
      → Kept s io (hand_over s io b room).0
  unfolding hand_over
  hand_over-Kept s io b room = return_credit-Kept s _

  deliver-Kept :
      (s : MuxSession rt) (io : MuxStreamIo) (r : Received) (room : ℕ)
      → Kept s io (deliver s io r room).0
  unfolding deliver
  deliver-Kept s io (chunk b) room = hand_over-Kept s io b room
  deliver-Kept s io ended room = flush_credit-Kept s io
  deliver-Kept s io waiting room = (refl, refl, refl)

  read_from-Kept :
      (s : MuxSession rt) (io : MuxStreamIo) (o : Option Bytes) (room : ℕ)
      → Kept s io (read_from s io o room).0
  unfolding read_from
  read_from-Kept s io (some b) room = hand_over-Kept s io b room
  read_from-Kept s io none room =
      unfold set_inbox in
      deliver-Kept (set_inbox s io.tx.at (rt.poll_recv (s.heap io.tx.at).inbox).0) io _ room

  pub poll_read-Kept :
      (s : MuxSession rt) (io : MuxStreamIo) (room : ℕ) → Kept s io (poll_read s io room).0
  unfolding poll_read
  poll_read-Kept s io room = read_from-Kept s io io.inbox room

  -- Once the in-flight send is over and all that it held is on the link.
  flush_out-Flushed :
      (s s' : MuxSession rt) (io idle : MuxStreamIo)
      → idle.tx ≡ io.tx
      → idle.pending ≡ none
      → on_link s' io.tx.id ++ idle.out ≡ written s io
      → FlushedBy s io s' (flush_out idle)
  unfolding flush_out
  flush_out-Flushed s s' io idle t e w = elim (Bool-cases (length idle.out == 0)) [
    | inl b ↦
        rw (b, flush_out)
          (record {
            lost = [];
            moved = record { same_tx = t; stream = rw (e, in_flight) (w ∙ sym (append-nil _)) };
            ends = (refl, rw (e, in_flight) (ground arith));
          })
    | inr b ↦
        rw (b, flush_out)
          (record {
            lost = [];
            moved = record { same_tx = t; stream = rw (append-nil idle.out, append-nil) w };
            ends = refl;
          })
  ]

  emitted-carried :
      (s s' : MuxSession rt) (io : MuxStreamIo) (rest : Bytes) (p : Progress)
      → io.pending ≡ some rest
      → (v : Flow law s io.tx rest s' p) → on_link s' io.tx.id ++ (v.rest ++ io.out) ≡ written s io
  emitted-carried s s' io rest p e v =
      let flight : in_flight io ≡ rest = rw (e, in_flight) refl in
      sent_part law s s' io.tx rest p io.out v
      ∙ ap (λ l. on_link s io.tx.id ++ (l ++ io.out)) (sym flight)

  after_send :
      (s s' : MuxSession rt) (io : MuxStreamIo) (rest : Bytes) (p : Progress)
      → io.pending ≡ some rest
      → Flow law s io.tx rest s' p
      → Flushed s io (resume s' io p)
  unfolding resume
  after_send s s' io rest done e v =
      flush_out-Flushed s s' io (record io { pending = none }) refl refl
        (ap (λ r. on_link s' io.tx.id ++ (r ++ io.out)) (sym v.ends.0)
          ∙ emitted-carried s s' io rest done e v)
  after_send s s' io rest broken e v = record {
    lost = v.rest;
    moved = record {
      same_tx = refl;
      stream = emitted-carried s s' io rest broken e v ∙ sym (append-nil _);
    };
    ends = tt;
  }
  after_send s s' io rest (parked left) e v = record {
    lost = [];
    moved = record {
      same_tx = refl;
      stream =
          ap (λ r. on_link s' io.tx.id ++ (r ++ io.out)) (sym v.ends.0)
          ∙ emitted-carried s s' io rest (parked left) e v
          ∙ sym (append-nil _);
    };
    ends = refl;
  }
  after_send s s' io rest stuck e v = absurd v.ends

  flush_from-Flushed :
      (s : MuxSession rt) (io : MuxStreamIo) (o : Option Bytes)
      → io.pending ≡ o
      → Flushed s io (flush_from s io o)
  unfolding flush_from
  flush_from-Flushed s io none e =
      let empty : in_flight io ≡ [] = rw (e, in_flight) refl in
      flush_out-Flushed s s io io refl e (ap (λ o. on_link s io.tx.id ++ (o ++ io.out)) (sym empty))
  flush_from-Flushed s io (some rest) e = after_send s _ io rest _ e (send-Flow law s io.tx rest)

  -- A flush keeps what was written, on the link or still queued and in its order, and when it is done
  -- all of it is on the link; only a flush that fails loses bytes, from the front of what was queued.
  pub poll_flush-Flushed : (s : MuxSession rt) (io : MuxStreamIo) → Flushed s io (poll_flush s io)
  unfolding poll_flush
  poll_flush-Flushed s io = flush_from-Flushed s io io.pending refl
