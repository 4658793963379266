-- ===== src/Mux/Read/Budget.antt =====
-- src/mux.rs: whatever the peer sends, in whatever order, a link never carries more streams than its
-- ceiling, and gives every permit back.
use dsh_proxy.Common.{
  ℕ, List, [], ◌∷◌, length, Option-cases, inl, inr, true, false, arith, ◌==◌, ◌++◌, if_both,
  if◌then◌else◌, lookup,
}
use dsh_proxy.Common.Bytes.{Bytes}
use dsh_proxy.Frame.{Frame, parse}
use dsh_proxy.Mux.Runtime.{Runtime, Lawful, Sent, taken, full, closed}
use dsh_proxy.Mux.Session.{Half, MuxSession}
use dsh_proxy.Mux.Ops.Budget.{
  Exact, insert_stream-Exact, hang_up-Exact, post-Exact, allocate-Exact, acquired-Exact,
}
use dsh_proxy.Mux.Read.{
  Outcome, continues, returns, panics, fails, Event, idle, eof, broken, message, reply, set_inbox,
  announce, settle, peer_open, peer_data, peer_window, dispatch, read_step, read_loop,
}
use dsh_proxy.Wire.{kind_open, kind_data, kind_close, kind_window}

module _ {rt : Runtime} (law : Lawful rt) (limit : ℕ) where
  reply-Exact :
      (s : MuxSession rt) (f : Frame) → Exact law limit 0 s → Exact law limit 0 (reply s f).0
  unfolding reply
  reply-Exact s f v = post-Exact law limit s f 0 v

  set_inbox-Exact :
      (s : MuxSession rt) (at : ℕ) (i : rt.Inbox)
      → Exact law limit 0 s
      → Exact law limit 0 (set_inbox s at i)
  unfolding set_inbox
  set_inbox-Exact s at i v = record { slots = v.slots; keys = v.keys; usable = v.usable }

  announce-Exact :
      (s : MuxSession rt) (h : Half) → Exact law limit 0 s → Exact law limit 0 (announce s h)
  unfolding announce
  announce-Exact s h v =
      elim s.on_open
        as (λ b. Exact law limit 0 (
          if b
          then record s { announced = s.announced ++ (h ∷ []) }
          else set_inbox s h.at (rt.drop_receiver (s.heap h.at).inbox))) [
            | true ↦ record { slots = v.slots; keys = v.keys; usable = v.usable }
            | false ↦ set_inbox-Exact s h.at _ v
          ]

  peer_open-Exact :
      (s : MuxSession rt) (id : ℕ) → Exact law limit 0 s → Exact law limit 0 (peer_open s id).0
  unfolding peer_open
  peer_open-Exact s id v = elim (Option-cases (rt.try_acquire 1 s.budget)) [
    | inl e ↦ rw (e, peer_open) (reply-Exact _ _ (allocate-Exact law limit s 0 v))
    | inr (b, e) ↦
        rw (e, peer_open)
          (announce-Exact _ _ (
            insert_stream-Exact law limit _ id s.fresh 0
              (allocate-Exact law limit _ 1 (acquired-Exact law limit s b s.next_id 0 e v))))
  ]

  settle-Exact :
      (s : MuxSession rt) (id : ℕ) (sent : Sent)
      → Exact law limit 0 s
      → Exact law limit 0 (settle s id sent).0
  unfolding settle
  settle-Exact s id taken v = v
  settle-Exact s id closed v = v
  settle-Exact s id full v = reply-Exact _ _ (hang_up-Exact law limit s id 0 v)

  peer_data-Exact :
      (s : MuxSession rt) (id : ℕ) (body : Bytes)
      → Exact law limit 0 s
      → Exact law limit 0 (peer_data s id body).0
  unfolding peer_data
  peer_data-Exact s id body v = elim (Option-cases (lookup id s.streams)) [
    | inl e ↦ rw (e, peer_data) v
    | inr (at, e) ↦ rw (e, peer_data) (settle-Exact _ id _ (set_inbox-Exact s at _ v))
  ]

  peer_window-Exact :
      (s : MuxSession rt) (id : ℕ) (body : Bytes)
      → Exact law limit 0 s
      → Exact law limit 0 (peer_window s id body).0
  unfolding peer_window
  peer_window-Exact s id body v = record {
    slots = ground (arith, v.slots);
    keys = ground (arith, v.keys);
    usable = ground (arith, v.usable);
  }

  -- Any frame keeps the ceiling exact.
  pub dispatch-Exact :
      (s : MuxSession rt) (f : Frame) → Exact law limit 0 s → Exact law limit 0 (dispatch s f).0
  unfolding dispatch
  dispatch-Exact s f v =
      let P : MuxSession rt × Outcome → Type 0 = λ r. Exact law limit 0 r.0 in
      if_both P (f.id == 0) (reply-Exact s _ v) (
        if_both P (f.kind == kind_open) (peer_open-Exact s f.id v) (
          if_both P (f.kind == kind_data) (peer_data-Exact s f.id f.payload v) (
            if_both P (f.kind == kind_window)
              (if_both P (length f.payload == 4) (peer_window-Exact s f.id f.payload v) v)
              (if_both P (f.kind == kind_close) (hang_up-Exact law limit s f.id 0 v) v))))

  pub read_step-Exact :
      (s : MuxSession rt) (e : Event) → Exact law limit 0 s → Exact law limit 0 (read_step s e).0
  unfolding read_step
  read_step-Exact s idle v = v
  read_step-Exact s eof v = v
  read_step-Exact s (broken e) v = v
  read_step-Exact s (message m) v = elim (Option-cases (parse m)) [
    | inl e ↦ rw (e, read_step) v
    | inr (f, e) ↦ rw (e, read_step) (dispatch-Exact s f v)
  ]

  read_loop-Exact :
      (s : MuxSession rt) (es : List Event)
      → Exact law limit 0 s
      → Exact law limit 0 (read_loop s es).0
  unfolding read_loop
  read_loop-Exact s [] v = v
  read_loop-Exact s (e ∷ es) v =
      let v' = read_step-Exact s e v in
      elim (read_step s e).1
        as (λ o.
          Exact law limit 0
            (let next : MuxSession rt × Outcome = elim o [
              | continues ↦ read_loop (read_step s e).0 es
              | other ↦ ((read_step s e).0, other)
            ] in
              next).0) [
                | continues ↦ read_loop-Exact (read_step s e).0 es v'
                | returns ↦ v'
                | panics ↦ v'
                | fails x ↦ v'
              ]
