-- ===== src/Mux/Stranded/Frames.antt =====
-- src/mux.rs: no frame of the peer reaches a stream that has left the map.
use dsh_proxy.Common.{
  ℕ, ◌≢◌, refl, sym, ◌∙◌, ◌∷◌, length, Option-cases, inl, inr, ◌==◌, if_both, lookup, erase,
  update_ne, arith,
}
use dsh_proxy.Common.Bytes.{Bytes}
use dsh_proxy.Frame.{Frame, control, parse}
use dsh_proxy.Mux.Runtime.{Runtime, Sent, taken, full, closed}
use dsh_proxy.Mux.Session.{Half, MuxSession}
use dsh_proxy.Mux.Ops.{allocate, insert_stream, hang_up}
use dsh_proxy.Mux.Read.{
  Event, idle, eof, broken, message, Outcome, granted, reply, set_inbox, announce, settle,
  peer_open, peer_data, peer_window, dispatch, read_step,
}
use dsh_proxy.Mux.Stranded.{
  Unmapped-erase, Unmapped-lookup, Stranded, Left, drop_state-Left, set_inbox-Left, hang_up-Left,
  post-Left,
}
use dsh_proxy.Wire.{kind_open, kind_data, kind_close, kind_window}

module _ {rt : Runtime} (at : ℕ) where
  allocate-Left : (s : MuxSession rt) → Stranded at s → Left at s (allocate s)
  unfolding allocate
  allocate-Left s v = (
    record { known = omega (arith, v.known); unmapped = v.unmapped },
    update_ne s.heap s.fresh _ at (λ e. omega (arith, v.known, e)),
  )

  insert_stream-Left :
      (s : MuxSession rt) (id a : ℕ) → a ≢ at → Stranded at s → Left at s (insert_stream s id a)
  unfolding insert_stream
  insert_stream-Left s id a ne v = elim (Option-cases (lookup id s.streams)) [
    | inl e ↦ rw (e, insert_stream) (record { known = v.known; unmapped = (ne, v.unmapped) }, refl)
    | inr (old, e) ↦
        rw (e, insert_stream)
          (drop_state-Left at old (record s { streams = (id, a) ∷ erase id s.streams })
            (Unmapped-lookup at id old s.streams v.unmapped e)
            (record {
              known = v.known;
              unmapped = (ne, Unmapped-erase at id s.streams v.unmapped);
            }))
  ]

  reply-Left : (s : MuxSession rt) (f : Frame) → Stranded at s → Left at s (reply s f).0
  unfolding reply
  reply-Left s f v = post-Left at s f v

  announce-Left :
      (s : MuxSession rt) (h : Half) → h.at ≢ at → Stranded at s → Left at s (announce s h)
  unfolding announce
  announce-Left s h ne v =
      if_both (Left at s) s.on_open (record { known = v.known; unmapped = v.unmapped }, refl)
        (set_inbox-Left at h.at _ s ne v)

  -- A new address is not the stranded one.
  pub opened_at :
      (s : MuxSession rt) (b : rt.Sem) (next id : ℕ)
      → Stranded at s
      → Left at s (insert_stream (allocate (record s { budget = b; next_id = next })) id s.fresh)
  opened_at s b next id v =
      let s1 = record s { budget = b; next_id = next } in
      let (w, e) = allocate-Left s1 (record { known = v.known; unmapped = v.unmapped }) in
      let (w', e') =
        insert_stream-Left (allocate s1) id s.fresh (λ p. omega (arith, v.known, p)) w in
      (w', e' ∙ e)

  peer_open-Left : (s : MuxSession rt) (id : ℕ) → Stranded at s → Left at s (peer_open s id).0
  unfolding peer_open
  peer_open-Left s id v = elim (Option-cases (rt.try_acquire 1 s.budget)) [
    | inl e ↦
        let (w, p) = allocate-Left s v in
        let (w', p') = reply-Left (allocate s) (control id kind_close) w in
        rw (e, peer_open) (w', p' ∙ p)
    | inr (b, e) ↦
        let (w, p) = opened_at s b s.next_id id v in
        let (w', p') =
          announce-Left _ (record { id = id; at = s.fresh }) (λ q. omega (arith, v.known, q)) w in
        rw (e, peer_open) (w', p' ∙ p)
  ]

  settle-Left :
      (s : MuxSession rt) (id : ℕ) (sent : Sent) → Stranded at s → Left at s (settle s id sent).0
  unfolding settle
  settle-Left s id taken v = (v, refl)
  settle-Left s id closed v = (v, refl)
  settle-Left s id full v =
      let (w, p) = hang_up-Left at id s v in
      let (w', p') = reply-Left (hang_up s id) (control id kind_close) w in (w', p' ∙ p)

  peer_data-Left :
      (s : MuxSession rt) (id : ℕ) (body : Bytes)
      → Stranded at s
      → Left at s (peer_data s id body).0
  unfolding peer_data
  peer_data-Left s id body v = elim (Option-cases (lookup id s.streams)) [
    | inl e ↦ rw (e, peer_data) (v, refl)
    | inr (a, e) ↦
        let (i, sent) = rt.try_send (s.heap a).inbox body in
        let (w, p) = set_inbox-Left at a i s (Unmapped-lookup at id a s.streams v.unmapped e) v in
        let (w', p') = settle-Left (set_inbox s a i) id sent w in rw (e, peer_data) (w', p' ∙ p)
  ]

  peer_window-Left :
      (s : MuxSession rt) (id : ℕ) (body : Bytes)
      → Stranded at s
      → Left at s (peer_window s id body).0
  unfolding peer_window
  peer_window-Left s id body v = elim (Option-cases (lookup id s.streams)) [
    | inl e ↦ rw (e, peer_window) (v, refl)
    | inr (a, e) ↦
        let ne = Unmapped-lookup at id a s.streams v.unmapped e in
        elim (Option-cases (rt.add_permits (granted body) (s.heap a).credit)) [
          | inl p ↦ rw (e, p, peer_window) (v, refl)
          | inr (c, p) ↦
              rw (e, p, peer_window)
                (
                  record { known = v.known; unmapped = v.unmapped },
                  update_ne s.heap a _ at (λ q. ne (sym q)),
                )
        ]
  ]

  dispatch-Left : (s : MuxSession rt) (f : Frame) → Stranded at s → Left at s (dispatch s f).0
  unfolding dispatch
  dispatch-Left s f v =
      let P : MuxSession rt × Outcome → Type 0 = λ r. Left at s r.0 in
      if_both P (f.id == 0) (reply-Left s _ v) (
        if_both P (f.kind == kind_open) (peer_open-Left s f.id v) (
          if_both P (f.kind == kind_data) (peer_data-Left s f.id f.payload v) (
            if_both P (f.kind == kind_window)
              (if_both P (length f.payload == 4) (peer_window-Left s f.id f.payload v) (v, refl))
              (if_both P (f.kind == kind_close) (hang_up-Left at f.id s v) (v, refl)))))

  pub read_step-Left : (s : MuxSession rt) (e : Event) → Stranded at s → Left at s (read_step s e).0
  unfolding read_step
  read_step-Left s idle v = (v, refl)
  read_step-Left s eof v = (v, refl)
  read_step-Left s (broken k) v = (v, refl)
  read_step-Left s (message m) v = elim (Option-cases (parse m)) [
    | inl e ↦ rw (e, read_step) (v, refl)
    | inr (f, e) ↦ rw (e, read_step) (dispatch-Left s f v)
  ]
