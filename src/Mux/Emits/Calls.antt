-- ===== src/Mux/Emits/Calls.antt =====
-- src/mux.rs: what the read loop and every call on a session give to its writer task.
use dsh_proxy.Common.{
  ℕ, refl, List, [], ◌∷◌, length, All, Option-cases, inl, inr, ◌==◌, if_both, lookup,
}
use dsh_proxy.Common.Bytes.{Bytes}
use dsh_proxy.Frame.{Frame, control, parse}
use dsh_proxy.Mux.Runtime.{Runtime, Lawful, Sent, taken, full, closed}
use dsh_proxy.Mux.Session.{MuxSession}
use dsh_proxy.Mux.Ops.{
  on_open, allocate, insert_stream, remove_stream, hang_up, retire, shutdown, grant, close_tx,
  close_stream,
}
use dsh_proxy.Mux.Read.{
  Event, idle, eof, broken, message, Outcome, reply, set_inbox, settle, peer_open, peer_data,
  peer_window, dispatch, read_step, granted,
}
use dsh_proxy.Mux.Send.{send}
use dsh_proxy.Mux.Runs.{
  Call, opens, tears_down, handles, grants, closes, closes_stream, sends, reads, call, run,
}
use dsh_proxy.Wire.{kind_open, kind_data, kind_close, kind_window}
use dsh_proxy.Mux.Emits.{
  Kind, Keeps, Emits, insert_stream-Quiet, remove_stream-Quiet, hang_up-Quiet, drop_all-Quiet,
  announce-Quiet, quietly, post-Emits, try_post-Emits, try_open_stream-Emits, send_loop-Emits,
}

module _ {rt : Runtime} (law : Lawful rt) (k : Kind) (s0 : MuxSession rt) where
  open k use {IsId, Out, May, Heard}

  reply-Emits :
      (s : MuxSession rt) (f : Frame) → Out f → Emits law k s0 s → Emits law k s0 (reply s f).0
  unfolding reply
  reply-Emits s f g v = post-Emits law k s0 s f g v

  peer_open-Emits :
      (s : MuxSession rt) (id : ℕ) → IsId id → Emits law k s0 s → Emits law k s0 (peer_open s id).0
  unfolding peer_open allocate
  peer_open-Emits s id h v = elim (Option-cases (rt.try_acquire 1 s.budget)) [
    | inl e ↦
        rw (e, peer_open)
          (reply-Emits (allocate s) (control id kind_close) (k.closing id h)
            (quietly law k s0 s _ (refl, refl) v))
    | inr (b, e) ↦
        let s1 = allocate (record s { budget = b }) in
        let s2 = insert_stream s1 id s.fresh in
        rw (e, peer_open)
          (quietly law k s0 s2 _ (announce-Quiet s2 (record { id = id; at = s.fresh })) (
            quietly law k s0 s1 s2 (insert_stream-Quiet s1 id s.fresh)
              (quietly law k s0 s s1 (refl, refl) v)))
  ]

  settle-Emits :
      (s : MuxSession rt) (id : ℕ) (r : Sent)
      → IsId id
      → Emits law k s0 s
      → Emits law k s0 (settle s id r).0
  unfolding settle
  settle-Emits s id taken h v = v
  settle-Emits s id closed h v = v
  settle-Emits s id full h v =
      reply-Emits (hang_up s id) (control id kind_close) (k.closing id h)
        (quietly law k s0 s _ (hang_up-Quiet s id) v)

  peer_data-Emits :
      (s : MuxSession rt) (id : ℕ) (body : Bytes)
      → IsId id
      → Emits law k s0 s
      → Emits law k s0 (peer_data s id body).0
  unfolding peer_data set_inbox
  peer_data-Emits s id body h v = elim (Option-cases (lookup id s.streams)) [
    | inl e ↦ rw (e, peer_data) v
    | inr (at, e) ↦
        rw (e, peer_data)
          (settle-Emits (set_inbox s at (rt.try_send (s.heap at).inbox body).0) id
            (rt.try_send (s.heap at).inbox body).1 h (quietly law k s0 s _ (refl, refl) v))
  ]

  peer_window-Emits :
      (s : MuxSession rt) (id : ℕ) (body : Bytes)
      → Emits law k s0 s
      → Emits law k s0 (peer_window s id body).0
  unfolding peer_window
  peer_window-Emits s id body v = elim (Option-cases (lookup id s.streams)) [
    | inl e ↦ rw (e, peer_window) v
    | inr (at, e) ↦ elim (Option-cases (rt.add_permits (granted body) (s.heap at).credit)) [
      | inl q ↦ rw (e, q, peer_window) v
      | inr (c, q) ↦ rw (e, q, peer_window) (quietly law k s0 s _ (refl, refl) v)
    ]
  ]

  dispatch-Emits :
      (s : MuxSession rt) (f : Frame)
      → IsId f.id
      → Emits law k s0 s
      → Emits law k s0 (dispatch s f).0
  unfolding dispatch
  dispatch-Emits s f h v =
      let P : MuxSession rt × Outcome → Type 0 = λ r. Emits law k s0 r.0 in
      if_both P (f.id == 0) (reply-Emits s _ k.keepalive v) (
        if_both P (f.kind == kind_open) (peer_open-Emits s f.id h v) (
          if_both P (f.kind == kind_data) (peer_data-Emits s f.id f.payload h v) (
            if_both P (f.kind == kind_window)
              (if_both P (length f.payload == 4) (peer_window-Emits s f.id f.payload v) v)
              (if_both P (f.kind == kind_close) (quietly law k s0 s _ (hang_up-Quiet s f.id) v)
                v))))

  read_step-Emits :
      (s : MuxSession rt) (e : Event)
      → Keeps k (reads e)
      → Emits law k s0 s
      → Emits law k s0 (read_step s e).0
  unfolding read_step
  read_step-Emits s idle h v = v
  read_step-Emits s eof h v = v
  read_step-Emits s (broken e) h v = v
  read_step-Emits s (message m) h v = elim (Option-cases (parse m)) [
    | inl e ↦ rw (e, read_step) v
    | inr (f, e) ↦ rw (e, read_step) (dispatch-Emits s f (k.hearing m f h e) v)
  ]

  pub call-Emits :
      (s : MuxSession rt) (c : Call) → Keeps k c → Emits law k s0 s → Emits law k s0 (call s c)
  unfolding call on_open shutdown retire grant close_tx close_stream send
  call-Emits s opens h v = try_open_stream-Emits law k s0 s v
  call-Emits s tears_down h v =
      let w = drop_all-Quiet s.streams (record s { streams = [] }) in quietly law k s0 s _ w v
  call-Emits s handles h v = quietly law k s0 s _ (refl, refl) v
  call-Emits s (grants tx n) h v = post-Emits law k s0 s _ (k.granting tx.id n h) v
  call-Emits s (closes tx) h v =
      post-Emits law k s0 (remove_stream s tx.id) _ (k.closing tx.id h)
        (quietly law k s0 s _ (remove_stream-Quiet s tx.id) v)
  call-Emits s (closes_stream id) h v =
      try_post-Emits law k s0 (hang_up s id) _ (k.closing id h)
        (quietly law k s0 s _ (hang_up-Quiet s id) v)
  call-Emits s (sends tx bytes) h v = send_loop-Emits law k s0 (length bytes) s tx bytes h v
  call-Emits s (reads e) h v = read_step-Emits s e h v

  pub run-Emits :
      (s : MuxSession rt) (cs : List Call)
      → All (Keeps k) cs
      → Emits law k s0 s
      → Emits law k s0 (run s cs)
  unfolding run
  run-Emits s [] h v = v
  run-Emits s (c ∷ cs) h v = run-Emits (call s c) cs h.1 (call-Emits s c h.0 v)
