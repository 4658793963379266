-- ===== src/Mux/Stranded/Calls.antt =====
-- src/mux.rs: no call of another task reaches a stream that has left the map.
use dsh_proxy.Common.{
  ℕ, zero, suc, ◌+◌, ◌%◌, ◌^◌, ◌≢◌, refl, sym, ◌∙◌, List, [], ◌∷◌, length, take, drop, min, All,
  Option-cases, inl, inr, Bool-cases, if◌then◌else◌, update_ne,
}
use dsh_proxy.Common.Bytes.{Bytes}
use dsh_proxy.Frame.{control}
use dsh_proxy.Mux.Runtime.{Runtime}
use dsh_proxy.Mux.Session.{Half, MuxSession}
use dsh_proxy.Mux.Ops.{
  on_open, allocate, drop_state, close_credit, insert_stream, remove_stream, hang_up, post,
  open_reserved, try_open_stream, drop_all, retire, shutdown, grant, close_tx, close_stream,
}
use dsh_proxy.Mux.Send.{data_frame, spend, send_loop, send}
use dsh_proxy.Mux.Runs.{
  Call, opens, tears_down, handles, grants, closes, closes_stream, sends, reads, call, run,
}
use dsh_proxy.Mux.Stranded.{
  Unmapped, Stranded, Left, drop_state-Left, close_credit-Left, remove_stream-Left, hang_up-Left,
  post-Left, try_post-Left,
}
use dsh_proxy.Wire.{kind_open, kind_close, max_payload}
use dsh_proxy.Mux.Stranded.Frames.{opened_at, read_step-Left}

-- A call that is not a send on the stream itself.
abbrev pub Foreign : ℕ → Call → Type 0
Foreign at (sends tx bytes) = tx.at ≢ at
Foreign at _ = Unit {0}

module _ {rt : Runtime} (at : ℕ) where
  try_open_stream-Left : (s : MuxSession rt) → Stranded at s → Left at s (try_open_stream s).0
  unfolding try_open_stream open_reserved
  try_open_stream-Left s v = elim (Option-cases (rt.try_acquire 1 s.budget)) [
    | inl e ↦ rw (e, try_open_stream) (v, refl)
    | inr (b, e) ↦
        let (w, p) = opened_at at s b ((s.next_id + 1) % 2 ^ 32) s.next_id v in
        let s2 =
          insert_stream (allocate (record s { budget = b; next_id = (s.next_id + 1) % 2 ^ 32 }))
            s.next_id s.fresh in
        let (w', p') = post-Left at s2 (control s.next_id kind_open) w in
        let (w2, p2) =
          remove_stream-Left at s.next_id (post s2 (control s.next_id kind_open)).0 w' in
        elim (Bool-cases (post s2 (control s.next_id kind_open)).1) [
          | inl sent ↦ rw (e, try_open_stream, sent, if◌then◌else◌) (w', p' ∙ p)
          | inr lost ↦ rw (e, try_open_stream, lost, if◌then◌else◌) (w2, p2 ∙ p' ∙ p)
        ]
  ]

  drop_all-Left :
      (m : List (ℕ × ℕ)) (s : MuxSession rt)
      → Unmapped at m
      → Stranded at s
      → Left at s (drop_all m s)
  unfolding drop_all
  drop_all-Left [] s u v = (v, refl)
  drop_all-Left ((id, a) ∷ m) s (ne, u) v =
      let (w, p) = close_credit-Left at a s ne v in
      let (w', p') = drop_state-Left at a (close_credit s a) ne w in
      let (w2, p2) = drop_all-Left m (drop_state (close_credit s a) a) u w' in (w2, p2 ∙ p' ∙ p)

  shutdown-Left : (s : MuxSession rt) → Stranded at s → Left at s (shutdown s)
  unfolding shutdown retire
  shutdown-Left s v =
      let (w, p) =
        drop_all-Left s.streams (record s { streams = [] }) v.unmapped
          (record { known = v.known; unmapped = tt }) in
      (record { known = w.known; unmapped = w.unmapped }, p)

  send_loop-Left :
      (fuel : ℕ) (s : MuxSession rt) (tx : Half) (bytes : Bytes)
      → tx.at ≢ at
      → Stranded at s
      → Left at s (send_loop fuel s tx bytes).0
  unfolding send_loop
  send_loop-Left fuel s tx [] ne v = (v, refl)
  send_loop-Left zero s tx (x ∷ xs) ne v = (v, refl)
  send_loop-Left (suc fuel) s tx (x ∷ xs) ne v =
      elim (Bool-cases (rt.is_closed (s.heap tx.at).credit)) [
        | inl e ↦ rw (e, send_loop) (v, refl)
        | inr e ↦ elim (Option-cases (rt.try_acquire n (s.heap tx.at).credit)) [
          | inl q ↦ rw (e, q, send_loop) (v, refl)
          | inr (c, q) ↦
              let (w, p) = paid c in
              elim (Bool-cases (post (spend s tx.at c) (data_frame tx.id (take n (x ∷ xs)))).1) [
                | inl sent ↦
                    let (w', p') =
                      send_loop-Left fuel
                        (post (spend s tx.at c) (data_frame tx.id (take n (x ∷ xs)))).0 tx
                        (drop n (x ∷ xs)) ne w in
                    rw (e, q, sent, send_loop) (w', p' ∙ p)
                | inr lost ↦ rw (e, q, lost, send_loop) (w, p)
              ]
        ]
      ]
    where
      n : ℕ
      n = min (length (x ∷ xs)) max_payload

      paid :
          (c : rt.Sem) → Left at s (post (spend s tx.at c) (data_frame tx.id (take n (x ∷ xs)))).0
      paid c =
          unfold post spend in
          (
            record { known = v.known; unmapped = v.unmapped },
            update_ne s.heap tx.at _ at (λ q. ne (sym q)),
          )

  close_stream-Left : (s : MuxSession rt) (id : ℕ) → Stranded at s → Left at s (close_stream s id)
  unfolding close_stream
  close_stream-Left s id v =
      let (w, p) = hang_up-Left at id s v in
      let (w', p') = try_post-Left at (hang_up s id) (control id kind_close) w in (w', p' ∙ p)

  pub close_tx-Left : (s : MuxSession rt) (tx : Half) → Stranded at s → Left at s (close_tx s tx)
  unfolding close_tx
  close_tx-Left s tx v =
      let (w, p) = remove_stream-Left at tx.id s v in
      let (w', p') = post-Left at (remove_stream s tx.id) (control tx.id kind_close) w in
      (w', p' ∙ p)

  call-Left : (s : MuxSession rt) (c : Call) → Foreign at c → Stranded at s → Left at s (call s c)
  unfolding call on_open
  call-Left s opens o v = try_open_stream-Left s v
  call-Left s tears_down o v = shutdown-Left s v
  call-Left s handles o v = (record { known = v.known; unmapped = v.unmapped }, refl)
  call-Left s (grants tx n) o v = unfold grant in post-Left at s _ v
  call-Left s (closes tx) o v = close_tx-Left s tx v
  call-Left s (closes_stream id) o v = close_stream-Left s id v
  call-Left s (sends tx bytes) o v = unfold send in send_loop-Left (length bytes) s tx bytes o v
  call-Left s (reads e) o v = read_step-Left at s e v

  pub run-Left :
      (s : MuxSession rt) (cs : List Call)
      → All (Foreign at) cs
      → Stranded at s
      → Left at s (run s cs)
  unfolding run
  run-Left s [] o v = (v, refl)
  run-Left s (c ∷ cs) (o, os) v =
      let (w, p) = call-Left s c o v in let (w', p') = run-Left (call s c) cs os w in (w', p' ∙ p)
