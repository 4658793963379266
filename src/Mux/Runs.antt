-- ===== src/Mux/Runs.antt =====
-- src/mux.rs: a link under any interleaving of what its peer sends with the calls of other tasks.
use dsh_proxy.Common.{
  ℕ, ◌+◌, ◌≤◌, ◌≡◌, refl, sym, ap, subst, ◌∙◌, List, [], ◌∷◌, length, arith, max, Distinct,
}
use dsh_proxy.Common.Bytes.{Bytes}
use dsh_proxy.Mux.Runtime.{max_permits, Runtime, Lawful}
use dsh_proxy.Mux.Session.{Half, MuxSession}
use dsh_proxy.Mux.Ops.{
  start, on_open, stream_count, drop_all, drop_state, close_credit, try_open_stream, retire,
  shutdown, grant, close_tx, close_stream, try_post,
}
use dsh_proxy.Mux.Ops.Budget.{
  Exact, remove_stream-Exact, hang_up-Exact, post-Exact, try_open_stream-Exact, retire-Exact,
  start-Exact,
}
use dsh_proxy.Mux.Read.{Event, read_step}
use dsh_proxy.Mux.Read.Budget.{read_step-Exact}
use dsh_proxy.Mux.Send.{send}
use dsh_proxy.Mux.Send.Flow.{send_keeps}

-- What other tasks do to a session while its link is read.
pub data Call : Type 0 where
  opens tears_down handles : Call
  grants : Half → ℕ → Call
  closes : Half → Call
  closes_stream : ℕ → Call
  sends : Half → Bytes → Call
  reads : Event → Call

module _ {rt : Runtime} where
  unfoldable pub call : MuxSession rt → Call → MuxSession rt
  call s opens = (try_open_stream s).0
  call s tears_down = shutdown s
  call s handles = on_open s
  call s (grants tx n) = (grant s tx n).0
  call s (closes tx) = close_tx s tx
  call s (closes_stream id) = close_stream s id
  call s (sends tx bytes) = (send s tx bytes).0
  call s (reads e) = (read_step s e).0

  unfoldable pub run : MuxSession rt → List Call → MuxSession rt
  run s [] = s
  run s (c ∷ cs) = run (call s c) cs

drop_all-streams :
    {rt : Runtime} (m : List (ℕ × ℕ)) (s : MuxSession rt) → (drop_all m s).streams ≡ s.streams
unfolding drop_all drop_state close_credit
drop_all-streams [] s = refl
drop_all-streams ((id, at) ∷ m) s = drop_all-streams m (drop_state (close_credit s at) at)

module _ {rt : Runtime} (law : Lawful rt) (limit : ℕ) where
  call-Exact : (s : MuxSession rt) (c : Call) → Exact law limit 0 s → Exact law limit 0 (call s c)
  unfolding call on_open shutdown grant close_tx close_stream try_post
  call-Exact s opens v = try_open_stream-Exact law limit s 0 v
  call-Exact s tears_down v =
      let r = retire-Exact law limit s v in
      record { slots = r.slots; keys = r.keys; usable = r.usable }
  call-Exact s handles v = record { slots = v.slots; keys = v.keys; usable = v.usable }
  call-Exact s (grants tx n) v = post-Exact law limit s _ 0 v
  call-Exact s (closes tx) v =
      post-Exact law limit _ _ 0 (remove_stream-Exact law limit s tx.id 0 v)
  call-Exact s (closes_stream id) v =
      let r = hang_up-Exact law limit s id 0 v in
      record { slots = r.slots; keys = r.keys; usable = r.usable }
  call-Exact s (sends tx bytes) v =
      let (streams, budget) = send_keeps s tx bytes in
      record {
        slots =
            ap (λ b. rt.available b + length (send s tx bytes).0.streams + 0) budget
            ∙ ap (λ m. rt.available s.budget + length m + 0) streams
            ∙ v.slots;
        keys = subst Distinct (sym streams) v.keys;
        usable = ap rt.is_closed budget ∙ v.usable;
      }
  call-Exact s (reads e) v = read_step-Exact law limit s e v

  run-Exact :
      (s : MuxSession rt) (cs : List Call) → Exact law limit 0 s → Exact law limit 0 (run s cs)
  unfolding run
  run-Exact s [] v = v
  run-Exact s (c ∷ cs) v = run-Exact (call s c) cs (call-Exact s c v)

-- With a limit that a semaphore can hold, after any interleaving of frames from the peer with the calls
-- of other tasks, the permits left and the streams in the map add up to the link's ceiling, which is at
-- least 1; so the streams never exceed it, and no id stands twice.
pub run_ceiling :
    {rt : Runtime} (law : Lawful rt) (out : rt.Outbox) (max_streams : ℕ) (cs : List Call)
    → max_streams ≤ max_permits
    → let s = run (start {rt = rt} out max_streams) cs in
      (rt.available s.budget + stream_count s ≡ max max_streams 1)
      × (stream_count s ≤ max max_streams 1)
      × Distinct s.streams
unfolding stream_count
run_ceiling {rt} law out max_streams cs fits =
    let v =
      run-Exact law (max max_streams 1) (start {rt = rt} out max_streams) cs
        (start-Exact law (max max_streams 1) out max_streams refl fits) in
    (omega (arith, v.slots), omega (arith, v.slots), v.keys)

-- With a limit that a semaphore can hold, once a link has been torn down, every permit is back and no
-- stream is left.
pub shutdown_frees :
    {rt : Runtime} (law : Lawful rt) (out : rt.Outbox) (max_streams : ℕ) (cs : List Call)
    → max_streams ≤ max_permits
    → let s = shutdown (run (start {rt = rt} out max_streams) cs) in
      (s.streams ≡ []) × (rt.available s.budget ≡ max max_streams 1)
unfolding shutdown retire
shutdown_frees {rt} law out max_streams cs fits =
    let s = run (start {rt = rt} out max_streams) cs in
    let v = retire-Exact law (max max_streams 1) s (
      run-Exact law (max max_streams 1) (start out max_streams) cs
        (start-Exact law (max max_streams 1) out max_streams refl fits)) in
    let none_left = drop_all-streams s.streams (record s { streams = [] }) in
    (none_left, omega (arith, v.slots, ap length none_left))
