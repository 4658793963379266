-- ===== src/Link/Delivery.antt =====
-- src/mux.rs: two ends of a link, from the frames that one end's writer task is given to what the other
-- end's read loop does.
use dsh_proxy.Common.{
  ◌+◌, ◌^◌, ◌<◌, ◌≡◌, refl, sym, ap, subst, ◌∙◌, List, [], ◌∷◌, ◌++◌, map, length, All, All-front,
  append_assoc, length-append, Bool, true, Bool-cases, inl, inr, arith,
}
use dsh_proxy.Common.Bytes.{Bytes}
use dsh_proxy.Frame.{Frame, staged, parse-staged}
use dsh_proxy.Mux.Runtime.{Runtime}
use dsh_proxy.Mux.Session.{MuxSession}
use dsh_proxy.Mux.Read.{Event, message, Outcome, continues, dispatch, read_step, read_loop}
use dsh_proxy.Mux.Sendable.{Sendable}
use dsh_proxy.Noise.{NoiseDecoder}
use dsh_proxy.Noise.RoundTrip.{Paired, Fits}
use dsh_proxy.Link.{Sink, Faithful, stream, Source, Driven, feed_batch, writer_task}
use dsh_proxy.Link.Coded.{Coded}
use dsh_proxy.Link.Reader.{pieces-Told}
use dsh_proxy.Link.Writer.{writer_task-Wrote}
use mathlib.Core.List.{flatten}

Sendable-Fits : (fs : List Frame) → All Sendable fs → All Fits fs
Sendable-Fits [] v = tt
Sendable-Fits (f ∷ fs) v = (omega (arith, v.0.size), Sendable-Fits fs v.1)

module _ {rt : Runtime} where
  -- What a session does with frames, one after the other, until it ends.
  unfoldable pub read_frames : MuxSession rt → List Frame → MuxSession rt × Outcome
  read_frames s [] = (s, continues)
  read_frames s (f ∷ fs) =
      let (s', o) = dispatch s f in elim o [ continues ↦ read_frames s' fs | other ↦ (s', other) ]

  read_loop-frames :
      (s : MuxSession rt) (fs : List Frame)
      → All Sendable fs
      → read_loop s (map (λ f. message (staged f)) fs) ≡ read_frames s fs
  unfolding read_loop read_frames read_step
  read_loop-frames s [] v = refl
  read_loop-frames s (f ∷ fs) v =
      let m : List Event = map (λ g. message (staged g)) fs in
      let step : read_step s (message (staged f)) ≡ dispatch s f =
        rw (parse-staged f v.0.id, read_step) refl in
      let ih = read_loop-frames (dispatch s f).0 fs v.1 in
      ap
        (λ (p : MuxSession rt × Outcome). elim p.1 as (λ x. MuxSession rt × Outcome) [
          | continues ↦ read_loop p.0 m
          | other ↦ (p.0, other)
        ])
        step
      ∙ ap
          (λ (q : MuxSession rt × Outcome).
            elim (dispatch s f).1 as (λ x. MuxSession rt × Outcome) [
              | continues ↦ q
              | other ↦ ((dispatch s f).0, other)
            ])
          ih

module _ {W : Type 0} (sink : Sink W) (faithful : Faithful sink) where
  writer_task_idle :
      (w : W) (batches : List (List Frame))
      → sink.buffer w ≡ []
      → (writer_task sink w batches).1 ≡ true
      → sink.buffer (writer_task sink w batches).0 ≡ []
  unfolding writer_task
  writer_task_idle w [] e h = e
  writer_task_idle w (batch ∷ batches) e h = elim (Bool-cases (feed_batch sink w batch).1) [
    | inr failed ↦ absurd (ground arith)
    | inl fine ↦ elim (Bool-cases (sink.flush (feed_batch sink w batch).0).1) [
      | inr failed ↦ absurd (ground arith)
      | inl flushed ↦
          let w1 = (feed_batch sink w batch).0 in
          let w2 = (sink.flush w1).0 in
          let on : writer_task sink w (batch ∷ batches) ≡ writer_task sink w2 batches =
            rw (fine, flushed, writer_task) refl in
          let (_, _, empty) = faithful.flushes w1 w2 (sink.flush w1).1 refl in
          ap (λ (r : W × Bool). sink.buffer r.0) on
          ∙ writer_task_idle w2 batches (empty flushed) (sym (ap (λ (r : W × Bool). r.1) on) ∙ h)
    ]
  ]

-- What the reading end has done: the frames that it got, which are a front of those that were sent, each
-- once and in order, and all of them if the writer still runs and no byte was lost.
pub record Delivered {rt : Runtime} (s : MuxSession rt) (fs : List Frame) (running : Bool)
    (lost : Bytes) (r : MuxSession rt × Outcome) : Type 0 where
  pub got : List Frame
  pub left : List Frame
  pub joined : got ++ left ≡ fs
  pub acted : r ≡ read_frames s got
  pub whole : running ≡ true → lost ≡ [] → left ≡ []

module _ {rt : Runtime} {W : Type 0} (sink : Sink W) (faithful : Faithful sink) (next : Source)
    (driven : Driven next) where
  -- A writer task that begins with nothing written is given frames that fit, and the other end's socket
  -- gets the bytes that its socket took, in any pieces and maybe not to the end. If the ends' transports
  -- are paired, with equal nonces that do not run out, the read loop there acts on a front of the frames
  -- as if it had been handed them one by one, and on all of them if the task still runs and no byte is
  -- lost.
  pub link-Delivered :
      (w : W) (d : NoiseDecoder) (s : MuxSession rt) (batches : List (List Frame))
      (pieces : List Bytes) (lost : Bytes)
      → Paired (sink.encoder w).transport d.transport
      → (sink.encoder w).nonce ≡ d.nonce
      → d.nonce + length (flatten batches) < 2 ^ 64
      → stream sink w ≡ []
      → sink.buffer w ≡ []
      → All Sendable (flatten batches)
      → let (w', running) = writer_task sink w batches in
        flatten pieces ++ lost ≡ sink.taken w'
        → Delivered s (flatten batches) running lost (read_loop s (next d [] pieces))
  link-Delivered w d s batches pieces lost pair same room fresh idle fit got =
      let v =
        writer_task-Wrote sink faithful w batches pair.seals (omega (arith, room, same))
          (Sendable-Fits (flatten batches) fit) in
      let w' = (writer_task sink w batches).0 in
      let sent : flatten pieces ++ (lost ++ sink.buffer w') ≡ v.bytes =
        sym (append_assoc (flatten pieces) lost (sink.buffer w'))
        ∙ ap (λ l. l ++ sink.buffer w') got
        ∙ v.grown
        ∙ ap (λ l. l ++ v.bytes) fresh in
      let there : record { transport = d.transport; nonce = (sink.encoder w).nonce } ≡ d =
        ap (λ k. record { transport = d.transport; nonce = k }) same in
      let told =
        pieces-Told (sink.encoder w).transport d.transport pair.opens next driven
          (sink.encoder w).nonce v.gone [] pieces (lost ++ sink.buffer w')
          (omega (arith, room, same, ap length v.joined, length-append v.gone v.left))
          (subst (Coded (sink.encoder w).transport (sink.encoder w).nonce v.gone) (sym sent)
            v.coded) in
      let joined : told.got ++ (told.left ++ v.left) ≡ flatten batches =
        sym (append_assoc told.got told.left v.left)
        ∙ ap (λ l. l ++ v.left) told.joined
        ∙ v.joined in
      record {
        got = told.got;
        left = told.left ++ v.left;
        joined = joined;
        acted =
            ap (λ k. read_loop s (next k [] pieces)) (sym there)
            ∙ ap (read_loop s) told.told
            ∙ read_loop-frames s told.got (
                All-front Sendable told.got (told.left ++ v.left)
                  (subst (All Sendable) (sym joined) fit));
        whole = λ running none_lost.
            let nothing : lost ++ sink.buffer w' ≡ [] =
              ap (λ l. l ++ sink.buffer w') none_lost
              ∙ writer_task_idle sink faithful w batches idle running in
            ap (λ l. l ++ v.left) (told.whole nothing) ∙ v.whole running;
      }
