-- ===== src/Link/Writer.antt =====
-- src/mux.rs: what the writer task of a link has written, over a socket that may fail at any point.
use dsh_proxy.Common.{
  ◌+◌, ◌^◌, ◌≤◌, ◌<◌, ◌≡◌, refl, sym, ap, subst, ◌∙◌, List, [], ◌∷◌, ◌++◌, length, All, All-front,
  All-behind, append-nil, append_assoc, length-append, Bool, true, false, Bool-cases, inl, inr,
  Result, arith,
}
use dsh_proxy.Common.Bytes.{Bytes}
use dsh_proxy.Frame.{Frame}
use dsh_proxy.Noise.{NoiseEncoder}
use dsh_proxy.Noise.RoundTrip.{Fits}
use dsh_proxy.Link.{Sink, Faithful, stream, feed_batch, writer_task}
use dsh_proxy.Link.Coded.{Coded, Coded-append, Sealing, encode-Coded}
use mathlib.Core.List.{flatten}

module _ {W : Type 0} (sink : Sink W) where
  -- The frames that were encoded, whose packets stand behind what was there, and those that were not.
  pub record Wrote (w : W) (fs : List Frame) (r : W × Bool) : Type 0 where
    pub gone : List Frame
    pub left : List Frame
    pub joined : gone ++ left ≡ fs
    pub bytes : Bytes
    pub coded : Coded (sink.encoder w).transport (sink.encoder w).nonce gone bytes
    pub grown : stream sink r.0 ≡ stream sink w ++ bytes
    pub transport : (sink.encoder r.0).transport ≡ (sink.encoder w).transport
    pub nonce : (sink.encoder r.0).nonce ≡ (sink.encoder w).nonce + length gone
    pub whole : r.1 ≡ true → left ≡ []

  -- Nothing was encoded.
  still :
      (w w' : W) (fs : List Frame) (b : Bool)
      → stream sink w' ≡ stream sink w
      → sink.encoder w' ≡ sink.encoder w
      → (b ≡ true → fs ≡ [])
      → Wrote w fs (w', b)
  still w w' fs b e k h = record {
    gone = [];
    left = fs;
    joined = refl;
    bytes = [];
    coded = refl;
    grown = e ∙ sym (append-nil (stream sink w));
    transport = ap (λ (x : NoiseEncoder). x.transport) k;
    nonce = omega (arith, ap (λ (x : NoiseEncoder). x.nonce) k);
    whole = h;
  }

  -- Work that went well, and what follows it.
  chained :
      (w w1 : W) (fs gs : List Frame) (r : W × Bool)
      → Wrote w fs (w1, true)
      → Wrote w1 gs r
      → Wrote w (fs ++ gs) r
  chained w w1 fs gs r v x =
      let all_gone : v.gone ≡ fs =
        sym (append-nil v.gone) ∙ ap (λ l. v.gone ++ l) (sym (v.whole refl)) ∙ v.joined in
      record {
        gone = v.gone ++ x.gone;
        left = x.left;
        joined =
            append_assoc v.gone x.gone x.left
            ∙ ap (λ l. v.gone ++ l) x.joined
            ∙ ap (λ l. l ++ gs) all_gone;
        bytes = v.bytes ++ x.bytes;
        coded =
            Coded-append (sink.encoder w).transport (sink.encoder w).nonce
              ((sink.encoder w).nonce + length v.gone) v.gone x.gone v.bytes x.bytes refl v.coded
              (subst (λ t. Coded t ((sink.encoder w).nonce + length v.gone) x.gone x.bytes)
                v.transport
                (subst (λ k. Coded (sink.encoder w1).transport k x.gone x.bytes) v.nonce x.coded));
        grown =
            x.grown ∙ ap (λ l. l ++ x.bytes) v.grown ∙ append_assoc (stream sink w) v.bytes x.bytes;
        transport = x.transport ∙ v.transport;
        nonce = omega (arith, x.nonce, v.nonce, length-append v.gone x.gone);
        whole = x.whole;
      }

  -- Work that failed, whatever was to follow.
  stopped :
      (w w1 : W) (fs gs : List Frame) → Wrote w fs (w1, false) → Wrote w (fs ++ gs) (w1, false)
  stopped w w1 fs gs v = record {
    gone = v.gone;
    left = v.left ++ gs;
    joined = sym (append_assoc v.gone v.left gs) ∙ ap (λ l. l ++ gs) v.joined;
    bytes = v.bytes;
    coded = v.coded;
    grown = v.grown;
    transport = v.transport;
    nonce = v.nonce;
    whole = λ e. absurd (ground arith);
  }

module _ {W : Type 0} (sink : Sink W) (faithful : Faithful sink) where
  feed-Wrote :
      (w : W) (f : Frame)
      → Sealing (sink.encoder w).transport
      → (sink.encoder w).nonce + 1 < 2 ^ 64
      → Fits f
      → Wrote sink w (f ∷ []) (sink.feed w f)
  feed-Wrote w f seals room fits =
      elim (faithful.feeds w (sink.feed w f).0 f (sink.feed w f).1 refl) [
        | inl (refused, same, kept) ↦
            still sink w (sink.feed w f).0 (f ∷ []) (sink.feed w f).1 same kept
              (λ e. absurd (ground arith))
        | inr (ready, before, encoder, buffer, fed) ↦
            let (bytes, coded, e) = encode-Coded (sink.encoder w) f ready seals room fits in
            record {
              gone = f ∷ [];
              left = [];
              joined = refl;
              bytes = bytes;
              coded = coded;
              grown =
                  ap (λ l. sink.taken (sink.feed w f).0 ++ l)
                    (buffer ∙ ap (λ (p : NoiseEncoder × Bytes × Result (Unit {0})). p.1) e)
                  ∙ sym (append_assoc (sink.taken (sink.feed w f).0) ready bytes)
                  ∙ ap (λ l. l ++ bytes) before;
              transport =
                  ap (λ (k : NoiseEncoder). k.transport)
                    (encoder ∙ ap (λ (p : NoiseEncoder × Bytes × Result (Unit {0})). p.0) e);
              nonce =
                  ap (λ (k : NoiseEncoder). k.nonce)
                    (encoder ∙ ap (λ (p : NoiseEncoder × Bytes × Result (Unit {0})). p.0) e);
              whole = λ q. refl;
            }
      ]

  flush-Wrote : (w : W) → Wrote sink w [] (sink.flush w)
  flush-Wrote w =
      let (same, kept, _) = faithful.flushes w (sink.flush w).0 (sink.flush w).1 refl in
      still sink w (sink.flush w).0 [] (sink.flush w).1 same kept (λ e. refl)

  -- With the answer that was found.
  settled :
      (w : W) (fs : List Frame) (r : W × Bool) (b : Bool)
      → Wrote sink w fs r
      → r.1 ≡ b
      → Wrote sink w fs (r.0, b)
  settled w fs r b v e = subst (λ x. Wrote sink w fs (r.0, x)) e v

  encoded :
      (w : W) (fs : List Frame) (r : W × Bool) → (v : Wrote sink w fs r) → length v.gone ≤ length fs
  encoded w fs r v = omega (arith, ap length v.joined, length-append v.gone v.left)

  feed_batch-Wrote :
      (w : W) (fs : List Frame)
      → Sealing (sink.encoder w).transport
      → (sink.encoder w).nonce + length fs < 2 ^ 64
      → All Fits fs
      → Wrote sink w fs (feed_batch sink w fs)
  unfolding feed_batch
  feed_batch-Wrote w [] seals room fits = still sink w w [] true refl refl (λ e. refl)
  feed_batch-Wrote w (f ∷ fs) seals room fits =
      let v = feed-Wrote w f seals (omega arith) fits.0 in
      let w1 = (sink.feed w f).0 in
      elim (Bool-cases (sink.feed w f).1) [
        | inl fine ↦
            rw (fine, feed_batch)
              (chained sink w w1 (f ∷ []) fs (feed_batch sink w1 fs)
                (settled w (f ∷ []) _ true v fine)
                (feed_batch-Wrote w1 fs (subst Sealing (sym v.transport) seals)
                  (omega (arith, room, v.nonce, encoded w (f ∷ []) _ v)) fits.1))
        | inr failed ↦
            rw (failed, feed_batch)
              (stopped sink w w1 (f ∷ []) fs (settled w (f ∷ []) _ false v failed))
      ]

  -- Whatever the socket does, the packets of a front of the frames stand behind what was there, and of
  -- all of them if the task still runs.
  pub writer_task-Wrote :
      (w : W) (batches : List (List Frame))
      → Sealing (sink.encoder w).transport
      → (sink.encoder w).nonce + length (flatten batches) < 2 ^ 64
      → All Fits (flatten batches)
      → Wrote sink w (flatten batches) (writer_task sink w batches)
  unfolding writer_task flatten
  writer_task-Wrote w [] seals room fits = still sink w w [] true refl refl (λ e. refl)
  writer_task-Wrote w (batch ∷ batches) seals room fits =
      let v =
        feed_batch-Wrote w batch seals (omega (arith, length-append batch (flatten batches)))
          (All-front Fits batch (flatten batches) fits) in
      let w1 = (feed_batch sink w batch).0 in
      let x = flush-Wrote w1 in
      let w2 = (sink.flush w1).0 in
      elim (Bool-cases (feed_batch sink w batch).1) [
        | inr failed ↦
            rw (failed, writer_task)
              (stopped sink w w1 batch (flatten batches) (settled w batch _ false v failed))
        | inl fine ↦ elim (Bool-cases (sink.flush w1).1) [
          | inr lost ↦
              rw (fine, lost, writer_task)
                (chained sink w w1 batch (flatten batches) _ (settled w batch _ true v fine)
                  (stopped sink w1 w2 [] (flatten batches) (settled w1 [] _ false x lost)))
          | inl flushed ↦
              rw (fine, flushed, writer_task)
                (chained sink w w1 batch (flatten batches) _ (settled w batch _ true v fine) (
                  chained sink w1 w2 [] (flatten batches) _ (settled w1 [] _ true x flushed) (
                    writer_task-Wrote w2 batches
                      (subst Sealing (sym (x.transport ∙ v.transport)) seals)
                      (omega (
                        arith,
                        room,
                        x.nonce,
                        v.nonce,
                        encoded w1 [] _ x,
                        encoded w batch _ v,
                        length-append batch (flatten batches),
                      ))
                      (All-behind Fits batch (flatten batches) fits))))
        ]
      ]
