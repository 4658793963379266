-- ===== src/Mux/Send/Flow.antt =====
-- src/mux.rs: what `StreamTx::send` puts on the link, and what it pays for it.
use dsh_proxy.Common.{
  ℕ, zero, suc, ◌+◌, ◌≤◌, ◌<◌, ◌≡◌, refl, sym, ap, ◌∙◌, List, [], ◌∷◌, ◌++◌, map, length, take,
  drop, All, some, Option-cases, inl, inr, Bool, true, false, arith, min, Bool-cases, append_assoc,
  append-nil, take-append-drop, length-take, length-drop, length-append, update_self,
}
use dsh_proxy.Common.Bytes.{Bytes}
use dsh_proxy.Frame.{Frame}
use dsh_proxy.Mux.Runtime.{Runtime, Lawful}
use dsh_proxy.Mux.Session.{Half, MuxSession}
use dsh_proxy.Mux.Ops.{post}
use dsh_proxy.Mux.Send.{Progress, done, broken, stuck, parked, data_frame, spend, send_loop, send}
use dsh_proxy.Wire.{max_payload}
use mathlib.Core.List.{flatten}

-- A frame's payload is neither empty nor too large.
abbrev pub IsChunk : Bytes → Type 0
IsChunk c = (1 ≤ length c) × (length c ≤ max_payload)

module _ {rt : Runtime} (law : Lawful rt) where
  abbrev pub credit : MuxSession rt → Half → ℕ
  credit s tx = rt.available (s.heap tx.at).credit

  -- What the end of a call says of the bytes that are left and of the credit that was lost.
  abbrev pub Ends : MuxSession rt → Half → Progress → Bytes → ℕ → Type 0
  Ends s' tx done rest lost = (rest ≡ []) × (lost ≡ 0)
  Ends s' tx broken rest lost = Unit {0}
  Ends s' tx stuck rest lost = ⊥
  Ends s' tx (parked r) rest lost =
      (rest ≡ r) × (lost ≡ 0) × (credit s' tx < min (length r) max_payload)

  pub record Flow (s : MuxSession rt) (tx : Half) (bytes : Bytes) (s' : MuxSession rt)
      (p : Progress) : Type 0 where
    pub chunks : List Bytes
    pub rest : Bytes
    pub lost : ℕ
    pub emitted : rt.accepted s'.out ≡ rt.accepted s.out ++ map (data_frame tx.id) chunks
    pub joined : flatten chunks ++ rest ≡ bytes
    pub sizes : All IsChunk chunks
    pub paid : credit s' tx + length (flatten chunks) + lost ≡ credit s tx
    pub ends : Ends s' tx p rest lost

  still :
      (s : MuxSession rt) (tx : Half) (bytes : Bytes) (p : Progress)
      → Ends s tx p bytes 0
      → Flow s tx bytes s p
  unfolding flatten
  still s tx bytes p e = record {
    chunks = [];
    rest = bytes;
    lost = 0;
    emitted = rw append-nil refl;
    joined = refl;
    sizes = tt;
    paid = omega arith;
    ends = e;
  }

  abbrev spent : MuxSession rt → Half → rt.Sem → Bytes → MuxSession rt × Bool
  spent s tx c chunk = post (spend s tx.at c) (data_frame tx.id chunk)

  credit-spent :
      (s : MuxSession rt) (tx : Half) (c : rt.Sem) (chunk : Bytes)
      → credit (spent s tx c chunk).0 tx ≡ rt.available c
  unfolding post spend
  credit-spent s tx c chunk = ap (λ ch. rt.available ch.credit) (update_self s.heap tx.at _)

  -- A round that sent its chunk, before a call that ends as `v` says.
  after_chunk :
      (s : MuxSession rt) (tx : Half) (c : rt.Sem) (n : ℕ) (bytes : Bytes) (s' : MuxSession rt)
      (p : Progress)
      → rt.try_acquire n (s.heap tx.at).credit ≡ some c
      → (spent s tx c (take n bytes)).1 ≡ true
      → n ≡ length (take n bytes)
      → IsChunk (take n bytes)
      → Flow (spent s tx c (take n bytes)).0 tx (drop n bytes) s' p
      → Flow s tx bytes s' p
  unfolding flatten
  after_chunk s tx c n bytes s' p got sent size fits v = record {
    chunks = take n bytes ∷ v.chunks;
    rest = v.rest;
    lost = v.lost;
    emitted =
        v.emitted
        ∙ ap (λ l. l ++ map (data_frame tx.id) v.chunks) accepted
        ∙ append_assoc (rt.accepted s.out) (data_frame tx.id (take n bytes) ∷ []) _;
    joined =
        append_assoc (take n bytes) (flatten v.chunks) v.rest
        ∙ ap (λ l. take n bytes ++ l) v.joined
        ∙ take-append-drop n bytes;
    sizes = (fits, v.sizes);
    paid = omega (
      arith,
      v.paid,
      credit-spent s tx c (take n bytes),
      law.acquire-some n (s.heap tx.at).credit c got,
      length-append (take n bytes) (flatten v.chunks),
    );
    ends = v.ends;
  }
    where
      accepted :
          rt.accepted (spent s tx c (take n bytes)).0.out
          ≡ rt.accepted s.out ++ (data_frame tx.id (take n bytes) ∷ [])
      accepted =
          unfold post spend in
          law.send-taken s.out _ _
            (ap (λ b. ((rt.send s.out (data_frame tx.id (take n bytes))).0, b)) sent)

  -- A round whose chunk the dead link refused: its credit is lost.
  lost_chunk :
      (s : MuxSession rt) (tx : Half) (c : rt.Sem) (n : ℕ) (bytes : Bytes)
      → rt.try_acquire n (s.heap tx.at).credit ≡ some c
      → (spent s tx c (take n bytes)).1 ≡ false
      → Flow s tx bytes (spent s tx c (take n bytes)).0 broken
  unfolding flatten
  lost_chunk s tx c n bytes got refused = record {
    chunks = [];
    rest = bytes;
    lost = n;
    emitted = accepted ∙ sym (append-nil (rt.accepted s.out));
    joined = refl;
    sizes = tt;
    paid =
        omega (
          arith,
          credit-spent s tx c (take n bytes),
          law.acquire-some n (s.heap tx.at).credit c got,
        );
    ends = tt;
  }
    where
      accepted : rt.accepted (spent s tx c (take n bytes)).0.out ≡ rt.accepted s.out
      accepted =
          unfold post spend in
          law.send-closed s.out _ _
            (ap (λ b. ((rt.send s.out (data_frame tx.id (take n bytes))).0, b)) refused)

  send_loop-Flow :
      (fuel : ℕ) (s : MuxSession rt) (tx : Half) (bytes : Bytes)
      → length bytes ≤ fuel
      → Flow s tx bytes (send_loop fuel s tx bytes).0 (send_loop fuel s tx bytes).1
  unfolding send_loop
  send_loop-Flow fuel s tx [] h = still s tx [] done (refl, refl)
  send_loop-Flow zero s tx (x ∷ xs) h = absurd (omega arith)
  send_loop-Flow (suc fuel) s tx (x ∷ xs) h = elim (Bool-cases (rt.is_closed sem)) [
    | inl e ↦ rw (e, send_loop) (still s tx (x ∷ xs) broken tt)
    | inr e ↦ elim (Option-cases (rt.try_acquire n sem)) [
      | inl none_left ↦
          rw (e, none_left, send_loop)
            (still s tx (x ∷ xs) (parked (x ∷ xs)) (refl, refl, law.acquire-none n sem none_left e))
      | inr (c, got) ↦ elim (Bool-cases (spent s tx c (take n (x ∷ xs))).1) [
        | inl sent ↦
            rw (e, got, sent, send_loop)
              (after_chunk s tx c n (x ∷ xs) _ _ got sent size (omega (arith, size)) (
                send_loop-Flow fuel _ tx (drop n (x ∷ xs)) (omega (arith, length-drop n (x ∷ xs)))))
        | inr refused ↦ rw (e, got, refused, send_loop) (lost_chunk s tx c n (x ∷ xs) got refused)
      ]
    ]
  ]
    where
      n : ℕ
      n = min (length (x ∷ xs)) max_payload

      sem : rt.Sem
      sem = (s.heap tx.at).credit

      size : n ≡ length (take n (x ∷ xs))
      size = omega (arith, length-take n (x ∷ xs))

  -- A call of `send` emits the front of its data, in order and cut into frames of 1 to 16384 bytes of
  -- its stream, and nothing else; it pays exactly one byte of credit for each. It ends with all of
  -- the data emitted, or waiting with exactly the rest because the next frame's credit is missing, or
  -- broken, which may cost the credit of one frame.
  pub send-Flow :
      (s : MuxSession rt) (tx : Half) (bytes : Bytes)
      → Flow s tx bytes (send s tx bytes).0 (send s tx bytes).1
  unfolding send
  send-Flow s tx bytes = send_loop-Flow (length bytes) s tx bytes (omega arith)

module _ {rt : Runtime} where
  post_keeps :
      (s : MuxSession rt) (at : ℕ) (c : rt.Sem) (f : Frame)
      → ((post (spend s at c) f).0.streams ≡ s.streams)
        × ((post (spend s at c) f).0.budget ≡ s.budget)
  unfolding post spend
  post_keeps s at c f = (refl, refl)

  send_loop_keeps :
      (fuel : ℕ) (s : MuxSession rt) (tx : Half) (bytes : Bytes)
      → ((send_loop fuel s tx bytes).0.streams ≡ s.streams)
        × ((send_loop fuel s tx bytes).0.budget ≡ s.budget)
  unfolding send_loop
  send_loop_keeps fuel s tx [] = (refl, refl)
  send_loop_keeps zero s tx (x ∷ xs) = (refl, refl)
  send_loop_keeps (suc fuel) s tx (x ∷ xs) = elim (Bool-cases (rt.is_closed sem)) [
    | inl e ↦ rw (e, send_loop) (refl, refl)
    | inr e ↦ elim (Option-cases (rt.try_acquire n sem)) [
      | inl none_left ↦ rw (e, none_left, send_loop) (refl, refl)
      | inr (c, got) ↦
          let f = data_frame tx.id (take n (x ∷ xs)) in
          let k = post_keeps s tx.at c f in
          elim (Bool-cases (post (spend s tx.at c) f).1) [
            | inl sent ↦
                let ih = send_loop_keeps fuel (post (spend s tx.at c) f).0 tx (drop n (x ∷ xs)) in
                rw (e, got, sent, send_loop) (ih.0 ∙ k.0, ih.1 ∙ k.1)
            | inr refused ↦ rw (e, got, refused, send_loop) k
          ]
    ]
  ]
    where
      n : ℕ
      n = min (length (x ∷ xs)) max_payload

      sem : rt.Sem
      sem = (s.heap tx.at).credit

  -- Sending leaves the map of streams and the budget alone.
  pub send_keeps :
      (s : MuxSession rt) (tx : Half) (bytes : Bytes)
      → ((send s tx bytes).0.streams ≡ s.streams) × ((send s tx bytes).0.budget ≡ s.budget)
  unfolding send
  send_keeps s tx bytes = send_loop_keeps (length bytes) s tx bytes
