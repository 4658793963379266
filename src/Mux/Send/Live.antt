-- ===== src/Mux/Send/Live.antt =====
-- src/mux.rs: a send on a living link with enough credit runs to its end.
use dsh_proxy.Common.{
  ℕ, zero, suc, ◌+◌, ◌≤◌, ◌≡◌, refl, ap, ◌∙◌, [], ◌∷◌, length, take, drop, min, Option-cases, inl,
  inr, true, false, arith, length-drop, update_self, take-length, drop-length, ◌++◌,
}
use dsh_proxy.Common.Bytes.{Bytes}
use dsh_proxy.Frame.{Frame}
use dsh_proxy.Mux.Runtime.{Runtime, Lawful}
use dsh_proxy.Mux.Session.{Channel, Half, MuxSession}
use dsh_proxy.Mux.Ops.{post}
use dsh_proxy.Mux.Send.{Progress, done, data_frame, spend, send_loop, send}
use dsh_proxy.Wire.{max_payload}

-- The writer task takes whatever it is given.
abbrev pub Alive : Runtime → Type 0
Alive rt = (o : rt.Outbox) (f : Frame) → (rt.send o f).1 ≡ true

module _ {rt : Runtime} where
  abbrev pub credit_of : MuxSession rt → Half → rt.Sem
  credit_of s tx = (s.heap tx.at).credit

  -- A send that is over, which has paid for its data; the credit is still open.
  pub record Done (s : MuxSession rt) (tx : Half) (bytes : Bytes) (r : MuxSession rt × Progress)
      : Type 0 where
    pub finished : r.1 ≡ done
    pub open_credit : rt.is_closed (credit_of r.0 tx) ≡ false
    pub paid : rt.available (credit_of r.0 tx) + length bytes ≡ rt.available (credit_of s tx)

module _ {rt : Runtime} (law : Lawful rt) (alive : Alive rt) where
  credit_of-spend :
      (s : MuxSession rt) (tx : Half) (c : rt.Sem) (f : Frame)
      → credit_of (post (spend s tx.at c) f).0 tx ≡ c
  unfolding post spend
  credit_of-spend s tx c f = ap (λ (h : Channel rt). h.credit) (update_self s.heap tx.at _)

  send_loop-Done :
      (fuel : ℕ) (s : MuxSession rt) (tx : Half) (bytes : Bytes)
      → length bytes ≤ fuel
      → rt.is_closed (credit_of s tx) ≡ false
      → length bytes ≤ rt.available (credit_of s tx)
      → Done s tx bytes (send_loop fuel s tx bytes)
  unfolding send_loop
  send_loop-Done fuel s tx [] h o c = record {
    finished = refl;
    open_credit = o;
    paid = omega arith;
  }
  send_loop-Done zero s tx (x ∷ xs) h o c = absurd (omega (arith, h))
  send_loop-Done (suc fuel) s tx (x ∷ xs) h o c =
      elim (Option-cases (rt.try_acquire n (credit_of s tx))) [
        | inl none_left ↦
            let few = law.acquire-none n _ none_left o in absurd (omega (arith, few, c))
        | inr (p, got) ↦
            let f = data_frame tx.id (take n (x ∷ xs)) in
            let s1 = (post (spend s tx.at p) f).0 in
            let left = law.acquire-some n _ p got in
            let now : credit_of s1 tx ≡ p = credit_of-spend s tx p f in
            let sent : (post (spend s tx.at p) f).1 ≡ true = unfold post in alive _ f in
            let fewer = length-drop n (x ∷ xs) in
            let v =
              send_loop-Done fuel s1 tx (drop n (x ∷ xs)) (omega (arith, h, fewer))
                (ap rt.is_closed now ∙ left.2)
                (omega (arith, ap rt.available now, left.0, c, fewer)) in
            rw (o, got, sent, send_loop)
              (record {
                finished = v.finished;
                open_credit = v.open_credit;
                paid = omega (arith, v.paid, ap rt.available now, left.0, fewer);
              })
      ]
    where
      n : ℕ
      n = min (length (x ∷ xs)) max_payload

  -- On a living link, a send whose credit is open and enough for its data finishes and pays one byte of
  -- credit for each byte.
  pub send-Done :
      (s : MuxSession rt) (tx : Half) (bytes : Bytes)
      → rt.is_closed (credit_of s tx) ≡ false
      → length bytes ≤ rt.available (credit_of s tx)
      → Done s tx bytes (send s tx bytes)
  unfolding send
  send-Done s tx bytes = send_loop-Done (length bytes) s tx bytes (omega arith)

  -- Data that fits one frame goes out in one.
  pub send-whole :
      (s : MuxSession rt) (tx : Half) (x : ℕ) (xs : Bytes)
      → length (x ∷ xs) ≤ max_payload
      → rt.is_closed (credit_of s tx) ≡ false
      → length (x ∷ xs) ≤ rt.available (credit_of s tx)
      → rt.accepted (send s tx (x ∷ xs)).0.out
        ≡ rt.accepted s.out ++ (data_frame tx.id (x ∷ xs) ∷ [])
  unfolding send send_loop
  send-whole s tx x xs fits o c = elim (Option-cases (rt.try_acquire n (credit_of s tx))) [
    | inl none_left ↦ let few = law.acquire-none n _ none_left o in absurd (omega (arith, few, c))
    | inr (p, got) ↦
        let f = data_frame tx.id (take n (x ∷ xs)) in
        let sent : (post (spend s tx.at p) f).1 ≡ true = unfold post in alive _ f in
        rw (o, got, sent, send_loop)
          (rest_empty (post (spend s tx.at p) f).0 (drop n (x ∷ xs)) gone
            ∙ emitted p
            ∙ ap (λ b. rt.accepted s.out ++ (data_frame tx.id b ∷ [])) all)
  ]
    where
      n : ℕ
      n = min (length (x ∷ xs)) max_payload

      whole : n ≡ length (x ∷ xs)
      whole = omega (arith, fits)

      all : take n (x ∷ xs) ≡ x ∷ xs
      all = ap (λ k. take k (x ∷ xs)) whole ∙ take-length (x ∷ xs)

      gone : drop n (x ∷ xs) ≡ []
      gone = ap (λ k. drop k (x ∷ xs)) whole ∙ drop-length (x ∷ xs)

      rest_empty :
          (s1 : MuxSession rt) (b : Bytes)
          → b ≡ []
          → rt.accepted (send_loop (length xs) s1 tx b).0.out ≡ rt.accepted s1.out
      rest_empty s1 b e = ap (λ l. rt.accepted (send_loop (length xs) s1 tx l).0.out) e

      emitted :
          (p : rt.Sem)
          → rt.accepted (post (spend s tx.at p) (data_frame tx.id (take n (x ∷ xs)))).0.out
            ≡ rt.accepted s.out ++ (data_frame tx.id (take n (x ∷ xs)) ∷ [])
      emitted p =
          unfold post spend in
          law.send-taken s.out _ _
            (ap (λ b. ((rt.send s.out (data_frame tx.id (take n (x ∷ xs)))).0, b)) (alive s.out _))
