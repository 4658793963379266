-- ===== src/Mux/Emits.antt =====
-- src/mux.rs: what a session gives to its writer task, whatever is done to it.
pub mod Calls
use dsh_proxy.Common.{
  ℕ, zero, suc, ◌+◌, ◌%◌, ◌^◌, ◌≤◌, ◌≡◌, refl, sym, ap, subst, ◌∙◌, List, [], ◌∷◌, ◌++◌, length,
  take, drop, min, All, All-append, append_assoc, Option, some, Option-cases, inl, inr, Bool-cases,
  if_both, lookup, arith,
}
use dsh_proxy.Common.Bytes.{Bytes, put_u32}
use dsh_proxy.Frame.{Frame, control, parse}
use dsh_proxy.Mux.Runtime.{Runtime, Lawful}
use dsh_proxy.Mux.Session.{Half, MuxSession}
use dsh_proxy.Mux.Ops.{
  allocate, drop_state, close_credit, insert_stream, remove_stream, hang_up, post, try_post,
  open_reserved, try_open_stream, drop_all,
}
use dsh_proxy.Mux.Read.{message, set_inbox, announce}
use dsh_proxy.Mux.Send.{data_frame, spend, send_loop}
use dsh_proxy.Mux.Runs.{Call, grants, closes, closes_stream, sends, reads}
use dsh_proxy.Wire.{kind_open, kind_data, kind_close, kind_window, max_payload}

-- What of frames and ids is kept to: the ids of streams, those that may be granted credit, what a frame
-- that is sent is like, the data that a half may be given to send, and the messages that may arrive.
pub record Kind : Type 1 where
  pub IsId : ℕ → Type 0
  pub Grants : ℕ → Type 0
  pub Out : Frame → Type 0
  pub May : ℕ → Bytes → Type 0
  pub Heard : Bytes → Type 0
  pub next_id : (n : ℕ) → IsId ((n + 1) % 2 ^ 32)
  pub opening : (id : ℕ) → IsId id → Out (control id kind_open)
  pub closing : (id : ℕ) → IsId id → Out (control id kind_close)
  pub keepalive : Out (control 0 kind_data)
  pub granting :
      (id n : ℕ) → Grants id → Out (record { id = id; kind = kind_window; payload = put_u32 n })
  pub sending : (id n : ℕ) (b : Bytes) → May id b → n ≤ max_payload → Out (data_frame id (take n b))
  pub rest : (id n : ℕ) (b : Bytes) → May id b → May id (drop n b)
  pub hearing : (m : Bytes) (f : Frame) → Heard m → parse m ≡ some f → IsId f.id

-- A call of the code that keeps to it.
abbrev pub Keeps : Kind → Call → Type 0
Keeps k (grants tx n) = k.Grants tx.id
Keeps k (closes tx) = k.IsId tx.id
Keeps k (closes_stream id) = k.IsId id
Keeps k (sends tx bytes) = k.May tx.id bytes
Keeps k (reads (message m)) = k.Heard m
Keeps k _ = Unit {0}

module _ {rt : Runtime} where
  -- What leaves the frames and the counter alone.
  abbrev pub Quiet : MuxSession rt → MuxSession rt → Type 0
  Quiet s s' = (s'.out ≡ s.out) × (s'.next_id ≡ s.next_id)

  pub insert_stream-Quiet : (s : MuxSession rt) (id at : ℕ) → Quiet s (insert_stream s id at)
  unfolding insert_stream drop_state
  insert_stream-Quiet s id at = elim (Option-cases (lookup id s.streams)) [
    | inl e ↦ rw (e, insert_stream) (refl, refl)
    | inr (old, e) ↦ rw (e, insert_stream) (refl, refl)
  ]

  pub remove_stream-Quiet : (s : MuxSession rt) (id : ℕ) → Quiet s (remove_stream s id)
  unfolding remove_stream drop_state
  remove_stream-Quiet s id = elim (Option-cases (lookup id s.streams)) [
    | inl e ↦ rw (e, remove_stream) (refl, refl)
    | inr (at, e) ↦ rw (e, remove_stream) (refl, refl)
  ]

  pub hang_up-Quiet : (s : MuxSession rt) (id : ℕ) → Quiet s (hang_up s id)
  unfolding hang_up close_credit drop_state
  hang_up-Quiet s id = elim (Option-cases (lookup id s.streams)) [
    | inl e ↦ rw (e, hang_up) (refl, refl)
    | inr (at, e) ↦ rw (e, hang_up) (refl, refl)
  ]

  pub drop_all-Quiet : (m : List (ℕ × ℕ)) (s : MuxSession rt) → Quiet s (drop_all m s)
  unfolding drop_all close_credit drop_state
  drop_all-Quiet [] s = (refl, refl)
  drop_all-Quiet ((id, at) ∷ m) s =
      let (o, n) = drop_all-Quiet m (drop_state (close_credit s at) at) in (o, n)

  pub announce-Quiet : (s : MuxSession rt) (h : Half) → Quiet s (announce s h)
  unfolding announce set_inbox
  announce-Quiet s h = if_both (Quiet s) s.on_open (refl, refl) (refl, refl)

module _ {rt : Runtime} (law : Lawful rt) (k : Kind) (s0 : MuxSession rt) where
  open k use {IsId, Out, May, Heard}

  -- What has been given to the writer task since `s0`.
  pub record Emits (s : MuxSession rt) : Type 0 where
    pub next : IsId s.next_id
    pub new : List Frame
    pub grown : rt.accepted s.out ≡ rt.accepted s0.out ++ new
    pub each : All Out new

  alike :
      (s s' : MuxSession rt)
      → rt.accepted s'.out ≡ rt.accepted s.out
      → s'.next_id ≡ s.next_id
      → Emits s
      → Emits s'
  alike s s' o n v = record {
    next = subst IsId (sym n) v.next;
    new = v.new;
    grown = o ∙ v.grown;
    each = v.each;
  }

  pub quietly : (s s' : MuxSession rt) → Quiet s s' → Emits s → Emits s'
  quietly s s' (o, n) v = alike s s' (ap rt.accepted o) n v

  further :
      (s s' : MuxSession rt) (f : Frame)
      → rt.accepted s'.out ≡ rt.accepted s.out ++ (f ∷ [])
      → s'.next_id ≡ s.next_id
      → Out f
      → Emits s
      → Emits s'
  further s s' f e n g v = record {
    next = subst IsId (sym n) v.next;
    new = v.new ++ (f ∷ []);
    grown = e ∙ ap (λ l. l ++ (f ∷ [])) v.grown ∙ append_assoc (rt.accepted s0.out) v.new (f ∷ []);
    each = All-append Out v.new (f ∷ []) v.each (g, tt);
  }

  pub post-Emits : (s : MuxSession rt) (f : Frame) → Out f → Emits s → Emits (post s f).0
  unfolding post
  post-Emits s f g v = elim (Bool-cases (rt.send s.out f).1) [
    | inl e ↦
        further s _ f (law.send-taken s.out _ f (ap (λ b. ((rt.send s.out f).0, b)) e)) refl g v
    | inr e ↦ alike s _ (law.send-closed s.out _ f (ap (λ b. ((rt.send s.out f).0, b)) e)) refl v
  ]

  pub try_post-Emits : (s : MuxSession rt) (f : Frame) → Out f → Emits s → Emits (try_post s f).0
  unfolding try_post
  try_post-Emits s f g v = elim (Bool-cases (rt.try_send_out s.out f).1) [
    | inl e ↦
        further s _ f
          (law.try_send_out-taken s.out _ f (ap (λ b. ((rt.try_send_out s.out f).0, b)) e)) refl g v
    | inr e ↦
        alike s _
          (law.try_send_out-refused s.out _ f (ap (λ b. ((rt.try_send_out s.out f).0, b)) e)) refl v
  ]

  pub try_open_stream-Emits : (s : MuxSession rt) → Emits s → Emits (try_open_stream s).0
  unfolding try_open_stream open_reserved allocate
  try_open_stream-Emits s v = elim (Option-cases (rt.try_acquire 1 s.budget)) [
    | inl e ↦ rw (e, try_open_stream) v
    | inr (b, e) ↦
        let s1 = record s { budget = b; next_id = (s.next_id + 1) % 2 ^ 32 } in
        let base : Emits (allocate s1) = record {
          next = k.next_id s.next_id;
          new = v.new;
          grown = v.grown;
          each = v.each;
        } in
        let s2 = insert_stream (allocate s1) s.next_id s.fresh in
        let posted =
          post-Emits s2 (control s.next_id kind_open) (k.opening s.next_id v.next)
            (quietly (allocate s1) s2 (insert_stream-Quiet (allocate s1) s.next_id s.fresh) base) in
        rw (e, try_open_stream)
          (if_both (λ (r : MuxSession rt × Option Half). Emits r.0)
            (post s2 (control s.next_id kind_open)).1 posted
            (quietly _ _ (remove_stream-Quiet (post s2 (control s.next_id kind_open)).0 s.next_id)
              posted))
  ]

  pub send_loop-Emits :
      (fuel : ℕ) (s : MuxSession rt) (tx : Half) (bytes : Bytes)
      → May tx.id bytes
      → Emits s
      → Emits (send_loop fuel s tx bytes).0
  unfolding send_loop spend
  send_loop-Emits fuel s tx [] h v = v
  send_loop-Emits zero s tx (x ∷ xs) h v = v
  send_loop-Emits (suc fuel) s tx (x ∷ xs) h v =
      let n = min (length (x ∷ xs)) max_payload in
      let sem = (s.heap tx.at).credit in
      elim (Bool-cases (rt.is_closed sem)) [
        | inl o ↦ rw (o, send_loop) v
        | inr o ↦ elim (Option-cases (rt.try_acquire n sem)) [
          | inl q ↦ rw (o, q, send_loop) v
          | inr (c, q) ↦
              let f = data_frame tx.id (take n (x ∷ xs)) in
              let g : Out f = k.sending tx.id n (x ∷ xs) h (omega arith) in
              let w = post-Emits (spend s tx.at c) f g (quietly s _ (refl, refl) v) in
              elim (Bool-cases (post (spend s tx.at c) f).1) [
                | inl sent ↦
                    rw (o, q, sent, send_loop)
                      (send_loop-Emits fuel (post (spend s tx.at c) f).0 tx (drop n (x ∷ xs))
                        (k.rest tx.id n (x ∷ xs) h) w)
                | inr lost ↦ rw (o, q, lost, send_loop) w
              ]
        ]
      ]
