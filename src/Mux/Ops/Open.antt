-- ===== src/Mux/Ops/Open.antt =====
-- src/mux.rs: what a stream is when the proxy has opened it, and why it may not be opened.
use dsh_proxy.Common.{
  ℕ, ◌+◌, ◌%◌, ◌^◌, ◌<◌, ◌≡◌, ◌≢◌, refl, ap, subst, ◌∙◌, [], ◌∷◌, ◌++◌, some, Option-cases,
  Bool-cases, inl, inr, true, false, arith, lookup, erase, lookup-cons_self, update_self, update_ne,
}
use dsh_proxy.Frame.{Frame, control}
use dsh_proxy.Mux.Runtime.{Runtime, Lawful}
use dsh_proxy.Mux.Session.{Half, Channel, MuxSession, inbox_frames}
use dsh_proxy.Mux.Ops.{allocate, drop_state, insert_stream, post, open_reserved, try_open_stream}
use dsh_proxy.Wire.{kind_open, window}

module _ {rt : Runtime} where
  -- Every address in the map was handed out before.
  abbrev pub Known : MuxSession rt → Type 0
  Known s = (j a : ℕ) → lookup j s.streams ≡ some a → a < s.fresh

  insert_stream-lookup :
      (s : MuxSession rt) (id at : ℕ) → lookup id (insert_stream s id at).streams ≡ some at
  unfolding insert_stream drop_state
  insert_stream-lookup s id at = elim (Option-cases (lookup id s.streams)) [
    | inl e ↦ rw (e, insert_stream) (lookup-cons_self id at s.streams)
    | inr (old, e) ↦ rw (e, insert_stream) (lookup-cons_self id at (erase id s.streams))
  ]

  insert_stream-heap :
      (s : MuxSession rt) (id at : ℕ)
      → ((old : ℕ) → lookup id s.streams ≡ some old → at ≢ old)
      → (insert_stream s id at).heap at ≡ s.heap at
  unfolding insert_stream drop_state
  insert_stream-heap s id at apart = elim (Option-cases (lookup id s.streams)) [
    | inl e ↦ rw (e, insert_stream) refl
    | inr (old, e) ↦ rw (e, insert_stream) (update_ne s.heap old _ at (apart old e))
  ]

  insert_stream-out : (s : MuxSession rt) (id at : ℕ) → (insert_stream s id at).out ≡ s.out
  unfolding insert_stream drop_state
  insert_stream-out s id at = elim (Option-cases (lookup id s.streams)) [
    | inl e ↦ rw (e, insert_stream) refl
    | inr (old, e) ↦ rw (e, insert_stream) refl
  ]

module _ {rt : Runtime} (law : Lawful rt) where
  -- A stream just opened: its entry and its halves agree, its inbox is empty, its credit is one
  -- window, and the peer has been told of it by an OPEN frame.
  pub record Opened (s s' : MuxSession rt) (tx : Half) : Type 0 where
    pub id : tx.id ≡ s.next_id
    pub found : lookup tx.id s'.streams ≡ some tx.at
    pub empty : rt.held (s'.heap tx.at).inbox ≡ []
    pub capacity : rt.capacity (s'.heap tx.at).inbox ≡ inbox_frames
    pub reading : rt.receiver_gone (s'.heap tx.at).inbox ≡ false
    pub credit : rt.available (s'.heap tx.at).credit ≡ window
    pub usable : rt.is_closed (s'.heap tx.at).credit ≡ false
    pub announced : rt.accepted s'.out ≡ rt.accepted s.out ++ (control tx.id kind_open ∷ [])

  just_reserved :
      (s : MuxSession rt) (b : rt.Sem)
      → Known s
      → let s1 = allocate (record s { budget = b; next_id = (s.next_id + 1) % 2 ^ 32 }) in
        let r = post (insert_stream s1 s.next_id s.fresh) (control s.next_id kind_open) in
        r.1 ≡ true → Opened s r.0 (record { id = s.next_id; at = s.fresh })
  unfolding post
  just_reserved s b known sent = record {
    id = refl;
    found = insert_stream-lookup s1 s.next_id s.fresh;
    empty = ap (λ (c : Channel rt). rt.held c.inbox) new ∙ law.held-channel inbox_frames;
    capacity = ap (λ (c : Channel rt). rt.capacity c.inbox) new ∙ law.capacity-channel inbox_frames;
    reading =
        ap (λ (c : Channel rt). rt.receiver_gone c.inbox) new
        ∙ law.receiver_gone-channel inbox_frames;
    credit =
        ap (λ (c : Channel rt). rt.available c.credit) new ∙ law.available-new window (omega arith);
    usable =
        ap (λ (c : Channel rt). rt.is_closed c.credit) new ∙ law.is_closed-new window (omega arith);
    announced =
        law.send-taken s2.out _ f (ap (λ t. ((rt.send s2.out f).0, t)) sent)
        ∙ ap (λ o. rt.accepted o ++ (f ∷ [])) (insert_stream-out s1 s.next_id s.fresh ∙ same_out);
  }
    where
      s1 : MuxSession rt
      s1 = allocate (record s { budget = b; next_id = (s.next_id + 1) % 2 ^ 32 })

      s2 : MuxSession rt
      s2 = insert_stream s1 s.next_id s.fresh

      f : Frame
      f = control s.next_id kind_open

      same_out : s1.out ≡ s.out
      same_out = unfold allocate in refl

      distinct : (old : ℕ) → lookup s.next_id s1.streams ≡ some old → s.fresh ≢ old
      distinct old e p = omega (arith, known s.next_id old (unfold allocate in e), p)

      new : s2.heap s.fresh ≡ record { inbox = rt.channel inbox_frames; credit = rt.new window }
      new =
          insert_stream-heap s1 s.next_id s.fresh distinct
          ∙ unfold allocate in update_self s.heap s.fresh _

  open_reserved-Opened :
      (s s' : MuxSession rt) (b : rt.Sem) (tx : Half)
      → Known s
      → open_reserved s b ≡ (s', some tx)
      → Opened s s' tx
  unfolding open_reserved
  open_reserved-Opened s s' b tx known e = elim (Bool-cases (post inserted f).1) [
    | inl sent ↦
        subst (λ (r : MuxSession rt × Half). Opened s r.0 r.1) (ground arith)
          (just_reserved s b known sent)
    | inr lost ↦ absurd (ground arith)
  ]
    where
      f : Frame
      f = control s.next_id kind_open

      inserted : MuxSession rt
      inserted =
          insert_stream (allocate (record s { budget = b; next_id = (s.next_id + 1) % 2 ^ 32 }))
            s.next_id s.fresh

  -- On a link whose map holds only addresses handed out before, a stream that is opened has in the
  -- map the address of its half, an empty open inbox, one window of open credit, and the peer was
  -- sent its OPEN frame.
  pub try_open_stream-Opened :
      (s s' : MuxSession rt) (tx : Half)
      → Known s
      → try_open_stream s ≡ (s', some tx)
      → Opened s s' tx
  unfolding try_open_stream
  try_open_stream-Opened s s' tx known e = elim (Option-cases (rt.try_acquire 1 s.budget)) [
    | inl none_left ↦ absurd (ground arith)
    | inr (b, got) ↦ open_reserved-Opened s s' b tx known (ground arith)
  ]
