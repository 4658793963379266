-- ===== src/Mux/Read/Streams.antt =====
-- src/mux.rs: one frame from the peer concerns one stream. What a frame does to its own stream on
-- each branch, and that the other streams of the link are left alone.
use dsh_proxy.Common.{
  ℕ, ◌<◌, ◌≡◌, ◌≢◌, refl, ap, ◌∙◌, List, ◌∷◌, length, Option, some, Option-cases, inl, inr, arith,
  ◌==◌, if_both, lookup, erase, lookup-erase_ne, lookup-cons_ne, update_ne,
}
use dsh_proxy.Common.Bytes.{Bytes}
use dsh_proxy.Frame.{Frame}
use dsh_proxy.Mux.Runtime.{Runtime, Sent, taken, full, closed}
use dsh_proxy.Mux.Session.{Half, MuxSession}
use dsh_proxy.Mux.Ops.{allocate, drop_state, close_credit, insert_stream, hang_up, post}
use dsh_proxy.Mux.Read.{
  Outcome, granted, reply, set_inbox, announce, settle, peer_open, peer_data, peer_window, dispatch,
}
use dsh_proxy.Wire.{kind_open, kind_data, kind_close, kind_window}

module _ {rt : Runtime} where
  -- Every stream in the map has an address that was handed out, and no two streams share one.
  pub record Apart (s : MuxSession rt) : Type 0 where
    pub known : (j a : ℕ) → lookup j s.streams ≡ some a → a < s.fresh
    pub unshared : (i j a : ℕ) → lookup i s.streams ≡ some a → lookup j s.streams ≡ some a → i ≡ j

  -- Stream `j` is as it was: its entry, and the inbox and credit at its address.
  abbrev pub Same : MuxSession rt → MuxSession rt → ℕ → ℕ → Type 0
  Same s s' j a = (lookup j s'.streams ≡ some a) × (s'.heap a ≡ s.heap a)

  pub drop_state-heap :
      (s : MuxSession rt) (at a : ℕ) → a ≢ at → (drop_state s at).heap a ≡ s.heap a
  unfolding drop_state
  drop_state-heap s at a ne = update_ne s.heap at _ a ne

  pub drop_state-streams : (s : MuxSession rt) (at : ℕ) → (drop_state s at).streams ≡ s.streams
  unfolding drop_state
  drop_state-streams s at = refl

  pub close_credit-heap :
      (s : MuxSession rt) (at a : ℕ) → a ≢ at → (close_credit s at).heap a ≡ s.heap a
  unfolding close_credit
  close_credit-heap s at a ne = update_ne s.heap at _ a ne

  pub close_credit-streams : (s : MuxSession rt) (at : ℕ) → (close_credit s at).streams ≡ s.streams
  unfolding close_credit
  close_credit-streams s at = refl

  -- The addresses of two streams differ.
  away :
      (s : MuxSession rt) (j id a at : ℕ)
      → Apart s
      → lookup j s.streams ≡ some a
      → lookup id s.streams ≡ some at
      → j ≢ id
      → a ≢ at
  away s j id a at v h e ne p = ne (v.unshared j id a h (rw p e))

  hang_up-Same :
      (s : MuxSession rt) (id j a : ℕ)
      → Apart s
      → lookup j s.streams ≡ some a
      → j ≢ id
      → Same s (hang_up s id) j a
  unfolding hang_up
  hang_up-Same s id j a v h ne = elim (Option-cases (lookup id s.streams)) [
    | inl e ↦ rw (e, hang_up) (h, refl)
    | inr (at, e) ↦
        let far = away s j id a at v h e ne in
        let without = record s { streams = erase id s.streams } in
        rw (e, hang_up)
          (
            ap (lookup j) (
                  drop_state-streams (close_credit without at) at ∙ close_credit-streams without at)
                ∙ lookup-erase_ne j id s.streams ne
                ∙ h,
            drop_state-heap (close_credit without at) at a far ∙ close_credit-heap without at a far,
          )
  ]

  reply-Same :
      (s s0 : MuxSession rt) (f : Frame) (j a : ℕ) → Same s0 s j a → Same s0 (reply s f).0 j a
  unfolding reply post
  reply-Same s s0 f j a h = h

  insert_stream-Same :
      (s : MuxSession rt) (id at j a : ℕ)
      → Apart s
      → lookup j s.streams ≡ some a
      → j ≢ id
      → Same s (insert_stream s id at) j a
  unfolding insert_stream
  insert_stream-Same s id at j a v h ne = elim (Option-cases (lookup id s.streams)) [
    | inl e ↦ rw (e, insert_stream) (other (lookup_ne s.streams) h, refl)
    | inr (old, e) ↦
        let with_new = record s { streams = (id, at) ∷ erase id s.streams } in
        rw (e, insert_stream)
          (
            ap (lookup j) (drop_state-streams with_new old)
                ∙ other (lookup_ne (erase id s.streams)) (lookup-erase_ne j id s.streams ne ∙ h),
            drop_state-heap with_new old a (away s j id a old v h e ne),
          )
  ]
    where
      lookup_ne : (m : List (ℕ × ℕ)) → lookup j ((id, at) ∷ m) ≡ lookup j m
      lookup_ne m = lookup-cons_ne j id at m ne

      other : {x y : Option ℕ} → x ≡ y → y ≡ some a → x ≡ some a
      other p q = p ∙ q

  allocate-Same :
      (s : MuxSession rt) (j a : ℕ)
      → Apart s
      → lookup j s.streams ≡ some a
      → Same s (allocate s) j a
  unfolding allocate
  allocate-Same s j a v h = (h, update_ne s.heap s.fresh _ a (λ p. omega (arith, v.known j a h, p)))

  allocate-Apart : (s : MuxSession rt) → Apart s → Apart (allocate s)
  unfolding allocate
  allocate-Apart s v = record {
    known = λ j a h. omega (arith, v.known j a h);
    unshared = v.unshared;
  }

  announce-Same :
      (s s0 : MuxSession rt) (h : Half) (j a : ℕ)
      → a ≢ h.at
      → Same s0 s j a
      → Same s0 (announce s h) j a
  unfolding announce
  announce-Same s s0 h j a ne same =
      if_both (λ t. Same s0 t j a) s.on_open same
        (unfold set_inbox in (same.0, update_ne s.heap h.at _ a ne ∙ same.1))

  peer_open-Same :
      (s : MuxSession rt) (id j a : ℕ)
      → Apart s
      → lookup j s.streams ≡ some a
      → j ≢ id
      → Same s (peer_open s id).0 j a
  unfolding peer_open
  peer_open-Same s id j a v h ne = elim (Option-cases (rt.try_acquire 1 s.budget)) [
    | inl e ↦ rw (e, peer_open) (reply-Same (allocate s) s _ j a (allocate-Same s j a v h))
    | inr (b, e) ↦
        let s1 = record s { budget = b } in
        let v1 : Apart s1 = record { known = v.known; unshared = v.unshared } in
        let first = allocate-Same s1 j a v1 h in
        let second =
          insert_stream-Same (allocate s1) id s.fresh j a (allocate-Apart s1 v1) first.0 ne in
        rw (e, peer_open)
          (announce-Same _ s _ j a (λ p. omega (arith, v.known j a h, p))
            (second.0, second.1 ∙ first.1))
  ]

  settle-Same :
      (s s0 : MuxSession rt) (id j a : ℕ) (sent : Sent)
      → Apart s
      → Same s0 s j a
      → j ≢ id
      → Same s0 (settle s id sent).0 j a
  unfolding settle
  settle-Same s s0 id j a taken v h ne = h
  settle-Same s s0 id j a closed v h ne = h
  settle-Same s s0 id j a full v h ne =
      let g = hang_up-Same s id j a v h.0 ne in reply-Same _ s0 _ j a (g.0, g.1 ∙ h.1)

  set_inbox-Apart : (s : MuxSession rt) (at : ℕ) (i : rt.Inbox) → Apart s → Apart (set_inbox s at i)
  unfolding set_inbox
  set_inbox-Apart s at i v = record { known = v.known; unshared = v.unshared }

  peer_data-Same :
      (s : MuxSession rt) (id : ℕ) (body : Bytes) (j a : ℕ)
      → Apart s
      → lookup j s.streams ≡ some a
      → j ≢ id
      → Same s (peer_data s id body).0 j a
  unfolding peer_data
  peer_data-Same s id body j a v h ne = elim (Option-cases (lookup id s.streams)) [
    | inl e ↦ rw (e, peer_data) (h, refl)
    | inr (at, e) ↦
        rw (e, peer_data)
          (settle-Same _ s id j a _ (set_inbox-Apart s at _ v)
            (unfold set_inbox in (h, update_ne s.heap at _ a (away s j id a at v h e ne))) ne)
  ]

  peer_window-Same :
      (s : MuxSession rt) (id : ℕ) (body : Bytes) (j a : ℕ)
      → Apart s
      → lookup j s.streams ≡ some a
      → j ≢ id
      → Same s (peer_window s id body).0 j a
  unfolding peer_window
  peer_window-Same s id body j a v h ne = elim (Option-cases (lookup id s.streams)) [
    | inl e ↦ rw (e, peer_window) (h, refl)
    | inr (at, e) ↦ elim (Option-cases (rt.add_permits (granted body) (s.heap at).credit)) [
      | inl p ↦ rw (e, p, peer_window) (h, refl)
      | inr (c, p) ↦ rw (e, p, peer_window) (h, update_ne s.heap at _ a (away s j id a at v h e ne))
    ]
  ]

  -- A frame for one stream, of any kind and content, leaves every other stream of the link as it was:
  -- its entry in the map, its inbox and its credit.
  pub dispatch-Same :
      (s : MuxSession rt) (f : Frame) (j a : ℕ)
      → Apart s
      → lookup j s.streams ≡ some a
      → j ≢ f.id
      → Same s (dispatch s f).0 j a
  unfolding dispatch
  dispatch-Same s f j a v h ne =
      let P : MuxSession rt × Outcome → Type 0 = λ r. Same s r.0 j a in
      if_both P (f.id == 0) (reply-Same s s _ j a (h, refl)) (
        if_both P (f.kind == kind_open) (peer_open-Same s f.id j a v h ne) (
          if_both P (f.kind == kind_data) (peer_data-Same s f.id f.payload j a v h ne) (
            if_both P (f.kind == kind_window)
              (if_both P (length f.payload == 4) (peer_window-Same s f.id f.payload j a v h ne)
                (h, refl))
              (if_both P (f.kind == kind_close) (hang_up-Same s f.id j a v h ne) (h, refl)))))
