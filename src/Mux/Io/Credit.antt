-- ===== src/Mux/Io/Credit.antt =====
-- src/mux.rs: what `MuxStreamIo` reads, and the credit it owes and returns for it.
use dsh_proxy.Common.{
  ℕ, zero, suc, ◌+◌, ◌%◌, ◌^◌, ◌≤◌, ◌<◌, ◌≡◌, ◌⊎◌, refl, sym, ap, subst, ◌∙◌, [], ◌∷◌, ◌++◌, length,
  take, drop, min, Option, none, some, inl, inr, Bool, Bool-cases, false, ok, err, Poll, ◌==◌, ltb,
  append_assoc, take-append-drop, length-take, length-drop, update_self, arith,
}
use dsh_proxy.Common.Bytes.{Bytes}
use dsh_proxy.Frame.{Frame}
use dsh_proxy.Mux.Runtime.{Runtime, Lawful, Received, chunk, ended, waiting}
use dsh_proxy.Mux.Session.{Channel, Half, MuxSession}
use dsh_proxy.Mux.Ops.{try_post}
use dsh_proxy.Mux.Read.{set_inbox}
use dsh_proxy.Mux.Io.{
  MuxStreamIo, tail, earn, window_frame, grant_threshold, flush_credit, return_credit, hand_over,
  deliver, read_from, poll_read,
}
use mathlib.Core.List.{flatten}

abbrev pub in_hand : Option Bytes → Bytes
in_hand none = []
in_hand (some b) = b

module _ {rt : Runtime} where
  -- What has arrived for the reader and was not handed to it.
  abbrev pub unread : MuxSession rt → MuxStreamIo → Bytes
  unread s io = in_hand io.inbox ++ flatten (rt.held (s.heap io.tx.at).inbox)

  -- The credit owed is kept, where it is below the threshold or the link does not take the frame, or it is
  -- returned whole in one frame, from the threshold on or at the end of the stream.
  abbrev pub Returned : MuxSession rt → ℕ → ℕ → Bytes → MuxSession rt × MuxStreamIo → Type 0
  Returned s id owed b (s', io') =
      ((rt.accepted s'.out ≡ rt.accepted s.out)
        × (io'.credit_due ≡ owed)
        × ((owed < grant_threshold) ⊎ ((rt.try_send_out s.out (window_frame id owed)).1 ≡ false)))
      ⊎ ((rt.accepted s'.out ≡ rt.accepted s.out ++ (window_frame id owed ∷ []))
          × (io'.credit_due ≡ 0)
          × ((grant_threshold ≤ owed) ⊎ (b ≡ [])))

  -- What an answer says of the bytes and of the credit owed for them.
  abbrev pub Read :
      MuxSession rt → MuxStreamIo → ℕ → (MuxSession rt × MuxStreamIo) × Poll Bytes → Type 0
  Read s io room ((s', io'), Poll.ready (ok b)) =
      (b ++ unread s' io' ≡ unread s io)
      × (length b ≤ room)
      × ((length b ≡ room) ⊎ (io'.inbox ≡ none))
      × Returned s io.tx.id (io.credit_due + length b) b (s', io')
  Read s io room ((s', io'), Poll.pending) =
      (io.inbox ≡ none)
      × ((rt.poll_recv (s.heap io.tx.at).inbox).1 ≡ waiting)
      × (unread s' io' ≡ unread s io)
      × (rt.accepted s'.out ≡ rt.accepted s.out)
      × (io'.credit_due ≡ io.credit_due)
  Read s io room ((s', io'), Poll.ready (err e)) = ⊥

  -- Credit is returned without touching what the reader sees.
  pub record Paid (s : MuxSession rt) (io : MuxStreamIo) (b : Bytes)
      (r : MuxSession rt × MuxStreamIo) : Type 0 where
    pub heap : r.0.heap ≡ s.heap
    pub inbox : r.1.inbox ≡ io.inbox
    pub tx : r.1.tx ≡ io.tx
    pub returned : Returned s io.tx.id io.credit_due b r

pub take-nil : (n : ℕ) → take {A = ℕ} n [] ≡ []
take-nil zero = refl
take-nil (suc n) = refl

in_hand-tail : (r : Bytes) → in_hand (tail r) ≡ r
in_hand-tail [] = refl
in_hand-tail (x ∷ xs) = ground arith

tail_empty : (r : Bytes) → length r ≡ 0 → tail r ≡ none
tail_empty r e = ground arith

module _ {rt : Runtime} (law : Lawful rt) where
  kept :
      (s : MuxSession rt) (io : MuxStreamIo) (b : Bytes)
      → io.credit_due < grant_threshold
      → Paid s io b (s, io)
  kept s io b low = record {
    heap = refl;
    inbox = refl;
    tx = refl;
    returned = inl (refl, refl, inl low);
  }

  flush_credit-Paid :
      (s : MuxSession rt) (io : MuxStreamIo) (b : Bytes)
      → (grant_threshold ≤ io.credit_due) ⊎ (b ≡ [])
      → Paid s io b (flush_credit s io)
  unfolding flush_credit try_post
  flush_credit-Paid s io b why = elim (Bool-cases (io.credit_due == 0)) [
    | inl z ↦ rw (z, flush_credit) (kept s io b (ground arith))
    | inr z ↦ elim (Bool-cases (rt.try_send_out s.out f).1) [
      | inl e ↦
          rw (z, e, flush_credit)
            (record {
              heap = refl;
              inbox = refl;
              tx = refl;
              returned = inr (law.try_send_out-taken s.out _ f (answer e), refl, why);
            })
      | inr e ↦
          rw (z, e, flush_credit)
            (record {
              heap = refl;
              inbox = refl;
              tx = refl;
              returned = inl (law.try_send_out-refused s.out _ f (answer e), refl, inr e);
            })
    ]
  ]
    where
      f : Frame
      f = window_frame io.tx.id io.credit_due

      answer :
          {b : Bool}
          → (rt.try_send_out s.out f).1 ≡ b
          → rt.try_send_out s.out f ≡ ((rt.try_send_out s.out f).0, b)
      answer e = ap (λ b. ((rt.try_send_out s.out f).0, b)) e

  return_credit-Paid :
      (s : MuxSession rt) (io : MuxStreamIo) (b : Bytes) → Paid s io b (return_credit s io)
  unfolding return_credit
  return_credit-Paid s io b = elim (Bool-cases (ltb io.credit_due grant_threshold)) [
    | inl low ↦ rw (low, return_credit) (kept s io b (ground arith))
    | inr high ↦ rw (high, return_credit) (flush_credit-Paid s io b (inl (ground arith)))
  ]

  earned : (due n room : ℕ) → n ≤ room → due + room < 2 ^ 32 → (due + n % 2 ^ 32) % 2 ^ 32 ≡ due + n
  earned due n room le h = omega arith

  hand_over-Read :
      (s0 s : MuxSession rt) (io : MuxStreamIo) (b : Bytes) (room : ℕ)
      → io.credit_due + room < 2 ^ 32
      → b ++ flatten (rt.held (s.heap io.tx.at).inbox) ≡ unread s0 io
      → s.out ≡ s0.out
      → Read s0 io room (hand_over s io b room)
  unfolding hand_over
  hand_over-Read s0 s io b room low e o = (
    ap (λ l. take n b ++ l) still
        ∙ sym (append_assoc (take n b) (drop n b) _)
        ∙ ap (λ l. l ++ flatten (rt.held (s.heap io.tx.at).inbox)) (take-append-drop n b)
        ∙ e,
    omega (arith, length-take n b),
    whole,
    subst (λ (m : ℕ). Returned s0 io.tx.id m (take n b) r) owed
        (subst
          (λ (l : rt.Outbox). Returned (record s { out = l }) io.tx.id io1.credit_due (take n b) r)
          o v.returned),
  )
    where
      n : ℕ
      n = min (length b) room

      io1 : MuxStreamIo
      io1 = earn (record io { inbox = tail (drop n b) }) n

      r : MuxSession rt × MuxStreamIo
      r = return_credit s io1

      v : Paid s io1 (take n b) r
      v = return_credit-Paid s io1 (take n b)

      whole : (length (take n b) ≡ room) ⊎ (r.1.inbox ≡ none)
      whole = elim (Bool-cases (ltb room (length b))) [
        | inl more ↦ inl (ground (arith, length-take n b))
        | inr fits ↦ inr (v.inbox ∙ tail_empty (drop n b) (ground (arith, length-drop n b)))
      ]

      owed : io1.credit_due ≡ io.credit_due + length (take n b)
      owed = earned io.credit_due n room (omega arith) low ∙ omega (arith, length-take n b)

      still : unread r.0 r.1 ≡ drop n b ++ flatten (rt.held (s.heap io.tx.at).inbox)
      still =
          ap (λ (h : Half). in_hand r.1.inbox ++ flatten (rt.held (r.0.heap h.at).inbox)) v.tx
          ∙ ap (λ (h : ℕ → Channel rt). in_hand r.1.inbox ++ flatten (rt.held (h io.tx.at).inbox))
              v.heap
          ∙ ap (λ i. in_hand i ++ flatten (rt.held (s.heap io.tx.at).inbox)) v.inbox
          ∙ ap (λ l. l ++ flatten (rt.held (s.heap io.tx.at).inbox)) (in_hand-tail (drop n b))

  put_back : (s : MuxSession rt) (at : ℕ) (i : rt.Inbox) → ((set_inbox s at i).heap at).inbox ≡ i
  unfolding set_inbox
  put_back s at i = ap (λ (c : Channel rt). c.inbox) (update_self s.heap at _)

  nothing_unread :
      (s : MuxSession rt) (io : MuxStreamIo)
      → io.inbox ≡ none
      → rt.held (s.heap io.tx.at).inbox ≡ []
      → unread s io ≡ []
  unfolding flatten
  nothing_unread s io e h =
      ap (λ o. in_hand o ++ flatten (rt.held (s.heap io.tx.at).inbox)) e ∙ ap flatten h

  deliver-Read :
      (s : MuxSession rt) (io : MuxStreamIo) (r : Received) (i : rt.Inbox) (room : ℕ)
      → io.credit_due + room < 2 ^ 32
      → io.inbox ≡ none
      → rt.poll_recv (s.heap io.tx.at).inbox ≡ (i, r)
      → Read s io room (deliver (set_inbox s io.tx.at i) io r room)
  unfolding deliver
  deliver-Read s io (chunk b) i room low e q =
      hand_over-Read s (set_inbox s io.tx.at i) io b room low
        (ap (λ j. b ++ flatten (rt.held j)) (put_back s io.tx.at i)
          ∙ unfold flatten in
            ap flatten (sym (law.poll_recv-chunk _ i b q))
            ∙ ap (λ o. in_hand o ++ flatten (rt.held (s.heap io.tx.at).inbox)) (sym e))
        (unfold set_inbox in refl)
  deliver-Read s io ended i room low e q =
      let (none_held, none_left) = law.poll_recv-ended _ i q in
      let still = ap rt.held (put_back s io.tx.at i) ∙ none_left in
      let s1 = set_inbox s io.tx.at i in
      let v = flush_credit-Paid s1 io [] (inr refl) in
      let r = flush_credit s1 io in
      let owed : io.credit_due ≡ io.credit_due + 0 = omega arith in
      let ret : Returned s io.tx.id io.credit_due [] r = unfold set_inbox in v.returned in
      (
        nothing_unread r.0 r.1 (v.inbox ∙ e) (
              ap (λ (h : Half). rt.held (r.0.heap h.at).inbox) v.tx
              ∙ ap (λ (h : ℕ → Channel rt). rt.held (h io.tx.at).inbox) v.heap
              ∙ still)
            ∙ sym (nothing_unread s io e none_held),
        omega arith,
        inr (v.inbox ∙ e),
        subst (λ (m : ℕ). Returned s io.tx.id m [] r) owed ret,
      )
  deliver-Read s io waiting i room low e q = (
    e,
    ap (λ (p : rt.Inbox × Received). p.1) q,
    ap (λ l. in_hand io.inbox ++ flatten l)
        (ap rt.held (put_back s io.tx.at i) ∙ law.poll_recv-waiting _ i q),
    unfold set_inbox in refl,
    refl,
  )

  read_from-Read :
      (s : MuxSession rt) (io : MuxStreamIo) (o : Option Bytes) (room : ℕ)
      → io.credit_due + room < 2 ^ 32
      → io.inbox ≡ o
      → Read s io room (read_from s io o room)
  unfolding read_from
  read_from-Read s io (some b) room low e =
      hand_over-Read s s io b room low
        (ap (λ o. in_hand o ++ flatten (rt.held (s.heap io.tx.at).inbox)) (sym e)) refl
  read_from-Read s io none room low e = deliver-Read s io _ _ room low e refl

  -- A read takes the front of what has arrived, no more than there is room for, and leaves nothing in
  -- hand unless it fills that room; it owes the peer exactly that much more credit. What is owed is kept
  -- while it is below the threshold or if the link does not take the frame, and is returned whole in one
  -- frame otherwise; below the threshold it is returned only with an answer of no bytes. A read waits
  -- only where nothing is in hand and the channel waits; what is unread, what the link has taken and
  -- what is owed are then as they were. The credit owed is below 2^32 by more than there is room for.
  pub poll_read-Read :
      (s : MuxSession rt) (io : MuxStreamIo) (room : ℕ)
      → io.credit_due + room < 2 ^ 32
      → Read s io room (poll_read s io room)
  unfolding poll_read
  poll_read-Read s io room low = read_from-Read s io io.inbox room low refl
