-- ===== src/Mux/Read/Effects.antt =====
-- src/mux.rs: what a frame from the peer does to its own stream, on each branch.
use dsh_proxy.Common.{
  ℕ, ◌≤◌, ◌<◌, ◌≡◌, ◌≢◌, ◌⊎◌, refl, subst, ap, ◌∙◌, [], ◌∷◌, ◌++◌, length, none, some, inl, inr,
  Bool, true, false, arith, Bool-cases, broken_pipe, lookup, erase, Distinct, lookup-erase_self,
  update, update_self, update_ne,
}
use dsh_proxy.Common.Bytes.{Bytes}
use dsh_proxy.Frame.{Frame, control}
use dsh_proxy.Mux.Runtime.{Runtime, Lawful, Sent, taken, full}
use dsh_proxy.Mux.Session.{Channel, MuxSession}
use dsh_proxy.Mux.Ops.{drop_state, close_credit, hang_up, post}
use dsh_proxy.Mux.Read.{
  Outcome, continues, fails, reply, set_inbox, settle, peer_data, peer_window, dispatch,
}
use dsh_proxy.Mux.Read.Streams.{drop_state-streams, close_credit-streams}
use dsh_proxy.Wire.{kind_data, kind_close, kind_window}

abbrev pub frame_of : ℕ → ℕ → Bytes → Frame
frame_of id kind payload = record { id = id; kind = kind; payload = payload }

module _ {rt : Runtime} where
  dispatch-data :
      (s : MuxSession rt) (id : ℕ) (payload : Bytes)
      → id ≢ 0
      → dispatch s (frame_of id kind_data payload) ≡ peer_data s id payload
  unfolding dispatch
  dispatch-data s id payload ne = ground arith

  pub dispatch-window :
      (s : MuxSession rt) (id : ℕ) (payload : Bytes)
      → id ≢ 0
      → length payload ≡ 4
      → dispatch s (frame_of id kind_window payload) ≡ peer_window s id payload
  unfolding dispatch
  dispatch-window s id payload ne four = ground arith

  -- Where the stream is found, the answer of its inbox decides.
  peer_data-found :
      (s : MuxSession rt) (id at : ℕ) (payload : Bytes) (i : rt.Inbox) (sent : Sent)
      → lookup id s.streams ≡ some at
      → rt.try_send (s.heap at).inbox payload ≡ (i, sent)
      → peer_data s id payload ≡ settle (set_inbox s at i) id sent
  unfolding peer_data
  peer_data-found s id at payload i sent e h = rw (e, peer_data) (rw h refl)

module _ {rt : Runtime} (law : Lawful rt) where
  -- A keepalive is answered by a keepalive and touches no stream, whatever kind and content it has.
  pub dispatch_keepalive :
      (s : MuxSession rt) (kind : ℕ) (payload : Bytes)
      → let (s', o) = dispatch s (record { id = 0; kind = kind; payload = payload }) in
        (s'.streams ≡ s.streams)
        × (s'.heap ≡ s.heap)
        × (s'.budget ≡ s.budget)
        × (((o ≡ continues)
              × (rt.accepted s'.out ≡ rt.accepted s.out ++ (control 0 kind_data ∷ [])))
            ⊎ ((o ≡ fails broken_pipe) × (rt.accepted s'.out ≡ rt.accepted s.out)))
  unfolding dispatch reply post
  dispatch_keepalive s kind payload = elim (Bool-cases (rt.send s.out echo).1) [
    | inl sent ↦ (refl, refl, refl, inl (rw sent refl, law.send-taken s.out _ echo (answer sent)))
    | inr lost ↦ (refl, refl, refl, inr (rw lost refl, law.send-closed s.out _ echo (answer lost)))
  ]
    where
      echo : Frame
      echo = control 0 kind_data

      answer :
          {b : Bool} → (rt.send s.out echo).1 ≡ b → rt.send s.out echo ≡ ((rt.send s.out echo).0, b)
      answer p = ap (λ b. ((rt.send s.out echo).0, b)) p

  -- What a DATA frame finds: the stream, and a reader that is still there.
  pub record Listening (s : MuxSession rt) (id at : ℕ) : Type 0 where
    pub stream : id ≢ 0
    pub found : lookup id s.streams ≡ some at
    pub reading : rt.receiver_gone (s.heap at).inbox ≡ false

  -- All of a session but its heap is as it was.
  pub record Beside (s s' : MuxSession rt) : Type 0 where
    pub out : s'.out ≡ s.out
    pub streams : s'.streams ≡ s.streams
    pub next_id : s'.next_id ≡ s.next_id
    pub budget : s'.budget ≡ s.budget
    pub reader_aborted : s'.reader_aborted ≡ s.reader_aborted
    pub writer_aborted : s'.writer_aborted ≡ s.writer_aborted
    pub on_open : s'.on_open ≡ s.on_open
    pub announced : s'.announced ≡ s.announced
    pub fresh : s'.fresh ≡ s.fresh

  -- A DATA frame for a stream of the map with an id that is not 0, whose inbox has room and a reader, joins
  -- the end of that inbox. Its credit, the inboxes and credits of all other addresses, and everything
  -- else of the session are as they were, and the link goes on.
  pub dispatch_delivers :
      (s : MuxSession rt) (id at : ℕ) (payload : Bytes)
      → Listening s id at
      → length (rt.held (s.heap at).inbox) < rt.capacity (s.heap at).inbox
      → let (s', o) = dispatch s (frame_of id kind_data payload) in
        (o ≡ continues)
        × (rt.held (s'.heap at).inbox ≡ rt.held (s.heap at).inbox ++ (payload ∷ []))
        × ((s'.heap at).credit ≡ (s.heap at).credit)
        × (rt.capacity (s'.heap at).inbox ≡ rt.capacity (s.heap at).inbox)
        × (rt.receiver_gone (s'.heap at).inbox ≡ false)
        × ((b : ℕ) → b ≢ at → s'.heap b ≡ s.heap b)
        × Beside s s'
  dispatch_delivers s id at payload l room = rw (dispatch-data s id payload l.stream) (
      rw (peer_data-found s id at payload _ taken l.found answer) (
        unfold settle set_inbox in
        (
          refl,
          ap (λ c. rt.held c.inbox) put ∙ law.try_send-taken i _ payload answer,
          ap (λ c. c.credit) put,
          ap (λ c. rt.capacity c.inbox) put ∙ keeps.0,
          ap (λ c. rt.receiver_gone c.inbox) put ∙ keeps.1 ∙ l.reading,
          λ b ne. update_ne s.heap at _ b ne,
          record {
            out = refl;
            streams = refl;
            next_id = refl;
            budget = refl;
            reader_aborted = refl;
            writer_aborted = refl;
            on_open = refl;
            announced = refl;
            fresh = refl;
          },
        )))
    where
      i : rt.Inbox
      i = (s.heap at).inbox

      keeps :
          (rt.capacity (rt.try_send i payload).0 ≡ rt.capacity i)
          × (rt.receiver_gone (rt.try_send i payload).0 ≡ rt.receiver_gone i)
      keeps = law.try_send_keeps i payload

      answer : rt.try_send i payload ≡ ((rt.try_send i payload).0, taken)
      answer = ap (λ b. ((rt.try_send i payload).0, b)) (law.try_send-room i payload l.reading room)

      put :
          update s.heap at
            (record { inbox = (rt.try_send i payload).0; credit = (s.heap at).credit })
            at
          ≡ record { inbox = (rt.try_send i payload).0; credit = (s.heap at).credit }
      put = update_self s.heap at _

  drop_state-closed :
      (s : MuxSession rt) (at : ℕ)
      → rt.is_closed ((drop_state s at).heap at).credit ≡ rt.is_closed (s.heap at).credit
  unfolding drop_state
  drop_state-closed s at = ap (λ (c : Channel rt). rt.is_closed c.credit) (update_self s.heap at _)

  close_credit-closed :
      (s : MuxSession rt) (at : ℕ) → rt.is_closed ((close_credit s at).heap at).credit ≡ true
  unfolding close_credit
  close_credit-closed s at =
      ap (λ (c : Channel rt). rt.is_closed c.credit) (update_self s.heap at _)
      ∙ law.is_closed-close (s.heap at).credit

  -- Where a stream ends: it is out of the map, and whoever waits for its credit is woken to fail.
  pub hang_up_ends :
      (s : MuxSession rt) (id at : ℕ)
      → lookup id s.streams ≡ some at
      → Distinct s.streams
      → (lookup id (hang_up s id).streams ≡ none)
        × (rt.is_closed ((hang_up s id).heap at).credit ≡ true)
        × ((hang_up s id).out ≡ s.out)
  unfolding hang_up
  hang_up_ends s id at e d =
      let without = record s { streams = erase id s.streams } in
      rw (e, hang_up)
        (
          ap (lookup id)
                (drop_state-streams (close_credit without at) at ∙ close_credit-streams without at)
              ∙ lookup-erase_self id s.streams d,
          drop_state-closed _ at ∙ close_credit-closed _ at,
          unfold drop_state close_credit in refl,
        )

  -- How an answer to the peer ends: the frame is on its way, or the link is found dead.
  abbrev pub Answered : MuxSession rt → MuxSession rt × Outcome → Frame → Type 0
  Answered s (s', o) f =
      ((o ≡ continues) × (rt.accepted s'.out ≡ rt.accepted s.out ++ (f ∷ [])))
      ⊎ ((o ≡ fails broken_pipe) × (rt.accepted s'.out ≡ rt.accepted s.out))

  reply-Answered : (s : MuxSession rt) (f : Frame) → Answered s (reply s f) f
  unfolding reply post
  reply-Answered s f = elim (Bool-cases (rt.send s.out f).1) [
    | inl sent ↦ inl (rw sent refl, law.send-taken s.out _ f (answer sent))
    | inr lost ↦ inr (rw lost refl, law.send-closed s.out _ f (answer lost))
  ]
    where
      answer : {b : Bool} → (rt.send s.out f).1 ≡ b → rt.send s.out f ≡ ((rt.send s.out f).0, b)
      answer p = ap (λ b. ((rt.send s.out f).0, b)) p

  -- A DATA frame that meets a full inbox costs its stream and no more: the stream leaves the map, the
  -- senders that wait for its credit are woken to fail, and the peer is told by a CLOSE frame; the link
  -- goes on unless it is found dead.
  pub dispatch_overflow :
      (s : MuxSession rt) (id at : ℕ) (payload : Bytes)
      → Listening s id at
      → Distinct s.streams
      → rt.capacity (s.heap at).inbox ≤ length (rt.held (s.heap at).inbox)
      → let r = dispatch s (frame_of id kind_data payload) in
        (lookup id r.0.streams ≡ none)
        × (rt.is_closed (r.0.heap at).credit ≡ true)
        × Answered s r (control id kind_close)
  dispatch_overflow s id at payload l d over = rw (dispatch-data s id payload l.stream) (
      rw (peer_data-found s id at payload _ full l.found answer) (
        unfold settle in
        (
          unfold reply post in ends.0,
          unfold reply post in ends.1,
          subst
              (λ o.
                Answered (record s { out = o }) (reply (hang_up s1 id) (control id kind_close))
                  (control id kind_close))
              ends.2 (reply-Answered (hang_up s1 id) (control id kind_close)),
        )))
    where
      i : rt.Inbox
      i = (s.heap at).inbox

      answer : rt.try_send i payload ≡ ((rt.try_send i payload).0, full)
      answer =
          ap (λ b. ((rt.try_send i payload).0, b))
            (law.try_send_at_capacity i payload l.reading over)

      s1 : MuxSession rt
      s1 = set_inbox s at (rt.try_send i payload).0

      ends :
          (lookup id (hang_up s1 id).streams ≡ none)
          × (rt.is_closed ((hang_up s1 id).heap at).credit ≡ true)
          × ((hang_up s1 id).out ≡ s.out)
      ends =
          let e = hang_up_ends s1 id at (unfold set_inbox in l.found) (unfold set_inbox in d) in
          (e.0, e.1, e.2 ∙ unfold set_inbox in refl)
